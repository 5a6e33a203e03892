-- ===== src/Canonical/Json.antt =====
-- packages/contracts/src/canonical.ts: the values that the two seams read, and their errors.
use sih26_proto.Common.{ℕ, Bool, List, Option}

abbrev pub Text : Type 0
Text = List ℕ

-- JavaScript's numbers: `Number(raw)` and `Number.isFinite`.
pub record Numbers (N : Type 0) : Type 0 where
  pub to_number : Text → N
  pub is_finite : N → Bool

-- What `typeof` calls the values that JSON does not have.
pub data Foreign : Type 0 where
  bigint undefined symbol function : Foreign

-- An `unknown` of JavaScript. `circular` stands where an object holds one of the objects around it.
-- A hole is an index of a sparse array without a property, and `named` holds the array's other keys.
-- An object is plain or not, has symbol keys or not, and has its members in the order of its keys.
mutual
  pub data Value (N : Type 0) : Type 0 where
    null : Value N
    bool : Bool → Value N
    number : N → Value N
    string : Text → Value N
    not_json : Foreign → Value N
    circular : Value N
    array : Elements N → (named : List Text) → Value N
    object : (plain symbols : Bool) → Members N → Value N

  pub data Elements (N : Type 0) : Type 0 where
    no_elements : Elements N
    hole : Elements N → Elements N
    element : Value N → Elements N → Elements N

  pub data Members (N : Type 0) : Type 0 where
    no_members : Members N
    member : Text → Value N → Members N → Members N

-- One step of the `path` of an error, `[i]` or `.key` behind `$`; the last step stands first.
pub data Step : Type 0 where
  at_index : ℕ → Step
  at_key : Text → Step

abbrev pub ValuePath : Type 0
ValuePath = List Step

-- `CanonicalError`, with `position` where the parser fails and `path` where a value is refused.
pub data CanonicalError : Type 0 where
  not_json_text : (position : ℕ) → CanonicalError
  duplicate_object_key : (position : ℕ) → CanonicalError
  non_ijson_value : (path : Option ValuePath) → CanonicalError
  out_of_fuel : CanonicalError
