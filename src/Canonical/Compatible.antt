-- ===== src/Canonical/Compatible.antt =====
-- packages/contracts/src/canonical.ts, `assertJsonCompatible` and `firstUnpairedSurrogate`: which values
-- of JavaScript are I-JSON, and where the first one that is not stands.
use sih26_proto.Common.{
  ℕ, suc, Bool, true, false, ◌&&◌, Option, none, some, List, [], ◌∷◌, leb, nat_beq, if◌then◌else◌,
  all, length,
}
use sih26_proto.Canonical.Json.{
  Text, Numbers, Value, null, bool, number, string, not_json, circular, array, object, Elements,
  no_elements, hole, element, Members, no_members, member, ValuePath, at_index, at_key,
}
use sih26_proto.Canonical.Scan.{is_digit}

abbrev pub is_high : ℕ → Bool
is_high c = leb 55296 c && leb c 56319

abbrev pub is_low : ℕ → Bool
is_low c = leb 56320 c && leb c 57343

-- The loop of `firstUnpairedSurrogate` from an index on, and behind a high surrogate at the index.
unfoldable mutual
  pub surrogate_from : ℕ → Text → Option ℕ
  surrogate_from i [] = none
  surrogate_from i (c ∷ ts) = elim (is_high c) [
    | true ↦ surrogate_behind i ts
    | false ↦ elim (is_low c) [ true ↦ some i | false ↦ surrogate_from (suc i) ts ]
  ]

  pub surrogate_behind : ℕ → Text → Option ℕ
  surrogate_behind i [] = some i
  surrogate_behind i (c ∷ ts) = elim (is_low c) [
    | true ↦ surrogate_from (suc (suc i)) ts
    | false ↦ some i
  ]

abbrev pub first_unpaired_surrogate : Text → Option ℕ
first_unpaired_surrogate = surrogate_from 0

-- `/^(0|[1-9]\d*)$/`
unfoldable pub is_index_key : Text → Bool
is_index_key [] = false
is_index_key (c ∷ ts) =
    if nat_beq c 48 then nat_beq (length ts) 0 else leb 49 c && leb c 57 && all is_digit ts

-- A problem found, or else what the rest of the checks says.
abbrev pub or_else {ℓ} : {A : Type ℓ} → Option A → Option A → Option A
or_else none next = next
or_else (some problem) next = some problem

unfoldable pub named_property : ValuePath → List Text → Option ValuePath
named_property path [] = none
named_property path (key ∷ keys) =
    if is_index_key key then named_property path keys else some (at_key key ∷ path)

unfoldable pub unpaired_at : ValuePath → Text → Option ValuePath
unpaired_at path s = elim (first_unpaired_surrogate s) [ none ↦ none | some i ↦ some path ]

module _ {N : Type 0} ⦃js : Numbers N⦄ where
  -- The `path` of the error, where there is one.
  unfoldable mutual
    pub problem_in : ValuePath → Value N → Option ValuePath
    problem_in path null = none
    problem_in path (bool b) = none
    problem_in path (number n) = if js.is_finite n then none else some path
    problem_in path (string s) = unpaired_at path s
    problem_in path (not_json kind) = some path
    problem_in path circular = some path
    problem_in path (array items named) =
        or_else (problem_in_elements path 0 items) (named_property path named)
    problem_in path (object false symbols ms) = some path
    problem_in path (object true true ms) = some path
    problem_in path (object true false ms) = problem_in_members path ms

    pub problem_in_elements : ValuePath → ℕ → Elements N → Option ValuePath
    problem_in_elements path i no_elements = none
    problem_in_elements path i (hole items) = some (at_index i ∷ path)
    problem_in_elements path i (element v items) =
        or_else (problem_in (at_index i ∷ path) v) (problem_in_elements path (suc i) items)

    pub problem_in_members : ValuePath → Members N → Option ValuePath
    problem_in_members path no_members = none
    problem_in_members path (member key v ms) =
        or_else (unpaired_at path key)
          (or_else (problem_in (at_key key ∷ path) v) (problem_in_members path ms))

  -- `assertJsonCompatible(value, "$", new Set())`
  abbrev pub assert_json_compatible : Value N → Option ValuePath
  assert_json_compatible = problem_in []
