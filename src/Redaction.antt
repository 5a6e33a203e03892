-- ===== src/Redaction.antt =====
-- packages/contracts/src/redaction.ts: JSON Pointers into a payload, over the values of
-- packages/contracts/src/canonical.ts. A payload has no cycle.
pub mod Pointers
pub mod Written
pub mod Children
pub mod Laws
use sih26_proto.Common.{
  ℕ, zero, suc, ◌+◌, ◌*◌, ◌-◌, nat_eq, list_eq, Eq, Bool, true, false, not, ◌&&◌, ◌||◌, Option,
  none, some, List, [], ◌∷◌, if◌then◌else◌, nat_beq, ◌==◌, codes, map, all,
}
use sih26_proto.Result.{Result, ok, err, ◌>>=◌, IntegrityError, redaction_failure}
use sih26_proto.Canonical.Json.{
  Text, Value, null, bool, number, string, not_json, circular, array, object, Foreign, undefined,
  Elements, no_elements, hole, element, Members, no_members, member,
}
use sih26_proto.Canonical.Compatible.{is_index_key}

abbrev pub redacted : Text
redacted = codes "[REDACTED]"

-- `split("/")`
abbrev pub in_front : ℕ → List Text → List Text
in_front c [] = (c ∷ []) ∷ []
in_front c (s ∷ ss) = (c ∷ s) ∷ ss

unfoldable pub split_slashes : Text → List Text
split_slashes [] = [] ∷ []
split_slashes (c ∷ cs) =
    let rest = split_slashes cs in if nat_beq c 47 then [] ∷ rest else in_front c rest

-- `/^([^~]|~[01])*$/`
abbrev pub is_escape_digit : ℕ → Bool
is_escape_digit c = nat_beq c 48 || nat_beq c 49

unfoldable mutual
  pub has_good_escapes : Text → Bool
  has_good_escapes [] = true
  has_good_escapes (c ∷ cs) = elim (nat_beq c 126) [
    | true ↦ has_good_escape cs
    | false ↦ has_good_escapes cs
  ]

  pub has_good_escape : Text → Bool
  has_good_escape [] = false
  has_good_escape (c ∷ cs) = is_escape_digit c && has_good_escapes cs

-- `replace(/~d/g, by)` for a digit `d`
unfoldable mutual
  pub replace_escape : (d by : ℕ) → Text → Text
  replace_escape d by [] = []
  replace_escape d by (c ∷ cs) = elim (nat_beq c 126) [
    | true ↦ replace_behind d by cs
    | false ↦ c ∷ replace_escape d by cs
  ]

  -- Behind a tilde that is not written yet.
  pub replace_behind : (d by : ℕ) → Text → Text
  replace_behind d by [] = 126 ∷ []
  replace_behind d by (c ∷ cs) = elim (nat_beq c d) [
    | true ↦ by ∷ replace_escape d by cs
    | false ↦ elim (nat_beq c 126) [
      | true ↦ 126 ∷ replace_behind d by cs
      | false ↦ 126 ∷ c ∷ replace_escape d by cs
    ]
  ]

abbrev pub unescape : Text → Text
unescape segment = replace_escape 48 126 (replace_escape 49 47 segment)

unfoldable pub split_pointer : Text → Result (List Text) IntegrityError
split_pointer [] = ok []
split_pointer (c ∷ cs) =
    if not (nat_beq c 47)
    then err redaction_failure
    else if not (all has_good_escapes (split_slashes cs))
    then err redaction_failure
    else ok (map unescape (split_slashes cs))

-- `Number(token)` of decimal digits
abbrev pub decimal_from : ℕ → Text → ℕ
decimal_from n [] = n
decimal_from n (c ∷ cs) = decimal_from (n * 10 + (c - 48)) cs

module _ {N : Type 0} where
  -- `undefined`, a hole and an index out of range are refused alike.
  unfoldable pub element_at : ℕ → Elements N → Option (Value N)
  element_at i no_elements = none
  element_at zero (hole items) = none
  element_at zero (element v items) = some v
  element_at (suc i) (hole items) = element_at i items
  element_at (suc i) (element v items) = element_at i items

  unfoldable pub member_at : Text → Members N → Option (Value N)
  member_at key no_members = none
  member_at key (member k v ms) = let rest = member_at key ms in if k == key then some v else rest

  abbrev pub defined : Option (Value N) → Option (Value N)
  defined (some (not_json undefined)) = none
  defined v = v

  -- One turn of the loop of `resolvePointer`.
  unfoldable pub descend : Value N → Text → Option (Value N)
  descend (array items named) token =
      if is_index_key token then defined (element_at (decimal_from 0 token) items) else none
  descend (object plain symbols ms) token = defined (member_at token ms)
  descend _ token = none

  unfoldable pub resolve_tokens : Value N → List Text → Result (Value N) IntegrityError
  resolve_tokens v [] = ok v
  resolve_tokens v (token ∷ tokens) = elim (descend v token) [
    | none ↦ err redaction_failure
    | some w ↦ resolve_tokens w tokens
  ]

  unfoldable pub resolve_pointer : Value N → Text → Result (Value N) IntegrityError
  resolve_pointer v pointer = split_pointer pointer >>= λ tokens. resolve_tokens v tokens

  abbrev pub is_redacted : Value N → Bool
  is_redacted (string s) = s == redacted
  is_redacted _ = false

  unfoldable pub verify_redaction : Value N → List Text → Result Bool IntegrityError
  verify_redaction payload [] = ok true
  verify_redaction payload (pointer ∷ pointers) =
      let rest = verify_redaction payload pointers in
      resolve_pointer payload pointer >>= λ v. if is_redacted v then rest else err redaction_failure
