-- ===== src/Canonical/Parser.antt =====
-- packages/contracts/src/canonical.ts, `StrictJsonParser`: recursive descent on fuel, one unit for
-- each call of `parseValue` and for each turn of the loops of `parseObject` and `parseArray`.
use sih26_proto.Common.{
  ℕ, zero, suc, Bool, true, false, ◌||◌, none, some, List, [], ◌∷◌, nat_beq, if◌then◌else◌,
  includes,
}
use sih26_proto.Common.{nat_eq, list_eq}
use sih26_proto.Result.{Result, ok, err, ◌>>=◌}
use sih26_proto.Canonical.Json.{
  Text, Numbers, Value, null, bool, number, string, array, object, Elements, no_elements, element,
  Members, no_members, member,
}
use sih26_proto.Canonical.Scan.{
  ParseFailure, bad_text, repeated_key, no_fuel, Parsed, skip_whitespace, peek_is, advance,
  is_digit, after_prefix, parse_string, scan_number,
}

-- What `parseValue` does with the first character.
pub data Start : Type 0 where
  of_object of_array of_string of_true of_false of_null of_number unexpected : Start

unfoldable pub start_of : Text → Start
start_of [] = unexpected
start_of (c ∷ ts) =
    if nat_beq c 123
    then of_object
    else if nat_beq c 91
    then of_array
    else if nat_beq c 34
    then of_string
    else if nat_beq c 116
    then of_true
    else if nat_beq c 102
    then of_false
    else if nat_beq c 110
    then of_null
    else if nat_beq c 45 || is_digit c
    then of_number
    else unexpected

-- What the loops do with the character behind an item.
pub data Next : Type 0 where
  another finished broken : Next

unfoldable pub next_of : (closing : ℕ) → Text → Next
next_of closing [] = broken
next_of closing (c ∷ ts) =
    if nat_beq c 44 then another else if nat_beq c closing then finished else broken

abbrev pub true_text : Text
true_text = 116 ∷ 114 ∷ 117 ∷ 101 ∷ []

abbrev pub false_text : Text
false_text = 102 ∷ 97 ∷ 108 ∷ 115 ∷ 101 ∷ []

abbrev pub null_text : Text
null_text = 110 ∷ 117 ∷ 108 ∷ 108 ∷ []

abbrev pub has_key : List Text → Text → Bool
has_key = includes

-- The key of a member and the `:` behind it.
unfoldable pub parse_key : List Text → Text → Parsed Text
parse_key keys ts =
    if peek_is 34 (skip_whitespace ts)
    then (parse_string (advance (skip_whitespace ts)) >>= λ (key, rest).
        if has_key keys key
        then err (repeated_key rest)
        else if peek_is 58 (skip_whitespace rest)
        then ok (key, advance (skip_whitespace rest))
        else err (bad_text (skip_whitespace rest)))
    else err (bad_text (skip_whitespace ts))

module _ {N : Type 0} ⦃js : Numbers N⦄ where
  unfoldable pub parse_literal : Text → Value N → Text → Parsed (Value N)
  parse_literal literal v ts = elim (after_prefix literal ts) [
    | some rest ↦ ok (v, rest)
    | none ↦ err (bad_text ts)
  ]

  unfoldable pub parse_number : Text → Parsed (Value N)
  parse_number ts = scan_number ts >>= λ (raw, rest).
      if js.is_finite (js.to_number raw)
      then ok (number (js.to_number raw), rest)
      else err (bad_text rest)

  -- `parseObject` and `parseArray`, behind the opening bracket; the argument is the loop.
  unfoldable pub parse_object : (Text → Parsed (Members N)) → Text → Parsed (Value N)
  parse_object loop ts = elim (peek_is 125 (skip_whitespace ts)) [
    | true ↦ ok (object true false no_members, advance (skip_whitespace ts))
    | false ↦ loop (skip_whitespace ts) >>= λ (members, rest). ok (object true false members, rest)
  ]

  unfoldable pub parse_array : (Text → Parsed (Elements N)) → Text → Parsed (Value N)
  parse_array loop ts = elim (peek_is 93 (skip_whitespace ts)) [
    | true ↦ ok (array no_elements [], advance (skip_whitespace ts))
    | false ↦ loop (skip_whitespace ts) >>= λ (items, rest). ok (array items [], rest)
  ]

  -- What stands behind a member or an item; the first argument is the loop's next turn.
  unfoldable pub next_member : (Text → Parsed (Members N)) → Text → Parsed (Members N)
  next_member loop ts = elim (next_of 125 ts) [
    | another ↦ loop (advance ts)
    | finished ↦ ok (no_members, advance ts)
    | broken ↦ err (bad_text ts)
  ]

  unfoldable pub next_element : (Text → Parsed (Elements N)) → Text → Parsed (Elements N)
  next_element loop ts = elim (next_of 93 ts) [
    | another ↦ loop (advance ts)
    | finished ↦ ok (no_elements, advance ts)
    | broken ↦ err (bad_text ts)
  ]

  unfoldable mutual
    pub parse_value : ℕ → Text → Parsed (Value N)
    parse_value zero ts = err no_fuel
    parse_value (suc f) ts =
        let here = skip_whitespace ts in
        elim (start_of here) [
          | of_object ↦ parse_object (λ inner. parse_members f [] inner) (advance here)
          | of_array ↦ parse_array (λ inner. parse_elements f inner) (advance here)
          | of_string ↦ parse_string (advance here) >>= λ (s, rest). ok (string s, rest)
          | of_true ↦ parse_literal true_text (bool true) here
          | of_false ↦ parse_literal false_text (bool false) here
          | of_null ↦ parse_literal null_text null here
          | of_number ↦ parse_number here
          | unexpected ↦ err (bad_text here)
        ]

    pub parse_members : ℕ → List Text → Text → Parsed (Members N)
    parse_members zero keys ts = err no_fuel
    parse_members (suc f) keys ts = parse_key keys ts >>= λ (key, behind_colon).
        parse_value f behind_colon >>= λ (v, rest).
        next_member (λ more. parse_members f (key ∷ keys) more) (skip_whitespace rest)
        >>= λ (members, last). ok (member key v members, last)

    pub parse_elements : ℕ → Text → Parsed (Elements N)
    parse_elements zero ts = err no_fuel
    parse_elements (suc f) ts = parse_value f ts >>= λ (v, rest).
        next_element (λ more. parse_elements f more) (skip_whitespace rest) >>= λ (items, last).
        ok (element v items, last)

  -- `StrictJsonParser.parse`
  unfoldable pub at_end : Value N → Text → Result (Value N) ParseFailure
  at_end v [] = ok v
  at_end v (c ∷ rest) = err (bad_text (c ∷ rest))

  unfoldable pub parse_whole : ℕ → Text → Result (Value N) ParseFailure
  parse_whole f ts = parse_value f ts >>= λ (v, rest). at_end v (skip_whitespace rest)
