-- ===== src/Examples/CanonicalRun.antt =====
-- Texts of JSON for packages/contracts/src/canonical.ts. A number is a natural number below ten, written
-- as its digit.
use sih26_proto.Common.{ℕ, ◌+◌, ◌-◌, ◌*◌, ◌≡◌, ◌≢◌, refl, true, false, some, [], ◌∷◌, codes}
use sih26_proto.Result.{ok, err}
use sih26_proto.Canonical.Json.{
  Text, Numbers, Value, bool, number, string, array, object, no_elements, element, no_members,
  member, not_json_text, duplicate_object_key, out_of_fuel, undefined, not_json, at_key, at_index,
}
use sih26_proto.Canonical.Scan.{
  skip_whitespace, parse_string, unit_kind, escape_kind, hex4, hex_value, hex_digit, scan_number,
  integer_part, sign_part, fraction_part, some_digits, take_digits, exponent_part, exponent_sign,
  exponent_digits, after_prefix,
}
use sih26_proto.Canonical.Parser.{
  parse_whole, parse_value, start_of, parse_array, parse_object, parse_key, parse_number,
  parse_literal, next_element, next_member, next_of, at_end,
}
use sih26_proto.Canonical.Compatible.{
  problem_in, unpaired_at, surrogate_from, named_property, is_index_key, assert_json_compatible,
}
use sih26_proto.Canonical.Distinct.{HasDistinctKeys}
use sih26_proto.Canonical.Entry.{parse_json_text_strict}
use sih26_proto.Canonical.Grammar.{IsIJson, empty, scalar, pair}
use sih26_proto.Canonical.Render.{
  write, IsPrintable, shows_bool, shows_number, shows_string, shows_array, shows_object, next,
  none_left, entry, no_more, IsShown,
}
use sih26_proto.Canonical.Admits.{parse_json_text_strict_terminates, parse_json_text_strict-IsIJson}
use sih26_proto.Canonical.RoundTrip.{parse_json_text_strict-write}

abbrev digits : ℕ → Text → ℕ
digits n [] = n
digits n (c ∷ cs) = digits (n * 10 + (c - 48)) cs

instance abbrev small : Numbers ℕ
small = record { to_number = digits 0; is_finite = λ n. true }

abbrev one_digit : ℕ → Text
one_digit n = (48 + n) ∷ []

-- {"a":[7,true],"b":"\u0001"} as a value; the string also holds a paired surrogate.
abbrev sample : Value ℕ
sample = object true false (
    member (97 ∷ []) (array (element (number 7) (element (bool true) no_elements)) [])
      (member (98 ∷ []) (string (1 ∷ 55357 ∷ 56832 ∷ [])) no_members))

digit_is_number : scan_number (one_digit 7) ≡ ok (one_digit 7, [])
unfolding scan_number integer_part sign_part fraction_part take_digits exponent_part
digit_is_number = refl

sample-IsPrintable : IsPrintable one_digit sample
sample-IsPrintable = shows_object (
    entry refl (scalar refl refl empty)
      (shows_array (next (shows_number seven) (next shows_bool none_left)))
      (entry refl (scalar refl refl empty) (shows_string (scalar refl refl (pair refl refl empty)))
        no_more))
  where
    seven : IsShown one_digit 7
    seven = record { finite = refl; is_number = digit_is_number; reads_back = refl }

parse_json_text_strict-write_example :
    parse_json_text_strict (write one_digit sample []) ≡ ok sample
parse_json_text_strict-write_example =
    parse_json_text_strict-write one_digit sample sample-IsPrintable

-- {"a":1,"a":2}
abbrev twice : Text
twice = codes "{\"a\":1,\"a\":2}"

repeated_key_refused : parse_json_text_strict {N = ℕ} twice ≡ err (duplicate_object_key 10)
unfolding parse_json_text_strict parse_whole parse_value start_of parse_array parse_object parse_key
    parse_number parse_literal next_element next_member next_of at_end skip_whitespace parse_string
    unit_kind escape_kind hex4 hex_value hex_digit scan_number integer_part sign_part fraction_part
    some_digits take_digits exponent_part exponent_sign exponent_digits after_prefix problem_in
    unpaired_at surrogate_from named_property is_index_key
repeated_key_refused = refl

-- [1,]
trailing_comma_refused : parse_json_text_strict {N = ℕ} (codes "[1,]") ≡ err (not_json_text 3)
unfolding parse_json_text_strict parse_whole parse_value start_of parse_array parse_object parse_key
    parse_number parse_literal next_element next_member next_of at_end skip_whitespace parse_string
    unit_kind escape_kind hex4 hex_value hex_digit scan_number integer_part sign_part fraction_part
    some_digits take_digits exponent_part exponent_sign exponent_digits after_prefix problem_in
    unpaired_at surrogate_from named_property is_index_key
trailing_comma_refused = refl

-- 01
leading_zero_refused : parse_json_text_strict {N = ℕ} (codes "01") ≡ err (not_json_text 1)
unfolding parse_json_text_strict parse_whole parse_value start_of parse_array parse_object parse_key
    parse_number parse_literal next_element next_member next_of at_end skip_whitespace parse_string
    unit_kind escape_kind hex4 hex_value hex_digit scan_number integer_part sign_part fraction_part
    some_digits take_digits exponent_part exponent_sign exponent_digits after_prefix problem_in
    unpaired_at surrogate_from named_property is_index_key
leading_zero_refused = refl

parse_json_text_strict_terminates_example : parse_json_text_strict {N = ℕ} twice ≢ err out_of_fuel
parse_json_text_strict_terminates_example = parse_json_text_strict_terminates twice

-- { "a" : [ 7 , true ] }
abbrev spaced : Text
spaced = codes "{ \"a\" : [ 7 , true ] }"

abbrev spaced_value : Value ℕ
spaced_value =
    object true false (
      member (97 ∷ []) (array (element (number 7) (element (bool true) no_elements)) []) no_members)

spaced_read : parse_json_text_strict spaced ≡ ok spaced_value
unfolding parse_json_text_strict parse_whole parse_value start_of parse_array parse_object parse_key
    parse_number parse_literal next_element next_member next_of at_end skip_whitespace parse_string
    unit_kind escape_kind hex4 hex_value hex_digit scan_number integer_part sign_part fraction_part
    some_digits take_digits exponent_part exponent_sign exponent_digits after_prefix problem_in
    unpaired_at surrogate_from named_property is_index_key
spaced_read = refl

parse_json_text_strict-IsIJson_example : HasDistinctKeys spaced_value × IsIJson spaced_value
parse_json_text_strict-IsIJson_example =
    parse_json_text_strict-IsIJson spaced spaced_value spaced_read

-- { a: [undefined] } and [ , 1] of JavaScript
abbrev with_undefined : Value ℕ
with_undefined =
    object true false
      (member (97 ∷ []) (array (element (not_json undefined) no_elements) []) no_members)

undefined_refused :
    assert_json_compatible with_undefined ≡ some (at_index 0 ∷ at_key (97 ∷ []) ∷ [])
unfolding problem_in unpaired_at surrogate_from
undefined_refused = refl
