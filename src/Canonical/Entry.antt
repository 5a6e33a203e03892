-- ===== src/Canonical/Entry.antt =====
-- packages/contracts/src/canonical.ts: the exported functions. The RFC 8785 serializer is a package that
-- the program calls (`canonicalize`), an argument here: the text of a value, `undefined`, or a throw.
-- The bytes of a text in UTF-8 stand for the text itself.
use sih26_proto.Canonical.Json.{
  ValuePath, Text, Numbers, Value, CanonicalError, not_json_text, duplicate_object_key,
  non_ijson_value, out_of_fuel,
}
use sih26_proto.Common.{◌+◌, ◌*◌, ◌-◌, Option, none, some, length}
use sih26_proto.Result.{Result, ok, err, ◌>>=◌}
use sih26_proto.Canonical.Scan.{ParseFailure, bad_text, repeated_key, no_fuel}
use sih26_proto.Canonical.Parser.{parse_whole}
use sih26_proto.Canonical.Compatible.{assert_json_compatible}

-- `position: value.position`
unfoldable pub failure_at : Text → ParseFailure → CanonicalError
failure_at text (bad_text rest) = not_json_text (length text - length rest)
failure_at text (repeated_key rest) = duplicate_object_key (length text - length rest)
failure_at text no_fuel = out_of_fuel

-- A serializer's answer: `undefined` is `none`, and a throw is an error.
abbrev pub Serializer : Type 0 → Type 0
Serializer N = Value N → Result (Option Text) (Unit {0})

unfoldable pub serialized : Result (Option Text) (Unit {0}) → Result Text CanonicalError
serialized (err thrown) = err (non_ijson_value none)
serialized (ok none) = err (non_ijson_value none)
serialized (ok (some text)) = ok text

module _ {N : Type 0} ⦃js : Numbers N⦄ where
  -- `assertJsonCompatible` on a value, and the value itself where there is no problem.
  unfoldable pub compatible : Option ValuePath → Value N → Result (Value N) CanonicalError
  compatible (some path) v = err (non_ijson_value (some path))
  compatible none v = ok v

  unfoldable pub checked : Text → Result (Value N) ParseFailure → Result (Value N) CanonicalError
  unfolding failure_at compatible
  checked text (err failure) = err (failure_at text failure)
  checked text (ok v) = compatible (assert_json_compatible v) v

  unfoldable pub parse_json_text_strict : Text → Result (Value N) CanonicalError
  unfolding checked
  parse_json_text_strict text = checked text (parse_whole (2 * length text + 1) text)

  module _ (canonicalize : Serializer N) where
    unfoldable pub canonicalize_json_value : Value N → Result Text CanonicalError
    unfolding serialized compatible
    canonicalize_json_value v = compatible (assert_json_compatible v) v >>= λ same_value.
        serialized (canonicalize same_value)

    unfoldable pub canonicalize_json_text : Text → Result Text CanonicalError
    canonicalize_json_text text = parse_json_text_strict text >>= λ v. canonicalize_json_value v
