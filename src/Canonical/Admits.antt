-- ===== src/Canonical/Admits.antt =====
-- What the strict parser's entry point promises on every text.
use sih26_proto.Common.{
  ◌+◌, ◌*◌, ◌≡◌, ◌≢◌, subst, refl, Option, none, some, length, arith, list_eq, nat_eq,
}
use sih26_proto.Result.{Result, ok, err}
use sih26_proto.Canonical.Json.{Text, Numbers, Value, out_of_fuel, ValuePath}
use sih26_proto.Canonical.Scan.{ParseFailure, bad_text, repeated_key, no_fuel}
use sih26_proto.Canonical.Lengths.{Ensures, holds, fails}
use sih26_proto.Canonical.Compatible.{assert_json_compatible}
use sih26_proto.Canonical.Grammar.{IsIJson, assert_json_compatible_iff}
use sih26_proto.Canonical.Distinct.{HasDistinctKeys}
use sih26_proto.Canonical.Total.{parse_whole-Ensures}
use sih26_proto.Canonical.Entry.{compatible, checked, failure_at, parse_json_text_strict}

failure_at-ne-out_of_fuel :
    (text : Text) (e : ParseFailure) → e ≢ no_fuel → failure_at text e ≢ out_of_fuel
unfolding failure_at
failure_at-ne-out_of_fuel text (bad_text rest) ne p = cc p
failure_at-ne-out_of_fuel text (repeated_key rest) ne p = cc p
failure_at-ne-out_of_fuel text no_fuel ne p = ne refl

module _ {N : Type 0} ⦃js : Numbers N⦄ where
  compatible-eq-ok :
      (problem : Option ValuePath) (v w : Value N)
      → compatible problem v ≡ ok w
      → (problem ≡ none) × (v ≡ w)
  unfolding compatible
  compatible-eq-ok (some path) v w h = cc h
  compatible-eq-ok none v w h = (refl, cc h)

  compatible-ne-out_of_fuel :
      (problem : Option ValuePath) (v : Value N) → compatible problem v ≢ err out_of_fuel
  unfolding compatible
  compatible-ne-out_of_fuel (some path) v p = cc p
  compatible-ne-out_of_fuel none v p = cc p

  checked-ne-out_of_fuel :
      (text : Text) {r : Result (Value N) ParseFailure}
      → Ensures HasDistinctKeys r
      → checked text r ≢ err out_of_fuel
  unfolding checked
  checked-ne-out_of_fuel text (holds {a = v} d) p =
      compatible-ne-out_of_fuel (assert_json_compatible v) v p
  checked-ne-out_of_fuel text (fails {e} ne) p = failure_at-ne-out_of_fuel text e ne (cc p)

  checked-eq-ok :
      (text : Text) {r : Result (Value N) ParseFailure} (w : Value N)
      → Ensures HasDistinctKeys r
      → checked text r ≡ ok w
      → HasDistinctKeys w × IsIJson w
  unfolding checked
  checked-eq-ok text w (holds {a = v} d) h =
      let (clear, is_v) = compatible-eq-ok (assert_json_compatible v) v w h in
      (subst HasDistinctKeys is_v d, subst IsIJson is_v ((assert_json_compatible_iff v).0 clear))
  checked-eq-ok text w (fails ne) h = cc h

  -- The strict parser returns on every text: the fuel of the model, twice the text's length and one,
  -- never ends before the text does.
  pub parse_json_text_strict_terminates :
      (text : Text) → parse_json_text_strict {N = N} text ≢ err out_of_fuel
  unfolding parse_json_text_strict
  parse_json_text_strict_terminates text =
      checked-ne-out_of_fuel text (parse_whole-Ensures (2 * length text + 1) text (omega arith))

  -- A value that the strict parser returns has no object with a key twice, whatever the text, and is
  -- I-JSON: its numbers are finite and its strings and keys have no unpaired surrogate.
  pub parse_json_text_strict-IsIJson :
      (text : Text) (v : Value N)
      → parse_json_text_strict text ≡ ok v
      → HasDistinctKeys v × IsIJson v
  unfolding parse_json_text_strict
  parse_json_text_strict-IsIJson text v =
      checked-eq-ok text v (parse_whole-Ensures (2 * length text + 1) text (omega arith))
