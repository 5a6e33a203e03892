-- ===== src/Canonical/RoundTrip.antt =====
-- What the reference printer writes of a printable value, the strict parser reads back.
use sih26_proto.Common.{
  ◌+◌, [], ℕ, zero, suc, ◌*◌, ◌<◌, ◌≡◌, ◌∙◌, refl, true, false, List, ◌∷◌, length, arith,
}
use sih26_proto.Canonical.Parser.{
  parse_whole, parse_array, start_of, parse_literal, parse_object, parse_value, parse_members,
  parse_elements, at_end,
}
use sih26_proto.Result.{ok}
use sih26_proto.Canonical.Json.{Text, Numbers, Value, Elements, element, Members, member}
use sih26_proto.Canonical.Scan.{skip_whitespace, after_prefix}
use sih26_proto.Canonical.Render.{
  write_units, write, write_items, write_members, IsPrintable, shows_null, shows_bool, shows_number,
  shows_string, shows_array, shows_object, ArePrintable, none_left, next, HoldPrintable, no_more,
  entry,
}
use sih26_proto.Canonical.NumberText.{stops}
use sih26_proto.Canonical.Strings.{parse_string-write_units}
use sih26_proto.Canonical.Steps.{
  parse_key-write_units, length-write, heads_value-write, stops-write_items, stops-write_members,
  parse_value-number, parse_array-loop, next_element-write_items, next_member-write_members,
  length-write_units, length-write_items_next, length-write_members_next,
}
use sih26_proto.Canonical.Grammar.{
  IsIJson, AreIJson, HoldIJson, of_null, of_bool, of_number, of_string, of_array, of_object,
  assert_json_compatible_iff,
}
use sih26_proto.Canonical.Entry.{compatible, checked, parse_json_text_strict}

module _ {N : Type 0} ⦃js : Numbers N⦄ (show : N → Text) where
  mutual
    unfolding parse_value start_of skip_whitespace parse_literal after_prefix write parse_array
        parse_object

    pub parse_value-write :
        (f : ℕ) {v : Value N} (rest : Text)
        → IsPrintable show v
        → stops rest ≡ true
        → 2 * length (write show v rest) < f
        → parse_value f (write show v rest) ≡ ok (v, rest)
    parse_value-write zero rest p stop h = absurd (omega arith)
    parse_value-write (suc f) rest shows_null stop h = refl
    parse_value-write (suc f) rest (shows_bool {b = true}) stop h = refl
    parse_value-write (suc f) rest (shows_bool {b = false}) stop h = refl
    parse_value-write (suc f) rest (shows_number shown) stop h =
        parse_value-number show f rest stop shown
    parse_value-write (suc f) rest (shows_string {s} u) stop h =
        rw (parse_string-write_units s rest) refl
    parse_value-write (suc f) rest (shows_array none_left) stop h = refl
    parse_value-write (suc f) rest (shows_array (next {items} p ps)) stop h =
        parse_array-loop show (λ inner. parse_elements f inner) _
          (heads_value-write show (write_items show items rest) p)
        ∙ rw (parse_elements-write f rest p ps (omega arith)) refl
    parse_value-write (suc f) rest (shows_object no_more) stop h = refl
    parse_value-write (suc f) rest (shows_object (entry fresh u p ps)) stop h =
        rw (parse_members-write f rest (entry fresh u p ps) (omega arith)) refl

    pub parse_elements-write :
        (f : ℕ) {v : Value N} {items : Elements N} (rest : Text)
        → IsPrintable show v
        → ArePrintable show items
        → suc (2 * length (write show v (write_items show items rest))) < f
        → parse_elements f (write show v (write_items show items rest)) ≡ ok (element v items, rest)
    parse_elements-write zero rest p ps h = absurd (omega arith)
    parse_elements-write (suc f) {v} {items} rest p ps h =
        let lt = length-write show (write_items show items rest) p in
        rw
          (parse_value-write f (write_items show items rest) p (stops-write_items show items rest)
            (omega arith))
          (rw
            (next_element-write_items show (λ more. parse_elements f more) rest ps
              (λ w more q qs is_items.
                parse_elements-write f rest q qs
                  (omega (arith, length-write_items_next show rest is_items))))
            refl)

    pub parse_members-write :
        (f : ℕ) {keys : List Text} {key : Text} {v : Value N} {ms : Members N} (rest : Text)
        → HoldPrintable show keys (member key v ms)
        → suc (2 * length (34 ∷ write_units key (58 ∷ write show v (write_members show ms rest))))
          < f
        → parse_members f keys
            (34 ∷ write_units key (58 ∷ write show v (write_members show ms rest)))
          ≡ ok (member key v ms, rest)
    parse_members-write zero rest p h = absurd (omega arith)
    parse_members-write (suc f) {keys} {key} {v} {ms} rest (entry fresh u p ps) h =
        let longer = length-write_units key (58 ∷ write show v (write_members show ms rest)) in
        let lt = length-write show (write_members show ms rest) p in
        rw (parse_key-write_units keys key (write show v (write_members show ms rest)) fresh) (
          rw
            (parse_value-write f (write_members show ms rest) p (stops-write_members show ms rest)
              (omega arith))
            (rw
              (next_member-write_members show (λ more. parse_members f (key ∷ keys) more) rest ps
                (λ k w more q same_members.
                  parse_members-write f rest q
                    (omega (arith, length-write_members_next show rest same_members))))
              refl))

  mutual
    printable-IsIJson : {v : Value N} → IsPrintable show v → IsIJson v
    printable-IsIJson shows_null = of_null
    printable-IsIJson shows_bool = of_bool
    printable-IsIJson (shows_number shown) = of_number shown.finite
    printable-IsIJson (shows_string u) = of_string u
    printable-IsIJson (shows_array ps) = of_array (printable-AreIJson ps) tt
    printable-IsIJson (shows_object ps) = of_object (printable-HoldIJson ps)

    printable-AreIJson : {items : Elements N} → ArePrintable show items → AreIJson items
    printable-AreIJson none_left = AreIJson.none_left
    printable-AreIJson (next p ps) = AreIJson.next (printable-IsIJson p) (printable-AreIJson ps)

    printable-HoldIJson :
        {keys : List Text} {ms : Members N} → HoldPrintable show keys ms → HoldIJson ms
    printable-HoldIJson no_more = HoldIJson.no_more
    printable-HoldIJson (entry fresh u p ps) =
        HoldIJson.entry u (printable-IsIJson p) (printable-HoldIJson ps)

  parse_whole-write :
      (f : ℕ) (v : Value N)
      → IsPrintable show v
      → 2 * length (write show v []) < f
      → parse_whole f (write show v []) ≡ ok v
  unfolding parse_whole at_end skip_whitespace stops
  parse_whole-write f v p h = rw (parse_value-write f [] p refl h) refl

  -- The text that the reference printer writes of a printable value, a value of JSON whose numbers'
  -- texts are read back, whose strings are well-formed and whose objects have no key twice, is parsed
  -- to that value by the strict parser.
  pub parse_json_text_strict-write :
      (v : Value N) → IsPrintable show v → parse_json_text_strict (write show v []) ≡ ok v
  unfolding parse_json_text_strict checked compatible
  parse_json_text_strict-write v p =
      rw
        (
          parse_whole-write (2 * length (write show v []) + 1) v p (omega arith),
          (assert_json_compatible_iff v).1 (printable-IsIJson p),
        )
        refl
