-- ===== src/Canonical/Steps.antt =====
-- One step of the strict parser over each piece that the reference printer writes.
use sih26_proto.Canonical.Json.{
  hole, Text, Numbers, Value, number, array, Elements, no_elements, element, Members, no_members,
  member,
}
use sih26_proto.Canonical.Render.{
  write_unit, write_units, write, write_items, write_members, IsShown, IsPrintable, shows_null,
  shows_bool, shows_number, shows_string, shows_array, shows_object, ArePrintable, none_left, next,
  HoldPrintable, no_more, entry,
}
use sih26_proto.Common.{
  ℕ, suc, ◌<◌, ◌≤◌, ◌≡◌, ap, refl, Bool, true, false, not, ◌&&◌, ◌||◌, List, [], ◌∷◌, ◌++◌, length,
  length-append, nat_beq, arith, Bool-cases, inl, inr,
}
use sih26_proto.Result.{ok, err, ◌>>=◌}
use sih26_proto.Canonical.Scan.{
  Parsed, bad_text, is_space, is_digit, skip_whitespace, peek_is, scan_number, sign_part,
  integer_part,
}
use sih26_proto.Canonical.Parser.{
  of_number, start_of, has_key, parse_key, parse_number, parse_array, next_of, next_member,
  next_element, parse_value,
}
use sih26_proto.Canonical.NumberText.{stops, scan_number-append}
use sih26_proto.Canonical.Strings.{parse_string-write_units}

-- A character that begins a value: no white space and no closing bracket of an array.
unfoldable pub heads_value : Text → Bool
heads_value [] = false
heads_value (c ∷ ts) = not (is_space c) && not (nat_beq c 93)

pub heads_value-skip : (ts : Text) → heads_value ts ≡ true → skip_whitespace ts ≡ ts
unfolding heads_value skip_whitespace
heads_value-skip [] h = refl
heads_value-skip (c ∷ ts) h = ground arith

pub heads_value-peek : (ts : Text) → heads_value ts ≡ true → peek_is 93 ts ≡ false
unfolding heads_value
heads_value-peek [] h = refl
heads_value-peek (c ∷ ts) h = ground arith

pub length-write_units : (s rest : Text) → length rest < length (write_units s rest)
unfolding write_units write_unit
length-write_units [] rest = omega arith
length-write_units (c ∷ s) rest = ground (arith, length-write_units s rest)

-- A text read as a number begins with a minus sign or a digit.
scan_number-first :
    (c : ℕ) (ts : Text)
    → (nat_beq c 45 || is_digit c) ≡ false
    → scan_number (c ∷ ts) ≡ err (bad_text (c ∷ ts))
unfolding scan_number sign_part integer_part
scan_number-first c ts h = ground arith

scan_number-start :
    (ts : Text) {r : Text × Text} (rest : Text)
    → scan_number ts ≡ ok r
    → (start_of (ts ++ rest) ≡ of_number) × (heads_value (ts ++ rest) ≡ true) × (1 ≤ length ts)
scan_number-start [] rest h = unfold scan_number sign_part integer_part in cc h
scan_number-start (c ∷ ts) rest h = elim (Bool-cases (nat_beq c 45 || is_digit c)) [
  | inl first ↦ unfold start_of heads_value in (ground arith, ground arith, omega arith)
  | inr other ↦ cc (h, scan_number-first c ts other)
]

-- The key that a member is written with is read, and the colon passed.
pub parse_key-write_units :
    (keys : List Text) (key ts : Text)
    → has_key keys key ≡ false
    → parse_key keys (34 ∷ write_units key (58 ∷ ts)) ≡ ok (key, ts)
unfolding skip_whitespace parse_key
parse_key-write_units keys key ts fresh = rw (parse_string-write_units key (58 ∷ ts), fresh) refl

module _ {N : Type 0} ⦃js : Numbers N⦄ (show : N → Text) where
  -- What is written is longer than what stands behind it, and begins a value.
  mutual
    unfolding write

    pub length-write :
        {v : Value N} (rest : Text) → IsPrintable show v → length rest < length (write show v rest)
    length-write rest shows_null = omega arith
    length-write rest (shows_bool {b = true}) = omega arith
    length-write rest (shows_bool {b = false}) = omega arith
    length-write rest (shows_number {n} shown) =
        let (_, _, long) = scan_number-start (show n) rest shown.is_number in
        omega (arith, length-append (show n) rest)
    length-write rest (shows_string {s} u) = omega (arith, length-write_units s rest)
    length-write rest (shows_array none_left) = omega arith
    length-write rest (shows_array (next {items} p ps)) =
        omega (arith, length-write (write_items show items rest) p, length-write_items rest ps)
    length-write rest (shows_object no_more) = omega arith
    length-write rest (shows_object (entry {key} {v} {ms} fresh u p ps)) = omega (
      arith,
      length-write_units key (58 ∷ write show v (write_members show ms rest)),
      length-write (write_members show ms rest) p,
      length-write_members rest ps,
    )

    pub length-write_items :
        {items : Elements N} (rest : Text)
        → ArePrintable show items
        → length rest < length (write_items show items rest)
    length-write_items rest none_left = omega arith
    length-write_items rest (next {items} p ps) =
        omega (arith, length-write (write_items show items rest) p, length-write_items rest ps)

    pub length-write_members :
        {keys : List Text} {ms : Members N} (rest : Text)
        → HoldPrintable show keys ms
        → length rest < length (write_members show ms rest)
    length-write_members rest no_more = omega arith
    length-write_members rest (entry {key} {v} {ms} fresh u p ps) = omega (
      arith,
      length-write_units key (58 ∷ write show v (write_members show ms rest)),
      length-write (write_members show ms rest) p,
      length-write_members rest ps,
    )

  pub heads_value-write :
      {v : Value N} (rest : Text) → IsPrintable show v → heads_value (write show v rest) ≡ true
  unfolding write heads_value
  heads_value-write rest shows_null = refl
  heads_value-write rest (shows_bool {b = true}) = refl
  heads_value-write rest (shows_bool {b = false}) = refl
  heads_value-write rest (shows_number {n} shown) =
      let (_, heads, _) = scan_number-start (show n) rest shown.is_number in heads
  heads_value-write rest (shows_string u) = refl
  heads_value-write rest (shows_array none_left) = refl
  heads_value-write rest (shows_array (next p ps)) = refl
  heads_value-write rest (shows_object no_more) = refl
  heads_value-write rest (shows_object (entry fresh u p ps)) = refl

  pub stops-write_items :
      (items : Elements N) (rest : Text) → stops (write_items show items rest) ≡ true
  unfolding stops write
  stops-write_items no_elements rest = refl
  stops-write_items (element v items) rest = refl
  stops-write_items (hole items) rest = refl

  pub stops-write_members :
      (ms : Members N) (rest : Text) → stops (write_members show ms rest) ≡ true
  unfolding stops write
  stops-write_members no_members rest = refl
  stops-write_members (member key v ms) rest = refl

  pub parse_value-number :
      {n : N} (f : ℕ) (rest : Text)
      → stops rest ≡ true
      → IsShown show n
      → parse_value (suc f) (show n ++ rest) ≡ ok (number n, rest)
  unfolding parse_value
  parse_value-number {n} f rest stop shown =
      let (starts, heads, _) = scan_number-start (show n) rest shown.is_number in
      let skips = heads_value-skip (show n ++ rest) heads in
      rw (skips, starts, parse_value)
        (unfold parse_number in
          rw (skips, parse_number, scan_number-append rest stop (show n) shown.is_number)
            (rw (shown.reads_back, shown.finite) refl))

  pub parse_array-loop :
      (loop : Text → Parsed (Elements N)) (ts : Text)
      → heads_value ts ≡ true
      → parse_array loop ts ≡ (loop ts >>= λ (items, rest). ok (array items [], rest))
  unfolding parse_array
  parse_array-loop loop ts heads =
      rw (heads_value-skip ts heads, heads_value-peek ts heads, parse_array)
        (rw (heads_value-skip ts heads) refl)

  -- What the loops read behind an item, where their next turn reads what is written.
  pub next_element-write_items :
      (loop : Text → Parsed (Elements N)) {items : Elements N} (rest : Text)
      → ArePrintable show items
      → ((v : Value N) (more : Elements N)
          → IsPrintable show v
          → ArePrintable show more
          → items ≡ element v more
          → loop (write show v (write_items show more rest)) ≡ ok (element v more, rest))
      → next_element loop (skip_whitespace (write_items show items rest)) ≡ ok (items, rest)
  unfolding next_element next_of skip_whitespace write
  next_element-write_items loop rest none_left turn = refl
  next_element-write_items loop rest (next p ps) turn = turn _ _ p ps refl

  pub next_member-write_members :
      (loop : Text → Parsed (Members N)) {keys : List Text} {ms : Members N} (rest : Text)
      → HoldPrintable show keys ms
      → ((key : Text) (v : Value N) (more : Members N)
          → HoldPrintable show keys (member key v more)
          → ms ≡ member key v more
          → loop (34 ∷ write_units key (58 ∷ write show v (write_members show more rest)))
            ≡ ok (member key v more, rest))
      → next_member loop (skip_whitespace (write_members show ms rest)) ≡ ok (ms, rest)
  unfolding next_member next_of skip_whitespace write
  next_member-write_members loop rest no_more turn = refl
  next_member-write_members loop rest (entry fresh u p ps) turn =
      turn _ _ _ (entry fresh u p ps) refl

  -- The text behind an item, where another item follows.
  pub length-write_items_next :
      {items more : Elements N} {v : Value N} (rest : Text)
      → items ≡ element v more
      → length (write_items show items rest)
        ≡ suc (length (write show v (write_items show more rest)))
  unfolding write
  length-write_items_next rest same_items = ap (λ xs. length (write_items show xs rest)) same_items

  pub length-write_members_next :
      {ms more : Members N} {key : Text} {v : Value N} (rest : Text)
      → ms ≡ member key v more
      → length (write_members show ms rest)
        ≡ suc (length (34 ∷ write_units key (58 ∷ write show v (write_members show more rest))))
  unfolding write
  length-write_members_next rest same_members =
      ap (λ xs. length (write_members show xs rest)) same_members
