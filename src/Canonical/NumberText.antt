-- ===== src/Canonical/NumberText.antt =====
-- A number's text is read as it stands whatever follows it, where what follows cannot go on with it.
use sih26_proto.Common.{
  ◌≡◌, ap, sym, refl, Bool, true, ◌||◌, [], ◌∷◌, ◌++◌, nat_beq, arith, Bool-cases, inl, inr,
}
use sih26_proto.Result.{ok, err, ◌>>=◌, >>=-eq-ok, ok_injective}
use sih26_proto.Canonical.Json.{Text}
use sih26_proto.Canonical.Scan.{
  Parsed, take_digits, sign_part, integer_part, some_digits, fraction_part, exponent_sign,
  exponent_digits, exponent_part, scan_number,
}

-- The end, or one of the characters that JSON has behind a value.
unfoldable pub stops : Text → Bool
stops [] = true
stops (c ∷ ts) = nat_beq c 44 || nat_beq c 93 || nat_beq c 125

-- What a stop makes of each test for a character of a number.
stops-take_digits : (rest : Text) → stops rest ≡ true → take_digits rest ≡ ([], rest)
unfolding take_digits stops
stops-take_digits [] h = refl
stops-take_digits (c ∷ rest) h = ground arith

stops-fraction_part : (rest : Text) → stops rest ≡ true → fraction_part rest ≡ ok ([], rest)
unfolding fraction_part stops
stops-fraction_part [] h = refl
stops-fraction_part (c ∷ rest) h = ground arith

stops-exponent_part : (rest : Text) → stops rest ≡ true → exponent_part rest ≡ ok ([], rest)
unfolding exponent_part stops
stops-exponent_part [] h = refl
stops-exponent_part (c ∷ rest) h = ground arith

stops-exponent_sign : (rest : Text) → stops rest ≡ true → exponent_sign rest ≡ ([], rest)
unfolding exponent_sign stops
stops-exponent_sign [] h = refl
stops-exponent_sign (c ∷ rest) h = ground arith

stops-sign_part : (rest : Text) → stops rest ≡ true → sign_part rest ≡ ([], rest)
unfolding sign_part stops
stops-sign_part [] h = refl
stops-sign_part (c ∷ rest) h = ground arith

-- A result, with a text behind what it left.
abbrev behind : Text → Text × Text → Text × Text
behind rest r = (r.0, r.1 ++ rest)

module _ (rest : Text) (stop : stops rest ≡ true) where
  take_digits-append : (ts : Text) → take_digits (ts ++ rest) ≡ behind rest (take_digits ts)
  unfolding take_digits
  take_digits-append [] = stops-take_digits rest stop
  take_digits-append (c ∷ ts) = ground (arith, take_digits-append ts)

  some_digits-append :
      (ts : Text) {r : Text × Text}
      → some_digits ts ≡ ok r
      → some_digits (ts ++ rest) ≡ ok (behind rest r)
  unfolding some_digits
  some_digits-append [] h = cc h
  some_digits-append (c ∷ ts) h = ground (arith, take_digits-append (c ∷ ts))

  -- The text of a number is not empty behind its sign.
  integer_part-append :
      (ts : Text) {r : Text × Text}
      → integer_part ts ≡ ok r
      → integer_part (ts ++ rest) ≡ ok (behind rest r)
  unfolding integer_part
  integer_part-append [] h = cc h
  integer_part-append (c ∷ ts) h = ground (arith, take_digits-append (c ∷ ts))

  -- A part that reads nothing, and one that puts a character in front of what it read.
  nothing-append :
      (ts : Text) {r : Text × Text} {whole : Parsed Text}
      → whole ≡ ok ([], ts ++ rest)
      → ◌≡◌ {A = Parsed Text} (ok ([], ts)) (ok r)
      → whole ≡ ok (behind rest r)
  nothing-append ts {r} reads h = rw (ok_injective ([], ts) r h) reads

  then-append :
      (first : Parsed Text) {again : Parsed Text} (front : Text → Text) {r : Text × Text}
      → ((q : Text × Text) → first ≡ ok q → again ≡ ok (behind rest q))
      → (first >>= λ (ds, left). ok (front ds, left)) ≡ ok r
      → (again >>= λ (ds, left). ok (front ds, left)) ≡ ok (behind rest r)
  then-append (err e) front next h = cc h
  then-append (ok q) front {r} next h = rw (next q refl, ok_injective (front q.0, q.1) r h) refl

  fraction_part-append :
      (ts : Text) {r : Text × Text}
      → fraction_part ts ≡ ok r
      → fraction_part (ts ++ rest) ≡ ok (behind rest r)
  unfolding fraction_part
  fraction_part-append [] h = nothing-append [] (stops-fraction_part rest stop) h
  fraction_part-append (c ∷ ts) h = elim (Bool-cases (nat_beq c 46)) [
    | inl point ↦ rw point (
        then-append (some_digits ts) (◌∷◌ 46) (λ q read. some_digits-append ts read)
          (rw point at h))
    | inr other ↦ rw other (nothing-append (c ∷ ts) refl (rw other at h))
  ]

  exponent_sign-append : (ts : Text) → exponent_sign (ts ++ rest) ≡ behind rest (exponent_sign ts)
  unfolding exponent_sign
  exponent_sign-append [] = stops-exponent_sign rest stop
  exponent_sign-append (c ∷ ts) = ground arith

  exponent_part-append :
      (ts : Text) {r : Text × Text}
      → exponent_part ts ≡ ok r
      → exponent_part (ts ++ rest) ≡ ok (behind rest r)
  unfolding exponent_part exponent_digits
  exponent_part-append [] h = nothing-append [] (stops-exponent_part rest stop) h
  exponent_part-append (c ∷ ts) h = elim (Bool-cases (nat_beq c 101 || nat_beq c 69)) [
    | inl mark ↦
        rw (mark, exponent_sign-append)
          (then-append (some_digits (exponent_sign ts).1) (λ ds. c ∷ ((exponent_sign ts).0 ++ ds))
            (λ q read. some_digits-append (exponent_sign ts).1 read) (rw mark at h))
    | inr other ↦ rw other (nothing-append (c ∷ ts) refl (rw other at h))
  ]

  sign_part-append : (ts : Text) → sign_part (ts ++ rest) ≡ behind rest (sign_part ts)
  unfolding sign_part
  sign_part-append [] = stops-sign_part rest stop
  sign_part-append (c ∷ ts) = ground arith

  -- A text that is read as a number to its end is read as that number in front of a stop.
  pub scan_number-append :
      (ts : Text) {r : Text × Text}
      → scan_number ts ≡ ok r
      → scan_number (ts ++ rest) ≡ ok (behind rest r)
  unfolding scan_number
  scan_number-append ts h =
      let ((whole, behind_whole), first, h1) = >>=-eq-ok (integer_part (sign_part ts).1) _ h in
      let ((fraction, behind_fraction), second, h2) = >>=-eq-ok (fraction_part behind_whole) _ h1 in
      let (r3, third, h3) = >>=-eq-ok (exponent_part behind_fraction) _ h2 in
      rw
        (
          sign_part-append ts,
          integer_part-append _ first,
          fraction_part-append _ second,
          exponent_part-append _ third,
        )
        (ap (λ r. ok (behind rest r)) (sym (ok_injective _ _ h3)))
