-- ===== src/Canonical/Lengths.antt =====
-- What the parts of the strict parser leave of their input: a part that succeeds is past its own text,
-- and no part runs out of fuel by itself.
use sih26_proto.Canonical.Scan.{
  closing, control, backslash, plain, unit_kind, appends, reads_hex, refused, escape_kind, hex4,
  some_digits, some_digits, unit_kind, ParseFailure, bad_text, no_fuel, Parsed, skip_whitespace,
  peek_is, advance, peek_is_digit, after_prefix, parse_string, parse_escape, parse_hex, prepend,
  take_digits, sign_part, integer_part, fraction_part, exponent_part, exponent_sign,
  exponent_digits, scan_number,
}
use sih26_proto.Common.{
  ℕ, ◌<◌, ◌≤◌, ◌≡◌, ◌≢◌, refl, Bool, true, false, ◌||◌, none, some, [], ◌∷◌, length, nat_beq,
  if◌then◌else◌, arith, list_eq, nat_eq, Bool-cases, inl, inr,
}
use sih26_proto.Result.{Result, ok, err, ◌>>=◌}
use sih26_proto.Canonical.Json.{Text}

-- `P` holds of a value, and a failure is one of the program's own.
pub data Ensures {A : Type 0} (P : A → Type 0) : Result A ParseFailure → Type 0 where
  holds : {a : A} → P a → Ensures P (ok a)
  fails : {e : ParseFailure} → e ≢ no_fuel → Ensures P (err e)

pub fails_text : {A : Type 0} {P : A → Type 0} (ts : Text) → Ensures P (err (bad_text ts))
fails_text ts = fails λ p. cc p

pub Ensures->>= :
    {A B : Type 0} {P : A → Type 0} {Q : B → Type 0} {r : Result A ParseFailure}
    (next : A → Result B ParseFailure)
    → Ensures P r
    → ((a : A) → P a → Ensures Q (next a))
    → Ensures Q (r >>= next)
Ensures->>= next (holds {a} p) k = k a p
Ensures->>= next (fails ne) k = fails ne

pub Ensures-if :
    {A : Type 0} {P : A → Type 0} (b : Bool) {x y : Result A ParseFailure}
    → (b ≡ true → Ensures P x)
    → (b ≡ false → Ensures P y)
    → Ensures P (if b then x else y)
Ensures-if true one other = one refl
Ensures-if false one other = other refl

pub Ensures-weaken :
    {A : Type 0} {P Q : A → Type 0} {r : Result A ParseFailure}
    → Ensures P r
    → ((a : A) → P a → Q a)
    → Ensures Q r
Ensures-weaken (holds {a} p) k = holds (k a p)
Ensures-weaken (fails ne) k = fails ne

-- The rest behind what was read is shorter than `ts`, or not longer.
abbrev pub Shortens : {A : Type 0} → Text → A × Text → Type 0
Shortens ts r = length r.1 < length ts

abbrev pub Keeps : {A : Type 0} → Text → A × Text → Type 0
Keeps ts r = length r.1 ≤ length ts

pub length-skip_whitespace : (ts : Text) → length (skip_whitespace ts) ≤ length ts
unfolding skip_whitespace
length-skip_whitespace [] = omega arith
length-skip_whitespace (c ∷ ts) = ground (arith, length-skip_whitespace ts)

pub length-advance : (c : ℕ) (ts : Text) → peek_is c ts ≡ true → length (advance ts) < length ts
length-advance c [] h = cc h
length-advance c (d ∷ ts) h = omega arith

prepend-Shortens :
    (c : ℕ) (ts : Text) (more : Text) {r : Parsed Text}
    → length ts < length more
    → Ensures (Shortens ts) r
    → Ensures (Shortens more) (prepend c r)
prepend-Shortens c ts more lt read = Ensures->>= _ read λ r shorter. holds (omega arith)

mutual
  unfolding parse_string

  pub parse_string-Shortens : (ts : Text) → Ensures (Shortens ts) (parse_string ts)
  parse_string-Shortens [] = fails_text []
  parse_string-Shortens (c ∷ ts) =
      elim (unit_kind c)
        as (λ k. Ensures (Shortens (c ∷ ts)) (elim k [
          | closing ↦ ok ([], ts)
          | control ↦ err (bad_text (c ∷ ts))
          | backslash ↦ parse_escape ts
          | plain ↦ prepend c (parse_string ts)
        ])) [
          | closing ↦ holds (omega arith)
          | control ↦ fails_text _
          | backslash ↦ Ensures-weaken (parse_escape-Shortens ts) λ r lt. omega arith
          | plain ↦ prepend-Shortens c ts (c ∷ ts) (omega arith) (parse_string-Shortens ts)
        ]

  parse_escape-Shortens : (ts : Text) → Ensures (Shortens ts) (parse_escape ts)
  parse_escape-Shortens [] = fails_text []
  parse_escape-Shortens (e ∷ ts) =
      elim (escape_kind e)
        as (λ k. Ensures (Shortens (e ∷ ts)) (elim k [
          | appends c ↦ prepend c (parse_string ts)
          | reads_hex ↦ parse_hex e ts
          | refused ↦ err (bad_text (e ∷ ts))
        ])) [
          | appends c ↦ prepend-Shortens c ts (e ∷ ts) (omega arith) (parse_string-Shortens ts)
          | reads_hex ↦ Ensures-weaken (parse_hex-Shortens e ts) λ r lt. omega arith
          | refused ↦ fails_text _
        ]

  parse_hex-Shortens : (e : ℕ) (ts : Text) → Ensures (Shortens ts) (parse_hex e ts)
  parse_hex-Shortens e (a ∷ b ∷ c ∷ d ∷ ts) =
      elim (hex4 a b c d)
        as (λ o. Ensures (Shortens (a ∷ b ∷ c ∷ d ∷ ts)) (elim o [
          | some code ↦ prepend code (parse_string ts)
          | none ↦ err (bad_text (e ∷ a ∷ b ∷ c ∷ d ∷ ts))
        ])) [
          | some code ↦
              prepend-Shortens code ts (a ∷ b ∷ c ∷ d ∷ ts) (omega arith) (parse_string-Shortens ts)
          | none ↦ fails_text _
        ]
  parse_hex-Shortens e _ = fails_text _

pub length-after_prefix :
    (c : ℕ) (cs ts : Text) {rest : Text}
    → after_prefix (c ∷ cs) ts ≡ some rest
    → length rest < length ts
unfolding after_prefix
length-after_prefix c cs [] h = cc h
length-after_prefix c [] (t ∷ ts) h = ground arith
length-after_prefix c (d ∷ cs) (t ∷ ts) h = elim (Bool-cases (nat_beq t c)) [
  | inl met ↦ let lt = length-after_prefix d cs ts (rw met at h) in omega arith
  | inr missed ↦ cc (rw missed at h)
]

length-take_digits : (ts : Text) → length (take_digits ts).1 ≤ length ts
unfolding take_digits
length-take_digits [] = omega arith
length-take_digits (c ∷ ts) = ground (arith, length-take_digits ts)

-- A digit ahead is taken.
take_digits-Shortens : (ts : Text) → peek_is_digit ts ≡ true → Shortens ts (take_digits ts)
unfolding take_digits
take_digits-Shortens [] h = cc h
take_digits-Shortens (c ∷ ts) h = rw h (omega (arith, length-take_digits ts))

sign_part-Keeps : (ts : Text) → Keeps ts (sign_part ts)
unfolding sign_part
sign_part-Keeps [] = omega arith
sign_part-Keeps (c ∷ ts) = ground arith

integer_part-Shortens : (ts : Text) → Ensures (Shortens ts) (integer_part ts)
unfolding integer_part
integer_part-Shortens ts =
    Ensures-if (peek_is 48 ts) (λ zero_ahead. holds (length-advance 48 ts zero_ahead))
      λ _.
        Ensures-if (peek_is_digit ts) (λ digit. holds (take_digits-Shortens ts digit))
          λ _. fails_text ts

some_digits-Keeps : (ts : Text) → Ensures (Keeps ts) (some_digits ts)
unfolding some_digits
some_digits-Keeps ts =
    Ensures-if (peek_is_digit ts) (λ digit. holds (length-take_digits ts)) λ _. fails_text ts

fraction_part-Keeps : (ts : Text) → Ensures (Keeps ts) (fraction_part ts)
unfolding fraction_part
fraction_part-Keeps ts =
    Ensures-if (peek_is 46 ts)
      (λ point.
        Ensures->>= _ (some_digits-Keeps (advance ts))
          λ r le. holds (omega (arith, length-advance 46 ts point)))
      λ _. holds (omega arith)

exponent_sign-Keeps : (ts : Text) → Keeps ts (exponent_sign ts)
unfolding exponent_sign
exponent_sign-Keeps [] = omega arith
exponent_sign-Keeps (c ∷ ts) = ground arith

exponent_part-Keeps : (ts : Text) → Ensures (Keeps ts) (exponent_part ts)
unfolding exponent_part exponent_digits
exponent_part-Keeps [] = holds (omega arith)
exponent_part-Keeps (c ∷ ts) =
    Ensures-if (nat_beq c 101 || nat_beq c 69)
      (λ _.
        Ensures->>= _ (some_digits-Keeps (exponent_sign ts).1)
          λ r le. holds (omega (arith, exponent_sign-Keeps ts)))
      λ _. holds (omega arith)

pub scan_number-Shortens : (ts : Text) → Ensures (Shortens ts) (scan_number ts)
unfolding scan_number
scan_number-Shortens ts =
    Ensures->>= _ (integer_part-Shortens (sign_part ts).1) λ (whole, behind_whole) first.
      Ensures->>= _ (fraction_part-Keeps behind_whole) λ (fraction, behind_fraction) second.
        Ensures->>= _ (exponent_part-Keeps behind_fraction)
          λ r third. holds (omega (arith, sign_part-Keeps ts))
