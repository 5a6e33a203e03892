-- ===== src/Canonical/Scan.antt =====
-- packages/contracts/src/canonical.ts, `StrictJsonParser`: white space, strings and the grammar of
-- numbers. `this.i` is kept as the input that is left, and `charCodeAt` past the end is `none`.
use sih26_proto.Common.{
  ℕ, ◌+◌, ◌*◌, ◌-◌, Bool, false, ◌&&◌, ◌||◌, Option, none, some, [], ◌∷◌, ◌++◌, ltb, leb, nat_beq,
  if◌then◌else◌,
}
use sih26_proto.Result.{Result, ok, err, ◌>>=◌}
use sih26_proto.Canonical.Json.{Text}

-- `ParseFailure`, with the input that was left when it was made.
pub data ParseFailure : Type 0 where
  bad_text : Text → ParseFailure
  repeated_key : Text → ParseFailure
  no_fuel : ParseFailure

abbrev pub Parsed {ℓ} : Type ℓ → Type ℓ
Parsed A = Result (A × Text) ParseFailure

abbrev pub is_space : ℕ → Bool
is_space c = nat_beq c 32 || nat_beq c 9 || nat_beq c 10 || nat_beq c 13

unfoldable pub skip_whitespace : Text → Text
skip_whitespace [] = []
skip_whitespace (c ∷ ts) = let rest = skip_whitespace ts in if is_space c then rest else c ∷ ts

-- `this.peek() === c`
abbrev pub peek_is : ℕ → Text → Bool
peek_is c [] = false
peek_is c (d ∷ ts) = nat_beq d c

abbrev pub advance : Text → Text
advance [] = []
advance (c ∷ ts) = ts

abbrev pub is_digit : ℕ → Bool
is_digit c = leb 48 c && leb c 57

abbrev pub peek_is_digit : Text → Bool
peek_is_digit [] = false
peek_is_digit (c ∷ ts) = is_digit c

-- `this.text.startsWith(literal, this.i)`, and what follows the literal.
unfoldable pub after_prefix : Text → Text → Option Text
after_prefix [] ts = some ts
after_prefix (c ∷ cs) [] = none
after_prefix (c ∷ cs) (t ∷ ts) = if nat_beq t c then after_prefix cs ts else none

-- `parseInt` of one character of `[0-9a-fA-F]`
unfoldable pub hex_digit : ℕ → Option ℕ
hex_digit c =
    if is_digit c
    then some (c - 48)
    else if leb 97 c && leb c 102
    then some (c - 87)
    else if leb 65 c && leb c 70
    then some (c - 55)
    else none

unfoldable pub hex_value : Option ℕ → Option ℕ → Option ℕ → Option ℕ → Option ℕ
hex_value (some a) (some b) (some c) (some d) = some (((a * 16 + b) * 16 + c) * 16 + d)
hex_value _ _ _ _ = none

unfoldable pub hex4 : ℕ → ℕ → ℕ → ℕ → Option ℕ
hex4 a b c d = hex_value (hex_digit a) (hex_digit b) (hex_digit c) (hex_digit d)

-- What the loop of `parseString` does with a character.
pub data CharacterKind : Type 0 where
  closing control backslash plain : CharacterKind

unfoldable pub unit_kind : ℕ → CharacterKind
unit_kind c =
    if nat_beq c 34
    then closing
    else if ltb c 32
    then control
    else if nat_beq c 92
    then backslash
    else plain

-- What `switch (esc)` does: a character to append, four hexadecimal digits to read, or a failure.
pub data Escape : Type 0 where
  appends : ℕ → Escape
  reads_hex refused : Escape

unfoldable pub escape_kind : ℕ → Escape
escape_kind e =
    if nat_beq e 34
    then appends 34
    else if nat_beq e 92
    then appends 92
    else if nat_beq e 47
    then appends 47
    else if nat_beq e 98
    then appends 8
    else if nat_beq e 102
    then appends 12
    else if nat_beq e 110
    then appends 10
    else if nat_beq e 114
    then appends 13
    else if nat_beq e 116
    then appends 9
    else if nat_beq e 117
    then reads_hex
    else refused

-- `out += c`, once the rest of the string is read.
abbrev pub prepend : ℕ → Parsed Text → Parsed Text
prepend c read = read >>= λ (out, rest). ok (c ∷ out, rest)

-- The loop of `parseString`, behind the opening quote, and its branches behind a backslash.
unfoldable mutual
  pub parse_string : Text → Parsed Text
  parse_string [] = err (bad_text [])
  parse_string (c ∷ ts) = elim (unit_kind c) [
    | closing ↦ ok ([], ts)
    | control ↦ err (bad_text (c ∷ ts))
    | backslash ↦ parse_escape ts
    | plain ↦ prepend c (parse_string ts)
  ]

  pub parse_escape : Text → Parsed Text
  parse_escape [] = err (bad_text [])
  parse_escape (e ∷ ts) = elim (escape_kind e) [
    | appends c ↦ prepend c (parse_string ts)
    | reads_hex ↦ parse_hex e ts
    | refused ↦ err (bad_text (e ∷ ts))
  ]

  pub parse_hex : ℕ → Text → Parsed Text
  parse_hex e (a ∷ b ∷ c ∷ d ∷ ts) = elim (hex4 a b c d) [
    | some code ↦ prepend code (parse_string ts)
    | none ↦ err (bad_text (e ∷ a ∷ b ∷ c ∷ d ∷ ts))
  ]
  parse_hex e ts = err (bad_text (e ∷ ts))

-- `while (this.peek() is a digit) this.i += 1`, with what was passed.
unfoldable pub take_digits : Text → Text × Text
take_digits [] = ([], [])
take_digits (c ∷ ts) =
    let more = take_digits ts in if is_digit c then (c ∷ more.0, more.1) else ([], c ∷ ts)

-- The parts of a number, each with the characters that it passes.
unfoldable pub sign_part : Text → Text × Text
sign_part ts = if peek_is 45 ts then (45 ∷ [], advance ts) else ([], ts)

unfoldable pub integer_part : Text → Parsed Text
integer_part ts =
    if peek_is 48 ts
    then ok (48 ∷ [], advance ts)
    else if peek_is_digit ts
    then ok (take_digits ts)
    else err (bad_text ts)

unfoldable pub some_digits : Text → Parsed Text
some_digits ts = if peek_is_digit ts then ok (take_digits ts) else err (bad_text ts)

unfoldable pub fraction_part : Text → Parsed Text
fraction_part ts =
    if peek_is 46 ts
    then (some_digits (advance ts) >>= λ (ds, rest). ok (46 ∷ ds, rest))
    else ok ([], ts)

-- The sign of an exponent.
unfoldable pub exponent_sign : Text → Text × Text
exponent_sign [] = ([], [])
exponent_sign (c ∷ ts) = if nat_beq c 43 || nat_beq c 45 then (c ∷ [], ts) else ([], c ∷ ts)

unfoldable pub exponent_digits : ℕ → Text × Text → Parsed Text
exponent_digits e (sign, ts) = some_digits ts >>= λ (ds, rest). ok (e ∷ (sign ++ ds), rest)

unfoldable pub exponent_part : Text → Parsed Text
unfolding exponent_sign exponent_digits
exponent_part [] = ok ([], [])
exponent_part (c ∷ ts) =
    if nat_beq c 101 || nat_beq c 69 then exponent_digits c (exponent_sign ts) else ok ([], c ∷ ts)

-- The grammar of `parseNumber`: the slice that it hands to `Number`, and what is left.
unfoldable pub scan_number : Text → Parsed Text
scan_number ts =
    let (sign, behind_sign) = sign_part ts in
    integer_part behind_sign >>= λ (whole, behind_whole).
    fraction_part behind_whole >>= λ (fraction, behind_fraction).
    exponent_part behind_fraction >>= λ (exponent, rest).
    ok (sign ++ (whole ++ (fraction ++ exponent)), rest)
