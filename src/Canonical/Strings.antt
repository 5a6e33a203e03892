-- ===== src/Canonical/Strings.antt =====
-- What the reference printer writes of a string reads back, whatever its code units.
use sih26_proto.Common.{
  ◌*◌, ℕ, ◌+◌, ◌*◌, ◌-◌, ◌<◌, ◌≢◌, ◌≡◌, ap, ◌∙◌, ◌≤◌, refl, false, some, [], ◌∷◌, ltb, arith,
  nat_eq,
}
use sih26_proto.Result.{ok}
use sih26_proto.Canonical.Json.{Text}
use sih26_proto.Canonical.Scan.{
  hex_digit, hex4, hex_value, appends, unit_kind, escape_kind, plain, prepend, parse_string,
  parse_hex,
}
use sih26_proto.Canonical.Render.{hex_of, write_unit, write_units}

hex_digit-hex_of : (d : ℕ) → d < 16 → hex_digit (hex_of d) ≡ some d
unfolding hex_digit hex_of
hex_digit-hex_of d h = ground arith

hex_digit_zero : hex_digit 48 ≡ some 0
unfolding hex_digit
hex_digit_zero = refl

hex_digit_one : hex_digit 49 ≡ some 1
unfolding hex_digit
hex_digit_one = refl

hex4-some :
    (a b c d x y z w : ℕ)
    → hex_digit a ≡ some x
    → hex_digit b ≡ some y
    → hex_digit c ≡ some z
    → hex_digit d ≡ some w
    → hex4 a b c d ≡ some (((x * 16 + y) * 16 + z) * 16 + w)
unfolding hex4 hex_value
hex4-some a b c d x y z w p q r s = rw (p, q, r, s) refl

-- The escape of a control character.
hex4_low : (c : ℕ) → c < 16 → hex4 48 48 48 (hex_of c) ≡ some c
hex4_low c lt =
    hex4-some 48 48 48 (hex_of c) 0 0 0 c hex_digit_zero hex_digit_zero hex_digit_zero
      (hex_digit-hex_of c lt)
    ∙ ap some (omega arith)

hex4_high : (c : ℕ) → 16 ≤ c → c < 32 → hex4 48 48 49 (hex_of (c - 16)) ≡ some c
hex4_high c ge lt =
    hex4-some 48 48 49 (hex_of (c - 16)) 0 0 1 (c - 16) hex_digit_zero hex_digit_zero hex_digit_one
      (hex_digit-hex_of (c - 16) (omega arith))
    ∙ ap some (omega arith)

parse_hex-some :
    (e a b c d code : ℕ) (ts : Text)
    → hex4 a b c d ≡ some code
    → parse_hex e (a ∷ b ∷ c ∷ d ∷ ts) ≡ prepend code (parse_string ts)
unfolding parse_hex
parse_hex-some e a b c d code ts h = rw (h, parse_hex) refl

parse_string_hex :
    (a b c d code : ℕ) (ts : Text)
    → hex4 a b c d ≡ some code
    → parse_string (92 ∷ 117 ∷ a ∷ b ∷ c ∷ d ∷ ts) ≡ prepend code (parse_string ts)
unfolding parse_string unit_kind escape_kind
parse_string_hex a b c d code ts h = rw (h, parse_string) refl

parse_string_escape :
    (e c : ℕ) (ts : Text)
    → escape_kind e ≡ appends c
    → parse_string (92 ∷ e ∷ ts) ≡ prepend c (parse_string ts)
unfolding parse_string unit_kind
parse_string_escape e c ts h = rw (h, parse_string) refl

parse_string_plain :
    (c : ℕ) (ts : Text) → unit_kind c ≡ plain → parse_string (c ∷ ts) ≡ prepend c (parse_string ts)
unfolding parse_string
parse_string_plain c ts h = rw (h, parse_string) refl

unit_kind-plain : (c : ℕ) → c ≢ 34 → c ≢ 92 → ltb c 32 ≡ false → unit_kind c ≡ plain
unfolding unit_kind
unit_kind-plain c h1 h2 h3 = ground arith

parse_string-write_unit :
    (c : ℕ) (ts : Text) → parse_string (write_unit c ts) ≡ prepend c (parse_string ts)
unfolding write_unit escape_kind
parse_string-write_unit c ts = ground (
  arith,
  parse_string_escape 34 34 ts refl,
  parse_string_escape 92 92 ts refl,
  parse_string_escape 98 8 ts refl,
  parse_string_escape 116 9 ts refl,
  parse_string_escape 110 10 ts refl,
  parse_string_escape 102 12 ts refl,
  parse_string_escape 114 13 ts refl,
  parse_string_plain c ts,
  unit_kind-plain c,
  parse_string_hex 48 48 48 (hex_of c) c ts,
  hex4_low c,
  parse_string_hex 48 48 49 (hex_of (c - 16)) c ts,
  hex4_high c,
)

-- A written string reads back, up to its closing quote.
pub parse_string-write_units : (s rest : Text) → parse_string (write_units s rest) ≡ ok (s, rest)
unfolding write_units
parse_string-write_units [] rest = unfold parse_string unit_kind in refl
parse_string-write_units (c ∷ s) rest =
    rw (parse_string-write_unit c (write_units s rest), parse_string-write_units s rest) refl
