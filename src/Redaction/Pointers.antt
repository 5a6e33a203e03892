-- ===== src/Redaction/Pointers.antt =====
-- RFC 6901 pointers written from their tokens, and read back by `splitPointer`.
use sih26_proto.Common.{
  ℕ, ◌≡◌, ◌∙◌, refl, ap, sym, true, List, [], ◌∷◌, ◌++◌, if◌then◌else◌, nat_beq, map, all, arith,
  Bool-cases, inl, inr, eq_of_beq, nat_eq,
}
use sih26_proto.Result.{ok}
use sih26_proto.Canonical.Json.{Text}
use sih26_proto.Redaction.{split_slashes, has_good_escapes, replace_escape, unescape, split_pointer}

-- The escape of one character, in front of a text.
unfoldable pub escape_unit : ℕ → Text → Text
escape_unit c ts =
    if nat_beq c 126 then 126 ∷ 48 ∷ ts else if nat_beq c 47 then 126 ∷ 49 ∷ ts else c ∷ ts

unfoldable pub escape : Text → Text
escape [] = []
escape (c ∷ cs) = escape_unit c (escape cs)

unfoldable pub pointer_of : List Text → Text
pointer_of [] = []
pointer_of (token ∷ tokens) = 47 ∷ (escape token ++ pointer_of tokens)

escape_unit-append :
    (c : ℕ) (ts rest : Text) → escape_unit c ts ++ rest ≡ escape_unit c (ts ++ rest)
unfolding escape_unit
escape_unit-append c ts rest = ground arith

-- No escaped character is a slash.
split_slashes-escape_unit :
    (c : ℕ) (ts s : Text) (ss : List Text)
    → split_slashes ts ≡ s ∷ ss
    → split_slashes (escape_unit c ts) ≡ escape_unit c s ∷ ss
unfolding split_slashes escape_unit
split_slashes-escape_unit c ts s ss h = elim (Bool-cases (nat_beq c 126)) [
  | inl tilde ↦ rw (tilde, h) refl
  | inr other ↦ elim (Bool-cases (nat_beq c 47)) [
    | inl slash ↦ rw (other, slash, h) refl
    | inr plain ↦ rw (other, plain, h) (rw plain refl)
  ]
]

split_slashes-escape :
    (t : Text) (rest s : Text) (ss : List Text)
    → split_slashes rest ≡ [] ∷ ss
    → split_slashes (escape t ++ rest) ≡ escape t ∷ ss
unfolding escape
split_slashes-escape [] rest s ss h = h
split_slashes-escape (c ∷ t) rest s ss h = rw (escape_unit-append c (escape t) rest) (
    split_slashes-escape_unit c (escape t ++ rest) (escape t) ss
      (split_slashes-escape t rest s ss h))

split_slashes-pointer_of :
    (t : Text) (tokens : List Text)
    → split_slashes (escape t ++ pointer_of tokens) ≡ escape t ∷ map escape tokens
unfolding pointer_of split_slashes
split_slashes-pointer_of t [] = split_slashes-escape t [] [] [] refl
split_slashes-pointer_of t (u ∷ tokens) =
    split_slashes-escape t (pointer_of (u ∷ tokens)) [] (map escape (u ∷ tokens))
      (ap (◌∷◌ []) (split_slashes-pointer_of u tokens))

has_good_escapes-escape_unit :
    (c : ℕ) (ts : Text) → has_good_escapes (escape_unit c ts) ≡ has_good_escapes ts
unfolding escape_unit has_good_escapes
has_good_escapes-escape_unit c ts = elim (Bool-cases (nat_beq c 126)) [
  | inl tilde ↦ rw tilde refl
  | inr other ↦ elim (Bool-cases (nat_beq c 47)) [
    | inl slash ↦ rw (other, slash) refl
    | inr plain ↦ rw (other, plain) (rw (other, has_good_escapes) refl)
  ]
]

has_good_escapes-escape : (t : Text) → has_good_escapes (escape t) ≡ true
unfolding escape
has_good_escapes-escape [] = unfold has_good_escapes in refl
has_good_escapes-escape (c ∷ t) =
    has_good_escapes-escape_unit c (escape t) ∙ has_good_escapes-escape t

all-has_good_escapes : (tokens : List Text) → all has_good_escapes (map escape tokens) ≡ true
all-has_good_escapes [] = refl
all-has_good_escapes (t ∷ tokens) = rw (has_good_escapes-escape t, all-has_good_escapes tokens) refl

-- What is left of an escape behind the first replacement.
half_escape : ℕ → Text → Text
half_escape c ts = if nat_beq c 126 then 126 ∷ 48 ∷ ts else c ∷ ts

replace_slash :
    (c : ℕ) (ts : Text)
    → replace_escape 49 47 (escape_unit c ts) ≡ half_escape c (replace_escape 49 47 ts)
unfolding escape_unit half_escape replace_escape
replace_slash c ts = elim (Bool-cases (nat_beq c 126)) [
  | inl tilde ↦ rw tilde refl
  | inr other ↦ elim (Bool-cases (nat_beq c 47)) [
    | inl slash ↦
        rw (other, slash) (ap (λ d. d ∷ replace_escape 49 47 ts) (sym (eq_of_beq c 47 slash)))
    | inr plain ↦ rw (other, plain) (rw (other, replace_escape) refl)
  ]
]

replace_tilde :
    (c : ℕ) (ts : Text) → replace_escape 48 126 (half_escape c ts) ≡ c ∷ replace_escape 48 126 ts
unfolding half_escape replace_escape
replace_tilde c ts = elim (Bool-cases (nat_beq c 126)) [
  | inl tilde ↦ rw tilde (ap (λ d. d ∷ replace_escape 48 126 ts) (sym (eq_of_beq c 126 tilde)))
  | inr other ↦ rw other (rw (other, replace_escape) refl)
]

unescape-escape : (t : Text) → unescape (escape t) ≡ t
unfolding escape
unescape-escape [] = unfold replace_escape in refl
unescape-escape (c ∷ t) =
    ap (replace_escape 48 126) (replace_slash c (escape t))
    ∙ replace_tilde c (replace_escape 49 47 (escape t))
    ∙ ap (◌∷◌ c) (unescape-escape t)

map-unescape : (tokens : List Text) → map unescape (map escape tokens) ≡ tokens
map-unescape [] = refl
map-unescape (t ∷ tokens) = rw (unescape-escape t, map-unescape tokens) refl

-- A pointer written from its tokens, with `~0` for a tilde and `~1` for a slash, is split into those
-- tokens, whatever their characters, the empty token included.
pub split_pointer-pointer_of : (tokens : List Text) → split_pointer (pointer_of tokens) ≡ ok tokens
unfolding split_pointer pointer_of
split_pointer-pointer_of [] = refl
split_pointer-pointer_of (t ∷ tokens) =
    rw (split_slashes-pointer_of t tokens, all-has_good_escapes (t ∷ tokens))
      (ap ok (map-unescape (t ∷ tokens)))
