-- ===== src/Redaction/Written.antt =====
-- A pointer that `splitPointer` takes is written from the tokens that it gives.
use sih26_proto.Common.{
  ◌⊎◌, ℕ, ◌≡◌, ◌∙◌, refl, ap, sym, subst, true, false, not, List, [], ◌∷◌, ◌++◌, nat_beq, map, all,
  arith, Bool-cases, inl, inr, eq_of_beq, nat_eq, All, and-eq-true, not-eq-false,
}
use sih26_proto.Result.{ok, guard-eq-ok, ok_injective, redaction_failure}
use sih26_proto.Canonical.Json.{Text}
use sih26_proto.Redaction.{
  split_slashes, in_front, has_good_escapes, has_good_escape, is_escape_digit, replace_escape,
  replace_behind, unescape, split_pointer,
}
use sih26_proto.Redaction.Pointers.{escape, escape_unit, pointer_of}

abbrev HasNoSlash : Text → Type 0
HasNoSlash = All (λ c. nat_beq c 47 ≡ false)

escape_plain :
    (c : ℕ) (ts : Text)
    → nat_beq c 126 ≡ false
    → nat_beq c 47 ≡ false
    → escape (c ∷ ts) ≡ c ∷ escape ts
unfolding escape escape_unit
escape_plain c ts other plain = rw (other, plain) refl

digit-cases : (d : ℕ) → is_escape_digit d ≡ true → (d ≡ 48) ⊎ (d ≡ 49)
digit-cases d h = ground arith

replace_tilde :
    (d by c : ℕ) (ts : Text)
    → nat_beq c 126 ≡ true
    → replace_escape d by (c ∷ ts) ≡ replace_behind d by ts
unfolding replace_escape
replace_tilde d by c ts h = rw (h, replace_escape) refl

replace_plain :
    (d by c : ℕ) (ts : Text)
    → nat_beq c 126 ≡ false
    → replace_escape d by (c ∷ ts) ≡ c ∷ replace_escape d by ts
unfolding replace_escape
replace_plain d by c ts h = rw (h, replace_escape) refl

unescape_tilde :
    (c : ℕ) (ts : Text)
    → nat_beq c 126 ≡ true
    → unescape (c ∷ ts) ≡ replace_escape 48 126 (replace_behind 49 47 ts)
unescape_tilde c ts h = ap (replace_escape 48 126) (replace_tilde 49 47 c ts h)

unescape_plain : (c : ℕ) (ts : Text) → nat_beq c 126 ≡ false → unescape (c ∷ ts) ≡ c ∷ unescape ts
unescape_plain c ts h =
    ap (replace_escape 48 126) (replace_plain 49 47 c ts h)
    ∙ replace_plain 48 126 c (replace_escape 49 47 ts) h

mutual
  unfolding escape escape_unit has_good_escapes replace_escape

  escape-unescape : (s : Text) → has_good_escapes s ≡ true → HasNoSlash s → escape (unescape s) ≡ s
  escape-unescape [] h n = refl
  escape-unescape (c ∷ ts) h (plain, n) = elim (Bool-cases (nat_beq c 126)) [
    | inl tilde ↦
        ap escape (unescape_tilde c ts tilde)
        ∙ escape-behind ts (rw (tilde, has_good_escapes) at h) n
        ∙ ap (λ d. d ∷ ts) (sym (eq_of_beq c 126 tilde))
    | inr other ↦
        ap escape (unescape_plain c ts other)
        ∙ escape_plain c (unescape ts) other plain
        ∙ ap (◌∷◌ c) (escape-unescape ts (rw (other, has_good_escapes) at h) n)
  ]

  escape-behind :
      (ts : Text)
      → has_good_escape ts ≡ true
      → HasNoSlash ts
      → escape (replace_escape 48 126 (replace_behind 49 47 ts)) ≡ 126 ∷ ts
  escape-behind [] h n = cc h
  escape-behind (d ∷ ts) h (plain, n) =
      let (digit, more) = and-eq-true (is_escape_digit d) (has_good_escapes ts) h in
      elim (digit-cases d digit) [
        | inl tilde ↦ rw tilde (ap (λ t. 126 ∷ 48 ∷ t) (escape-unescape ts more n))
        | inr slash ↦ rw slash (ap (λ t. 126 ∷ 49 ∷ t) (escape-unescape ts more n))
      ]

-- Parts with a slash in front of each.
unfoldable joined : List Text → Text
joined [] = []
joined (s ∷ ss) = 47 ∷ (s ++ joined ss)

joined-in_front :
    (c : ℕ) (cs : Text) (ss : List Text)
    → 47 ∷ cs ≡ joined ss
    → 47 ∷ c ∷ cs ≡ joined (in_front c ss)
unfolding joined
joined-in_front c cs [] h = cc h
joined-in_front c cs (s ∷ ss) h = cc h

joined-split_slashes : (cs : Text) → 47 ∷ cs ≡ joined (split_slashes cs)
unfolding joined split_slashes
joined-split_slashes [] = refl
joined-split_slashes (c ∷ cs) = elim (Bool-cases (nat_beq c 47)) [
  | inl slash ↦
      rw slash
        (ap (λ d. 47 ∷ d ∷ cs) (eq_of_beq c 47 slash) ∙ ap (◌∷◌ 47) (joined-split_slashes cs))
  | inr other ↦ rw other (joined-in_front c cs (split_slashes cs) (joined-split_slashes cs))
]

no_slash-in_front :
    (c : ℕ) (ss : List Text)
    → nat_beq c 47 ≡ false
    → All HasNoSlash ss
    → All HasNoSlash (in_front c ss)
no_slash-in_front c [] h n = ((h, tt), tt)
no_slash-in_front c (s ∷ ss) h (n, ns) = ((h, n), ns)

split_slashes-HasNoSlash : (cs : Text) → All HasNoSlash (split_slashes cs)
unfolding split_slashes
split_slashes-HasNoSlash [] = (tt, tt)
split_slashes-HasNoSlash (c ∷ cs) = elim (Bool-cases (nat_beq c 47)) [
  | inl slash ↦ rw slash (tt, split_slashes-HasNoSlash cs)
  | inr other ↦
      rw other (no_slash-in_front c (split_slashes cs) other (split_slashes-HasNoSlash cs))
]

pointer_of-unescape :
    (ss : List Text)
    → all has_good_escapes ss ≡ true
    → All HasNoSlash ss
    → pointer_of (map unescape ss) ≡ joined ss
unfolding pointer_of joined
pointer_of-unescape [] h n = refl
pointer_of-unescape (s ∷ ss) h (n, ns) =
    let (good, more) = and-eq-true (has_good_escapes s) (all has_good_escapes ss) h in
    rw (escape-unescape s good n, pointer_of-unescape ss more ns) refl

pub pointer_of-split_pointer :
    (pointer : Text) (tokens : List Text)
    → split_pointer pointer ≡ ok tokens
    → pointer ≡ pointer_of tokens
unfolding split_pointer
pointer_of-split_pointer [] tokens h =
    subst (λ ts. [] ≡ pointer_of ts) (sym (ok_injective _ _ h)) (unfold pointer_of in refl)
pointer_of-split_pointer (c ∷ cs) tokens h =
    let (slash, h) = guard-eq-ok (not (nat_beq c 47)) redaction_failure _ h in
    let (good, h) =
      guard-eq-ok (not (all has_good_escapes (split_slashes cs))) redaction_failure _ h in
    ap (λ d. d ∷ cs) (eq_of_beq c 47 (not-eq-false _ slash))
    ∙ joined-split_slashes cs
    ∙ sym
        (pointer_of-unescape (split_slashes cs) (not-eq-false _ good) (split_slashes-HasNoSlash cs))
    ∙ ap pointer_of (sym (ok_injective _ _ h))
