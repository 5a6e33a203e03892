-- ===== src/Canonical/Total.antt =====
-- The strict parser never runs out of the fuel that it is given, and an object that it returns has no
-- key twice.
use sih26_proto.Canonical.Parser.{
  unexpected, start_of, broken, next_of, has_key, parse_key, parse_literal, parse_number,
  parse_object, parse_array, next_member, next_element, parse_value, parse_members, parse_elements,
  at_end, parse_whole,
}
use sih26_proto.Common.{
  list_beq, ℕ, zero, suc, ◌*◌, ◌<◌, ◌≤◌, ◌≡◌, ◌≢◌, refl, true, false, List, [], ◌∷◌, length, arith,
  list_eq, nat_eq, Bool-cases, inl, inr, Option-cases, beq_refl, eq_of_beq,
}
use sih26_proto.Canonical.Json.{Text, Numbers, Value, null, bool, Elements, Members, member}
use sih26_proto.Canonical.Scan.{Parsed, skip_whitespace, peek_is, advance, after_prefix}
use sih26_proto.Canonical.Lengths.{
  Ensures, holds, fails, fails_text, Ensures->>=, Ensures-if, Ensures-weaken, Shortens,
  length-skip_whitespace, length-advance, parse_string-Shortens, length-after_prefix,
  scan_number-Shortens,
}
use sih26_proto.Canonical.Distinct.{keys_of, HasDistinctKeys, HaveDistinctKeys, AreDistinct}
use sih26_proto.Canonical.Cases.{Ensures-elim, Ensures-next, Ensures-start}

has_key_self : (keys : List Text) (key : Text) → has_key (key ∷ keys) key ≡ true
has_key_self keys key = rw (beq_refl key) refl

abbrev ReadsKey : List Text → Text → Text × Text → Type 0
ReadsKey keys ts r = Shortens ts r × (has_key keys r.0 ≡ false)

length-peeked :
    (c : ℕ) (ts : Text)
    → peek_is c (skip_whitespace ts) ≡ true
    → length (advance (skip_whitespace ts)) < length ts
length-peeked c ts h =
    omega (arith, length-skip_whitespace ts, length-advance c (skip_whitespace ts) h)

parse_key-ReadsKey : (keys : List Text) (ts : Text) → Ensures (ReadsKey keys ts) (parse_key keys ts)
unfolding parse_key
parse_key-ReadsKey keys ts =
    Ensures-if (peek_is 34 (skip_whitespace ts))
      (λ quote.
        Ensures->>= _ (parse_string-Shortens (advance (skip_whitespace ts))) λ (key, rest) shorter.
          Ensures-if (has_key keys key) (λ _. fails λ p. cc p)
            λ fresh.
              Ensures-if (peek_is 58 (skip_whitespace rest))
                (λ colon.
                  holds
                    (omega (arith, length-peeked 34 ts quote, length-peeked 58 rest colon), fresh))
                λ _. fails_text _)
      λ _. fails_text _

-- A character that starts a value, or that goes on or ends a loop, is there to be passed.
start-peeked : (ts : Text) → start_of ts ≢ unexpected → length (advance ts) < length ts
unfolding start_of
start-peeked [] ne = absurd (ne refl)
start-peeked (c ∷ ts) ne = omega arith

next-peeked : (c : ℕ) (ts : Text) → next_of c ts ≢ broken → length (advance ts) < length ts
unfolding next_of
next-peeked c [] ne = absurd (ne refl)
next-peeked c (d ∷ ts) ne = omega arith

module _ {N : Type 0} ⦃js : Numbers N⦄ where
  abbrev ReadsValue : Text → Value N × Text → Type 0
  ReadsValue ts r = Shortens ts r × HasDistinctKeys r.0

  abbrev ReadsMembers : List Text → Text → Members N × Text → Type 0
  ReadsMembers keys ts r =
      Shortens ts r
      × AreDistinct r.0
      × ((key : Text) → has_key keys key ≡ true → has_key (keys_of r.0) key ≡ false)

  abbrev ReadsElements : Text → Elements N × Text → Type 0
  ReadsElements ts r = Shortens ts r × HaveDistinctKeys r.0

  parse_literal-ReadsValue :
      (c : ℕ) (cs : Text) (v : Value N) (ts : Text)
      → HasDistinctKeys v
      → Ensures (ReadsValue ts) (parse_literal (c ∷ cs) v ts)
  unfolding parse_literal
  parse_literal-ReadsValue c cs v ts distinct = elim (Option-cases (after_prefix (c ∷ cs) ts)) [
    | inl missed ↦ rw (missed, parse_literal) (fails_text ts)
    | inr (rest, met) ↦ rw (met, parse_literal) (holds (length-after_prefix c cs ts met, distinct))
  ]

  parse_number-ReadsValue : (ts : Text) → Ensures (ReadsValue ts) (parse_number ts)
  unfolding parse_number HasDistinctKeys
  parse_number-ReadsValue ts = Ensures->>= _ (scan_number-Shortens ts) λ (raw, rest) shorter.
      Ensures-if (js.is_finite (js.to_number raw)) (λ _. holds (shorter, tt)) λ _. fails_text rest

  parse_object-ReadsValue :
      (loop : Text → Parsed (Members N)) (ts : Text)
      → ((inner : Text) → length inner ≤ length ts → Ensures (ReadsMembers [] inner) (loop inner))
      → Ensures (λ r. length r.1 ≤ length ts × HasDistinctKeys r.0) (parse_object loop ts)
  unfolding parse_object HasDistinctKeys
  parse_object-ReadsValue loop ts reads =
      let le = length-skip_whitespace ts in
      Ensures-elim (peek_is 125 (skip_whitespace ts))
        (λ brace. holds (omega (arith, length-advance 125 (skip_whitespace ts) brace), tt))
        λ _.
          Ensures->>= _ (reads (skip_whitespace ts) le)
            λ r (lt, distinct, fresh). holds (omega arith, distinct)

  parse_array-ReadsValue :
      (loop : Text → Parsed (Elements N)) (ts : Text)
      → ((inner : Text) → length inner ≤ length ts → Ensures (ReadsElements inner) (loop inner))
      → Ensures (λ r. length r.1 ≤ length ts × HasDistinctKeys r.0) (parse_array loop ts)
  unfolding parse_array HasDistinctKeys
  parse_array-ReadsValue loop ts reads =
      let le = length-skip_whitespace ts in
      Ensures-elim (peek_is 93 (skip_whitespace ts))
        (λ bracket. holds (omega (arith, length-advance 93 (skip_whitespace ts) bracket), tt))
        λ _.
          Ensures->>= _ (reads (skip_whitespace ts) le)
            λ r (lt, distinct). holds (omega arith, distinct)

  next_member-ReadsMembers :
      (keys : List Text) (loop : Text → Parsed (Members N)) (ts : Text)
      → ((inner : Text) → length inner < length ts → Ensures (ReadsMembers keys inner) (loop inner))
      → Ensures (ReadsMembers keys ts) (next_member loop ts)
  unfolding next_member HasDistinctKeys
  next_member-ReadsMembers keys loop ts reads =
      Ensures-next (next_of 125 ts)
        (λ more.
          let lt = next-peeked 125 ts (λ p. cc (more, p)) in
          Ensures-weaken (reads (advance ts) lt)
            λ r (shorter, distinct, fresh). (omega arith, distinct, fresh))
        (λ last. holds (next-peeked 125 ts (λ p. cc (last, p)), tt, λ key seen. refl))
        (fails_text ts)

  next_element-ReadsElements :
      (loop : Text → Parsed (Elements N)) (ts : Text)
      → ((inner : Text) → length inner < length ts → Ensures (ReadsElements inner) (loop inner))
      → Ensures (ReadsElements ts) (next_element loop ts)
  unfolding next_element HasDistinctKeys
  next_element-ReadsElements loop ts reads =
      Ensures-next (next_of 93 ts)
        (λ more.
          let lt = next-peeked 93 ts (λ p. cc (more, p)) in
          Ensures-weaken (reads (advance ts) lt) λ r (shorter, rest). (omega arith, rest))
        (λ last. holds (next-peeked 93 ts (λ p. cc (last, p)), tt)) (fails_text ts)

  -- A member in front of members that are fresh to its key and to those before it.
  member-Fresh :
      (keys : List Text) (key : Text) (v : Value N) (ms : Members N)
      → has_key keys key ≡ false
      → ((k : Text) → has_key (key ∷ keys) k ≡ true → has_key (keys_of ms) k ≡ false)
      → (k : Text) → has_key keys k ≡ true
      → has_key (keys_of (member key v ms)) k ≡ false
  member-Fresh keys key v ms fresh later k seen = elim (Bool-cases (list_beq key k)) [
    | inl same_key ↦ cc (fresh, seen, eq_of_beq key k same_key)
    | inr other_key ↦ rw (other_key) (later k (rw other_key seen))
  ]

  -- What reads behind white space reads.
  within :
      (ts : Text) {r : Parsed (Value N)}
      → Ensures (ReadsValue (skip_whitespace ts)) r
      → Ensures (ReadsValue ts) r
  within ts reads =
      Ensures-weaken reads λ r (lt, distinct). (omega (arith, length-skip_whitespace ts), distinct)

  mutual
    unfolding parse_value HasDistinctKeys

    parse_value-ReadsValue :
        (f : ℕ) (ts : Text) → 2 * length ts < f → Ensures (ReadsValue ts) (parse_value f ts)
    parse_value-ReadsValue zero ts h = absurd (omega arith)
    parse_value-ReadsValue (suc f) ts h =
        let here = skip_whitespace ts in
        let le = length-skip_whitespace ts in
        Ensures-start (start_of here)
          (λ met.
            let lt = start-peeked here met in
            Ensures-weaken
              (parse_object-ReadsValue (λ inner. parse_members f [] inner) (advance here)
                λ inner le1. parse_members-ReadsMembers f [] inner (omega arith))
              λ r (le2, distinct). (omega arith, distinct))
          (λ met.
            let lt = start-peeked here met in
            Ensures-weaken
              (parse_array-ReadsValue (λ inner. parse_elements f inner) (advance here)
                λ inner le1. parse_elements-ReadsElements f inner (omega arith))
              λ r (le2, distinct). (omega arith, distinct))
          (λ met.
            let lt = start-peeked here met in
            Ensures->>= _ (parse_string-Shortens (advance here))
              λ r shorter. holds (omega arith, tt))
          (within ts (parse_literal-ReadsValue _ _ (bool true) here tt))
          (within ts (parse_literal-ReadsValue _ _ (bool false) here tt))
          (within ts (parse_literal-ReadsValue _ _ null here tt))
          (within ts (parse_number-ReadsValue here)) (fails_text here)

    parse_members-ReadsMembers :
        (f : ℕ) (keys : List Text) (ts : Text)
        → suc (2 * length ts) < f
        → Ensures (ReadsMembers keys ts) (parse_members f keys ts)
    parse_members-ReadsMembers zero keys ts h = absurd (omega arith)
    parse_members-ReadsMembers (suc f) keys ts h =
        Ensures->>= _ (parse_key-ReadsKey keys ts) λ (key, behind_colon) (lt1, fresh).
          Ensures->>= _ (parse_value-ReadsValue f behind_colon (omega arith))
            λ (v, rest) (lt2, distinct).
              let le = length-skip_whitespace rest in
              Ensures->>= _
                (next_member-ReadsMembers (key ∷ keys) (λ more. parse_members f (key ∷ keys) more)
                  (skip_whitespace rest)
                  λ inner lt3. parse_members-ReadsMembers f (key ∷ keys) inner (omega arith))
                λ (ms, last) (lt4, are_distinct, later). holds (
                  omega arith,
                  (later key (has_key_self keys key), distinct, are_distinct),
                  member-Fresh keys key v ms fresh later,
                )

    parse_elements-ReadsElements :
        (f : ℕ) (ts : Text)
        → suc (2 * length ts) < f
        → Ensures (ReadsElements ts) (parse_elements f ts)
    parse_elements-ReadsElements zero ts h = absurd (omega arith)
    parse_elements-ReadsElements (suc f) ts h =
        Ensures->>= _ (parse_value-ReadsValue f ts (omega arith)) λ (v, rest) (lt2, distinct).
          let le = length-skip_whitespace rest in
          Ensures->>= _
            (next_element-ReadsElements (λ more. parse_elements f more) (skip_whitespace rest)
              λ inner lt3. parse_elements-ReadsElements f inner (omega arith))
            λ (items, last) (lt4, are_distinct). holds (omega arith, (distinct, are_distinct))

  at_end-Ensures :
      (v : Value N) (rest : Text) → HasDistinctKeys v → Ensures HasDistinctKeys (at_end v rest)
  unfolding at_end
  at_end-Ensures v [] distinct = holds distinct
  at_end-Ensures v (c ∷ rest) distinct = fails_text _

  pub parse_whole-Ensures :
      (f : ℕ) (ts : Text) → 2 * length ts < f → Ensures (HasDistinctKeys {N = N}) (parse_whole f ts)
  unfolding parse_whole
  parse_whole-Ensures f ts h =
      Ensures->>= _ (parse_value-ReadsValue f ts h)
        λ (v, rest) (lt, distinct). at_end-Ensures v (skip_whitespace rest) distinct
