-- ===== src/Canonical/Grammar.antt =====
-- What I-JSON asks of a value, apart from the code that tests it.
use sih26_proto.Canonical.Scan.{is_digit}
use sih26_proto.Common.{
  leb, ◌&&◌, ap, ◌≤◌, all, nat_beq, arith, length, eq_of_beq, nat_eq, subst, sym, ℕ, suc, ◌≡◌, ◌↔◌,
  refl, Bool, true, false, Option, none, some, List, [], ◌∷◌, ◌∙◌, Bool-cases, inl, inr,
  Option-cases, All,
}
use sih26_proto.Canonical.Json.{
  Text, Numbers, Value, null, bool, number, string, not_json, circular, array, object, Elements,
  no_elements, hole, element, Members, no_members, member, ValuePath,
}
use sih26_proto.Canonical.Compatible.{
  is_high, is_low, surrogate_from, surrogate_behind, is_index_key, or_else, named_property,
  unpaired_at, problem_in, problem_in_elements, problem_in_members, assert_json_compatible,
}

-- Well-formed UTF-16: each surrogate stands in a pair.
pub data IsUnicode : Text → Type 0 where
  empty : IsUnicode []
  scalar :
      {c : ℕ} {ts : Text} → is_high c ≡ false → is_low c ≡ false → IsUnicode ts → IsUnicode (c ∷ ts)
  pair :
      {c d : ℕ} {ts : Text}
      → is_high c ≡ true
      → is_low d ≡ true
      → IsUnicode ts
      → IsUnicode (c ∷ d ∷ ts)

mutual
  unfolding surrogate_from

  surrogate_from-none : (i : ℕ) (ts : Text) → surrogate_from i ts ≡ none → IsUnicode ts
  surrogate_from-none i [] h = empty
  surrogate_from-none i (c ∷ ts) h = elim (Bool-cases (is_high c)) [
    | inl high ↦
        surrogate_behind-none i c ts high (rw (high, surrogate_from, surrogate_behind) at h)
    | inr other ↦ elim (Bool-cases (is_low c)) [
      | inl low ↦ cc (rw (other, low, surrogate_from, surrogate_behind) at h)
      | inr plain ↦ scalar other plain (
          surrogate_from-none (suc i) ts (rw (other, plain, surrogate_from, surrogate_behind) at h))
    ]
  ]

  surrogate_behind-none :
      (i c : ℕ) (ts : Text) → is_high c ≡ true → surrogate_behind i ts ≡ none → IsUnicode (c ∷ ts)
  surrogate_behind-none i c [] high h = cc h
  surrogate_behind-none i c (d ∷ ts) high h = elim (Bool-cases (is_low d)) [
    | inl low ↦
        pair high low
          (surrogate_from-none (suc (suc i)) ts (rw (low, surrogate_from, surrogate_behind) at h))
    | inr plain ↦ cc (rw (plain, surrogate_from, surrogate_behind) at h)
  ]

surrogate_behind_low :
    (i d : ℕ) (ts : Text) (branch : Option ℕ)
    → is_low d ≡ true
    → (elim (is_low d) [ true ↦ surrogate_from (suc (suc i)) ts | false ↦ branch ])
      ≡ surrogate_from (suc (suc i)) ts
surrogate_behind_low i d ts branch low = rw low

surrogate_from-IsUnicode : {ts : Text} (i : ℕ) → IsUnicode ts → surrogate_from i ts ≡ none
unfolding surrogate_from
surrogate_from-IsUnicode i empty = refl
surrogate_from-IsUnicode i (scalar other plain u) =
    rw (other, plain, surrogate_from) (surrogate_from-IsUnicode (suc i) u)
surrogate_from-IsUnicode i (pair {d} {ts} high low u) =
    rw (high, surrogate_from)
      (surrogate_behind_low i d ts (some i) low ∙ surrogate_from-IsUnicode (suc (suc i)) u)

unpaired_at-none : (path : ValuePath) (s : Text) → unpaired_at path s ≡ none → IsUnicode s
unfolding unpaired_at
unpaired_at-none path s h = elim (Option-cases (surrogate_from 0 s)) [
  | inl none_found ↦ surrogate_from-none 0 s none_found
  | inr (i, found) ↦ cc (rw (found, unpaired_at) at h)
]

unpaired_at-IsUnicode : (path : ValuePath) {s : Text} → IsUnicode s → unpaired_at path s ≡ none
unfolding unpaired_at
unpaired_at-IsUnicode path u = rw (surrogate_from-IsUnicode 0 u, unpaired_at)

pub or_else-eq-none {ℓ} :
    {A : Type ℓ} (first second : Option A)
    → or_else first second ≡ none
    → (first ≡ none) × (second ≡ none)
or_else-eq-none none second h = (refl, h)
or_else-eq-none (some problem) second h = cc h

abbrev IsDigit : ℕ → Type 0
IsDigit c = (48 ≤ c) × (c ≤ 57)

-- A decimal numeral without leading zeros, of any length.
pub data IsNumeral : Text → Type 0 where
  nought : IsNumeral (48 ∷ [])
  numeral : {c : ℕ} {ts : Text} → 49 ≤ c → c ≤ 57 → All IsDigit ts → IsNumeral (c ∷ ts)

digits_iff : (ts : Text) → (all is_digit ts ≡ true) ↔ All IsDigit ts
digits_iff [] = (λ h. tt, λ h. refl)
digits_iff (c ∷ ts) = ground (arith, digits_iff ts)

only_nought : (ts : Text) → nat_beq (length ts) 0 ≡ true → IsNumeral (48 ∷ ts)
only_nought [] h = nought
only_nought (c ∷ ts) h = absurd (ground arith)

leading :
    (c : ℕ) (ts : Text)
    → (leb 49 c && leb c 57 && all is_digit ts) ≡ true
    → (49 ≤ c) × (c ≤ 57) × (all is_digit ts ≡ true)
leading c ts h = ground arith

pub is_index_key-IsNumeral : (key : Text) → is_index_key key ≡ true → IsNumeral key
unfolding is_index_key
is_index_key-IsNumeral [] h = cc h
is_index_key-IsNumeral (c ∷ ts) h = elim (Bool-cases (nat_beq c 48)) [
  | inl zero_first ↦
      subst IsNumeral (sym (ap (λ d. d ∷ ts) (eq_of_beq c 48 zero_first)))
        (only_nought ts (rw zero_first at h))
  | inr other ↦
      let (lo, hi, ds) = leading c ts (rw other at h) in numeral lo hi ((digits_iff ts).0 ds)
]

pub IsNumeral-is_index_key : {key : Text} → IsNumeral key → is_index_key key ≡ true
unfolding is_index_key
IsNumeral-is_index_key nought = refl
IsNumeral-is_index_key (numeral {c} {ts} lo hi ds) =
    let all_digits = (digits_iff ts).1 ds in ground arith

named_property-none :
    (path : ValuePath) (keys : List Text) → named_property path keys ≡ none → All IsNumeral keys
unfolding named_property
named_property-none path [] h = tt
named_property-none path (key ∷ keys) h = elim (Bool-cases (is_index_key key)) [
  | inl index ↦ (is_index_key-IsNumeral key index, named_property-none path keys (rw index at h))
  | inr other ↦ cc (rw other at h)
]

named_property-All :
    (path : ValuePath) (keys : List Text) → All IsNumeral keys → named_property path keys ≡ none
unfolding named_property
named_property-All path [] h = refl
named_property-All path (key ∷ keys) (index, more) =
    rw (IsNumeral-is_index_key index) (named_property-All path keys more)

-- A plain tree of JSON whose numbers are finite and whose strings and keys are well-formed: no hole, no
-- cycle, no value that JSON does not have, no object of a class or with a symbol as a key. An array's
-- keys beside its indices are numerals, such as 4294967295, which is too large for an index.
module _ {N : Type 0} ⦃js : Numbers N⦄ where
  mutual
    pub data IsIJson : Value N → Type 0 where
      of_null : IsIJson null
      of_bool : {b : Bool} → IsIJson (bool b)
      of_number : {n : N} → js.is_finite n ≡ true → IsIJson (number n)
      of_string : {s : Text} → IsUnicode s → IsIJson (string s)
      of_array :
          {items : Elements N} {named : List Text}
          → AreIJson items
          → All IsNumeral named
          → IsIJson (array items named)
      of_object : {ms : Members N} → HoldIJson ms → IsIJson (object true false ms)

    pub data AreIJson : Elements N → Type 0 where
      none_left : AreIJson no_elements
      next :
          {v : Value N} {items : Elements N}
          → IsIJson v
          → AreIJson items
          → AreIJson (element v items)

    pub data HoldIJson : Members N → Type 0 where
      no_more : HoldIJson no_members
      entry :
          {key : Text} {v : Value N} {ms : Members N}
          → IsUnicode key
          → IsIJson v
          → HoldIJson ms
          → HoldIJson (member key v ms)

  mutual
    unfolding problem_in

    problem_in-none : (path : ValuePath) (v : Value N) → problem_in path v ≡ none → IsIJson v
    problem_in-none path null h = of_null
    problem_in-none path (bool b) h = of_bool
    problem_in-none path (number n) h = elim (Bool-cases (js.is_finite n)) [
      | inl finite ↦ of_number finite
      | inr infinite ↦ cc (rw infinite at h)
    ]
    problem_in-none path (string s) h = of_string (unpaired_at-none path s h)
    problem_in-none path (not_json kind) h = cc h
    problem_in-none path circular h = cc h
    problem_in-none path (array items named) h =
        let (inside, beside) = or_else-eq-none _ _ h in
        of_array (problem_in_elements-none path 0 items inside)
          (named_property-none path named beside)
    problem_in-none path (object false symbols ms) h = cc h
    problem_in-none path (object true true ms) h = cc h
    problem_in-none path (object true false ms) h = of_object (problem_in_members-none path ms h)

    problem_in_elements-none :
        (path : ValuePath) (i : ℕ) (items : Elements N)
        → problem_in_elements path i items ≡ none
        → AreIJson items
    problem_in_elements-none path i no_elements h = none_left
    problem_in_elements-none path i (hole items) h = cc h
    problem_in_elements-none path i (element v items) h =
        let (first, more) = or_else-eq-none _ _ h in
        next (problem_in-none _ v first) (problem_in_elements-none path (suc i) items more)

    problem_in_members-none :
        (path : ValuePath) (ms : Members N) → problem_in_members path ms ≡ none → HoldIJson ms
    problem_in_members-none path no_members h = no_more
    problem_in_members-none path (member key v ms) h =
        let (unicode, inside) = or_else-eq-none _ _ h in
        let (first, more) = or_else-eq-none _ _ inside in
        entry (unpaired_at-none path key unicode) (problem_in-none _ v first)
          (problem_in_members-none path ms more)

  mutual
    unfolding problem_in

    problem_in-IsIJson : (path : ValuePath) (v : Value N) → IsIJson v → problem_in path v ≡ none
    problem_in-IsIJson path v of_null = refl
    problem_in-IsIJson path v of_bool = refl
    problem_in-IsIJson path v (of_number finite) = rw finite
    problem_in-IsIJson path v (of_string u) = unpaired_at-IsUnicode path u
    problem_in-IsIJson path v (of_array inside named) =
        rw (problem_in_elements-AreIJson path 0 _ inside) (named_property-All path _ named)
    problem_in-IsIJson path v (of_object inside) = problem_in_members-HoldIJson path _ inside

    problem_in_elements-AreIJson :
        (path : ValuePath) (i : ℕ) (items : Elements N)
        → AreIJson items
        → problem_in_elements path i items ≡ none
    problem_in_elements-AreIJson path i items none_left = refl
    problem_in_elements-AreIJson path i items (next first more) =
        rw (problem_in-IsIJson _ _ first) (problem_in_elements-AreIJson path (suc i) _ more)

    problem_in_members-HoldIJson :
        (path : ValuePath) (ms : Members N) → HoldIJson ms → problem_in_members path ms ≡ none
    problem_in_members-HoldIJson path ms no_more = refl
    problem_in_members-HoldIJson path ms (entry unicode first more) =
        rw (unpaired_at-IsUnicode path unicode, problem_in-IsIJson _ _ first)
          (problem_in_members-HoldIJson path _ more)

  pub assert_json_compatible_iff : (v : Value N) → (assert_json_compatible v ≡ none) ↔ IsIJson v
  assert_json_compatible_iff v = (problem_in-none [] v, problem_in-IsIJson [] v)
