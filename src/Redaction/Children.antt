-- ===== src/Redaction/Children.antt =====
-- What one step of a pointer leads to, apart from the code of packages/contracts/src/redaction.ts.
use native.Mathlib.Nat.{add-mul, mul_assoc}
use sih26_proto.Common.{
  ◌⊎◌, ℕ, zero, suc, ◌+◌, ◌*◌, ◌-◌, ◌≡◌, ◌≢◌, refl, ap, sym, ◌∙◌, subst, Bool, true, false, Option,
  none, some, List, [], ◌∷◌, Bool-cases, inl, inr, eq_of_beq, ne_of_beq, beq_of_ne, beq_refl, ◌==◌,
  nat_eq, list_eq, arith,
}
use sih26_proto.Canonical.Json.{
  Text, Value, null, bool, number, string, not_json, circular, array, object, undefined, bigint,
  symbol, function, Elements, no_elements, hole, element, Members, no_members, member,
}
use sih26_proto.Canonical.Compatible.{is_index_key}
use sih26_proto.Canonical.Grammar.{IsNumeral, is_index_key-IsNumeral, IsNumeral-is_index_key}
use sih26_proto.Redaction.{decimal_from, element_at, member_at, defined, descend}

-- The number that digits write: each one counts for the power of ten behind it.
unfoldable pub tens : Text → ℕ
tens [] = 1
tens (c ∷ ts) = 10 * tens ts

unfoldable pub value_of : Text → ℕ
value_of [] = 0
value_of (c ∷ ts) = (c - 48) * tens ts + value_of ts

decimal_step : (n d t v : ℕ) → (n * 10 + d) * t + v ≡ n * (10 * t) + (d * t + v)
decimal_step n d t v = rw (add-mul (n * 10) d t, mul_assoc n 10 t) (omega arith)

decimal_from-value_of : (n : ℕ) (ts : Text) → decimal_from n ts ≡ n * tens ts + value_of ts
unfolding tens value_of
decimal_from-value_of n [] = omega arith
decimal_from-value_of n (c ∷ ts) =
    decimal_from-value_of (n * 10 + (c - 48)) ts ∙ decimal_step n (c - 48) (tens ts) (value_of ts)

decimal-value_of : (ts : Text) → decimal_from 0 ts ≡ value_of ts
decimal-value_of ts = decimal_from-value_of 0 ts ∙ (omega arith)

module _ {N : Type 0} where
  -- The value at an index, which is no hole.
  pub data IsElement : Elements N → ℕ → Value N → Type 0 where
    front : {v : Value N} {items : Elements N} → IsElement (element v items) 0 v
    behind :
        {v w : Value N} {items : Elements N} {i : ℕ}
        → IsElement items i w
        → IsElement (element v items) (suc i) w
    behind_hole :
        {w : Value N} {items : Elements N} {i : ℕ}
        → IsElement items i w
        → IsElement (hole items) (suc i) w

  -- The value of a key.
  pub data IsMember : Members N → Text → Value N → Type 0 where
    named : {key : Text} {v : Value N} {ms : Members N} → IsMember (member key v ms) key v
    other :
        {key k : Text} {v w : Value N} {ms : Members N}
        → k ≢ key
        → IsMember ms key w
        → IsMember (member k v ms) key w

  abbrev pub IsDefined : Value N → Type 0
  IsDefined w = w ≢ not_json undefined

  -- One token leads from a value into it.
  pub data IsChild : Value N → Text → Value N → Type 0 where
    item :
        {items : Elements N} {keys : List Text} {token : Text} {w : Value N}
        → IsNumeral token
        → IsElement items (value_of token) w
        → IsDefined w
        → IsChild (array items keys) token w
    entry :
        {plain symbols : Bool} {ms : Members N} {token : Text} {w : Value N}
        → IsMember ms token w
        → IsDefined w
        → IsChild (object plain symbols ms) token w

  element_at-IsElement :
      (i : ℕ) (items : Elements N) (w : Value N) → element_at i items ≡ some w → IsElement items i w
  unfolding element_at
  element_at-IsElement i no_elements w h = cc h
  element_at-IsElement zero (hole items) w h = cc h
  element_at-IsElement zero (element v items) w h =
      subst (IsElement (element v items) 0) (cc h) front
  element_at-IsElement (suc i) (hole items) w h = behind_hole (element_at-IsElement i items w h)
  element_at-IsElement (suc i) (element v items) w h = behind (element_at-IsElement i items w h)

  IsElement-element_at :
      {i : ℕ} {items : Elements N} {w : Value N} → IsElement items i w → element_at i items ≡ some w
  unfolding element_at
  IsElement-element_at front = refl
  IsElement-element_at (behind e) = IsElement-element_at e
  IsElement-element_at (behind_hole e) = IsElement-element_at e

  member_at-IsMember :
      (key : Text) (ms : Members N) (w : Value N) → member_at key ms ≡ some w → IsMember ms key w
  unfolding member_at
  member_at-IsMember key no_members w h = cc h
  member_at-IsMember key (member k v ms) w h = elim (Bool-cases (k == key)) [
    | inl same ↦
        subst (λ x. IsMember (member k v ms) x w) (eq_of_beq k key same)
          (subst (IsMember (member k v ms) k) (cc (rw same at h)) named)
    | inr apart ↦ other (ne_of_beq k key apart) (member_at-IsMember key ms w (rw apart at h))
  ]

  IsMember-member_at :
      {key : Text} {ms : Members N} {w : Value N} → IsMember ms key w → member_at key ms ≡ some w
  unfolding member_at
  IsMember-member_at (named {key}) = rw (beq_refl key) refl
  IsMember-member_at (other {key} {k} ne m) = rw (beq_of_ne k key ne) (IsMember-member_at m)

  is_undefined : Value N → Bool
  is_undefined (not_json undefined) = true
  is_undefined (not_json bigint) = false
  is_undefined (not_json symbol) = false
  is_undefined (not_json function) = false
  is_undefined null = false
  is_undefined (bool b) = false
  is_undefined (number n) = false
  is_undefined (string s) = false
  is_undefined circular = false
  is_undefined (array items keys) = false
  is_undefined (object plain symbols ms) = false

  undefined_or :
      (v : Value N)
      → (defined (some v) ≡ some v) × (is_undefined v ≡ false)
        ⊎ (defined (some v) ≡ none) × (v ≡ not_json undefined)
  unfolding is_undefined
  undefined_or (not_json undefined) = inr (refl, refl)
  undefined_or (not_json bigint) = inl (refl, refl)
  undefined_or (not_json symbol) = inl (refl, refl)
  undefined_or (not_json function) = inl (refl, refl)
  undefined_or null = inl (refl, refl)
  undefined_or (bool b) = inl (refl, refl)
  undefined_or (number n) = inl (refl, refl)
  undefined_or (string s) = inl (refl, refl)
  undefined_or circular = inl (refl, refl)
  undefined_or (array items keys) = inl (refl, refl)
  undefined_or (object plain symbols ms) = inl (refl, refl)

  is_undefined-IsDefined : (v : Value N) → is_undefined v ≡ false → IsDefined v
  unfolding is_undefined
  is_undefined-IsDefined v h e = cc (ap is_undefined e, h)

  defined-IsDefined :
      (o : Option (Value N)) (w : Value N) → defined o ≡ some w → (o ≡ some w) × IsDefined w
  defined-IsDefined none w h = cc h
  defined-IsDefined (some v) w h = elim (undefined_or v) [
    | inl (kept, test) ↦
        let same = sym kept ∙ h in (same, subst IsDefined (cc same) (is_undefined-IsDefined v test))
    | inr (lost, e) ↦ cc (sym lost ∙ h)
  ]

  IsDefined-defined : (w : Value N) → IsDefined w → defined (some w) ≡ some w
  IsDefined-defined w h = elim (undefined_or w) [
    | inl (kept, test) ↦ kept
    | inr (lost, e) ↦ absurd (h e)
  ]

  descend_index :
      (items : Elements N) (keys : List Text) (token : Text) (w : Value N)
      → IsNumeral token
      → defined (element_at (decimal_from 0 token) items) ≡ some w
      → IsChild (array items keys) token w
  descend_index items keys token w index h =
      let (found, is_defined) = defined-IsDefined _ w h in
      item index
        (subst (λ i. IsElement items i w) (decimal-value_of token)
          (element_at-IsElement (decimal_from 0 token) items w found))
        is_defined

  pub descend-IsChild :
      (v : Value N) (token : Text) (w : Value N) → descend v token ≡ some w → IsChild v token w
  unfolding descend
  descend-IsChild (array items keys) token w h = elim (Bool-cases (is_index_key token)) [
    | inl index ↦
        descend_index items keys token w (is_index_key-IsNumeral token index) (rw index at h)
    | inr apart ↦ cc (rw apart at h)
  ]
  descend-IsChild (object plain symbols ms) token w h =
      let (found, is_defined) = defined-IsDefined _ w h in
      entry (member_at-IsMember token ms w found) is_defined
  descend-IsChild null token w h = cc h
  descend-IsChild (bool b) token w h = cc h
  descend-IsChild (number n) token w h = cc h
  descend-IsChild (string s) token w h = cc h
  descend-IsChild (not_json kind) token w h = cc h
  descend-IsChild circular token w h = cc h

  pub IsChild-descend :
      {v w : Value N} {token : Text} → IsChild v token w → descend v token ≡ some w
  unfolding descend
  IsChild-descend (item {token} {w} index e d) =
      rw (IsNumeral-is_index_key index, decimal-value_of token, IsElement-element_at e)
        (IsDefined-defined w d)
  IsChild-descend (entry {w} m d) = rw (IsMember-member_at m) (IsDefined-defined w d)
