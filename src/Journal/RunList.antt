-- ===== src/Journal/RunList.antt =====
-- Lists of Runs under `find`, `push` and the change of one Run, as packages/contracts/src/journal.ts
-- uses them.
use sih26_proto.Common.{
  subst, sym, ◌∙◌, ne_of_beq, ℕ, suc, nat_eq, string_eq, String, Bool, true, false, ◌+◌, ◌≡◌, ◌≢◌,
  refl, none, some, List, [], ◌∷◌, ◌++◌, if◌then◌else◌, length, any, find, update_first, arith, All,
  eq_of_beq, Bool-cases, inl, inr,
}
use sih26_proto.Journal.{RunRecord, has_run_id, find_run}

abbrev pub bit : Bool → ℕ
bit true = 1
bit false = 0

module _ {ℓ} {A : Type ℓ} where
  abbrev pub count_if : (A → Bool) → List A → ℕ
  count_if q [] = 0
  count_if q (x ∷ xs) = let rest = count_if q xs in if q x then suc rest else rest

module _ {ℓ} {A : Type ℓ} (p : A → Bool) where
  pub find_passes : (xs : List A) {a : A} → find p xs ≡ some a → p a ≡ true
  find_passes [] h = cc
  find_passes (x ∷ xs) h = elim (Bool-cases (p x)) [
    | inl t ↦ ground arith
    | inr t ↦ find_passes xs (rw t at h)
  ]

  pub head_found : (x : A) (xs : List A) {a : A} → p x ≡ true → find p (x ∷ xs) ≡ some a → x ≡ a
  head_found x xs t e = ground arith

  pub find_cons_none :
      (x : A) (xs : List A) → find p (x ∷ xs) ≡ none → (p x ≡ false) × (find p xs ≡ none)
  find_cons_none x xs e = ground arith

  pub none_found : (x : A) (xs : List A) → p x ≡ false → find p xs ≡ none → find p (x ∷ xs) ≡ none
  none_found x xs t e = rw (t, find) e

  module _ (f : A → A) where
    pub count-update_first :
        (q : A → Bool) (xs : List A) (a : A)
        → find p xs ≡ some a
        → count_if q (update_first p f xs) + bit (q a) ≡ count_if q xs + bit (q (f a))
    count-update_first q [] a h = cc
    count-update_first q (x ∷ xs) a h = elim (Bool-cases (p x)) [
      | inl t ↦ ground arith
      | inr t ↦ ground (arith, count-update_first q xs a)
    ]

    pub length-update_first : (xs : List A) → length (update_first p f xs) ≡ length xs
    length-update_first [] = refl
    length-update_first (x ∷ xs) = ground (arith, length-update_first xs)

    pub All-update_first {κ} :
        (P : A → Type κ) (xs : List A) {a : A}
        → All P xs
        → find p xs ≡ some a
        → P (f a)
        → All P (update_first p f xs)
    All-update_first P [] h e k = tt
    All-update_first P (x ∷ xs) {a} h e k = elim (Bool-cases (p x)) [
      | inl t ↦ rw t (subst (λ y. P (f y)) (sym (head_found x xs t e)) k, h.1)
      | inr t ↦ rw t (h.0, All-update_first P xs h.1 (rw t at e) k)
    ]

module _ {ℓ κ} {A : Type ℓ} (P : A → Type κ) where
  pub All-find : (p : A → Bool) (xs : List A) {a : A} → All P xs → find p xs ≡ some a → P a
  All-find p [] h e = cc
  All-find p (x ∷ xs) h e = elim (Bool-cases (p x)) [
    | inl t ↦ subst P (head_found p x xs t e) h.0
    | inr t ↦ All-find p xs h.1 (rw t at e)
  ]

  pub All-push : (xs : List A) (a : A) → All P xs → P a → All P (xs ++ a ∷ [])
  All-push [] a h k = (k, tt)
  All-push (x ∷ xs) a h k = (h.0, All-push xs a h.1 k)

module _ {ℓ} {A : Type ℓ} (q : A → Bool) where
  pub count-push : (xs : List A) (a : A) → count_if q (xs ++ a ∷ []) ≡ count_if q xs + bit (q a)
  count-push [] a = ground arith
  count-push (x ∷ xs) a = ground (arith, count-push xs a)

  pub count_none : (xs : List A) → any q xs ≡ false → count_if q xs ≡ 0
  count_none [] h = refl
  count_none (x ∷ xs) h = ground (arith, count_none xs)

-- Attempts are numbered in the order of the Runs.
abbrev pub IsSerial : ℕ → List RunRecord → Type 0
IsSerial n [] = Unit
IsSerial n (run ∷ runs) = (run.attempt ≡ n) × IsSerial (n + 1) runs

-- No two Runs have one id.
abbrev pub IsDistinct : List RunRecord → Type 0
IsDistinct [] = Unit
IsDistinct (run ∷ runs) = (find_run run.run_id runs ≡ none) × IsDistinct runs

pub IsSerial-push :
    (n : ℕ) (runs : List RunRecord) (run : RunRecord)
    → IsSerial n runs
    → run.attempt ≡ length runs + n
    → IsSerial n (runs ++ run ∷ [])
IsSerial-push n [] run h e = (omega arith, tt)
IsSerial-push n (x ∷ runs) run h e = (h.0, IsSerial-push (n + 1) runs run h.1 (omega arith))

find_run-push :
    (id : String) (runs : List RunRecord) (run : RunRecord)
    → find_run id runs ≡ none
    → run.run_id ≢ id
    → find_run id (runs ++ run ∷ []) ≡ none
find_run-push id [] run h n = ground (arith, eq_of_beq run.run_id id)
find_run-push id (x ∷ runs) run h n = ground (arith, find_run-push id runs run)

pub IsDistinct-push :
    (runs : List RunRecord) (run : RunRecord)
    → IsDistinct runs
    → find_run run.run_id runs ≡ none
    → IsDistinct (runs ++ run ∷ [])
IsDistinct-push [] run h e = (refl, tt)
IsDistinct-push (x ∷ runs) run h e =
    let (other, later) = find_cons_none (has_run_id run.run_id) x runs e in
    (
      find_run-push x.run_id runs run h.0 (λ k. ne_of_beq x.run_id run.run_id other (sym k)),
      IsDistinct-push runs run h.1 later,
    )

module _ (f : RunRecord → RunRecord) (id : String) where
  module _ (same_attempt : (run : RunRecord) → (f run).attempt ≡ run.attempt) where
    pub IsSerial-update_first :
        (n : ℕ) (runs : List RunRecord)
        → IsSerial n runs
        → IsSerial n (update_first (has_run_id id) f runs)
    IsSerial-update_first n [] h = tt
    IsSerial-update_first n (x ∷ runs) h = elim (Bool-cases (has_run_id id x)) [
      | inl t ↦ rw t (same_attempt x ∙ h.0, h.1)
      | inr t ↦ rw t (h.0, IsSerial-update_first (n + 1) runs h.1)
    ]

  module _ (same_id : (run : RunRecord) → (f run).run_id ≡ run.run_id) where
    find_run-update_none :
        (other : String) (runs : List RunRecord)
        → find_run other runs ≡ none
        → find_run other (update_first (has_run_id id) f runs) ≡ none
    find_run-update_none other [] h = refl
    find_run-update_none other (x ∷ runs) h =
        let (apart, later) = find_cons_none (has_run_id other) x runs h in
        elim (Bool-cases (has_run_id id x)) [
          | inl t ↦ rw t (none_found (has_run_id other) (f x) runs (rw (same_id x) apart) later)
          | inr t ↦ rw t (
              none_found (has_run_id other) x (update_first (has_run_id id) f runs) apart
                (find_run-update_none other runs later))
        ]

    pub IsDistinct-update_first :
        (runs : List RunRecord) → IsDistinct runs → IsDistinct (update_first (has_run_id id) f runs)
    IsDistinct-update_first [] h = tt
    IsDistinct-update_first (x ∷ runs) h = elim (Bool-cases (has_run_id id x)) [
      | inl t ↦ rw t (rw (same_id x) h.0, h.1)
      | inr t ↦ rw t (find_run-update_none x.run_id runs h.0, IsDistinct-update_first runs h.1)
    ]
