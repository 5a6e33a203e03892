-- ===== src/Leases/Inversions.antt =====
-- What an operation of apps/control-plane/src/leases/lease-service.ts that succeeds has found.
use sih26_proto.Common.{
  not-eq-false, eq_of_bne, refl, ℕ, nat_eq, option_eq, ◌≡◌, inl, inr, ap, sym, ◌∙◌, ◌+◌, String,
  string_eq, Bool, true, false, some, List, [], ◌∷◌, ◌++◌, if◌then◌else◌, is_some, ◌!=◌, any, find,
  arith, Bool-cases,
}
use sih26_proto.Result.{
  ◌>>=◌, Result, ok, err, >>=-eq-ok, guard-eq-ok, require, require-eq-ok, ok_injective,
}
use sih26_proto.Leases.{
  expired_lease, not_found, Store, LeaseRow, PermitRow, PermitExpectation, DomainError,
  has_lease_id, has_permit_id, revoked_lease, unauthorized, permit_used, permit_mismatch,
  candidate_mismatch,
}
use sih26_proto.Leases.Operations.{store_or, consumed_or}
use sih26_proto.Leases.Rows.{
  update_where, insert_lease, insert_permit, get_lease, get_permit, renew_lease, consume_row,
  is_consumable, consumed_row, consume_permit_row,
}
use sih26_proto.Leases.Service.{consume_permit, consume_found, heartbeat, heartbeat_found}

pub find-append {ℓ} :
    {A : Type ℓ} (q : A → Bool) (xs ys : List A) {a : A}
    → find q xs ≡ some a
    → find q (xs ++ ys) ≡ some a
find-append q [] ys h = cc h
find-append q (x ∷ xs) ys {a} h = ground (arith, find-append q xs ys {a = a})

pub find-update_where {ℓ} :
    {A : Type ℓ} (q p : A → Bool) (f : A → A)
    → ((x : A) → q (f x) ≡ q x)
    → (xs : List A) {a : A} → find q xs ≡ some a
    → find q (update_where p f xs) ≡ some (if p a then f a else a)
find-update_where q p f same [] h = cc h
find-update_where q p f same (x ∷ xs) {a} h =
    ground (arith, same x, find-update_where q p f same xs {a = a})

pub store_or-keeps {ℓ} :
    (P : Store → Type ℓ) (store : Store) (r : Result Store DomainError)
    → P store
    → ((changed : Store) → r ≡ ok changed → P changed)
    → P (store_or store r)
store_or-keeps P store (ok changed) h k = k changed refl
store_or-keeps P store (err e) h k = h

pub consumed_or-keeps {ℓ} :
    (P : Store → Type ℓ) (store : Store) (r : Result (PermitRow × Store) DomainError)
    → P store
    → ((permit : PermitRow) (changed : Store) → r ≡ ok (permit, changed) → P changed)
    → P (consumed_or store r)
consumed_or-keeps P store (ok (permit, changed)) h k = k permit changed refl
consumed_or-keeps P store (err e) h k = h

some_injective {ℓ} : {A : Type ℓ} (a b : A) → some a ≡ some b → b ≡ a
some_injective a b h = cc h

taken_row :
    (now : ℕ) (permit taken : PermitRow)
    → consumed_row now (some permit) ≡ some taken
    → (is_consumable now permit ≡ true) × (taken ≡ consume_row now permit)
taken_row now permit taken h = elim (Bool-cases (is_consumable now permit)) [
  | inl t ↦ (t, some_injective _ _ (rw t at h))
  | inr t ↦ cc (rw t at h)
]

pub inserted_lease :
    (store : Store) (lease : LeaseRow) {changed : Store}
    → insert_lease store lease ≡ some changed
    → changed ≡ record store { leases = store.leases ++ lease ∷ [] }
unfolding insert_lease
inserted_lease store lease h = elim (Bool-cases (any (has_lease_id lease.lease_id) store.leases)) [
  | inl t ↦ cc (rw t at h)
  | inr t ↦ some_injective _ _ (rw t at h)
]

pub inserted_permit :
    (store : Store) (permit : PermitRow) {changed : Store}
    → insert_permit store permit ≡ some changed
    → changed ≡ record store { permits = store.permits ++ permit ∷ [] }
unfolding insert_permit
inserted_permit store permit h =
    elim (Bool-cases (any (has_permit_id permit.permit_id) store.permits)) [
      | inl t ↦ cc (rw t at h)
      | inr t ↦ some_injective _ _ (rw t at h)
    ]

module _ (token_hash : String → String) (lease_ttl permit_ttl : ℕ) where
  pub renewed :
      (store : Store) (id token : String) (now db_now : ℕ) {changed : Store}
      → heartbeat token_hash lease_ttl permit_ttl store id token now db_now ≡ ok changed
      → (lease : LeaseRow) × (find (has_lease_id id) store.leases ≡ some lease)
        × (is_some lease.revoked_at ≡ false)
        × (token_hash token ≡ lease.token_hash)
        × ((renew_lease store id (now + lease_ttl) db_now).1 ≡ true)
        × (changed ≡ (renew_lease store id (now + lease_ttl) db_now).0)
  unfolding heartbeat get_lease
  renewed store id token now db_now h =
      let (lease, found, h) =
        >>=-eq-ok (require not_found (get_lease store id))
          (heartbeat_found token_hash lease_ttl permit_ttl store id token now db_now) h in
      let (a, h) = guard-eq-ok _ revoked_lease _ h in
      let (b, h) = guard-eq-ok _ unauthorized _ h in
      let (c, h) = guard-eq-ok _ expired_lease _ h in
      (
        lease,
        require-eq-ok not_found _ found,
        a,
        eq_of_bne (token_hash token) lease.token_hash b,
        not-eq-false _ c,
        ok_injective _ _ h,
      )

  pub consumed :
      (store : Store) (id token : String) (expected : PermitExpectation) (now : ℕ) {row : PermitRow}
      {changed : Store}
      → consume_permit token_hash lease_ttl permit_ttl store id token expected now
        ≡ ok (row, changed)
      → (permit : PermitRow) × (find (has_permit_id id) store.permits ≡ some permit)
        × (token_hash token ≡ permit.token_hash)
        × ((permit.incident_id ≡ expected.incident_id)
            × (permit.candidate_hash ≡ expected.candidate_hash)
            × (permit.target ≡ expected.target))
        × (is_consumable now permit ≡ true)
        × (row ≡ consume_row now permit)
        × (changed ≡ (consume_permit_row store id now).0)
  unfolding consume_permit get_permit consume_found consume_permit_row
  consumed store id token expected now {row} {changed} h =
      let (permit, found, h) =
        >>=-eq-ok (require not_found (get_permit store id))
          (consume_found token_hash lease_ttl permit_ttl store id token expected now) h in
      let (a, h) = guard-eq-ok _ unauthorized _ h in
      let (b, h) = guard-eq-ok _ permit_mismatch _ h in
      let (c, h) = guard-eq-ok _ candidate_mismatch _ h in
      let (d, h) =
        guard-eq-ok (permit.target != expected.target) permit_mismatch
          (require permit_used (consume_permit_row store id now).1 >>= λ consumed.
            ok (consumed, (consume_permit_row store id now).0))
          h in
      let (taken, used, h) =
        >>=-eq-ok (require permit_used (consume_permit_row store id now).1)
          (λ consumed. ok (consumed, (consume_permit_row store id now).0)) h in
      let held = require-eq-ok not_found _ found in
      let (live, row_is) = taken_row now permit taken (
        ap (consumed_row now) (sym held)
        ∙ require-eq-ok permit_used (consume_permit_row store id now).1 used) in
      let both = ok_injective (taken, (consume_permit_row store id now).0) (row, changed) h in
      (
        permit,
        held,
        eq_of_bne (token_hash token) permit.token_hash a,
        (
          eq_of_bne permit.incident_id expected.incident_id b,
          eq_of_bne permit.candidate_hash expected.candidate_hash c,
          eq_of_bne permit.target expected.target d,
        ),
        live,
        ap (λ p. p.0) both ∙ row_is,
        ap (λ p. p.1) both,
      )
