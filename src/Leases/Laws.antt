-- ===== src/Leases/Laws.antt =====
-- What the permits and leases of apps/control-plane/src/leases/lease-service.ts promise.
use sih26_proto.Leases.Inversions.{
  consumed_or-keeps, consumed, renewed, consumed_or-keeps, renewed, inserted_permit, inserted_lease,
  store_or-keeps, find-update_where, find-append,
}
use sih26_proto.Leases.Service.{
  run_lease, release_lease, new_permit, issue_permit, issue_release_lease, issue_run_lease,
  consume_permit,
}
use sih26_proto.Journal.RunList.{find_passes}
use sih26_proto.Leases.Operations.{
  issuing_run_lease, issuing_release_lease, issuing_permit, beating, revoking_lease, revoking_run,
  revoking_release, marking_expired, consuming, revoking_permits, Operation, operate, operate_all,
}
use sih26_proto.Leases.{duplicate, Store, PermitRow, PermitExpectation, has_permit_id}
use sih26_proto.Common.{
  refl, ℕ, nat_eq, option_eq, ◌≡◌, ◌≢◌, inl, inr, ap, sym, ◌∙◌, subst, String, string_eq, Bool,
  true, ◌&&◌, ◌||◌, some, List, [], ◌∷◌, if◌then◌else◌, is_some, find, arith, Bool-cases,
}
use sih26_proto.Result.{ok, require-eq-ok}
use sih26_proto.Leases.Rows.{
  update_where, renew_lease, consume_row, is_consumable, consume_permit_row, revoke_permits,
  is_revocable_permit, revoke_lease, revoke_run_leases, revoke_release_leases, mark_expired_leases,
}

-- A permit that was consumed or revoked.
abbrev pub is_spent : PermitRow → Bool
is_spent permit = is_some permit.consumed_at || is_some permit.revoked_at

abbrev pub IsSpent : String → Store → Type 0
IsSpent id store =
    (permit : PermitRow) × (find (has_permit_id id) store.permits ≡ some permit)
    × (is_spent permit ≡ true)

or_true : (b : Bool) → (b || true) ≡ true
or_true b = ground arith

-- Marking a permit or revoking it leaves its key, and a spent one spent.
spent_after :
    (p : PermitRow → Bool) (f : PermitRow → PermitRow) (id : String) (permits : List PermitRow)
    → ((x : PermitRow) → has_permit_id id (f x) ≡ has_permit_id id x)
    → ((x : PermitRow) → is_spent x ≡ true → is_spent (f x) ≡ true)
    → (permit : PermitRow) → find (has_permit_id id) permits ≡ some permit
    → is_spent permit ≡ true
    → (after : PermitRow) × (find (has_permit_id id) (update_where p f permits) ≡ some after)
      × (is_spent after ≡ true)
spent_after p f id permits same keeps permit found spent = (
  if p permit then f permit else permit,
  find-update_where (has_permit_id id) p f same permits found,
  elim (Bool-cases (p permit)) [ inl t ↦ rw t (keeps permit spent) | inr t ↦ rw t spent ],
)

spent_not_consumable :
    (now : ℕ) (permit other : PermitRow)
    → some permit ≡ some other
    → is_spent permit ≡ true
    → is_consumable now other ≢ true
spent_not_consumable now permit other same spent live = ground arith

module _ (token_hash : String → String) (lease_ttl permit_ttl : ℕ) where
  operate-IsSpent :
      (id : String) (store : Store) (o : Operation)
      → IsSpent id store
      → IsSpent id (operate token_hash lease_ttl permit_ttl store o)
  unfolding revoke_lease revoke_run_leases revoke_release_leases mark_expired_leases revoke_permits
      issue_run_lease issue_release_lease issue_permit consume_permit_row renew_lease
  operate-IsSpent id store (issuing_run_lease input lease_id token now) h =
      store_or-keeps (IsSpent id) store
        (issue_run_lease token_hash lease_ttl permit_ttl store input lease_id token now) h
        (λ changed e.
          subst (IsSpent id)
            (sym (
              inserted_lease store
                (run_lease token_hash lease_ttl permit_ttl input lease_id token now)
                (require-eq-ok duplicate _ e)))
            h)
  operate-IsSpent id store (issuing_release_lease incident_id lease_id token now) h =
      store_or-keeps (IsSpent id) store
        (issue_release_lease token_hash lease_ttl permit_ttl store incident_id lease_id token now) h
        (λ changed e.
          subst (IsSpent id)
            (sym (
              inserted_lease store
                (release_lease token_hash lease_ttl permit_ttl incident_id lease_id token now)
                (require-eq-ok duplicate _ e)))
            h)
  operate-IsSpent id store (issuing_permit input permit_id token now) h =
      store_or-keeps (IsSpent id) store
        (issue_permit token_hash lease_ttl permit_ttl store input permit_id token now) h
        (λ changed e.
          let (permit, found, spent) = h in
          let here =
            inserted_permit store
              (new_permit token_hash lease_ttl permit_ttl input permit_id token now)
              (require-eq-ok duplicate _ e) in
          (
            permit,
            ap (λ x. find (has_permit_id id) x.permits) here
                ∙ find-append (has_permit_id id) store.permits _ found,
            spent,
          ))
  operate-IsSpent id store (beating lease_id token now db_now) h =
      store_or-keeps (IsSpent id) store _ h (λ changed e.
        let (lease, found, a, b, c, here) =
          renewed token_hash lease_ttl permit_ttl store lease_id token now db_now e in
        subst (IsSpent id) (sym here) h)
  operate-IsSpent id store (revoking_lease lease_id db_now) h = h
  operate-IsSpent id store (revoking_run incident_id run_id db_now) h = h
  operate-IsSpent id store (revoking_release incident_id db_now) h = h
  operate-IsSpent id store (marking_expired now) h = h
  operate-IsSpent id store (consuming permit_id token expected now) h =
      consumed_or-keeps (IsSpent id) store _ h (λ row changed e.
        let (permit, found, spent) = h in
        let (taken, t, a, b, c, d, here) =
          consumed token_hash lease_ttl permit_ttl store permit_id token expected now e in
        subst (IsSpent id) (sym here) (
          spent_after (λ x. has_permit_id permit_id x && is_consumable now x) (consume_row now) id
            store.permits (λ x. refl) (λ x s. refl) permit found spent))
  operate-IsSpent id store (revoking_permits incident_id run_id db_now) h =
      let (permit, found, spent) = h in
      spent_after (is_revocable_permit incident_id run_id)
        (λ permit. record permit { revoked_at = some db_now }) id store.permits (λ x. refl)
        (λ x s. or_true (is_some x.consumed_at)) permit found spent

  operate_all-IsSpent :
      (id : String) (os : List Operation) (store : Store)
      → IsSpent id store
      → IsSpent id (operate_all token_hash lease_ttl permit_ttl store os)
  operate_all-IsSpent id [] store h = h
  operate_all-IsSpent id (o ∷ os) store h =
      operate_all-IsSpent id os (operate token_hash lease_ttl permit_ttl store o)
        (operate-IsSpent id store o h)

  consumed-IsSpent :
      (id : String) (store : Store) (token : String) (expected : PermitExpectation) (now : ℕ)
      (row : PermitRow) (changed : Store)
      → consume_permit token_hash lease_ttl permit_ttl store id token expected now
        ≡ ok (row, changed)
      → IsSpent id changed
  unfolding consume_permit_row
  consumed-IsSpent id store token expected now row changed e =
      let (permit, found, a, b, live, d, here) =
        consumed token_hash lease_ttl permit_ttl store id token expected now e in
      let p = λ (x : PermitRow). has_permit_id id x && is_consumable now x in
      let mine = find_passes (has_permit_id id) store.permits found in
      subst (IsSpent id) (sym here) (
        consume_row now permit,
        find-update_where (has_permit_id id) p (consume_row now) (λ x. refl) store.permits found
            ∙ rw (mine, live) refl,
        refl,
      )

  spent_refused :
      (id : String) (store : Store) (token : String) (expected : PermitExpectation) (now : ℕ)
      (result : PermitRow × Store)
      → IsSpent id store
      → consume_permit token_hash lease_ttl permit_ttl store id token expected now ≢ ok result
  spent_refused id store token expected now (row, changed) (permit, found, spent) e =
      let (other, at_id, a, b, live, d, here) =
        consumed token_hash lease_ttl permit_ttl store id token expected now e in
      spent_not_consumable now permit other (sym found ∙ at_id) spent live

  -- A permit that was consumed is never consumed again, with whatever token, expectation and clock,
  -- after any operations on leases and permits.
  pub consume_permit_once :
      (store : Store) (id token : String) (expected : PermitExpectation) (now : ℕ) (row : PermitRow)
      (changed : Store) (os : List Operation) (token' : String) (expected' : PermitExpectation)
      (now' : ℕ) (result : PermitRow × Store)
      → consume_permit token_hash lease_ttl permit_ttl store id token expected now
        ≡ ok (row, changed)
      → consume_permit token_hash lease_ttl permit_ttl
          (operate_all token_hash lease_ttl permit_ttl changed os)
          id
          token'
          expected'
          now'
        ≢ ok result
  consume_permit_once store id token expected now row changed os token' expected' now' result e =
      spent_refused id (operate_all token_hash lease_ttl permit_ttl changed os) token' expected'
        now' result
        (operate_all-IsSpent id os changed
          (consumed-IsSpent id store token expected now row changed e))
