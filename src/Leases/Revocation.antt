-- ===== src/Leases/Revocation.antt =====
-- What the leases of apps/control-plane/src/leases/lease-service.ts promise: when one is verified, and
-- that a revoked one stays so.
use sih26_proto.Common.{
  leb, ◌==◌, ◌+◌, Option, beq_refl, refl, ℕ, nat_eq, option_eq, ◌≡◌, inl, inr, ap, sym, ◌∙◌, subst,
  String, string_eq, Bool, true, ◌&&◌, some, List, [], ◌∷◌, if◌then◌else◌, is_some, find,
  Bool-cases,
}
use sih26_proto.Leases.Rows.{
  is_release, with_expiry, revoke_lease_row, is_renewable, is_revocable, revoke_leases_where,
  insert_lease, get_lease, is_of_run, update_where, renew_lease, consume_permit_row, revoke_permits,
  revoke_lease, revoke_run_leases, revoke_release_leases, mark_expired_leases,
}
use sih26_proto.Result.{err, require-eq-ok}
use sih26_proto.Leases.{LeaseClaims, duplicate, Store, LeaseRow, has_lease_id, revoked_lease}
use sih26_proto.Leases.Service.{
  verify_found_lease, heartbeat, verify_run_lease, run_lease, release_lease, new_permit,
  issue_permit, issue_release_lease, issue_run_lease, consume_permit,
}
use sih26_proto.Leases.Inversions.{
  consumed_or-keeps, consumed, renewed, inserted_permit, inserted_lease, store_or-keeps,
  find-update_where, find-append,
}
use sih26_proto.Leases.Operations.{
  issuing_run_lease, issuing_release_lease, issuing_permit, beating, revoking_lease, revoking_run,
  revoking_release, marking_expired, consuming, revoking_permits, Operation, operate, operate_all,
}

-- The lease with this key is revoked.
abbrev pub IsRevoked : String → Store → Type 0
IsRevoked id store =
    (lease : LeaseRow) × (find (has_lease_id id) store.leases ≡ some lease)
    × (is_some lease.revoked_at ≡ true)

revoked_after :
    (p : LeaseRow → Bool) (f : LeaseRow → LeaseRow) (id : String) (leases : List LeaseRow)
    → ((x : LeaseRow) → has_lease_id id (f x) ≡ has_lease_id id x)
    → ((x : LeaseRow) → is_some x.revoked_at ≡ true → is_some (f x).revoked_at ≡ true)
    → (lease : LeaseRow) → find (has_lease_id id) leases ≡ some lease
    → is_some lease.revoked_at ≡ true
    → (after : LeaseRow) × (find (has_lease_id id) (update_where p f leases) ≡ some after)
      × (is_some after.revoked_at ≡ true)
revoked_after p f id leases same keeps lease found revoked = (
  if p lease then f lease else lease,
  find-update_where (has_lease_id id) p f same leases found,
  elim (Bool-cases (p lease)) [ inl t ↦ rw t (keeps lease revoked) | inr t ↦ rw t revoked ],
)

pushed_lease :
    (id : String) (store : Store) (lease : LeaseRow) {changed : Store}
    → IsRevoked id store
    → insert_lease store lease ≡ some changed
    → IsRevoked id changed
pushed_lease id store lease (held, found, revoked) e = (
  held,
  ap (λ x. find (has_lease_id id) x.leases) (inserted_lease store lease e)
      ∙ find-append (has_lease_id id) store.leases (lease ∷ []) found,
  revoked,
)

revoke_leases_where-IsRevoked :
    (p : LeaseRow → Bool) (at_ : ℕ) (id : String) (store : Store)
    → IsRevoked id store
    → IsRevoked id (revoke_leases_where store p at_)
revoke_leases_where-IsRevoked p at_ id store (lease, found, revoked) =
    revoked_after (is_revocable p) (revoke_lease_row at_) id store.leases (λ x. refl) (λ x r. refl)
      lease found revoked

chosen-IsRevoked :
    (p : LeaseRow → Bool) (at_ : ℕ) (id : String) (store : Store) (lease : LeaseRow)
    → find (has_lease_id id) store.leases ≡ some lease
    → p lease ≡ true
    → IsRevoked id (revoke_leases_where store p at_)
chosen-IsRevoked p at_ id store lease found chosen = (
  if is_revocable p lease then revoke_lease_row at_ lease else lease,
  find-update_where (has_lease_id id) (is_revocable p) (revoke_lease_row at_) (λ x. refl)
      store.leases found,
  elim (Bool-cases (is_some lease.revoked_at)) [
    | inl t ↦ rw (chosen, t) t
    | inr t ↦ rw (chosen, t) refl
  ],
)

of_run :
    (incident_id run_id : String) (lease : LeaseRow)
    → lease.incident_id ≡ incident_id
    → lease.run_id ≡ some run_id
    → is_of_run incident_id run_id lease ≡ true
of_run incident_id run_id lease a b = rw (a, b, beq_refl incident_id, beq_refl run_id) refl

module _ (token_hash : String → String) (lease_ttl permit_ttl : ℕ) where
  operate-IsRevoked :
      (id : String) (store : Store) (o : Operation)
      → IsRevoked id store
      → IsRevoked id (operate token_hash lease_ttl permit_ttl store o)
  unfolding revoke_lease revoke_run_leases revoke_release_leases mark_expired_leases revoke_permits
      issue_run_lease issue_release_lease issue_permit consume_permit_row renew_lease
  operate-IsRevoked id store (issuing_run_lease input lease_id token now) h =
      store_or-keeps (IsRevoked id) store
        (issue_run_lease token_hash lease_ttl permit_ttl store input lease_id token now) h
        (λ changed e.
          pushed_lease id store (run_lease token_hash lease_ttl permit_ttl input lease_id token now)
            h (require-eq-ok duplicate _ e))
  operate-IsRevoked id store (issuing_release_lease incident_id lease_id token now) h =
      store_or-keeps (IsRevoked id) store
        (issue_release_lease token_hash lease_ttl permit_ttl store incident_id lease_id token now) h
        (λ changed e.
          pushed_lease id store
            (release_lease token_hash lease_ttl permit_ttl incident_id lease_id token now) h
            (require-eq-ok duplicate _ e))
  operate-IsRevoked id store (issuing_permit input permit_id token now) h =
      store_or-keeps (IsRevoked id) store
        (issue_permit token_hash lease_ttl permit_ttl store input permit_id token now) h
        (λ changed e.
          subst (IsRevoked id)
            (sym (
              inserted_permit store
                (new_permit token_hash lease_ttl permit_ttl input permit_id token now)
                (require-eq-ok duplicate _ e)))
            h)
  operate-IsRevoked id store (beating lease_id token now db_now) h =
      store_or-keeps (IsRevoked id) store
        (heartbeat token_hash lease_ttl permit_ttl store lease_id token now db_now) h
        (λ changed e.
          let (lease, found, revoked) = h in
          let (other, at_id, a, b, c, here) =
            renewed token_hash lease_ttl permit_ttl store lease_id token now db_now e in
          subst (IsRevoked id) (sym here) (
            revoked_after (is_renewable lease_id db_now) (with_expiry (now + lease_ttl)) id
              store.leases (λ x. refl) (λ x r. r) lease found revoked))
  operate-IsRevoked id store (revoking_lease lease_id db_now) h =
      revoke_leases_where-IsRevoked (has_lease_id lease_id) db_now id store h
  operate-IsRevoked id store (revoking_run incident_id run_id db_now) h =
      revoke_leases_where-IsRevoked (is_of_run incident_id run_id) db_now id store h
  operate-IsRevoked id store (revoking_release incident_id db_now) h =
      revoke_leases_where-IsRevoked
        (λ lease. lease.incident_id == incident_id && is_release lease.kind) db_now id store h
  operate-IsRevoked id store (marking_expired now) h =
      revoke_leases_where-IsRevoked (λ lease. leb lease.expires_at now) now id store h
  operate-IsRevoked id store (consuming permit_id token expected now) h =
      consumed_or-keeps (IsRevoked id) store
        (consume_permit token_hash lease_ttl permit_ttl store permit_id token expected now) h
        (λ row changed e.
          let (taken, t, a, b, c, d, here) =
            consumed token_hash lease_ttl permit_ttl store permit_id token expected now e in
          subst (IsRevoked id) (sym here) h)
  operate-IsRevoked id store (revoking_permits incident_id run_id db_now) h = h

  operate_all-IsRevoked :
      (id : String) (os : List Operation) (store : Store)
      → IsRevoked id store
      → IsRevoked id (operate_all token_hash lease_ttl permit_ttl store os)
  operate_all-IsRevoked id [] store h = h
  operate_all-IsRevoked id (o ∷ os) store h =
      operate_all-IsRevoked id os (operate token_hash lease_ttl permit_ttl store o)
        (operate-IsRevoked id store o h)

  revoked_refused :
      (id : String) (store : Store) (now : ℕ) (token : String) (claims : LeaseClaims)
      (run_state : Option String)
      → claims.lease_id ≡ id
      → IsRevoked id store
      → verify_run_lease token_hash lease_ttl permit_ttl store now token claims run_state
        ≡ err revoked_lease
  unfolding verify_run_lease verify_found_lease get_lease
  revoked_refused id store now token claims run_state e (lease, found, revoked) =
      rw (e, found, revoked) refl

  -- Once the leases of a Run are revoked, each lease that it had is refused as revoked, for whatever
  -- token, claims and clock, after any operations on leases and permits, heartbeats included.
  pub revoke_run_leases_for_good :
      (store : Store) (incident_id run_id : String) (db_now : ℕ) (lease : LeaseRow) (id : String)
      (os : List Operation) (now : ℕ) (token : String) (claims : LeaseClaims)
      (run_state : Option String)
      → get_lease store id ≡ some lease
      → lease.incident_id ≡ incident_id
      → lease.run_id ≡ some run_id
      → claims.lease_id ≡ id
      → verify_run_lease token_hash lease_ttl permit_ttl
          (operate_all token_hash lease_ttl permit_ttl
            (revoke_run_leases store incident_id run_id db_now)
            os)
          now
          token
          claims
          run_state
        ≡ err revoked_lease
  unfolding get_lease revoke_run_leases
  revoke_run_leases_for_good store incident_id run_id db_now lease id os now token claims run_state
        found at_incident at_run named =
      revoked_refused id
        (operate_all token_hash lease_ttl permit_ttl
          (revoke_run_leases store incident_id run_id db_now) os)
        now token claims run_state named
        (operate_all-IsRevoked id os (revoke_run_leases store incident_id run_id db_now) (
          chosen-IsRevoked (is_of_run incident_id run_id) db_now id store lease found
            (of_run incident_id run_id lease at_incident at_run)))
