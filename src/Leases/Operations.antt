-- ===== src/Leases/Operations.antt =====
-- The operations of apps/control-plane/src/leases/lease-service.ts and
-- apps/control-plane/src/store/store.ts that change leases and permits, in any order. One that
-- answers with an error leaves the store as it was.
use sih26_proto.Common.{ℕ, String, List, [], ◌∷◌}
use sih26_proto.Result.{Result, ok, err}
use sih26_proto.Leases.{
  Store, PermitRow, RunLeaseIssue, PermitIssue, PermitExpectation, DomainError,
}
use sih26_proto.Leases.Rows.{
  revoke_lease, revoke_run_leases, revoke_release_leases, mark_expired_leases, revoke_permits,
}
use sih26_proto.Leases.Service.{
  issue_run_lease, issue_release_lease, issue_permit, heartbeat, consume_permit,
}

pub data Operation : Type 0 where
  issuing_run_lease : RunLeaseIssue → (lease_id token : String) → (now : ℕ) → Operation
  issuing_release_lease : (incident_id lease_id token : String) → (now : ℕ) → Operation
  issuing_permit : PermitIssue → (permit_id token : String) → (now : ℕ) → Operation
  beating : (lease_id token : String) → (now db_now : ℕ) → Operation
  revoking_lease : (lease_id : String) → (db_now : ℕ) → Operation
  revoking_run : (incident_id run_id : String) → (db_now : ℕ) → Operation
  revoking_release : (incident_id : String) → (db_now : ℕ) → Operation
  marking_expired : (now : ℕ) → Operation
  consuming : (permit_id token : String) → PermitExpectation → (now : ℕ) → Operation
  revoking_permits : (incident_id run_id : String) → (db_now : ℕ) → Operation

abbrev pub store_or : Store → Result Store DomainError → Store
store_or store (ok changed) = changed
store_or store (err e) = store

abbrev pub consumed_or : Store → Result (PermitRow × Store) DomainError → Store
consumed_or store (ok (permit, changed)) = changed
consumed_or store (err e) = store

module _ (token_hash : String → String) (lease_ttl permit_ttl : ℕ) where
  abbrev pub operate : Store → Operation → Store
  operate store (issuing_run_lease input lease_id token now) =
      store_or store
        (issue_run_lease token_hash lease_ttl permit_ttl store input lease_id token now)
  operate store (issuing_release_lease incident_id lease_id token now) =
      store_or store
        (issue_release_lease token_hash lease_ttl permit_ttl store incident_id lease_id token now)
  operate store (issuing_permit input permit_id token now) =
      store_or store (issue_permit token_hash lease_ttl permit_ttl store input permit_id token now)
  operate store (beating lease_id token now db_now) =
      store_or store (heartbeat token_hash lease_ttl permit_ttl store lease_id token now db_now)
  operate store (revoking_lease lease_id db_now) = revoke_lease store lease_id db_now
  operate store (revoking_run incident_id run_id db_now) =
      revoke_run_leases store incident_id run_id db_now
  operate store (revoking_release incident_id db_now) =
      revoke_release_leases store incident_id db_now
  operate store (marking_expired now) = mark_expired_leases store now
  operate store (consuming permit_id token expected now) =
      consumed_or store
        (consume_permit token_hash lease_ttl permit_ttl store permit_id token expected now)
  operate store (revoking_permits incident_id run_id db_now) =
      revoke_permits store incident_id run_id db_now

  abbrev pub operate_all : Store → List Operation → Store
  operate_all store [] = store
  operate_all store (o ∷ os) = operate_all (operate store o) os
