-- ===== src/Leases.antt =====
-- apps/control-plane/src/store/store.ts: the leases and the one-use permits of the store, as the
-- tables of db/init.sql hold them, keyed by `lease_id` and `permit_id`; and the types of
-- apps/control-plane/src/leases/lease-service.ts. An instant is in milliseconds. `db_now` is `now()`
-- of the database, which need not be the clock of the service.
pub mod Rows
pub mod Service
pub mod Operations
pub mod Inversions
pub mod Laws
pub mod Revocation
pub mod Verification
use sih26_proto.Common.{
  ℕ, String, string_eq, Bool, true, false, Option, none, some, List, [], ◌∷◌, ◌++◌, if◌then◌else◌,
  ◌==◌, any, find,
}

pub data LeaseKind : Type 0 where
  run release : LeaseKind

pub record LeaseRow : Type 0 where
  pub lease_id : String
  pub kind : LeaseKind
  pub incident_id : String
  pub run_id : Option String
  pub attempt : Option ℕ
  pub stage : Option String
  pub actor_id : String
  pub actor_kind : String
  pub authority_mode : String
  pub policy_version : String
  pub tool_class : String
  pub issued_at : ℕ
  pub expires_at : ℕ
  pub revoked_at : Option ℕ
  pub token_hash : String

pub data PermitKind : Type 0 where
  release_permit approval_permit : PermitKind

pub record PermitRow : Type 0 where
  pub permit_id : String
  pub kind : PermitKind
  pub incident_id : String
  pub run_id : String
  pub attempt : ℕ
  pub candidate_hash : String
  pub target : String
  pub action_digest : String
  pub issued_at : ℕ
  pub expires_at : ℕ
  pub consumed_at : Option ℕ
  pub revoked_at : Option ℕ
  pub token_hash : String

pub record Store : Type 0 where
  pub leases : List LeaseRow
  pub permits : List PermitRow

pub record RunLeaseIssue : Type 0 where
  pub incident_id : String
  pub run_id : String
  pub attempt : ℕ
  pub stage : String
  pub actor_id : String
  pub actor_kind : String
  pub authority_mode : String
  pub policy_version : String
  pub tool_class : String

pub record LeaseClaims : Type 0 where
  pub lease_id : String
  pub incident_id : String
  pub run_id : String
  pub attempt : ℕ
  pub stage : String
  pub actor_id : String
  pub actor_kind : String
  pub tool_class : String

pub record PermitIssue : Type 0 where
  pub kind : PermitKind
  pub incident_id : String
  pub run_id : String
  pub attempt : ℕ
  pub candidate_hash : String
  pub target : String
  pub action_digest : String

pub record PermitExpectation : Type 0 where
  pub candidate_hash : String
  pub target : String
  pub incident_id : String

-- The codes that the modelled operations answer with. Those of a lease's insert end in `duplicate`,
-- where the database refuses it.
pub data DomainError : Type 0 where
  not_found revoked_lease expired_lease unauthorized forged_stage stale_lease permit_mismatch
        candidate_mismatch permit_used duplicate duplicate_work stale_attempt wrong_stage
        prerequisite_missing budget_exceeded conflict illegal_transition malformed_contract :
      DomainError

abbrev pub has_lease_id : String → LeaseRow → Bool
has_lease_id id lease = lease.lease_id == id

abbrev pub has_permit_id : String → PermitRow → Bool
has_permit_id id permit = permit.permit_id == id
