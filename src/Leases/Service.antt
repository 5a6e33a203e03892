-- ===== src/Leases/Service.antt =====
-- apps/control-plane/src/leases/lease-service.ts. `token_hash` is SHA-256 of a token in hexadecimal;
-- the random identifiers and tokens are arguments, and the life of a lease and of a permit are those
-- of the configuration, in milliseconds. A rejected `insert` is the error `duplicate`.
use sih26_proto.Common.{
  ℕ, ◌+◌, String, string_eq, nat_eq, option_eq, Bool, not, ◌&&◌, ◌||◌, Option, none, some,
  if◌then◌else◌, is_some, ◌!=◌, leb,
}
use sih26_proto.Result.{Result, ok, err, ◌>>=◌, require}
use sih26_proto.Leases.{
  LeaseKind, LeaseRow, PermitRow, Store, RunLeaseIssue, LeaseClaims, PermitIssue, PermitExpectation,
  DomainError, not_found, revoked_lease, expired_lease, unauthorized, forged_stage, stale_lease,
  permit_mismatch, candidate_mismatch, permit_used, duplicate,
}
use sih26_proto.Leases.Rows.{
  insert_lease, get_lease, renew_lease, insert_permit, get_permit, consume_permit_row,
}

abbrev pub claims_differ : LeaseRow → LeaseClaims → Bool
claims_differ lease claims =
    lease.incident_id != claims.incident_id
    || lease.run_id != some claims.run_id
    || lease.attempt != some claims.attempt
    || lease.stage != some claims.stage
    || lease.actor_id != claims.actor_id
    || lease.actor_kind != claims.actor_kind
    || lease.tool_class != claims.tool_class

module _ (token_hash : String → String) (lease_ttl permit_ttl : ℕ) where
  abbrev pub run_lease : RunLeaseIssue → (lease_id token : String) → (now : ℕ) → LeaseRow
  run_lease input lease_id token now = record {
    lease_id = lease_id;
    kind = LeaseKind.run;
    incident_id = input.incident_id;
    run_id = some input.run_id;
    attempt = some input.attempt;
    stage = some input.stage;
    actor_id = input.actor_id;
    actor_kind = input.actor_kind;
    authority_mode = input.authority_mode;
    policy_version = input.policy_version;
    tool_class = input.tool_class;
    issued_at = now;
    expires_at = now + lease_ttl;
    revoked_at = none;
    token_hash = token_hash token;
  }

  unfoldable pub issue_run_lease :
      Store → RunLeaseIssue → (lease_id token : String) → (now : ℕ) → Result Store DomainError
  issue_run_lease store input lease_id token now =
      require duplicate (insert_lease store (run_lease input lease_id token now))

  abbrev pub release_lease : (incident_id lease_id token : String) → (now : ℕ) → LeaseRow
  release_lease incident_id lease_id token now = record {
    lease_id = lease_id;
    kind = LeaseKind.release;
    incident_id = incident_id;
    run_id = none;
    attempt = none;
    stage = none;
    actor_id = "control-plane";
    actor_kind = "control-plane";
    authority_mode = "";
    policy_version = "";
    tool_class = "release";
    issued_at = now;
    expires_at = now + lease_ttl;
    revoked_at = none;
    token_hash = token_hash token;
  }

  unfoldable pub issue_release_lease :
      Store → (incident_id lease_id token : String) → (now : ℕ) → Result Store DomainError
  issue_release_lease store incident_id lease_id token now =
      require duplicate (insert_lease store (release_lease incident_id lease_id token now))

  abbrev pub new_permit : PermitIssue → (permit_id token : String) → (now : ℕ) → PermitRow
  new_permit input permit_id token now = record {
    permit_id = permit_id;
    kind = input.kind;
    incident_id = input.incident_id;
    run_id = input.run_id;
    attempt = input.attempt;
    candidate_hash = input.candidate_hash;
    target = input.target;
    action_digest = input.action_digest;
    issued_at = now;
    expires_at = now + permit_ttl;
    consumed_at = none;
    revoked_at = none;
    token_hash = token_hash token;
  }

  unfoldable pub issue_permit :
      Store → PermitIssue → (permit_id token : String) → (now : ℕ) → Result Store DomainError
  issue_permit store input permit_id token now =
      require duplicate (insert_permit store (new_permit input permit_id token now))

  unfoldable pub verify_found_lease :
      (now : ℕ) (token : String)
      → LeaseClaims
      → (run_state : Option String) → LeaseRow
      → Result LeaseRow DomainError
  verify_found_lease now token claims run_state lease =
      if is_some lease.revoked_at
      then err revoked_lease
      else if leb lease.expires_at now
      then err expired_lease
      else if token_hash token != lease.token_hash
      then err unauthorized
      else if claims_differ lease claims
      then err forged_stage
      else if run_state != none && run_state != some "running"
      then err stale_lease
      else ok lease

  unfoldable pub verify_run_lease :
      Store
      → (now : ℕ) (token : String) → LeaseClaims
      → (run_state : Option String) → Result LeaseRow DomainError
  unfolding get_lease verify_found_lease
  verify_run_lease store now token claims run_state =
      require not_found (get_lease store claims.lease_id)
      >>= verify_found_lease now token claims run_state

  -- The store changes only where the lease is renewed.
  abbrev pub heartbeat_found :
      Store → (lease_id token : String) (now db_now : ℕ) → LeaseRow → Result Store DomainError
  heartbeat_found store lease_id token now db_now lease =
      if is_some lease.revoked_at
      then err revoked_lease
      else if token_hash token != lease.token_hash
      then err unauthorized
      else if not (renew_lease store lease_id (now + lease_ttl) db_now).1
      then err expired_lease
      else ok (renew_lease store lease_id (now + lease_ttl) db_now).0

  unfoldable pub heartbeat :
      Store → (lease_id token : String) → (now db_now : ℕ) → Result Store DomainError
  unfolding get_lease renew_lease
  heartbeat store lease_id token now db_now =
      require not_found (get_lease store lease_id)
      >>= heartbeat_found store lease_id token now db_now

  unfoldable pub consume_found :
      Store
      → (permit_id token : String) → PermitExpectation
      → (now : ℕ) → PermitRow
      → Result (PermitRow × Store) DomainError
  unfolding consume_permit_row
  consume_found store permit_id token expected now permit =
      if token_hash token != permit.token_hash
      then err unauthorized
      else if permit.incident_id != expected.incident_id
      then err permit_mismatch
      else if permit.candidate_hash != expected.candidate_hash
      then err candidate_mismatch
      else if permit.target != expected.target
      then err permit_mismatch
      else (require permit_used (consume_permit_row store permit_id now).1 >>= λ consumed.
          ok (consumed, (consume_permit_row store permit_id now).0))

  unfoldable pub consume_permit :
      Store
      → (permit_id token : String) → PermitExpectation
      → (now : ℕ) → Result (PermitRow × Store) DomainError
  unfolding get_permit consume_found
  consume_permit store permit_id token expected now =
      require not_found (get_permit store permit_id)
      >>= consume_found store permit_id token expected now
