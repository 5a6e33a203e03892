-- ===== src/Examples/LeaseRun.antt =====
-- Leases and permits of apps/control-plane/src/leases/lease-service.ts, with a hash of tokens that is
-- the token itself.
use sih26_proto.Common.{◌≡◌, ◌≢◌, ◌↔◌, refl, String, none, some, List, [], ◌∷◌}
use sih26_proto.Result.{ok, err}
use sih26_proto.Leases.{
  LeaseKind, PermitKind, LeaseRow, PermitRow, Store, LeaseClaims, PermitExpectation, revoked_lease,
}
use sih26_proto.Leases.Rows.{get_lease, revoke_run_leases}
use sih26_proto.Leases.Service.{consume_permit, verify_run_lease}
use sih26_proto.Leases.Operations.{Operation, operate_all, beating, issuing_permit}
use sih26_proto.Leases.Laws.{consume_permit_once}
use sih26_proto.Leases.Revocation.{revoke_run_leases_for_good}
use sih26_proto.Leases.Verification.{IsHolder, verify_run_lease_iff}

abbrev same_token : String → String
same_token token = token

abbrev lease : LeaseRow
lease = record {
  lease_id = "lease-1";
  kind = LeaseKind.run;
  incident_id = "incident-1";
  run_id = some "run-1";
  attempt = some 1;
  stage = some "repair";
  actor_id = "worker-1";
  actor_kind = "worker";
  authority_mode = "repair";
  policy_version = "policy-1";
  tool_class = "repo";
  issued_at = 0;
  expires_at = 1000;
  revoked_at = none;
  token_hash = "secret";
}

abbrev permit : PermitRow
permit = record {
  permit_id = "permit-1";
  kind = PermitKind.release_permit;
  incident_id = "incident-1";
  run_id = "run-1";
  attempt = 1;
  candidate_hash = "hash-a";
  target = "checkout";
  action_digest = "digest";
  issued_at = 0;
  expires_at = 1000;
  consumed_at = none;
  revoked_at = none;
  token_hash = "permit-secret";
}

abbrev store : Store
store = record { leases = lease ∷ []; permits = permit ∷ [] }

abbrev expected : PermitExpectation
expected = record { candidate_hash = "hash-a"; target = "checkout"; incident_id = "incident-1" }

abbrev spent : PermitRow
spent = record permit { consumed_at = some 10 }

abbrev spent_store : Store
spent_store = record { leases = lease ∷ []; permits = spent ∷ [] }

permit_consumed :
    consume_permit same_token 500 500 store "permit-1" "permit-secret" expected 10
    ≡ ok (spent, spent_store)
unfolding consume_permit
permit_consumed = refl

abbrev reissue : List Operation
reissue =
    issuing_permit
      (record {
        kind = PermitKind.release_permit;
        incident_id = "incident-1";
        run_id = "run-1";
        attempt = 1;
        candidate_hash = "hash-a";
        target = "checkout";
        action_digest = "digest";
      })
      "permit-1" "permit-secret" 20
    ∷ []

consume_permit_once_example :
    consume_permit same_token 500 500
      (operate_all same_token 500 500 spent_store reissue)
      "permit-1"
      "permit-secret"
      expected
      30
    ≢ ok (spent, spent_store)
consume_permit_once_example =
    consume_permit_once same_token 500 500 store "permit-1" "permit-secret" expected 10 spent
      spent_store reissue "permit-secret" expected 30 (spent, spent_store) permit_consumed

abbrev claims : LeaseClaims
claims = record {
  lease_id = "lease-1";
  incident_id = "incident-1";
  run_id = "run-1";
  attempt = 1;
  stage = "repair";
  actor_id = "worker-1";
  actor_kind = "worker";
  tool_class = "repo";
}

lease_held : get_lease store "lease-1" ≡ some lease
unfolding get_lease
lease_held = refl

lease_verified :
    verify_run_lease same_token 500 500 store 10 "secret" claims (some "running") ≡ ok lease
unfolding verify_run_lease
lease_verified = refl

revoke_run_leases_for_good_example :
    verify_run_lease same_token 500 500
      (operate_all same_token 500 500
        (revoke_run_leases store "incident-1" "run-1" 5)
        (beating "lease-1" "secret" 6 6 ∷ []))
      10
      "secret"
      claims
      (some "running")
    ≡ err revoked_lease
revoke_run_leases_for_good_example =
    revoke_run_leases_for_good same_token 500 500 store "incident-1" "run-1" 5 lease "lease-1"
      (beating "lease-1" "secret" 6 6 ∷ []) 10 "secret" claims (some "running") lease_held refl refl
      refl

verify_run_lease_iff_example :
    (verify_run_lease same_token 500 500 store 10 "secret" claims (some "running") ≡ ok lease) ↔ (
      (get_lease store "lease-1" ≡ some lease)
      × IsHolder same_token 10 "secret" claims (some "running") lease)
verify_run_lease_iff_example =
    verify_run_lease_iff same_token 500 500 store 10 "secret" claims (some "running") lease
