-- ===== src/Leases/Verification.antt =====
-- When `verifyRunLease` of apps/control-plane/src/leases/lease-service.ts answers with a lease, and when
-- a heartbeat renews one.
use sih26_proto.Common.{
  subst, Eq, refl, ℕ, nat_eq, option_eq, ◌≡◌, ◌↔◌, ◌⊎◌, ap, sym, ◌∙◌, ◌<◌, String, string_eq, false,
  ◌&&◌, Option, none, some, is_some, ◌!=◌, arith, leb, eq_of_bne, beq_refl,
}
use sih26_proto.Result.{ok, >>=-eq-ok, guard-eq-ok, require, require-eq-ok, ok_injective}
use sih26_proto.Leases.{
  Store, LeaseRow, LeaseClaims, not_found, revoked_lease, expired_lease, unauthorized, forged_stage,
  stale_lease,
}
use sih26_proto.Leases.Rows.{get_lease}
use sih26_proto.Leases.Service.{claims_differ, verify_run_lease, verify_found_lease}

-- A caller with this token and these claims is the holder of this lease at this time.
pub record IsHolder (token_hash : String → String) (now : ℕ) (token : String) (claims : LeaseClaims)
    (run_state : Option String) (lease : LeaseRow) : Type 0 where
  pub not_revoked : lease.revoked_at ≡ none
  pub not_expired : now < lease.expires_at
  pub own_token : token_hash token ≡ lease.token_hash
  pub incident : lease.incident_id ≡ claims.incident_id
  pub run : lease.run_id ≡ some claims.run_id
  pub attempt : lease.attempt ≡ some claims.attempt
  pub stage : lease.stage ≡ some claims.stage
  pub actor : (lease.actor_id ≡ claims.actor_id) × (lease.actor_kind ≡ claims.actor_kind)
  pub tools : lease.tool_class ≡ claims.tool_class
  pub on_running : (run_state ≡ none) ⊎ (run_state ≡ some "running")

not_some {ℓ} : {A : Type ℓ} (o : Option A) → is_some o ≡ false → o ≡ none
not_some none h = refl
not_some (some a) h = cc h

bne_iff {ℓ} : {A : Type ℓ} ⦃e : Eq A⦄ (a b : A) → ((a != b) ≡ false) ↔ (a ≡ b)
bne_iff a b = (eq_of_bne a b, λ p. subst (λ x. (a != x) ≡ false) p (rw (beq_refl a) refl))

claims_agree :
    (lease : LeaseRow) (claims : LeaseClaims)
    → (claims_differ lease claims ≡ false) ↔ (
        (lease.incident_id ≡ claims.incident_id)
        × (lease.run_id ≡ some claims.run_id)
        × (lease.attempt ≡ some claims.attempt)
        × (lease.stage ≡ some claims.stage)
        × (lease.actor_id ≡ claims.actor_id)
        × (lease.actor_kind ≡ claims.actor_kind)
        × (lease.tool_class ≡ claims.tool_class))
claims_agree lease claims = ground (
  arith,
  bne_iff lease.incident_id claims.incident_id,
  bne_iff lease.run_id (some claims.run_id),
  bne_iff lease.attempt (some claims.attempt),
  bne_iff lease.stage (some claims.stage),
  bne_iff lease.actor_id claims.actor_id,
  bne_iff lease.actor_kind claims.actor_kind,
  bne_iff lease.tool_class claims.tool_class,
)

run_goes_on :
    (run_state : Option String)
    → ((run_state != none && run_state != some "running") ≡ false)
      ↔ ((run_state ≡ none) ⊎ (run_state ≡ some "running"))
run_goes_on run_state = ground (arith, bne_iff run_state none, bne_iff run_state (some "running"))

unexpired : (expires_at now : ℕ) → (leb expires_at now ≡ false) ↔ (now < expires_at)
unexpired expires_at now = ground arith

module _ (token_hash : String → String) (lease_ttl permit_ttl : ℕ) where
  -- A lease is verified exactly where it is the one stored under the claimed key, it is neither
  -- revoked nor expired, the token is its own, each claim is what it says, and the Run, where its
  -- state is given, is running.
  pub verify_run_lease_iff :
      (store : Store) (now : ℕ) (token : String) (claims : LeaseClaims) (run_state : Option String)
      (lease : LeaseRow)
      → (verify_run_lease token_hash lease_ttl permit_ttl store now token claims run_state
          ≡ ok lease)
        ↔ ((get_lease store claims.lease_id ≡ some lease)
            × IsHolder token_hash now token claims run_state lease)
  unfolding verify_run_lease verify_found_lease
  verify_run_lease_iff store now token claims run_state lease = (
    λ h.
        let (held, found, h) =
          >>=-eq-ok (require not_found (get_lease store claims.lease_id))
            (verify_found_lease token_hash lease_ttl permit_ttl now token claims run_state) h in
        let (a, h) = guard-eq-ok _ revoked_lease _ h in
        let (b, h) = guard-eq-ok _ expired_lease _ h in
        let (c, h) = guard-eq-ok _ unauthorized _ h in
        let (d, h) = guard-eq-ok _ forged_stage _ h in
        let (e, h) = guard-eq-ok _ stale_lease _ h in
        let one = ok_injective held lease h in
        let (i, r, t, g, k, l, m) = (claims_agree held claims).0 d in
        (
          require-eq-ok not_found (get_lease store claims.lease_id) found ∙ ap some (sym one),
          subst (IsHolder token_hash now token claims run_state) (sym one) (record {
            not_revoked = not_some held.revoked_at a;
            not_expired = (unexpired held.expires_at now).0 b;
            own_token = eq_of_bne (token_hash token) held.token_hash c;
            incident = i;
            run = r;
            attempt = t;
            stage = g;
            actor = (k, l);
            tools = m;
            on_running = (run_goes_on run_state).0 e;
          }),
        ),
    λ (found, k).
        rw
          (
            found,
            k.not_revoked,
            (unexpired lease.expires_at now).1 k.not_expired,
            (bne_iff (token_hash token) lease.token_hash).1 k.own_token,
            (claims_agree lease claims).1
                (k.incident, k.run, k.attempt, k.stage, k.actor.0, k.actor.1, k.tools),
            (run_goes_on run_state).1 k.on_running,
          )
          refl,
  )
