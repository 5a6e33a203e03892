-- ===== src/ControlPlane/Cancellation.antt =====
-- apps/control-plane/src/core/state-machine.ts: the set of cancelled Runs, from `revokeOrchestratorWork` on.
use sih26_proto.Common.{
  arith, beq_of_ne, join_text, ℕ, string_eq, nat_eq, ◌≡◌, ◌≢◌, refl, ap, sym, ◌∙◌, String, Bool,
  true, false, not, ◌||◌, Option, none, some, List, [], ◌∷◌, includes, Bool-cases, inl, inr, ◌!=◌,
  ◌==◌, all, beq_refl, eq_of_beq, if◌then◌else◌, All,
}
use sih26_proto.Result.{Result, ok, err, ◌>>=◌, IntegrityError}
use sih26_proto.Stages.{ArtifactRef}
use sih26_proto.Journal.{RunRecord, JournalEvent, JournalCommand, WorkRecord, find_run}
use sih26_proto.Leases.{LeaseRow, LeaseClaims, DomainError}
use sih26_proto.ControlPlane.JournalService.{
  CacheEntry, ApplyResult, applied, duplicate, error, load, apply,
}
use sih26_proto.ControlPlane.Work.{WorkRequest, completed_work_ids}
use sih26_proto.ControlPlane.Admission.{
  ControlPlane, Answer, answered, apply_work, with_journal, refuse, already_recorded,
  decide_request, request_for_run, continue_request, request_guard, request_orchestrator_work,
  complete_admitted, complete_for_run, complete_orchestrator_work, revoke_orchestrator_work,
  begin_run, is_queued, state_runs, without, run_key, has_no_refs, is_output,
}
use sih26_proto.ControlPlane.Sequence.{
  WorkTurn, requests, goes_on, completes, commands, cancels, begins_run, leases, left_by, work_turn,
  work_turns,
}
use Prim.Native.String.{[] as empty, ◌∷◌ as ◌then◌}

-- An answer leaves the Incident and the cancelled Runs as they were.
record Keeps {T : Type 0} (cp : ControlPlane) (answer : Answer T) : Type 0 where
  pub same : (left_by cp answer).cancelled ≡ cp.cancelled
  pub own : (left_by cp answer).incident_id ≡ cp.incident_id

answered-Keeps :
    {T : Type 0} (cp : ControlPlane) (value : T)
    (result : Result (ApplyResult × CacheEntry × List JournalEvent) IntegrityError)
    → Keeps cp (answered cp value result)
unfolding answered
answered-Keeps cp value (err thrown) = record { same = refl; own = refl }
answered-Keeps cp value (ok (applied e state, entry, rows)) = record { same = refl; own = refl }
answered-Keeps cp value (ok (duplicate, entry, rows)) = record { same = refl; own = refl }
answered-Keeps cp value (ok (error e, entry, rows)) = record { same = refl; own = refl }

apply_work-Keeps :
    {T : Type 0} (cp : ControlPlane) (command : JournalCommand) (value : T)
    → Keeps cp (apply_work cp command value)
unfolding apply_work
apply_work-Keeps cp command value = answered-Keeps cp value (apply cp.cache cp.rows command)

refuse_or-Keeps :
    {T : Type 0} (cp : ControlPlane) (b : Bool) (e : DomainError) (rest : Answer T)
    → Keeps cp rest
    → Keeps cp (if b then refuse cp e else rest)
refuse_or-Keeps cp true e rest h = record { same = refl; own = refl }
refuse_or-Keeps cp false e rest h = h

loaded-Keeps :
    {T : Type 0} (cp : ControlPlane) (e : CacheEntry) (answer : Answer T)
    → Keeps (with_journal cp e cp.rows) answer
    → Keeps cp answer
loaded-Keeps cp e (err thrown) h = record { same = refl; own = refl }
loaded-Keeps cp e (ok (result, cp')) h = record { same = h.same; own = h.own }

-- What is left behind a load keeps what the loaded Control Plane keeps.
load-Keeps :
    {T : Type 0} (cp : ControlPlane) (entry : Result CacheEntry IntegrityError)
    (next : CacheEntry → Answer T)
    → ((e : CacheEntry) → Keeps (with_journal cp e cp.rows) (next e))
    → Keeps cp (entry >>= next)
load-Keeps cp (err thrown) next h = record { same = refl; own = refl }
load-Keeps cp (ok e) next h = loaded-Keeps cp e (next e) (h e)

complete_admitted-Keeps :
    (cp : ControlPlane) (entry : CacheEntry) (now_text : String) (claims : LeaseClaims)
    (work_id : String) (refs : List ArtifactRef) (run : RunRecord) (found : Option WorkRecord)
    → Keeps cp (complete_admitted cp entry now_text claims work_id refs run found)
unfolding complete_admitted
complete_admitted-Keeps cp entry now_text claims work_id refs run none = record {
  same = refl;
  own = refl;
}
complete_admitted-Keeps cp entry now_text claims work_id refs run (some w) =
    refuse_or-Keeps cp (w.attempt != run.attempt) DomainError.stale_attempt _ (
      refuse_or-Keeps cp (includes (completed_work_ids claims.run_id entry.events) work_id)
        DomainError.duplicate_work _
        (refuse_or-Keeps cp
          (has_no_refs refs || not (all (is_output claims.run_id entry.events w.stage) refs))
          DomainError.prerequisite_missing _ (apply_work-Keeps cp _ tt)))

complete_for_run-Keeps :
    (cp : ControlPlane) (entry : CacheEntry) (now_text : String) (claims : LeaseClaims)
    (work_id : String) (refs : List ArtifactRef) (run : Option RunRecord)
    (verified : Result LeaseRow DomainError)
    → Keeps cp (complete_for_run cp entry now_text claims work_id refs run verified)
unfolding complete_for_run
complete_for_run-Keeps cp entry now_text claims work_id refs run (err failure) = record {
  same = refl;
  own = refl;
}
complete_for_run-Keeps cp entry now_text claims work_id refs none (ok lease) = record {
  same = refl;
  own = refl;
}
complete_for_run-Keeps cp entry now_text claims work_id refs (some run) (ok lease) =
    complete_admitted-Keeps cp entry now_text claims work_id refs run _

includes-without :
    (k key : String) (ks : List String) → key ≢ k → includes (without k ks) key ≡ includes ks key
unfolding without
includes-without k key [] ne = refl
includes-without k key (x ∷ ks) ne = elim (Bool-cases (x == k)) [
  | inl same ↦
      let other = beq_of_ne x key (λ e. ne (sym e ∙ eq_of_beq x k same)) in
      rw (same, other) (includes-without k key ks ne)
  | inr kept ↦ rw kept (ap (λ b. x == key || b) (includes-without k key ks ne))
]

join_text_injective : (p a b : String) → join_text p a ≡ join_text p b → a ≡ b
join_text_injective empty a b h = h
join_text_injective (c then p) a b h = join_text_injective p a b (cc h)

run_key_injective :
    (incident_id a b : String) → run_key incident_id a ≡ run_key incident_id b → a ≡ b
run_key_injective incident_id a b h =
    join_text_injective ":" a b (join_text_injective incident_id _ _ h)

module _ (date_parse : String → Option ℕ) (token_hash : String → String)
    (lease_ttl permit_ttl : ℕ) where
  decide_request-Keeps :
      (cp : ControlPlane) (entry : CacheEntry) (now : ℕ) (now_text : String) (claims : LeaseClaims)
      (request : WorkRequest) (run : RunRecord) (found : Result (Unit {0}) DomainError)
      → Keeps cp (
          decide_request date_parse token_hash lease_ttl permit_ttl cp entry now now_text claims
            request run found)
  unfolding decide_request
  decide_request-Keeps cp entry now now_text claims request run (err failure) =
      apply_work-Keeps cp _ _
  decide_request-Keeps cp entry now now_text claims request run (ok valid) = apply_work-Keeps cp _ _

  request_for_run-Keeps :
      (cp : ControlPlane) (entry : CacheEntry) (now : ℕ) (now_text : String) (claims : LeaseClaims)
      (request : WorkRequest) (run : Option RunRecord) (verified : Result LeaseRow DomainError)
      → Keeps cp (
          request_for_run date_parse token_hash lease_ttl permit_ttl cp entry now now_text claims
            request run verified)
  unfolding request_for_run
  request_for_run-Keeps cp entry now now_text claims request run (err failure) = record {
    same = refl;
    own = refl;
  }
  request_for_run-Keeps cp entry now now_text claims request none (ok lease) = record {
    same = refl;
    own = refl;
  }
  request_for_run-Keeps cp entry now now_text claims request (some run) (ok lease) =
      refuse_or-Keeps cp (already_recorded claims.run_id request entry.events)
        DomainError.duplicate_work _
        (decide_request-Keeps cp entry now now_text claims request run _)

  request_orchestrator_work-Keeps :
      (cp : ControlPlane) (now : ℕ) (now_text token : String) (claims : LeaseClaims)
      (request : WorkRequest)
      → Keeps cp (
          request_orchestrator_work date_parse token_hash lease_ttl permit_ttl cp now now_text token
            claims request)
  unfolding request_orchestrator_work continue_request
  request_orchestrator_work-Keeps cp now now_text token claims request =
      elim (request_guard cp claims)
        as (λ g. Keeps cp (elim g [
          | err failure ↦ refuse cp failure
          | ok passed ↦
              continue_request date_parse token_hash lease_ttl permit_ttl cp now now_text token
                claims request
        ])) [
          | err failure ↦ record { same = refl; own = refl }
          | ok passed ↦ load-Keeps cp (load cp.cache cp.rows) _ λ entry.
              request_for_run-Keeps (with_journal cp entry cp.rows) entry now now_text claims
                request _ _
        ]

  complete_orchestrator_work-Keeps :
      (cp : ControlPlane) (now : ℕ) (now_text token : String) (claims : LeaseClaims)
      (work_id : String) (refs : List ArtifactRef)
      → Keeps cp (
          complete_orchestrator_work date_parse token_hash lease_ttl permit_ttl cp now now_text
            token claims work_id refs)
  unfolding complete_orchestrator_work
  complete_orchestrator_work-Keeps cp now now_text token claims work_id refs =
      refuse_or-Keeps cp (cp.incident_id != claims.incident_id) DomainError.unauthorized _ (
        load-Keeps cp (load cp.cache cp.rows) _ λ entry.
          complete_for_run-Keeps (with_journal cp entry cp.rows) entry now_text claims work_id refs
            _ _)

  -- A turn that is no start of the Run.
  abbrev pub IsElsewhere : String → WorkTurn → Type 0
  IsElsewhere run_id (begins_run other) = run_id ≢ other
  IsElsewhere run_id _ = Unit

  abbrev IsStopped : String → ControlPlane → Type 0
  IsStopped run_id cp = includes cp.cancelled (run_key cp.incident_id run_id) ≡ true

  Keeps-IsStopped :
      {T : Type 0} (cp : ControlPlane) (answer : Answer T) (run_id : String)
      → Keeps cp answer
      → IsStopped run_id cp
      → IsStopped run_id (left_by cp answer)
  Keeps-IsStopped cp answer run_id k h = rw (k.same, k.own) h

  begin_run-IsStopped :
      (cp : ControlPlane) (run_id other : String)
      → run_id ≢ other
      → IsStopped run_id cp
      → IsStopped run_id (begin_run cp other)
  unfolding begin_run
  begin_run-IsStopped cp run_id other ne h =
      elim (Bool-cases (is_queued (find_run other (state_runs cp.cache)))) [
        | inl queued ↦ rw queued (
            includes-without (run_key cp.incident_id other) (run_key cp.incident_id run_id)
              cp.cancelled (λ e. ne (run_key_injective cp.incident_id run_id other e))
            ∙ h)
        | inr gone ↦ rw gone h
      ]

  work_turn-IsStopped :
      (cp : ControlPlane) (t : WorkTurn) (run_id : String)
      → IsElsewhere run_id t
      → IsStopped run_id cp
      → IsStopped run_id (work_turn date_parse token_hash lease_ttl permit_ttl cp t)
  unfolding work_turn revoke_orchestrator_work
  work_turn-IsStopped cp (requests now now_text token claims request) run_id away h =
      Keeps-IsStopped cp _ run_id
        (request_orchestrator_work-Keeps cp now now_text token claims request) h
  work_turn-IsStopped cp (goes_on now now_text claims request run verified) run_id away h =
      Keeps-IsStopped cp _ run_id
        (load-Keeps cp (load cp.cache cp.rows) _ λ entry.
          request_for_run-Keeps (with_journal cp entry cp.rows) entry now now_text claims request
            run verified)
        h
  work_turn-IsStopped cp (completes now now_text token claims work_id refs) run_id away h =
      Keeps-IsStopped cp _ run_id
        (complete_orchestrator_work-Keeps cp now now_text token claims work_id refs) h
  work_turn-IsStopped cp (commands command nothing) run_id away h =
      Keeps-IsStopped cp _ run_id (apply_work-Keeps cp command tt) h
  work_turn-IsStopped cp (cancels other db_now) run_id away h = ground (arith, h)
  work_turn-IsStopped cp (begins_run other) run_id away h =
      begin_run-IsStopped cp run_id other away h
  work_turn-IsStopped cp (leases operation) run_id away h = h

  work_turns-IsStopped :
      (cp : ControlPlane) (ts : List WorkTurn) (run_id : String)
      → All (IsElsewhere run_id) ts
      → IsStopped run_id cp
      → IsStopped run_id (work_turns date_parse token_hash lease_ttl permit_ttl cp ts)
  unfolding work_turns
  work_turns-IsStopped cp [] run_id away h = h
  work_turns-IsStopped cp (t ∷ ts) run_id (here, away) h =
      work_turns-IsStopped (work_turn date_parse token_hash lease_ttl permit_ttl cp t) ts run_id
        away (work_turn-IsStopped cp t run_id here h)

  revoke-IsStopped :
      (cp : ControlPlane) (run_id : String) (db_now : ℕ)
      → IsStopped run_id (revoke_orchestrator_work cp run_id db_now)
  unfolding revoke_orchestrator_work
  revoke-IsStopped cp run_id db_now = rw (beq_refl (run_key cp.incident_id run_id)) refl

  request_guard-IsStopped :
      (cp : ControlPlane) (claims : LeaseClaims)
      → IsStopped claims.run_id cp
      → request_guard cp claims ≡ err DomainError.revoked_lease
  unfolding request_guard
  request_guard-IsStopped cp claims h = rw h refl

  stopped_request :
      (cp : ControlPlane) (now : ℕ) (now_text token : String) (claims : LeaseClaims)
      (request : WorkRequest)
      → request_guard cp claims ≡ err DomainError.revoked_lease
      → request_orchestrator_work date_parse token_hash lease_ttl permit_ttl cp now now_text token
          claims request
        ≡ ok (err DomainError.revoked_lease, cp)
  unfolding request_orchestrator_work
  stopped_request cp now now_text token claims request h = rw (h, request_orchestrator_work) refl

  -- Once `revokeOrchestratorWork` has cancelled a Run, and until `startRun` is called for that Run, every
  -- request for it that begins is refused as revoked, whoever makes it, and writes nothing, whatever
  -- requests, completions, commands, cancellations, starts of other Runs and operations on leases came
  -- since.
  pub request_orchestrator_work-cancelled :
      (cp : ControlPlane) (ts : List WorkTurn) (db_now now : ℕ) (now_text token : String)
      (claims : LeaseClaims) (request : WorkRequest)
      → All (IsElsewhere claims.run_id) ts
      → let stopped =
          work_turns date_parse token_hash lease_ttl permit_ttl
            (revoke_orchestrator_work cp claims.run_id db_now)
            ts in
        request_orchestrator_work date_parse token_hash lease_ttl permit_ttl stopped now now_text
          token claims request
        ≡ ok (err DomainError.revoked_lease, stopped)
  request_orchestrator_work-cancelled cp ts db_now now now_text token claims request away =
      stopped_request _ now now_text token claims request (
        request_guard-IsStopped _ claims (
          work_turns-IsStopped (revoke_orchestrator_work cp claims.run_id db_now) ts claims.run_id
            away (revoke-IsStopped cp claims.run_id db_now)))
