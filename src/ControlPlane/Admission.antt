-- ===== src/ControlPlane/Admission.antt =====
-- apps/control-plane/src/core/state-machine.ts: `requestOrchestratorWork`, `completeOrchestratorWork` and
-- `revokeOrchestratorWork`, with the commands of apps/control-plane/src/core/journal-commands.ts, for one
-- Incident that has a policy. An outer error is the throw of a journal that does not replay. A request is
-- its guards, and what follows them, which other steps can come before.
use sih26_proto.Common.{
  ℕ, nat_eq, string_eq, option_eq, ◌-◌, String, Bool, true, false, not, ◌&&◌, ◌||◌, Option, none,
  some, List, [], ◌∷◌, ◌++◌, if◌then◌else◌, ◌==◌, ◌!=◌, includes, any, all, join_text,
}
use sih26_proto.Result.{Result, ok, err, ◌>>=◌, IntegrityError}
use sih26_proto.Stages.{StageName, detect, diagnose, repair, verify, release, watch, ArtifactRef}
use sih26_proto.Transitions.{
  RunState, queued, running, paused, awaiting_human, interrupted, completed, failed, cancelled,
}
use sih26_proto.Journal.{
  RunRecord, WorkStatus, WorkBudget, WorkRecord, Body, JournalEvent, JournalCommand, find_run,
  artifact_sealed, work_requested, work_completed,
}
use sih26_proto.Journal.Works.{is_admitted, same_ref}
use sih26_proto.Leases.{Store, LeaseRow, LeaseClaims, DomainError}
use sih26_proto.Leases.Rows.{revoke_run_leases, revoke_permits}
use sih26_proto.Leases.Service.{verify_run_lease}
use sih26_proto.ControlPlane.JournalService.{
  CacheEntry, ApplyResult, applied, duplicate, error, load, apply,
}
use sih26_proto.ControlPlane.Work.{
  WorkRequest, stage_order, stages_before, last_stage_record, request_of, completed_work_ids,
  admitted_budget_usage, run_started_at, validate_work_request, run_wall_clock_limit,
}

-- `cancelled` holds the keys of Incidents and Runs.
pub record ControlPlane : Type 0 where
  pub incident_id : String
  pub rows : List JournalEvent
  pub cache : Option CacheEntry
  pub leases : Store
  pub cancelled : List String

pub record BudgetState : Type 0 where
  pub elapsed_ms : ℕ
  pub remaining_ms : ℕ
  pub reserved : WorkBudget

pub data WorkResult : Type 0 where
  admitted : List ArtifactRef → BudgetState → WorkResult
  rejected : DomainError → WorkResult

abbrev pub run_state_text : RunState → String
run_state_text queued = "queued"
run_state_text running = "running"
run_state_text paused = "paused"
run_state_text awaiting_human = "awaiting-human"
run_state_text interrupted = "interrupted"
run_state_text completed = "completed"
run_state_text failed = "failed"
run_state_text cancelled = "cancelled"

abbrev pub state_of_run : Option RunRecord → Option String
state_of_run none = none
state_of_run (some run) = some (run_state_text run.state)

abbrev pub run_key : String → String → String
run_key incident_id run_id = join_text incident_id (join_text ":" run_id)

-- `Set.delete`
unfoldable pub without : String → List String → List String
without key [] = []
without key (k ∷ ks) = let rest = without key ks in if k == key then rest else k ∷ rest

abbrev is_recorded : WorkRequest → Option WorkRecord → Bool
is_recorded request none = false
is_recorded request (some w) = w.request_id == request.request_id || w.work_id == request.work_id

unfoldable pub already_recorded : String → WorkRequest → List JournalEvent → Bool
already_recorded run_id request events =
    any (λ e. is_recorded request (request_of run_id e.body)) events

-- `refs.push(ref)` where no earlier one has its hash.
abbrev push_ref : List ArtifactRef → Option ArtifactRef → List ArtifactRef
push_ref refs none = refs
push_ref refs (some ref) =
    if any (λ other. other.content_hash == ref.content_hash) refs then refs else refs ++ ref ∷ []

abbrev ref_of : RunRecord → StageName → Option ArtifactRef
ref_of run stage = elim (last_stage_record run stage) [ none ↦ none | some r ↦ r.artifact_ref ]

unfoldable pub gather_refs : RunRecord → List ArtifactRef → List StageName → List ArtifactRef
gather_refs run refs [] = refs
gather_refs run refs (stage ∷ stages) = gather_refs run (push_ref refs (ref_of run stage)) stages

unfoldable pub admitted_artifacts_for_stage : RunRecord → StageName → List ArtifactRef
admitted_artifacts_for_stage run stage = gather_refs run [] (stages_before stage stage_order)

unfoldable pub work_requested_command :
    (incident_id run_id : String)
    → WorkRequest
    → WorkStatus
    → (recorded_at : String) → List ArtifactRef
    → JournalCommand
work_requested_command incident_id run_id request status recorded_at refs = record {
  incident_id = incident_id;
  idempotency_key = join_text "work-request:" request.request_id;
  recorded_at = recorded_at;
  body = work_requested (record {
    request_id = request.request_id;
    work_id = request.work_id;
    run_id = run_id;
    attempt = request.attempt;
    stage = request.stage;
    status = status;
    depends_on = request.depends_on;
    budget = request.budget;
    artifact_refs = refs;
  });
}

unfoldable pub work_completed_command :
    (incident_id run_id : String)
    → (attempt : ℕ) → (work_id : String) → List ArtifactRef
    → (recorded_at : String) → JournalCommand
work_completed_command incident_id run_id attempt work_id refs recorded_at = record {
  incident_id = incident_id;
  idempotency_key = join_text "work-complete:" work_id;
  recorded_at = recorded_at;
  body =
      work_completed
        (record { run_id = run_id; attempt = attempt; work_id = work_id; artifact_refs = refs });
}

-- STAGE_ARTIFACT
abbrev pub stage_artifact : StageName → List String
stage_artifact detect = "incident-brief" ∷ []
stage_artifact diagnose = "diagnosis-report" ∷ []
stage_artifact repair = "remediation-proposal" ∷ []
stage_artifact verify = "verification-report" ∷ []
stage_artifact release = "release-record" ∷ "direct-action-record" ∷ []
stage_artifact watch = "watch-report" ∷ []

abbrev is_sealed_as : String → ArtifactRef → Body → Bool
is_sealed_as run_id ref (artifact_sealed owner sealed) = owner == some run_id && same_ref sealed ref
is_sealed_as run_id ref _ = false

-- A reference with a schema of the stage, sealed in the Run.
unfoldable pub is_output : String → List JournalEvent → StageName → ArtifactRef → Bool
is_output run_id events stage ref =
    includes (stage_artifact stage) ref.schema_id
    && any (λ e. is_sealed_as run_id ref e.body) events

abbrev is_admitted_work : String → Option WorkRecord → Bool
is_admitted_work work_id none = false
is_admitted_work work_id (some w) = w.work_id == work_id && is_admitted w.status

-- The first event that admits the work, as the request in it.
unfoldable pub find_admitted : String → String → List JournalEvent → Option WorkRecord
find_admitted run_id work_id [] = none
find_admitted run_id work_id (e ∷ es) =
    if is_admitted_work work_id (request_of run_id e.body)
    then request_of run_id e.body
    else find_admitted run_id work_id es

-- The Control Plane behind an answer of the journal service.
abbrev pub with_journal : ControlPlane → CacheEntry → List JournalEvent → ControlPlane
with_journal cp entry rows = record cp { cache = some entry; rows = rows }

abbrev pub Answer : Type 0 → Type 0
Answer T = Result (Result T DomainError × ControlPlane) IntegrityError

abbrev pub refuse : {T : Type 0} → ControlPlane → DomainError → Answer T
refuse cp e = ok (err e, cp)

-- What an answer of the journal service to a work's command says.
unfoldable pub answered :
    {T : Type 0}
    → ControlPlane
    → T
    → Result (ApplyResult × CacheEntry × List JournalEvent) IntegrityError
    → Answer T
answered cp value (err thrown) = err thrown
answered cp value (ok (applied e state, entry, rows)) = ok (ok value, with_journal cp entry rows)
answered cp value (ok (duplicate, entry, rows)) =
    ok (err DomainError.duplicate_work, with_journal cp entry rows)
answered cp value (ok (error e, entry, rows)) = ok (err e, with_journal cp entry rows)

unfoldable pub apply_work : {T : Type 0} → ControlPlane → JournalCommand → T → Answer T
unfolding answered
apply_work cp command value = answered cp value (apply cp.cache cp.rows command)

abbrev pub has_no_refs : List ArtifactRef → Bool
has_no_refs [] = true
has_no_refs (_ ∷ _) = false

unfoldable pub complete_admitted :
    ControlPlane
    → CacheEntry
    → (now_text : String) → LeaseClaims
    → (work_id : String) → List ArtifactRef
    → RunRecord
    → Option WorkRecord
    → Answer (Unit {0})
unfolding apply_work work_completed_command
complete_admitted cp entry now_text claims work_id refs run none = refuse cp DomainError.not_found
complete_admitted cp entry now_text claims work_id refs run (some w) =
    if w.attempt != run.attempt
    then refuse cp DomainError.stale_attempt
    else if includes (completed_work_ids claims.run_id entry.events) work_id
    then refuse cp DomainError.duplicate_work
    else if has_no_refs refs || not (all (is_output claims.run_id entry.events w.stage) refs)
    then refuse cp DomainError.prerequisite_missing
    else apply_work cp
        (work_completed_command cp.incident_id claims.run_id run.attempt work_id refs now_text) tt

unfoldable pub complete_for_run :
    ControlPlane
    → CacheEntry
    → (now_text : String) → LeaseClaims
    → (work_id : String) → List ArtifactRef
    → Option RunRecord
    → Result LeaseRow DomainError
    → Answer (Unit {0})
unfolding complete_admitted
complete_for_run cp entry now_text claims work_id refs run (err failure) = refuse cp failure
complete_for_run cp entry now_text claims work_id refs none (ok lease) =
    refuse cp DomainError.not_found
complete_for_run cp entry now_text claims work_id refs (some run) (ok lease) =
    complete_admitted cp entry now_text claims work_id refs run
      (find_admitted claims.run_id work_id entry.events)

-- The tests of a request before it first waits, which no other step can come between.
unfoldable pub request_guard : ControlPlane → LeaseClaims → Result (Unit {0}) DomainError
request_guard cp claims =
    if includes cp.cancelled (run_key cp.incident_id claims.run_id)
    then err DomainError.revoked_lease
    else if cp.incident_id != claims.incident_id
    then err DomainError.unauthorized
    else ok tt

module _ (date_parse : String → Option ℕ) (token_hash : String → String)
    (lease_ttl permit_ttl : ℕ) where
  -- The budgets of `orchestratorState`.
  unfoldable pub budget_state : List JournalEvent → (now : ℕ) → RunRecord → BudgetState
  budget_state events now run = record {
    elapsed_ms = now - run_started_at date_parse run.run_id events now;
    remaining_ms = run_wall_clock_limit - (now - run_started_at date_parse run.run_id events now);
    reserved = admitted_budget_usage run.run_id events;
  }

  -- A request that is not recorded yet, with the failure of `validateWorkRequest`, if any.
  unfoldable pub decide_request :
      ControlPlane
      → CacheEntry
      → (now : ℕ) (now_text : String) → LeaseClaims
      → WorkRequest
      → RunRecord
      → Result (Unit {0}) DomainError
      → Answer WorkResult
  unfolding apply_work work_requested_command
  decide_request cp entry now now_text claims request run (err failure) =
      apply_work cp
        (work_requested_command cp.incident_id claims.run_id request WorkStatus.rejected now_text
          [])
        (rejected failure)
  decide_request cp entry now now_text claims request run (ok valid) =
      apply_work cp
        (work_requested_command cp.incident_id claims.run_id request WorkStatus.admitted now_text
          (admitted_artifacts_for_stage run request.stage))
        (admitted (admitted_artifacts_for_stage run request.stage)
          (budget_state entry.events now run))

  unfoldable pub request_for_run :
      ControlPlane
      → CacheEntry
      → (now : ℕ) (now_text : String) → LeaseClaims
      → WorkRequest
      → Option RunRecord
      → Result LeaseRow DomainError
      → Answer WorkResult
  unfolding decide_request
  request_for_run cp entry now now_text claims request run (err failure) = refuse cp failure
  request_for_run cp entry now now_text claims request none (ok lease) =
      refuse cp DomainError.not_found
  request_for_run cp entry now now_text claims request (some run) (ok lease) =
      if already_recorded claims.run_id request entry.events
      then refuse cp DomainError.duplicate_work
      else decide_request cp entry now now_text claims request run
          (validate_work_request date_parse entry.events now request claims run)

  -- What follows the guards: the journal is loaded, and the lease is verified for the Run found in it.
  unfoldable pub continue_request :
      ControlPlane
      → (now : ℕ) (now_text token : String) → LeaseClaims
      → WorkRequest
      → Answer WorkResult
  unfolding request_for_run
  continue_request cp now now_text token claims request = load cp.cache cp.rows >>= λ entry.
      request_for_run (with_journal cp entry cp.rows) entry now now_text claims request
        (find_run claims.run_id entry.state.runs)
        (verify_run_lease token_hash lease_ttl permit_ttl cp.leases now token claims
          (state_of_run (find_run claims.run_id entry.state.runs)))

  -- A request that nothing else happens beside.
  unfoldable pub request_orchestrator_work :
      ControlPlane
      → (now : ℕ) (now_text token : String) → LeaseClaims
      → WorkRequest
      → Answer WorkResult
  unfolding continue_request
  request_orchestrator_work cp now now_text token claims request = elim (request_guard cp claims) [
    | err failure ↦ refuse cp failure
    | ok passed ↦ continue_request cp now now_text token claims request
  ]

  unfoldable pub complete_orchestrator_work :
      ControlPlane
      → (now : ℕ) (now_text token : String) → LeaseClaims
      → (work_id : String) → List ArtifactRef
      → Answer (Unit {0})
  unfolding complete_for_run
  complete_orchestrator_work cp now now_text token claims work_id refs =
      if cp.incident_id != claims.incident_id
      then refuse cp DomainError.unauthorized
      else load cp.cache cp.rows >>= λ entry.
          complete_for_run (with_journal cp entry cp.rows) entry now_text claims work_id refs
            (find_run claims.run_id entry.state.runs)
            (verify_run_lease token_hash lease_ttl permit_ttl cp.leases now token claims
              (state_of_run (find_run claims.run_id entry.state.runs)))

-- `db_now` is the time of the database.
unfoldable pub revoke_orchestrator_work :
    ControlPlane → (run_id : String) → (db_now : ℕ) → ControlPlane
revoke_orchestrator_work cp run_id db_now = record cp {
  cancelled = run_key cp.incident_id run_id ∷ cp.cancelled;
  leases =
      revoke_permits (revoke_run_leases cp.leases cp.incident_id run_id db_now) cp.incident_id
        run_id db_now;
}

-- Whether the Run is there and queued.
abbrev pub is_queued : Option RunRecord → Bool
is_queued none = false
is_queued (some run) = run_state_text run.state == "queued"

abbrev pub state_runs : Option CacheEntry → List RunRecord
state_runs none = []
state_runs (some entry) = entry.state.runs

-- `startRun` up to its first wait: a queued Run is no longer cancelled.
unfoldable pub begin_run : ControlPlane → (run_id : String) → ControlPlane
begin_run cp run_id =
    if is_queued (find_run run_id (state_runs cp.cache))
    then record cp { cancelled = without (run_key cp.incident_id run_id) cp.cancelled }
    else cp
