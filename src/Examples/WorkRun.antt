-- ===== src/Examples/WorkRun.antt =====
-- Work of an Orchestrator in a Run at its first stage, for apps/control-plane/src/core: the journal
-- service and the admission. Dates are not parsed, so the Run's clock starts at the request.
use sih26_proto.ControlPlane.Permitted.{IsPermitted, validate_work_request_iff}
use sih26_proto.ControlPlane.Cancellation.{request_orchestrator_work-cancelled}
use sih26_proto.ControlPlane.Sequence.{begins_run, goes_on}
use sih26_proto.ControlPlane.Work.{run_started_at}
use sih26_proto.ControlPlane.Sequence.{work_turn}
use sih26_proto.Leases.Rows.{revoke_run_leases, revoke_permits}
use sih26_proto.Common.{
  string_eq, ne_of_beq, ◌-◌, true, ℕ, ◌≡◌, ◌≢◌, refl, String, none, some, List, [], ◌∷◌, arith,
  Option, includes,
}
use sih26_proto.Result.{Result, ok, err, IntegrityError}
use sih26_proto.Transitions.{RunState, opened, queued, running, is_run_terminal}
use sih26_proto.Stages.{
  stage_eq, StageName, StageTransition, detect, diagnose, repair, watch, entered, skipped,
}
use sih26_proto.Journal.{
  JournalState, JournalEvent, JournalCommand, RunRecord, Body, RunTransition, WorkBudget,
  initial_journal_state, incident_transition, run_transition, stage_transition,
}
use sih26_proto.Journal.Replay.{reduce_journal_events, apply_journal_command}
use sih26_proto.Journal.Reducer.{apply_journal_event, apply_body}
use sih26_proto.Leases.{LeaseKind, LeaseRow, LeaseClaims, Store, DomainError}
use sih26_proto.ControlPlane.JournalService.{CacheEntry, ApplyResult, apply, load}
use sih26_proto.ControlPlane.Shared.{empty, Outcome, apply-Outcome}
use sih26_proto.ControlPlane.Interleaving.{
  Shared, left_applies, right_applies, left_invalidates, turns, IsShared, turns-IsShared,
}
use sih26_proto.ControlPlane.Work.{
  WorkRequest, validate_work_request, stages_before, stage_order, last_stage_record,
  admitted_budget_usage, reserved_from, reservation, completed_work_ids,
}
use sih26_proto.ControlPlane.Admission.{
  ControlPlane, WorkResult, BudgetState, admitted, Answer, request_orchestrator_work,
  revoke_orchestrator_work,
}
use sih26_proto.ControlPlane.Budgets.{IsSound}
use sih26_proto.ControlPlane.Sequence.{WorkTurn, requests, cancels, work_turns, work_turns-IsSound}
use sih26_proto.ControlPlane.Decisions.{validate_work_request_skipped}

abbrev event : ℕ → String → Body → JournalEvent
event sequence key body = record {
  sequence = sequence;
  incident_id = "incident-7";
  body = body;
  recorded_at = "";
  idempotency_key = key;
}

abbrev run_move : Option RunState → RunState → ℕ → Body
run_move from to version = run_transition (record {
  run_id = "run-1";
  attempt = 1;
  from = from;
  to = to;
  expected_run_version = version;
  outcome = none;
  failure_reason = none;
  restart_count = none;
})

abbrev stage_move : StageName → Option String → StageTransition
stage_move stage reason = record {
  stage = stage;
  from = none;
  to = entered;
  reason = reason;
  candidate_hash = none;
  artifact_ref = none;
}

abbrev started : List JournalEvent
started =
    event 1 "open" (
      incident_transition
        (record { from = none; to = opened; expected_version = 0; closure_reason = none }))
    ∷ event 2 "queue" (run_move none queued 0)
    ∷ event 3 "start" (run_move (some queued) running 1)
    ∷ event 4 "detect" (stage_transition "run-1" 1 (stage_move detect none))
    ∷ []

abbrev state_or : Result JournalState IntegrityError → JournalState
state_or (ok s) = s
state_or (err e) = initial_journal_state

abbrev started_state : JournalState
started_state = state_or (reduce_journal_events started)

started_accepted : reduce_journal_events started ≡ ok started_state
unfolding reduce_journal_events apply_journal_event apply_body
    sih26_proto.Journal.Moves.apply_incident_transition
    sih26_proto.Transitions.is_legal_incident_transition
    sih26_proto.Journal.Moves.apply_run_transition sih26_proto.Transitions.is_legal_run_transition
    sih26_proto.Journal.Moves.apply_stage_transition sih26_proto.Stages.check_stage_records
    sih26_proto.Stages.check_from sih26_proto.Stages.check_record sih26_proto.Stages.start_check
    sih26_proto.Stages.check_enter
started_accepted = refl

abbrev same_token : String → String
same_token token = token

abbrev no_date : String → Option ℕ
no_date text = none

abbrev lease : LeaseRow
lease = record {
  lease_id = "lease-7";
  kind = LeaseKind.run;
  incident_id = "incident-7";
  run_id = some "run-1";
  attempt = some 1;
  stage = some "detect";
  actor_id = "pi";
  actor_kind = "orchestrator";
  authority_mode = "repair";
  policy_version = "policy-1";
  tool_class = "orchestrate";
  issued_at = 0;
  expires_at = 9000;
  revoked_at = none;
  token_hash = "t";
}

abbrev claims : LeaseClaims
claims = record {
  lease_id = "lease-7";
  incident_id = "incident-7";
  run_id = "run-1";
  attempt = 1;
  stage = "detect";
  actor_id = "pi";
  actor_kind = "orchestrator";
  tool_class = "orchestrate";
}

abbrev budget : WorkBudget
budget = record {
  model_turns = 12;
  non_terminal_tool_calls = 8;
  session_wall_clock_ms = 60000;
  run_wall_clock_ms = 60000;
}

abbrev ask : String → WorkRequest
ask name = record {
  request_id = name;
  work_id = name;
  stage = detect;
  attempt = 1;
  depends_on = [];
  budget = budget;
}

abbrev control_plane : ControlPlane
control_plane = record {
  incident_id = "incident-7";
  rows = started;
  cache = none;
  leases = record { leases = lease ∷ []; permits = [] };
  cancelled = [];
}

control_plane-IsSound : IsSound control_plane
unfolding admitted_budget_usage reserved_from reservation
control_plane-IsSound = record {
  replays = (started_state, started_accepted);
  current = empty;
  within = λ run_id. record {
    turns = omega arith;
    calls = omega arith;
    session = omega arith;
    run = omega arith;
  };
}

abbrev two_requests : List WorkTurn
two_requests =
    requests 100 "" "t" claims (ask "one")
    ∷ requests 200 "" "t" claims (ask "two")
    ∷ cancels "run-1" 300
    ∷ []

work_turns-IsSound_example :
    IsSound (work_turns no_date same_token 500 500 control_plane two_requests)
work_turns-IsSound_example =
    work_turns-IsSound no_date same_token 500 500 control_plane two_requests control_plane-IsSound

abbrev idle : BudgetState
idle = record {
  elapsed_ms = 0;
  remaining_ms = 7200000;
  reserved = record {
    model_turns = 0;
    non_terminal_tool_calls = 0;
    session_wall_clock_ms = 0;
    run_wall_clock_ms = 0;
  };
}

abbrev left_or : Answer WorkResult → ControlPlane
left_or (ok (answer, cp)) = cp
left_or (err e) = control_plane

abbrev first_answer : Answer WorkResult
first_answer =
    request_orchestrator_work no_date same_token 500 500 control_plane 100 "" "t" claims (ask "one")

first_admitted : first_answer ≡ ok (ok (admitted [] idle), left_or first_answer)
unfolding request_orchestrator_work load sih26_proto.Leases.Service.verify_run_lease
    reduce_journal_events apply_journal_event apply_body
    sih26_proto.Journal.Moves.apply_incident_transition
    sih26_proto.Transitions.is_legal_incident_transition
    sih26_proto.Journal.Moves.apply_run_transition sih26_proto.Transitions.is_legal_run_transition
    sih26_proto.Journal.Moves.apply_stage_transition sih26_proto.Stages.check_stage_records
    sih26_proto.Stages.check_from sih26_proto.Stages.check_record sih26_proto.Stages.start_check
    sih26_proto.Stages.check_enter sih26_proto.ControlPlane.Admission.already_recorded
    sih26_proto.ControlPlane.Admission.admitted_artifacts_for_stage
    sih26_proto.ControlPlane.Admission.gather_refs sih26_proto.ControlPlane.Admission.apply_work
    sih26_proto.ControlPlane.Admission.budget_state
    sih26_proto.ControlPlane.Admission.request_for_run
    sih26_proto.ControlPlane.Admission.request_guard
    sih26_proto.ControlPlane.Admission.continue_request
    sih26_proto.ControlPlane.Admission.decide_request
    sih26_proto.ControlPlane.Admission.work_requested_command apply
    sih26_proto.ControlPlane.JournalService.settled
    sih26_proto.ControlPlane.JournalService.append_journal_event
    sih26_proto.ControlPlane.JournalService.insert_row admitted_budget_usage
    sih26_proto.ControlPlane.Work.budget_exceeded_by completed_work_ids
    sih26_proto.ControlPlane.Work.current_stage last_stage_record reservation reserved_from
    sih26_proto.ControlPlane.Work.run_started_at stages_before validate_work_request
    sih26_proto.ControlPlane.Work.wall_clock_exceeded apply_journal_command
    sih26_proto.Journal.Works.apply_work_requested
first_admitted = refl

abbrev start_run : RunRecord
start_run = record {
  run_id = "run-1";
  attempt = 1;
  state = running;
  run_version = 2;
  outcome = none;
  failure_reason = none;
  restart_count = 0;
  stage_records = stage_move detect none ∷ [];
}

-- A request that passed its guards and the test of its lease is admitted although its Run was cancelled
-- since.
abbrev overtaken : ControlPlane
overtaken =
    work_turns no_date same_token 500 500 control_plane
      (cancels "run-1" 50 ∷ goes_on 100 "" claims (ask "one") (some start_run) (ok lease) ∷ [])

overtaken_admits : admitted_budget_usage "run-1" overtaken.rows ≡ budget
unfolding work_turns work_turn revoke_orchestrator_work revoke_run_leases revoke_permits load
    sih26_proto.Leases.Service.verify_run_lease reduce_journal_events apply_journal_event apply_body
    sih26_proto.Journal.Moves.apply_incident_transition
    sih26_proto.Transitions.is_legal_incident_transition
    sih26_proto.Journal.Moves.apply_run_transition sih26_proto.Transitions.is_legal_run_transition
    sih26_proto.Journal.Moves.apply_stage_transition sih26_proto.Stages.check_stage_records
    sih26_proto.Stages.check_from sih26_proto.Stages.check_record sih26_proto.Stages.start_check
    sih26_proto.Stages.check_enter sih26_proto.ControlPlane.Admission.already_recorded
    sih26_proto.ControlPlane.Admission.admitted_artifacts_for_stage
    sih26_proto.ControlPlane.Admission.gather_refs sih26_proto.ControlPlane.Admission.apply_work
    sih26_proto.ControlPlane.Admission.budget_state
    sih26_proto.ControlPlane.Admission.request_for_run
    sih26_proto.ControlPlane.Admission.request_guard
    sih26_proto.ControlPlane.Admission.continue_request
    sih26_proto.ControlPlane.Admission.decide_request
    sih26_proto.ControlPlane.Admission.work_requested_command apply
    sih26_proto.ControlPlane.JournalService.settled
    sih26_proto.ControlPlane.JournalService.append_journal_event
    sih26_proto.ControlPlane.JournalService.insert_row admitted_budget_usage
    sih26_proto.ControlPlane.Work.budget_exceeded_by completed_work_ids
    sih26_proto.ControlPlane.Work.current_stage last_stage_record reservation reserved_from
    sih26_proto.ControlPlane.Work.run_started_at stages_before validate_work_request
    sih26_proto.ControlPlane.Work.wall_clock_exceeded apply_journal_command
    sih26_proto.Journal.Works.apply_work_requested
overtaken_admits = refl

first_valid : validate_work_request no_date started 100 (ask "one") claims start_run ≡ ok tt
unfolding validate_work_request admitted_budget_usage reserved_from reservation completed_work_ids
    sih26_proto.ControlPlane.Work.budget_exceeded_by sih26_proto.ControlPlane.Work.current_stage
    last_stage_record sih26_proto.ControlPlane.Work.run_started_at stages_before
    sih26_proto.ControlPlane.Work.wall_clock_exceeded
first_valid = refl

validate_work_request_iff_example :
    IsPermitted started
      (100 - run_started_at no_date "run-1" started 100)
      (ask "one")
      claims
      start_run
validate_work_request_iff_example =
    (validate_work_request_iff no_date started 100 (ask "one") claims start_run).0 first_valid

abbrev since : List WorkTurn
since = requests 60 "" "t" claims (ask "one") ∷ begins_run "run-2" ∷ cancels "run-1" 70 ∷ []

run_2_is_elsewhere : ◌≢◌ {A = String} "run-1" "run-2"
run_2_is_elsewhere = ne_of_beq "run-1" "run-2" refl

request_orchestrator_work-cancelled_example :
    let stopped =
      work_turns no_date same_token 500 500
        (revoke_orchestrator_work control_plane "run-1" 50)
        since in
    request_orchestrator_work no_date same_token 500 500 stopped 100 "" "t" claims (ask "one")
    ≡ ok (err DomainError.revoked_lease, stopped)
request_orchestrator_work-cancelled_example =
    request_orchestrator_work-cancelled no_date same_token 500 500 control_plane since 50 100 "" "t"
      claims (ask "one") (tt, (run_2_is_elsewhere, (tt, tt)))

abbrev skipped_record : StageTransition
skipped_record = record (stage_move repair (some "symptom-cleared")) { to = skipped }

abbrev watching : RunRecord
watching = record {
  run_id = "run-1";
  attempt = 1;
  state = running;
  run_version = 2;
  outcome = none;
  failure_reason = none;
  restart_count = 0;
  stage_records = skipped_record ∷ stage_move watch none ∷ [];
}

abbrev watch_request : WorkRequest
watch_request = record (ask "three") { stage = watch }

repair_before : includes (stages_before watch stage_order) repair ≡ true
unfolding stages_before
repair_before = refl

repair_skipped : last_stage_record watching repair ≡ some skipped_record
unfolding last_stage_record
repair_skipped = refl

validate_work_request_skipped_example :
    validate_work_request no_date started 100 watch_request claims watching ≢ ok tt
validate_work_request_skipped_example =
    validate_work_request_skipped no_date started 100 watch_request claims watching repair
      skipped_record repair_before repair_skipped refl

abbrev pausing : JournalCommand
pausing = record {
  incident_id = "incident-7";
  idempotency_key = "pause";
  recorded_at = "";
  body = run_move (some running) RunState.paused 2;
}

abbrev after_or :
    Result (ApplyResult × CacheEntry × List JournalEvent) IntegrityError
    → ApplyResult × CacheEntry × List JournalEvent
after_or (ok after) = after
after_or (err e) =
    (ApplyResult.duplicate, record { state = initial_journal_state; events = [] }, [])

abbrev paused_after : ApplyResult × CacheEntry × List JournalEvent
paused_after = after_or (apply none started pausing)

pausing_applied : apply none started pausing ≡ ok paused_after
unfolding apply reduce_journal_events apply_journal_event apply_body
    sih26_proto.Journal.Moves.apply_incident_transition
    sih26_proto.Transitions.is_legal_incident_transition
    sih26_proto.Journal.Moves.apply_run_transition sih26_proto.Transitions.is_legal_run_transition
    sih26_proto.Journal.Moves.apply_stage_transition sih26_proto.Stages.check_stage_records
    sih26_proto.Stages.check_from sih26_proto.Stages.check_record sih26_proto.Stages.start_check
    sih26_proto.Stages.check_enter
pausing_applied = refl

abbrev loaded_entry : CacheEntry
loaded_entry = record { state = started_state; events = started }

apply-Outcome_example :
    (before : CacheEntry) × (load none started ≡ ok before)
    × Outcome started before pausing paused_after
apply-Outcome_example =
    apply-Outcome none started pausing paused_after empty (started_state, started_accepted)
      pausing_applied

abbrev services : Shared
services = record { rows = started; left = none; right = none }

services-IsShared : IsShared services
services-IsShared = record {
  replays = (started_state, started_accepted);
  left_current = empty;
  right_current = empty;
}

turns-IsShared_example :
    IsShared (turns services (left_applies pausing ∷ right_applies pausing ∷ left_invalidates ∷ []))
turns-IsShared_example =
    turns-IsShared services (left_applies pausing ∷ right_applies pausing ∷ left_invalidates ∷ [])
      services-IsShared
