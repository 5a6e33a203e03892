-- ===== src/Examples/JournalRun.antt =====
-- A journal of packages/contracts/src/journal.ts: an Incident is opened, its first Run starts and
-- fails, and a command asks for the second.
use sih26_proto.Transitions.{
  is_run_terminal, RunState, RunFailureReason, ClosureReason, closed, opened, resolved, queued,
  running,
}
use sih26_proto.Common.{ℕ, ◌≡◌, refl, String, Option, none, some, List, [], ◌∷◌, ◌++◌}
use sih26_proto.Result.{Result, ok, err, IntegrityError}
use sih26_proto.Stages.{StageTransition, detect, entered}
use sih26_proto.Journal.{
  JournalState, JournalEvent, JournalCommand, RunRecord, Body, RunTransition, initial_journal_state,
  incident_transition, run_transition, stage_transition, human_action,
}
use sih26_proto.Journal.Replay.{
  reduce_journal_events, reduce_from, apply_journal_command, verify_journal_sequence, verify_from,
}
use sih26_proto.Journal.Reducer.{apply_journal_event, apply_body}
use sih26_proto.Journal.Invariant.{IsGood}
use sih26_proto.Journal.Replayed.{reduce_journal_events-IsGood}
use sih26_proto.Journal.Commands.{apply_journal_command_twice, apply_journal_command-replay}
use sih26_proto.Journal.Finality.{HasEndedAs, reduce_from-ended, IsClosedWith, reduce_from-closed}

abbrev event : ℕ → String → Body → JournalEvent
event sequence key body = record {
  incident_id = "incident-1";
  sequence = sequence;
  idempotency_key = key;
  recorded_at = "2026-01-01T00:00:00Z";
  body = body;
}

abbrev opening : Body
opening =
    incident_transition
      (record { from = none; to = opened; expected_version = 0; closure_reason = none })

abbrev run_move : String → ℕ → Option RunState → RunState → ℕ → Option RunFailureReason → Body
run_move id attempt from to version reason = run_transition (record {
  run_id = id;
  attempt = attempt;
  from = from;
  to = to;
  expected_run_version = version;
  outcome = none;
  failure_reason = reason;
  restart_count = none;
})

abbrev entering : Body
entering = stage_transition "run-1" 1 (record {
  stage = detect;
  from = none;
  to = entered;
  reason = none;
  candidate_hash = none;
  artifact_ref = none;
})

abbrev log : List JournalEvent
log =
    event 1 "k1" opening
    ∷ event 2 "k2" (run_move "run-1" 1 none queued 0 none)
    ∷ event 3 "k3" (run_move "run-1" 1 (some queued) running 1 none)
    ∷ event 4 "k4" entering
    ∷ event 5 "k5"
        (run_move "run-1" 1 (some running) RunState.failed 2 (some RunFailureReason.undiagnosable))
    ∷ []

abbrev state_or : JournalState → Result JournalState IntegrityError → JournalState
state_or s (ok changed) = changed
state_or s (err e) = s

abbrev logged : JournalState
logged = state_or initial_journal_state (reduce_journal_events log)

log_accepted : reduce_journal_events log ≡ ok logged
unfolding apply_journal_command is_run_terminal reduce_journal_events verify_journal_sequence
    verify_from reduce_from initial_journal_state apply_journal_event apply_body
    sih26_proto.Journal.Moves.apply_incident_transition
    sih26_proto.Transitions.is_legal_incident_transition
    sih26_proto.Journal.Moves.apply_run_transition sih26_proto.Transitions.is_legal_run_transition
    sih26_proto.Journal.Moves.apply_stage_transition sih26_proto.Stages.check_stage_records
    sih26_proto.Stages.check_from sih26_proto.Stages.check_record sih26_proto.Stages.start_check
    sih26_proto.Stages.check_enter
log_accepted = refl

reduce_journal_events-IsGood_example : IsGood logged
reduce_journal_events-IsGood_example = reduce_journal_events-IsGood log log_accepted

abbrev second_run : JournalCommand
second_run = record {
  incident_id = "incident-1";
  idempotency_key = "k6";
  recorded_at = "2026-01-01T00:00:00Z";
  body = run_move "run-2" 2 none queued 0 none;
}

abbrev pair_or :
    JournalState × Option JournalEvent
    → Result (JournalState × Option JournalEvent) IntegrityError
    → JournalState × Option JournalEvent
pair_or p (ok pair) = pair
pair_or p (err e) = p

abbrev asked : JournalState
asked = (pair_or (initial_journal_state, none) (apply_journal_command logged second_run)).0

abbrev added : JournalEvent
added = event 6 "k6" (run_move "run-2" 2 none queued 0 none)

second_accepted : apply_journal_command logged second_run ≡ ok (asked, some added)
unfolding apply_journal_command is_run_terminal reduce_journal_events verify_journal_sequence
    verify_from reduce_from initial_journal_state apply_journal_event apply_body
    sih26_proto.Journal.Moves.apply_incident_transition
    sih26_proto.Transitions.is_legal_incident_transition
    sih26_proto.Journal.Moves.apply_run_transition sih26_proto.Transitions.is_legal_run_transition
    sih26_proto.Journal.Moves.apply_stage_transition sih26_proto.Stages.check_stage_records
    sih26_proto.Stages.check_from sih26_proto.Stages.check_record sih26_proto.Stages.start_check
    sih26_proto.Stages.check_enter
second_accepted = refl

apply_journal_command_twice_example : apply_journal_command asked second_run ≡ ok (asked, none)
apply_journal_command_twice_example = apply_journal_command_twice logged second_run second_accepted

apply_journal_command-replay_example : reduce_journal_events (log ++ added ∷ []) ≡ ok asked
apply_journal_command-replay_example =
    apply_journal_command-replay log logged second_run asked added log_accepted second_accepted

abbrev failed_run : RunRecord
failed_run = record {
  run_id = "run-1";
  attempt = 1;
  state = RunState.failed;
  run_version = 3;
  outcome = none;
  failure_reason = some RunFailureReason.undiagnosable;
  restart_count = 0;
  stage_records =
      record {
        stage = detect;
        from = none;
        to = entered;
        reason = none;
        candidate_hash = none;
        artifact_ref = none;
      }
      ∷ [];
}

abbrev later : List JournalEvent
later = added ∷ []

abbrev afterwards : JournalState
afterwards = state_or initial_journal_state (reduce_from logged later)

later_accepted : reduce_from logged later ≡ ok afterwards
unfolding apply_journal_command is_run_terminal reduce_journal_events verify_journal_sequence
    verify_from reduce_from initial_journal_state apply_journal_event apply_body
    sih26_proto.Journal.Moves.apply_incident_transition
    sih26_proto.Transitions.is_legal_incident_transition
    sih26_proto.Journal.Moves.apply_run_transition sih26_proto.Transitions.is_legal_run_transition
    sih26_proto.Journal.Moves.apply_stage_transition sih26_proto.Stages.check_stage_records
    sih26_proto.Stages.check_from sih26_proto.Stages.check_record sih26_proto.Stages.start_check
    sih26_proto.Stages.check_enter
later_accepted = refl

run_failed : HasEndedAs logged "run-1" failed_run
unfolding apply_journal_command is_run_terminal reduce_journal_events verify_journal_sequence
    verify_from reduce_from initial_journal_state apply_journal_event apply_body
    sih26_proto.Journal.Moves.apply_incident_transition
    sih26_proto.Transitions.is_legal_incident_transition
    sih26_proto.Journal.Moves.apply_run_transition sih26_proto.Transitions.is_legal_run_transition
    sih26_proto.Journal.Moves.apply_stage_transition sih26_proto.Stages.check_stage_records
    sih26_proto.Stages.check_from sih26_proto.Stages.check_record sih26_proto.Stages.start_check
    sih26_proto.Stages.check_enter
run_failed = (refl, refl)

reduce_from-ended_example : HasEndedAs afterwards "run-1" failed_run
reduce_from-ended_example =
    reduce_from-ended logged later afterwards "run-1" failed_run later_accepted run_failed

abbrev closing : List JournalEvent
closing =
    event 6 "k7" (
      incident_transition (record {
        from = some opened;
        to = closed;
        expected_version = 1;
        closure_reason = some ClosureReason.human_closed;
      }))
    ∷ []

abbrev shut : JournalState
shut = state_or initial_journal_state (reduce_from logged closing)

abbrev remark : List JournalEvent
remark = event 7 "k8" (human_action (some "run-1")) ∷ []

abbrev remarked : JournalState
remarked = state_or initial_journal_state (reduce_from shut remark)

remark_accepted : reduce_from shut remark ≡ ok remarked
unfolding apply_journal_command is_run_terminal reduce_journal_events verify_journal_sequence
    verify_from reduce_from initial_journal_state apply_journal_event apply_body
    sih26_proto.Journal.Moves.apply_incident_transition
    sih26_proto.Transitions.is_legal_incident_transition
    sih26_proto.Journal.Moves.apply_run_transition sih26_proto.Transitions.is_legal_run_transition
    sih26_proto.Journal.Moves.apply_stage_transition sih26_proto.Stages.check_stage_records
    sih26_proto.Stages.check_from sih26_proto.Stages.check_record sih26_proto.Stages.start_check
    sih26_proto.Stages.check_enter
remark_accepted = refl

shut_is_closed : IsClosedWith shut 2 1
unfolding apply_journal_command is_run_terminal reduce_journal_events verify_journal_sequence
    verify_from reduce_from initial_journal_state apply_journal_event apply_body
    sih26_proto.Journal.Moves.apply_incident_transition
    sih26_proto.Transitions.is_legal_incident_transition
    sih26_proto.Journal.Moves.apply_run_transition sih26_proto.Transitions.is_legal_run_transition
    sih26_proto.Journal.Moves.apply_stage_transition sih26_proto.Stages.check_stage_records
    sih26_proto.Stages.check_from sih26_proto.Stages.check_record sih26_proto.Stages.start_check
    sih26_proto.Stages.check_enter
shut_is_closed = (refl, refl, refl)

reduce_from-closed_example : IsClosedWith remarked 2 1
reduce_from-closed_example =
    reduce_from-closed shut remark remarked 2 1 remark_accepted shut_is_closed
