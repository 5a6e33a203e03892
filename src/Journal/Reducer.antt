-- ===== src/Journal/Reducer.antt =====
-- packages/contracts/src/journal.ts: the application of one event to the state. `apply_body` is the
-- `switch` over the variants of an event.
use sih26_proto.Common.{
  nat_eq, string_eq, option_eq, String, Option, none, some, [], ◌∷◌, ◌++◌, if◌then◌else◌, get_or,
  ◌==◌,
}
use sih26_proto.Transitions.{incident_eq, run_eq}
use sih26_proto.Result.{Result, ok, ◌>>◌, IntegrityError}
use sih26_proto.Journal.Moves.{
  apply_incident_transition, apply_run_transition, apply_stage_transition,
}
use sih26_proto.Journal.Works.{apply_work_requested, apply_work_completed}
use sih26_proto.Journal.{
  JournalState, Body, JournalEvent, check_incident, check_run_id, trigger_received,
  incident_transition, run_transition, stage_transition, artifact_sealed, broker_receipt_recorded,
  gate_evaluated, policy_decision, lease_event, approval_recorded, human_action, model_use,
  work_requested, work_completed,
}

-- The `run_id` of an event, which must be known unless the event creates the Run.
abbrev pub known_run : Body → Option String
known_run (trigger_received detector) = none
known_run (incident_transition e) = none
known_run (run_transition e) = if e.from == none then none else some e.run_id
known_run (stage_transition id attempt r) = some id
known_run (artifact_sealed id artifact) = id
known_run (broker_receipt_recorded id) = id
known_run (gate_evaluated id) = id
known_run (policy_decision id) = id
known_run (lease_event id) = id
known_run (approval_recorded id) = id
known_run (human_action id) = id
known_run (model_use id) = id
known_run (work_requested e) = some e.run_id
known_run (work_completed e) = some e.run_id

unfoldable pub apply_body : JournalState → Body → Result JournalState IntegrityError
apply_body s (trigger_received detector) = ok (record s { detector_state = some detector })
apply_body s (incident_transition e) = apply_incident_transition s e
apply_body s (run_transition e) = apply_run_transition s e
apply_body s (stage_transition id attempt r) = apply_stage_transition s id attempt r
apply_body s (artifact_sealed id artifact) = ok (record s {
  sealed_artifacts = s.sealed_artifacts ++ record { run_id = id; artifact_ref = artifact } ∷ [];
})
apply_body s (broker_receipt_recorded id) = ok s
apply_body s (gate_evaluated id) = ok s
apply_body s (policy_decision id) = ok s
apply_body s (lease_event id) = ok s
apply_body s (approval_recorded id) = ok s
apply_body s (human_action id) = ok s
apply_body s (model_use id) = ok s
apply_body s (work_requested e) = apply_work_requested s e
apply_body s (work_completed e) = apply_work_completed s e

-- `state.incidentId ??= event.incident_id`
abbrev pub with_incident : JournalState → String → JournalState
with_incident s id = record s { incident_id = some (get_or s.incident_id id) }

unfoldable pub apply_journal_event :
    JournalState → JournalEvent → Result JournalState IntegrityError
unfolding check_incident check_run_id
apply_journal_event s e =
    check_incident s e.incident_id
    >> (check_run_id (with_incident s e.incident_id) (known_run e.body)
        >> apply_body (with_incident s e.incident_id) e.body)
