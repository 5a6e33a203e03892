-- ===== src/Journal.antt =====
-- packages/contracts/src/journal.ts: the state of one Incident, rebuilt from its journal, over the
-- events of packages/contracts/src/schemas/journal-event.ts. The state is a value, as the source's
-- clone of it before each event makes it; a field that the reducer does not read is left out of an
-- event. A set is the list of its members.
pub mod Outcome
pub mod Moves
pub mod Works
pub mod Reducer
pub mod Replay
pub mod Changes
pub mod RunList
pub mod Invariant
pub mod Replayed
pub mod Commands
pub mod Finality
use sih26_proto.Common.{
  ℕ, suc, nat_eq, string_eq, option_eq, ◌+◌, String, Bool, true, false, not, ◌&&◌, ◌||◌, Option,
  none, some, List, [], ◌∷◌, ◌++◌, if◌then◌else◌, is_some, get_or, Eq, ◌==◌, ◌!=◌, includes, length,
  any, all, find, find_last, update_first, set_add,
}
use sih26_proto.Result.{
  Result, ok, err, ◌>>=◌, IntegrityError, illegal_transition, duplicate_transition, bad_sequence,
  require,
}
use sih26_proto.Transitions.{
  IncidentState, RunState, RunOutcome, RunFailureReason, ClosureReason, closed, running,
  TransitionOptions, incident_eq, run_eq, is_legal_incident_transition, is_legal_run_transition,
  is_run_terminal,
}
use sih26_proto.Stages.{
  StageName, StageStatus, detect, diagnose, repair, verify, release, watch, stage_eq, status_eq,
  ArtifactRef, StageTransition, check_stage_records,
}

pub data DetectorState : Type 0 where
  firing resolved : DetectorState

pub record RunRecord : Type 0 where
  pub run_id : String
  pub attempt : ℕ
  pub state : RunState
  pub run_version : ℕ
  pub outcome : Option RunOutcome
  pub failure_reason : Option RunFailureReason
  pub restart_count : ℕ
  pub stage_records : List StageTransition

pub data WorkStatus : Type 0 where
  admitted rejected completed : WorkStatus

pub record WorkBudget : Type 0 where
  pub model_turns : ℕ
  pub non_terminal_tool_calls : ℕ
  pub session_wall_clock_ms : ℕ
  pub run_wall_clock_ms : ℕ

pub record WorkRecord : Type 0 where
  pub request_id : String
  pub work_id : String
  pub run_id : String
  pub attempt : ℕ
  pub stage : StageName
  pub status : WorkStatus
  pub depends_on : List String
  pub budget : WorkBudget
  pub artifact_refs : List ArtifactRef

pub record SealedArtifact : Type 0 where
  pub run_id : Option String
  pub artifact_ref : ArtifactRef

pub record JournalState : Type 0 where
  pub incident_id : Option String
  pub incident_version : ℕ
  pub incident_state : Option IncidentState
  pub detector_state : Option DetectorState
  pub closure_reason : Option ClosureReason
  pub attempts_used : ℕ
  pub next_sequence : ℕ
  pub runs : List RunRecord
  pub work_records : List WorkRecord
  pub sealed_artifacts : List SealedArtifact
  pub seen_idempotency_keys : List String

pub record IncidentTransition : Type 0 where
  pub from : Option IncidentState
  pub to : IncidentState
  pub expected_version : ℕ
  pub closure_reason : Option ClosureReason

pub record RunTransition : Type 0 where
  pub run_id : String
  pub attempt : ℕ
  pub from : Option RunState
  pub to : RunState
  pub expected_run_version : ℕ
  pub outcome : Option RunOutcome
  pub failure_reason : Option RunFailureReason
  pub restart_count : Option ℕ

pub record WorkCompletion : Type 0 where
  pub run_id : String
  pub attempt : ℕ
  pub work_id : String
  pub artifact_refs : List ArtifactRef

-- The variants of an event, with their own fields. A request's status is `admitted` or `rejected`.
pub data Body : Type 0 where
  trigger_received : DetectorState → Body
  incident_transition : IncidentTransition → Body
  run_transition : RunTransition → Body
  stage_transition : (run_id : String) (attempt : ℕ) → StageTransition → Body
  artifact_sealed : (run_id : Option String) → ArtifactRef → Body
  broker_receipt_recorded : (run_id : Option String) → Body
  gate_evaluated : (run_id : Option String) → Body
  policy_decision : (run_id : Option String) → Body
  lease_event : (run_id : Option String) → Body
  approval_recorded : (run_id : Option String) → Body
  human_action : (run_id : Option String) → Body
  model_use : (run_id : Option String) → Body
  work_requested : WorkRecord → Body
  work_completed : WorkCompletion → Body

pub record JournalEvent : Type 0 where
  pub incident_id : String
  pub sequence : ℕ
  pub idempotency_key : String
  pub recorded_at : String
  pub body : Body

pub record JournalCommand : Type 0 where
  pub incident_id : String
  pub idempotency_key : String
  pub recorded_at : String
  pub body : Body

unfoldable pub initial_journal_state : JournalState
initial_journal_state = record {
  incident_id = none;
  incident_version = 0;
  incident_state = none;
  detector_state = none;
  closure_reason = none;
  attempts_used = 0;
  next_sequence = 1;
  runs = [];
  work_records = [];
  sealed_artifacts = [];
  seen_idempotency_keys = [];
}

abbrev pub has_run_id : String → RunRecord → Bool
has_run_id id run = run.run_id == id

abbrev pub find_run : String → List RunRecord → Option RunRecord
find_run id runs = find (has_run_id id) runs

abbrev pub is_active : RunRecord → Bool
is_active run = not (is_run_terminal run.state)

unfoldable pub check_incident : JournalState → String → Result Bool IntegrityError
check_incident s id =
    if s.incident_id == none || s.incident_id == some id then ok true else err illegal_transition

unfoldable pub check_run_id : JournalState → Option String → Result Bool IntegrityError
check_run_id s none = ok true
check_run_id s (some id) = if is_some (find_run id s.runs) then ok true else err illegal_transition
