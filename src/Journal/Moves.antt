-- ===== src/Journal/Moves.antt =====
-- packages/contracts/src/journal.ts: the transitions of an Incident, of its Runs and of their stages.
use sih26_proto.Common.{
  ℕ, nat_eq, string_eq, option_eq, String, Bool, true, ◌+◌, ◌||◌, Option, none, some, [], ◌∷◌, ◌++◌,
  if◌then◌else◌, is_some, get_or, ◌==◌, ◌!=◌, length, any, update_first,
}
use sih26_proto.Transitions.{
  RunState, closed, running, TransitionOptions, incident_eq, run_eq, is_legal_incident_transition,
  is_legal_run_transition,
}
use sih26_proto.Stages.{StageTransition, check_stage_records}
use sih26_proto.Journal.Outcome.{check_terminal_outcome}
use sih26_proto.Result.{Result, ok, err, ◌>>=◌, ◌>>◌, IntegrityError, illegal_transition, require}
use sih26_proto.Journal.{
  RunRecord, JournalState, IncidentTransition, RunTransition, has_run_id, find_run, is_active,
}

-- What is left of an Incident transition once it is known to be legal.
unfoldable pub move_incident :
    JournalState → IncidentTransition → Result JournalState IntegrityError
move_incident s e =
    if e.from != s.incident_state
    then err illegal_transition
    else if e.expected_version != s.incident_version
    then err illegal_transition
    else ok (record s {
      incident_state = some e.to;
      incident_version = s.incident_version + 1;
      closure_reason = if e.to == closed then e.closure_reason else s.closure_reason;
    })

abbrev pub incident_options : IncidentTransition → TransitionOptions
incident_options e = record {
  closure_reason = e.closure_reason;
  outcome = none;
  failure_reason = none;
}

unfoldable pub apply_incident_transition :
    JournalState → IncidentTransition → Result JournalState IntegrityError
unfolding move_incident
apply_incident_transition s e =
    is_legal_incident_transition e.from e.to (incident_options e) >> move_incident s e

abbrev pub no_options : TransitionOptions
no_options = record { closure_reason = none; outcome = none; failure_reason = none }

abbrev pub new_run : RunTransition → RunRecord
new_run e = record {
  run_id = e.run_id;
  attempt = e.attempt;
  state = e.to;
  run_version = 1;
  outcome = none;
  failure_reason = none;
  restart_count = get_or e.restart_count 0;
  stage_records = [];
}

-- `attempt` is serial, and a Run starts while no other is active.
unfoldable pub create_run : JournalState → RunTransition → Result JournalState IntegrityError
create_run s e =
    if is_some (find_run e.run_id s.runs)
    then err illegal_transition
    else if s.incident_state == some closed
    then err illegal_transition
    else if any is_active s.runs
    then err illegal_transition
    else if e.attempt != length s.runs + 1
    then err illegal_transition
    else if e.expected_run_version != 0
    then err illegal_transition
    else (is_legal_run_transition none e.to no_options
        >> ok (record s { runs = s.runs ++ new_run e ∷ [] }))

-- `if (event.outcome !== undefined) run.outcome = event.outcome`, and so on.
abbrev pub or_else {ℓ} : {A : Type ℓ} → Option A → Option A → Option A
or_else (some a) old = some a
or_else none old = old

abbrev pub moved_run : RunTransition → RunRecord → RunRecord
moved_run e run = record run {
  state = e.to;
  run_version = run.run_version + 1;
  outcome = or_else e.outcome run.outcome;
  failure_reason = or_else e.failure_reason run.failure_reason;
  restart_count = get_or e.restart_count run.restart_count;
}

unfoldable pub check_completion : RunTransition → RunRecord → Result Bool IntegrityError
check_completion e run =
    if e.to == RunState.completed
    then require illegal_transition e.outcome >>= check_terminal_outcome run
    else ok true

abbrev pub run_options : RunTransition → TransitionOptions
run_options e = record {
  closure_reason = none;
  outcome = e.outcome;
  failure_reason = e.failure_reason;
}

abbrev pub is_ending : RunState → Bool
is_ending state = state == RunState.completed || state == RunState.failed

abbrev pub with_moved_run : JournalState → RunTransition → JournalState
with_moved_run s e = record s {
  runs = update_first (has_run_id e.run_id) (moved_run e) s.runs;
  attempts_used = if is_ending e.to then s.attempts_used + 1 else s.attempts_used;
}

unfoldable pub move_found_run :
    JournalState → RunTransition → RunRecord → Result JournalState IntegrityError
unfolding check_completion
move_found_run s e run =
    if e.attempt != run.attempt
    then err illegal_transition
    else if e.from != some run.state
    then err illegal_transition
    else if e.expected_run_version != run.run_version
    then err illegal_transition
    else (is_legal_run_transition e.from e.to (run_options e)
        >> (check_completion e run >> ok (with_moved_run s e)))

unfoldable pub move_run : JournalState → RunTransition → Result JournalState IntegrityError
unfolding move_found_run
move_run s e = require illegal_transition (find_run e.run_id s.runs) >>= move_found_run s e

unfoldable pub apply_run_transition :
    JournalState → RunTransition → Result JournalState IntegrityError
unfolding create_run move_run
apply_run_transition s e =
    if s.incident_state == none
    then err illegal_transition
    else if e.from == none
    then create_run s e
    else move_run s e

abbrev pub push_record : StageTransition → RunRecord → RunRecord
push_record r run = record run { stage_records = run.stage_records ++ r ∷ [] }

unfoldable pub stage_found_run :
    JournalState → String → ℕ → StageTransition → RunRecord → Result JournalState IntegrityError
stage_found_run s id attempt r run =
    if attempt != run.attempt
    then err illegal_transition
    else if run.state != running
    then err illegal_transition
    else (check_stage_records (run.stage_records ++ r ∷ []) (some 2)
        >> ok (record s { runs = update_first (has_run_id id) (push_record r) s.runs }))

unfoldable pub apply_stage_transition :
    JournalState → String → ℕ → StageTransition → Result JournalState IntegrityError
unfolding stage_found_run
apply_stage_transition s id attempt r =
    require illegal_transition (find_run id s.runs) >>= stage_found_run s id attempt r
