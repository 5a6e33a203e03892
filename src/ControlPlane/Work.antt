-- ===== src/ControlPlane/Work.antt =====
-- apps/control-plane/src/core/state-machine.ts: what the admission of an Orchestrator's work reads from
-- the journal of an Incident, and `validateWorkRequest`. `date_parse` is `Date.parse`, where it gives a
-- number that is finite, in milliseconds.
use sih26_proto.Common.{
  ℕ, nat_eq, string_eq, option_eq, ◌+◌, ◌-◌, String, Bool, false, not, ◌&&◌, ◌||◌, Option, none,
  some, List, [], ◌∷◌, if◌then◌else◌, get_or, ltb, leb, ◌==◌, ◌!=◌, includes, all, find, find_last,
}
use sih26_proto.Result.{Result, ok, err}
use sih26_proto.Stages.{
  StageName, detect, diagnose, repair, verify, release, watch, completed, skipped, stage_eq,
  status_eq, StageTransition,
}
use sih26_proto.Transitions.{running, run_eq}
use sih26_proto.Journal.{
  RunRecord, WorkBudget, WorkRecord, WorkCompletion, Body, JournalEvent, run_transition,
  work_requested, work_completed,
}
use sih26_proto.Journal.Works.{is_admitted}
use sih26_proto.Leases.{LeaseClaims, DomainError}

pub record WorkRequest : Type 0 where
  pub request_id : String
  pub work_id : String
  pub stage : StageName
  pub attempt : ℕ
  pub depends_on : List String
  pub budget : WorkBudget

abbrev pub run_wall_clock_limit : ℕ
run_wall_clock_limit = 7200000

abbrev pub model_turn_limit : ℕ
model_turn_limit = 20

abbrev pub tool_call_limit : ℕ
tool_call_limit = 32

abbrev pub session_wall_clock_limit : ℕ
session_wall_clock_limit = 720000

abbrev pub stage_order : List StageName
stage_order = detect ∷ diagnose ∷ repair ∷ verify ∷ release ∷ watch ∷ []

abbrev pub stage_text : StageName → String
stage_text detect = "detect"
stage_text diagnose = "diagnose"
stage_text repair = "repair"
stage_text verify = "verify"
stage_text release = "release"
stage_text watch = "watch"

-- `STAGE_ORDER.slice(0, STAGE_ORDER.indexOf(stage))`
unfoldable pub stages_before : StageName → List StageName → List StageName
stages_before stage [] = []
stages_before stage (s ∷ ss) =
    let rest = stages_before stage ss in if s == stage then [] else s ∷ rest

unfoldable pub last_stage_record : RunRecord → StageName → Option StageTransition
last_stage_record run stage = find_last (λ r. r.stage == stage) run.stage_records

abbrev pub is_over : Option StageTransition → Bool
is_over none = false
is_over (some r) = r.to == completed || r.to == skipped

abbrev pub has_completed : Option StageTransition → Bool
has_completed none = false
has_completed (some r) = r.to == completed

-- The first stage that is neither completed nor skipped.
unfoldable pub current_stage : RunRecord → Option StageName
unfolding last_stage_record
current_stage run = find (λ stage. not (is_over (last_stage_record run stage))) stage_order

abbrev pub completion_of : String → Body → Option WorkCompletion
completion_of run_id (work_completed c) = if c.run_id == run_id then some c else none
completion_of run_id _ = none

abbrev pub request_of : String → Body → Option WorkRecord
request_of run_id (work_requested w) = if w.run_id == run_id then some w else none
request_of run_id _ = none

abbrev pub completed_id : List String → Option WorkCompletion → List String
completed_id ids none = ids
completed_id ids (some c) = c.work_id ∷ ids

unfoldable pub completed_work_ids : String → List JournalEvent → List String
completed_work_ids run_id [] = []
completed_work_ids run_id (e ∷ es) =
    completed_id (completed_work_ids run_id es) (completion_of run_id e.body)

abbrev pub no_budget : WorkBudget
no_budget = record {
  model_turns = 0;
  non_terminal_tool_calls = 0;
  session_wall_clock_ms = 0;
  run_wall_clock_ms = 0;
}

abbrev pub add_budget : WorkBudget → WorkBudget → WorkBudget
add_budget a b = record {
  model_turns = a.model_turns + b.model_turns;
  non_terminal_tool_calls = a.non_terminal_tool_calls + b.non_terminal_tool_calls;
  session_wall_clock_ms = a.session_wall_clock_ms + b.session_wall_clock_ms;
  run_wall_clock_ms = a.run_wall_clock_ms + b.run_wall_clock_ms;
}

-- What an event's request holds of the budget: one that was admitted and is not completed.
unfoldable pub reservation : List String → Option WorkRecord → WorkBudget
reservation done none = no_budget
reservation done (some w) =
    if not (is_admitted w.status) || includes done w.work_id then no_budget else w.budget

unfoldable pub reserved_from : List String → String → List JournalEvent → WorkBudget
reserved_from done run_id [] = no_budget
reserved_from done run_id (e ∷ es) =
    add_budget (reservation done (request_of run_id e.body)) (reserved_from done run_id es)

unfoldable pub admitted_budget_usage : String → List JournalEvent → WorkBudget
admitted_budget_usage run_id events = reserved_from (completed_work_ids run_id events) run_id events

abbrev pub starts_run : String → Body → Bool
starts_run run_id (run_transition t) = t.run_id == run_id && t.to == running
starts_run run_id _ = false

-- `x < 1 || x > limit`
abbrev pub is_out_of_range : ℕ → ℕ → Bool
is_out_of_range limit x = ltb x 1 || ltb limit x

-- `budget.x > limit - reserved.x` on integers
abbrev pub exceeds : ℕ → ℕ → ℕ → Bool
exceeds limit reserved x = ltb limit (x + reserved)

unfoldable pub budget_exceeded_by : WorkBudget → WorkBudget → Bool
budget_exceeded_by reserved budget =
    is_out_of_range model_turn_limit budget.model_turns
    || is_out_of_range tool_call_limit budget.non_terminal_tool_calls
    || is_out_of_range session_wall_clock_limit budget.session_wall_clock_ms
    || is_out_of_range run_wall_clock_limit budget.run_wall_clock_ms
    || exceeds model_turn_limit reserved.model_turns budget.model_turns
    || exceeds tool_call_limit reserved.non_terminal_tool_calls budget.non_terminal_tool_calls
    || exceeds session_wall_clock_limit reserved.session_wall_clock_ms budget.session_wall_clock_ms

-- The run's clock: `budget.x > limit - elapsed - reserved.x` on integers.
unfoldable pub wall_clock_exceeded : (elapsed : ℕ) → WorkBudget → WorkBudget → Bool
wall_clock_exceeded elapsed reserved budget =
    leb run_wall_clock_limit elapsed
    || ltb run_wall_clock_limit (budget.run_wall_clock_ms + elapsed + reserved.run_wall_clock_ms)

module _ (date_parse : String → Option ℕ) where
  abbrev started_by : ℕ → Option JournalEvent → ℕ
  started_by now none = now
  started_by now (some e) = get_or (date_parse e.recorded_at) now

  unfoldable pub run_started_at : String → List JournalEvent → (now : ℕ) → ℕ
  run_started_at run_id events now = started_by now (find (λ e. starts_run run_id e.body) events)

  -- The failure, where the request is refused.
  unfoldable pub validate_work_request :
      List JournalEvent
      → (now : ℕ) → WorkRequest
      → LeaseClaims
      → RunRecord
      → Result (Unit {0}) DomainError
  validate_work_request events now request claims run =
      if request.attempt != run.attempt
      then err DomainError.stale_attempt
      else if stage_text request.stage != claims.stage
      then err DomainError.wrong_stage
      else if current_stage run != some request.stage
      then err DomainError.wrong_stage
      else if not (
          all (λ stage. has_completed (last_stage_record run stage))
            (stages_before request.stage stage_order))
      then err DomainError.prerequisite_missing
      else if not (all (includes (completed_work_ids claims.run_id events)) request.depends_on)
      then err DomainError.prerequisite_missing
      else if budget_exceeded_by (admitted_budget_usage claims.run_id events) request.budget
      then err DomainError.budget_exceeded
      else if wall_clock_exceeded (now - run_started_at claims.run_id events now)
          (admitted_budget_usage claims.run_id events) request.budget
      then err DomainError.budget_exceeded
      else ok tt
