-- ===== src/Examples/StageRun.antt =====
-- Stage records and transitions of packages/contracts/src/transitions.ts: a Run that revises its
-- candidate once.
use sih26_proto.Common.{
  ◌≡◌, ◌⊎◌, ◌↔◌, ◌≤◌, refl, String, true, false, Option, none, some, List, [], ◌∷◌, ◌++◌, length,
  includes, string_eq, arith, ◌+◌, ◌*◌,
}
use sih26_proto.Result.{Result, ok, err, IntegrityError}
use sih26_proto.Transitions.{
  RunState, opened, closed, queued, running, is_run_terminal, is_legal_run_transition,
  is_legal_incident_transition,
}
use sih26_proto.Transitions.Graph.{
  RunPath, RunEdge, IncidentEdge, is_legal_run_transition_iff, RunPath-terminal, RunPath-live,
  is_legal_incident_transition_iff, full,
}
use sih26_proto.Stages.{
  StageName, StageStatus, StageTransition, StageCheckResult, ArtifactRef, detect, diagnose, repair,
  verify, release, watch, entered, in_progress, completed, failed, skipped, stage_index,
  check_stage_records,
}
use sih26_proto.Stages.History.{
  last_status, hashes_from, check_stage_records_bounds, check_stage_records_order,
  check_stage_records_back,
}

abbrev at_ : StageName → Option StageStatus → StageStatus → Option String → StageTransition
at_ stage from to hash = record {
  stage = stage;
  from = from;
  to = to;
  reason = none;
  candidate_hash = hash;
  artifact_ref = none;
}

abbrev done_stage : StageName → List StageTransition
done_stage stage =
    at_ stage none entered none
    ∷ at_ stage (some entered) in_progress none
    ∷ at_ stage (some in_progress) completed none
    ∷ []

abbrev failing : StageTransition
failing = at_ verify (some in_progress) failed none

abbrev so_far : List StageTransition
so_far =
    done_stage detect
    ++ (done_stage diagnose
        ++ (at_ repair none entered (some "hash-a")
            ∷ at_ repair (some entered) in_progress none
            ∷ at_ repair (some in_progress) completed none
            ∷ at_ verify none entered none
            ∷ at_ verify (some entered) in_progress none
            ∷ []))

abbrev revising : StageTransition
revising = at_ repair (some completed) entered (some "hash-b")

abbrev result_or : Result StageCheckResult IntegrityError → StageCheckResult
result_or (ok c) = c
result_or (err e) = record { revisions = 0; candidate_hashes = []; final_stage = none }

abbrev checked : StageCheckResult
checked = result_or (check_stage_records ((so_far ++ failing ∷ []) ++ revising ∷ []) (some 2))

revision_accepted :
    check_stage_records ((so_far ++ failing ∷ []) ++ revising ∷ []) (some 2) ≡ ok checked
unfolding check_stage_records sih26_proto.Stages.check_from sih26_proto.Stages.check_record
    sih26_proto.Stages.start_check sih26_proto.Stages.check_enter sih26_proto.Stages.check_progress
    sih26_proto.Stages.check_revision
revision_accepted = refl

check_stage_records_bounds_example :
    (checked.revisions ≤ 2) × (length ((so_far ++ failing ∷ []) ++ revising ∷ []) ≤ 18 + 6 * 2)
check_stage_records_bounds_example =
    check_stage_records_bounds ((so_far ++ failing ∷ []) ++ revising ∷ []) (some 2)
      revision_accepted

check_stage_records_order_example :
    (last_status detect none ((so_far ++ failing ∷ []) ++ revising ∷ []) ≡ some completed)
    ⊎ (last_status detect none ((so_far ++ failing ∷ []) ++ revising ∷ []) ≡ some skipped)
check_stage_records_order_example =
    check_stage_records_order (so_far ++ failing ∷ []) revising (some 2) detect revision_accepted
      (omega arith)

check_stage_records_back_example :
    (failing.stage ≡ verify)
    × (failing.to ≡ failed)
    × (revising.stage ≡ repair)
    × (revising.to ≡ entered)
    × (hash : String) × (revising.candidate_hash ≡ some hash)
    × (includes (hashes_from [] (so_far ++ failing ∷ [])) hash ≡ false)
check_stage_records_back_example =
    check_stage_records_back so_far failing revising (some 2) revision_accepted (omega arith)

is_legal_run_transition_iff_example :
    (is_legal_run_transition (some queued) running full ≡ ok true) ↔ RunEdge full queued running
is_legal_run_transition_iff_example = is_legal_run_transition_iff queued running full

cancelled_path : RunPath RunState.cancelled RunState.cancelled
cancelled_path = RunPath.here

cancelled_terminal : is_run_terminal RunState.cancelled ≡ true
unfolding is_run_terminal
cancelled_terminal = refl

RunPath-terminal_example : RunState.cancelled ≡ RunState.cancelled
RunPath-terminal_example = RunPath-terminal cancelled_path cancelled_terminal

paused_goes_on : is_run_terminal RunState.paused ≡ false
unfolding is_run_terminal
paused_goes_on = refl

RunPath-live_example : RunPath RunState.paused RunState.cancelled
RunPath-live_example =
    RunPath-live RunState.paused RunState.cancelled paused_goes_on cancelled_terminal

is_legal_incident_transition_iff_example :
    (is_legal_incident_transition (some opened) closed full ≡ ok true)
    ↔ IncidentEdge full opened closed
is_legal_incident_transition_iff_example = is_legal_incident_transition_iff opened closed full
