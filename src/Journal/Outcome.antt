-- ===== src/Journal/Outcome.antt =====
-- packages/contracts/src/journal.ts: what a Run's stages must have come to before it completes.
use sih26_proto.Common.{
  false, Bool, ◌&&◌, Option, none, some, String, if◌then◌else◌, ◌==◌, find_last, string_eq,
  option_eq, true,
}
use sih26_proto.Result.{Result, ok, err, IntegrityError, illegal_transition}
use sih26_proto.Transitions.{RunOutcome}
use sih26_proto.Stages.{
  StageName, StageStatus, detect, diagnose, repair, verify, release, watch, stage_eq, status_eq,
  StageTransition,
}
use sih26_proto.Journal.{RunRecord}

unfoldable pub final_stage_record : RunRecord → StageName → Option StageTransition
final_stage_record run stage = find_last (λ record'. record'.stage == stage) run.stage_records

abbrev pub matches : StageStatus → Option String → Option StageTransition → Bool
matches status reason none = false
matches status none (some found) = found.to == status
matches status (some reason) (some found) = found.to == status && found.reason == some reason

unfoldable pub stage_ended_as : RunRecord → StageName → StageStatus → Option String → Bool
unfolding final_stage_record
stage_ended_as run stage status reason = matches status reason (final_stage_record run stage)

unfoldable pub detect_and_diagnose_complete : RunRecord → Bool
detect_and_diagnose_complete run =
    stage_ended_as run detect StageStatus.completed none
    && stage_ended_as run diagnose StageStatus.completed none

-- Repair, Verify and Release, skipped for one reason.
abbrev pub middle_skipped : RunRecord → String → Bool
middle_skipped run reason =
    stage_ended_as run repair StageStatus.skipped (some reason)
    && stage_ended_as run verify StageStatus.skipped (some reason)
    && stage_ended_as run release StageStatus.skipped (some reason)

abbrev pub skip_reason : RunOutcome → String
skip_reason RunOutcome.diagnosis_only = "observe-only"
skip_reason _ = "prohibited"

unfoldable pub is_coherent : RunRecord → RunOutcome → Bool
is_coherent run RunOutcome.verified_remediation =
    detect_and_diagnose_complete run
    && stage_ended_as run repair StageStatus.completed none
    && stage_ended_as run verify StageStatus.completed none
    && stage_ended_as run release StageStatus.completed none
    && stage_ended_as run watch StageStatus.completed none
is_coherent run RunOutcome.symptom_cleared =
    detect_and_diagnose_complete run
    && middle_skipped run "symptom-cleared"
    && stage_ended_as run watch StageStatus.completed none
is_coherent run outcome =
    detect_and_diagnose_complete run
    && middle_skipped run (skip_reason outcome)
    && stage_ended_as run watch StageStatus.skipped (some (skip_reason outcome))

unfoldable pub check_terminal_outcome : RunRecord → RunOutcome → Result Bool IntegrityError
unfolding is_coherent
check_terminal_outcome run outcome =
    if is_coherent run outcome then ok true else err illegal_transition
