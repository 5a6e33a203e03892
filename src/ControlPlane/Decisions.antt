-- ===== src/ControlPlane/Decisions.antt =====
-- apps/control-plane/src/core/state-machine.ts, `validateWorkRequest`: stages behind one that was skipped.
use sih26_proto.Common.{
  eq_of_beq, ℕ, string_eq, nat_eq, option_eq, ◌≡◌, ◌≢◌, refl, ap, ◌∙◌, String, Bool, true, false,
  ◌&&◌, Option, some, List, [], ◌∷◌, includes, Bool-cases, inl, inr, ◌==◌, all,
}
use sih26_proto.Result.{ok}
use sih26_proto.Stages.{StageName, stage_eq, status_eq, StageTransition, skipped, completed}
use sih26_proto.Journal.{RunRecord, JournalEvent}
use sih26_proto.Leases.{LeaseClaims}
use sih26_proto.ControlPlane.Work.{
  WorkRequest, stage_order, stages_before, last_stage_record, has_completed, validate_work_request,
}
use sih26_proto.ControlPlane.Validation.{validate_work_request-IsValid}

and_false : (b : Bool) → (b && false) ≡ false
and_false true = refl
and_false false = refl

-- A stage before another that was skipped has not completed.
all-skipped :
    (run : RunRecord) (stage : StageName) (r : StageTransition) (stages : List StageName)
    → includes stages stage ≡ true
    → last_stage_record run stage ≡ some r
    → r.to ≡ skipped
    → all (λ s. has_completed (last_stage_record run s)) stages ≡ false
all-skipped run stage r [] h found is_skipped = cc h
all-skipped run stage r (s ∷ stages) h found is_skipped = elim (Bool-cases (s == stage)) [
  | inl here ↦
      let same_stage = eq_of_beq s stage here in
      let not_done =
        ap has_completed (ap (last_stage_record run) same_stage ∙ found)
        ∙ ap (λ to. to == completed) is_skipped in
      rw not_done refl
  | inr elsewhere ↦
      let later = all-skipped run stage r stages (rw elsewhere at h) found is_skipped in
      rw later (and_false (has_completed (last_stage_record run s)))
]

-- No work is valid for a stage behind one whose last record is skipped, although the Run goes on: the
-- check of the stages before asks for `completed`.
pub validate_work_request_skipped :
    (date_parse : String → Option ℕ) (events : List JournalEvent) (now : ℕ) (request : WorkRequest)
    (claims : LeaseClaims) (run : RunRecord) (stage : StageName) (r : StageTransition)
    → includes (stages_before request.stage stage_order) stage ≡ true
    → last_stage_record run stage ≡ some r
    → r.to ≡ skipped
    → validate_work_request date_parse events now request claims run ≢ ok tt
validate_work_request_skipped date_parse events now request claims run stage r earlier found
      is_skipped h =
    let valid = validate_work_request-IsValid date_parse events now request claims run h in
    cc (
      valid.before,
      all-skipped run stage r (stages_before request.stage stage_order) earlier found is_skipped,
    )
