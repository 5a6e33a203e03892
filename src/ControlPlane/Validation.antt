-- ===== src/ControlPlane/Validation.antt =====
-- What a work request that `validateWorkRequest` passes is.
use sih26_proto.ControlPlane.Work.{
  WorkRequest, stage_text, stage_order, stages_before, last_stage_record, has_completed,
  current_stage, completed_work_ids, admitted_budget_usage, budget_exceeded_by, wall_clock_exceeded,
  validate_work_request, reservation, request_of, no_budget,
}
use sih26_proto.Common.{
  ℕ, nat_eq, string_eq, option_eq, ◌≡◌, refl, String, true, false, Option, some, List, [], includes,
  all, arith, Bool-cases, inl, inr, ◌==◌, eq_of_bne, eq_of_beq, not-eq-false,
}
use sih26_proto.Journal.{
  RunRecord, WorkBudget, WorkRecord, JournalEvent, work_requested, WorkStatus,
}
use sih26_proto.Stages.{stage_eq}
use sih26_proto.Result.{ok, guard-eq-ok}
use sih26_proto.Leases.{LeaseClaims, DomainError}
use sih26_proto.ControlPlane.Reservations.{IsWithin, IsWithin-nothing}

-- The request is the Run's current attempt and stage, the stages before it have completed, the work that
-- it depends on is completed, and its budget fits beside what the Run's work holds.
pub record IsValid (events : List JournalEvent) (request : WorkRequest) (claims : LeaseClaims)
    (run : RunRecord) : Type 0 where
  pub attempt : request.attempt ≡ run.attempt
  pub stage : stage_text request.stage ≡ claims.stage
  pub current : current_stage run ≡ some request.stage
  pub before :
      all
        (λ stage. has_completed (last_stage_record run stage))
        (stages_before request.stage stage_order)
      ≡ true
  pub dependencies :
      all (includes (completed_work_ids claims.run_id events)) request.depends_on ≡ true
  pub budget : IsWithin (admitted_budget_usage claims.run_id events) request.budget

pub fits :
    (elapsed : ℕ) (held budget : WorkBudget)
    → budget_exceeded_by held budget ≡ false
    → wall_clock_exceeded elapsed held budget ≡ false
    → IsWithin held budget
unfolding budget_exceeded_by wall_clock_exceeded
fits elapsed held budget h k = record {
  turns = ground arith;
  calls = ground arith;
  session = ground arith;
  run = ground arith;
}

pub validate_work_request-IsValid :
    (date_parse : String → Option ℕ) (events : List JournalEvent) (now : ℕ) (request : WorkRequest)
    (claims : LeaseClaims) (run : RunRecord)
    → validate_work_request date_parse events now request claims run ≡ ok tt
    → IsValid events request claims run
unfolding validate_work_request
validate_work_request-IsValid date_parse events now request claims run h =
    let (a, h) = guard-eq-ok _ DomainError.stale_attempt _ h in
    let (b, h) = guard-eq-ok _ DomainError.wrong_stage _ h in
    let (c, h) = guard-eq-ok _ DomainError.wrong_stage _ h in
    let (d, h) = guard-eq-ok _ DomainError.prerequisite_missing _ h in
    let (e, h) = guard-eq-ok _ DomainError.prerequisite_missing _ h in
    let (f, h) = guard-eq-ok _ DomainError.budget_exceeded _ h in
    let (g, h) = guard-eq-ok _ DomainError.budget_exceeded _ h in
    record {
      attempt = eq_of_bne request.attempt run.attempt a;
      stage = eq_of_bne (stage_text request.stage) claims.stage b;
      current = eq_of_bne (current_stage run) (some request.stage) c;
      before = not-eq-false _ d;
      dependencies = not-eq-false _ e;
      budget = fits _ _ request.budget f g;
    }

reservation-status :
    (w : WorkRecord) (held : WorkBudget) (status : WorkStatus)
    → w.status ≡ status
    → IsWithin no_budget held
    → (w.status ≡ WorkStatus.admitted → IsWithin held w.budget)
    → IsWithin held (reservation [] (some w))
unfolding reservation
reservation-status w held WorkStatus.admitted is_status within own = rw is_status (own is_status)
reservation-status w held WorkStatus.rejected is_status within own =
    rw is_status (IsWithin-nothing held within)
reservation-status w held WorkStatus.completed is_status within own =
    rw is_status (IsWithin-nothing held within)

-- What a request's event reserves of a Run fits where its own budget fits beside the requester's Run,
-- and no other Run is touched.
pub reservation-IsWithin :
    (w : WorkRecord) (run_id : String) (held : WorkBudget)
    → IsWithin no_budget held
    → (w.run_id ≡ run_id → w.status ≡ WorkStatus.admitted → IsWithin held w.budget)
    → IsWithin held (reservation [] (request_of run_id (work_requested w)))
reservation-IsWithin w run_id held within own = elim (Bool-cases (w.run_id == run_id)) [
  | inl same_run ↦
      rw same_run
        (reservation-status w held w.status refl within (own (eq_of_beq w.run_id run_id same_run)))
  | inr other_run ↦ rw other_run (unfold reservation in IsWithin-nothing held within)
]
