-- ===== src/ControlPlane/Completed.antt =====
-- Which works of a Run the events complete, for `validateWorkRequest` of
-- apps/control-plane/src/core/state-machine.ts.
use sih26_proto.Common.{
  string_eq, ◌≡◌, inl, inr, refl, String, true, some, List, [], ◌∷◌, includes, Bool-cases,
  Option-cases, eq_of_beq, beq_refl, ◌==◌, arith,
}
use sih26_proto.Journal.{WorkCompletion, JournalEvent}
use sih26_proto.ControlPlane.Work.{completion_of, completed_work_ids}

-- Some event completes the work for the Run.
pub data IsDone (run_id work_id : String) : List JournalEvent → Type 0 where
  at_once :
      {e : JournalEvent} {es : List JournalEvent} (c : WorkCompletion)
      → completion_of run_id e.body ≡ some c
      → c.work_id ≡ work_id
      → IsDone run_id work_id (e ∷ es)
  later :
      {e : JournalEvent} {es : List JournalEvent}
      → IsDone run_id work_id es
      → IsDone run_id work_id (e ∷ es)

pub completed_work_ids-IsDone :
    (run_id work_id : String) (es : List JournalEvent)
    → includes (completed_work_ids run_id es) work_id ≡ true
    → IsDone run_id work_id es
unfolding completed_work_ids
completed_work_ids-IsDone run_id work_id [] h = cc h
completed_work_ids-IsDone run_id work_id (e ∷ es) h =
    elim (Option-cases (completion_of run_id e.body)) [
      | inl nothing ↦ later (completed_work_ids-IsDone run_id work_id es (rw nothing at h))
      | inr (c, found) ↦ elim (Bool-cases (c.work_id == work_id)) [
        | inl same ↦ at_once c found (eq_of_beq c.work_id work_id same)
        | inr apart ↦
            later (completed_work_ids-IsDone run_id work_id es (rw apart at (rw found at h)))
      ]
    ]

pub IsDone-completed_work_ids :
    (run_id work_id : String) (es : List JournalEvent)
    → IsDone run_id work_id es
    → includes (completed_work_ids run_id es) work_id ≡ true
unfolding completed_work_ids
IsDone-completed_work_ids run_id work_id [] d = elim d [ ]
IsDone-completed_work_ids run_id work_id (e ∷ es) (at_once c found same) =
    rw found (rw (same, beq_refl work_id) refl)
IsDone-completed_work_ids run_id work_id (e ∷ es) (later d) =
    elim (Option-cases (completion_of run_id e.body)) [
      | inl nothing ↦ rw nothing (IsDone-completed_work_ids run_id work_id es d)
      | inr (c, found) ↦
          let rest = IsDone-completed_work_ids run_id work_id es d in
          rw found (ground (arith, rest))
    ]
