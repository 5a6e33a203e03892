-- ===== src/ControlPlane/CurrentStage.antt =====
-- Which stage of a Run is the current one, for apps/control-plane/src/core/state-machine.ts.
use sih26_proto.Common.{
  or-eq-false, nat_eq, ◌≡◌, ◌≢◌, ◌↔◌, inl, inr, refl, ap, ◌∙◌, subst, Bool, true, false, not,
  Option, none, some, List, [], ◌∷◌, includes, find, Bool-cases, eq_of_beq, ne_of_beq, beq_of_ne,
  ◌==◌, All,
}
use sih26_proto.Stages.{
  StageName, stage_eq, status_eq, StageStatus, StageTransition, detect, diagnose, repair, verify,
  release, watch,
}
use sih26_proto.Journal.{RunRecord}
use sih26_proto.ControlPlane.Work.{
  stage_order, stages_before, last_stage_record, is_over, current_stage,
}

-- The last record of a stage, if any, neither completes nor skips it.
abbrev pub IsOpen : RunRecord → StageName → Type 0
IsOpen run stage =
    (r : StageTransition)
    → last_stage_record run stage ≡ some r
    → (r.to ≢ StageStatus.completed) × (r.to ≢ StageStatus.skipped)

found_open :
    (p : StageName → Bool) (stage : StageName) (ss : List StageName)
    → find (λ s. not (p s)) ss ≡ some stage
    → p stage ≡ false
found_open p stage [] h = cc h
found_open p stage (s ∷ ss) h = elim (Bool-cases (p s)) [
  | inl over ↦ found_open p stage ss (rw over at h)
  | inr is_open ↦ subst (λ x. p x ≡ false) (cc (rw is_open at h)) is_open
]

finds_open :
    (p : StageName → Bool) (stage : StageName) (ss : List StageName)
    → includes ss stage ≡ true
    → All (λ s. p s ≡ true) (stages_before stage ss)
    → p stage ≡ false
    → find (λ s. not (p s)) ss ≡ some stage
unfolding stages_before
finds_open p stage [] h before is_open = cc h
finds_open p stage (s ∷ ss) h before is_open = elim (Bool-cases (s == stage)) [
  | inl here ↦ let same = eq_of_beq s stage here in rw (ap p same ∙ is_open) (ap some same)
  | inr elsewhere ↦
      let (over, more) = subst (All (λ s. p s ≡ true)) (before_cons s stage ss elsewhere) before in
      rw over (finds_open p stage ss (rw elsewhere at h) more is_open)
]
  where
    before_cons :
        (s stage : StageName) (ss : List StageName)
        → (s == stage) ≡ false
        → stages_before stage (s ∷ ss) ≡ s ∷ stages_before stage ss
    before_cons s stage ss h = unfold stages_before in rw h refl

same_status :
    (t r : StageTransition) → ◌≡◌ {A = Option StageTransition} (some t) (some r) → t.to ≡ r.to
same_status t r e = ap (λ u. u.to) (some_injective t r e)
  where
    some_injective :
        (t r : StageTransition) → ◌≡◌ {A = Option StageTransition} (some t) (some r) → t ≡ r
    some_injective t r e = cc e

over_or_open :
    (o : Option StageTransition)
    → (is_over o ≡ false) ↔ (
        (r : StageTransition)
        → o ≡ some r
        → (r.to ≢ StageStatus.completed) × (r.to ≢ StageStatus.skipped))
over_or_open none = (λ h r e. cc e, λ h. refl)
over_or_open (some t) = (
  λ h r e.
      let (a, b) = or-eq-false (t.to == StageStatus.completed) (t.to == StageStatus.skipped) h in
      let same = same_status t r e in
      (
        λ c. ne_of_beq t.to StageStatus.completed a (same ∙ c),
        λ c. ne_of_beq t.to StageStatus.skipped b (same ∙ c),
      ),
  λ h.
      let (a, b) = h t refl in
      rw (beq_of_ne t.to StageStatus.completed a, beq_of_ne t.to StageStatus.skipped b) refl,
)

in_order : (stage : StageName) → includes stage_order stage ≡ true
in_order detect = refl
in_order diagnose = refl
in_order repair = refl
in_order verify = refl
in_order release = refl
in_order watch = refl

pub current_stage-IsOpen :
    (run : RunRecord) (stage : StageName) → current_stage run ≡ some stage → IsOpen run stage
unfolding current_stage
current_stage-IsOpen run stage h =
    (over_or_open (last_stage_record run stage)).0
      (found_open (λ s. is_over (last_stage_record run s)) stage stage_order h)

pub IsOpen-current_stage :
    (run : RunRecord) (stage : StageName)
    → All (λ s. is_over (last_stage_record run s) ≡ true) (stages_before stage stage_order)
    → IsOpen run stage
    → current_stage run ≡ some stage
unfolding current_stage
IsOpen-current_stage run stage before is_open =
    finds_open (λ s. is_over (last_stage_record run s)) stage stage_order (in_order stage) before
      ((over_or_open (last_stage_record run stage)).1 is_open)
