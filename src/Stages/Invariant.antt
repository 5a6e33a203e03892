-- ===== src/Stages/Invariant.antt =====
-- What holds between two rounds of the stage check of packages/contracts/src/transitions.ts.
use sih26_proto.Common.{
  subst, sym, ap, ◌∙◌, ℕ, zero, suc, nat_eq, string_eq, option_eq, ◌+◌, ◌-◌, ◌*◌, ◌≡◌, ◌≤◌, ◌<◌,
  ◌≢◌, refl, true, false, Option, none, some, List, [], ◌∷◌, arith, if◌then◌else◌, is_some, length,
  Option-cases, inl, inr, ◌==◌, ◌⊎◌, Nat-cases,
}
use native.Mathlib.Nat.{add-zero}
use sih26_proto.Result.{ok, >>=-eq-ok, ok_injective}
use sih26_proto.Stages.{
  StageName, detect, diagnose, repair, verify, release, watch, StageStatus, entered, in_progress,
  completed, failed, skipped, stage_index, StageTransition, stage_at, previous_stage, is_unfinished,
  is_legal_stage_status_change, VisitState, Check, set_status, status_of, status_eq, stage_eq,
  previous_unfinished, unfinished_before, start_check, check_record, check_from,
}
use sih26_proto.Stages.Moves.{Move, skip, revise, enter, progress, check_record-Move}

-- How far a visit has come: not begun, entered, in progress, ended.
abbrev pub rank : Option StageStatus → ℕ
rank none = 0
rank (some entered) = 1
rank (some in_progress) = 2
rank (some _) = 3

abbrev pub rank_before : ℕ → (StageName → Option VisitState) → ℕ
rank_before next m = elim (previous_stage next) [ none ↦ 0 | some st ↦ rank (status_of (m st)) ]

-- The stages before the current one are finished, the stages up to it have been visited, a failure
-- that may be revised is that of the current stage, and each record has brought the Run forward.
pub record Inv (limit n : ℕ) (s : Check) : Type 0 where
  pub capped : s.revisions ≤ limit
  pub finished :
      (st : StageName) → suc (stage_index st) < s.next → is_unfinished (s.final_status st) ≡ false
  pub visited : (st : StageName) → stage_index st < s.next → is_some (s.final_status st) ≡ true
  pub failing :
      (st : StageName)
      → s.last_failed_stage ≡ some st
      → (s.next ≡ suc (stage_index st)) × (status_of (s.final_status st) ≡ some failed)
  pub counted : n ≤ 3 * s.next - 3 + rank_before s.next s.final_status + 6 * s.revisions
  pub bounded : s.next ≤ 6

rank_le : (v : Option StageStatus) → rank v ≤ 3
rank_le none = omega arith
rank_le (some entered) = omega arith
rank_le (some in_progress) = omega arith
rank_le (some completed) = omega arith
rank_le (some failed) = omega arith
rank_le (some skipped) = omega arith

stage_at-stage_index : (st : StageName) → stage_at (stage_index st) ≡ some st
stage_at-stage_index detect = refl
stage_at-stage_index diagnose = refl
stage_at-stage_index repair = refl
stage_at-stage_index verify = refl
stage_at-stage_index release = refl
stage_at-stage_index watch = refl

stage_index_lt : (st : StageName) → stage_index st < 6
stage_index_lt st = ground arith

pub stage_index_injective : (a b : StageName) → stage_index a ≡ stage_index b → a ≡ b
stage_index_injective a b h = ground arith

module _ (m : StageName → Option VisitState) where
  -- A stage that starts leaves no unfinished stage before it.
  before_finished :
      (next : ℕ) (st : StageName)
      → next ≡ suc (stage_index st)
      → unfinished_before next m ≡ false
      → is_unfinished (m st) ≡ false
  before_finished next st e p = rw (e, stage_at-stage_index st, unfinished_before) at p

  rank_before_le : (next : ℕ) → rank_before next m ≤ 3
  rank_before_le next = elim (Option-cases (previous_stage next)) [
    | inl p ↦ rw (p, rank_before) (omega arith)
    | inr (st, p) ↦ rw (p, rank_before) (rank_le _)
  ]

  pub potential_le : (next : ℕ) → 3 * next - 3 + rank_before next m ≤ 3 * next
  potential_le zero = omega arith
  potential_le (suc next) = omega (arith, rank_before_le (suc next))

  rank_before_eq :
      (next : ℕ) (st : StageName)
      → next ≡ suc (stage_index st)
      → rank_before next m ≡ rank (status_of (m st))
  rank_before_eq next st e = rw (e, stage_at-stage_index st, rank_before)

  -- What `finalStatus.set` changes, and what it leaves alone.
  set_status_self : (r : StageName) (v : VisitState) → set_status r v m r ≡ some v
  set_status_self r v = ground arith

  set_status_ne :
      (r st : StageName) (v : VisitState)
      → stage_index st ≢ stage_index r
      → set_status r v m st ≡ m st
  set_status_ne r st v h = ground arith

failed_here :
    (r st : StageName) (to : StageStatus)
    → (if to == failed then some r else none) ≡ some st
    → (to ≡ failed) × (r ≡ st)
failed_here r st to h = ground arith

failed_unfinished : (o : Option VisitState) → status_of o ≡ some failed → is_unfinished o ≡ true
failed_unfinished none h = cc
failed_unfinished (some v) h = rw (h, is_unfinished)

-- The two ways in which the current stage moves on by one, `skip` and `enter`, and the two in which
-- a visited stage gets a new status, share these facts.
module _ (limit n : ℕ) (s : Check) (i : Inv limit n s) (r : StageName) (v : VisitState) where
  module _ (e : stage_index r ≡ s.next) (p : previous_unfinished s ≡ false) where
    start_finished :
        (st : StageName)
        → suc (stage_index st) < suc (stage_index r)
        → is_unfinished (set_status r v s.final_status st) ≡ false
    start_finished st h =
        rw (set_status_ne s.final_status r st v (omega arith))
          (elim (Nat-cases (suc (stage_index st)) s.next) [
            | inl lt ↦ i.finished st lt
            | inr le ↦ before_finished s.final_status s.next st (omega arith) p
          ])

    start_failing : (st : StageName) → s.last_failed_stage ≢ some st
    start_failing st h =
        let (a, b) = i.failing st h in
        cc (failed_unfinished (s.final_status st) b, before_finished s.final_status s.next st a p)

  visited_set :
      (st : StageName)
      → (stage_index st < s.next) ⊎ (stage_index st ≡ stage_index r)
      → is_some (set_status r v s.final_status st) ≡ true
  visited_set st h = ground (arith, i.visited st)

  rank_set : rank_before (suc (stage_index r)) (set_status r v s.final_status) ≡ rank v.status
  rank_set =
      rank_before_eq (set_status r v s.final_status) (suc (stage_index r)) r refl
      ∙ ap (λ w. rank (status_of w)) (set_status_self s.final_status r v)

module _ (limit n : ℕ) (s : Check) (i : Inv limit n s) (r : StageTransition) where
  -- The current stage moves on by one.
  start-Inv :
      (v : VisitState) (s' : Check)
      → stage_index r.stage ≡ s.next
      → previous_unfinished s ≡ false
      → 1 ≤ rank v.status
      → s'.next ≡ suc (stage_index r.stage)
      → s'.revisions ≡ s.revisions
      → s'.last_failed_stage ≡ s.last_failed_stage
      → s'.final_status ≡ set_status r.stage v s.final_status
      → Inv limit (suc n) s'
  start-Inv v s' e p k en er ef em = record {
    capped = rw er i.capped;
    finished = λ st h. rw em (start_finished limit n s i r.stage v e p st (omega arith));
    visited = λ st h. rw em (visited_set limit n s i r.stage v st (omega arith));
    failing = λ st h. absurd (start_failing limit n s i r.stage v e p st (sym ef ∙ h));
    counted =
        rw (em, en, rank_set limit n s i r.stage v, er)
          (omega (arith, i.counted, potential_le s.final_status s.next));
    bounded = omega (arith, stage_index_lt r.stage);
  }

  revise-Inv :
      (v : VisitState) (s' : Check)
      → r.stage ≡ repair
      → s.last_failed_stage ≡ some verify
      → s.revisions < limit
      → v.status ≡ some entered
      → s'.next ≡ suc (stage_index r.stage)
      → s'.revisions ≡ suc s.revisions
      → s'.last_failed_stage ≡ none
      → s'.final_status ≡ set_status r.stage v s.final_status
      → Inv limit (suc n) s'
  revise-Inv v s' er el ec ev en es ef em =
      let four : s.next ≡ 4 = (i.failing verify el).0 in
      let two : stage_index r.stage ≡ 2 = ap stage_index er in
      record {
        capped = omega arith;
        finished = λ st h.
            rw (em, set_status_ne s.final_status r.stage st v (omega arith))
              (i.finished st (omega arith));
        visited = λ st h. rw em (visited_set limit n s i r.stage v st (omega arith));
        failing = λ st h. absurd (cc (h, ef));
        counted =
            rw (em, en, rank_set limit n s i r.stage v, es, ev, two)
              (omega (arith, i.counted, potential_le s.final_status s.next));
        bounded = omega arith;
      }

  -- A legal status change brings the visit one rank forward.
  rank-legal :
      (v : Option StageStatus) (to : StageStatus)
      → is_legal_stage_status_change v to ≡ true
      → rank (some to) ≡ suc (rank v)
  unfolding is_legal_stage_status_change
  rank-legal v to h = ground arith

  progress-Inv :
      (visit v : VisitState) (s' : Check)
      → suc (stage_index r.stage) ≡ s.next
      → s.final_status r.stage ≡ some visit
      → is_legal_stage_status_change visit.status r.to ≡ true
      → v.status ≡ some r.to
      → s'.next ≡ s.next
      → s'.revisions ≡ s.revisions
      → s'.last_failed_stage ≡ (if r.to == failed then some r.stage else none)
      → s'.final_status ≡ set_status r.stage v s.final_status
      → Inv limit (suc n) s'
  progress-Inv visit v s' e found legal ev en es ef em = record {
    capped = rw es i.capped;
    finished = λ st h.
        rw (em, set_status_ne s.final_status r.stage st v (omega arith))
          (i.finished st (omega arith));
    visited = λ st h. rw em (visited_set limit n s i r.stage v st (omega arith));
    failing = λ st h.
        let (tf, rs) = failed_here r.stage st r.to (sym ef ∙ h) in
        (
          en ∙ sym e ∙ ap (λ t. suc (stage_index t)) rs,
          rw (em, ← rs, set_status_self s.final_status r.stage v) (ev ∙ ap some tf),
        );
    counted =
        let before = rank_before_eq s.final_status s.next r.stage (sym e) in
        let here : rank (status_of (s.final_status r.stage)) ≡ rank visit.status =
          ap (λ w. rank (status_of w)) found in
        rw (em, en, es, ← e, rank_set limit n s i r.stage v, ev, rank-legal visit.status r.to legal)
          (omega (arith, i.counted, before, here));
    bounded = omega (arith, i.bounded);
  }

-- The check starts in the invariant, and every accepted record keeps it.
pub start_check-Inv : (limit : ℕ) → Inv limit 0 start_check
unfolding start_check
start_check-Inv limit = record {
  capped = omega arith;
  finished = λ st h. elim h [ ];
  visited = λ st h. elim h [ ];
  failing = λ st h. absurd (cc h);
  counted = omega arith;
  bounded = omega arith;
}

pub Move-Inv :
    (limit n : ℕ) (s : Check) (r : StageTransition) {s' : Check}
    → Inv limit n s
    → Move limit s r s'
    → Inv limit (suc n) s'
Move-Inv limit n s r {s'} i (skip reason t a b c e f p m) =
    start-Inv limit n s i r (record { status = some skipped; skip_reason = some reason }) s' e p
      (omega arith) (ap (λ c. c.next) m) (ap (λ c. c.revisions) m) (ap (λ c. c.last_failed_stage) m)
      (ap (λ c. c.final_status) m)
Move-Inv limit n s r {s'} i (enter t e f p m) =
    start-Inv limit n s i r (record { status = some entered; skip_reason = none }) s' e p
      (omega arith) (ap (λ c. c.next) m) (ap (λ c. c.revisions) m) (ap (λ c. c.last_failed_stage) m)
      (ap (λ c. c.final_status) m)
Move-Inv limit n s r {s'} i (revise hash er t el h a ec m) =
    revise-Inv limit n s i r (record { status = some entered; skip_reason = none }) s' er el ec refl
      (ap (λ c. c.next) m) (ap (λ c. c.revisions) m) (ap (λ c. c.last_failed_stage) m)
      (ap (λ c. c.final_status) m)
Move-Inv limit n s r {s'} i (progress visit e found f t legal m) =
    progress-Inv limit n s i r visit
      (record { status = some r.to; skip_reason = visit.skip_reason }) s' e found legal refl
      (ap (λ c. c.next) m) (ap (λ c. c.revisions) m) (ap (λ c. c.last_failed_stage) m)
      (ap (λ c. c.final_status) m)

pub check_from-Inv :
    (limit n : ℕ) (s : Check) (rs : List StageTransition) {s' : Check}
    → Inv limit n s
    → check_from limit s rs ≡ ok s'
    → Inv limit (n + length rs) s'
unfolding check_from
check_from-Inv limit n s [] i h =
    rw (ok_injective _ _ h) (subst (λ k. Inv limit k s) (sym (add-zero n)) i)
check_from-Inv limit n s (r ∷ rs) {s'} i h =
    let (t, step, rest) = >>=-eq-ok (check_record limit s r) (λ t. check_from limit t rs) h in
    let next = Move-Inv limit n s r i (check_record-Move limit s r step) in
    subst (λ k. Inv limit k s') (omega arith) (check_from-Inv limit (suc n) t rs next rest)
