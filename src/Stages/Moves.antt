-- ===== src/Stages/Moves.antt =====
-- The stage check of packages/contracts/src/transitions.ts as a relation: what an accepted record
-- says of the check before and after it.
use sih26_proto.Common.{
  ℕ, suc, nat_eq, string_eq, option_eq, ◌≡◌, ◌≤◌, ◌<◌, ◌≢◌, String, true, false, none, some, [],
  ◌∷◌, ◌++◌, arith, if◌then◌else◌, get_or, includes, ◌==◌, Bool-cases, eq_of_beq, ltb, ne_of_beq,
  eq_of_bne, not-eq-false, or-eq-false, inl, inr,
}
use sih26_proto.Result.{
  ok, ◌>>=◌, illegal_transition, require, require-eq-ok, >>=-eq-ok, guard-eq-ok, ok_injective,
}
use sih26_proto.Stages.{
  revise_to, revise_from, detect, diagnose, repair, verify, entered, failed, skipped, stage_index,
  StageTransition, skippable_reasons, is_legal_stage_status_change, VisitState, Check, set_status,
  status_of, previous_unfinished, status_eq, stage_eq, push_hash, check_skip, check_revision,
  check_enter, check_progress, check_record,
}

pub data Move (limit : ℕ) (s : Check) (r : StageTransition) (s' : Check) : Type 0 where
  skip :
      (reason : String)
      → r.to ≡ skipped
      → includes skippable_reasons reason ≡ true
      → r.stage ≢ detect
      → r.stage ≢ diagnose
      → stage_index r.stage ≡ s.next
      → r.from ≡ status_of (s.final_status r.stage)
      → previous_unfinished s ≡ false
      → s' ≡ record s {
        skip_reason = some reason;
        next = suc (stage_index r.stage);
        final_status =
            set_status r.stage
              (record { status = some skipped; skip_reason = some reason })
              s.final_status;
        final_stage = some r.stage;
      }
      → Move limit s r s'
  revise :
      (hash : String)
      → r.stage ≡ repair
      → r.to ≡ entered
      → s.last_failed_stage ≡ some verify
      → r.candidate_hash ≡ some hash
      → includes s.candidate_hashes hash ≡ false
      → s.revisions < limit
      → s' ≡ record s {
        revisions = suc s.revisions;
        candidate_hashes = s.candidate_hashes ++ hash ∷ [];
        final_status =
            set_status r.stage
              (record { status = some entered; skip_reason = none })
              s.final_status;
        last_failed_stage = none;
        skip_reason = none;
        next = suc (stage_index r.stage);
        final_stage = some r.stage;
      }
      → Move limit s r s'
  enter :
      r.to ≡ entered
      → stage_index r.stage ≡ s.next
      → r.from ≡ status_of (s.final_status r.stage)
      → previous_unfinished s ≡ false
      → s' ≡ record s {
        candidate_hashes = push_hash s.candidate_hashes r.candidate_hash;
        next = suc (stage_index r.stage);
        final_status =
            set_status r.stage
              (record { status = some entered; skip_reason = none })
              s.final_status;
        skip_reason = none;
        final_stage = some r.stage;
      }
      → Move limit s r s'
  progress :
      (visit : VisitState)
      → suc (stage_index r.stage) ≡ s.next
      → s.final_status r.stage ≡ some visit
      → r.from ≡ visit.status
      → r.to ≢ skipped
      → is_legal_stage_status_change visit.status r.to ≡ true
      → s' ≡ record s {
        candidate_hashes = push_hash s.candidate_hashes r.candidate_hash;
        final_status =
            set_status r.stage
              (record { status = some r.to; skip_reason = visit.skip_reason })
              s.final_status;
        last_failed_stage = if r.to == failed then some r.stage else none;
        final_stage = some r.stage;
      }
      → Move limit s r s'

ltb-false : (a b : ℕ) → ltb a b ≡ false → b ≤ a
ltb-false a b h = ground arith

next_of_tests : (i n : ℕ) → ltb (suc i) n ≡ false → ltb n i ≡ false → (i == n) ≡ false → suc i ≡ n
next_of_tests i n a b c = ground arith

module _ (limit : ℕ) (s : Check) (r : StageTransition) {s' : Check} where
  check_skip-Move : r.to ≡ skipped → check_skip s r ≡ ok s' → Move limit s r s'
  unfolding check_skip
  check_skip-Move t h =
      let (a, h) = guard-eq-ok _ _ _ h in
      let (b, h) = guard-eq-ok _ _ _ h in
      let (b1, b2) = or-eq-false _ _ b in
      let (_, h) = guard-eq-ok _ _ _ h in
      let (c, h) = guard-eq-ok _ _ _ h in
      let (d, h) = guard-eq-ok _ _ _ h in
      let (e, h) = guard-eq-ok _ _ _ h in
      let (_, h) = guard-eq-ok _ _ _ h in
      skip (get_or r.reason "") t (not-eq-false _ a) (ne_of_beq r.stage detect b1)
        (ne_of_beq r.stage diagnose b2) (eq_of_bne (stage_index r.stage) s.next c)
        (eq_of_bne r.from (status_of (s.final_status r.stage)) d) e (ok_injective _ _ h)

  check_enter-Move : check_enter s r ≡ ok s' → stage_index r.stage ≡ s.next → Move limit s r s'
  unfolding check_enter
  check_enter-Move h n =
      let (a, h) = guard-eq-ok _ _ _ h in
      let (b, h) = guard-eq-ok _ _ _ h in
      let (_, h) = guard-eq-ok _ _ _ h in
      let (c, h) = guard-eq-ok _ _ _ h in
      enter (eq_of_bne r.to entered a) n (eq_of_bne r.from (status_of (s.final_status r.stage)) c) b
        (ok_injective _ _ h)

  check_progress-Move :
      check_progress s r ≡ ok s'
      → suc (stage_index r.stage) ≡ s.next
      → r.to ≢ skipped
      → Move limit s r s'
  unfolding check_progress
  check_progress-Move h n t =
      let (visit, found, h) = >>=-eq-ok _ _ h in
      let (a, h) = guard-eq-ok _ _ _ h in
      let (b, h) = guard-eq-ok _ _ _ h in
      progress visit n (require-eq-ok _ _ found) (eq_of_bne r.from visit.status a) t
        (not-eq-false _ b) (ok_injective _ _ h)

  check_revision-Move : check_revision limit s r ≡ ok s' → Move limit s r s'
  unfolding check_revision
  check_revision-Move h =
      let (a, h) =
        guard-eq-ok _ illegal_transition
          (require illegal_transition (s.final_status repair) >>= revise_from limit s r) h in
      let (a, a3) = or-eq-false _ _ a in
      let (a1, a2) = or-eq-false _ _ a in
      let (prior, found, h) =
        >>=-eq-ok (require illegal_transition (s.final_status repair)) (revise_from limit s r) h in
      let (_, h) =
        guard-eq-ok _ illegal_transition
          (require illegal_transition r.candidate_hash >>= revise_to limit s r) h in
      let (hash, given, h) =
        >>=-eq-ok (require illegal_transition r.candidate_hash) (revise_to limit s r) h in
      let (b, h) = guard-eq-ok _ illegal_transition _ h in
      let (c, h) = guard-eq-ok _ illegal_transition _ h in
      revise hash (eq_of_bne r.stage repair a1) (eq_of_bne r.to entered a3)
        (eq_of_bne s.last_failed_stage (some verify) a2) (require-eq-ok illegal_transition _ given)
        b (ltb-false limit (suc s.revisions) c) (ok_injective _ _ h)

  -- Every accepted record is one of the four moves.
  pub check_record-Move : check_record limit s r ≡ ok s' → Move limit s r s'
  unfolding check_record
  check_record-Move h = elim (Bool-cases (r.to == skipped)) [
    | inl t ↦ check_skip-Move (eq_of_beq r.to skipped t) (rw (t, check_record) at h)
    | inr t ↦ elim (Bool-cases (ltb (suc (stage_index r.stage)) s.next)) [
      | inl b ↦ check_revision-Move (rw (t, b, check_record) at h)
      | inr b ↦
          let h1 = rw (t, b, check_record) at h in
          let (c, h2) =
            guard-eq-ok (ltb s.next (stage_index r.stage)) illegal_transition
              (if stage_index r.stage == s.next then check_enter s r else check_progress s r) h1 in
          elim (Bool-cases (stage_index r.stage == s.next)) [
            | inl d ↦ check_enter-Move (rw d at h2) (eq_of_beq (stage_index r.stage) s.next d)
            | inr d ↦
                check_progress-Move (rw d at h2) (next_of_tests _ _ b c d)
                  (ne_of_beq r.to skipped t)
          ]
    ]
  ]
