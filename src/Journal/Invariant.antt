-- ===== src/Journal/Invariant.antt =====
-- What every replayed journal satisfies (packages/contracts/src/journal.ts).
use sih26_proto.Journal.Moves.{
  or_else, or_else, new_run, moved_run, run_options, is_ending, check_completion, push_record,
  with_moved_run,
}
use sih26_proto.Common.{
  ℕ, nat_eq, string_eq, option_eq, String, Bool, true, false, ◌+◌, ◌≡◌, ◌≢◌, ◌≤◌, refl, none, some,
  List, [], ◌∷◌, ◌++◌, if◌then◌else◌, length, any, update_first, arith, All, ap, ◌∙◌, sym,
}
use sih26_proto.Result.{ok}
use sih26_proto.Transitions.{
  RunState, RunOutcome, RunFailureReason, queued, running, TransitionOptions, run_eq,
  is_legal_run_transition, is_run_terminal,
}
use sih26_proto.Stages.{StageTransition, StageCheckResult, check_stage_records}
use sih26_proto.Journal.Outcome.{
  detect_and_diagnose_complete, stage_ended_as, is_coherent, check_terminal_outcome,
}
use sih26_proto.Journal.{RunRecord, JournalState, RunTransition, has_run_id, find_run, is_active}
use sih26_proto.Journal.RunList.{
  count_if, bit, IsSerial, IsDistinct, IsSerial-push, IsDistinct-push, IsSerial-update_first,
  IsDistinct-update_first, count-update_first, count-push, count_none, All-update_first, All-find,
  All-push,
}

-- A Run: what it has completed with, why it failed, and that its stage records are in order.
pub record IsGoodRun (run : RunRecord) : Type 0 where
  pub completed_as :
      run.state ≡ RunState.completed
      → (o : RunOutcome) × (run.outcome ≡ some o) × (is_coherent run o ≡ true)
  pub failed_for :
      run.state ≡ RunState.failed → (r : RunFailureReason) × (run.failure_reason ≡ some r)
  pub in_order : (c : StageCheckResult) × (check_stage_records run.stage_records (some 2) ≡ ok c)

abbrev pub has_ended : RunRecord → Bool
has_ended run = is_ending run.state

pub record IsGood (s : JournalState) : Type 0 where
  pub each : All IsGoodRun s.runs
  pub serial : IsSerial 1 s.runs
  pub distinct : IsDistinct s.runs
  pub one_active : count_if is_active s.runs ≤ 1
  pub attempts : s.attempts_used ≡ count_if has_ended s.runs
  pub begun : s.incident_state ≡ none → s.runs ≡ []

legal-active :
    (from to : RunState) (options : TransitionOptions)
    → is_legal_run_transition (some from) to options ≡ ok true
    → (is_run_terminal from ≡ false) × (is_ending from ≡ false)
unfolding is_legal_run_transition is_run_terminal
legal-active from to options h = ground arith

legal-failed :
    (from to : RunState) (options : TransitionOptions)
    → is_legal_run_transition (some from) to options ≡ ok true
    → to ≡ RunState.failed
    → (r : RunFailureReason) × (options.failure_reason ≡ some r)
unfolding is_legal_run_transition
legal-failed from to options h e = ground arith

coherent_moved :
    (e : RunTransition) (run : RunRecord) (o : RunOutcome)
    → is_coherent (moved_run e run) o ≡ is_coherent run o
unfolding is_coherent detect_and_diagnose_complete stage_ended_as
coherent_moved e run RunOutcome.verified_remediation = refl
coherent_moved e run o = refl

completion :
    (e : RunTransition) (run : RunRecord)
    → check_completion e run ≡ ok true
    → e.to ≡ RunState.completed
    → (o : RunOutcome) × (e.outcome ≡ some o) × (is_coherent run o ≡ true)
unfolding check_completion check_terminal_outcome
completion e run h k = ground arith

queued_ne : RunState.queued ≢ RunState.completed
queued_ne h = cc h

queued_ne_failed : RunState.queued ≢ RunState.failed
queued_ne_failed h = cc h

running_ne : RunState.running ≢ RunState.completed
running_ne h = cc h

running_ne_failed : RunState.running ≢ RunState.failed
running_ne_failed h = cc h

moved-IsGoodRun :
    (e : RunTransition) (run : RunRecord)
    → is_legal_run_transition (some run.state) e.to (run_options e) ≡ ok true
    → check_completion e run ≡ ok true
    → IsGoodRun run
    → IsGoodRun (moved_run e run)
moved-IsGoodRun e run legal done g = record {
  completed_as = λ k.
      let (o, given, coherent) = completion e run done k in
      (o, ap (λ x. or_else x run.outcome) given, coherent_moved e run o ∙ coherent);
  failed_for = λ k.
      let (r, given) = legal-failed run.state e.to (run_options e) legal k in
      (r, ap (λ x. or_else x run.failure_reason) given);
  in_order = g.in_order;
}

new-IsGoodRun : (e : RunTransition) → e.to ≡ queued → IsGoodRun (new_run e)
unfolding check_stage_records sih26_proto.Stages.check_from sih26_proto.Stages.start_check
new-IsGoodRun e q = record {
  completed_as = λ k. absurd (queued_ne (sym q ∙ k));
  failed_for = λ k. absurd (queued_ne_failed (sym q ∙ k));
  in_order = (_, refl);
}

queued_goes_on : (e : RunTransition) → e.to ≡ queued → bit (has_ended (new_run e)) ≡ 0
queued_goes_on e q = rw q

found_in_some :
    (id : String) (runs : List RunRecord) {run : RunRecord}
    → find_run id runs ≡ some run
    → runs ≢ []
found_in_some id runs found n = ground arith

pub staged-IsGoodRun :
    (r : StageTransition) (run : RunRecord) (c : StageCheckResult)
    → run.state ≡ running
    → check_stage_records (run.stage_records ++ r ∷ []) (some 2) ≡ ok c
    → IsGoodRun (push_record r run)
staged-IsGoodRun r run c q accepted = record {
  completed_as = λ k. absurd (running_ne (sym q ∙ k));
  failed_for = λ k. absurd (running_ne_failed (sym q ∙ k));
  in_order = (c, accepted);
}

active_of_terminal : (run : RunRecord) → is_run_terminal run.state ≡ false → bit (is_active run) ≡ 1
active_of_terminal run h = rw h

bit_le : (b : Bool) → bit b ≤ 1
bit_le true = omega arith
bit_le false = omega arith

counted_move :
    (used : ℕ) (ends : Bool) (n m : ℕ) {b : Bool}
    → n + bit b ≡ m + bit ends
    → b ≡ false
    → used ≡ m
    → (if ends then used + 1 else used) ≡ n
counted_move used ends n m e k h = ground arith

-- A Run that moves leaves at most as many active, and is counted when it ends.
pub moved-IsGood :
    (s : JournalState) (e : RunTransition) (run : RunRecord)
    → IsGood s
    → find_run e.run_id s.runs ≡ some run
    → s.incident_state ≢ none
    → is_legal_run_transition (some run.state) e.to (run_options e) ≡ ok true
    → check_completion e run ≡ ok true
    → IsGood (with_moved_run s e)
moved-IsGood s e run g found there legal done =
    let (live, going) = legal-active run.state e.to (run_options e) legal in
    let good = All-find IsGoodRun (has_run_id e.run_id) s.runs g.each found in
    let p = has_run_id e.run_id in
    record {
      each =
          All-update_first p (moved_run e) IsGoodRun s.runs g.each found
            (moved-IsGoodRun e run legal done good);
      serial = IsSerial-update_first (moved_run e) e.run_id (λ r. refl) 1 s.runs g.serial;
      distinct = IsDistinct-update_first (moved_run e) e.run_id (λ r. refl) s.runs g.distinct;
      one_active = omega (
        arith,
        count-update_first p (moved_run e) is_active s.runs run found,
        active_of_terminal run live,
        bit_le (is_active (moved_run e run)),
        g.one_active,
      );
      attempts =
          counted_move s.attempts_used (is_ending e.to) _ _
            (count-update_first p (moved_run e) has_ended s.runs run found) going g.attempts;
      begun = λ n. absurd (there n);
    }

pub created-IsGood :
    (s : JournalState) (e : RunTransition)
    → IsGood s
    → find_run e.run_id s.runs ≡ none
    → s.incident_state ≢ none
    → any is_active s.runs ≡ false
    → e.attempt ≡ length s.runs + 1
    → e.to ≡ queued
    → IsGood (record s { runs = s.runs ++ new_run e ∷ [] })
created-IsGood s e g fresh there quiet serial q = record {
  each = All-push IsGoodRun s.runs (new_run e) g.each (new-IsGoodRun e q);
  serial = IsSerial-push 1 s.runs (new_run e) g.serial serial;
  distinct = IsDistinct-push s.runs (new_run e) g.distinct fresh;
  one_active = omega (
    arith,
    count-push is_active s.runs (new_run e),
    count_none is_active s.runs quiet,
    bit_le (is_active (new_run e)),
  );
  attempts = omega (arith, count-push has_ended s.runs (new_run e), queued_goes_on e q, g.attempts);
  begun = λ n. absurd (there n);
}

pub staged-IsGood :
    (s : JournalState) (id : String) (r : StageTransition) (run : RunRecord)
    → IsGood s
    → find_run id s.runs ≡ some run
    → IsGoodRun (push_record r run)
    → IsGood (record s { runs = update_first (has_run_id id) (push_record r) s.runs })
staged-IsGood s id r run g found good =
    let p = has_run_id id in
    record {
      each = All-update_first p (push_record r) IsGoodRun s.runs g.each found good;
      serial = IsSerial-update_first (push_record r) id (λ x. refl) 1 s.runs g.serial;
      distinct = IsDistinct-update_first (push_record r) id (λ x. refl) s.runs g.distinct;
      one_active =
          omega
            (arith, count-update_first p (push_record r) is_active s.runs run found, g.one_active);
      attempts =
          omega
            (arith, count-update_first p (push_record r) has_ended s.runs run found, g.attempts);
      begun = λ n. absurd (found_in_some id s.runs found (g.begun n));
    }
