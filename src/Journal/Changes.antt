-- ===== src/Journal/Changes.antt =====
-- The reducer of packages/contracts/src/journal.ts as a relation: what an accepted event says of the
-- state before and after it.
use sih26_proto.Common.{
  none_of_is_some, ne_of_beq, ap, ◌∙◌, ne_of_beq, ℕ, nat_eq, string_eq, option_eq, String, Bool,
  true, false, not, ◌+◌, ◌≡◌, ◌≢◌, refl, Option, none, some, [], ◌∷◌, ◌++◌, if◌then◌else◌, is_some,
  ◌==◌, ◌!=◌, length, any, all, find, update_first, arith, eq_of_bne, Bool-cases, inl, inr,
}
use sih26_proto.Journal.{
  ClosureReason, RunRecord, WorkRecord, JournalState, IncidentTransition, RunTransition,
  WorkCompletion, Body, JournalEvent, has_run_id, find_run, is_active, check_incident, check_run_id,
  trigger_received, incident_transition, run_transition, stage_transition, artifact_sealed,
  broker_receipt_recorded, gate_evaluated, policy_decision, lease_event, approval_recorded,
  human_action, model_use, work_requested, work_completed,
}
use sih26_proto.Result.{
  Result, ok, ◌>>◌, IntegrityError, illegal_transition, duplicate_transition, require, >>=-eq-ok,
  >>-eq-ok, guard-eq-ok, require-eq-ok, ok_injective,
}
use sih26_proto.Transitions.{
  IncidentState, RunState, closed, queued, running, TransitionOptions, incident_eq, run_eq,
  is_legal_incident_transition, is_legal_run_transition,
}
use sih26_proto.Stages.{StageTransition, StageCheckResult, check_stage_records}
use sih26_proto.Journal.Outcome.{check_terminal_outcome}
use sih26_proto.Journal.Moves.{
  apply_incident_transition, move_incident, incident_options, apply_run_transition, create_run,
  new_run, no_options, move_run, move_found_run, with_moved_run, run_options, check_completion,
  apply_stage_transition, stage_found_run, push_record,
}
use sih26_proto.Journal.Works.{
  is_sealed, is_open_work, finish_work, apply_work_requested, request_found_run,
  apply_work_completed, complete_found_run,
}
use sih26_proto.Journal.Reducer.{known_run, apply_body, apply_journal_event, with_incident}

-- The part of the state that a change of work, artifacts or detector leaves alone.
pub record SameRuns (s s' : JournalState) : Type 0 where
  pub runs : s'.runs ≡ s.runs
  pub attempts_used : s'.attempts_used ≡ s.attempts_used
  pub incident_state : s'.incident_state ≡ s.incident_state
  pub incident_version : s'.incident_version ≡ s.incident_version
  pub next_sequence : s'.next_sequence ≡ s.next_sequence
  pub seen_idempotency_keys : s'.seen_idempotency_keys ≡ s.seen_idempotency_keys

pub data Change (s : JournalState) (s' : JournalState) : Type 0 where
  same : SameRuns s s' → Change s s'
  incident :
      (from : Option IncidentState) (to : IncidentState) (options : TransitionOptions)
      (closure_reason : Option ClosureReason)
      → is_legal_incident_transition from to options ≡ ok true
      → from ≡ s.incident_state
      → s' ≡ record s {
        incident_state = some to;
        incident_version = s.incident_version + 1;
        closure_reason = closure_reason;
      }
      → Change s s'
  created :
      (e : RunTransition)
      → find_run e.run_id s.runs ≡ none
      → s.incident_state ≢ none
      → s.incident_state ≢ some closed
      → any is_active s.runs ≡ false
      → e.attempt ≡ length s.runs + 1
      → e.to ≡ queued
      → s' ≡ record s { runs = s.runs ++ new_run e ∷ [] }
      → Change s s'
  moved :
      (e : RunTransition) (run : RunRecord)
      → find_run e.run_id s.runs ≡ some run
      → s.incident_state ≢ none
      → is_legal_run_transition (some run.state) e.to (run_options e) ≡ ok true
      → check_completion e run ≡ ok true
      → s' ≡ with_moved_run s e
      → Change s s'
  staged :
      (id : String) (r : StageTransition) (run : RunRecord) (c : StageCheckResult)
      → find_run id s.runs ≡ some run
      → run.state ≡ running
      → check_stage_records (run.stage_records ++ r ∷ []) (some 2) ≡ ok c
      → s' ≡ record s { runs = update_first (has_run_id id) (push_record r) s.runs }
      → Change s s'

ok_is_true :
    (from : Option IncidentState) (to : IncidentState) (options : TransitionOptions) {b : Bool}
    → is_legal_incident_transition from to options ≡ ok b
    → is_legal_incident_transition from to options ≡ ok true
unfolding is_legal_incident_transition
ok_is_true none to options h = ground arith
ok_is_true (some from) to options h = ground arith

run_ok_is_true :
    (from : Option RunState) (to : RunState) (options : TransitionOptions) {b : Bool}
    → is_legal_run_transition from to options ≡ ok b
    → is_legal_run_transition from to options ≡ ok true
unfolding is_legal_run_transition
run_ok_is_true none to options h = ground arith
run_ok_is_true (some from) to options h = ground arith

created_queued :
    (to : RunState) (options : TransitionOptions) {b : Bool}
    → is_legal_run_transition none to options ≡ ok b
    → to ≡ queued
unfolding is_legal_run_transition
created_queued to options h = ground arith

completion_ok_is_true :
    (e : RunTransition) (run : RunRecord) {b : Bool}
    → check_completion e run ≡ ok b
    → check_completion e run ≡ ok true
unfolding check_completion check_terminal_outcome
completion_ok_is_true e run h = ground arith

same_runs :
    (s s' t : JournalState)
    → s' ≡ t
    → t.runs ≡ s.runs
    → t.attempts_used ≡ s.attempts_used
    → t.incident_state ≡ s.incident_state
    → t.incident_version ≡ s.incident_version
    → t.next_sequence ≡ s.next_sequence
    → t.seen_idempotency_keys ≡ s.seen_idempotency_keys
    → SameRuns s s'
same_runs s s' t e a b c d f k = record {
  next_sequence = ap (λ x. x.next_sequence) e ∙ f;
  seen_idempotency_keys = ap (λ x. x.seen_idempotency_keys) e ∙ k;
  runs = ap (λ x. x.runs) e ∙ a;
  attempts_used = ap (λ x. x.attempts_used) e ∙ b;
  incident_state = ap (λ x. x.incident_state) e ∙ c;
  incident_version = ap (λ x. x.incident_version) e ∙ d;
}

module _ (s : JournalState) {s' : JournalState} where
  incident-Change : (e : IncidentTransition) → apply_incident_transition s e ≡ ok s' → Change s s'
  unfolding apply_incident_transition
  incident-Change e h =
      let (b, legal, h) =
        >>-eq-ok (is_legal_incident_transition e.from e.to (incident_options e)) (move_incident s e)
          h in
      let (p, h) = guard-eq-ok _ illegal_transition _ h in
      let (_, h) = guard-eq-ok _ illegal_transition _ h in
      incident e.from e.to (incident_options e)
        (if e.to == closed then e.closure_reason else s.closure_reason)
        (ok_is_true e.from e.to _ legal) (eq_of_bne e.from s.incident_state p) (ok_injective _ _ h)

  created-Change :
      (e : RunTransition) → s.incident_state ≢ none → create_run s e ≡ ok s' → Change s s'
  unfolding create_run
  created-Change e n h =
      let (a, h) = guard-eq-ok _ illegal_transition _ h in
      let (c, h) = guard-eq-ok _ illegal_transition _ h in
      let (d, h) = guard-eq-ok _ illegal_transition _ h in
      let (p, h) = guard-eq-ok _ illegal_transition _ h in
      let (_, h) =
        guard-eq-ok _ illegal_transition
          (is_legal_run_transition none e.to no_options
            >> ok (record s { runs = s.runs ++ new_run e ∷ [] }))
          h in
      let (b, legal, h) =
        >>-eq-ok (is_legal_run_transition none e.to no_options)
          (ok (record s { runs = s.runs ++ new_run e ∷ [] })) h in
      created e (none_of_is_some _ a) n (ne_of_beq s.incident_state (some closed) c) d
        (eq_of_bne e.attempt (length s.runs + 1) p) (created_queued e.to no_options legal)
        (ok_injective _ _ h)

  moved-Change : (e : RunTransition) → s.incident_state ≢ none → move_run s e ≡ ok s' → Change s s'
  unfolding move_run
  moved-Change e n h =
      let (run, found, h) =
        >>=-eq-ok (require illegal_transition (find_run e.run_id s.runs)) (move_found_run s e) h in
      let (_, h) = guard-eq-ok _ illegal_transition _ h in
      let (p, h) = guard-eq-ok _ illegal_transition _ h in
      let (_, h) =
        guard-eq-ok _ illegal_transition
          (is_legal_run_transition e.from e.to (run_options e)
            >> (check_completion e run >> ok (with_moved_run s e)))
          h in
      let (b, legal, h) =
        >>-eq-ok (is_legal_run_transition e.from e.to (run_options e))
          (check_completion e run >> ok (with_moved_run s e)) h in
      let (c, done, h) = >>-eq-ok (check_completion e run) (ok (with_moved_run s e)) h in
      let from = eq_of_bne e.from (some run.state) p in
      moved e run (require-eq-ok illegal_transition _ found) n
        (rw from at (run_ok_is_true e.from e.to (run_options e) legal))
        (completion_ok_is_true e run done) (ok_injective _ _ h)

  staged-Change :
      (id : String) (attempt : ℕ) (r : StageTransition)
      → apply_stage_transition s id attempt r ≡ ok s'
      → Change s s'
  unfolding apply_stage_transition
  staged-Change id attempt r h =
      let (run, found, h) =
        >>=-eq-ok (require illegal_transition (find_run id s.runs)) (stage_found_run s id attempt r)
          h in
      let (_, h) = guard-eq-ok _ illegal_transition _ h in
      let (p, h) =
        guard-eq-ok _ illegal_transition
          (check_stage_records (run.stage_records ++ r ∷ []) (some 2)
            >> ok (record s { runs = update_first (has_run_id id) (push_record r) s.runs }))
          h in
      let (c, accepted, h) =
        >>-eq-ok (check_stage_records (run.stage_records ++ r ∷ []) (some 2))
          (ok (record s { runs = update_first (has_run_id id) (push_record r) s.runs })) h in
      staged id r run c (require-eq-ok illegal_transition _ found) (eq_of_bne run.state running p)
        accepted (ok_injective _ _ h)

  requested-Change : (e : WorkRecord) → apply_work_requested s e ≡ ok s' → Change s s'
  unfolding apply_work_requested
  requested-Change e h =
      let (run, found, h) =
        >>=-eq-ok (require illegal_transition (find_run e.run_id s.runs)) (request_found_run s e)
          h in
      let (_, h) = guard-eq-ok _ illegal_transition _ h in
      let (_, h) = guard-eq-ok _ duplicate_transition _ h in
      let (_, h) = guard-eq-ok _ illegal_transition _ h in
      same (
        same_runs s s' (record s { work_records = s.work_records ++ e ∷ [] }) (ok_injective _ _ h)
          refl refl refl refl refl refl)

  completed-Change : (e : WorkCompletion) → apply_work_completed s e ≡ ok s' → Change s s'
  unfolding apply_work_completed
  completed-Change e h =
      let (run, found, h) =
        >>=-eq-ok (require illegal_transition (find_run e.run_id s.runs)) (complete_found_run s e)
          h in
      let (_, h) = guard-eq-ok (e.attempt != run.attempt) illegal_transition _ h in
      let (_, h) =
        guard-eq-ok (not (is_some (find (is_open_work e) s.work_records))) illegal_transition _ h in
      let (_, h) =
        guard-eq-ok (not (all (is_sealed s.sealed_artifacts e.run_id) e.artifact_refs))
          illegal_transition _ h in
      same (
        same_runs s s'
          (record s { work_records = update_first (is_open_work e) (finish_work e) s.work_records })
          (ok_injective _ _ h) refl refl refl refl refl refl)

  run-Change : (e : RunTransition) → apply_run_transition s e ≡ ok s' → Change s s'
  unfolding apply_run_transition
  run-Change e h =
      let (a, h) =
        guard-eq-ok (s.incident_state == none) illegal_transition
          (if e.from == none then create_run s e else move_run s e) h in
      let there = ne_of_beq s.incident_state none a in
      elim (Bool-cases (e.from == none)) [
        | inl b ↦ created-Change e there (rw b at h)
        | inr b ↦ moved-Change e there (rw b at h)
      ]

kept :
    (s : JournalState) {s' : JournalState}
    → ◌≡◌ {A = Result JournalState IntegrityError} (ok s) (ok s')
    → Change s s'
kept s {s'} h = same (same_runs s s' s (ok_injective _ _ h) refl refl refl refl refl refl)

body-Change :
    (s : JournalState) (e : Body) {s' : JournalState} → apply_body s e ≡ ok s' → Change s s'
unfolding apply_body
body-Change s (trigger_received detector) {s'} h = same (
    same_runs s s' (record s { detector_state = some detector }) (ok_injective _ _ h) refl refl refl
      refl refl refl)
body-Change s (incident_transition e) h = incident-Change s e h
body-Change s (run_transition e) h = run-Change s e h
body-Change s (stage_transition id attempt r) h = staged-Change s id attempt r h
body-Change s (artifact_sealed id artifact) {s'} h = same (
    same_runs s s'
      (record s {
        sealed_artifacts =
            s.sealed_artifacts ++ record { run_id = id; artifact_ref = artifact } ∷ [];
      })
      (ok_injective _ _ h) refl refl refl refl refl refl)
body-Change s (work_requested e) h = requested-Change s e h
body-Change s (work_completed e) h = completed-Change s e h
body-Change s (broker_receipt_recorded id) h = kept s h
body-Change s (gate_evaluated id) h = kept s h
body-Change s (policy_decision id) h = kept s h
body-Change s (lease_event id) h = kept s h
body-Change s (approval_recorded id) h = kept s h
body-Change s (human_action id) h = kept s h
body-Change s (model_use id) h = kept s h

-- Every accepted event is one of the changes, to the state that knows its Incident.
pub apply_journal_event-Change :
    (s : JournalState) (e : JournalEvent) {s' : JournalState}
    → apply_journal_event s e ≡ ok s'
    → Change (with_incident s e.incident_id) s'
unfolding apply_journal_event
apply_journal_event-Change s e h =
    let (_, _, h) =
      >>-eq-ok (check_incident s e.incident_id)
        (check_run_id (with_incident s e.incident_id) (known_run e.body)
          >> apply_body (with_incident s e.incident_id) e.body)
        h in
    let (_, _, h) =
      >>-eq-ok (check_run_id (with_incident s e.incident_id) (known_run e.body))
        (apply_body (with_incident s e.incident_id) e.body) h in
    body-Change (with_incident s e.incident_id) e.body h
