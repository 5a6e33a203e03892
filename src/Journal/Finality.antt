-- ===== src/Journal/Finality.antt =====
-- What no later event of packages/contracts/src/journal.ts changes: a Run that has ended, and an
-- Incident that is closed.
use sih26_proto.Common.{
  ◌==◌, string_eq, nat_eq, option_eq, ◌≡◌, ◌≢◌, refl, ap, ◌∙◌, sym, subst, String, ℕ, true, false,
  Option, none, some, List, [], ◌∷◌, ◌++◌, length, update_first, Bool-cases, inl, inr, arith,
  eq_of_beq,
}
use sih26_proto.Result.{ok, ok_injective, >>=-eq-ok}
use sih26_proto.Transitions.{
  IncidentState, RunState, closed, running, TransitionOptions, is_run_terminal,
  is_legal_run_transition, is_legal_incident_transition,
}
use sih26_proto.Journal.{RunRecord, JournalState, JournalEvent, has_run_id, find_run}
use sih26_proto.Journal.Reducer.{apply_journal_event, with_incident}
use sih26_proto.Journal.Replay.{reduce_from, record_event}
use sih26_proto.Journal.Changes.{
  Change, same, incident, created, moved, staged, apply_journal_event-Change,
}
use sih26_proto.Journal.Moves.{run_options, moved_run, push_record, new_run}
use sih26_proto.Journal.RunList.{length-update_first}

-- `id` names the Run `run`, which has ended, in this state.
abbrev pub HasEndedAs : JournalState → String → RunRecord → Type 0
HasEndedAs s id run = (find_run id s.runs ≡ some run) × (is_run_terminal run.state ≡ true)

find_run-push :
    (id : String) (runs ends : List RunRecord) {run : RunRecord}
    → find_run id runs ≡ some run
    → find_run id (runs ++ ends) ≡ some run
find_run-push id [] ends h = cc h
find_run-push id (x ∷ runs) ends h = elim (Bool-cases (has_run_id id x)) [
  | inl t ↦ rw t (rw t at h)
  | inr t ↦ rw t (find_run-push id runs ends (rw t at h))
]

apart :
    (changed id other : String) → changed ≢ id → (other == changed) ≡ true → (other == id) ≡ false
apart changed id other n t = elim (Bool-cases (other == id)) [
  | inl u ↦ absurd (n (sym (eq_of_beq other changed t) ∙ eq_of_beq other id u))
  | inr u ↦ u
]

module _ (f : RunRecord → RunRecord)
    (same_id : (run : RunRecord) → (f run).run_id ≡ run.run_id) where
  find_run-update_other :
      (changed id : String) (runs : List RunRecord) {run : RunRecord}
      → changed ≢ id
      → find_run id runs ≡ some run
      → find_run id (update_first (has_run_id changed) f runs) ≡ some run
  find_run-update_other changed id [] n h = h
  find_run-update_other changed id (x ∷ runs) {run} n h = elim (Bool-cases (has_run_id changed x)) [
    | inl t ↦ let o = apart changed id x.run_id n t in rw (t, same_id x, o) (rw o at h)
    | inr t ↦ rw t (elim (Bool-cases (has_run_id id x)) [
      | inl u ↦ rw u (rw u at h)
      | inr u ↦ rw u (find_run-update_other changed id runs n (rw u at h))
    ])
  ]

legal_goes_on :
    (from to : RunState) (options : TransitionOptions)
    → is_legal_run_transition (some from) to options ≡ ok true
    → is_run_terminal from ≡ false
unfolding is_legal_run_transition is_run_terminal
legal_goes_on from to options h = ground arith

running_goes_on : (state : RunState) → state ≡ running → is_run_terminal state ≡ false
unfolding is_run_terminal
running_goes_on state h = rw h refl

-- A Run that goes on is not the one that has ended.
not_ended :
    (changed id : String) (runs : List RunRecord) (going run : RunRecord)
    → find_run changed runs ≡ some going
    → is_run_terminal going.state ≡ false
    → find_run id runs ≡ some run
    → is_run_terminal run.state ≡ true
    → changed ≢ id
not_ended changed id runs going run found live ended terminal one =
    cc (ap (λ x. find_run x runs) one, found, live, ended, terminal)

Change-ended :
    (s s' : JournalState) (id : String) (run : RunRecord)
    → Change s s'
    → HasEndedAs s id run
    → HasEndedAs s' id run
Change-ended s s' id run (same k) (found, ended) = (rw k.runs found, ended)
Change-ended s s' id run (incident from to options reason legal held e) (found, ended) =
    (ap (λ x. find_run id x.runs) e ∙ found, ended)
Change-ended s s' id run (created e fresh there not_closed quiet serial q k) (found, ended) =
    (ap (λ x. find_run id x.runs) k ∙ find_run-push id s.runs (new_run e ∷ []) found, ended)
Change-ended s s' id run (moved e going at_id there legal done k) (found, ended) =
    let live = legal_goes_on going.state e.to (run_options e) legal in
    let other = not_ended e.run_id id s.runs going run at_id live found ended in
    (
      ap (λ x. find_run id x.runs) k
          ∙ find_run-update_other (moved_run e) (λ r. refl) e.run_id id s.runs other found,
      ended,
    )
Change-ended s s' id run (staged changed r going c at_id q accepted k) (found, ended) =
    let live = running_goes_on going.state q in
    let other = not_ended changed id s.runs going run at_id live found ended in
    (
      ap (λ x. find_run id x.runs) k
          ∙ find_run-update_other (push_record r) (λ r. refl) changed id s.runs other found,
      ended,
    )

-- A Run that has completed or failed is, after any later events that are accepted, the Run it was:
-- its state, outcome, reason, version and stage records are final.
pub reduce_from-ended :
    (s : JournalState) (events : List JournalEvent) (s' : JournalState) (id : String)
    (run : RunRecord)
    → reduce_from s events ≡ ok s'
    → HasEndedAs s id run
    → HasEndedAs s' id run
unfolding reduce_from
reduce_from-ended s [] s' id run h ended =
    subst (λ x. HasEndedAs x id run) (sym (ok_injective s s' h)) ended
reduce_from-ended s (e ∷ es) s' id run h ended =
    let (applied, accepted, h) =
      >>=-eq-ok (apply_journal_event s e) (λ a. reduce_from (record_event e a) es) h in
    let change = apply_journal_event-Change s e accepted in
    reduce_from-ended (record_event e applied) es s' id run h
      (Change-ended (with_incident s e.incident_id) applied id run change ended)

-- A closed Incident with its version and how many Runs it had.
abbrev pub IsClosedWith : JournalState → ℕ → ℕ → Type 0
IsClosedWith s version n =
    (s.incident_state ≡ some closed) × (s.incident_version ≡ version) × (length s.runs ≡ n)

closed_is_final :
    (from : Option IncidentState) (to : IncidentState) (options : TransitionOptions)
    → is_legal_incident_transition from to options ≡ ok true
    → from ≢ some closed
unfolding is_legal_incident_transition
closed_is_final none to options h n = cc n
closed_is_final (some from) to options h n = ground arith

Change-closed :
    (s s' : JournalState) (version n : ℕ)
    → Change s s'
    → IsClosedWith s version n
    → IsClosedWith s' version n
Change-closed s s' version n (same k) (c, v, m) =
    (k.incident_state ∙ c, k.incident_version ∙ v, ap length k.runs ∙ m)
Change-closed s s' version n (incident from to options reason legal held e) (c, v, m) =
    absurd (closed_is_final from to options legal (held ∙ c))
Change-closed s s' version n (created e fresh there not_closed quiet serial q k) (c, v, m) =
    absurd (not_closed c)
Change-closed s s' version n (moved e going at_id there legal done k) (c, v, m) = (
  ap (λ x. x.incident_state) k ∙ c,
  ap (λ x. x.incident_version) k ∙ v,
  ap (λ x. length x.runs) k ∙ length-update_first (has_run_id e.run_id) (moved_run e) s.runs ∙ m,
)
Change-closed s s' version n (staged changed r going d at_id q accepted k) (c, v, m) = (
  ap (λ x. x.incident_state) k ∙ c,
  ap (λ x. x.incident_version) k ∙ v,
  ap (λ x. length x.runs) k ∙ length-update_first (has_run_id changed) (push_record r) s.runs ∙ m,
)

-- A closed Incident is closed after any later events that are accepted, at the same version, and
-- with no further Run.
pub reduce_from-closed :
    (s : JournalState) (events : List JournalEvent) (s' : JournalState) (version n : ℕ)
    → reduce_from s events ≡ ok s'
    → IsClosedWith s version n
    → IsClosedWith s' version n
unfolding reduce_from
reduce_from-closed s [] s' version n h c =
    subst (λ x. IsClosedWith x version n) (sym (ok_injective s s' h)) c
reduce_from-closed s (e ∷ es) s' version n h c =
    let (applied, accepted, h) =
      >>=-eq-ok (apply_journal_event s e) (λ a. reduce_from (record_event e a) es) h in
    let change = apply_journal_event-Change s e accepted in
    reduce_from-closed (record_event e applied) es s' version n h
      (Change-closed (with_incident s e.incident_id) applied version n change c)
