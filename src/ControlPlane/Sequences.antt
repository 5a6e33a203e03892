-- ===== src/ControlPlane/Sequences.antt =====
-- A journal that replays numbers its events from one on, and its state knows the next number.
use sih26_proto.Common.{
  ℕ, nat_eq, string_eq, ◌+◌, ◌<◌, ◌≤◌, ◌≡◌, refl, ap, String, Bool, true, List, [], ◌∷◌, ◌++◌,
  length, arith, All,
}
use sih26_proto.Result.{ok, >>=-eq-ok, >>-eq-ok, ok_injective}
use sih26_proto.Journal.{JournalState, JournalEvent, initial_journal_state}
use sih26_proto.Journal.Reducer.{apply_journal_event}
use sih26_proto.Journal.Replay.{
  verify_from, verify_journal_sequence, reduce_from, record_event, reduce_journal_events,
}
use sih26_proto.Journal.Commands.{verified, verify_is_true, apply_keeps_order}
use sih26_proto.ControlPlane.JournalService.{insert_row}

-- The number of an event is one more than the number of those before it.
verify_from-sequence :
    (i : ℕ) (keys : List String) (before : List JournalEvent) (e : JournalEvent)
    (later : List JournalEvent) {b : Bool}
    → verify_from i keys (before ++ e ∷ later) ≡ ok b
    → e.sequence ≡ i + length before + 1
verify_from-sequence i keys [] e later h =
    let (at_place, _, _) = verified i keys e later h in omega arith
verify_from-sequence i keys (d ∷ before) e later h =
    let (_, _, rest) = verified i keys d (before ++ e ∷ later) h in
    let at_place = verify_from-sequence (i + 1) _ before e later rest in omega arith

pub reduce_journal_events-sequence :
    (before : List JournalEvent) (e : JournalEvent) (later : List JournalEvent) {s : JournalState}
    → reduce_journal_events (before ++ e ∷ later) ≡ ok s
    → e.sequence ≡ length before + 1
unfolding reduce_journal_events verify_journal_sequence
reduce_journal_events-sequence before e later h =
    let (_, v, _) =
      >>-eq-ok (verify_journal_sequence (before ++ e ∷ later))
        (reduce_from initial_journal_state (before ++ e ∷ later)) h in
    let at_place = verify_from-sequence 0 [] before e later v in omega arith

below-le :
    {m n : ℕ} (xs : List JournalEvent)
    → All (λ e. e.sequence < m) xs
    → m ≤ n
    → All (λ e. e.sequence < n) xs
below-le [] h le = tt
below-le (x ∷ xs) (lt, more) le = (omega arith, below-le xs more le)

-- Every number is below the next one.
verify_from-below :
    (i : ℕ) (keys : List String) (es : List JournalEvent) {b : Bool}
    → verify_from i keys es ≡ ok b
    → All (λ e. e.sequence < i + length es + 1) es
verify_from-below i keys [] h = tt
verify_from-below i keys (e ∷ es) h =
    let (at_place, _, rest) = verified i keys e es h in
    (omega arith, below-le es (verify_from-below (i + 1) _ es rest) (omega arith))

reduce_from-next :
    (s : JournalState) (i : ℕ) (es : List JournalEvent) {s' : JournalState}
    → s.next_sequence ≡ i + 1
    → verify_from i s.seen_idempotency_keys es ≡ ok true
    → reduce_from s es ≡ ok s'
    → s'.next_sequence ≡ i + length es + 1
unfolding reduce_from
reduce_from-next s i [] {s'} n v h =
    let same_state = ap (λ x. x.next_sequence) (ok_injective s s' h) in omega arith
reduce_from-next s i (e ∷ es) n v h =
    let (next, accepted, h) =
      >>=-eq-ok (apply_journal_event s e) (λ a. reduce_from (record_event e a) es) h in
    let (at_place, fresh, v) = verified i s.seen_idempotency_keys e es v in
    let (_, seen) = apply_keeps_order s e accepted in
    let later =
      reduce_from-next (record_event e next) (i + 1) es (ap (λ x. x + 1) at_place) (rw seen v) h in
    omega arith

-- The state that a journal replays to has the next number, and every number is below it.
pub reduce_journal_events-next :
    (es : List JournalEvent) {s : JournalState}
    → reduce_journal_events es ≡ ok s
    → (s.next_sequence ≡ length es + 1) × All (λ e. e.sequence < length es + 1) es
unfolding reduce_journal_events verify_journal_sequence
reduce_journal_events-next es h =
    let (_, v, r) =
      >>-eq-ok (verify_journal_sequence es) (reduce_from initial_journal_state es) h in
    let next = reduce_from-next initial_journal_state 0 es refl (verify_is_true 0 [] es v) r in
    (omega arith, below-le es (verify_from-below 0 [] es v) (omega arith))

pub insert_row-last :
    (e : JournalEvent) (rows : List JournalEvent)
    → All (λ row. row.sequence < e.sequence) rows
    → insert_row e rows ≡ rows ++ e ∷ []
unfolding insert_row
insert_row-last e [] below = refl
insert_row-last e (row ∷ rows) (lt, below) = ground (arith, insert_row-last e rows below)
