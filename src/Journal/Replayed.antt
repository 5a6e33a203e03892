-- ===== src/Journal/Replayed.antt =====
-- What every replayed journal satisfies (packages/contracts/src/journal.ts): the invariant of the
-- state is kept by each event, so it holds after any journal that is accepted.
use sih26_proto.Common.{arith, ◌≡◌, ◌≢◌, refl, ◌∙◌, sym, subst, String, none, some, List, [], ◌∷◌}
use sih26_proto.Result.{ok, ok_injective, >>-eq-ok, >>=-eq-ok}
use sih26_proto.Journal.{JournalState, JournalEvent, initial_journal_state}
use sih26_proto.Journal.Reducer.{apply_journal_event, with_incident}
use sih26_proto.Journal.Replay.{
  verify_journal_sequence, reduce_from, record_event, reduce_journal_events,
}
use sih26_proto.Journal.Changes.{
  Change, same, incident, created, moved, staged, SameRuns, apply_journal_event-Change,
}
use sih26_proto.Journal.Invariant.{
  IsGood, moved-IsGood, created-IsGood, staged-IsGood, staged-IsGoodRun,
}

with_incident-IsGood : (s : JournalState) (id : String) → IsGood s → IsGood (with_incident s id)
with_incident-IsGood s id g = record {
  each = g.each;
  serial = g.serial;
  distinct = g.distinct;
  one_active = g.one_active;
  attempts = g.attempts;
  begun = g.begun;
}

record_event-IsGood : (e : JournalEvent) (s : JournalState) → IsGood s → IsGood (record_event e s)
record_event-IsGood e s g = record {
  each = g.each;
  serial = g.serial;
  distinct = g.distinct;
  one_active = g.one_active;
  attempts = g.attempts;
  begun = g.begun;
}

same-IsGood : (s s' : JournalState) → SameRuns s s' → IsGood s → IsGood s'
same-IsGood s s' k g = record {
  each = rw k.runs g.each;
  serial = rw k.runs g.serial;
  distinct = rw k.runs g.distinct;
  one_active = rw k.runs g.one_active;
  attempts = rw (k.runs, k.attempts_used) g.attempts;
  begun = λ n. k.runs ∙ g.begun (sym k.incident_state ∙ n);
}

some_not_none {ℓ} : {A : Type ℓ} (a : A) → some a ≢ none
some_not_none a h = cc

Change-IsGood : (s s' : JournalState) → Change s s' → IsGood s → IsGood s'
Change-IsGood s s' (same k) g = same-IsGood s s' k g
Change-IsGood s s' (incident from to options reason legal held e) g = subst IsGood (sym e) (record {
  each = g.each;
  serial = g.serial;
  distinct = g.distinct;
  one_active = g.one_active;
  attempts = g.attempts;
  begun = λ n. absurd (some_not_none to n);
})
Change-IsGood s s' (created e fresh there not_closed quiet serial q k) g =
    subst IsGood (sym k) (created-IsGood s e g fresh there quiet serial q)
Change-IsGood s s' (moved e run found there legal done k) g =
    subst IsGood (sym k) (moved-IsGood s e run g found there legal done)
Change-IsGood s s' (staged id r run c found q accepted k) g =
    subst IsGood (sym k) (staged-IsGood s id r run g found (staged-IsGoodRun r run c q accepted))

-- An accepted event keeps the invariant.
pub apply_journal_event-IsGood :
    (s : JournalState) (e : JournalEvent) {s' : JournalState}
    → IsGood s
    → apply_journal_event s e ≡ ok s'
    → IsGood s'
apply_journal_event-IsGood s e {s'} g h =
    Change-IsGood (with_incident s e.incident_id) s' (apply_journal_event-Change s e h)
      (with_incident-IsGood s e.incident_id g)

reduce_from-IsGood :
    (s : JournalState) (es : List JournalEvent) {s' : JournalState}
    → IsGood s
    → reduce_from s es ≡ ok s'
    → IsGood s'
unfolding reduce_from
reduce_from-IsGood s [] {s'} g h = subst IsGood (sym (ok_injective s s' h)) g
reduce_from-IsGood s (e ∷ es) g h =
    let (applied, accepted, h) =
      >>=-eq-ok (apply_journal_event s e) (λ a. reduce_from (record_event e a) es) h in
    reduce_from-IsGood (record_event e applied) es
      (record_event-IsGood e applied (apply_journal_event-IsGood s e g accepted)) h

initial-IsGood : IsGood initial_journal_state
unfolding initial_journal_state
initial-IsGood = record {
  each = tt;
  serial = tt;
  distinct = tt;
  one_active = omega arith;
  attempts = refl;
  begun = λ n. refl;
}

-- A journal that is accepted rebuilds a state in which the Runs are numbered from 1 in order, have
-- ids of their own, at most one of them is active, `attempts_used` counts those that ended, each
-- completed Run has an outcome that its stages bear out, each failed one has a reason, and each
-- Run's stage records are accepted.
pub reduce_journal_events-IsGood :
    (events : List JournalEvent) {s : JournalState} → reduce_journal_events events ≡ ok s → IsGood s
unfolding reduce_journal_events
reduce_journal_events-IsGood events h =
    let (_, _, h) =
      >>-eq-ok (verify_journal_sequence events) (reduce_from initial_journal_state events) h in
    reduce_from-IsGood initial_journal_state events initial-IsGood h
