-- ===== src/Journal/Replay.antt =====
-- packages/contracts/src/journal.ts: the order of a journal, its strict replay, and the application
-- of a command.
use sih26_proto.Common.{
  ℕ, nat_eq, string_eq, ◌+◌, String, Bool, true, Option, none, some, List, [], ◌∷◌, if◌then◌else◌,
  ◌!=◌, includes, set_add,
}
use sih26_proto.Result.{
  Result, ok, err, ◌>>=◌, ◌>>◌, IntegrityError, duplicate_transition, bad_sequence,
}
use sih26_proto.Journal.{JournalState, JournalEvent, JournalCommand, initial_journal_state}
use sih26_proto.Journal.Reducer.{apply_journal_event}

-- The loop of `verifyJournalSequence`, at index `i` with the keys of the events before it.
unfoldable pub verify_from : ℕ → List String → List JournalEvent → Result Bool IntegrityError
verify_from i keys [] = ok true
verify_from i keys (e ∷ es) =
    let rest = verify_from (i + 1) (set_add keys e.idempotency_key) es in
    if e.sequence != i + 1
    then err bad_sequence
    else if includes keys e.idempotency_key
    then err duplicate_transition
    else rest

unfoldable pub verify_journal_sequence : List JournalEvent → Result Bool IntegrityError
unfolding verify_from
verify_journal_sequence events = verify_from 0 [] events

-- `seenIdempotencyKeys.add` and the next sequence.
abbrev pub record_event : JournalEvent → JournalState → JournalState
record_event e s = record s {
  seen_idempotency_keys = set_add s.seen_idempotency_keys e.idempotency_key;
  next_sequence = e.sequence + 1;
}

-- The loop of `reduceJournalEvents`.
unfoldable pub reduce_from : JournalState → List JournalEvent → Result JournalState IntegrityError
reduce_from s [] = ok s
reduce_from s (e ∷ es) = do
  applied ← apply_journal_event s e
  reduce_from (record_event e applied) es

unfoldable pub reduce_journal_events : List JournalEvent → Result JournalState IntegrityError
unfolding verify_journal_sequence reduce_from initial_journal_state
reduce_journal_events events =
    verify_journal_sequence events >> reduce_from initial_journal_state events

abbrev pub event_of : JournalCommand → ℕ → JournalEvent
event_of command sequence = record {
  incident_id = command.incident_id;
  sequence = sequence;
  idempotency_key = command.idempotency_key;
  recorded_at = command.recorded_at;
  body = command.body;
}

abbrev pub record_command : JournalCommand → JournalState → JournalState
record_command command next = record next {
  seen_idempotency_keys = set_add next.seen_idempotency_keys command.idempotency_key;
  next_sequence = next.next_sequence + 1;
}

unfoldable pub apply_journal_command :
    JournalState → JournalCommand → Result (JournalState × Option JournalEvent) IntegrityError
apply_journal_command s command =
    if includes s.seen_idempotency_keys command.idempotency_key then ok (s, none) else do
      next ← apply_journal_event s (event_of command s.next_sequence)
      ok (record_command command next, some (event_of command s.next_sequence))
