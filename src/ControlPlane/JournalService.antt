-- ===== src/ControlPlane/JournalService.antt =====
-- apps/control-plane/src/core/journal-service.ts, for one Incident: the cache of its journal and the
-- rows of apps/control-plane/src/store/store.ts, which several services may share.
use sih26_proto.Common.{
  ℕ, nat_eq, string_eq, String, Bool, Option, none, some, List, [], ◌∷◌, ◌++◌, if◌then◌else◌, ◌==◌,
  any, ltb,
}
use sih26_proto.Result.{Result, ok, err, ◌>>=◌, IntegrityError}
use sih26_proto.Journal.{JournalState, JournalEvent, JournalCommand}
use sih26_proto.Journal.Replay.{reduce_journal_events, apply_journal_command}
use sih26_proto.Leases.{DomainError}

pub record CacheEntry : Type 0 where
  pub state : JournalState
  pub events : List JournalEvent

pub data ApplyResult : Type 0 where
  applied : JournalEvent → JournalState → ApplyResult
  duplicate : ApplyResult
  error : DomainError → ApplyResult

abbrev pub to_domain_error : IntegrityError → DomainError
to_domain_error IntegrityError.illegal_transition = DomainError.illegal_transition
to_domain_error IntegrityError.duplicate_transition = DomainError.duplicate
to_domain_error IntegrityError.bad_sequence = DomainError.conflict
to_domain_error _ = DomainError.malformed_contract

-- The rows in the order of `order by sequence asc`, with a new one in its place.
unfoldable pub insert_row : JournalEvent → List JournalEvent → List JournalEvent
insert_row e [] = e ∷ []
insert_row e (row ∷ rows) =
    let more = insert_row e rows in
    if ltb e.sequence row.sequence then e ∷ row ∷ rows else row ∷ more

abbrev pub has_sequence : ℕ → JournalEvent → Bool
has_sequence sequence row = row.sequence == sequence

abbrev pub has_key : String → JournalEvent → Bool
has_key key row = row.idempotency_key == key

-- The insert, which the primary key refuses before the unique key does.
unfoldable pub append_journal_event :
    List JournalEvent → JournalEvent → Result (List JournalEvent) DomainError
append_journal_event rows e =
    if any (has_sequence e.sequence) rows
    then err DomainError.conflict
    else if any (has_key e.idempotency_key) rows
    then err DomainError.duplicate
    else ok (insert_row e rows)

-- What is in the cache afterwards, or the `JournalReplayError` that is thrown.
unfoldable pub load : Option CacheEntry → List JournalEvent → Result CacheEntry IntegrityError
load (some entry) rows = ok entry
load none rows =
    reduce_journal_events rows >>= λ state. ok (record { state = state; events = rows })

-- The result, the cached entry and the rows behind the store's answer.
unfoldable pub persisted :
    CacheEntry
    → List JournalEvent
    → JournalState
    → JournalEvent
    → Result (List JournalEvent) DomainError
    → ApplyResult × CacheEntry × List JournalEvent
persisted entry rows state e (err failure) = (error failure, entry, rows)
persisted entry rows state e (ok stored) =
    (applied e state, record { state = state; events = entry.events ++ e ∷ [] }, stored)

unfoldable pub settled :
    CacheEntry
    → List JournalEvent
    → Result (JournalState × Option JournalEvent) IntegrityError
    → ApplyResult × CacheEntry × List JournalEvent
unfolding persisted
settled entry rows (err failure) = (error (to_domain_error failure), entry, rows)
settled entry rows (ok (state, none)) = (duplicate, entry, rows)
settled entry rows (ok (state, some e)) = persisted entry rows state e (append_journal_event rows e)

-- `applyInner`; `apply` runs it for one command after the other.
unfoldable pub apply :
    Option CacheEntry
    → List JournalEvent
    → JournalCommand
    → Result (ApplyResult × CacheEntry × List JournalEvent) IntegrityError
unfolding load settled
apply cache rows command =
    load cache rows >>= λ entry. ok (settled entry rows (apply_journal_command entry.state command))
