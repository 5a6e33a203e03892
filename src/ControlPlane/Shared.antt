-- ===== src/ControlPlane/Shared.antt =====
-- Several journal services on the rows of one Incident.
use mathlib.Core.List.{append-nil}
use sih26_proto.Common.{
  ℕ, nat_eq, string_eq, ◌+◌, ◌<◌, ◌≡◌, refl, ap, ◌∙◌, sym, subst, true, false, Option, none, some,
  List, [], ◌∷◌, ◌++◌, length, arith, any, All, beq_refl,
}
use sih26_proto.Result.{Result, ok, err, >>=-eq-ok, IntegrityError, guard-eq-ok, ok_injective}
use sih26_proto.Leases.{DomainError}
use sih26_proto.Journal.{JournalState, JournalEvent, JournalCommand}
use sih26_proto.Journal.Replay.{reduce_journal_events, apply_journal_command}
use sih26_proto.Journal.Commands.{apply_journal_command-replay, apply_journal_command-event}
use sih26_proto.ControlPlane.JournalService.{
  CacheEntry, ApplyResult, applied, duplicate, error, insert_row, has_sequence,
  append_journal_event, load, persisted, settled, apply, to_domain_error,
}
use sih26_proto.ControlPlane.Sequences.{
  reduce_journal_events-sequence, reduce_journal_events-next, insert_row-last,
}

-- A cached entry is the replay of the first rows; the rest was written by others since.
pub record IsBehind (rows : List JournalEvent) (entry : CacheEntry) : Type 0 where
  pub later : List JournalEvent
  pub splits : rows ≡ entry.events ++ later
  pub replays : reduce_journal_events entry.events ≡ ok entry.state

pub data IsCurrent (rows : List JournalEvent) : Option CacheEntry → Type 0 where
  empty : IsCurrent rows none
  cached : {entry : CacheEntry} → IsBehind rows entry → IsCurrent rows (some entry)

-- The rows replay.
abbrev pub Replays : List JournalEvent → Type 0
Replays rows = (s : JournalState) × (reduce_journal_events rows ≡ ok s)

pub load-IsBehind :
    (cache : Option CacheEntry) (rows : List JournalEvent) {entry : CacheEntry}
    → IsCurrent rows cache
    → load cache rows ≡ ok entry
    → IsBehind rows entry
unfolding load
load-IsBehind (some entry) rows (cached behind) h =
    subst (IsBehind rows) (sym (ok_injective _ _ h)) behind
load-IsBehind none rows empty h =
    let (state, replayed, h) = >>=-eq-ok (reduce_journal_events rows) _ h in
    subst (IsBehind rows) (sym (ok_injective _ _ h))
      (record { later = []; splits = sym (append-nil rows); replays = replayed })

append-eq-ok :
    (rows : List JournalEvent) (e : JournalEvent) {stored : List JournalEvent}
    → append_journal_event rows e ≡ ok stored
    → (any (has_sequence e.sequence) rows ≡ false) × (stored ≡ insert_row e rows)
unfolding append_journal_event
append-eq-ok rows e h =
    let (free, h) = guard-eq-ok _ DomainError.conflict _ h in
    let (fresh, h) = guard-eq-ok _ DomainError.duplicate _ h in
    (free, ok_injective (insert_row e rows) _ h)

any_sequence :
    (n : ℕ) (before : List JournalEvent) (e : JournalEvent) (later : List JournalEvent)
    → e.sequence ≡ n
    → any (has_sequence n) (before ++ e ∷ later) ≡ true
any_sequence n [] e later at_place = rw (at_place, beq_refl n) refl
any_sequence n (d ∷ before) e later at_place =
    ground (arith, any_sequence n before e later at_place)

-- An event that the rows take at the place that a cached entry has next finds the entry up to date.
no_later :
    (before later : List JournalEvent) (n : ℕ)
    → Replays (before ++ later)
    → n ≡ length before + 1
    → any (has_sequence n) (before ++ later) ≡ false
    → later ≡ []
no_later before [] n replays place free = refl
no_later before (e ∷ later) n (s, replayed) place free =
    let at_place = reduce_journal_events-sequence before e later replayed in
    cc (any_sequence n before e later (at_place ∙ sym place), free)

-- What `apply` leaves, by its answer: the rows as they were and an entry that they contain, or the rows
-- with the event at their end, all of them in the cache, and the state that they replay to.
pub data Outcome (rows : List JournalEvent) (before : CacheEntry) (command : JournalCommand)
    : ApplyResult × CacheEntry × List JournalEvent → Type 0 where
  known :
      {entry : CacheEntry}
      → IsBehind rows entry
      → Outcome rows before command (duplicate, entry, rows)
  refused :
      {entry : CacheEntry} (e : DomainError)
      → IsBehind rows entry
      → Outcome rows before command (error e, entry, rows)
  grown :
      {entry : CacheEntry} {stored : List JournalEvent} (e : JournalEvent) (state : JournalState)
      → stored ≡ rows ++ e ∷ []
      → reduce_journal_events stored ≡ ok state
      → entry.events ≡ stored
      → entry.state ≡ state
      → before.events ≡ rows
      → e.body ≡ command.body
      → Outcome rows before command (applied e state, entry, stored)

stored-Outcome :
    (entry : CacheEntry) (rows : List JournalEvent) (command : JournalCommand)
    (state : JournalState) (e : JournalEvent) (answer : Result (List JournalEvent) DomainError)
    → apply_journal_command entry.state command ≡ ok (state, some e)
    → append_journal_event rows e ≡ answer
    → IsBehind rows entry
    → Replays rows
    → Outcome rows entry command (persisted entry rows state e answer)
unfolding persisted
stored-Outcome entry rows command state e (err failure) h asked behind replays =
    refused failure behind
stored-Outcome entry rows command state e (ok stored) h asked behind replays =
    let (free, is_insert) = append-eq-ok rows e asked in
    let (next, below) = reduce_journal_events-next entry.events behind.replays in
    let own = apply_journal_command-event entry.state command h in
    let place = ap (λ x. x.sequence) own ∙ next in
    let current =
      no_later entry.events behind.later e.sequence (subst Replays behind.splits replays) place
        (subst (λ xs. any (has_sequence e.sequence) xs ≡ false) behind.splits free) in
    let all_cached =
      behind.splits ∙ ap (λ xs. entry.events ++ xs) current ∙ append-nil entry.events in
    let at_end =
      is_insert
      ∙ insert_row-last e rows (
          subst (λ xs. All (λ row. row.sequence < e.sequence) xs) (sym all_cached)
            (subst (λ n. All (λ row. row.sequence < n) entry.events) (sym place) below)) in
    let same_events = sym (at_end ∙ ap (λ xs. xs ++ e ∷ []) all_cached) in
    grown e state at_end
      (ap reduce_journal_events (sym same_events)
        ∙ apply_journal_command-replay entry.events entry.state command state e behind.replays h)
      same_events refl (sym all_cached) (ap (λ x. x.body) own)

settled-Outcome :
    (entry : CacheEntry) (rows : List JournalEvent) (command : JournalCommand)
    (answer : Result (JournalState × Option JournalEvent) IntegrityError)
    → apply_journal_command entry.state command ≡ answer
    → IsBehind rows entry
    → Replays rows
    → Outcome rows entry command (settled entry rows answer)
unfolding settled
settled-Outcome entry rows command (err failure) h behind replays =
    refused (to_domain_error failure) behind
settled-Outcome entry rows command (ok (state, none)) h behind replays = known behind
settled-Outcome entry rows command (ok (state, some e)) h behind replays =
    stored-Outcome entry rows command state e (append_journal_event rows e) h refl behind replays

-- A service whose cache is the replay of some first rows, all of them or fewer, applies a command: the
-- answer `applied` comes only where the command's event was written behind all the rows, from an entry
-- that had all of them, and gives the state that they replay to with it; on any other answer the rows
-- are as they were, and the cache is still the replay of first rows.
pub apply-Outcome :
    (cache : Option CacheEntry) (rows : List JournalEvent) (command : JournalCommand)
    (after : ApplyResult × CacheEntry × List JournalEvent)
    → IsCurrent rows cache
    → Replays rows
    → apply cache rows command ≡ ok after
    → (before : CacheEntry) × (load cache rows ≡ ok before) × Outcome rows before command after
unfolding apply
apply-Outcome cache rows command after current replays h =
    let (entry, loaded, h) = >>=-eq-ok (load cache rows) _ h in
    (
      entry,
      loaded,
      subst (Outcome rows entry command) (sym (ok_injective _ after h)) (
          settled-Outcome entry rows command (apply_journal_command entry.state command) refl
            (load-IsBehind cache rows current loaded) replays),
    )
