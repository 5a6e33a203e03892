-- ===== src/Journal/Commands.antt =====
-- Commands and replay (packages/contracts/src/journal.ts): `applyJournalCommand` adds to a journal
-- the event that `reduceJournalEvents` replays.
use sih26_proto.Result.{◌>>◌, guard-eq-ok, ok, err, ok_injective, >>-eq-ok, >>=-eq-ok}
use sih26_proto.Journal.Changes.{
  staged, moved, created, incident, same, Change, apply_journal_event-Change,
}
use sih26_proto.Common.{
  string_eq, nat_eq, eq_of_bne, ◌⊎◌, beq_refl, ◌≡◌, refl, ap, ◌∙◌, sym, String, ℕ, ◌+◌, Bool, true,
  false, Option, none, some, List, [], ◌∷◌, ◌++◌, if◌then◌else◌, includes, set_add,
  includes-set_add_self, Bool-cases, inl, inr,
}
use sih26_proto.Journal.{
  duplicate_transition, bad_sequence, JournalState, JournalEvent, JournalCommand,
  initial_journal_state,
}
use sih26_proto.Journal.Reducer.{apply_journal_event, with_incident}
use sih26_proto.Journal.Replay.{
  verify_from, verify_journal_sequence, reduce_from, record_event, reduce_journal_events, event_of,
  record_command, apply_journal_command,
}

keeps_order :
    (s s' : JournalState)
    → Change s s'
    → (s'.next_sequence ≡ s.next_sequence) × (s'.seen_idempotency_keys ≡ s.seen_idempotency_keys)
keeps_order s s' (same k) = (k.next_sequence, k.seen_idempotency_keys)
keeps_order s s' (incident from to options reason legal held e) =
    (ap (λ x. x.next_sequence) e, ap (λ x. x.seen_idempotency_keys) e)
keeps_order s s' (created e fresh there not_closed quiet serial q k) =
    (ap (λ x. x.next_sequence) k, ap (λ x. x.seen_idempotency_keys) k)
keeps_order s s' (moved e run found there legal done k) =
    (ap (λ x. x.next_sequence) k, ap (λ x. x.seen_idempotency_keys) k)
keeps_order s s' (staged id r run c found q accepted k) =
    (ap (λ x. x.next_sequence) k, ap (λ x. x.seen_idempotency_keys) k)

-- An event leaves the order of the journal to its caller.
pub apply_keeps_order :
    (s : JournalState) (e : JournalEvent) {s' : JournalState}
    → apply_journal_event s e ≡ ok s'
    → (s'.next_sequence ≡ s.next_sequence) × (s'.seen_idempotency_keys ≡ s.seen_idempotency_keys)
apply_keeps_order s e {s'} h =
    keeps_order (with_incident s e.incident_id) s' (apply_journal_event-Change s e h)

-- What an applied command says: it is known and nothing happens, or its event is accepted.
applied :
    (s : JournalState) (command : JournalCommand) {s' : JournalState} {e : Option JournalEvent}
    → apply_journal_command s command ≡ ok (s', e)
    → ((includes s.seen_idempotency_keys command.idempotency_key ≡ true) × (s' ≡ s) × (e ≡ none))
      ⊎ ((includes s.seen_idempotency_keys command.idempotency_key ≡ false)
          × ((next : JournalState) × (apply_journal_event s (event_of command s.next_sequence)
                ≡ ok next)
              × (s' ≡ record_command command next)
              × (e ≡ some (event_of command s.next_sequence))))
unfolding apply_journal_command
applied s command {s'} {e} h =
    elim (Bool-cases (includes s.seen_idempotency_keys command.idempotency_key)) [
      | inl t ↦
          let k = ok_injective (s, none) (s', e) (rw t at h) in
          inl (t, ap (λ p. p.0) k, ap (λ p. p.1) k)
      | inr t ↦
          let (next, accepted, h) =
            >>=-eq-ok (apply_journal_event s (event_of command s.next_sequence))
              (λ next. ok (record_command command next, some (event_of command s.next_sequence)))
              (rw t at h) in
          let k =
            ok_injective (record_command command next, some (event_of command s.next_sequence))
              (s', e) h in
          inr (t, (next, accepted, ap (λ p. p.0) k, ap (λ p. p.1) k))
    ]

seen_again :
    (s : JournalState) (command : JournalCommand)
    → includes s.seen_idempotency_keys command.idempotency_key ≡ true
    → apply_journal_command s command ≡ ok (s, none)
unfolding apply_journal_command
seen_again s command t = rw t refl

-- A command that was applied is not applied again: the same state, and no event.
pub apply_journal_command_twice :
    (s : JournalState) (command : JournalCommand) {s' : JournalState} {e : Option JournalEvent}
    → apply_journal_command s command ≡ ok (s', e)
    → apply_journal_command s' command ≡ ok (s', none)
apply_journal_command_twice s command {s'} h = elim (applied s command h) [
  | inl (t, k, _) ↦ seen_again s' command (rw k t)
  | inr (t, (next, accepted, k, _)) ↦
      seen_again s' command
        (rw k (includes-set_add_self next.seen_idempotency_keys command.idempotency_key))
]

pub reduce_from-append :
    (s : JournalState) (es fs : List JournalEvent) {s' : JournalState}
    → reduce_from s es ≡ ok s'
    → reduce_from s (es ++ fs) ≡ reduce_from s' fs
unfolding reduce_from
reduce_from-append s [] fs {s'} h = ap (λ x. reduce_from x fs) (sym (ok_injective s s' h))
reduce_from-append s (e ∷ es) fs h =
    let (next, accepted, h) =
      >>=-eq-ok (apply_journal_event s e) (λ a. reduce_from (record_event e a) es) h in
    rw accepted (reduce_from-append (record_event e next) es fs h)

pub verified :
    (i : ℕ) (keys : List String) (e : JournalEvent) (es : List JournalEvent) {b : Bool}
    → verify_from i keys (e ∷ es) ≡ ok b
    → (e.sequence ≡ i + 1)
      × (includes keys e.idempotency_key ≡ false)
      × (verify_from (i + 1) (set_add keys e.idempotency_key) es ≡ ok b)
unfolding verify_from
verified i keys e es h =
    let (a, h) =
      guard-eq-ok _ bad_sequence
        (if includes keys e.idempotency_key
          then err duplicate_transition
          else verify_from (i + 1) (set_add keys e.idempotency_key) es)
        h in
    let (b, h) =
      guard-eq-ok _ duplicate_transition (verify_from (i + 1) (set_add keys e.idempotency_key) es)
        h in
    (eq_of_bne e.sequence (i + 1) a, b, h)

verify_cons :
    (i : ℕ) (keys : List String) (e : JournalEvent) (es : List JournalEvent)
    → e.sequence ≡ i + 1
    → includes keys e.idempotency_key ≡ false
    → verify_from i keys (e ∷ es) ≡ verify_from (i + 1) (set_add keys e.idempotency_key) es
unfolding verify_from
verify_cons i keys e es a b = rw (a, b, beq_refl (i + 1)) refl

-- A state that a journal's events lead to knows the place and the keys that the next one meets.
reached :
    (s : JournalState) (i : ℕ) (es fs : List JournalEvent) {s' : JournalState}
    → s.next_sequence ≡ i + 1
    → verify_from i s.seen_idempotency_keys es ≡ ok true
    → reduce_from s es ≡ ok s'
    → (j : ℕ) × (s'.next_sequence ≡ j + 1)
      × (verify_from i s.seen_idempotency_keys (es ++ fs)
          ≡ verify_from j s'.seen_idempotency_keys fs)
unfolding reduce_from
reached s i [] fs {s'} n v h =
    let k = ok_injective s s' h in
    (i, ap (λ x. x.next_sequence) k ∙ n, ap (λ x. verify_from i x.seen_idempotency_keys fs) (sym k))
reached s i (e ∷ es) fs n v h =
    let (next, accepted, h) =
      >>=-eq-ok (apply_journal_event s e) (λ a. reduce_from (record_event e a) es) h in
    let (at_place, fresh, v) = verified i s.seen_idempotency_keys e es v in
    let (_, seen) = apply_keeps_order s e accepted in
    let (j, place, rest) =
      reached (record_event e next) (i + 1) es fs (ap (λ x. x + 1) at_place) (rw seen v) h in
    (
      j,
      place,
      verify_cons i s.seen_idempotency_keys e (es ++ fs) at_place fresh ∙ (rw seen at rest),
    )

pub verify_is_true :
    (i : ℕ) (keys : List String) (es : List JournalEvent) {b : Bool}
    → verify_from i keys es ≡ ok b
    → verify_from i keys es ≡ ok true
unfolding verify_from
verify_is_true i keys [] h = refl
verify_is_true i keys (e ∷ es) h =
    let (at_place, fresh, rest) = verified i keys e es h in
    verify_cons i keys e es at_place fresh
    ∙ verify_is_true (i + 1) (set_add keys e.idempotency_key) es rest

-- One event, replayed where a command has put it.
replay_one :
    (s : JournalState) (command : JournalCommand) (next : JournalState)
    → apply_journal_event s (event_of command s.next_sequence) ≡ ok next
    → reduce_from s (event_of command s.next_sequence ∷ []) ≡ ok (record_command command next)
unfolding reduce_from
replay_one s command next accepted =
    let (place, _) = apply_keeps_order s (event_of command s.next_sequence) accepted in
    rw accepted (
      ap
        (λ n. ok (record next {
          seen_idempotency_keys = set_add next.seen_idempotency_keys command.idempotency_key;
          next_sequence = n + 1;
        }))
        (sym place))

option_injective {ℓ} : {A : Type ℓ} (a b : A) → some a ≡ some b → a ≡ b
option_injective a b h = cc

-- The event that a command adds to an accepted journal is accepted where the journal ends, and the
-- journal with it replays to the state that the command came to.
pub apply_journal_command-replay :
    (events : List JournalEvent) (s : JournalState) (command : JournalCommand) (s' : JournalState)
    (e : JournalEvent)
    → reduce_journal_events events ≡ ok s
    → apply_journal_command s command ≡ ok (s', some e)
    → reduce_journal_events (events ++ e ∷ []) ≡ ok s'
unfolding reduce_journal_events
apply_journal_command-replay events s command s' e replayed h =
    let (_, v, r) =
      >>-eq-ok (verify_journal_sequence events) (reduce_from initial_journal_state events)
        replayed in
    elim (applied s command h) [
      | inl (t, k, n) ↦ cc n
      | inr (t, (next, accepted, k, named)) ↦
          let event = option_injective e (event_of command s.next_sequence) named in
          let (j, place, rest) =
            reached initial_journal_state 0 events (e ∷ []) refl (verify_is_true 0 [] events v) r in
          let sequence = ap (λ x. x.sequence) event ∙ place in
          let key = ap (λ x. includes s.seen_idempotency_keys x.idempotency_key) event ∙ t in
          let accepted_order = rest ∙ verify_cons j s.seen_idempotency_keys e [] sequence key in
          let replay =
            reduce_from-append initial_journal_state events (e ∷ []) r
            ∙ ap (λ x. reduce_from s (x ∷ [])) event
            ∙ replay_one s command next accepted
            ∙ ap ok (sym k) in
          ap (λ m. m >> reduce_from initial_journal_state (events ++ e ∷ [])) accepted_order
          ∙ replay
    ]

-- The event that a command adds is its own, at the state's next number.
pub apply_journal_command-event :
    (s : JournalState) (command : JournalCommand) {s' : JournalState} {e : JournalEvent}
    → apply_journal_command s command ≡ ok (s', some e)
    → e ≡ event_of command s.next_sequence
apply_journal_command-event s command {s'} {e} h = elim (applied s command h) [
  | inl (t, k, n) ↦ cc n
  | inr (t, (next, accepted, k, named)) ↦
      option_injective e (event_of command s.next_sequence) named
]
