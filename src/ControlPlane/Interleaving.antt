-- ===== src/ControlPlane/Interleaving.antt =====
-- Two journal services of apps/control-plane/src/core/journal-service.ts on the rows of one Incident, in
-- any order of their commands.
use mathlib.Core.List.{append-nil, append_assoc}
use sih26_proto.Common.{◌≡◌, refl, ap, ◌∙◌, sym, subst, Option, none, some, List, [], ◌∷◌, ◌++◌}
use sih26_proto.Result.{Result, ok, err, IntegrityError}
use sih26_proto.Journal.{JournalEvent, JournalCommand}
use sih26_proto.Journal.Replay.{reduce_journal_events}
use sih26_proto.ControlPlane.JournalService.{CacheEntry, ApplyResult, apply}
use sih26_proto.ControlPlane.Shared.{
  IsCurrent, empty, cached, Replays, Outcome, known, refused, grown, apply-Outcome,
}

-- Two services on the same rows, and what happens to them: a command of one, or `invalidate` of one.
pub record Shared : Type 0 where
  pub rows : List JournalEvent
  pub left : Option CacheEntry
  pub right : Option CacheEntry

pub data Turn : Type 0 where
  left_applies : JournalCommand → Turn
  right_applies : JournalCommand → Turn
  left_invalidates : Turn
  right_invalidates : Turn

abbrev kept_left :
    Shared → Result (ApplyResult × CacheEntry × List JournalEvent) IntegrityError → Shared
kept_left s (err thrown) = s
kept_left s (ok (_, entry, rows)) = record s { rows = rows; left = some entry }

abbrev kept_right :
    Shared → Result (ApplyResult × CacheEntry × List JournalEvent) IntegrityError → Shared
kept_right s (err thrown) = s
kept_right s (ok (_, entry, rows)) = record s { rows = rows; right = some entry }

unfoldable pub turn : Shared → Turn → Shared
turn s (left_applies command) = kept_left s (apply s.left s.rows command)
turn s (right_applies command) = kept_right s (apply s.right s.rows command)
turn s left_invalidates = record s { left = none }
turn s right_invalidates = record s { right = none }

unfoldable pub turns : Shared → List Turn → Shared
turns s [] = s
turns s (t ∷ ts) = turns (turn s t) ts

pub record IsShared (s : Shared) : Type 0 where
  pub replays : Replays s.rows
  pub left_current : IsCurrent s.rows s.left
  pub right_current : IsCurrent s.rows s.right

IsCurrent-append :
    (rows : List JournalEvent) (e : JournalEvent) (cache : Option CacheEntry)
    → IsCurrent rows cache
    → IsCurrent (rows ++ e ∷ []) cache
IsCurrent-append rows e none empty = empty
IsCurrent-append rows e (some entry) (cached behind) = cached (record {
  later = behind.later ++ e ∷ [];
  splits = ap (λ xs. xs ++ e ∷ []) behind.splits ∙ append_assoc entry.events behind.later (e ∷ []);
  replays = behind.replays;
})

-- After an answer the rows replay, and both caches are the replay of first rows.
after-Outcome :
    {before : CacheEntry} {command : JournalCommand} (rows : List JournalEvent)
    (other : Option CacheEntry) (after : ApplyResult × CacheEntry × List JournalEvent)
    → Replays rows
    → IsCurrent rows other
    → Outcome rows before command after
    → Replays after.2 × IsCurrent after.2 (some after.1) × IsCurrent after.2 other
after-Outcome rows other after replays current (known behind) = (replays, cached behind, current)
after-Outcome rows other after replays current (refused e behind) =
    (replays, cached behind, current)
after-Outcome rows other after replays current
      (grown {entry} {stored} e state at_end replayed same_events same_state all own) =
    (
      (state, replayed),
      cached (record {
        later = [];
        splits = sym (append-nil entry.events ∙ same_events);
        replays = ap reduce_journal_events same_events ∙ replayed ∙ ap ok (sym same_state);
      }),
      subst (λ xs. IsCurrent xs other) (sym at_end) (IsCurrent-append rows e other current),
    )

turn-IsShared : (s : Shared) (t : Turn) → IsShared s → IsShared (turn s t)
unfolding turn
turn-IsShared s (left_applies command) shared = left_kept (apply s.left s.rows command) refl
  where
    left_kept :
        (answer : Result (ApplyResult × CacheEntry × List JournalEvent) IntegrityError)
        → apply s.left s.rows command ≡ answer
        → IsShared (kept_left s answer)
    left_kept (err thrown) h = shared
    left_kept (ok after) h =
        let (replays, own, others) =
          let (_, _, outcome) =
            apply-Outcome s.left s.rows command after shared.left_current shared.replays h in
          after-Outcome s.rows s.right after shared.replays shared.right_current outcome in
        record { replays = replays; left_current = own; right_current = others }
turn-IsShared s (right_applies command) shared = right_kept (apply s.right s.rows command) refl
  where
    right_kept :
        (answer : Result (ApplyResult × CacheEntry × List JournalEvent) IntegrityError)
        → apply s.right s.rows command ≡ answer
        → IsShared (kept_right s answer)
    right_kept (err thrown) h = shared
    right_kept (ok after) h =
        let (replays, own, others) =
          let (_, _, outcome) =
            apply-Outcome s.right s.rows command after shared.right_current shared.replays h in
          after-Outcome s.rows s.left after shared.replays shared.left_current outcome in
        record { replays = replays; left_current = others; right_current = own }
turn-IsShared s left_invalidates shared = record {
  replays = shared.replays;
  left_current = empty;
  right_current = shared.right_current;
}
turn-IsShared s right_invalidates shared = record {
  replays = shared.replays;
  left_current = shared.left_current;
  right_current = empty;
}

-- Two services that share an Incident's rows never write a journal that does not replay, and never hold
-- a cache that is not the replay of first rows, in any order of their commands and invalidations.
pub turns-IsShared : (s : Shared) (ts : List Turn) → IsShared s → IsShared (turns s ts)
unfolding turns
turns-IsShared s [] shared = shared
turns-IsShared s (t ∷ ts) shared = turns-IsShared (turn s t) ts (turn-IsShared s t shared)
