-- ===== src/ControlPlane/Reservations.antt =====
-- What a new event does to the budget that a Run's admitted work holds.
use sih26_proto.Common.{
  ℕ, nat_eq, string_eq, ◌+◌, ◌≤◌, ◌≡◌, refl, String, true, Option, none, some, List, [], ◌∷◌, ◌++◌,
  includes, arith,
}
use sih26_proto.Journal.{WorkBudget, WorkRecord, WorkCompletion, JournalEvent}
use sih26_proto.ControlPlane.Work.{
  completion_of, request_of, completed_id, completed_work_ids, no_budget, add_budget, reservation,
  reserved_from, admitted_budget_usage, model_turn_limit, tool_call_limit, session_wall_clock_limit,
  run_wall_clock_limit,
}

-- A component of a budget.
pub record IsMeasure (f : WorkBudget → ℕ) : Type 0 where
  pub of_none : f no_budget ≡ 0
  pub of_both : (a b : WorkBudget) → f (add_budget a b) ≡ f a + f b

-- One set of completed works holds another.
abbrev Extends : List String → List String → Type 0
Extends more done = (id : String) → includes done id ≡ true → includes more id ≡ true

completed_id-Extends :
    (more done : List String) (c : Option WorkCompletion)
    → Extends more done
    → Extends (completed_id more c) (completed_id done c)
completed_id-Extends more done none ext = ext
completed_id-Extends more done (some c) ext = λ id seen. ground (arith, ext id)

completed_id-more :
    (done : List String) (c : Option WorkCompletion) → Extends (completed_id done c) done
completed_id-more done none = λ id seen. seen
completed_id-more done (some c) = λ id seen. ground arith

completed_work_ids-append :
    (run_id : String) (es : List JournalEvent) (e : JournalEvent)
    → Extends (completed_work_ids run_id (es ++ e ∷ [])) (completed_work_ids run_id es)
unfolding completed_work_ids
completed_work_ids-append run_id [] e = completed_id-more [] (completion_of run_id e.body)
completed_work_ids-append run_id (d ∷ es) e =
    completed_id-Extends _ _ (completion_of run_id d.body) (completed_work_ids-append run_id es e)

module _ (f : WorkBudget → ℕ) (measure : IsMeasure f) where
  reservation-antitone :
      (more done : List String) (r : Option WorkRecord)
      → Extends more done
      → f (reservation more r) ≤ f (reservation done r)
  unfolding reservation
  reservation-antitone more done none ext = omega arith
  reservation-antitone more done (some w) ext = ground (arith, measure.of_none, ext w.work_id)

  reserved_from-antitone :
      (more done : List String) (run_id : String) (es : List JournalEvent)
      → Extends more done
      → f (reserved_from more run_id es) ≤ f (reserved_from done run_id es)
  unfolding reserved_from
  reserved_from-antitone more done run_id [] ext = omega arith
  reserved_from-antitone more done run_id (e ∷ es) ext = omega (
    arith,
    measure.of_both (reservation more (request_of run_id e.body)) (reserved_from more run_id es),
    measure.of_both (reservation done (request_of run_id e.body)) (reserved_from done run_id es),
    reservation-antitone more done (request_of run_id e.body) ext,
    reserved_from-antitone more done run_id es ext,
  )

  reserved_from-append :
      (done : List String) (run_id : String) (es : List JournalEvent) (e : JournalEvent)
      → f (reserved_from done run_id (es ++ e ∷ []))
        ≡ f (reserved_from done run_id es) + f (reservation done (request_of run_id e.body))
  unfolding reserved_from
  reserved_from-append done run_id [] e = omega (
    arith,
    measure.of_none,
    measure.of_both (reservation done (request_of run_id e.body)) no_budget,
  )
  reserved_from-append done run_id (d ∷ es) e = omega (
    arith,
    measure.of_both (reservation done (request_of run_id d.body))
        (reserved_from done run_id (es ++ e ∷ [])),
    measure.of_both (reservation done (request_of run_id d.body)) (reserved_from done run_id es),
    reserved_from-append done run_id es e,
  )

  -- An event adds at most what its own request reserves.
  pub admitted_budget_usage-append :
      (run_id : String) (es : List JournalEvent) (e : JournalEvent)
      → f (admitted_budget_usage run_id (es ++ e ∷ []))
        ≤ f (admitted_budget_usage run_id es) + f (reservation [] (request_of run_id e.body))
  unfolding admitted_budget_usage
  admitted_budget_usage-append run_id es e =
      let done = completed_work_ids run_id es in
      let more = completed_work_ids run_id (es ++ e ∷ []) in
      omega (
        arith,
        reserved_from-append more run_id es e,
        reserved_from-antitone more done run_id es (completed_work_ids-append run_id es e),
        reservation-antitone more [] (request_of run_id e.body) (λ id seen. cc seen),
      )

turns-IsMeasure : IsMeasure (λ b. b.model_turns)
turns-IsMeasure = record { of_none = refl; of_both = λ a b. refl }

calls-IsMeasure : IsMeasure (λ b. b.non_terminal_tool_calls)
calls-IsMeasure = record { of_none = refl; of_both = λ a b. refl }

session-IsMeasure : IsMeasure (λ b. b.session_wall_clock_ms)
session-IsMeasure = record { of_none = refl; of_both = λ a b. refl }

run-IsMeasure : IsMeasure (λ b. b.run_wall_clock_ms)
run-IsMeasure = record { of_none = refl; of_both = λ a b. refl }

-- A budget within the limits beside another.
pub record IsWithin (beside budget : WorkBudget) : Type 0 where
  pub turns : budget.model_turns + beside.model_turns ≤ model_turn_limit
  pub calls : budget.non_terminal_tool_calls + beside.non_terminal_tool_calls ≤ tool_call_limit
  pub session :
      budget.session_wall_clock_ms + beside.session_wall_clock_ms ≤ session_wall_clock_limit
  pub run : budget.run_wall_clock_ms + beside.run_wall_clock_ms ≤ run_wall_clock_limit

-- The work that a Run has under way holds no more than the limits.
abbrev pub HoldsWithin : List JournalEvent → String → Type 0
HoldsWithin events run_id = IsWithin no_budget (admitted_budget_usage run_id events)

-- A request that fits beside what is held keeps the Run within the limits.
pub HoldsWithin-append :
    (run_id : String) (es : List JournalEvent) (e : JournalEvent)
    → IsWithin (admitted_budget_usage run_id es) (reservation [] (request_of run_id e.body))
    → HoldsWithin (es ++ e ∷ []) run_id
HoldsWithin-append run_id es e fits = record {
  turns = omega (arith, fits.turns, admitted_budget_usage-append _ turns-IsMeasure run_id es e);
  calls = omega (arith, fits.calls, admitted_budget_usage-append _ calls-IsMeasure run_id es e);
  session =
      omega (arith, fits.session, admitted_budget_usage-append _ session-IsMeasure run_id es e);
  run = omega (arith, fits.run, admitted_budget_usage-append _ run-IsMeasure run_id es e);
}

-- Nothing more beside what is held within the limits.
pub IsWithin-nothing : (held : WorkBudget) → IsWithin no_budget held → IsWithin held no_budget
IsWithin-nothing held h = record {
  turns = omega (arith, h.turns);
  calls = omega (arith, h.calls);
  session = omega (arith, h.session);
  run = omega (arith, h.run);
}
