-- ===== src/Transitions/Graph.antt =====
-- The legal transitions of packages/contracts/src/transitions.ts as relations on states, and what
-- these say of a Run's and of an Incident's life.
use sih26_proto.Common.{◌≡◌, refl, ◌↔◌, ◌≢◌, Bool, true, false, some, arith, Option-cases, inl, inr}
use sih26_proto.Result.{ok}
use sih26_proto.Transitions.{
  IncidentState, RunState, opened, resolved, closed, queued, running, paused, awaiting_human,
  interrupted, completed, failed, cancelled, ClosureReason, RunOutcome, RunFailureReason,
  TransitionOptions, is_legal_incident_transition, is_legal_run_transition, is_run_terminal,
}

-- The edges of a Run's life, with what an edge needs: an outcome or a failure reason.
pub data RunEdge (options : TransitionOptions) : RunState → RunState → Type 0 where
  start : RunEdge options queued running
  drop : RunEdge options queued cancelled
  pause : RunEdge options running paused
  wait : RunEdge options running awaiting_human
  interrupt : RunEdge options running interrupted
  complete : {o : RunOutcome} → options.outcome ≡ some o → RunEdge options running completed
  fail : {r : RunFailureReason} → options.failure_reason ≡ some r → RunEdge options running failed
  cancel : RunEdge options running cancelled
  resume : RunEdge options paused running
  abandon : RunEdge options paused cancelled
  answer : RunEdge options awaiting_human running
  decline : RunEdge options awaiting_human cancelled
  recover : RunEdge options interrupted running
  lose :
      {r : RunFailureReason} → options.failure_reason ≡ some r → RunEdge options interrupted failed
  give_up : RunEdge options interrupted cancelled

ruleset run_edges = (
  start, drop, pause, wait, interrupt, complete, fail, cancel, resume, abandon, answer, decline,
  recover, lose, give_up,
)

legal-RunEdge :
    (s t : RunState) (options : TransitionOptions)
    → is_legal_run_transition (some s) t options ≡ ok true
    → RunEdge options s t
unfolding is_legal_run_transition
legal-RunEdge s t options h = elim (Option-cases options.outcome) [
  | inl p ↦ elim (Option-cases options.failure_reason) [
    | inl q ↦ grind (arith, run_edges)
    | inr (r, q) ↦ grind (arith, run_edges)
  ]
  | inr (o, p) ↦ elim (Option-cases options.failure_reason) [
    | inl q ↦ grind (arith, run_edges)
    | inr (r, q) ↦ grind (arith, run_edges)
  ]
]

RunEdge-legal :
    {s t : RunState} {options : TransitionOptions}
    → RunEdge options s t
    → is_legal_run_transition (some s) t options ≡ ok true
unfolding is_legal_run_transition
RunEdge-legal start = refl
RunEdge-legal (complete p) = rw p
RunEdge-legal (fail p) = rw p
RunEdge-legal (lose p) = rw p
RunEdge-legal _ = refl

-- A transition between two Run states is accepted exactly when it is an edge of the Run diagram of
-- `RunEdge`: completing needs an outcome, and failing a failure reason.
pub is_legal_run_transition_iff :
    (s t : RunState) (options : TransitionOptions)
    → (is_legal_run_transition (some s) t options ≡ ok true) ↔ RunEdge options s t
is_legal_run_transition_iff s t options = (legal-RunEdge s t options, RunEdge-legal)

-- Any number of accepted Run transitions, each with options of its own.
pub data RunPath : RunState → RunState → Type 0 where
  here : {s : RunState} → RunPath s s
  then :
      {s t u : RunState} (options : TransitionOptions)
      → is_legal_run_transition (some s) t options ≡ ok true
      → RunPath t u
      → RunPath s u

terminal_stays :
    (s t : RunState) (options : TransitionOptions) {b : Bool}
    → is_run_terminal s ≡ true
    → is_legal_run_transition (some s) t options ≢ ok b
unfolding is_legal_run_transition is_run_terminal
terminal_stays s t options h = ground arith

-- A terminal Run state has no way out: whatever is accepted after it leaves the state as it is.
pub RunPath-terminal : {s t : RunState} → RunPath s t → is_run_terminal s ≡ true → t ≡ s
RunPath-terminal here h = refl
RunPath-terminal (then {s} {t} options legal path) h = absurd (terminal_stays s t options h legal)

abbrev pub full : TransitionOptions
full = record {
  closure_reason = some ClosureReason.human_closed;
  outcome = some RunOutcome.handoff;
  failure_reason = some RunFailureReason.undiagnosable;
}

to_running : (s : RunState) → is_run_terminal s ≡ false → RunPath s running
unfolding is_run_terminal is_legal_run_transition
to_running queued h = then full refl here
to_running running h = here
to_running paused h = then full refl here
to_running awaiting_human h = then full refl here
to_running interrupted h = then full refl here
to_running s h = cc

RunPath-trans : {s t u : RunState} → RunPath s t → RunPath t u → RunPath s u
RunPath-trans here q = q
RunPath-trans (then options legal p) q = then options legal (RunPath-trans p q)

from_running : (t : RunState) → is_run_terminal t ≡ true → RunPath running t
unfolding is_run_terminal is_legal_run_transition
from_running completed h = then full refl here
from_running failed h = then full refl here
from_running cancelled h = then full refl here
from_running t h = cc

-- A Run that has not ended is never stuck: every terminal state can still be reached by accepted
-- transitions.
pub RunPath-live :
    (s t : RunState) → is_run_terminal s ≡ false → is_run_terminal t ≡ true → RunPath s t
RunPath-live s t h k = RunPath-trans (to_running s h) (from_running t k)

-- Any number of accepted Incident transitions.
pub data IncidentPath : IncidentState → IncidentState → Type 0 where
  here : {s : IncidentState} → IncidentPath s s
  then :
      {s t u : IncidentState} (options : TransitionOptions)
      → is_legal_incident_transition (some s) t options ≡ ok true
      → IncidentPath t u
      → IncidentPath s u

closed_stays :
    (t : IncidentState) (options : TransitionOptions)
    → is_legal_incident_transition (some closed) t options ≢ ok true
unfolding is_legal_incident_transition
closed_stays t options = ground arith

-- The edges of an Incident's life; closing needs a closure reason.
pub data IncidentEdge (options : TransitionOptions) : IncidentState → IncidentState → Type 0 where
  stay : IncidentEdge options opened opened
  resolve : IncidentEdge options opened resolved
  reopen : IncidentEdge options resolved opened
  close : {r : ClosureReason} → options.closure_reason ≡ some r → IncidentEdge options opened closed
  confirm :
      {r : ClosureReason} → options.closure_reason ≡ some r → IncidentEdge options resolved closed

legal-IncidentEdge :
    (s t : IncidentState) (options : TransitionOptions)
    → is_legal_incident_transition (some s) t options ≡ ok true
    → IncidentEdge options s t
unfolding is_legal_incident_transition
legal-IncidentEdge s t options h = elim (Option-cases options.closure_reason) [
  | inl p ↦ grind (arith, stay, resolve, reopen, close, confirm)
  | inr (r, p) ↦ grind (arith, stay, resolve, reopen, close, confirm)
]

IncidentEdge-legal :
    {s t : IncidentState} {options : TransitionOptions}
    → IncidentEdge options s t
    → is_legal_incident_transition (some s) t options ≡ ok true
unfolding is_legal_incident_transition
IncidentEdge-legal (close p) = rw p
IncidentEdge-legal (confirm p) = rw p
IncidentEdge-legal _ = refl

-- A transition between two Incident states is accepted exactly when it is an edge of the Incident
-- diagram of `IncidentEdge`: closing needs a closure reason.
pub is_legal_incident_transition_iff :
    (s t : IncidentState) (options : TransitionOptions)
    → (is_legal_incident_transition (some s) t options ≡ ok true) ↔ IncidentEdge options s t
is_legal_incident_transition_iff s t options = (legal-IncidentEdge s t options, IncidentEdge-legal)

-- A closed Incident stays closed under any accepted transitions.
pub IncidentPath-closed : {s t : IncidentState} → IncidentPath s t → s ≡ closed → t ≡ closed
IncidentPath-closed here e = e
IncidentPath-closed (then {t} options legal path) e =
    absurd (closed_stays t options (rw e at legal))
