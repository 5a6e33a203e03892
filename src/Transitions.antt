-- ===== src/Transitions.antt =====
-- packages/contracts/src/transitions.ts, the legal transitions of an Incident and of a Run, over the
-- enumerations of packages/contracts/src/schemas/incident.ts. `null` and `undefined` are `none`. The
-- state "open" is `opened`, since `open` is reserved.
pub mod Graph
use sih26_proto.Common.{
  ℕ, ◌≡◌, refl, ◌↔◌, Bool, true, false, not, ◌&&◌, ◌||◌, Option, none, some, List, [], ◌∷◌, arith,
  if◌then◌else◌, is_some, nat_beq, Eq, ◌==◌, includes,
}
use sih26_proto.Result.{Result, ok, err, IntegrityError, illegal_transition}

pub data IncidentState : Type 0 where
  opened resolved closed : IncidentState

pub data RunState : Type 0 where
  queued running paused awaiting_human interrupted completed failed cancelled : RunState

pub data RunOutcome : Type 0 where
  verified_remediation symptom_cleared diagnosis_only handoff : RunOutcome

pub data RunFailureReason : Type 0 where
  undiagnosable no_hypothesis hypothesis_invalidated no_remediation verification_failed gate_failed
        rollback_required unstable_worker interrupted_unrecoverable :
      RunFailureReason

pub data ClosureReason : Type 0 where
  symptom_cleared attempt_limit human_closed : ClosureReason

-- Equality of states is equality of their places in the enumeration.
abbrev pub incident_index : IncidentState → ℕ
incident_index opened = 0
incident_index resolved = 1
incident_index closed = 2

abbrev pub incident_beq : IncidentState → IncidentState → Bool
incident_beq a b = nat_beq (incident_index a) (incident_index b)

pub incident_beq_iff : (a b : IncidentState) → (incident_beq a b ≡ true) ↔ (a ≡ b)
incident_beq_iff a b = ground arith

instance abbrev pub incident_eq : Eq IncidentState
incident_eq = record { same_as = incident_beq; same_iff = incident_beq_iff }

abbrev pub run_index : RunState → ℕ
run_index queued = 0
run_index running = 1
run_index paused = 2
run_index awaiting_human = 3
run_index interrupted = 4
run_index completed = 5
run_index failed = 6
run_index cancelled = 7

abbrev pub run_beq : RunState → RunState → Bool
run_beq a b = nat_beq (run_index a) (run_index b)

pub run_beq_iff : (a b : RunState) → (run_beq a b ≡ true) ↔ (a ≡ b)
run_beq_iff a b = ground arith

instance abbrev pub run_eq : Eq RunState
run_eq = record { same_as = run_beq; same_iff = run_beq_iff }

-- INCIDENT_TRANSITIONS
abbrev pub incident_transitions : IncidentState → List IncidentState
incident_transitions opened = opened ∷ resolved ∷ closed ∷ []
incident_transitions resolved = opened ∷ closed ∷ []
incident_transitions closed = []

-- RUN_TRANSITIONS
abbrev pub run_transitions : RunState → List RunState
run_transitions queued = running ∷ cancelled ∷ []
run_transitions running =
    paused ∷ awaiting_human ∷ interrupted ∷ completed ∷ failed ∷ cancelled ∷ []
run_transitions paused = running ∷ cancelled ∷ []
run_transitions awaiting_human = running ∷ cancelled ∷ []
run_transitions interrupted = running ∷ failed ∷ cancelled ∷ []
run_transitions completed = []
run_transitions failed = []
run_transitions cancelled = []

-- RUN_TERMINAL
abbrev pub run_terminal : List RunState
run_terminal = completed ∷ failed ∷ cancelled ∷ []

pub record TransitionOptions : Type 0 where
  pub closure_reason : Option ClosureReason
  pub outcome : Option RunOutcome
  pub failure_reason : Option RunFailureReason

-- The lists CLOSURE_REASONS, RUN_OUTCOMES and RUN_FAILURE_REASONS hold every value of their types,
-- so a reason that is given is always in its list.
unfoldable pub is_legal_incident_transition :
    Option IncidentState → IncidentState → TransitionOptions → Result Bool IntegrityError
is_legal_incident_transition none to options =
    if to == opened then ok true else err illegal_transition
is_legal_incident_transition (some from) to options =
    if not (includes (incident_transitions from) to)
    then err illegal_transition
    else if to == closed && not (is_some options.closure_reason)
    then err illegal_transition
    else ok true

unfoldable pub is_legal_run_transition :
    Option RunState → RunState → TransitionOptions → Result Bool IntegrityError
is_legal_run_transition none to options = if to == queued then ok true else err illegal_transition
is_legal_run_transition (some from) to options =
    if not (includes (run_transitions from) to)
    then err illegal_transition
    else if to == completed && not (is_some options.outcome)
    then err illegal_transition
    else if to == failed && not (is_some options.failure_reason)
    then err illegal_transition
    else ok true

unfoldable pub is_run_terminal : RunState → Bool
is_run_terminal state = includes run_terminal state
