-- ===== src/Lib.antt =====
-- The Self-Incident-Healing prototype: a Control Plane that opens an Incident for a trigger, runs a
-- Worker through the stages detect, diagnose, repair, verify, release and watch, and lets a change out
-- only through fixed rules of policy, verification and gates. Everything that happens is an event of an
-- append-only journal, from which the state of the Incident is rebuilt.
--
-- How the parts interact. packages/contracts holds the data and the pure rules that every part shares:
-- the transitions of Incidents, Runs and stages (transitions.ts) and the reducer of the journal
-- (journal.ts), which calls them for each event. apps/control-plane keeps the journal and asks, before
-- an action, the Policy Service (core/policy.ts), then the verdict over a candidate (verify/verdict.ts),
-- then a gate (gates/release-gate.ts, gates/action-gate.ts). A Worker and the brokers hold leases and
-- one-use permits (leases/lease-service.ts), rows of the store (store/store.ts).
--
-- Files, and the code that each one models:
--   Result                packages/contracts/src/result.ts, errors.ts
--   Transitions           packages/contracts/src/transitions.ts: isLegalIncidentTransition,
--                         isLegalRunTransition, isRunTerminal; Transitions/Graph: their diagrams
--   Stages                packages/contracts/src/transitions.ts: checkStageRecords; Stages/Moves: its loop
--                         body as a relation, Stages/Invariant, Stages/History: what it accepts
--   Journal               packages/contracts/src/journal.ts: the state and the events;
--                         Journal/Outcome: checkTerminalOutcome; Journal/Moves and Journal/Works: the
--                         cases of applyJournalEvent; Journal/Reducer: the switch; Journal/Replay:
--                         verifyJournalSequence, reduceJournalEvents, applyJournalCommand.
--                         Journal/Changes: an accepted event as a relation of states, on which
--                         Journal/Invariant, Journal/Replayed and Journal/Finality rest;
--                         Journal/Commands: commands against replay; Journal/RunList: lists of Runs
--   Policy                apps/control-plane/src/core/policy.ts: Policy/Risk, Policy/Calendar,
--                         Policy/Decision, Policy/WallTime (wallTimeInZone); Policy/Laws, Policy/Windows
--                         and Policy/Zones: what they come to
--   Gates                 apps/control-plane/src/gates/release-gate.ts and action-gate.ts;
--                         Gates/Hypotheses: evaluateHypotheses of gates/hypothesis-gate.ts
--   Verify                apps/control-plane/src/verify/verdict.ts: computeVerdict
--   Leases                apps/control-plane/src/leases/lease-service.ts, with Leases/Rows for the
--                         statements of apps/control-plane/src/store/store.ts; Leases/Operations: any
--                         order of them; Leases/Inversions: what a success has found
--   Canonical             packages/contracts/src/canonical.ts: Canonical/Scan and Canonical/Parser for the
--                         strict parser, Canonical/Compatible for assertJsonCompatible, Canonical/Entry
--                         for the exported functions; Canonical/Grammar: what I-JSON is;
--                         Canonical/Lengths, Canonical/Total, Canonical/Admits: what is read and left;
--                         Canonical/Render, Canonical/Steps, Canonical/RoundTrip: a printer, read back
--   Redaction             packages/contracts/src/redaction.ts: the pointers to masked fields;
--                         Redaction/Pointers, Redaction/Written, Redaction/Children and Redaction/Laws: what
--                         they point to
--   Paths                 packages/contracts/src/paths.ts: the paths of a saved bundle;
--                         Paths/Segments, Paths/Normal and Paths/Laws: which of them are taken
--   ControlPlane          apps/control-plane/src/core: ControlPlane/JournalService for journal-service.ts,
--                         with ControlPlane/Sequences, ControlPlane/Shared and ControlPlane/Interleaving
--                         for services that share rows; ControlPlane/Work and ControlPlane/Admission
--                         for the Orchestrator's work in state-machine.ts and journal-commands.ts, with
--                         ControlPlane/Reservations, ControlPlane/Validation, ControlPlane/CurrentStage,
--                         ControlPlane/Completed, ControlPlane/Permitted, ControlPlane/Budgets,
--                         ControlPlane/Sequence, ControlPlane/Cancellation and
--                         ControlPlane/Decisions
--   Common                numbers, texts, lists and equality that the others share
--   Examples              concrete runs
--
-- Correspondence. State is an explicit argument and result, as the reducer's clone of it makes it; an
-- expected failure is a value of Result, with the code of the error and without its text. A field that
-- the modelled code does not read is left out. A set or a map is a list of its members or pairs, or a
-- function. Numbers are natural numbers; an instant is in milliseconds. A conditional with early returns
-- is the same conditional, in the same order.
--
-- Bounds. Every loop is structural recursion on the list that it walks, but for the strict JSON parser,
-- whose recursion is on fuel: each call of a value and each turn of a loop costs one, and the entry
-- point gives twice the length of the text and one, which Canonical/Total shows to be enough.
--
-- Parameters. `format` of Policy/WallTime is what the runtime's Intl writes of an instant in a zone, from
-- which wallTimeInZone reads the civil time; `wall_time` of Policy/Calendar is any function in the place of
-- wallTimeInZone. `token_hash` of Leases/Service is SHA-256; random identifiers and tokens are
-- arguments. Canonical/Json's `Numbers` is JavaScript's Number and Number.isFinite, and
-- `canonicalize` of Canonical/Entry the package of that name. The clock of the service and that of the database are separate arguments. `toLowerCase` is
-- modelled as far as it makes ASCII letters, which is all that the search for barred words reads.
-- `date_parse` of ControlPlane/Work is Date.parse, where it gives a finite number. The Control Plane is that of one Incident, with
-- its policy in place and one service's memory. What happens to the Orchestrator's work is a sequence of turns: a request is its
-- guards, which nothing comes between, and what follows them, which ControlPlane/Sequence lets come at any
-- later time with a Run and a verified lease found in between. The checks of a request and the append of
-- its event are one turn, as are those of a completion; in the code the version of the policy is read
-- between them. The lock admits one request at a time. startRun is modelled up to its first wait, and what
-- follows it are commands and operations on leases. In JSON values an object is a tree, and a reference to
-- an object around it is marked as such, which stands for the set of objects that
-- assertJsonCompatible carries.
-- The tables of leases and permits are keyed, as apps/control-plane/db/init.sql declares them: an insert
-- of a key that is there is refused, and a key names at most one row.
--
-- Not modelled: the rest of the state machine and the HTTP server of the Control Plane, the eight checks of the
-- Hypothesis gate, the applicability resolver, artifacts, saved bundles, the brokers, the Pi skills, the
-- web workspace and the demonstration, which are either input and output or are left for later modules.
-- Hashing, the database engine, the schema validator and the time zone data are libraries.
mod Common
pub mod Result
pub mod Transitions
pub mod Stages
pub mod Journal
pub mod Policy
pub mod Gates
pub mod Verify
pub mod Leases
pub mod Canonical
pub mod Redaction
pub mod Paths
pub mod ControlPlane
pub mod Examples
