-- ===== src/ControlPlane.antt =====
-- apps/control-plane/src/core: the journal service and the admission of an Orchestrator's work, over the
-- reducer of the journal and the leases.
pub mod JournalService
pub mod Sequences
pub mod Shared
pub mod Interleaving
pub mod Work
pub mod Admission
pub mod Reservations
pub mod Validation
pub mod CurrentStage
pub mod Completed
pub mod Permitted
pub mod Budgets
pub mod Sequence
pub mod Cancellation
pub mod Decisions
