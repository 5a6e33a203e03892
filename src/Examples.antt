-- ===== src/Examples.antt =====
-- Concrete runs of the definitions, and the theorems applied to them: journals, JSON texts, masked
-- payloads and paths of packages/contracts/src/, and policies, gates, verdicts, leases and admitted work
-- of apps/control-plane/src/.
mod JournalRun
mod PolicyRun
mod LeaseRun
mod StageRun
mod CanonicalRun
mod WorkRun
mod RedactionRun
