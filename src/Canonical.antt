-- ===== src/Canonical.antt =====
-- packages/contracts/src/canonical.ts: JSON values, the errors of the canonicalization layer, and the
-- functions that other modules call. A text is the list of its UTF-16 code units. What a double is,
-- `Number(raw)` and `Number.isFinite` are JavaScript's: the interface `Numbers`.
pub mod Json
pub mod Scan
pub mod Parser
pub mod Compatible
pub mod Entry
pub mod Grammar
pub mod Lengths
pub mod Distinct
pub mod Cases
pub mod Total
pub mod Admits
pub mod Render
pub mod NumberText
pub mod Strings
pub mod Steps
pub mod RoundTrip
