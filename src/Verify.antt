-- ===== src/Verify.antt =====
-- apps/control-plane/src/verify/verdict.ts: the deterministic verdict over a candidate. The resolver's
-- result is the checks that it requires and those that it triggered, by their codes. The reason of a
-- verdict is the constructor of its text.
pub mod Verdict
pub mod Laws
use sih26_proto.Common.{String, Bool, true, false, Option, List}
use sih26_proto.Policy.{ActionRiskClass}

pub data VerifyVerdict : Type 0 where
  pass fail needs_human : VerifyVerdict

pub data Severity : Type 0 where
  info minor major blocker : Severity

pub data FindingStatus : Type 0 where
  opened retracted fixed_in_revision : FindingStatus

pub record Finding : Type 0 where
  pub severity : Severity
  pub status : FindingStatus
  pub uncited : Bool
  pub id : String

pub data ReviewStatus : Type 0 where
  review_pass review_fail : ReviewStatus

pub record ReviewInput : Type 0 where
  pub role : String
  pub status : ReviewStatus
  pub findings : List Finding

pub data TestOutcome : Type 0 where
  test_pass test_fail flaky_pass error not_run : TestOutcome

pub record TestInput : Type 0 where
  pub layer : String
  pub outcome : TestOutcome

pub record VerdictInput : Type 0 where
  pub candidate_hash : String
  pub sealed_candidate_hash : String
  pub required : List String
  pub triggered : List String
  pub reviews : List ReviewInput
  pub tests : List TestInput
  pub action_risk_class : ActionRiskClass
  pub guarded_approval_valid : Bool
  pub hypothesis_invalidated : Bool
  pub contradiction_unresolved : Bool

pub data VerdictReason : Type 0 where
  hash_changed barred_action invalidating_evidence : VerdictReason
  missing_reports : List String → VerdictReason
  uncited_finding : Severity → VerdictReason
  open_blocker open_major contradiction : VerdictReason
  flaky_check inconclusive_check failed_check : (layer : String) → VerdictReason
  guarded_without_approval all_passed : VerdictReason

pub record VerdictResult : Type 0 where
  pub verdict : VerifyVerdict
  pub reason : VerdictReason
  pub severity_max : Option Severity
