-- ===== src/Verify/Verdict.antt =====
-- apps/control-plane/src/verify/verdict.ts: `computeVerdict`, with a definition for each of its loops.
use sih26_proto.Common.{
  ℕ, String, string_eq, Bool, true, false, not, ◌&&◌, ◌||◌, Option, none, some, List, [], ◌∷◌,
  if◌then◌else◌, ◌==◌, ◌!=◌, any, filter, includes, ltb, codes, starts_with, suc,
}
use sih26_proto.Policy.{is_barred, is_guarded}
use sih26_proto.Verify.{
  VerifyVerdict, Severity, FindingStatus, Finding, ReviewInput, TestOutcome, TestInput,
  VerdictInput, VerdictReason, VerdictResult, pass, fail, needs_human, info, minor, major, blocker,
  opened, test_pass, test_fail, flaky_pass, error, not_run, hash_changed, barred_action,
  invalidating_evidence, missing_reports, uncited_finding, open_blocker, open_major, contradiction,
  flaky_check, inconclusive_check, failed_check, guarded_without_approval, all_passed,
}

-- Whether a check has its report: of a reviewer where its code starts with R, else of a test.
abbrev pub is_reported : List ReviewInput → List TestInput → String → Bool
is_reported reviews tests check =
    if starts_with (codes check) (codes "R")
    then any (λ review. review.role == check) reviews
    else any (λ test. test.layer == check) tests

unfoldable pub missing_required : VerdictInput → List String
missing_required input =
    filter (λ check. not (is_reported input.reviews input.tests check)) input.required

abbrev pub severity_rank : Severity → ℕ
severity_rank info = 0
severity_rank minor = 1
severity_rank major = 2
severity_rank blocker = 3

-- One more than the place of the maximum so far, and 0 where there is none.
abbrev pub current_rank : Option Severity → ℕ
current_rank none = 0
current_rank (some severity) = suc (severity_rank severity)

abbrev pub raise_max : Option Severity → Severity → Option Severity
raise_max maximum severity =
    if ltb (current_rank maximum) (suc (severity_rank severity)) then some severity else maximum

abbrev pub is_open : FindingStatus → Bool
is_open opened = true
is_open _ = false

abbrev pub is_serious : Severity → Bool
is_serious blocker = true
is_serious major = true
is_serious _ = false

-- A scan of findings stops at an uncited serious one, or ends with the maximum of the open ones.
pub data Scan : Type 0 where
  stopped : Severity → Option Severity → Scan
  done : Option Severity → Scan

unfoldable pub scan_findings : Option Severity → List Finding → Scan
scan_findings maximum [] = done maximum
scan_findings maximum (finding ∷ findings) =
    let next = if is_open finding.status then raise_max maximum finding.severity else maximum in
    let rest = scan_findings next findings in
    if not (is_open finding.status)
    then rest
    else if finding.uncited && is_serious finding.severity
    then stopped finding.severity next
    else rest

unfoldable pub scan_reviews : Option Severity → List ReviewInput → Scan
scan_reviews maximum [] = done maximum
scan_reviews maximum (review ∷ reviews) = elim (scan_findings maximum review.findings) [
  | stopped severity reached ↦ stopped severity reached
  | done reached ↦ scan_reviews reached reviews
]

-- What an outcome of a binding check stops the verdict with.
abbrev pub outcome_problem : String → TestOutcome → Option (VerifyVerdict × VerdictReason)
outcome_problem layer test_pass = none
outcome_problem layer flaky_pass = some (needs_human, flaky_check layer)
outcome_problem layer error = some (needs_human, inconclusive_check layer)
outcome_problem layer not_run = some (needs_human, inconclusive_check layer)
outcome_problem layer test_fail = some (fail, failed_check layer)

abbrev pub is_binding : VerdictInput → String → Bool
is_binding input layer = includes input.required layer || includes input.triggered layer

unfoldable pub test_problem : VerdictInput → List TestInput → Option (VerifyVerdict × VerdictReason)
test_problem input [] = none
test_problem input (test ∷ tests) =
    let rest = test_problem input tests in
    if is_binding input test.layer
    then (elim (outcome_problem test.layer test.outcome) [
      | none ↦ rest
      | some problem ↦ some problem
    ])
    else rest

abbrev pub result_of : VerifyVerdict → VerdictReason → Option Severity → VerdictResult
result_of verdict reason severity_max = record {
  verdict = verdict;
  reason = reason;
  severity_max = severity_max;
}

abbrev pub has_severity : Severity → Option Severity → Bool
has_severity blocker (some blocker) = true
has_severity major (some major) = true
has_severity _ _ = false

abbrev pub after_tests :
    VerdictInput → Option Severity → Option (VerifyVerdict × VerdictReason) → VerdictResult
after_tests input maximum (some (verdict, reason)) = result_of verdict reason maximum
after_tests input maximum none =
    if is_guarded input.action_risk_class && not input.guarded_approval_valid
    then result_of needs_human guarded_without_approval maximum
    else result_of pass all_passed maximum

abbrev pub after_scan : VerdictInput → Scan → VerdictResult
after_scan input (stopped severity reached) =
    result_of needs_human (uncited_finding severity) reached
after_scan input (done maximum) =
    if has_severity blocker maximum
    then result_of fail open_blocker maximum
    else if has_severity major maximum
    then result_of fail open_major maximum
    else if input.contradiction_unresolved
    then result_of needs_human contradiction maximum
    else after_tests input maximum (test_problem input input.tests)

abbrev pub after_coverage : VerdictInput → List String → VerdictResult
after_coverage input [] = after_scan input (scan_reviews none input.reviews)
after_coverage input (check ∷ checks) =
    result_of needs_human (missing_reports (check ∷ checks)) none

unfoldable pub compute_verdict : VerdictInput → VerdictResult
unfolding missing_required scan_findings scan_reviews test_problem
compute_verdict input =
    if input.candidate_hash != input.sealed_candidate_hash
    then result_of fail hash_changed none
    else if is_barred input.action_risk_class
    then result_of fail barred_action (some blocker)
    else if input.hypothesis_invalidated
    then result_of fail invalidating_evidence none
    else after_coverage input (missing_required input)
