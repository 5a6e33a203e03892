-- ===== src/Verify/Laws.antt =====
-- What a pass of `computeVerdict` in apps/control-plane/src/verify/verdict.ts says.
use sih26_proto.Verify.{
  Severity, Finding, ReviewInput, TestOutcome, TestInput, VerdictInput, VerifyVerdict,
  VerdictReason, pass, test_pass,
}
use sih26_proto.Common.{
  beq_refl, subst, refl, ◌≡◌, ◌≢◌, ◌↔◌, ap, sym, ◌∙◌, String, string_eq, Bool, true, false, not,
  ◌&&◌, ◌||◌, Option, none, some, List, [], ◌∷◌, ◌!=◌, all, arith, eq_of_bne, Bool-cases, inl, inr,
}
use sih26_proto.Policy.{ActionRiskClass, barred, guarded, is_barred, is_guarded}
use sih26_proto.Verify.Verdict.{
  missing_required, raise_max, is_open, is_serious, Scan, stopped, done, scan_findings,
  scan_reviews, outcome_problem, is_binding, test_problem, after_tests, after_scan, after_coverage,
  compute_verdict,
}

-- A finding that does not stand in the way: closed, or not serious.
abbrev pub is_harmless : Finding → Bool
is_harmless finding = not (is_open finding.status) || not (is_serious finding.severity)

abbrev pub is_serious_max : Option Severity → Bool
is_serious_max none = false
is_serious_max (some severity) = is_serious severity

abbrev pub ends_clean : Scan → Bool
ends_clean (stopped severity reached) = false
ends_clean (done maximum) = not (is_serious_max maximum)

and_assoc : (a b c : Bool) → ((a && b) && c) ≡ (a && (b && c))
and_assoc a b c = ground arith

raise_serious :
    (maximum : Option Severity) (severity : Severity)
    → is_serious_max (raise_max maximum severity) ≡ (is_serious_max maximum || is_serious severity)
raise_serious none severity = ground arith
raise_serious (some maximum) severity = ground arith

scan_findings-clean :
    (maximum : Option Severity) (findings : List Finding)
    → ends_clean (scan_findings maximum findings)
      ≡ (not (is_serious_max maximum) && all is_harmless findings)
unfolding scan_findings
scan_findings-clean maximum [] = ground arith
scan_findings-clean maximum (finding ∷ findings) = ground (
  arith,
  raise_serious maximum finding.severity,
  scan_findings-clean (raise_max maximum finding.severity) findings,
  scan_findings-clean maximum findings,
)

abbrev pub is_clean_review : ReviewInput → Bool
is_clean_review review = all is_harmless review.findings

go_on-clean :
    (scan : Scan) (reviews : List ReviewInput)
    → ((maximum : Option Severity)
        → ends_clean (scan_reviews maximum reviews)
          ≡ (not (is_serious_max maximum) && all is_clean_review reviews))
    → ends_clean (elim scan [
      | stopped severity reached ↦ stopped severity reached
      | done reached ↦ scan_reviews reached reviews
    ])
      ≡ (ends_clean scan && all is_clean_review reviews)
go_on-clean (stopped severity reached) reviews h = refl
go_on-clean (done maximum) reviews h = h maximum

scan_reviews-clean :
    (maximum : Option Severity) (reviews : List ReviewInput)
    → ends_clean (scan_reviews maximum reviews)
      ≡ (not (is_serious_max maximum) && all is_clean_review reviews)
unfolding scan_reviews
scan_reviews-clean maximum [] = ground arith
scan_reviews-clean maximum (review ∷ reviews) =
    go_on-clean (scan_findings maximum review.findings) reviews
      (λ reached. scan_reviews-clean reached reviews)
    ∙ ap (λ b. b && all is_clean_review reviews) (scan_findings-clean maximum review.findings)
    ∙ and_assoc (not (is_serious_max maximum)) (is_clean_review review)
        (all is_clean_review reviews)

abbrev pub is_test_pass : TestOutcome → Bool
is_test_pass test_pass = true
is_test_pass _ = false

abbrev pub is_satisfied : VerdictInput → TestInput → Bool
is_satisfied input test = not (is_binding input test.layer) || is_test_pass test.outcome

not_fail : VerifyVerdict.fail ≢ pass
not_fail e = cc e

not_human : VerifyVerdict.needs_human ≢ pass
not_human e = cc e

first_of {ℓ κ} :
    {A : Type ℓ} {B : Type κ} {a a' : A} {b b' : B}
    → ◌≡◌ {A = Option (A × B)} (some (a, b)) (some (a', b'))
    → a ≡ a'
first_of h = cc h

problem_iff :
    (layer : String) (outcome : TestOutcome)
    → (outcome_problem layer outcome ≡ none) ↔ (is_test_pass outcome ≡ true)
problem_iff layer outcome = ground arith

test_problem_iff :
    (input : VerdictInput) (tests : List TestInput)
    → (test_problem input tests ≡ none) ↔ (all (is_satisfied input) tests ≡ true)
unfolding test_problem
test_problem_iff input [] = ground arith
test_problem_iff input (test ∷ tests) =
    ground (arith, problem_iff test.layer test.outcome, test_problem_iff input tests)

-- A candidate that may go on to release.
pub record IsVerified (input : VerdictInput) : Type 0 where
  pub bound : input.candidate_hash ≡ input.sealed_candidate_hash
  pub not_barred : input.action_risk_class ≢ barred
  pub standing : input.hypothesis_invalidated ≡ false
  pub reported : missing_required input ≡ []
  pub harmless : all is_clean_review input.reviews ≡ true
  pub settled : input.contradiction_unresolved ≡ false
  pub tested : all (is_satisfied input) input.tests ≡ true
  pub approved : input.action_risk_class ≡ guarded → input.guarded_approval_valid ≡ true

outcome_stops :
    (layer : String) (outcome : TestOutcome) (verdict : VerifyVerdict) (reason : VerdictReason)
    → outcome_problem layer outcome ≡ some (verdict, reason)
    → verdict ≢ pass
outcome_stops layer TestOutcome.test_pass verdict reason h e = cc h
outcome_stops layer TestOutcome.test_fail verdict reason h e = not_fail (first_of h ∙ e)
outcome_stops layer TestOutcome.flaky_pass verdict reason h e = not_human (first_of h ∙ e)
outcome_stops layer TestOutcome.error verdict reason h e = not_human (first_of h ∙ e)
outcome_stops layer TestOutcome.not_run verdict reason h e = not_human (first_of h ∙ e)

first_stops :
    (layer : String) (outcome : TestOutcome) (rest : Option (VerifyVerdict × VerdictReason))
    → ((verdict : VerifyVerdict) (reason : VerdictReason)
        → rest ≡ some (verdict, reason)
        → verdict ≢ pass)
    → (verdict : VerifyVerdict) (reason : VerdictReason)
    → (elim (outcome_problem layer outcome) [ none ↦ rest | some problem ↦ some problem ])
      ≡ some (verdict, reason)
    → verdict ≢ pass
first_stops layer TestOutcome.test_pass rest k verdict reason h = k verdict reason h
first_stops layer TestOutcome.test_fail rest k verdict reason h =
    outcome_stops layer TestOutcome.test_fail verdict reason h
first_stops layer TestOutcome.flaky_pass rest k verdict reason h =
    outcome_stops layer TestOutcome.flaky_pass verdict reason h
first_stops layer TestOutcome.error rest k verdict reason h =
    outcome_stops layer TestOutcome.error verdict reason h
first_stops layer TestOutcome.not_run rest k verdict reason h =
    outcome_stops layer TestOutcome.not_run verdict reason h

problem_stops :
    (input : VerdictInput) (tests : List TestInput) (verdict : VerifyVerdict)
    (reason : VerdictReason)
    → test_problem input tests ≡ some (verdict, reason)
    → verdict ≢ pass
unfolding test_problem
problem_stops input [] verdict reason h = cc h
problem_stops input (test ∷ tests) verdict reason h =
    elim (Bool-cases (is_binding input test.layer)) [
      | inl t ↦
          first_stops test.layer test.outcome (test_problem input tests) (problem_stops input tests)
            verdict reason (rw t at h)
      | inr t ↦ problem_stops input tests verdict reason (rw t at h)
    ]

after_tests_iff :
    (input : VerdictInput) (maximum : Option Severity)
    (problem : Option (VerifyVerdict × VerdictReason))
    → ((verdict : VerifyVerdict) (reason : VerdictReason)
        → problem ≡ some (verdict, reason)
        → verdict ≢ pass)
    → ((after_tests input maximum problem).verdict ≡ pass) ↔ (
        (problem ≡ none)
        × ((is_guarded input.action_risk_class && not input.guarded_approval_valid) ≡ false))
after_tests_iff input maximum none n = ground arith
after_tests_iff input maximum (some (verdict, reason)) n =
    (λ e. absurd (n verdict reason refl e), λ (e, _). cc e)

after_scan_iff :
    (input : VerdictInput) (scan : Scan)
    → ((after_scan input scan).verdict ≡ pass) ↔ (
        (ends_clean scan ≡ true)
        × (input.contradiction_unresolved ≡ false)
        × (test_problem input input.tests ≡ none)
        × ((is_guarded input.action_risk_class && not input.guarded_approval_valid) ≡ false))
after_scan_iff input (stopped severity reached) = ground arith
after_scan_iff input (done none) = ground (
  arith,
  after_tests_iff input none (test_problem input input.tests) (problem_stops input input.tests),
)
after_scan_iff input (done (some severity)) = ground (
  arith,
  after_tests_iff input (some severity) (test_problem input input.tests)
      (problem_stops input input.tests),
)

after_coverage_iff :
    (input : VerdictInput) (missing : List String)
    → ((after_coverage input missing).verdict ≡ pass)
      ↔ ((missing ≡ []) × ((after_scan input (scan_reviews none input.reviews)).verdict ≡ pass))
after_coverage_iff input [] = ground arith
after_coverage_iff input (check ∷ checks) = ground arith

guarded_iff :
    (risk : ActionRiskClass) (valid : Bool)
    → ((is_guarded risk && not valid) ≡ false) ↔ (risk ≡ guarded → valid ≡ true)
guarded_iff risk valid = ground arith

barred_iff : (risk : ActionRiskClass) → (is_barred risk ≡ false) ↔ (risk ≢ barred)
barred_iff risk = ground arith

same_iff : (a b : String) → ((a != b) ≡ false) ↔ (a ≡ b)
same_iff a b = (eq_of_bne a b, λ p. subst (λ x. (a != x) ≡ false) p (rw (beq_refl a) refl))

first_checks :
    (input : VerdictInput)
    → ((compute_verdict input).verdict ≡ pass) ↔ (
        ((input.candidate_hash != input.sealed_candidate_hash) ≡ false)
        × (is_barred input.action_risk_class ≡ false)
        × (input.hypothesis_invalidated ≡ false)
        × ((after_coverage input (missing_required input)).verdict ≡ pass))
unfolding compute_verdict
first_checks input = ground arith

-- The verdict is a pass exactly where the hash is the sealed one, the action is not barred, no
-- evidence invalidates the hypothesis, each required check has a report, each open finding is minor
-- or for information, no contradiction is left, each test of a required or triggered check passed,
-- and a guarded action has its approval.
pub compute_verdict_iff :
    (input : VerdictInput) → ((compute_verdict input).verdict ≡ pass) ↔ IsVerified input
compute_verdict_iff input = (
  λ h.
      let (same, bar, valid, h) = (first_checks input).0 h in
      let (complete, h) = (after_coverage_iff input (missing_required input)).0 h in
      let (clean, settled, tested, approved) =
        (after_scan_iff input (scan_reviews none input.reviews)).0 h in
      record {
        bound = (same_iff input.candidate_hash input.sealed_candidate_hash).0 same;
        not_barred = (barred_iff input.action_risk_class).0 bar;
        standing = valid;
        reported = complete;
        harmless = sym (scan_reviews-clean none input.reviews) ∙ clean;
        settled = settled;
        tested = (test_problem_iff input input.tests).0 tested;
        approved = (guarded_iff input.action_risk_class input.guarded_approval_valid).0 approved;
      },
  λ k. (first_checks input).1 (
    (same_iff input.candidate_hash input.sealed_candidate_hash).1 k.bound,
    (barred_iff input.action_risk_class).1 k.not_barred,
    k.standing,
    (after_coverage_iff input (missing_required input)).1 (
      k.reported,
      (after_scan_iff input (scan_reviews none input.reviews)).1 (
        scan_reviews-clean none input.reviews ∙ k.harmless,
        k.settled,
        (test_problem_iff input input.tests).1 k.tested,
        (guarded_iff input.action_risk_class input.guarded_approval_valid).1 k.approved,
      ),
    ),
  ),
)
