-- ===== src/Gates/Laws.antt =====
-- What a pass of the gates of apps/control-plane/src/gates/ says.
use sih26_proto.Gates.{
  policy_fact, is_empty, ApprovalState, RecoveryPointCoverage, ReleaseGateInput, ActionGateInput,
  pass, uncovered, recovery_fact, resolve_gate_verdict, evaluate_release_gate, evaluate_action_gate,
}
use sih26_proto.Common.{
  Bool-cases, inl, inr, ◌==◌, subst, eq_of_beq, beq_refl, ◌≡◌, ◌≢◌, ◌↔◌, ◌⊎◌, refl, String,
  string_eq, Bool, true, not, ◌&&◌, ◌||◌, List, [], ◌∷◌, filter, includes, arith,
}
use sih26_proto.Policy.{
  ActionRiskClass, PolicyDecision, barred, guarded, denied, approval_required, is_barred,
  is_guarded,
}

-- The Recovery Point is tested, and a human has approved it or it covers each surface that changes.
pub record IsCovered (c : RecoveryPointCoverage) : Type 0 where
  pub validated : c.validated ≡ true
  pub covers :
      (c.uncovered_approved ≡ true)
      ⊎ ((surface : String) → includes c.changed surface ≡ true → includes c.covered surface ≡ true)

or_true : (b : Bool) → (b || true) ≡ true
or_true b = ground arith

or-eq-true : (a b : Bool) → (a || b) ≡ true → (a ≡ true) ⊎ (b ≡ true)
or-eq-true a b h = ground arith

covers_all :
    (covered changed : List String)
    → filter (λ surface. not (includes covered surface)) changed ≡ []
    → (surface : String) → includes changed surface ≡ true
    → includes covered surface ≡ true
covers_all covered [] h surface m = cc m
covers_all covered (x ∷ changed) h surface m = elim (Bool-cases (includes covered x)) [
  | inl t ↦ elim (or-eq-true (x == surface) (includes changed surface) m) [
    | inl e ↦ subst (λ y. includes covered y ≡ true) (eq_of_beq x surface e) t
    | inr e ↦ covers_all covered changed (rw t at h) surface e
  ]
  | inr t ↦ cc (rw t at h)
]

none_uncovered :
    (covered changed : List String)
    → ((surface : String) → includes changed surface ≡ true → includes covered surface ≡ true)
    → filter (λ surface. not (includes covered surface)) changed ≡ []
none_uncovered covered [] h = refl
none_uncovered covered (x ∷ changed) h =
    let head = h x (rw (beq_refl x) refl) in
    rw head (none_uncovered covered changed (λ y m. h y (ground (arith, m))))

covered_or_approved :
    (validated approved : Bool) (left : List String)
    → (validated && (is_empty left || approved)) ≡ true
    → (validated ≡ true) × ((left ≡ []) ⊎ (approved ≡ true))
covered_or_approved validated approved [] h = ground arith
covered_or_approved validated approved (x ∷ left) h = ground arith

-- A tested Recovery Point is one that covers each changed surface or is approved without.
pub recovery_fact_iff : (c : RecoveryPointCoverage) → (recovery_fact c ≡ true) ↔ IsCovered c
unfolding recovery_fact
recovery_fact_iff c = (
  λ h.
      let (v, k) = covered_or_approved c.validated c.uncovered_approved (uncovered c) h in
      record {
        validated = v;
        covers = elim k [ inl e ↦ inr (covers_all c.covered c.changed e) | inr e ↦ inl e ];
      },
  λ k. elim k.covers [
    | inl e ↦ rw (k.validated, e) (or_true (is_empty (uncovered c)))
    | inr e ↦ rw (k.validated, none_uncovered c.covered c.changed e) refl
  ],
)

-- What both gates ask of the policy's decision.
abbrev pub IsAllowed : PolicyDecision → ApprovalState → Type 0
IsAllowed decision approval =
    (decision ≢ denied) × (decision ≡ approval_required → approval.valid ≡ true)

policy_fact_iff :
    (decision : PolicyDecision) (approval : ApprovalState)
    → (policy_fact decision approval ≡ true) ↔ IsAllowed decision approval
policy_fact_iff decision approval = ground arith

pub record IsReleasable (i : ReleaseGateInput) : Type 0 where
  pub artifact : (i.artifact_matches_commit ≡ true) × (i.hash_binding_match ≡ true)
  pub checks : i.pipeline_checks_passed ≡ true
  pub target : i.target_version_matches ≡ true
  pub allowed : IsAllowed i.policy_decision i.approval
  pub watched : i.rollout_watch_plan_complete ≡ true
  pub covered : IsCovered i.recovery_point_coverage
  pub not_barred : i.risk_class ≢ barred
  pub rules : i.pipeline_rules_passed ≡ true

not_barred_iff : (risk : ActionRiskClass) → (not (is_barred risk) ≡ true) ↔ (risk ≢ barred)
not_barred_iff risk = ground arith

release_facts :
    (i : ReleaseGateInput)
    → ((evaluate_release_gate i).1 ≡ pass) ↔ (
        ((i.artifact_matches_commit ≡ true) × (i.hash_binding_match ≡ true))
        × (i.pipeline_checks_passed ≡ true)
        × (i.target_version_matches ≡ true)
        × (policy_fact i.policy_decision i.approval ≡ true)
        × (i.rollout_watch_plan_complete ≡ true)
        × (recovery_fact i.recovery_point_coverage ≡ true)
        × (not (is_barred i.risk_class) ≡ true)
        × (i.pipeline_rules_passed ≡ true))
unfolding evaluate_release_gate resolve_gate_verdict
release_facts i = ground arith

-- A release passes exactly where each of the eight facts holds: the artifact and the hash are those
-- reviewed, the checks passed, the target runs the version named, the policy does not deny the action
-- and has the approval that it requires, the plans are complete, the Recovery Point covers or is
-- approved, the action is not barred, and the pipeline's rules passed.
pub evaluate_release_gate_iff :
    (i : ReleaseGateInput) → ((evaluate_release_gate i).1 ≡ pass) ↔ IsReleasable i
evaluate_release_gate_iff i = (
  λ h.
      let (a, c, t, p, w, r, b, l) = (release_facts i).0 h in
      record {
        artifact = a;
        checks = c;
        target = t;
        allowed = (policy_fact_iff i.policy_decision i.approval).0 p;
        watched = w;
        covered = (recovery_fact_iff i.recovery_point_coverage).0 r;
        not_barred = (not_barred_iff i.risk_class).0 b;
        rules = l;
      },
  λ k. (release_facts i).1 (
    k.artifact,
    k.checks,
    k.target,
    (policy_fact_iff i.policy_decision i.approval).1 k.allowed,
    k.watched,
    (recovery_fact_iff i.recovery_point_coverage).1 k.covered,
    (not_barred_iff i.risk_class).1 k.not_barred,
    k.rules,
  ),
)

pub record IsActionable (i : ActionGateInput) : Type 0 where
  pub adapter : i.adapter_approved ≡ true
  pub target : i.target_version_matches ≡ true
  pub allowed : IsAllowed i.policy_decision i.approval
  pub covered : IsCovered i.recovery_point_coverage
  pub watched : i.stop_watch_conditions_fixed ≡ true
  pub not_barred : i.risk_class ≢ barred
  pub approved : i.risk_class ≡ guarded → i.approval.valid ≡ true

risk_iff :
    (risk : ActionRiskClass) (valid : Bool)
    → ((not (is_barred risk) && (not (is_guarded risk) || valid)) ≡ true)
      ↔ ((risk ≢ barred) × (risk ≡ guarded → valid ≡ true))
risk_iff risk valid = ground arith

action_facts :
    (i : ActionGateInput)
    → ((evaluate_action_gate i).1 ≡ pass) ↔ (
        (i.adapter_approved ≡ true)
        × (i.target_version_matches ≡ true)
        × (policy_fact i.policy_decision i.approval ≡ true)
        × (recovery_fact i.recovery_point_coverage ≡ true)
        × (i.stop_watch_conditions_fixed ≡ true)
        × ((not (is_barred i.risk_class) && (not (is_guarded i.risk_class) || i.approval.valid))
            ≡ true))
unfolding evaluate_action_gate resolve_gate_verdict
action_facts i = ground arith

-- An action passes exactly where its adapter has approved it, the target runs the version named, the
-- policy does not deny it and has the approval that it requires, the Recovery Point covers or is
-- approved, the conditions to stop are fixed, and it is not barred and has an approval if guarded.
-- Membership of the emergency list plays no part.
pub evaluate_action_gate_iff :
    (i : ActionGateInput) → ((evaluate_action_gate i).1 ≡ pass) ↔ IsActionable i
evaluate_action_gate_iff i = (
  λ h.
      let (a, t, p, r, w, b) = (action_facts i).0 h in
      let (n, g) = (risk_iff i.risk_class i.approval.valid).0 b in
      record {
        adapter = a;
        target = t;
        allowed = (policy_fact_iff i.policy_decision i.approval).0 p;
        covered = (recovery_fact_iff i.recovery_point_coverage).0 r;
        watched = w;
        not_barred = n;
        approved = g;
      },
  λ k. (action_facts i).1 (
    k.adapter,
    k.target,
    (policy_fact_iff i.policy_decision i.approval).1 k.allowed,
    (recovery_fact_iff i.recovery_point_coverage).1 k.covered,
    k.watched,
    (risk_iff i.risk_class i.approval.valid).1 (k.not_barred, k.approved),
  ),
)
