-- ===== src/Gates.antt =====
-- apps/control-plane/src/gates/release-gate.ts and action-gate.ts: the deterministic gates of code and
-- of operational actions. A fact is its result: `evidence_refs`, `reason` and the sealed evaluation
-- are prose and records for the audit.
pub mod Hypotheses
pub mod Laws
use sih26_proto.Common.{
  String, string_eq, Bool, true, false, not, ◌&&◌, ◌||◌, Option, none, some, List, [], ◌∷◌,
  if◌then◌else◌, ◌==◌, all, filter, includes,
}
use sih26_proto.Policy.{
  ActionRiskClass, PolicyDecision, denied, approval_required, is_barred, is_guarded,
}

pub record ApprovalState : Type 0 where
  pub valid : Bool
  pub approval_id : Option String

pub record RecoveryPointCoverage : Type 0 where
  pub validated : Bool
  pub changed : List String
  pub covered : List String
  pub uncovered_approved : Bool

pub data GateVerdict : Type 0 where
  pass fail needs_human : GateVerdict

pub record GateFacts : Type 0 where
  pub facts : List Bool
  pub barred : Bool
  pub hash_mismatch : Bool
  pub policy_denied : Bool
  pub approval_outstanding : Bool
  pub stale_target : Bool
  pub missing_evidence : Bool

unfoldable pub resolve_gate_verdict : GateFacts → GateVerdict
resolve_gate_verdict input =
    if input.barred || input.hash_mismatch || input.policy_denied
    then fail
    else if input.stale_target || input.approval_outstanding || input.missing_evidence
    then needs_human
    else if not (all (λ fact. fact) input.facts)
    then fail
    else pass

abbrev pub is_denied : PolicyDecision → Bool
is_denied denied = true
is_denied _ = false

abbrev pub requires_approval : PolicyDecision → Bool
requires_approval approval_required = true
requires_approval _ = false

-- Whether the policy lets the action through, with the approval that it may require.
abbrev pub policy_fact : PolicyDecision → ApprovalState → Bool
policy_fact decision approval =
    not (is_denied decision) && (not (requires_approval decision) || approval.valid)

abbrev pub uncovered : RecoveryPointCoverage → List String
uncovered coverage = filter (λ surface. not (includes coverage.covered surface)) coverage.changed

abbrev pub is_empty {ℓ} : {A : Type ℓ} → List A → Bool
is_empty [] = true
is_empty (_ ∷ _) = false

unfoldable pub recovery_fact : RecoveryPointCoverage → Bool
recovery_fact coverage =
    coverage.validated && (is_empty (uncovered coverage) || coverage.uncovered_approved)

pub record ReleaseGateInput : Type 0 where
  pub hash_binding_match : Bool
  pub risk_class : ActionRiskClass
  pub policy_decision : PolicyDecision
  pub approval : ApprovalState
  pub artifact_matches_commit : Bool
  pub pipeline_checks_passed : Bool
  pub target_version_matches : Bool
  pub rollout_watch_plan_complete : Bool
  pub recovery_point_coverage : RecoveryPointCoverage
  pub pipeline_rules_passed : Bool

unfoldable pub evaluate_release_gate : ReleaseGateInput → List Bool × GateVerdict
unfolding resolve_gate_verdict recovery_fact
evaluate_release_gate input =
    let facts =
      (input.artifact_matches_commit && input.hash_binding_match)
      ∷ input.pipeline_checks_passed
      ∷ input.target_version_matches
      ∷ policy_fact input.policy_decision input.approval
      ∷ input.rollout_watch_plan_complete
      ∷ recovery_fact input.recovery_point_coverage
      ∷ not (is_barred input.risk_class)
      ∷ input.pipeline_rules_passed
      ∷ [] in
    (
      facts,
      resolve_gate_verdict (record {
        facts = facts;
        barred = is_barred input.risk_class;
        hash_mismatch = not input.hash_binding_match;
        policy_denied = is_denied input.policy_decision;
        approval_outstanding = requires_approval input.policy_decision && not input.approval.valid;
        stale_target = not input.target_version_matches;
        missing_evidence = false;
      }),
    )

pub record ActionGateInput : Type 0 where
  pub risk_class : ActionRiskClass
  pub adapter_approved : Bool
  pub target_version_matches : Bool
  pub policy_decision : PolicyDecision
  pub approval : ApprovalState
  pub recovery_point_coverage : RecoveryPointCoverage
  pub stop_watch_conditions_fixed : Bool
  pub emergency_allow_list_membership : Bool

unfoldable pub evaluate_action_gate : ActionGateInput → List Bool × GateVerdict
unfolding resolve_gate_verdict recovery_fact
evaluate_action_gate input =
    let facts =
      input.adapter_approved
      ∷ input.target_version_matches
      ∷ policy_fact input.policy_decision input.approval
      ∷ recovery_fact input.recovery_point_coverage
      ∷ input.stop_watch_conditions_fixed
      ∷ (not (is_barred input.risk_class)
          && (not (is_guarded input.risk_class) || input.approval.valid))
      ∷ [] in
    (
      facts,
      resolve_gate_verdict (record {
        facts = facts;
        barred = is_barred input.risk_class;
        hash_mismatch = false;
        policy_denied = is_denied input.policy_decision;
        approval_outstanding =
            (requires_approval input.policy_decision && not input.approval.valid)
            || (is_guarded input.risk_class && not input.approval.valid);
        stale_target = not input.target_version_matches;
        missing_evidence = false;
      }),
    )
