-- ===== src/Policy/Decision.antt =====
-- apps/control-plane/src/core/policy.ts: the ceiling of an Authority Mode, the validity of an
-- approval, and `decidePolicyAction`. The clock is read as one instant, in milliseconds; a reason is
-- the constructor of its text, and the echo of the policy, the clock and the zone data is left out.
use sih26_proto.Common.{
  ℕ, String, string_eq, Bool, true, false, not, ◌&&◌, ◌||◌, Option, none, some, if◌then◌else◌, ◌==◌,
  ◌!=◌, leb, is_some,
}
use sih26_proto.Policy.{
  AuthorityMode, AutomationPolicy, ActionRiskClass, ActionCategory, TypedAction, ApprovalRow,
  PolicyVersion, PolicyDecision, ModeVerb, Schedule, review_always, autonomous_always,
  scheduled_hybrid, is_barred, is_guarded, is_safe, autonomous, approval_required, denied,
  needs_human, merge_deploy, direct_action,
}
use sih26_proto.Policy.Calendar.{WallTime, ScheduleReason, schedule_verdict}

unfoldable pub mode_permits : AuthorityMode → ModeVerb → Bool
mode_permits mode ModeVerb.read = true
mode_permits AuthorityMode.observe verb = false
mode_permits AuthorityMode.prepare ModeVerb.propose = true
mode_permits AuthorityMode.prepare ModeVerb.prepare = true
mode_permits AuthorityMode.prepare ModeVerb.new_code = true
mode_permits AuthorityMode.prepare verb = false
mode_permits AuthorityMode.repair verb = true
mode_permits AuthorityMode.emergency ModeVerb.direct_action = true
mode_permits AuthorityMode.emergency ModeVerb.rollback = true
mode_permits AuthorityMode.emergency verb = false

unfoldable pub approval_is_valid : Option ApprovalRow → ℕ → String → Bool
approval_is_valid none now policy_version = false
approval_is_valid (some approval) now policy_version =
    if is_some approval.consumed_at || is_some approval.revoked_at
    then false
    else if leb approval.expiry now
    then false
    else if approval.policy_version != policy_version
    then false
    else true

pub record PolicyDecisionContext : Type 0 where
  pub action : TypedAction
  pub stage : String
  pub risk_class : ActionRiskClass
  pub policy : PolicyVersion
  pub now : ℕ
  pub approval : Option ApprovalRow
  pub emergency_allow_list_membership : Bool

pub data PolicyReason : Type 0 where
  barred_action_class : PolicyReason
  mode_does_not_permit : ModeVerb → PolicyReason
  emergency_allow_list_only : PolicyReason
  guarded_requires_approval : PolicyReason
  review_release_waits : PolicyReason
  human_review_policy : PolicyReason
  autonomous_permits_safe : PolicyReason
  guarded_with_approval : Option ScheduleReason → PolicyReason
  guarded_without_approval : PolicyReason
  hybrid_without_schedule : PolicyReason
  inside_autonomous_window : PolicyReason
  outside_with_approval : PolicyReason
  outside_autonomous_window : ScheduleReason → PolicyReason

abbrev pub is_code : ActionCategory → Bool
is_code ActionCategory.code = true
is_code _ = false

abbrev pub is_emergency : AuthorityMode → Bool
is_emergency AuthorityMode.emergency = true
is_emergency _ = false

unfoldable pub verb_of : PolicyDecisionContext → ModeVerb
verb_of context =
    if context.stage == "release" && is_code context.action.category
    then merge_deploy
    else if context.stage == "repair"
    then ModeVerb.prepare
    else direct_action

abbrev pub has_approval : PolicyDecisionContext → Bool
has_approval context = approval_is_valid context.approval context.now context.policy.version

abbrev pub decide_hybrid :
    PolicyDecisionContext → Bool × ScheduleReason → PolicyDecision × PolicyReason
decide_hybrid context (inside, why) =
    if is_guarded context.risk_class
    then (if has_approval context
        then (autonomous, guarded_with_approval (some why))
        else (approval_required, guarded_without_approval))
    else if inside
    then (autonomous, inside_autonomous_window)
    else if has_approval context
    then (autonomous, outside_with_approval)
    else (approval_required, outside_autonomous_window why)

module _ (wall_time : ℕ → String → Option WallTime) where
  abbrev pub decide_scheduled :
      PolicyDecisionContext → Option Schedule → PolicyDecision × PolicyReason
  decide_scheduled context none = (needs_human, hybrid_without_schedule)
  decide_scheduled context (some schedule) =
      decide_hybrid context (schedule_verdict wall_time context.now schedule)

  -- The Automation Policy: when a human approves.
  unfoldable pub decide_automation :
      PolicyDecisionContext → AutomationPolicy → PolicyDecision × PolicyReason
  unfolding approval_is_valid
  decide_automation context review_always =
      if is_safe context.risk_class
        && context.stage == "release"
        && not context.policy.emergency_override
      then (approval_required, review_release_waits)
      else (
        (if is_safe context.risk_class then autonomous else approval_required),
        human_review_policy,
      )
  decide_automation context autonomous_always =
      if is_safe context.risk_class
      then (autonomous, autonomous_permits_safe)
      else if has_approval context
      then (autonomous, guarded_with_approval none)
      else (approval_required, guarded_without_approval)
  decide_automation context scheduled_hybrid = decide_scheduled context context.policy.schedule

  unfoldable pub decide_policy_action : PolicyDecisionContext → PolicyDecision × PolicyReason
  unfolding mode_permits verb_of approval_is_valid decide_automation
  decide_policy_action context =
      if is_barred context.risk_class
      then (denied, barred_action_class)
      else if not (mode_permits context.policy.authority_mode (verb_of context))
      then (denied, mode_does_not_permit (verb_of context))
      else if is_emergency context.policy.authority_mode
          && not context.emergency_allow_list_membership
      then (denied, emergency_allow_list_only)
      else if is_guarded context.risk_class && not (has_approval context)
      then (approval_required, guarded_requires_approval)
      else decide_automation context context.policy.automation_policy
