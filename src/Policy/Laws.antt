-- ===== src/Policy/Laws.antt =====
-- What the decisions of apps/control-plane/src/core/policy.ts come to.
use sih26_proto.Common.{
  not-eq-false, ap, ℕ, ◌≤◌, ◌≡◌, ◌≢◌, ◌⊎◌, refl, String, string_eq, Bool, true, false, not, ◌&&◌,
  Option, none, some, List, if◌then◌else◌, arith, ne_of_beq,
}
use sih26_proto.Policy.Decision.{
  is_emergency, PolicyReason, decide_hybrid, decide_scheduled, PolicyDecisionContext, mode_permits,
  verb_of, has_approval, decide_automation, decide_policy_action,
}
use sih26_proto.Policy.{
  approval_required, AuthorityMode, AutomationPolicy, ActionRiskClass, TypedAction, PolicyDecision,
  Schedule, safe, guarded, barred, autonomous, denied, review_always, autonomous_always,
  scheduled_hybrid, is_barred, is_guarded,
}
use sih26_proto.Policy.Risk.{
  resolve_declared, risk_table, risk_rank, is_barred_action, declared_class, override_key,
  resolve_action_risk_class,
}
use sih26_proto.Policy.Calendar.{ScheduleReason, WallTime, schedule_verdict}

declared_tightens :
    (action : TypedAction) (table_class : ActionRiskClass) (declared : Option ActionRiskClass)
    → risk_rank table_class ≤ risk_rank (resolve_declared action table_class declared)
unfolding risk_rank
declared_tightens action table_class (some risk) = ground arith
declared_tightens action table_class none = ground arith

declared_loosens :
    (action : TypedAction) (table_class risk : ActionRiskClass)
    → risk ≢ barred
    → table_class ≢ barred
    → resolve_declared action table_class (some risk) ≢ barred
declared_loosens action table_class risk n m = ground arith

-- No declaration of an adapter gives an action a lower class than the table has for its category.
pub resolve_action_risk_class-tightens :
    (action : TypedAction) (overrides : List (String × ActionRiskClass))
    → risk_rank (risk_table action.category)
      ≤ risk_rank (resolve_action_risk_class action overrides)
unfolding resolve_action_risk_class risk_rank
resolve_action_risk_class-tightens action overrides =
    declared_tightens action (risk_table action.category)
      (declared_class overrides (override_key action))

-- An action that its adapter declares less than barred, in a category that is not barred, is not
-- barred: not even when it is on the list of barred actions.
pub resolve_action_risk_class-declared :
    (action : TypedAction) (overrides : List (String × ActionRiskClass)) (risk : ActionRiskClass)
    → is_barred_action action ≡ true
    → declared_class overrides (override_key action) ≡ some risk
    → risk ≢ barred
    → risk_table action.category ≢ barred
    → resolve_action_risk_class action overrides ≢ barred
unfolding resolve_action_risk_class risk_rank
resolve_action_risk_class-declared action overrides risk listed declared n m =
    λ h. declared_loosens action (risk_table action.category) risk n m (rw declared at h)

-- What passing an early return says, where the answer is not the one that it gives.
passes_guard :
    (b : Bool) (answer wanted : PolicyDecision) (why : PolicyReason)
    (rest : PolicyDecision × PolicyReason)
    → answer ≢ wanted
    → (if b then (answer, why) else rest).0 ≡ wanted
    → (b ≡ false) × (rest.0 ≡ wanted)
passes_guard b answer wanted why rest n h = ground arith

denied_waits : denied ≢ autonomous
denied_waits e = cc e

required_waits : approval_required ≢ autonomous
required_waits e = cc e

not_barred_of : (risk : ActionRiskClass) → is_barred risk ≡ false → risk ≢ barred
not_barred_of risk h e = cc (ap is_barred e, h)

listed_in_emergency :
    (c : PolicyDecisionContext)
    → c.policy.authority_mode ≡ AuthorityMode.emergency
    → (is_emergency c.policy.authority_mode && not c.emergency_allow_list_membership) ≡ false
    → c.emergency_allow_list_membership ≡ true
listed_in_emergency c e h = ground arith

checked_if_guarded :
    (c : PolicyDecisionContext)
    → c.risk_class ≡ guarded
    → (is_guarded c.risk_class && not (has_approval c)) ≡ false
    → has_approval c ≡ true
checked_if_guarded c e h = ground arith

hybrid_grounds :
    (c : PolicyDecisionContext) (verdict : Bool × ScheduleReason)
    → (decide_hybrid c verdict).0 ≡ autonomous
    → (verdict.0 ≡ true) ⊎ (has_approval c ≡ true)
hybrid_grounds c (inside, why) h = ground arith

module _ (wall_time : ℕ → String → Option WallTime) where
  -- Why the Automation Policy lets an action that passed the other checks go ahead by itself.
  abbrev pub Grounds : PolicyDecisionContext → AutomationPolicy → Type 0
  Grounds c review_always =
      (c.risk_class ≡ safe) × ((c.stage ≢ "release") ⊎ (c.policy.emergency_override ≡ true))
  Grounds c autonomous_always = Unit
  Grounds c scheduled_hybrid =
      (schedule : Schedule) × (c.policy.schedule ≡ some schedule)
      × (((schedule_verdict wall_time c.now schedule).0 ≡ true) ⊎ (has_approval c ≡ true))

  pub record IsPermitted (c : PolicyDecisionContext) : Type 0 where
    pub not_barred : c.risk_class ≢ barred
    pub within_mode : mode_permits c.policy.authority_mode (verb_of c) ≡ true
    pub in_emergency :
        c.policy.authority_mode ≡ AuthorityMode.emergency → c.emergency_allow_list_membership ≡ true
    pub approved : c.risk_class ≡ guarded → has_approval c ≡ true
    pub grounds : Grounds c c.policy.automation_policy

  hybrid_permits :
      (c : PolicyDecisionContext) (given : Option Schedule)
      → (decide_scheduled wall_time c given).0 ≡ autonomous
      → (schedule : Schedule) × (given ≡ some schedule)
        × (((schedule_verdict wall_time c.now schedule).0 ≡ true) ⊎ (has_approval c ≡ true))
  hybrid_permits c none h = ground arith
  hybrid_permits c (some schedule) h =
      (schedule, refl, hybrid_grounds c (schedule_verdict wall_time c.now schedule) h)

  automation_permits :
      (c : PolicyDecisionContext) (policy : AutomationPolicy)
      → c.risk_class ≢ barred
      → (decide_automation wall_time c policy).0 ≡ autonomous
      → Grounds c policy
  unfolding decide_automation
  automation_permits c review_always n h = ground (arith, ne_of_beq c.stage "release")
  automation_permits c autonomous_always n h = tt
  automation_permits c scheduled_hybrid n h = hybrid_permits c c.policy.schedule h

  -- An action goes ahead by itself only where it is not barred, the Authority Mode permits its verb,
  -- an emergency has it on its list, a guarded one has a valid approval, and the Automation Policy
  -- gives grounds: review of a safe action outside release or with the emergency override, autonomy,
  -- or a schedule whose window holds the instant or a valid approval.
  pub decide_policy_action-autonomous :
      (c : PolicyDecisionContext)
      → (decide_policy_action wall_time c).0 ≡ autonomous
      → IsPermitted c
  unfolding decide_policy_action
  decide_policy_action-autonomous c h =
      let (bar, h) = passes_guard (is_barred c.risk_class) denied autonomous _ _ denied_waits h in
      let (verb, h) = passes_guard _ denied autonomous _ _ denied_waits h in
      let (listed, h) = passes_guard _ denied autonomous _ _ denied_waits h in
      let (checked, h) = passes_guard _ approval_required autonomous _ _ required_waits h in
      let n = not_barred_of c.risk_class bar in
      record {
        not_barred = n;
        within_mode = not-eq-false _ verb;
        in_emergency = λ e. listed_in_emergency c e listed;
        approved = λ e. checked_if_guarded c e checked;
        grounds = automation_permits c c.policy.automation_policy n h;
      }
