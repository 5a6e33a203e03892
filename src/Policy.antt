-- ===== src/Policy.antt =====
-- apps/control-plane/src/core/policy.ts: the Policy Service. Risk resolves the class of an action,
-- Calendar the windows of a schedule, WallTime the civil time, Decision is the order of the checks; Laws,
-- Windows and Zones have what they come to.
pub mod Risk
pub mod Calendar
pub mod WallTime
pub mod Decision
pub mod Laws
pub mod Windows
pub mod Zones
use sih26_proto.Common.{ℕ, String, Bool, Option, List, true, false}

pub data AuthorityMode : Type 0 where
  observe prepare repair emergency : AuthorityMode

pub data AutomationPolicy : Type 0 where
  review_always autonomous_always scheduled_hybrid : AutomationPolicy

pub data ActionRiskClass : Type 0 where
  safe guarded barred : ActionRiskClass

pub data Weekday : Type 0 where
  mon tue wed thu fri sat sun : Weekday

pub record ScheduleWindow : Type 0 where
  pub start_weekday : Weekday
  pub start_time : String
  pub end_weekday : Weekday
  pub end_time : String

pub record Schedule : Type 0 where
  pub iana_zone : String
  pub windows : List ScheduleWindow

pub record PolicyVersion : Type 0 where
  pub version : String
  pub authority_mode : AuthorityMode
  pub automation_policy : AutomationPolicy
  pub schedule : Option Schedule
  pub emergency_override : Bool
  pub attempt_limit : ℕ

pub data ActionCategory : Type 0 where
  code configuration feature_flags deployment restart scaling traffic infrastructure database_data
        credentials security_containment messages_payments destructive :
      ActionCategory

pub record TypedAction : Type 0 where
  pub category : ActionCategory
  pub action_class : String
  pub adapter : String
  pub command : String
  pub target : String

-- The fields of an approval that a decision reads; an instant is in milliseconds.
pub record ApprovalRow : Type 0 where
  pub policy_version : String
  pub expiry : ℕ
  pub consumed_at : Option ℕ
  pub revoked_at : Option ℕ

pub data PolicyDecision : Type 0 where
  autonomous approval_required denied needs_human : PolicyDecision

pub data ModeVerb : Type 0 where
  read propose prepare merge_deploy direct_action rollback new_code : ModeVerb

abbrev pub is_barred : ActionRiskClass → Bool
is_barred barred = true
is_barred _ = false

abbrev pub is_guarded : ActionRiskClass → Bool
is_guarded guarded = true
is_guarded _ = false

abbrev pub is_safe : ActionRiskClass → Bool
is_safe safe = true
is_safe _ = false
