-- ===== src/Examples/PolicyRun.antt =====
-- Policies, gates and verdicts of apps/control-plane/src/ at concrete inputs. The wall clock is that of
-- a zone at UTC.
use sih26_proto.Policy.WallTime.{last_of, wall_time_in_zone}
use sih26_proto.Policy.Zones.{Shows, civil, is_inside_window_iff, is_inside_window_midnight}
use sih26_proto.Policy.Calendar.{weekday_order}
use sih26_proto.Common.{
  ◌+◌, zero, suc, sym, ap, ℕ, ◌≡◌, ◌≢◌, ◌⊎◌, ◌↔◌, ◌≤◌, ◌<◌, ◌*◌, refl, String, true, false, Option,
  none, some, List, [], ◌∷◌, any, arith,
}
use sih26_proto.Policy.{
  AuthorityMode, AutomationPolicy, ActionRiskClass, ActionCategory, TypedAction, PolicyVersion,
  Schedule, ScheduleWindow, ApprovalRow, Weekday, safe, guarded, barred, mon, tue, sun, autonomous,
  scheduled_hybrid, approval_required,
}
use sih26_proto.Policy.Risk.{risk_table, risk_rank, is_barred_action, resolve_action_risk_class}
use sih26_proto.Policy.Calendar.{
  WallTime, schedule_verdict, is_inside_window, start_position, given_end_position, position,
  dst_skipped_hour, time_to_minutes, wall_time_exists_in_zone,
}
use sih26_proto.Policy.Decision.{PolicyDecisionContext, decide_policy_action}
use sih26_proto.Policy.Laws.{
  IsPermitted, resolve_action_risk_class-tightens, resolve_action_risk_class-declared,
  decide_policy_action-autonomous,
}
use sih26_proto.Policy.Windows.{IsWholeHours, schedule_verdict_off_hour, schedule_verdict-inside}
use sih26_proto.Gates.{
  ReleaseGateInput, ActionGateInput, GateVerdict, evaluate_release_gate, evaluate_action_gate,
}
use sih26_proto.Journal.RunList.{count_if}
use sih26_proto.Gates.Hypotheses.{
  Evaluation, HypothesisVerdict, passes, evaluate_hypotheses, evaluate_hypotheses_at_most_one,
}
use sih26_proto.Gates.Laws.{
  IsReleasable, IsActionable, evaluate_release_gate_iff, evaluate_action_gate_iff,
}
use sih26_proto.Verify.{
  ReviewStatus, Severity, FindingStatus, TestOutcome, VerdictInput, VerifyVerdict,
}
use sih26_proto.Verify.Verdict.{compute_verdict}
use sih26_proto.Verify.Laws.{IsVerified, compute_verdict_iff}

-- Any instant is Monday, 10:00.
abbrev monday_at_ten : ℕ → String → Option WallTime
monday_at_ten instant zone = some (record { weekday = 0; minutes = 600 })

abbrev dropping : TypedAction
dropping = record {
  category = ActionCategory.restart;
  action_class = "drop-table";
  adapter = "sql";
  command = "Drop Table users";
  target = "db";
}

abbrev overrides : List (String × ActionRiskClass)
overrides = ("sql:drop-table", guarded) ∷ []

dropping_listed : is_barred_action dropping ≡ true
unfolding is_barred_action
dropping_listed = refl

resolve_action_risk_class-tightens_example :
    risk_rank (risk_table dropping.category)
    ≤ risk_rank (resolve_action_risk_class dropping overrides)
resolve_action_risk_class-tightens_example = resolve_action_risk_class-tightens dropping overrides

guarded_ne : guarded ≢ barred
guarded_ne e = cc e

restart_ne : risk_table ActionCategory.restart ≢ barred
unfolding risk_table
restart_ne e = cc e

resolve_action_risk_class-declared_example : resolve_action_risk_class dropping overrides ≢ barred
resolve_action_risk_class-declared_example =
    resolve_action_risk_class-declared dropping overrides guarded dropping_listed refl guarded_ne
      restart_ne

abbrev window : ScheduleWindow
window = record { start_weekday = mon; start_time = "09:00"; end_weekday = mon; end_time = "17:00" }

abbrev half_past : ScheduleWindow
half_past = record {
  start_weekday = mon;
  start_time = "09:30";
  end_weekday = mon;
  end_time = "17:00";
}

abbrev schedule_of : ScheduleWindow → Schedule
schedule_of w = record { iana_zone = "UTC"; windows = w ∷ [] }

abbrev parts_of : (day hour minute : String) → List (String × String)
parts_of day hour minute =
    ("weekday", day)
    ∷ ("literal", ", ")
    ∷ ("hour", hour)
    ∷ ("literal", ":")
    ∷ ("minute", minute)
    ∷ []

-- Half past midnight as `24`, the same a day later as `00`, and a Monday morning.
abbrev written : ℕ → String → Option (List (String × String))
written zero zone = some (parts_of "Mon" "24" "30")
written (suc zero) zone = some (parts_of "Tue" "00" "30")
written (suc (suc n)) zone = some (parts_of "Mon" "10" "00")

morning : Shows (parts_of "Mon" "10" "00") mon 10 0
unfolding last_of
morning = record {
  hour_text = "10";
  minute_text = "00";
  day_shown = refl;
  hour_shown = refl;
  minute_shown = refl;
  hour_number = refl;
  minute_number = refl;
}

midnight : Shows (parts_of "Mon" "24" "30") mon 24 30
unfolding last_of
midnight = record {
  hour_text = "24";
  minute_text = "30";
  day_shown = refl;
  hour_shown = refl;
  minute_shown = refl;
  hour_number = refl;
  minute_number = refl;
}

day_later : Shows (parts_of "Tue" "00" "30") tue 0 30
unfolding last_of
day_later = record {
  hour_text = "00";
  minute_text = "30";
  day_shown = refl;
  hour_shown = refl;
  minute_shown = refl;
  hour_number = refl;
  minute_number = refl;
}

is_inside_window_iff_example :
    (is_inside_window (wall_time_in_zone written) 2 window "UTC" ≡ true) ↔ (
      (start_position window ≤ position (civil mon 10 0))
      × ((position (civil mon 10 0) < given_end_position window)
          ⊎ (given_end_position window ≤ start_position window)))
is_inside_window_iff_example =
    is_inside_window_iff written 2 window "UTC" (parts_of "Mon" "10" "00") mon 10 0 refl morning
      (omega arith) (omega arith)

tuesday_follows : weekday_order tue ≡ weekday_order mon + 1
unfolding weekday_order
tuesday_follows = refl

is_inside_window_midnight_example :
    is_inside_window (wall_time_in_zone written) 0 window "UTC"
    ≡ is_inside_window (wall_time_in_zone written) 1 window "UTC"
is_inside_window_midnight_example =
    is_inside_window_midnight written 0 1 window "UTC" (parts_of "Mon" "24" "30")
      (parts_of "Tue" "00" "30") mon tue 30 refl midnight refl day_later tuesday_follows

off_hour : (h : ℕ) → time_to_minutes "09:30" ≢ h * 60
unfolding time_to_minutes
off_hour h e = omega (arith, e)

abbrev minutes_of : Option WallTime → ℕ
minutes_of none = 0
minutes_of (some wall) = wall.minutes

whole : IsWholeHours monday_at_ten "UTC"
whole hour wall shown = (10, sym (ap minutes_of shown))

schedule_verdict_off_hour_example :
    schedule_verdict monday_at_ten 0 (schedule_of half_past) ≡ (false, dst_skipped_hour)
schedule_verdict_off_hour_example =
    schedule_verdict_off_hour monday_at_ten 0 (schedule_of half_past) half_past [] refl off_hour
      whole

-- Any instant is Monday, 9:00.
abbrev monday_at_nine : ℕ → String → Option WallTime
monday_at_nine instant zone = some (record { weekday = 0; minutes = 540 })

nine_is_inside : (schedule_verdict monday_at_nine 0 (schedule_of window)).0 ≡ true
unfolding schedule_verdict wall_time_exists_in_zone sih26_proto.Policy.Calendar.weekday_order
    time_to_minutes is_inside_window
nine_is_inside = refl

schedule_verdict-inside_example :
    any (λ w. is_inside_window monday_at_nine 0 w "UTC") (window ∷ []) ≡ true
schedule_verdict-inside_example =
    schedule_verdict-inside monday_at_nine 0 (schedule_of window) nine_is_inside

abbrev restarting : PolicyDecisionContext
restarting = record {
  action = record {
    category = ActionCategory.restart;
    action_class = "rolling-restart";
    adapter = "kubernetes";
    command = "restart";
    target = "checkout";
  };
  stage = "release";
  risk_class = safe;
  policy = record {
    version = "policy-1";
    authority_mode = AuthorityMode.repair;
    automation_policy = scheduled_hybrid;
    schedule = some (schedule_of window);
    emergency_override = false;
    attempt_limit = 3;
  };
  now = 0;
  approval = none;
  emergency_allow_list_membership = false;
}

restarts_alone : (decide_policy_action monday_at_nine restarting).0 ≡ autonomous
unfolding decide_policy_action schedule_verdict wall_time_exists_in_zone
    sih26_proto.Policy.Calendar.weekday_order time_to_minutes is_inside_window
restarts_alone = refl

decide_policy_action-autonomous_example : IsPermitted monday_at_nine restarting
decide_policy_action-autonomous_example =
    decide_policy_action-autonomous monday_at_nine restarting restarts_alone

abbrev releasing : ReleaseGateInput
releasing = record {
  hash_binding_match = true;
  risk_class = guarded;
  policy_decision = approval_required;
  approval = record { valid = true; approval_id = some "approval-1" };
  artifact_matches_commit = true;
  pipeline_checks_passed = true;
  target_version_matches = true;
  rollout_watch_plan_complete = true;
  recovery_point_coverage = record {
    validated = true;
    changed = "config" ∷ [];
    covered = "code" ∷ "config" ∷ [];
    uncovered_approved = false;
  };
  pipeline_rules_passed = true;
}

evaluate_release_gate_iff_example :
    ((evaluate_release_gate releasing).1 ≡ GateVerdict.pass) ↔ IsReleasable releasing
evaluate_release_gate_iff_example = evaluate_release_gate_iff releasing

abbrev acting : ActionGateInput
acting = record {
  risk_class = guarded;
  adapter_approved = true;
  target_version_matches = true;
  policy_decision = autonomous;
  approval = record { valid = true; approval_id = none };
  recovery_point_coverage = releasing.recovery_point_coverage;
  stop_watch_conditions_fixed = true;
  emergency_allow_list_membership = false;
}

evaluate_action_gate_iff_example :
    ((evaluate_action_gate acting).1 ≡ GateVerdict.pass) ↔ IsActionable acting
evaluate_action_gate_iff_example = evaluate_action_gate_iff acting

abbrev candidate : VerdictInput
candidate = record {
  candidate_hash = "hash-a";
  sealed_candidate_hash = "hash-a";
  required = "R1" ∷ "T1" ∷ [];
  triggered = [];
  reviews =
      record {
        role = "R1";
        status = ReviewStatus.review_pass;
        findings =
            record {
              severity = Severity.minor;
              status = FindingStatus.opened;
              uncited = true;
              id = "finding-1";
            }
            ∷ [];
      }
      ∷ [];
  tests = record { layer = "T1"; outcome = TestOutcome.test_pass } ∷ [];
  action_risk_class = safe;
  guarded_approval_valid = false;
  hypothesis_invalidated = false;
  contradiction_unresolved = false;
}

candidate_passes : (compute_verdict candidate).verdict ≡ VerifyVerdict.pass
unfolding compute_verdict
candidate_passes = refl

compute_verdict_iff_example :
    ((compute_verdict candidate).verdict ≡ VerifyVerdict.pass) ↔ IsVerified candidate
compute_verdict_iff_example = compute_verdict_iff candidate

abbrev rivals : List Evaluation
rivals =
    record {
      hypothesis_id = "hypothesis-1";
      verdict = HypothesisVerdict.pass;
      mandated_test = none;
    }
    ∷ record {
      hypothesis_id = "hypothesis-2";
      verdict = HypothesisVerdict.pass;
      mandated_test = none;
    }
    ∷ []

evaluate_hypotheses_at_most_one_example : count_if passes (evaluate_hypotheses rivals) ≤ 1
evaluate_hypotheses_at_most_one_example = evaluate_hypotheses_at_most_one rivals
