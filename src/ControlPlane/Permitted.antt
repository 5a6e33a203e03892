-- ===== src/ControlPlane/Permitted.antt =====
-- apps/control-plane/src/core/state-machine.ts, `validateWorkRequest`: exactly which requests are valid.
use sih26_proto.Stages.{status_eq, StageStatus, StageTransition, StageName, stage_eq}
use sih26_proto.ControlPlane.Work.{
  session_wall_clock_limit, tool_call_limit, run_wall_clock_limit, model_turn_limit, WorkRequest,
  stage_text, stage_order, stages_before, last_stage_record, has_completed, current_stage,
  completed_work_ids, admitted_budget_usage, budget_exceeded_by, wall_clock_exceeded,
  validate_work_request, run_started_at,
}
use sih26_proto.ControlPlane.Completed.{
  IsDone, completed_work_ids-IsDone, IsDone-completed_work_ids,
}
use sih26_proto.ControlPlane.CurrentStage.{IsOpen, current_stage-IsOpen, IsOpen-current_stage}
use sih26_proto.ControlPlane.Work.{is_over}
use sih26_proto.Common.{
  ◌≤◌, ◌<◌, ◌+◌, ◌-◌, ◌↔◌, ◌∙◌, ap, All, Bool, Eq, ◌!=◌, none, ◌∷◌, and-eq-true, ℕ, nat_eq,
  string_eq, option_eq, ◌≡◌, refl, String, true, false, Option, some, List, [], includes, all,
  arith, eq_of_bne, eq_of_beq, not-eq-false,
}
use sih26_proto.Journal.{RunRecord, WorkBudget, JournalEvent}
use sih26_proto.Result.{ok, guard-eq-ok}
use sih26_proto.Leases.{LeaseClaims, DomainError}
use sih26_proto.ControlPlane.Reservations.{IsWithin}
use sih26_proto.ControlPlane.Validation.{fits}

-- Each part of a budget is at least one and at most the Run's limit.
pub record IsInRange (budget : WorkBudget) : Type 0 where
  pub turns : (1 ≤ budget.model_turns) × (budget.model_turns ≤ model_turn_limit)
  pub calls :
      (1 ≤ budget.non_terminal_tool_calls) × (budget.non_terminal_tool_calls ≤ tool_call_limit)
  pub session :
      (1 ≤ budget.session_wall_clock_ms) × (budget.session_wall_clock_ms ≤ session_wall_clock_limit)
  pub run : (1 ≤ budget.run_wall_clock_ms) × (budget.run_wall_clock_ms ≤ run_wall_clock_limit)

-- The last record of a stage completes it.
abbrev pub IsCompleted : RunRecord → StageName → Type 0
IsCompleted run stage =
    (r : StageTransition) × (last_stage_record run stage ≡ some r) × (r.to ≡ StageStatus.completed)

-- What a request may ask at a time of the Run's clock.
pub record IsPermitted (events : List JournalEvent) (elapsed : ℕ) (request : WorkRequest)
    (claims : LeaseClaims) (run : RunRecord) : Type 0 where
  pub attempt : request.attempt ≡ run.attempt
  pub stage : stage_text request.stage ≡ claims.stage
  pub current : IsOpen run request.stage
  pub before : All (IsCompleted run) (stages_before request.stage stage_order)
  pub dependencies : All (λ work_id. IsDone claims.run_id work_id events) request.depends_on
  pub in_range : IsInRange request.budget
  pub beside : IsWithin (admitted_budget_usage claims.run_id events) request.budget
  pub going : elapsed < run_wall_clock_limit
  pub clock :
      request.budget.run_wall_clock_ms
        + elapsed
        + (admitted_budget_usage claims.run_id events).run_wall_clock_ms
      ≤ run_wall_clock_limit

some_injective :
    (t u : StageTransition) → ◌≡◌ {A = Option StageTransition} (some t) (some u) → t ≡ u
some_injective t u e = cc e

has_completed_iff :
    (run : RunRecord) (stage : StageName)
    → (has_completed (last_stage_record run stage) ≡ true) ↔ IsCompleted run stage
has_completed_iff run stage = go (last_stage_record run stage)
  where
    go :
        (r : Option StageTransition)
        → (has_completed r ≡ true)
          ↔ ((t : StageTransition) × (r ≡ some t) × (t.to ≡ StageStatus.completed))
    go none = (λ h. cc h, λ (t, e, c). cc e)
    go (some t) = (
      λ h. (t, refl, eq_of_beq t.to StageStatus.completed h),
      λ (u, e, c).
          (status_eq.same_iff t.to StageStatus.completed).1
            (ap (λ r. r.to) (some_injective t u e) ∙ c),
    )

all_iff :
    {A : Type 0} (p : A → Bool) (P : A → Type 0) (xs : List A)
    → ((x : A) → (p x ≡ true) ↔ P x)
    → (all p xs ≡ true) ↔ All P xs
all_iff p P [] each = (λ h. tt, λ h. refl)
all_iff p P (x ∷ xs) each = (
  λ h.
      let (one, more) = and-eq-true (p x) (all p xs) h in
      ((each x).0 one, (all_iff p P xs each).0 more),
  λ (one, more). rw ((each x).1 one, (all_iff p P xs each).1 more) refl,
)

budget_iff :
    (elapsed : ℕ) (held budget : WorkBudget)
    → ((budget_exceeded_by held budget ≡ false) × (wall_clock_exceeded elapsed held budget ≡ false))
      ↔ (IsInRange budget
          × IsWithin held budget
          × (elapsed < run_wall_clock_limit)
          × (budget.run_wall_clock_ms + elapsed + held.run_wall_clock_ms ≤ run_wall_clock_limit))
unfolding budget_exceeded_by wall_clock_exceeded
budget_iff elapsed held budget = (
  λ (h, k). (
    record {
      turns = ground arith;
      calls = ground arith;
      session = ground arith;
      run = ground arith;
    },
    fits elapsed held budget h k,
    ground arith,
    ground arith,
  ),
  λ (r, w, g, c).
      let (a, b) = r.turns in
      let (d, e) = r.calls in
      let (m, n) = r.session in
      let (o, q) = r.run in
      let wt = w.turns in let wc = w.calls in let ws = w.session in (ground arith, ground arith),
)

ne_of_eq : {A : Type 0} ⦃q : Eq A⦄ (a b : A) → a ≡ b → (a != b) ≡ false
ne_of_eq ⦃q⦄ a b h = rw ((q.same_iff a b).1 h) refl

over_of_completed :
    (run : RunRecord) (s : StageName) → IsCompleted run s → is_over (last_stage_record run s) ≡ true
over_of_completed run s (r, last, done) = rw last (rw done refl)

each_over :
    (run : RunRecord) (stages : List StageName)
    → All (IsCompleted run) stages
    → All (λ s. is_over (last_stage_record run s) ≡ true) stages
each_over run [] h = tt
each_over run (s ∷ stages) (h, hs) = (over_of_completed run s h, each_over run stages hs)

includes_iff :
    (run_id : String) (events : List JournalEvent) (work_ids : List String)
    → (all (includes (completed_work_ids run_id events)) work_ids ≡ true)
      ↔ All (λ work_id. IsDone run_id work_id events) work_ids
includes_iff run_id events work_ids =
    all_iff (includes (completed_work_ids run_id events)) (λ work_id. IsDone run_id work_id events)
      work_ids
      (λ work_id. (
        completed_work_ids-IsDone run_id work_id events,
        IsDone-completed_work_ids run_id work_id events,
      ))

-- A request is valid exactly where it is for the Run's attempt and the stage of the lease, that stage is
-- not over and each stage before it has completed, some event completes each work that it depends on,
-- each part of its budget is in its range and fits beside the Run's work under way, and the Run's clock
-- has that much time left beside that work.
pub validate_work_request_iff :
    (date_parse : String → Option ℕ) (events : List JournalEvent) (now : ℕ) (request : WorkRequest)
    (claims : LeaseClaims) (run : RunRecord)
    → (validate_work_request date_parse events now request claims run ≡ ok tt)
      ↔ IsPermitted events
          (now - run_started_at date_parse claims.run_id events now)
          request
          claims
          run
unfolding validate_work_request
validate_work_request_iff date_parse events now request claims run = (
  λ h.
      let (a, h) = guard-eq-ok _ DomainError.stale_attempt _ h in
      let (b, h) = guard-eq-ok _ DomainError.wrong_stage _ h in
      let (c, h) = guard-eq-ok _ DomainError.wrong_stage _ h in
      let (d, h) = guard-eq-ok _ DomainError.prerequisite_missing _ h in
      let (e, h) = guard-eq-ok _ DomainError.prerequisite_missing _ h in
      let (f, h) = guard-eq-ok _ DomainError.budget_exceeded _ h in
      let (g, h) = guard-eq-ok _ DomainError.budget_exceeded _ h in
      let (r, w, l, k) = (budget_iff _ _ request.budget).0 (f, g) in
      record {
        attempt = eq_of_bne request.attempt run.attempt a;
        stage = eq_of_bne (stage_text request.stage) claims.stage b;
        current =
            current_stage-IsOpen run request.stage
              (eq_of_bne (current_stage run) (some request.stage) c);
        before = (all_iff _ (IsCompleted run) _ (has_completed_iff run)).0 (not-eq-false _ d);
        dependencies = (includes_iff claims.run_id events request.depends_on).0 (not-eq-false _ e);
        in_range = r;
        beside = w;
        going = l;
        clock = k;
      },
  λ p.
      let (f, g) =
        (budget_iff (now - run_started_at date_parse claims.run_id events now)
            (admitted_budget_usage claims.run_id events) request.budget).1
          (p.in_range, p.beside, p.going, p.clock) in
      rw
        (
          ne_of_eq request.attempt run.attempt p.attempt,
          ne_of_eq (stage_text request.stage) claims.stage p.stage,
          ne_of_eq (current_stage run) (some request.stage)
              (IsOpen-current_stage run request.stage (each_over run _ p.before) p.current),
          (all_iff _ (IsCompleted run) _ (has_completed_iff run)).1 p.before,
          (includes_iff claims.run_id events request.depends_on).1 p.dependencies,
          f,
          g,
        )
        refl,
)
