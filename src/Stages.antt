-- ===== src/Stages.antt =====
-- packages/contracts/src/transitions.ts: the stage records of one Run. `checkStageRecords` is a loop
-- over the records; its local variables are the fields of `Check`, its body is `check_record`, and
-- `next` is the source's `index` plus one, since `index` starts at -1.
pub mod Moves
pub mod Invariant
pub mod History
use sih26_proto.Common.{
  ℕ, zero, suc, nat_eq, string_eq, option_eq, ◌≡◌, ◌↔◌, String, Bool, true, false, not, ◌&&◌, ◌||◌,
  Option, none, some, List, [], ◌∷◌, ◌++◌, arith, if◌then◌else◌, is_some, get_or, ltb, nat_beq, Eq,
  ◌==◌, ◌!=◌, includes,
}
use sih26_proto.Result.{Result, ok, err, ◌>>=◌, IntegrityError, illegal_transition, require}

pub data StageName : Type 0 where
  detect diagnose repair verify release watch : StageName

pub data StageStatus : Type 0 where
  entered in_progress completed failed skipped : StageStatus

-- STAGE_ORDER.indexOf
abbrev pub stage_index : StageName → ℕ
stage_index detect = 0
stage_index diagnose = 1
stage_index repair = 2
stage_index verify = 3
stage_index release = 4
stage_index watch = 5

abbrev pub stage_beq : StageName → StageName → Bool
stage_beq a b = nat_beq (stage_index a) (stage_index b)

pub stage_beq_iff : (a b : StageName) → (stage_beq a b ≡ true) ↔ (a ≡ b)
stage_beq_iff a b = ground arith

instance abbrev pub stage_eq : Eq StageName
stage_eq = record { same_as = stage_beq; same_iff = stage_beq_iff }

abbrev pub status_index : StageStatus → ℕ
status_index entered = 0
status_index in_progress = 1
status_index completed = 2
status_index failed = 3
status_index skipped = 4

abbrev pub status_beq : StageStatus → StageStatus → Bool
status_beq a b = nat_beq (status_index a) (status_index b)

pub status_beq_iff : (a b : StageStatus) → (status_beq a b ≡ true) ↔ (a ≡ b)
status_beq_iff a b = ground arith

instance abbrev pub status_eq : Eq StageStatus
status_eq = record { same_as = status_beq; same_iff = status_beq_iff }

-- STAGE_ORDER[index], read at `next`; no stage is before the first.
abbrev pub stage_at : ℕ → Option StageName
stage_at zero = some detect
stage_at (suc zero) = some diagnose
stage_at (suc (suc zero)) = some repair
stage_at (suc (suc (suc zero))) = some verify
stage_at (suc (suc (suc (suc zero)))) = some release
stage_at (suc (suc (suc (suc (suc zero))))) = some watch
stage_at (suc (suc (suc (suc (suc (suc n)))))) = none

abbrev pub previous_stage : ℕ → Option StageName
previous_stage zero = none
previous_stage (suc index) = stage_at index

-- SKIPPABLE_REASONS
abbrev pub skippable_reasons : List String
skippable_reasons = "symptom-cleared" ∷ "observe-only" ∷ "prohibited" ∷ []

pub record ArtifactRef : Type 0 where
  pub schema_id : String
  pub schema_version : String
  pub content_hash : String

pub record StageTransition : Type 0 where
  pub stage : StageName
  pub from : Option StageStatus
  pub to : StageStatus
  pub reason : Option String
  pub candidate_hash : Option String
  pub artifact_ref : Option ArtifactRef

unfoldable pub is_legal_stage_status_change : Option StageStatus → StageStatus → Bool
is_legal_stage_status_change none skipped = false
is_legal_stage_status_change none to = to == entered
is_legal_stage_status_change (some entered) to = to == in_progress
is_legal_stage_status_change (some in_progress) to = to == completed || to == failed
is_legal_stage_status_change (some from) to = false

pub record StageCheckResult : Type 0 where
  pub revisions : ℕ
  pub candidate_hashes : List String
  pub final_stage : Option StageName

pub record VisitState : Type 0 where
  pub status : Option StageStatus
  pub skip_reason : Option String

pub record Check : Type 0 where
  pub next : ℕ
  pub revisions : ℕ
  pub final_status : StageName → Option VisitState
  pub candidate_hashes : List String
  pub last_failed_stage : Option StageName
  pub final_stage : Option StageName
  pub skip_reason : Option String

-- `finalStatus.set(stage, visit)`
abbrev pub set_status :
    StageName → VisitState → (StageName → Option VisitState) → StageName → Option VisitState
set_status stage visit m other = if stage == other then some visit else m other

-- `finalStatus.get(stage)?.status ?? null`
abbrev pub status_of : Option VisitState → Option StageStatus
status_of none = none
status_of (some visit) = visit.status

-- `status !== "completed" && status !== "skipped"`, where there is a visit.
abbrev pub is_unfinished : Option VisitState → Bool
is_unfinished none = false
is_unfinished (some visit) = visit.status != some completed && visit.status != some skipped

-- Whether the stage before the next one has started and not finished.
abbrev pub unfinished_before : ℕ → (StageName → Option VisitState) → Bool
unfinished_before next m = elim (previous_stage next) [
  | none ↦ false
  | some stage ↦ is_unfinished (m stage)
]

abbrev pub previous_unfinished : Check → Bool
previous_unfinished s = unfinished_before s.next s.final_status

-- `candidateHashes.push`, where the record has a hash.
abbrev pub push_hash : List String → Option String → List String
push_hash hashes none = hashes
push_hash hashes (some hash) = hashes ++ hash ∷ []

-- `x !== null && x !== y`
abbrev pub differs : Option String → String → Bool
differs none y = false
differs (some x) y = x != y

unfoldable pub start_check : Check
start_check = record {
  next = 0;
  revisions = 0;
  final_status = λ stage. none;
  candidate_hashes = [];
  last_failed_stage = none;
  final_stage = none;
  skip_reason = none;
}

-- The branch of a record whose status is `skipped`.
unfoldable pub check_skip : Check → StageTransition → Result Check IntegrityError
check_skip s r =
    let reason = get_or r.reason "" in
    if not (includes skippable_reasons reason)
    then err illegal_transition
    else if r.stage == detect || r.stage == diagnose
    then err illegal_transition
    else if r.stage == watch && not (includes ("observe-only" ∷ "prohibited" ∷ []) reason)
    then err illegal_transition
    else if stage_index r.stage != s.next
    then err illegal_transition
    else if r.from != status_of (s.final_status r.stage)
    then err illegal_transition
    else if previous_unfinished s
    then err illegal_transition
    else if differs s.skip_reason reason
    then err illegal_transition
    else ok (record s {
      skip_reason = some reason;
      next = suc (stage_index r.stage);
      final_status =
          set_status r.stage (record { status = some skipped; skip_reason = some reason })
            s.final_status;
      final_stage = some r.stage;
    })

-- The backward move, once its source status is known to be right.
revise_to : ℕ → Check → StageTransition → String → Result Check IntegrityError
revise_to limit s r hash =
    if includes s.candidate_hashes hash
    then err illegal_transition
    else if ltb limit (suc s.revisions)
    then err illegal_transition
    else ok (record s {
      revisions = suc s.revisions;
      candidate_hashes = s.candidate_hashes ++ hash ∷ [];
      final_status =
          set_status r.stage (record { status = some entered; skip_reason = none }) s.final_status;
      last_failed_stage = none;
      skip_reason = none;
      next = suc (stage_index r.stage);
      final_stage = some r.stage;
    })

revise_from : ℕ → Check → StageTransition → VisitState → Result Check IntegrityError
unfolding revise_to
revise_from limit s r prior =
    if r.from != prior.status
    then err illegal_transition
    else require illegal_transition r.candidate_hash >>= revise_to limit s r

-- The backward move: from a failed Verify to Repair with a new candidate hash.
unfoldable pub check_revision : ℕ → Check → StageTransition → Result Check IntegrityError
unfolding revise_from
check_revision limit s r =
    if r.stage != repair || s.last_failed_stage != some verify || r.to != entered
    then err illegal_transition
    else require illegal_transition (s.final_status repair) >>= revise_from limit s r

-- The forward move into the next stage of the fixed order.
unfoldable pub check_enter : Check → StageTransition → Result Check IntegrityError
check_enter s r =
    if r.to != entered
    then err illegal_transition
    else if previous_unfinished s
    then err illegal_transition
    else if is_some s.skip_reason
        && not (s.skip_reason == some "symptom-cleared" && r.stage == watch)
    then err illegal_transition
    else if r.from != status_of (s.final_status r.stage)
    then err illegal_transition
    else ok (record s {
      candidate_hashes = push_hash s.candidate_hashes r.candidate_hash;
      next = suc (stage_index r.stage);
      final_status =
          set_status r.stage (record { status = some entered; skip_reason = none }) s.final_status;
      skip_reason = none;
      final_stage = some r.stage;
    })

-- A status change within the current visit of a stage.
unfoldable pub check_progress : Check → StageTransition → Result Check IntegrityError
unfolding is_legal_stage_status_change
check_progress s r = do
  visit ← require illegal_transition (s.final_status r.stage)
  if r.from != visit.status
      then err illegal_transition
      else if not (is_legal_stage_status_change visit.status r.to)
      then err illegal_transition
      else ok (record s {
        candidate_hashes = push_hash s.candidate_hashes r.candidate_hash;
        final_status =
            set_status r.stage (record { status = some r.to; skip_reason = visit.skip_reason })
              s.final_status;
        last_failed_stage = if r.to == failed then some r.stage else none;
        final_stage = some r.stage;
      })

-- One round of the loop. `stageIndex < index`, `> index + 1` and `=== index + 1`, with `next` for
-- `index + 1`.
unfoldable pub check_record : ℕ → Check → StageTransition → Result Check IntegrityError
check_record limit s r =
    if r.to == skipped
    then check_skip s r
    else if ltb (suc (stage_index r.stage)) s.next
    then check_revision limit s r
    else if ltb s.next (stage_index r.stage)
    then err illegal_transition
    else if stage_index r.stage == s.next
    then check_enter s r
    else check_progress s r

-- The loop.
unfoldable pub check_from : ℕ → Check → List StageTransition → Result Check IntegrityError
check_from limit s [] = ok s
check_from limit s (r ∷ rs) = do s' ← check_record limit s r; check_from limit s' rs

abbrev pub result_of : Check → StageCheckResult
result_of s = record {
  revisions = s.revisions;
  candidate_hashes = s.candidate_hashes;
  final_stage = s.final_stage;
}

-- `options.revisionCap ?? 2`
abbrev pub default_revision_cap : ℕ
default_revision_cap = 2

unfoldable pub check_stage_records :
    List StageTransition → Option ℕ → Result StageCheckResult IntegrityError
check_stage_records records revision_cap = do
  s ← check_from (get_or revision_cap default_revision_cap) start_check records
  ok (result_of s)
