-- ===== src/Journal/Works.antt =====
-- packages/contracts/src/journal.ts: the units of work that an Orchestrator asks for and completes.
use sih26_proto.Common.{
  nat_eq, string_eq, option_eq, String, Bool, true, false, not, ◌&&◌, ◌||◌, some, List, [], ◌∷◌,
  ◌++◌, if◌then◌else◌, is_some, ◌==◌, ◌!=◌, any, all, find, update_first,
}
use sih26_proto.Transitions.{incident_eq, run_eq}
use sih26_proto.Stages.{ArtifactRef}
use sih26_proto.Result.{
  Result, ok, err, ◌>>=◌, IntegrityError, illegal_transition, duplicate_transition, require,
}
use sih26_proto.Journal.{
  RunRecord, WorkStatus, WorkRecord, SealedArtifact, JournalState, WorkCompletion, find_run,
}

abbrev pub same_ref : ArtifactRef → ArtifactRef → Bool
same_ref a b =
    a.schema_id == b.schema_id
    && a.schema_version == b.schema_version
    && a.content_hash == b.content_hash

abbrev pub is_admitted : WorkStatus → Bool
is_admitted WorkStatus.admitted = true
is_admitted _ = false

abbrev pub is_rejected : WorkStatus → Bool
is_rejected WorkStatus.rejected = true
is_rejected _ = false

abbrev pub is_completed : WorkStatus → Bool
is_completed WorkStatus.completed = true
is_completed _ = false

abbrev pub dependency_completed : List WorkRecord → String → String → Bool
dependency_completed works run_id dependency =
    any (λ work. work.run_id == run_id && work.work_id == dependency && is_completed work.status)
      works

unfoldable pub request_found_run :
    JournalState → WorkRecord → RunRecord → Result JournalState IntegrityError
request_found_run s e run =
    if not (is_rejected e.status) && e.attempt != run.attempt
    then err illegal_transition
    else if any (λ work. work.request_id == e.request_id || work.work_id == e.work_id)
        s.work_records
    then err duplicate_transition
    else if is_admitted e.status
        && not (all (dependency_completed s.work_records e.run_id) e.depends_on)
    then err illegal_transition
    else ok (record s { work_records = s.work_records ++ e ∷ [] })

unfoldable pub apply_work_requested : JournalState → WorkRecord → Result JournalState IntegrityError
unfolding request_found_run
apply_work_requested s e =
    require illegal_transition (find_run e.run_id s.runs) >>= request_found_run s e

abbrev pub is_open_work : WorkCompletion → WorkRecord → Bool
is_open_work e work =
    work.run_id == e.run_id && work.work_id == e.work_id && is_admitted work.status

abbrev pub is_sealed : List SealedArtifact → String → ArtifactRef → Bool
is_sealed artifacts run_id artifact =
    any (λ sealed. sealed.run_id == some run_id && same_ref sealed.artifact_ref artifact) artifacts

abbrev pub finish_work : WorkCompletion → WorkRecord → WorkRecord
finish_work e work = record work { status = WorkStatus.completed; artifact_refs = e.artifact_refs }

unfoldable pub complete_found_run :
    JournalState → WorkCompletion → RunRecord → Result JournalState IntegrityError
complete_found_run s e run =
    if e.attempt != run.attempt
    then err illegal_transition
    else if not (is_some (find (is_open_work e) s.work_records))
    then err illegal_transition
    else if not (all (is_sealed s.sealed_artifacts e.run_id) e.artifact_refs)
    then err illegal_transition
    else ok
        (record s { work_records = update_first (is_open_work e) (finish_work e) s.work_records })

unfoldable pub apply_work_completed :
    JournalState → WorkCompletion → Result JournalState IntegrityError
unfolding complete_found_run
apply_work_completed s e =
    require illegal_transition (find_run e.run_id s.runs) >>= complete_found_run s e
