-- ===== src/ControlPlane/Sequence.antt =====
-- Requests, completions, other commands and cancellations of work, in any order.
use sih26_proto.Journal.{find_run}
use sih26_proto.ControlPlane.Budgets.{continued-IsSound}
use sih26_proto.Result.{◌>>=◌}
use sih26_proto.ControlPlane.Admission.{
  request_for_run, begin_run, is_queued, state_runs, has_no_refs, ControlPlane, Answer, apply_work,
  with_journal, complete_admitted, complete_for_run, complete_orchestrator_work,
  request_orchestrator_work, revoke_orchestrator_work, work_completed_command, is_output,
}
use sih26_proto.Common.{
  ℕ, string_eq, nat_eq, ◌≡◌, refl, String, Option, none, some, List, [], ◌∷◌, includes, Bool-cases,
  inl, inr, ◌!=◌, not, ◌||◌, all,
}
use sih26_proto.Result.{Result, ok, err, >>=-eq-ok}
use sih26_proto.Stages.{ArtifactRef}
use sih26_proto.Journal.{RunRecord, WorkRecord, JournalCommand}
use sih26_proto.Leases.{LeaseRow, LeaseClaims, DomainError}
use sih26_proto.Leases.Operations.{Operation, operate}
use sih26_proto.ControlPlane.JournalService.{CacheEntry, load}
use sih26_proto.ControlPlane.Work.{WorkRequest, completed_work_ids, reservation}
use sih26_proto.ControlPlane.Budgets.{
  IsSound, AdmitsNothing, apply_work-IsSound, apply_any-IsSound, nothing-Fits, loaded-IsSound,
  refuse-IsSound, request_orchestrator_work-IsSound,
}

completed-AdmitsNothing :
    (incident_id run_id : String) (attempt : ℕ) (work_id : String) (refs : List ArtifactRef)
    (recorded_at : String)
    → AdmitsNothing
        (work_completed_command incident_id run_id attempt work_id refs recorded_at).body
unfolding work_completed_command reservation
completed-AdmitsNothing incident_id run_id attempt work_id refs recorded_at other = refl

complete_admitted-IsSound :
    (cp : ControlPlane) (entry : CacheEntry) (now_text : String) (claims : LeaseClaims)
    (work_id : String) (refs : List ArtifactRef) (run : RunRecord) (found : Option WorkRecord)
    {answer : Result (Unit {0}) DomainError} {cp' : ControlPlane}
    → IsSound cp
    → cp.cache ≡ some entry
    → complete_admitted cp entry now_text claims work_id refs run found ≡ ok (answer, cp')
    → IsSound cp'
unfolding complete_admitted
complete_admitted-IsSound cp entry now_text claims work_id refs run none sound held h =
    refuse-IsSound cp DomainError.not_found sound h
complete_admitted-IsSound cp entry now_text claims work_id refs run (some w) sound held h =
    let command =
      work_completed_command cp.incident_id claims.run_id run.attempt work_id refs now_text in
    elim (Bool-cases (w.attempt != run.attempt)) [
      | inl stale ↦ refuse-IsSound cp DomainError.stale_attempt sound (rw stale at h)
      | inr same_attempt ↦
          elim (Bool-cases (includes (completed_work_ids claims.run_id entry.events) work_id)) [
            | inl again ↦
                refuse-IsSound cp DomainError.duplicate_work sound (rw (same_attempt, again) at h)
            | inr first ↦
                elim (Bool-cases (
                  has_no_refs refs
                  || not (all (is_output claims.run_id entry.events w.stage) refs))) [
                    | inl missing ↦
                        refuse-IsSound cp DomainError.prerequisite_missing sound
                          (rw (same_attempt, first, missing) at h)
                    | inr sealed ↦
                        apply_work-IsSound cp entry command tt sound held
                          (nothing-Fits cp entry command sound (
                            completed-AdmitsNothing cp.incident_id claims.run_id run.attempt work_id
                              refs now_text))
                          (rw (same_attempt, first, sealed) at h)
                  ]
          ]
    ]

complete_for_run-IsSound :
    (cp : ControlPlane) (entry : CacheEntry) (now_text : String) (claims : LeaseClaims)
    (work_id : String) (refs : List ArtifactRef) (run : Option RunRecord)
    (verified : Result LeaseRow DomainError) {answer : Result (Unit {0}) DomainError}
    {cp' : ControlPlane}
    → IsSound cp
    → cp.cache ≡ some entry
    → complete_for_run cp entry now_text claims work_id refs run verified ≡ ok (answer, cp')
    → IsSound cp'
unfolding complete_for_run
complete_for_run-IsSound cp entry now_text claims work_id refs run (err failure) sound held h =
    refuse-IsSound cp failure sound h
complete_for_run-IsSound cp entry now_text claims work_id refs none (ok lease) sound held h =
    refuse-IsSound cp DomainError.not_found sound h
complete_for_run-IsSound cp entry now_text claims work_id refs (some run) (ok lease) sound held h =
    complete_admitted-IsSound cp entry now_text claims work_id refs run _ sound held h

-- What happens to the work of an Incident: a request, the rest of a request that passed its guards at some
-- earlier time, with the Run and the verified lease that it found since, a completion, another command of
-- the journal, a cancellation, the start of a Run, or any operation on leases and permits.
pub data WorkTurn : Type 0 where
  requests : (now : ℕ) (now_text token : String) → LeaseClaims → WorkRequest → WorkTurn
  goes_on :
      (now : ℕ) (now_text : String)
      → LeaseClaims
      → WorkRequest
      → Option RunRecord
      → Result LeaseRow DomainError
      → WorkTurn
  completes :
      (now : ℕ) (now_text token : String)
      → LeaseClaims
      → (work_id : String) → List ArtifactRef
      → WorkTurn
  commands : (command : JournalCommand) → AdmitsNothing command.body → WorkTurn
  cancels : (run_id : String) (db_now : ℕ) → WorkTurn
  begins_run : (run_id : String) → WorkTurn
  leases : Operation → WorkTurn

-- A throw leaves the Control Plane as it is.
abbrev pub left_by : {T : Type 0} → ControlPlane → Answer T → ControlPlane
left_by cp (err thrown) = cp
left_by cp (ok (answer, cp')) = cp'

begin_run-IsSound :
    (cp : ControlPlane) (run_id : String) → IsSound cp → IsSound (begin_run cp run_id)
unfolding begin_run
begin_run-IsSound cp run_id sound =
    elim (Bool-cases (is_queued (find_run run_id (state_runs cp.cache)))) [
      | inl queued ↦
          rw queued
            (record { replays = sound.replays; current = sound.current; within = sound.within })
      | inr gone ↦ rw gone sound
    ]

module _ (date_parse : String → Option ℕ) (token_hash : String → String)
    (lease_ttl permit_ttl : ℕ) where
  complete_orchestrator_work-IsSound :
      (cp : ControlPlane) (now : ℕ) (now_text token : String) (claims : LeaseClaims)
      (work_id : String) (refs : List ArtifactRef) {answer : Result (Unit {0}) DomainError}
      {cp' : ControlPlane}
      → IsSound cp
      → complete_orchestrator_work date_parse token_hash lease_ttl permit_ttl cp now now_text token
          claims work_id refs
        ≡ ok (answer, cp')
      → IsSound cp'
  unfolding complete_orchestrator_work
  complete_orchestrator_work-IsSound cp now now_text token claims work_id refs sound h =
      elim (Bool-cases (cp.incident_id != claims.incident_id)) [
        | inl foreign ↦ refuse-IsSound cp DomainError.unauthorized sound (rw foreign at h)
        | inr own ↦
            let (entry, loaded, h) = >>=-eq-ok (load cp.cache cp.rows) _ (rw own at h) in
            complete_for_run-IsSound (with_journal cp entry cp.rows) entry now_text claims work_id
              refs _ _ (loaded-IsSound cp entry sound loaded) refl h
      ]

  unfoldable pub work_turn : ControlPlane → WorkTurn → ControlPlane
  work_turn cp (requests now now_text token claims request) = left_by cp (
      request_orchestrator_work date_parse token_hash lease_ttl permit_ttl cp now now_text token
        claims request)
  work_turn cp (goes_on now now_text claims request run verified) = left_by cp (
      load cp.cache cp.rows >>= λ entry.
      request_for_run date_parse token_hash lease_ttl permit_ttl (with_journal cp entry cp.rows)
        entry now now_text claims request run verified)
  work_turn cp (completes now now_text token claims work_id refs) = left_by cp (
      complete_orchestrator_work date_parse token_hash lease_ttl permit_ttl cp now now_text token
        claims work_id refs)
  work_turn cp (commands command nothing) = left_by cp (apply_work cp command tt)
  work_turn cp (cancels run_id db_now) = revoke_orchestrator_work cp run_id db_now
  work_turn cp (begins_run run_id) = begin_run cp run_id
  work_turn cp (leases operation) = record cp {
    leases = operate token_hash lease_ttl permit_ttl cp.leases operation;
  }

  unfoldable pub work_turns : ControlPlane → List WorkTurn → ControlPlane
  work_turns cp [] = cp
  work_turns cp (t ∷ ts) = work_turns (work_turn cp t) ts

  left_by-IsSound :
      {T : Type 0} (cp : ControlPlane) (answer : Answer T)
      → IsSound cp
      → ((result : Result T DomainError) (cp' : ControlPlane)
          → answer ≡ ok (result, cp')
          → IsSound cp')
      → IsSound (left_by cp answer)
  left_by-IsSound cp (err thrown) sound next = sound
  left_by-IsSound cp (ok (result, cp')) sound next = next result cp' refl

  -- Any other command is applied on the entry that is loaded.
  command-IsSound :
      (cp : ControlPlane) (command : JournalCommand)
      → IsSound cp
      → AdmitsNothing command.body
      → IsSound (left_by cp (apply_work cp command tt))
  command-IsSound cp command sound nothing =
      left_by-IsSound cp (apply_work cp command tt) sound λ answer cp' h.
        apply_any-IsSound cp command tt sound
          (λ entry loaded. nothing-Fits cp entry command sound nothing) h

  work_turn-IsSound : (cp : ControlPlane) (t : WorkTurn) → IsSound cp → IsSound (work_turn cp t)
  unfolding work_turn
  work_turn-IsSound cp (requests now now_text token claims request) sound =
      left_by-IsSound cp _ sound λ answer cp' h.
        request_orchestrator_work-IsSound date_parse token_hash lease_ttl permit_ttl cp now now_text
          token claims request answer cp' sound h
  work_turn-IsSound cp (goes_on now now_text claims request run verified) sound =
      left_by-IsSound cp _ sound λ answer cp' h.
        continued-IsSound date_parse token_hash lease_ttl permit_ttl cp now now_text claims request
          (λ entry. run) (λ entry. verified) answer cp' sound h
  work_turn-IsSound cp (completes now now_text token claims work_id refs) sound =
      left_by-IsSound cp _ sound λ answer cp' h.
        complete_orchestrator_work-IsSound cp now now_text token claims work_id refs sound h
  work_turn-IsSound cp (commands command nothing) sound = command-IsSound cp command sound nothing
  work_turn-IsSound cp (cancels run_id db_now) sound =
      unfold revoke_orchestrator_work in
      record { replays = sound.replays; current = sound.current; within = sound.within }
  work_turn-IsSound cp (begins_run run_id) sound = begin_run-IsSound cp run_id sound
  work_turn-IsSound cp (leases operation) sound = record {
    replays = sound.replays;
    current = sound.current;
    within = sound.within;
  }

  -- The Orchestrator's work under way in a Run never holds more than 20 model turns, 32 tool calls, 12
  -- minutes of sessions and 120 minutes of the Run's clock, in any order of requests, what follows their
  -- guards, completions, other commands, cancellations, starts of Runs and operations on leases, from rows and a cache where that holds.
  pub work_turns-IsSound :
      (cp : ControlPlane) (ts : List WorkTurn) → IsSound cp → IsSound (work_turns cp ts)
  unfolding work_turns
  work_turns-IsSound cp [] sound = sound
  work_turns-IsSound cp (t ∷ ts) sound =
      work_turns-IsSound (work_turn cp t) ts (work_turn-IsSound cp t sound)
