-- ===== src/ControlPlane/Budgets.antt =====
-- The limits of an Orchestrator's budget under requests and completions of work, on rows that other
-- services may share.
use mathlib.Core.List.{append-nil}
use sih26_proto.Leases.Service.{verify_run_lease}
use sih26_proto.ControlPlane.Admission.{request_guard, continue_request, state_of_run}
use sih26_proto.Journal.{find_run}
use sih26_proto.Result.{◌>>=◌}
use sih26_proto.Common.{
  ◌⊎◌, ℕ, string_eq, ◌≡◌, refl, ap, ◌∙◌, sym, subst, String, Option, none, some, List, [],
  Bool-cases, inl, inr,
}
use sih26_proto.Result.{Result, ok, err, >>=-eq-ok, ok_injective, IntegrityError}
use sih26_proto.Journal.{RunRecord, WorkStatus, Body, JournalEvent, JournalCommand}
use sih26_proto.Journal.Replay.{reduce_journal_events}
use sih26_proto.Stages.{ArtifactRef}
use sih26_proto.Leases.{LeaseRow, LeaseClaims, DomainError}
use sih26_proto.ControlPlane.JournalService.{CacheEntry, ApplyResult, load, apply}
use sih26_proto.ControlPlane.Shared.{
  IsCurrent, cached, Replays, Outcome, known, refused, grown, apply-Outcome, load-IsBehind,
}
use sih26_proto.ControlPlane.Work.{
  WorkRequest, request_of, reservation, no_budget, admitted_budget_usage, validate_work_request,
}
use sih26_proto.ControlPlane.Reservations.{
  IsWithin, HoldsWithin, HoldsWithin-append, IsWithin-nothing,
}
use sih26_proto.ControlPlane.Validation.{validate_work_request-IsValid, reservation-IsWithin}
use sih26_proto.ControlPlane.Admission.{
  ControlPlane, WorkResult, answered, apply_work, with_journal, refuse, decide_request,
  request_for_run, request_orchestrator_work, work_requested_command, already_recorded,
}

-- The Control Plane's rows replay, its cache is the replay of first rows, and no Run's work under way
-- holds more than the limits.
pub record IsSound (cp : ControlPlane) : Type 0 where
  pub replays : Replays cp.rows
  pub current : IsCurrent cp.rows cp.cache
  pub within : (run_id : String) → HoldsWithin cp.rows run_id

-- A command whose event reserves only what fits, where the cache has all the rows.
abbrev pub Fits : ControlPlane → CacheEntry → JournalCommand → Type 0
Fits cp entry command =
    entry.events ≡ cp.rows
    → (run_id : String)
    → IsWithin (admitted_budget_usage run_id cp.rows)
        (reservation [] (request_of run_id command.body))

Outcome-IsSound :
    {T : Type 0} (cp : ControlPlane) (entry : CacheEntry) (command : JournalCommand) (value : T)
    (after : ApplyResult × CacheEntry × List JournalEvent) {answer : Result T DomainError}
    {cp' : ControlPlane}
    → IsSound cp
    → Fits cp entry command
    → Outcome cp.rows entry command after
    → answered cp value (ok after) ≡ ok (answer, cp')
    → IsSound cp'
unfolding answered
Outcome-IsSound cp entry command value after sound fits (known {entry = left} behind) h =
    subst IsSound (ap (λ p. p.1) (sym (ok_injective _ _ h)))
      (record { replays = sound.replays; current = cached behind; within = sound.within })
Outcome-IsSound cp entry command value after sound fits (refused {entry = left} e behind) h =
    subst IsSound (ap (λ p. p.1) (sym (ok_injective _ _ h)))
      (record { replays = sound.replays; current = cached behind; within = sound.within })
Outcome-IsSound cp entry command value after sound fits
      (grown {entry = left} e state at_end replayed same_events same_state all own) h =
    subst IsSound (ap (λ p. p.1) (sym (ok_injective _ _ h))) (record {
      replays = (state, replayed);
      current = cached (record {
        later = [];
        splits = sym (append-nil left.events ∙ same_events);
        replays = ap reduce_journal_events same_events ∙ replayed ∙ ap ok (sym same_state);
      });
      within = λ run_id.
          subst (λ rows. HoldsWithin rows run_id) (sym at_end)
            (HoldsWithin-append run_id cp.rows e (
              subst
                (λ body.
                  IsWithin (admitted_budget_usage run_id cp.rows)
                    (reservation [] (request_of run_id body)))
                (sym own) (fits all run_id)));
    })

pub load_cached :
    (cache : Option CacheEntry) (rows : List JournalEvent) (entry before : CacheEntry)
    → cache ≡ some entry
    → load cache rows ≡ ok before
    → before ≡ entry
unfolding load
load_cached none rows entry before held h = cc held
load_cached (some found) rows entry before held h = cc (held, h)

-- A command that fits whatever entry is loaded.
pub apply_any-IsSound :
    {T : Type 0} (cp : ControlPlane) (command : JournalCommand) (value : T)
    {answer : Result T DomainError} {cp' : ControlPlane}
    → IsSound cp
    → ((entry : CacheEntry) → load cp.cache cp.rows ≡ ok entry → Fits cp entry command)
    → apply_work cp command value ≡ ok (answer, cp')
    → IsSound cp'
unfolding apply_work
apply_any-IsSound {T} cp command value {answer} {cp'} sound fits h =
    settle (apply cp.cache cp.rows command) refl h
  where
    settle :
        (result : Result (ApplyResult × CacheEntry × List JournalEvent) IntegrityError)
        → apply cp.cache cp.rows command ≡ result
        → answered cp value result ≡ ok (answer, cp')
        → IsSound cp'
    settle (err thrown) same_result h = unfold answered in cc h
    settle (ok after) same_result h =
        let (before, loaded, outcome) =
          apply-Outcome cp.cache cp.rows command after sound.current sound.replays same_result in
        Outcome-IsSound cp before command value after sound (fits before loaded) outcome h

pub apply_work-IsSound :
    {T : Type 0} (cp : ControlPlane) (entry : CacheEntry) (command : JournalCommand) (value : T)
    {answer : Result T DomainError} {cp' : ControlPlane}
    → IsSound cp
    → cp.cache ≡ some entry
    → Fits cp entry command
    → apply_work cp command value ≡ ok (answer, cp')
    → IsSound cp'
apply_work-IsSound cp entry command value sound held fits =
    apply_any-IsSound cp command value sound λ before loaded.
      subst (λ x. Fits cp x command) (sym (load_cached cp.cache cp.rows entry before held loaded))
        fits

-- A command that admits no work reserves nothing.
abbrev pub AdmitsNothing : Body → Type 0
AdmitsNothing body = (run_id : String) → reservation [] (request_of run_id body) ≡ no_budget

pub nothing-Fits :
    (cp : ControlPlane) (entry : CacheEntry) (command : JournalCommand)
    → IsSound cp
    → AdmitsNothing command.body
    → Fits cp entry command
nothing-Fits cp entry command sound nothing all run_id =
    rw (nothing run_id)
      (IsWithin-nothing (admitted_budget_usage run_id cp.rows) (sound.within run_id))

-- What is loaded goes into the cache.
pub loaded-IsSound :
    (cp : ControlPlane) (entry : CacheEntry)
    → IsSound cp
    → load cp.cache cp.rows ≡ ok entry
    → IsSound (with_journal cp entry cp.rows)
loaded-IsSound cp entry sound loaded = record {
  replays = sound.replays;
  current = cached (load-IsBehind cp.cache cp.rows sound.current loaded);
  within = sound.within;
}

-- The event of a request fits where it is rejected, or where it was found valid on all the rows.
request-Fits :
    (cp : ControlPlane) (entry : CacheEntry) (claims : LeaseClaims) (request : WorkRequest)
    (status : WorkStatus) (now_text : String) (refs : List ArtifactRef)
    → IsSound cp
    → (status ≡ WorkStatus.admitted
        → IsWithin (admitted_budget_usage claims.run_id entry.events) request.budget)
    → Fits cp entry
        (work_requested_command cp.incident_id claims.run_id request status now_text refs)
unfolding work_requested_command
request-Fits cp entry claims request status now_text refs sound valid all run_id =
    reservation-IsWithin _ run_id (admitted_budget_usage run_id cp.rows) (sound.within run_id)
      λ same_run is_admitted.
        subst (λ id. IsWithin (admitted_budget_usage id cp.rows) request.budget) same_run
          (subst (λ es. IsWithin (admitted_budget_usage claims.run_id es) request.budget) all
            (valid is_admitted))

pub refuse-IsSound :
    {T : Type 0} (cp : ControlPlane) (e : DomainError) {answer : Result T DomainError}
    {cp' : ControlPlane}
    → IsSound cp
    → refuse cp e ≡ ok (answer, cp')
    → IsSound cp'
refuse-IsSound cp e sound h = subst IsSound (ap (λ p. p.1) (sym (ok_injective _ _ h))) sound

pub guard-cases :
    (r : Result (Unit {0}) DomainError) → ((e : DomainError) × (r ≡ err e)) ⊎ (r ≡ ok tt)
guard-cases (err e) = inl (e, refl)
guard-cases (ok t) = inr refl

module _ (date_parse : String → Option ℕ) (token_hash : String → String)
    (lease_ttl permit_ttl : ℕ) where
  decide_request-IsSound :
      (cp : ControlPlane) (entry : CacheEntry) (now : ℕ) (now_text : String) (claims : LeaseClaims)
      (request : WorkRequest) (run : RunRecord) (found : Result (Unit {0}) DomainError)
      {answer : Result WorkResult DomainError} {cp' : ControlPlane}
      → IsSound cp
      → cp.cache ≡ some entry
      → validate_work_request date_parse entry.events now request claims run ≡ found
      → decide_request date_parse token_hash lease_ttl permit_ttl cp entry now now_text claims
          request run found
        ≡ ok (answer, cp')
      → IsSound cp'
  unfolding decide_request
  decide_request-IsSound cp entry now now_text claims request run (err failure) sound held asked h =
      apply_work-IsSound cp entry _ _ sound held
        (request-Fits cp entry claims request WorkStatus.rejected now_text [] sound (λ p. cc p)) h
  decide_request-IsSound cp entry now now_text claims request run (ok valid) sound held asked h =
      apply_work-IsSound cp entry _ _ sound held
        (request-Fits cp entry claims request WorkStatus.admitted now_text _ sound (λ p.
          (validate_work_request-IsValid date_parse entry.events now request claims run
            asked).budget))
        h

  request_for_run-IsSound :
      (cp : ControlPlane) (entry : CacheEntry) (now : ℕ) (now_text : String) (claims : LeaseClaims)
      (request : WorkRequest) (run : Option RunRecord) (verified : Result LeaseRow DomainError)
      {answer : Result WorkResult DomainError} {cp' : ControlPlane}
      → IsSound cp
      → cp.cache ≡ some entry
      → request_for_run date_parse token_hash lease_ttl permit_ttl cp entry now now_text claims
          request run verified
        ≡ ok (answer, cp')
      → IsSound cp'
  unfolding request_for_run
  request_for_run-IsSound cp entry now now_text claims request run (err failure) sound held h =
      refuse-IsSound cp failure sound h
  request_for_run-IsSound cp entry now now_text claims request none (ok lease) sound held h =
      refuse-IsSound cp DomainError.not_found sound h
  request_for_run-IsSound cp entry now now_text claims request (some run) (ok lease) sound held h =
      elim (Bool-cases (already_recorded claims.run_id request entry.events)) [
        | inl again ↦ refuse-IsSound cp DomainError.duplicate_work sound (rw again at h)
        | inr first ↦
            decide_request-IsSound cp entry now now_text claims request run _ sound held refl
              (rw first at h)
      ]

  -- What follows the guards keeps the limits, with rows that replay and a cache of first rows, whatever it
  -- asks for, whoever asks, whatever Run and verified lease it found while it waited, and whatever other
  -- services have written to the rows since the cache was filled.
  pub continued-IsSound :
      (cp : ControlPlane) (now : ℕ) (now_text : String) (claims : LeaseClaims)
      (request : WorkRequest) (run : CacheEntry → Option RunRecord)
      (verified : CacheEntry → Result LeaseRow DomainError) (answer : Result WorkResult DomainError)
      (cp' : ControlPlane)
      → IsSound cp
      → (load cp.cache cp.rows >>= λ entry.
          request_for_run date_parse token_hash lease_ttl permit_ttl
            (with_journal cp entry cp.rows)
            entry
            now
            now_text
            claims
            request
            (run entry)
            (verified entry))
        ≡ ok (answer, cp')
      → IsSound cp'
  continued-IsSound cp now now_text claims request run verified answer cp' sound h =
      let (entry, loaded, h) = >>=-eq-ok (load cp.cache cp.rows) _ h in
      request_for_run-IsSound (with_journal cp entry cp.rows) entry now now_text claims request
        (run entry) (verified entry) (loaded-IsSound cp entry sound loaded) refl h

  pub request_orchestrator_work-IsSound :
      (cp : ControlPlane) (now : ℕ) (now_text token : String) (claims : LeaseClaims)
      (request : WorkRequest) (answer : Result WorkResult DomainError) (cp' : ControlPlane)
      → IsSound cp
      → request_orchestrator_work date_parse token_hash lease_ttl permit_ttl cp now now_text token
          claims request
        ≡ ok (answer, cp')
      → IsSound cp'
  unfolding request_orchestrator_work continue_request
  request_orchestrator_work-IsSound cp now now_text token claims request answer cp' sound h =
      elim (guard-cases (request_guard cp claims)) [
        | inl (failure, stopped) ↦
            refuse-IsSound cp failure sound (rw (stopped, request_orchestrator_work) at h)
        | inr passed ↦
            continued-IsSound cp now now_text claims request
              (λ entry. find_run claims.run_id entry.state.runs)
              (λ entry.
                verify_run_lease token_hash lease_ttl permit_ttl cp.leases now token claims
                  (state_of_run (find_run claims.run_id entry.state.runs)))
              answer cp' sound (rw (passed, request_orchestrator_work, continue_request) at h)
      ]
