-- ===== src/Stages/History.antt =====
-- What an accepted list of stage records says of the records themselves, with no mention of the
-- variables of the check (packages/contracts/src/transitions.ts).
use sih26_proto.Common.{
  sym, string_eq, get_or, ◌∙◌, ap, ℕ, suc, ◌+◌, ◌*◌, ◌≡◌, ◌≤◌, ◌<◌, refl, true, false, Option, none,
  some, List, [], ◌∷◌, ◌++◌, arith, if◌then◌else◌, is_some, length, ◌==◌, ◌⊎◌, includes, String,
}
use sih26_proto.Stages.{
  default_revision_cap, entered, VisitState, StageName, StageStatus, StageTransition, stage_index,
  Check, StageCheckResult, check_record, check_from, check_stage_records, start_check, result_of,
  push_hash, is_unfinished, status_of, status_eq, stage_eq, completed, failed, skipped, repair,
  verify,
}
use sih26_proto.Result.{ok, >>=-eq-ok, ok_injective}
use sih26_proto.Stages.Moves.{Move, skip, revise, enter, progress, check_record-Move}
use sih26_proto.Stages.Invariant.{
  potential_le, stage_index_injective, start_check-Inv, check_from-Inv,
}

-- The status of a stage's last record, read from the records alone.
abbrev pub last_status : StageName → Option StageStatus → List StageTransition → Option StageStatus
last_status st found [] = found
last_status st found (r ∷ rs) = last_status st (if r.stage == st then some r.to else found) rs

-- The candidate hashes that the records carry, skips aside.
abbrev pub hashes_from : List String → List StageTransition → List String
hashes_from hashes [] = hashes
hashes_from hashes (r ∷ rs) =
    hashes_from (if r.to == skipped then hashes else push_hash hashes r.candidate_hash) rs

-- What a move says of the check after it, whichever move it is.
record Reads (s : Check) (r : StageTransition) (s' : Check) : Type 0 where
  current : s'.next ≡ suc (stage_index r.stage)
  status :
      (st : StageName)
      → status_of (s'.final_status st)
        ≡ (if r.stage == st then some r.to else status_of (s.final_status st))
  hashes : s'.candidate_hashes ≡ (
      if r.to == skipped then s.candidate_hashes else push_hash s.candidate_hashes r.candidate_hash)

Move-Reads :
    {limit : ℕ} {s : Check} {r : StageTransition} {s' : Check} → Move limit s r s' → Reads s r s'
Move-Reads (skip reason t a b c e f p m) = record {
  current = ground arith;
  status = λ st. ground arith;
  hashes = ground arith;
}
Move-Reads (enter t e f p m) = record {
  current = ground arith;
  status = λ st. ground arith;
  hashes = ground arith;
}
Move-Reads (revise hash er t el h a ec m) = record {
  current = ground arith;
  status = λ st. ground arith;
  hashes = ground arith;
}
Move-Reads (progress visit e found f t legal m) = record {
  current = ground arith;
  status = λ st. ground arith;
  hashes = ground arith;
}

-- The loop on two lists, one after the other.
check_from-append :
    (limit : ℕ) (s : Check) (rs qs : List StageTransition) {s' : Check}
    → check_from limit s (rs ++ qs) ≡ ok s'
    → (t : Check) × (check_from limit s rs ≡ ok t) × (check_from limit t qs ≡ ok s')
unfolding check_from
check_from-append limit s [] qs h = (s, refl, h)
check_from-append limit s (r ∷ rs) qs h =
    let (t, step, rest) =
      >>=-eq-ok (check_record limit s r) (λ t. check_from limit t (rs ++ qs)) h in
    let (u, left, right) = check_from-append limit t rs qs rest in
    (u, rw (step, check_from) left, right)

check_from_single :
    (limit : ℕ) (s : Check) (r : StageTransition) {s' : Check}
    → check_from limit s (r ∷ []) ≡ ok s'
    → Move limit s r s'
unfolding check_from
check_from_single limit s r h =
    let (t, step, rest) = >>=-eq-ok (check_record limit s r) (λ t. check_from limit t []) h in
    check_record-Move limit s r (step ∙ rest)

module _ (limit : ℕ) where
  check_from-status :
      (s : Check) (rs : List StageTransition) {s' : Check}
      → check_from limit s rs ≡ ok s'
      → (st : StageName)
      → status_of (s'.final_status st) ≡ last_status st (status_of (s.final_status st)) rs
  unfolding check_from
  check_from-status s [] h st = ap (λ c. status_of (c.final_status st)) (ok_injective _ _ h)
  check_from-status s (r ∷ rs) h st =
      let (t, step, rest) = >>=-eq-ok (check_record limit s r) (λ t. check_from limit t rs) h in
      check_from-status t rs rest st
      ∙ ap (λ found. last_status st found rs)
          ((Move-Reads (check_record-Move limit s r step)).status st)

  check_from-hashes :
      (s : Check) (rs : List StageTransition) {s' : Check}
      → check_from limit s rs ≡ ok s'
      → s'.candidate_hashes ≡ hashes_from s.candidate_hashes rs
  unfolding check_from
  check_from-hashes s [] h = ap (λ c. c.candidate_hashes) (ok_injective _ _ h)
  check_from-hashes s (r ∷ rs) h =
      let (t, step, rest) = >>=-eq-ok (check_record limit s r) (λ t. check_from limit t rs) h in
      check_from-hashes t rs rest
      ∙ ap (λ hs. hashes_from hs rs) (Move-Reads (check_record-Move limit s r step)).hashes

ended_of_finished :
    (o : Option VisitState)
    → is_some o ≡ true
    → is_unfinished o ≡ false
    → (status_of o ≡ some completed) ⊎ (status_of o ≡ some skipped)
ended_of_finished o h k = ground arith

-- The loop behind `check_stage_records`.
accepted :
    (rs : List StageTransition) (limit : Option ℕ) {c : StageCheckResult}
    → check_stage_records rs limit ≡ ok c
    → (s : Check) × (check_from (get_or limit default_revision_cap) start_check rs ≡ ok s)
      × (c ≡ result_of s)
unfolding check_stage_records
accepted rs limit h =
    let (s, loop, e) =
      >>=-eq-ok (check_from (get_or limit default_revision_cap) start_check rs)
        (λ s. ok (result_of s)) h in
    (s, loop, ok_injective _ _ e)

-- An accepted list of stage records holds at most as many revisions as the cap allows, and at most
-- 18 records and 6 more for each revision that the cap allows.
pub check_stage_records_bounds :
    (rs : List StageTransition) (limit : Option ℕ) {c : StageCheckResult}
    → check_stage_records rs limit ≡ ok c
    → (c.revisions ≤ get_or limit default_revision_cap)
      × (length rs ≤ 18 + 6 * get_or limit default_revision_cap)
check_stage_records_bounds rs limit h =
    let (s, loop, e) = accepted rs limit h in
    let i =
      check_from-Inv (get_or limit default_revision_cap) 0 start_check rs (start_check-Inv _)
        loop in
    (
      rw e i.capped,
      omega (arith, i.counted, i.bounded, i.capped, potential_le s.final_status s.next),
    )

-- In an accepted list of stage records, when the last record is of a stage, the last record of
-- every earlier stage of the fixed order has completed or skipped that stage.
pub check_stage_records_order :
    (rs : List StageTransition) (r : StageTransition) (limit : Option ℕ) {c : StageCheckResult}
    (st : StageName)
    → check_stage_records (rs ++ r ∷ []) limit ≡ ok c
    → stage_index st < stage_index r.stage
    → (last_status st none (rs ++ r ∷ []) ≡ some completed)
      ⊎ (last_status st none (rs ++ r ∷ []) ≡ some skipped)
unfolding start_check
check_stage_records_order rs r limit st h lt =
    let (s, loop, e) = accepted (rs ++ r ∷ []) limit h in
    let most = get_or limit default_revision_cap in
    let i = check_from-Inv most 0 start_check (rs ++ r ∷ []) (start_check-Inv most) loop in
    let (t, front, back) = check_from-append most start_check rs (r ∷ []) loop in
    let here = (Move-Reads (check_from_single most t r back)).current in
    rw (← check_from-status most start_check (rs ++ r ∷ []) loop st) (
      ended_of_finished (s.final_status st) (i.visited st (omega arith))
        (i.finished st (omega arith)))

last_to :
    (a : StageName) (to : StageStatus) (b : StageName) (found : Option StageStatus)
    → a ≡ b
    → (if a == b then some to else found) ≡ some failed
    → to ≡ failed
last_to a to b found e h = ground arith

-- A record of an earlier stage than the current one is a revision.
going_back :
    {limit : ℕ} {s : Check} {r : StageTransition} {s' : Check}
    → Move limit s r s'
    → suc (stage_index r.stage) < s.next
    → (s.last_failed_stage ≡ some verify)
      × (r.stage ≡ repair)
      × (r.to ≡ entered)
      × (hash : String) × (r.candidate_hash ≡ some hash)
      × (includes s.candidate_hashes hash ≡ false)
going_back (skip reason t a b c e f p m) lt = absurd (omega arith)
going_back (enter t e f p m) lt = absurd (omega arith)
going_back (progress visit e found f t legal m) lt = absurd (omega arith)
going_back (revise hash er t el h a ec m) lt = (el, er, t, hash, h, a)

-- An accepted list of stage records goes back to an earlier stage only from a failed Verify to an
-- entered Repair, with a candidate hash that no record before it has carried, skips aside.
pub check_stage_records_back :
    (rs : List StageTransition) (q r : StageTransition) (limit : Option ℕ) {c : StageCheckResult}
    → check_stage_records ((rs ++ q ∷ []) ++ r ∷ []) limit ≡ ok c
    → stage_index r.stage < stage_index q.stage
    → (q.stage ≡ verify)
      × (q.to ≡ failed)
      × (r.stage ≡ repair)
      × (r.to ≡ entered)
      × (hash : String) × (r.candidate_hash ≡ some hash)
      × (includes (hashes_from [] (rs ++ q ∷ [])) hash ≡ false)
unfolding start_check
check_stage_records_back rs q r limit h lt =
    let (s, loop, _) = accepted ((rs ++ q ∷ []) ++ r ∷ []) limit h in
    let most = get_or limit default_revision_cap in
    let (u, front, back) = check_from-append most start_check (rs ++ q ∷ []) (r ∷ []) loop in
    let (t, before, last) = check_from-append most start_check rs (q ∷ []) front in
    let i = check_from-Inv most 0 start_check (rs ++ q ∷ []) (start_check-Inv most) front in
    let reads = Move-Reads (check_from_single most t q last) in
    let (el, er, et, hash, eh, fresh) =
      going_back (check_from_single most u r back) (omega (arith, reads.current)) in
    let (four, failing) = i.failing verify el in
    let same = stage_index_injective q.stage verify (omega (arith, reads.current, four)) in
    (
      same,
      last_to q.stage q.to _ _ same (sym (reads.status verify) ∙ failing),
      er,
      et,
      hash,
      eh,
      rw (← check_from-hashes most start_check (rs ++ q ∷ []) front) fresh,
    )
