-- ===== src/Gates/Hypotheses.antt =====
-- apps/control-plane/src/gates/hypothesis-gate.ts: `evaluateHypotheses`, over the verdicts of the gate
-- for each Hypothesis. A mandated test is the pair of Hypotheses that it discriminates between.
use sih26_proto.Common.{
  ◌≤◌, ◌≡◌, refl, String, Bool, true, false, Option, none, some, List, [], ◌∷◌, map, if◌then◌else◌,
  filter, length, arith,
}
use sih26_proto.Journal.RunList.{count_if}

pub data HypothesisVerdict : Type 0 where
  pass continued reject needs_human : HypothesisVerdict

pub record Evaluation : Type 0 where
  pub hypothesis_id : String
  pub verdict : HypothesisVerdict
  pub mandated_test : Option (String × String)

abbrev pub passes : Evaluation → Bool
passes e = elim e.verdict [ pass ↦ true | continued ↦ false | reject ↦ false | needs_human ↦ false ]

abbrev pub without_test : Evaluation → Evaluation
without_test e = record e { mandated_test = none }

abbrev pub downgraded : String × String → Evaluation → Evaluation
downgraded pair e =
    if passes e
    then record e { verdict = continued; mandated_test = some pair }
    else record e { mandated_test = none }

-- By the Hypotheses that pass: with two or more of them, none does.
abbrev pub settle : List Evaluation → List Evaluation → List Evaluation
settle (first ∷ second ∷ more) es = map (downgraded (first.hypothesis_id, second.hypothesis_id)) es
settle _ es = map without_test es

unfoldable pub evaluate_hypotheses : List Evaluation → List Evaluation
evaluate_hypotheses es = settle (filter passes es) es

none_passes :
    (pair : String × String) (es : List Evaluation) → count_if passes (map (downgraded pair) es) ≡ 0
none_passes pair [] = refl
none_passes pair (e ∷ es) = ground (arith, none_passes pair es)

same_count :
    (es : List Evaluation) → count_if passes (map without_test es) ≡ length (filter passes es)
same_count [] = refl
same_count (e ∷ es) = ground (arith, same_count es)

settled :
    (passing es : List Evaluation)
    → length passing ≡ count_if passes (map without_test es)
    → count_if passes (settle passing es) ≤ 1
settled [] es h = omega (arith, h)
settled (first ∷ []) es h = omega (arith, h)
settled (first ∷ second ∷ more) es h =
    omega (arith, none_passes (first.hypothesis_id, second.hypothesis_id) es)

-- At most one Hypothesis passes an evaluation, however many passed the gate by themselves.
pub evaluate_hypotheses_at_most_one :
    (es : List Evaluation) → count_if passes (evaluate_hypotheses es) ≤ 1
unfolding evaluate_hypotheses
evaluate_hypotheses_at_most_one es = settled (filter passes es) es (omega (arith, same_count es))
