-- ===== src/Examples/RedactionRun.antt =====
-- Pointers and a masked payload for packages/contracts/src/redaction.ts, and the paths of a saved bundle
-- for packages/contracts/src/paths.ts.
use sih26_proto.Redaction.Children.{item, entry, named, front, behind, value_of, tens}
use sih26_proto.Canonical.Grammar.{numeral}
use sih26_proto.Common.{
  arith, includes, false, nat_eq, list_eq, false, ℕ, ◌≡◌, refl, true, List, [], ◌∷◌, codes,
}
use sih26_proto.Result.{ok, err, redaction_failure, invalid_path}
use sih26_proto.Canonical.Json.{
  Text, Value, string, number, array, object, no_elements, element, no_members, member,
}
use sih26_proto.Paths.{validate_paths, validate_from, normalize_saved_path, is_segment}
use sih26_proto.Paths.Laws.{validate_paths_iff}
use sih26_proto.Redaction.{
  redacted, split_pointer, verify_redaction, split_slashes, has_good_escapes, resolve_pointer,
  resolve_tokens, descend, member_at, replace_escape, element_at,
}
use sih26_proto.Canonical.Compatible.{is_index_key}
use sih26_proto.Redaction.Pointers.{escape, escape_unit, pointer_of, split_pointer-pointer_of}
use sih26_proto.Redaction.Laws.{verify_redaction_iff, IsMasked, here, into}

abbrev awkward : List Text
awkward = codes "a/b" ∷ codes "~1" ∷ [] ∷ []

awkward_pointer : pointer_of awkward ≡ codes "/a~1b/~01/"
unfolding pointer_of escape escape_unit
awkward_pointer = refl

bad_escape : split_pointer (codes "/a~2") ≡ err redaction_failure
unfolding split_pointer split_slashes has_good_escapes
bad_escape = refl

split_pointer-pointer_of_example : split_pointer (pointer_of awkward) ≡ ok awkward
split_pointer-pointer_of_example = split_pointer-pointer_of awkward

abbrev masked_items : Value ℕ
masked_items = array (element (number 7) (element (string redacted) no_elements)) []

-- {"a":[7,"[REDACTED]"]}
abbrev masked_payload : Value ℕ
masked_payload = object true false (member (codes "a") masked_items no_members)

abbrev pointers : List Text
pointers = codes "/a/1" ∷ []

not_masked : verify_redaction masked_payload (codes "/a/0" ∷ []) ≡ err redaction_failure
unfolding verify_redaction resolve_pointer split_pointer split_slashes has_good_escapes
    resolve_tokens descend member_at replace_escape is_index_key element_at
not_masked = refl

masked_payload-IsMasked : IsMasked masked_payload (codes "/a/1")
unfolding pointer_of escape escape_unit value_of tens
masked_payload-IsMasked = record {
  tokens = codes "a" ∷ codes "1" ∷ [];
  written = refl;
  leads = into {w = masked_items} (entry named (λ e. cc e)) (
      into {w = string redacted}
        (item (numeral (omega arith) (omega arith) tt) (behind front) (λ e. cc e)) here);
}

verify_redaction_iff_example : verify_redaction masked_payload pointers ≡ ok true
verify_redaction_iff_example =
    (verify_redaction_iff masked_payload pointers).1 (masked_payload-IsMasked, tt)

abbrev bundle : List Text
bundle = codes "run.json" ∷ codes "a/.b/c" ∷ []

bundle_taken :
    validate_paths bundle
    ≡ ok ((codes "run.json", codes "run.json") ∷ (codes "a/.b/c", codes "a/.b/c") ∷ [])
unfolding validate_from normalize_saved_path is_segment split_slashes
bundle_taken = refl

climbing : validate_paths (codes "a/../b" ∷ []) ≡ err invalid_path
unfolding validate_from normalize_saved_path is_segment split_slashes
climbing = refl

-- The paths that were taken are one path or another, never the same.
validate_paths_iff_example : (includes (codes "run.json" ∷ []) (codes "a/.b/c") ≡ false)
validate_paths_iff_example =
    ((validate_paths_iff bundle
        ((codes "run.json", codes "run.json") ∷ (codes "a/.b/c", codes "a/.b/c") ∷ [])).0
      bundle_taken).1.1.0
