-- ===== src/Paths.antt =====
-- packages/contracts/src/paths.ts: the paths of a saved bundle. The map of paths is a list in the order
-- of its keys.
pub mod Segments
pub mod Normal
pub mod Laws
use sih26_proto.Common.{
  ℕ, nat_eq, list_eq, Eq, Bool, true, false, not, ◌&&◌, List, [], ◌∷◌, ◌++◌, if◌then◌else◌, ◌==◌,
  codes, map, all, includes, starts_with,
}
use sih26_proto.Result.{Result, ok, err, ◌>>=◌, IntegrityError, invalid_path}
use sih26_proto.Canonical.Json.{Text}
use sih26_proto.Redaction.{split_slashes}

-- The test of one segment in the loop of `normalizeSavedPath`.
unfoldable pub is_segment : Text → Bool
is_segment [] = false
is_segment (c ∷ cs) = not ((c ∷ cs) == codes ".") && not ((c ∷ cs) == codes "..")

unfoldable pub normalize_saved_path : Text → Result Text IntegrityError
normalize_saved_path [] = err invalid_path
normalize_saved_path (c ∷ cs) =
    if includes (c ∷ cs) 0
    then err invalid_path
    else if includes (c ∷ cs) 92
    then err invalid_path
    else if starts_with (c ∷ cs) (codes "/")
    then err invalid_path
    else if not (all is_segment (split_slashes (c ∷ cs)))
    then err invalid_path
    else ok (c ∷ cs)

abbrev pub has_key : List (Text × Text) → Text → Bool
has_key entries key = includes (map (λ e. e.0) entries) key

-- The loop of `validatePaths`, with the map so far.
unfoldable pub validate_from :
    List (Text × Text) → List Text → Result (List (Text × Text)) IntegrityError
validate_from normalized [] = ok normalized
validate_from normalized (path ∷ paths) = elim (normalize_saved_path path) [
  | err e ↦ err e
  | ok p ↦ elim (has_key normalized p) [
    | true ↦ err invalid_path
    | false ↦ validate_from (normalized ++ (p, path) ∷ []) paths
  ]
]

abbrev pub validate_paths : List Text → Result (List (Text × Text)) IntegrityError
validate_paths paths = validate_from [] paths
