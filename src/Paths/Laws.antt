-- ===== src/Paths/Laws.antt =====
-- Which sets of paths `validatePaths` takes.
use mathlib.Core.List.{append-nil, append_assoc}
use sih26_proto.Common.{
  ◌⊎◌, ◌≡◌, ◌↔◌, refl, sym, ap, ◌∙◌, subst, false, List, [], ◌∷◌, ◌++◌, map, includes, Bool-cases,
  inl, inr, All, nat_eq, list_eq,
}
use sih26_proto.Result.{Result, ok, err, ok_injective, IntegrityError}
use sih26_proto.Canonical.Json.{Text}
use sih26_proto.Paths.{normalize_saved_path, has_key, validate_from, validate_paths}
use sih26_proto.Paths.Segments.{IsSavedPath}
use sih26_proto.Paths.Normal.{normalize_saved_path-IsSavedPath, IsSavedPath-normalize_saved_path}

abbrev pub with_itself : Text → Text × Text
with_itself path = (path, path)

-- No path twice, and none of those in front.
abbrev pub IsFresh : (before paths : List Text) → Type 0
IsFresh before [] = Unit
IsFresh before (path ∷ paths) = (includes before path ≡ false) × IsFresh (before ++ path ∷ []) paths

keys-append :
    (m : List (Text × Text)) (path : Text)
    → map (λ e. e.0) (m ++ (path, path) ∷ []) ≡ map (λ e. e.0) m ++ path ∷ []
keys-append [] path = refl
keys-append (e ∷ m) path = ap (◌∷◌ e.0) (keys-append m path)

Result-cases {ℓ} :
    {A : Type ℓ} (r : Result A IntegrityError)
    → ((e : IntegrityError) × (r ≡ err e)) ⊎ ((a : A) × (r ≡ ok a))
Result-cases (err e) = inl (e, refl)
Result-cases (ok a) = inr (a, refl)

with_itself-append :
    (m : List (Text × Text)) (path : Text) (paths : List Text)
    → (m ++ (path, path) ∷ []) ++ map with_itself paths ≡ m ++ map with_itself (path ∷ paths)
with_itself-append m path paths = append_assoc m ((path, path) ∷ []) (map with_itself paths)

record IsTaken (m r : List (Text × Text)) (paths : List Text) : Type 0 where
  pub saved : All IsSavedPath paths
  pub fresh : IsFresh (map (λ e. e.0) m) paths
  pub result : r ≡ m ++ map with_itself paths

taken-next :
    (m r : List (Text × Text)) (path : Text) (paths : List Text)
    → IsSavedPath path
    → has_key m path ≡ false
    → IsTaken (m ++ (path, path) ∷ []) r paths
    → IsTaken m r (path ∷ paths)
taken-next m r path paths h f t = record {
  saved = (h, t.saved);
  fresh = (f, subst (λ l. IsFresh l paths) (keys-append m path) t.fresh);
  result = t.result ∙ with_itself-append m path paths;
}

taken :
    (m r : List (Text × Text)) (paths : List Text)
    → validate_from m paths ≡ ok r
    → IsTaken m r paths
unfolding validate_from
taken m r [] h = record { saved = tt; fresh = tt; result = ok_injective m r h ∙ sym (append-nil m) }
taken m r (path ∷ paths) h = elim (Result-cases (normalize_saved_path path)) [
  | inl (e, bad) ↦ cc (rw (bad, validate_from) at h)
  | inr (p, good) ↦
      let (saved, same) = normalize_saved_path-IsSavedPath path p good in
      let good = good ∙ ap ok same in
      elim (Bool-cases (has_key m path)) [
        | inl twice ↦ cc (rw (good, twice, validate_from) at h)
        | inr fresh ↦
            taken-next m r path paths saved fresh
              (taken (m ++ (path, path) ∷ []) r paths (rw (good, fresh, validate_from) at h))
      ]
]

take-All :
    (m : List (Text × Text)) (paths : List Text)
    → All IsSavedPath paths
    → IsFresh (map (λ e. e.0) m) paths
    → validate_from m paths ≡ ok (m ++ map with_itself paths)
unfolding validate_from
take-All m [] h f = ap ok (sym (append-nil m))
take-All m (path ∷ paths) (h, hs) (f, fs) =
    rw (IsSavedPath-normalize_saved_path path h, f, validate_from)
      (take-All (m ++ (path, path) ∷ []) paths hs
          (subst (λ l. IsFresh l paths) (sym (keys-append m path)) fs)
        ∙ ap ok (with_itself-append m path paths))

-- The paths are taken exactly where each is written as segments between single slashes, none of them
-- empty, a dot or two dots, without backslash and NUL, and where no path comes twice; the map then has
-- each path as its own normal form, in their order.
pub validate_paths_iff :
    (paths : List Text) (r : List (Text × Text))
    → (validate_paths paths ≡ ok r)
      ↔ (All IsSavedPath paths × IsFresh [] paths × (r ≡ map with_itself paths))
validate_paths_iff paths r = (
  λ h. let t = taken [] r paths h in (t.saved, t.fresh, t.result),
  λ (h, f, e). take-All [] paths h f ∙ ap ok (sym e),
)
