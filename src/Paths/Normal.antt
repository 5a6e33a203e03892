-- ===== src/Paths/Normal.antt =====
-- Which paths `normalizeSavedPath` takes.
use sih26_proto.Result.{Result, ok, err, ok_injective, IntegrityError, invalid_path}
use sih26_proto.Common.{
  nat_eq, list_eq, Bool, sym, ◌∙◌, subst, beq_of_ne, includes, includes-append, starts_with, all,
  sym, ◌∙◌, includes, beq_of_ne, all, subst, ℕ, ◌≡◌, ◌≢◌, refl, true, false, not, List, [], ◌∷◌,
  if◌then◌else◌, nat_beq, All,
}
use sih26_proto.Paths.Segments.{
  IsPlain, IsSegment, IsSavedPath, join_segments, split, split_slashes-join, all-IsSegment,
  all-is_segment,
}
use sih26_proto.Paths.{ok, is_segment, normalize_saved_path}
use sih26_proto.Canonical.Json.{Text}
use sih26_proto.Redaction.{split_slashes}

includes-plain :
    (d : ℕ) (s : Text) → ((c : ℕ) → IsPlain c → c ≢ d) → All IsPlain s → includes s d ≡ false
includes-plain d [] other h = refl
includes-plain d (c ∷ s) other (h, hs) =
    rw (beq_of_ne c d (other c h), includes-plain d s other hs) refl

-- A character that no plain character is, other than the slash.
includes-join :
    (d : ℕ) (s : Text) (ts : List Text)
    → ((c : ℕ) → IsPlain c → c ≢ d)
    → nat_beq 47 d ≡ false
    → All IsSegment (s ∷ ts)
    → includes (join_segments s ts) d ≡ false
unfolding join_segments
includes-join d s [] other n (h, hs) = includes-plain d s other h.plain
includes-join d s (t ∷ ts) other n (h, hs) =
    includes-append s (47 ∷ join_segments t ts) d
    ∙ rw (includes-plain d s other h.plain, n, includes-join d t ts other n hs) refl

starts_with-join :
    (s : Text) (ts : List Text) → IsSegment s → starts_with (join_segments s ts) (47 ∷ []) ≡ false
unfolding join_segments
starts_with-join [] ts h = absurd (h.not_empty refl)
starts_with-join (c ∷ s) [] h = rw (beq_of_ne c 47 h.plain.0.no_slash) refl
starts_with-join (c ∷ s) (t ∷ ts) h = rw (beq_of_ne c 47 h.plain.0.no_slash) refl

-- The guards of `normalizeSavedPath`.
abbrev guarded : (nul back absolute good : Bool) → Text → Result Text IntegrityError
guarded nul back absolute good path =
    if nul
    then err invalid_path
    else if back
    then err invalid_path
    else if absolute
    then err invalid_path
    else if not good
    then err invalid_path
    else ok path

guarded-ok :
    (nul back absolute good : Bool) (path p : Text)
    → guarded nul back absolute good path ≡ ok p
    → (nul ≡ false) × (back ≡ false) × (good ≡ true) × (path ≡ p)
guarded-ok true back absolute good path p h = cc h
guarded-ok false true absolute good path p h = cc h
guarded-ok false false true good path p h = cc h
guarded-ok false false false true path p h = (refl, refl, refl, sym (ok_injective path p h))
guarded-ok false false false false path p h = cc h

pub normalize_saved_path-IsSavedPath :
    (path p : Text) → normalize_saved_path path ≡ ok p → IsSavedPath path × (p ≡ path)
unfolding normalize_saved_path
normalize_saved_path-IsSavedPath [] p h = cc h
normalize_saved_path-IsSavedPath (c ∷ cs) p h =
    let (nul, back, good, same) =
      guarded-ok (includes (c ∷ cs) 0) (includes (c ∷ cs) 92) (starts_with (c ∷ cs) (47 ∷ []))
        (all is_segment (split_slashes (c ∷ cs))) (c ∷ cs) p h in
    let parts = split (c ∷ cs) nul back in
    (
      record {
        first = parts.first;
        others = parts.others;
        joined = parts.joined;
        segments =
            all-IsSegment (parts.first ∷ parts.others) parts.plain
              (subst (λ l. all is_segment l ≡ true) parts.splits good);
      },
      sym same,
    )

normalize_saved_path-guarded :
    (path : Text)
    → path ≢ []
    → normalize_saved_path path
      ≡ guarded
          (includes path 0)
          (includes path 92)
          (starts_with path (47 ∷ []))
          (all is_segment (split_slashes path))
          path
unfolding normalize_saved_path
normalize_saved_path-guarded [] n = absurd (n refl)
normalize_saved_path-guarded (c ∷ cs) n = refl

join_segments_some : (s : Text) (ts : List Text) → IsSegment s → join_segments s ts ≢ []
unfolding join_segments
join_segments_some [] ts h = absurd (h.not_empty refl)
join_segments_some (c ∷ s) [] h = λ e. cc e
join_segments_some (c ∷ s) (t ∷ ts) h = λ e. cc e

normalize_saved_path-join :
    (s : Text) (ts : List Text)
    → All IsSegment (s ∷ ts)
    → normalize_saved_path (join_segments s ts) ≡ ok (join_segments s ts)
normalize_saved_path-join s ts h =
    rw
      (
        normalize_saved_path-guarded (join_segments s ts) (join_segments_some s ts h.0),
        includes-join 0 s ts (λ c p. p.no_nul) refl h,
        includes-join 92 s ts (λ c p. p.no_backslash) refl h,
        starts_with-join s ts h.0,
        split_slashes-join s ts h,
        all-is_segment (s ∷ ts) h,
      )
      refl

pub IsSavedPath-normalize_saved_path :
    (path : Text) → IsSavedPath path → normalize_saved_path path ≡ ok path
IsSavedPath-normalize_saved_path path h =
    subst (λ l. normalize_saved_path l ≡ ok l) (sym h.joined)
      (normalize_saved_path-join h.first h.others h.segments)
