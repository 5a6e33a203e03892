-- ===== src/Paths/Segments.antt =====
-- What `split("/")` gives, and the paths that are written as plain segments.
use mathlib.Core.List.{append-nil}
use sih26_proto.Common.{
  nat_eq, list_eq, sym, ap, ◌∙◌, subst, ne_of_beq, beq_of_ne, and-eq-true, or-eq-false, not-eq-true,
  includes, all, sym, ◌∙◌, ap, not-eq-true, eq_of_beq, ne_of_beq, or-eq-false, includes, beq_of_ne,
  all, and-eq-true, subst, codes, ℕ, ◌≡◌, ◌≢◌, refl, true, false, List, [], ◌∷◌, ◌++◌, nat_beq,
  Bool-cases, inl, inr, All,
}
use sih26_proto.Paths.{is_segment}
use sih26_proto.Canonical.Json.{Text}
use sih26_proto.Redaction.{split_slashes}

-- Segments with a slash between each two.
unfoldable pub join_segments : Text → List Text → Text
join_segments s [] = s
join_segments s (t ∷ ts) = s ++ 47 ∷ join_segments t ts

-- No slash, no backslash and no NUL.
pub record IsPlain (c : ℕ) : Type 0 where
  pub no_slash : c ≢ 47
  pub no_backslash : c ≢ 92
  pub no_nul : c ≢ 0

pub record IsSegment (s : Text) : Type 0 where
  pub plain : All IsPlain s
  pub not_empty : s ≢ []
  pub not_dot : s ≢ codes "."
  pub not_dots : s ≢ codes ".."

-- The path is its segments, each plain and none of them empty or dots.
pub record IsSavedPath (path : Text) : Type 0 where
  pub first : Text
  pub others : List Text
  pub joined : path ≡ join_segments first others
  pub segments : All IsSegment (first ∷ others)

is_segment_of : (s : Text) → IsSegment s → is_segment s ≡ true
unfolding is_segment
is_segment_of [] h = absurd (h.not_empty refl)
is_segment_of (c ∷ cs) h =
    rw (beq_of_ne (c ∷ cs) (codes ".") h.not_dot, beq_of_ne (c ∷ cs) (codes "..") h.not_dots) refl

is_segment-IsSegment : (s : Text) → All IsPlain s → is_segment s ≡ true → IsSegment s
unfolding is_segment
is_segment-IsSegment [] p h = cc h
is_segment-IsSegment (c ∷ cs) p h =
    let (one, two) = and-eq-true _ _ h in
    record {
      plain = p;
      not_empty = λ e. cc e;
      not_dot = ne_of_beq (c ∷ cs) (codes ".") (not-eq-true _ one);
      not_dots = ne_of_beq (c ∷ cs) (codes "..") (not-eq-true _ two);
    }

-- A text without slashes in front of another goes into its first part.
split_slashes-plain :
    (s rest t : Text) (ts : List Text)
    → All IsPlain s
    → split_slashes rest ≡ t ∷ ts
    → split_slashes (s ++ rest) ≡ (s ++ t) ∷ ts
unfolding split_slashes
split_slashes-plain [] rest t ts p h = h
split_slashes-plain (c ∷ s) rest t ts (p, ps) h =
    rw (beq_of_ne c 47 p.no_slash, split_slashes-plain s rest t ts ps h) refl

pub split_slashes-join :
    (s : Text) (ts : List Text)
    → All IsSegment (s ∷ ts)
    → split_slashes (join_segments s ts) ≡ s ∷ ts
unfolding join_segments split_slashes
split_slashes-join s [] (h, hs) =
    subst (λ l. split_slashes l ≡ l ∷ []) (append-nil s)
      (split_slashes-plain s [] [] [] h.plain refl)
split_slashes-join s (t ∷ ts) (h, hs) =
    split_slashes-plain s (47 ∷ join_segments t ts) [] (t ∷ ts) h.plain
      (ap (◌∷◌ []) (split_slashes-join t ts hs))
    ∙ ap (λ l. l ∷ t ∷ ts) (append-nil s)

-- A path is joined from its parts, which have no slash and no character that the path has not.
pub record IsSplit (path : Text) : Type 0 where
  pub first : Text
  pub others : List Text
  pub splits : split_slashes path ≡ first ∷ others
  pub joined : path ≡ join_segments first others
  pub plain : All (All IsPlain) (first ∷ others)

join_segments-in_front :
    (c : ℕ) (s : Text) (ts : List Text) → join_segments (c ∷ s) ts ≡ c ∷ join_segments s ts
unfolding join_segments
join_segments-in_front c s [] = refl
join_segments-in_front c s (t ∷ ts) = refl

pub split : (path : Text) → includes path 0 ≡ false → includes path 92 ≡ false → IsSplit path
unfolding split_slashes join_segments
split [] n b = record { first = []; others = []; splits = refl; joined = refl; plain = (tt, tt) }
split (c ∷ cs) n b =
    let (no_nul, n) = or-eq-false (nat_beq c 0) (includes cs 0) n in
    let (no_backslash, b) = or-eq-false (nat_beq c 92) (includes cs 92) b in
    let more = split cs n b in
    elim (Bool-cases (nat_beq c 47)) [
      | inl slash ↦ record {
        first = [];
        others = more.first ∷ more.others;
        splits = rw (slash, more.splits) refl;
        joined = ap (λ d. d ∷ cs) (eq_of_beq c 47 slash) ∙ ap (◌∷◌ 47) more.joined;
        plain = (tt, more.plain);
      }
      | inr other ↦ record {
        first = c ∷ more.first;
        others = more.others;
        splits = rw (other, more.splits) refl;
        joined = ap (◌∷◌ c) more.joined ∙ sym (join_segments-in_front c more.first more.others);
        plain = (
          (
            record {
              no_slash = ne_of_beq c 47 other;
              no_backslash = ne_of_beq c 92 no_backslash;
              no_nul = ne_of_beq c 0 no_nul;
            },
            more.plain.0,
          ),
          more.plain.1,
        );
      }
    ]

pub all-IsSegment :
    (ss : List Text) → All (All IsPlain) ss → all is_segment ss ≡ true → All IsSegment ss
all-IsSegment [] p h = tt
all-IsSegment (s ∷ ss) (p, ps) h =
    let (one, more) = and-eq-true _ _ h in (is_segment-IsSegment s p one, all-IsSegment ss ps more)

pub all-is_segment : (ss : List Text) → All IsSegment ss → all is_segment ss ≡ true
all-is_segment [] h = refl
all-is_segment (s ∷ ss) (h, hs) = rw (is_segment_of s h, all-is_segment ss hs) refl
