-- ===== src/Common/Text.antt =====
-- Texts as the codes of their characters, for `toLowerCase`, `includes` and `replace` on them.
use Prim.Native.Nat.{ℕ, ◌+◌}
use Prim.Native.Char.{code}
use Prim.Native.String.{String, [] as empty, ◌∷◌ as ◌then◌}
use mathlib.Core.Bool.{Bool, true, false, ◌&&◌, ◌||◌}
use mathlib.Core.List.{List, [], ◌∷◌}
use sih26_proto.Common.Tests.{nat_beq, leb, if◌then◌else◌}

abbrev pub codes : String → List ℕ
codes empty = []
codes (c then s) = code c ∷ codes s

-- A template's text in front of another.
abbrev pub join_text : String → String → String
join_text empty t = t
join_text (c then s) t = c then join_text s t

-- `toLowerCase` as far as it makes ASCII letters: of A to Z, and of the Kelvin sign and of I with a dot
-- above (which gives two characters).
abbrev pub to_lower_case : List ℕ → List ℕ
to_lower_case [] = []
to_lower_case (c ∷ cs) =
    let rest = to_lower_case cs in
    if leb 65 c && leb c 90
    then (c + 32) ∷ rest
    else if nat_beq c 8490
    then 107 ∷ rest
    else if nat_beq c 304
    then 105 ∷ 775 ∷ rest
    else c ∷ rest

abbrev pub starts_with : List ℕ → List ℕ → Bool
starts_with cs [] = true
starts_with [] (d ∷ ds) = false
starts_with (c ∷ cs) (d ∷ ds) = nat_beq c d && starts_with cs ds

abbrev pub has_text : List ℕ → List ℕ → Bool
has_text [] ds = starts_with [] ds
has_text (c ∷ cs) ds = starts_with (c ∷ cs) ds || has_text cs ds

-- `replace(/-/g, " ")`
abbrev pub dashes_to_spaces : List ℕ → List ℕ
dashes_to_spaces [] = []
dashes_to_spaces (c ∷ cs) =
    let rest = dashes_to_spaces cs in if nat_beq c 45 then 32 ∷ rest else c ∷ rest
