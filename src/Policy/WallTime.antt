-- ===== src/Policy/WallTime.antt =====
-- apps/control-plane/src/core/policy.ts, `wallTimeInZone`. `format` is the runtime's
-- `Intl.DateTimeFormat("en-CA", …).formatToParts`: the types and values of the parts that it writes of an
-- instant in a zone, or nothing where it throws. It writes numbers in the digits 0 to 9.
use sih26_proto.Common.{
  ℕ, ◌+◌, ◌*◌, ◌-◌, nat_eq, string_eq, list_eq, String, Option, none, some, List, [], ◌∷◌, ◌==◌,
  ◌&&◌, if◌then◌else◌, leb, codes, to_lower_case,
}
use sih26_proto.Policy.Calendar.{WallTime}

-- `new Map(parts).get(type)`
unfoldable pub last_of : String → List (String × String) → Option String
last_of kind [] = none
last_of kind (part ∷ parts) = elim (last_of kind parts) [
  | some value ↦ some value
  | none ↦ if part.0 == kind then some part.1 else none
]

-- `slice(0, 3)`
abbrev pub take_three : List ℕ → List ℕ
take_three (a ∷ b ∷ c ∷ cs) = a ∷ b ∷ c ∷ []
take_three cs = cs

abbrev pub weekday_named : List ℕ → Option ℕ
weekday_named name =
    if name == codes "mon"
    then some 0
    else if name == codes "tue"
    then some 1
    else if name == codes "wed"
    then some 2
    else if name == codes "thu"
    then some 3
    else if name == codes "fri"
    then some 4
    else if name == codes "sat"
    then some 5
    else if name == codes "sun"
    then some 6
    else none

abbrev pub weekday_in : Option String → Option ℕ
weekday_in none = none
weekday_in (some text) = weekday_named (take_three (to_lower_case (codes text)))

-- `Number(text)`, where it is finite.
abbrev pub number_from : ℕ → List ℕ → Option ℕ
number_from n [] = some n
number_from n (c ∷ cs) =
    let rest = number_from (n * 10 + (c - 48)) cs in if leb 48 c && leb c 57 then rest else none

abbrev pub number_in : Option String → Option ℕ
number_in none = some 0
number_in (some text) = number_from 0 (codes text)

abbrev pub wall_time_of : (weekday hour minute : Option ℕ) → Option WallTime
wall_time_of (some weekday) (some hour) (some minute) =
    some (record { weekday = weekday; minutes = hour * 60 + minute })
wall_time_of _ _ _ = none

abbrev pub wall_time_in_parts : Option (List (String × String)) → Option WallTime
wall_time_in_parts none = none
wall_time_in_parts (some parts) =
    wall_time_of (weekday_in (last_of "weekday" parts)) (number_in (last_of "hour" parts))
      (number_in (last_of "minute" parts))

abbrev pub wall_time_in_zone :
    (format : ℕ → String → Option (List (String × String))) → ℕ → String → Option WallTime
wall_time_in_zone format instant zone = wall_time_in_parts (format instant zone)
