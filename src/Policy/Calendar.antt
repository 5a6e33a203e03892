-- ===== src/Policy/Calendar.antt =====
-- apps/control-plane/src/core/policy.ts: the weekly windows of a schedule. `wall_time` is
-- any function in the place of `wallTimeInZone`, which Policy/WallTime has; an
-- instant is in milliseconds. A time of a window is `HH:MM`, as the pattern of
-- packages/contracts/src/schemas/journal-event.ts demands.
use sih26_proto.Common.{
  ℕ, nat_eq, String, Bool, true, false, ◌&&◌, ◌+◌, ◌-◌, ◌*◌, Option, none, some, List, [], ◌∷◌,
  ◌++◌, if◌then◌else◌, ◌==◌, any, ltb, leb, codes, suc, zero,
}
use sih26_proto.Policy.{Weekday, Schedule, ScheduleWindow, mon, tue, wed, thu, fri, sat, sun}

unfoldable pub weekday_order : Weekday → ℕ
weekday_order mon = 0
weekday_order tue = 1
weekday_order wed = 2
weekday_order thu = 3
weekday_order fri = 4
weekday_order sat = 5
weekday_order sun = 6

-- The minutes of a text whose hours up to here, and minutes since a colon, are these.
abbrev pub minutes_from : (hours minutes : ℕ) (after_colon : Bool) → List ℕ → ℕ
minutes_from hours minutes after [] = hours * 60 + minutes
minutes_from hours minutes true (c ∷ cs) = minutes_from hours (minutes * 10 + (c - 48)) true cs
minutes_from hours minutes false (c ∷ cs) =
    let later = minutes_from hours minutes true cs in
    let rest = minutes_from (hours * 10 + (c - 48)) minutes false cs in
    if c == 58 then later else rest

unfoldable pub time_to_minutes : String → ℕ
time_to_minutes time = minutes_from 0 0 false (codes time)

pub record WallTime : Type 0 where
  pub weekday : ℕ
  pub minutes : ℕ

abbrev pub up_to : ℕ → List ℕ
up_to zero = []
up_to (suc n) = up_to n ++ n ∷ []

-- The instants that `wallTimeExistsInZone` probes: 2024-01-01 12:00 UTC, moved by an hour of -14 to
-- 14, here `offset` of 0 to 28, and by a day of 0 to 9.
abbrev pub probe : (offset day : ℕ) → ℕ
probe offset day = 1704110400000 + (offset * 60 + day * 24 * 60) * 60 * 1000 - 14 * 60 * 60 * 1000

abbrev pub is_wall_time : Option WallTime → (weekday minutes : ℕ) → Bool
is_wall_time none weekday minutes = false
is_wall_time (some wall) weekday minutes = wall.weekday == weekday && wall.minutes == minutes

abbrev pub start_position : ScheduleWindow → ℕ
start_position window =
    weekday_order window.start_weekday * 24 * 60 + time_to_minutes window.start_time

abbrev pub given_end_position : ScheduleWindow → ℕ
given_end_position window =
    weekday_order window.end_weekday * 24 * 60 + time_to_minutes window.end_time

abbrev pub end_position : ScheduleWindow → ℕ
end_position window =
    if leb (given_end_position window) (start_position window)
    then given_end_position window + 7 * 24 * 60
    else given_end_position window

abbrev pub position : WallTime → ℕ
position wall = wall.weekday * 24 * 60 + wall.minutes

abbrev pub wall_inside : Option WallTime → ScheduleWindow → Bool
wall_inside none window = false
wall_inside (some wall) window =
    if ltb (position wall) (start_position window)
    then false
    else if leb (end_position window) (position wall)
    then false
    else true

pub data ScheduleReason : Type 0 where
  dst_skipped_hour inside_window outside_window : ScheduleReason

module _ (wall_time : ℕ → String → Option WallTime) where
  unfoldable pub wall_time_exists_in_zone : (weekday minutes : ℕ) → String → Bool
  wall_time_exists_in_zone weekday minutes zone =
      any
        (λ offset.
          any (λ day. is_wall_time (wall_time (probe offset day) zone) weekday minutes) (up_to 10))
        (up_to 29)

  unfoldable pub is_inside_window : ℕ → ScheduleWindow → String → Bool
  is_inside_window instant window zone = wall_inside (wall_time instant zone) window

  -- The loop of `scheduleVerdict`.
  abbrev pub windows_verdict : ℕ → String → List ScheduleWindow → Bool × ScheduleReason
  windows_verdict instant zone [] = (false, outside_window)
  windows_verdict instant zone (window ∷ windows) =
      let rest = windows_verdict instant zone windows in
      if wall_time_exists_in_zone (weekday_order window.start_weekday)
        (time_to_minutes window.start_time) zone
      then (if is_inside_window instant window zone then (true, inside_window) else rest)
      else (false, dst_skipped_hour)

  unfoldable pub schedule_verdict : ℕ → Schedule → Bool × ScheduleReason
  schedule_verdict instant schedule = windows_verdict instant schedule.iana_zone schedule.windows
