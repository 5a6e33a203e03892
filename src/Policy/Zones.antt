-- ===== src/Policy/Zones.antt =====
-- The windows of apps/control-plane/src/core/policy.ts at the civil times that the runtime writes.
use sih26_proto.Common.{
  ℕ, ◌+◌, ◌*◌, ◌≡◌, ◌↔◌, ◌⊎◌, ◌≤◌, ◌<◌, refl, ap, sym, ◌∙◌, String, true, false, Option, some, List,
  codes, arith, if◌then◌else◌, ltb, leb,
}
use sih26_proto.Policy.{ScheduleWindow, Weekday, mon, tue, wed, thu, fri, sat, sun}
use sih26_proto.Policy.Calendar.{
  WallTime, weekday_order, is_inside_window, wall_inside, start_position, end_position,
  given_end_position, position,
}
use sih26_proto.Policy.WallTime.{
  last_of, weekday_in, number_from, wall_time_in_parts, wall_time_in_zone,
}
use sih26_proto.Policy.Windows.{wall_inside_iff}

abbrev pub short_name : Weekday → String
short_name mon = "Mon"
short_name tue = "Tue"
short_name wed = "Wed"
short_name thu = "Thu"
short_name fri = "Fri"
short_name sat = "Sat"
short_name sun = "Sun"

-- The parts write a day of the week, an hour and a minute.
pub record Shows (parts : List (String × String)) (day : Weekday) (hour minute : ℕ) : Type 0 where
  pub hour_text : String
  pub minute_text : String
  pub day_shown : last_of "weekday" parts ≡ some (short_name day)
  pub hour_shown : last_of "hour" parts ≡ some hour_text
  pub minute_shown : last_of "minute" parts ≡ some minute_text
  pub hour_number : number_from 0 (codes hour_text) ≡ some hour
  pub minute_number : number_from 0 (codes minute_text) ≡ some minute

weekday_in_lem : (day : Weekday) → weekday_in (some (short_name day)) ≡ some (weekday_order day)
unfolding weekday_order
weekday_in_lem mon = refl
weekday_in_lem tue = refl
weekday_in_lem wed = refl
weekday_in_lem thu = refl
weekday_in_lem fri = refl
weekday_in_lem sat = refl
weekday_in_lem sun = refl

abbrev pub civil : Weekday → (hour minute : ℕ) → WallTime
civil day hour minute = record { weekday = weekday_order day; minutes = hour * 60 + minute }

shown-civil :
    (parts : List (String × String)) (day : Weekday) (hour minute : ℕ)
    → Shows parts day hour minute
    → wall_time_in_parts (some parts) ≡ some (civil day hour minute)
shown-civil parts day hour minute s =
    rw
      (
        s.day_shown,
        s.hour_shown,
        s.minute_shown,
        s.hour_number,
        s.minute_number,
        weekday_in_lem day,
      )
      refl

weekday_order_bound : (day : Weekday) → weekday_order day < 7
unfolding weekday_order
weekday_order_bound mon = omega arith
weekday_order_bound tue = omega arith
weekday_order_bound wed = omega arith
weekday_order_bound thu = omega arith
weekday_order_bound fri = omega arith
weekday_order_bound sat = omega arith
weekday_order_bound sun = omega arith

module _ (format : ℕ → String → Option (List (String × String))) where
  inside-civil :
      (instant : ℕ) (window : ScheduleWindow) (zone : String) (parts : List (String × String))
      (day : Weekday) (hour minute : ℕ)
      → format instant zone ≡ some parts
      → Shows parts day hour minute
      → is_inside_window (wall_time_in_zone format) instant window zone
        ≡ wall_inside (some (civil day hour minute)) window
  unfolding is_inside_window
  inside-civil instant window zone parts day hour minute written s =
      ap (λ wall. wall_inside wall window)
        (ap wall_time_in_parts written ∙ shown-civil parts day hour minute s)

  -- Where the runtime writes an hour below 24, an instant is in a window from the start on, up to its end
  -- where that comes later in the week than the start, and up to the end of the week where it does not:
  -- what such a window holds of the next week is left out.
  pub is_inside_window_iff :
      (instant : ℕ) (window : ScheduleWindow) (zone : String) (parts : List (String × String))
      (day : Weekday) (hour minute : ℕ)
      → format instant zone ≡ some parts
      → Shows parts day hour minute
      → hour < 24
      → minute < 60
      → (is_inside_window (wall_time_in_zone format) instant window zone ≡ true) ↔ (
          (start_position window ≤ position (civil day hour minute))
          × ((position (civil day hour minute) < given_end_position window)
              ⊎ (given_end_position window ≤ start_position window)))
  is_inside_window_iff instant window zone parts day hour minute written s h m =
      rw (inside-civil instant window zone parts day hour minute written s)
        (wall_inside_iff (civil day hour minute) window (weekday_order_bound day, omega arith))

  -- Where the runtime writes the first hour of a day as 24, an instant in it is in a window exactly where
  -- an instant a day later would be, written with the next day and the hour 0, up to the last day of the
  -- week.
  pub is_inside_window_midnight :
      (instant later : ℕ) (window : ScheduleWindow) (zone : String)
      (parts parts' : List (String × String)) (day next : Weekday) (minute : ℕ)
      → format instant zone ≡ some parts
      → Shows parts day 24 minute
      → format later zone ≡ some parts'
      → Shows parts' next 0 minute
      → weekday_order next ≡ weekday_order day + 1
      → is_inside_window (wall_time_in_zone format) instant window zone
        ≡ is_inside_window (wall_time_in_zone format) later window zone
  is_inside_window_midnight instant later window zone parts parts' day next minute written s
        written' s' follows =
      inside-civil instant window zone parts day 24 minute written s
      ∙ ap
          (λ p.
            if ltb p (start_position window)
            then false
            else if leb (end_position window) p
            then false
            else true)
          (same_position (weekday_order day) (weekday_order next) minute follows)
      ∙ sym (inside-civil later window zone parts' next 0 minute written' s')
    where
      same_position :
          (d e m : ℕ) → e ≡ d + 1 → d * 24 * 60 + (24 * 60 + m) ≡ e * 24 * 60 + (0 * 60 + m)
      same_position d e m h = omega arith
