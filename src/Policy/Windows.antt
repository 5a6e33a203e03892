-- ===== src/Policy/Windows.antt =====
-- What the windows of apps/control-plane/src/core/policy.ts hold.
use sih26_proto.Policy.Calendar.{
  up_to, time_to_minutes, weekday_order, probe, windows_verdict, wall_time_exists_in_zone,
  dst_skipped_hour, schedule_verdict, up_to, time_to_minutes, is_wall_time, is_inside_window,
  schedule_verdict, windows_verdict, probe, wall_time_exists_in_zone, WallTime, start_position,
  given_end_position, position, wall_inside,
}
use sih26_proto.Common.{
  refl, none, [], ◌+◌, ◌∷◌, any, ◌≢◌, Option, false, String, List, Bool, ℕ, ◌≤◌, ◌<◌, ◌*◌, ◌≡◌, ◌↔◌,
  ◌⊎◌, string_eq, nat_eq, true, some, arith,
}
use sih26_proto.Policy.{Schedule, ScheduleWindow}

-- Civil times are those of a week.
abbrev pub IsCivil : WallTime → Type 0
IsCivil wall = (wall.weekday < 7) × (wall.minutes < 24 * 60)

civil_position : (wall : WallTime) → IsCivil wall → position wall < 7 * 24 * 60
civil_position wall (d, m) = omega arith

pub wall_inside_iff :
    (wall : WallTime) (window : ScheduleWindow)
    → IsCivil wall
    → (wall_inside (some wall) window ≡ true) ↔ (
        (start_position window ≤ position wall)
        × ((position wall < given_end_position window)
            ⊎ (given_end_position window ≤ start_position window)))
wall_inside_iff wall window civil = let bound = civil_position wall civil in ground arith

none_any {ℓ} :
    {A : Type ℓ} (p : A → Bool) (xs : List A) → ((x : A) → p x ≡ false) → any p xs ≡ false
none_any p [] h = refl
none_any p (x ∷ xs) h = ground (arith, h x, none_any p xs h)

module _ (wall_time : ℕ → String → Option WallTime) where
  -- The zone shows a whole number of hours at each hour of UTC.
  abbrev pub IsWholeHours : String → Type 0
  IsWholeHours zone =
      (hour : ℕ) (wall : WallTime)
      → wall_time (hour * 3600000) zone ≡ some wall
      → (h : ℕ) × (wall.minutes ≡ h * 60)

  not_shown :
      (shown : Option WallTime) (weekday minutes : ℕ)
      → ((wall : WallTime) → shown ≡ some wall → (h : ℕ) × (wall.minutes ≡ h * 60))
      → ((h : ℕ) → minutes ≢ h * 60)
      → is_wall_time shown weekday minutes ≡ false
  not_shown none weekday minutes whole off = refl
  not_shown (some wall) weekday minutes whole off =
      let (h, e) = whole wall refl in ground (arith, off h, e)

  probe_hour : (offset day : ℕ) → probe offset day ≡ (473350 + offset + day * 24) * 3600000
  probe_hour offset day = omega arith

  off_hour_never_exists :
      (weekday minutes : ℕ) (zone : String)
      → IsWholeHours zone
      → ((h : ℕ) → minutes ≢ h * 60)
      → wall_time_exists_in_zone wall_time weekday minutes zone ≡ false
  unfolding wall_time_exists_in_zone
  off_hour_never_exists weekday minutes zone whole off =
      none_any
        (λ offset.
          any (λ day. is_wall_time (wall_time (probe offset day) zone) weekday minutes) (up_to 10))
        (up_to 29)
        (λ offset.
          none_any (λ day. is_wall_time (wall_time (probe offset day) zone) weekday minutes)
            (up_to 10)
            (λ day.
              not_shown (wall_time (probe offset day) zone) weekday minutes
                (λ wall shown.
                  whole (473350 + offset + day * 24) wall (rw (probe_hour offset day) at shown))
                off))

  -- In a zone that is a whole number of hours from UTC, a first window that does not start on the
  -- hour never lets anything through, at any instant: its start is taken for a skipped hour.
  pub schedule_verdict_off_hour :
      (instant : ℕ) (schedule : Schedule) (window : ScheduleWindow) (windows : List ScheduleWindow)
      → schedule.windows ≡ window ∷ windows
      → ((h : ℕ) → time_to_minutes window.start_time ≢ h * 60)
      → IsWholeHours schedule.iana_zone
      → schedule_verdict wall_time instant schedule ≡ (false, dst_skipped_hour)
  unfolding schedule_verdict
  schedule_verdict_off_hour instant schedule window windows e off whole =
      rw
        (
          e,
          off_hour_never_exists (weekday_order window.start_weekday)
              (time_to_minutes window.start_time) schedule.iana_zone whole off,
        )
        refl

  windows_sound :
      (instant : ℕ) (zone : String) (windows : List ScheduleWindow)
      → (windows_verdict wall_time instant zone windows).0 ≡ true
      → any (λ window. is_inside_window wall_time instant window zone) windows ≡ true
  windows_sound instant zone [] h = cc h
  windows_sound instant zone (window ∷ windows) h =
      ground (arith, windows_sound instant zone windows)

  -- A schedule lets an action through only at an instant that one of its windows holds.
  pub schedule_verdict-inside :
      (instant : ℕ) (schedule : Schedule)
      → (schedule_verdict wall_time instant schedule).0 ≡ true
      → any
          (λ window. is_inside_window wall_time instant window schedule.iana_zone)
          schedule.windows
        ≡ true
  unfolding schedule_verdict
  schedule_verdict-inside instant schedule h =
      windows_sound instant schedule.iana_zone schedule.windows h
