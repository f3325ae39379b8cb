-- ===== src/Cron/Next.antt =====
-- crates/gn-drive-core/src/cron.rs: `next_naive_after`, the search for the next matching
-- wall-clock time, and `day_matches`.
pub mod Rounds
pub mod Least
use gn_drive.Common.{
  ℕ, zero, suc, ◌+◌, ◌*◌, Bool, true, false, not, ◌&&◌, ◌||◌, Option, none, some, leb, ◌==◌, nat_eq,
  if◌then◌else◌,
}
use gn_drive.Cron.Field.{contains, at_or_after}
use gn_drive.Cron.Schedule.{CronSchedule}
use gn_drive.Cron.Calendar.{Chrono}

-- What one round of the loop does: return a time, go on with a later one, or return `None` at `?`.
pub data Round (T : Type 0) : Type 0 where
  found : T → Round T
  next : T → Round T
  gone : Round T

module _ (c : Chrono) where
  open c use {
    Date, year, month, day, weekday, from_ymd_opt, succ_opt, DateTime, date, hour, minute, second,
    with_nanosecond, and_hms_opt, add_seconds,
  }

  unfoldable pub day_matches : CronSchedule → Date → Bool
  day_matches s d =
      let dom_ok = contains s.dom (day d) in
      let dow_ok = contains s.dow (weekday d) in
      if s.dom_restricted && s.dow_restricted then dom_ok || dow_ok else dom_ok && dow_ok

  abbrev pub go_on : Option DateTime → Round DateTime
  go_on none = gone
  go_on (some t) = next t

  abbrev pub midnight : Option Date → Option DateTime
  midnight none = none
  midnight (some d) = and_hms_opt d 0 0 0

  abbrev pub later : Option DateTime → ℕ → Option DateTime
  later none n = none
  later (some t) n = some (add_seconds t n)

  -- The tail of the loop body, from the innermost test out.
  unfoldable pub second_round : CronSchedule → DateTime → Round DateTime
  second_round s t =
      if contains s.seconds (second t)
      then found t
      else go_on (elim (at_or_after s.seconds (second t + 1)) [
        | some n ↦ and_hms_opt (date t) (hour t) (minute t) n
        | none ↦ later (and_hms_opt (date t) (hour t) (minute t) 0) 60
      ])

  unfoldable pub minute_round : CronSchedule → DateTime → Round DateTime
  minute_round s t =
      if contains s.minutes (minute t)
      then second_round s t
      else go_on (elim (at_or_after s.minutes (minute t + 1)) [
        | some n ↦ and_hms_opt (date t) (hour t) n 0
        | none ↦ later (and_hms_opt (date t) (hour t) 0 0) 3600
      ])

  unfoldable pub hour_round : CronSchedule → DateTime → Round DateTime
  hour_round s t =
      if contains s.hours (hour t)
      then minute_round s t
      else go_on (elim (at_or_after s.hours (hour t + 1)) [
        | some n ↦ and_hms_opt (date t) n 0 0
        | none ↦ midnight (succ_opt (date t))
      ])

  unfoldable pub day_round : CronSchedule → DateTime → Round DateTime
  day_round s t =
      if day_matches s (date t) then hour_round s t else go_on (midnight (succ_opt (date t)))

  unfoldable pub round : CronSchedule → DateTime → Round DateTime
  round s t = elim (at_or_after s.months (month (date t))) [
    | none ↦ go_on (midnight (from_ymd_opt (year (date t) + 1) 1 1))
    | some m ↦
        if m == month (date t)
        then day_round s t
        else go_on (midnight (from_ymd_opt (year (date t)) m 1))
  ]

  -- `while t.year() <= limit_year`.
  unfoldable pub search_from : ℕ → ℕ → CronSchedule → DateTime → Option DateTime
  search_from zero limit s t = none
  search_from (suc fuel) limit s t =
      if leb (year (date t)) limit
      then elim (round s t) [ found u ↦ some u | next u ↦ search_from fuel limit s u | gone ↦ none ]
      else none

  -- Each round moves to a later second of a year up to `limit`.
  abbrev pub enough : ℕ → ℕ
  enough limit = (limit + 1) * 13 * 32 * 86400 + 1

  abbrev pub limit_year : DateTime → ℕ
  limit_year after = year (date after) + 8

  abbrev pub next_matching : CronSchedule → ℕ → Option DateTime → Option DateTime
  next_matching s limit none = none
  next_matching s limit (some t) = search_from (enough limit) limit s (add_seconds t 1)

  -- `@every` adds its interval; any other schedule is searched.
  abbrev pub next_by : CronSchedule → DateTime → Option ℕ → Option DateTime
  next_by s after (some every) = later (with_nanosecond after 0) every
  next_by s after none = next_matching s (limit_year after) (with_nanosecond after 0)

  unfoldable pub next_naive_after : CronSchedule → DateTime → Option DateTime
  unfolding search_from
  next_naive_after s after = next_by s after s.every_seconds
