-- ===== src/Cron/Next/Least.antt =====
-- The search returns the first matching time after `after`, and returns `None` only when no time
-- up to the end of the limit year matches.
use gn_drive.Common.{
  ℕ, zero, suc, ◌+◌, ◌*◌, ◌≤◌, ◌<◌, ◌≡◌, Option, none, some, arith, Bool-cases, inl, inr, leb,
  leb→le,
}
use gn_drive.Cron.Schedule.{CronSchedule}
use gn_drive.Cron.Schedule.Valid.{ScheduleIsValid}
use gn_drive.Cron.Calendar.{Chrono, Laws, timestamp, ymd}
use gn_drive.Cron.Next.{
  Round, found, next, gone, round, search_from, enough, limit_year, next_by, next_naive_after,
}
use gn_drive.Cron.Next.Rounds.{Fires, Quiet, RoundOk, round_ok, num_days-lt, ymd-lt}

module _ (c : Chrono) (laws : Laws c) (s : CronSchedule) (valid : ScheduleIsValid s) where
  open c use {
    year, date, num_days, DateTime, max_year, hour, minute, second, with_nanosecond, add_seconds,
  }
  open laws use {
    month_range, day_range, hour_range, minute_range, second_range, ymd_mono, num_days_mono,
    with_nanosecond_zero, add_seconds_later,
  }

  -- Seconds with their date written as year, month and day: this number grows with time.
  abbrev key : DateTime → ℕ
  key t = ymd c (date t) * 86400 + hour t * 3600 + minute t * 60 + second t

  key_mono : (t u : DateTime) → timestamp c t < timestamp c u → key t < key u
  key_mono t u h = elim (Bool-cases (leb (num_days (date u)) (num_days (date t)))) [
    | inl back ↦
        let days : num_days (date u) ≤ num_days (date t) = leb→le _ _ back in
        let same : num_days (date t) ≤ num_days (date u) =
          omega (arith, hour_range u, minute_range u, second_range u) in
        omega (arith, ymd_mono (date t) (date u) same, ymd_mono (date u) (date t) days)
    | inr on ↦ omega (
      arith,
      ymd-lt c laws s valid (date t) (date u) (ground arith),
      hour_range t,
      minute_range t,
      second_range t,
    )
  ]

  -- A time of an earlier year is an earlier time.
  earlier_year : (v t : DateTime) → year (date v) < year (date t) → timestamp c v < timestamp c t
  earlier_year v t h =
      let days : num_days (date v) < num_days (date t) =
        num_days-lt c laws s valid (date v) (date t)
          (omega (arith, month_range (date v), day_range (date v))) in
      omega (arith, hour_range v, minute_range v, second_range v)

  late_year : (limit : ℕ) (t : DateTime) → enough c limit ≤ key t → limit < year (date t)
  late_year limit t h = omega (
    arith,
    month_range (date t),
    day_range (date t),
    hour_range t,
    minute_range t,
    second_range t,
  )

  -- What the search from `t` may return, when nothing matches from `from` up to `t`.
  abbrev Outcome : ℕ → ℕ → Option DateTime → Type 0
  Outcome from limit (some u) =
      Fires c s u × (from ≤ timestamp c u) × Quiet c s from (timestamp c u)
  Outcome from limit none =
      (limit < max_year)
      → (v : DateTime) → from ≤ timestamp c v
      → year (date v) ≤ limit
      → ¬ Fires c s v

  past-Outcome :
      (limit from : ℕ) (t : DateTime)
      → limit < year (date t)
      → Quiet c s from (timestamp c t)
      → Outcome from limit none
  past-Outcome limit from t past quiet _ v low year_ok =
      quiet v low (earlier_year v t (omega arith))

  joined : (from mid hi : ℕ) → Quiet c s from mid → Quiet c s mid hi → Quiet c s from hi
  joined from mid hi below above v low high fires = elim (Bool-cases (leb mid (timestamp c v))) [
    | inl second_part ↦ above v (leb→le _ _ second_part) high fires
    | inr first_part ↦ below v low (ground arith) fires
  ]

  -- One round, with what the rest of the search promises.
  round-Outcome :
      (limit from : ℕ) (t : DateTime) (rest : DateTime → Option DateTime)
      → year (date t) ≤ limit
      → from ≤ timestamp c t
      → Quiet c s from (timestamp c t)
      → ((u : DateTime)
          → timestamp c t < timestamp c u
          → Quiet c s from (timestamp c u)
          → Outcome from limit (rest u))
      → (r : Round DateTime) → RoundOk c s t r
      → Outcome from limit (elim r [ found u ↦ some u | next u ↦ rest u | gone ↦ none ])
  round-Outcome limit from t rest early le quiet ih (found u) (same, fires) =
      rw same (fires, le, quiet)
  round-Outcome limit from t rest early le quiet ih (next u) (on, none_between) =
      ih u on (joined from (timestamp c t) (timestamp c u) quiet none_between)
  round-Outcome limit from t rest early le quiet ih gone last = λ far. absurd (omega arith)

  search-Outcome :
      (fuel limit from : ℕ) (t : DateTime)
      → enough c limit ≤ fuel + key t
      → from ≤ timestamp c t
      → Quiet c s from (timestamp c t)
      → Outcome from limit (search_from c fuel limit s t)
  unfolding search_from
  search-Outcome zero limit from t fuel_ok le quiet =
      past-Outcome limit from t (late_year limit t (omega arith)) quiet
  search-Outcome (suc fuel) limit from t fuel_ok le quiet =
      elim (Bool-cases (leb (year (date t)) limit)) [
        | inr past ↦ rw past (past-Outcome limit from t (ground arith) quiet)
        | inl more ↦ rw more (
            round-Outcome limit from t (search_from c fuel limit s) (leb→le _ _ more) le quiet
              (λ u on quiet'.
                search-Outcome fuel limit from u (omega (arith, key_mono t u on)) (omega arith)
                  quiet')
              (round c s t) (round_ok c laws s valid t))
      ]

  searched-Outcome :
      (after : DateTime) (every : Option ℕ)
      → every ≡ none
      → Outcome (timestamp c after + 1) (limit_year c after) (next_by c s after every)
  searched-Outcome after (some every) calendar = cc
  searched-Outcome after none calendar =
      let (start, made, stamp) = with_nanosecond_zero after in
      let on : timestamp c (add_seconds start 1) ≡ timestamp c after + 1 =
        omega (arith, add_seconds_later start 1) in
      rw made (
        search-Outcome (enough c (limit_year c after)) (limit_year c after) (timestamp c after + 1)
          (add_seconds start 1) (omega arith) (omega arith) (λ v low high. absurd (omega arith)))

  next-Outcome :
      (after : DateTime)
      → s.every_seconds ≡ none
      → Outcome (timestamp c after + 1) (limit_year c after) (next_naive_after c s after)
  unfolding next_naive_after
  next-Outcome after calendar = searched-Outcome after s.every_seconds calendar

  -- Of a valid schedule that is no `@every`, a time that `next_naive_after` returns matches the
  -- schedule, lies after `after`, and no time between the two matches.
  pub next_naive_after-least :
      (after u : DateTime)
      → s.every_seconds ≡ none
      → next_naive_after c s after ≡ some u
      → Fires c s u
        × (timestamp c after < timestamp c u)
        × Quiet c s (timestamp c after + 1) (timestamp c u)
  next_naive_after-least after u calendar result =
      let (fires, later_than, quiet) : Outcome (timestamp c after + 1) (limit_year c after)
          (some u) =
        rw result at (next-Outcome after calendar) in
      (fires, omega arith, quiet)

  -- Of a valid schedule that is no `@every`, the search gives up only when no time after `after`
  -- matches up to the end of the eighth year after it, provided that the calendar goes on so long.
  pub next_naive_after-none :
      (after v : DateTime)
      → s.every_seconds ≡ none
      → next_naive_after c s after ≡ none
      → year (date after) + 8 < max_year
      → timestamp c after < timestamp c v
      → year (date v) ≤ year (date after) + 8
      → ¬ Fires c s v
  next_naive_after-none after v calendar result far low year_ok =
      let quiet : Outcome (timestamp c after + 1) (limit_year c after) none =
        rw result at (next-Outcome after calendar) in
      quiet far v (omega arith) year_ok
