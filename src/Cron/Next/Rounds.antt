-- ===== src/Cron/Next/Rounds.antt =====
-- One round of the search skips no matching time: each of its branches moves to the first time
-- that the failed test leaves open.
use gn_drive.Common.{
  ℕ, ◌+◌, ◌*◌, ◌^◌, ◌≤◌, ◌<◌, ◌≡◌, ◌≢◌, refl, ap, true, false, Option, none, some, arith,
  Bool-cases, Option-cases, inl, inr, leb, leb→le, ◌==◌, nat_eq, if◌then◌else◌,
}
use gn_drive.Cron.Field.{Field, contains, at_or_after}
use gn_drive.Cron.Field.Search.{IsNext, at_or_after-IsNext}
use gn_drive.Cron.Schedule.{CronSchedule}
use gn_drive.Cron.Schedule.Valid.{ScheduleIsValid}
use gn_drive.Cron.Calendar.{Chrono, Laws, timestamp, ymd}
use gn_drive.Cron.Next.{
  Round, found, next, gone, day_matches, go_on, midnight, later, second_round, minute_round,
  hour_round, day_round, round,
}

module _ (c : Chrono) (s : CronSchedule) where
  open c use {
    Date, year, month, day, num_days, from_ymd_opt, succ_opt, max_year, DateTime, date, hour,
    minute, second, and_hms_opt, add_seconds,
  }

  -- The schedule matches the wall-clock time.
  pub record Fires (t : DateTime) : Type 0 where
    pub month_ok : contains s.months (month (date t)) ≡ true
    pub day_ok : day_matches c s (date t) ≡ true
    pub hour_ok : contains s.hours (hour t) ≡ true
    pub minute_ok : contains s.minutes (minute t) ≡ true
    pub second_ok : contains s.seconds (second t) ≡ true

  -- No time from second `lo` up to second `hi` matches.
  abbrev pub Quiet : ℕ → ℕ → Type 0
  Quiet lo hi = (v : DateTime) → lo ≤ timestamp c v → timestamp c v < hi → ¬ Fires v

  abbrev pub RoundOk : DateTime → Round DateTime → Type 0
  RoundOk t (found u) = (u ≡ t) × Fires t
  RoundOk t (next u) = (timestamp c t < timestamp c u) × Quiet (timestamp c t) (timestamp c u)
  RoundOk t gone = max_year ≤ year (date t)

module _ (c : Chrono) (laws : Laws c) (s : CronSchedule) (valid : ScheduleIsValid s) where
  open c use {
    Date, year, month, day, num_days, from_ymd_opt, succ_opt, max_year, DateTime, date, hour,
    minute, second, and_hms_opt, add_seconds,
  }
  open laws use {
    month_range, day_range, hour_range, minute_range, second_range, ymd_mono, num_days_mono,
    num_days_injective, from_ymd_opt_fields, from_ymd_opt_some, succ_opt_next, succ_opt_some,
    and_hms_opt_at, add_seconds_later,
  }

  -- A time between `t` and the midnight that ends the day of `t` has the same date.
  same_day :
      (t v : DateTime)
      → timestamp c t ≤ timestamp c v
      → timestamp c v < (num_days (date t) + 1) * 86400
      → date v ≡ date t
  same_day t v low high = num_days_injective (date v) (date t) (
      omega (
        arith,
        hour_range t,
        minute_range t,
        second_range t,
        hour_range v,
        minute_range v,
        second_range v,
      ))

  pub num_days-lt : (d e : Date) → ymd c d < ymd c e → num_days d < num_days e
  num_days-lt d e h = elim (Bool-cases (leb (num_days e) (num_days d))) [
    | inl back ↦ absurd (omega (arith, ymd_mono e d (leb→le _ _ back)))
    | inr on ↦ ground arith
  ]

  pub ymd-lt : (d e : Date) → num_days d < num_days e → ymd c d < ymd c e
  ymd-lt d e h = elim (Bool-cases (leb (ymd c e) (ymd c d))) [
    | inl back ↦ absurd (omega (arith, num_days_mono e d (leb→le _ _ back)))
    | inr on ↦ ground arith
  ]

  -- The first value after a miss is the first one from the missed value on.
  miss :
      (f : Field) (cur : ℕ) (r : Option ℕ)
      → contains f cur ≡ false
      → IsNext f (cur + 1) r
      → IsNext f cur r
  miss f cur none out above = λ u h. elim (Bool-cases (u == cur)) [
    | inl same ↦ ground arith
    | inr other ↦ above u (ground arith)
  ]
  miss f cur (some w) out (le, set, between) = (
    omega arith,
    set,
    λ u h l. elim (Bool-cases (u == cur)) [
      | inl same ↦ ground arith
      | inr other ↦ between u (ground arith) l
    ],
  )

  missed :
      (f : Field) (cur : ℕ)
      → f.bits < 2 ^ 64
      → contains f cur ≡ false
      → IsNext f cur (at_or_after f (cur + 1))
  missed f cur small out = miss f cur _ out (at_or_after-IsNext f (cur + 1) small)

  -- The value found lies strictly after a value that is not allowed.
  strictly :
      (f : Field) (cur w : ℕ) → contains f cur ≡ false → cur ≤ w → contains f w ≡ true → cur < w
  strictly f cur w out le set = elim (Bool-cases (w == cur)) [
    | inl same ↦ absurd (ground arith)
    | inr other ↦ ground arith
  ]

  module _ (t : DateTime) where
    abbrev now : ℕ
    now = timestamp c t

    abbrev day_start : ℕ
    day_start = num_days (date t) * 86400

    module _ (v : DateTime) (low : timestamp c t ≤ timestamp c v) where
      abbrev Within : ℕ → Type 0
      Within hi = timestamp c v < hi

      same_hour : Within (day_start + (hour t + 1) * 3600) → (date v ≡ date t) × (hour v ≡ hour t)
      same_hour high =
          let d = same_day t v low (omega (arith, hour_range t)) in
          (
            d,
            omega (
              arith,
              ap num_days d,
              minute_range t,
              second_range t,
              minute_range v,
              second_range v,
            ),
          )

      same_minute :
          Within (day_start + hour t * 3600 + (minute t + 1) * 60)
          → (date v ≡ date t) × (hour v ≡ hour t) × (minute v ≡ minute t)
      same_minute high =
          let (d, h) = same_hour (omega (arith, minute_range t)) in
          (d, h, omega (arith, ap num_days d, second_range t, second_range v))

    date_between :
        (v : DateTime) (e : Date)
        → now ≤ timestamp c v
        → timestamp c v < num_days e * 86400 + 0 * 3600 + 0 * 60 + 0
        → (num_days (date t) ≤ num_days (date v)) × (num_days (date v) < num_days e)
    date_between v e low high =
        (omega (arith, hour_range v, minute_range v, second_range v), omega arith)

    -- A jump to a given time of a day.
    jump :
        (d : Date) (h m n : ℕ)
        → h < 24
        → m < 60
        → n < 60
        → now < num_days d * 86400 + h * 3600 + m * 60 + n
        → Quiet c s now (num_days d * 86400 + h * 3600 + m * 60 + n)
        → RoundOk c s t (go_on c (and_hms_opt d h m n))
    jump d h m n hb mb nb up quiet =
        let (u, made, at) = and_hms_opt_at d h m n hb mb nb in
        let stamp : timestamp c u ≡ num_days d * 86400 + h * 3600 + m * 60 + n =
          omega (arith, ap num_days at.0, at.1, at.2, at.3) in
        rw made (omega arith, λ v lo hi. quiet v lo (omega arith))

    -- A jump to the start of a minute or hour, plus its length.
    jump_over :
        (h m k : ℕ)
        → h < 24
        → m < 60
        → now < day_start + h * 3600 + m * 60 + k
        → Quiet c s now (day_start + h * 3600 + m * 60 + k)
        → RoundOk c s t (go_on c (later c (and_hms_opt (date t) h m 0) k))
    jump_over h m k hb mb up quiet =
        let (u, made, at) = and_hms_opt_at (date t) h m 0 hb mb (omega arith) in
        let stamp : timestamp c (add_seconds u k) ≡ day_start + h * 3600 + m * 60 + k =
          omega (arith, ap num_days at.0, at.1, at.2, at.3, add_seconds_later u k) in
        rw made (omega arith, λ v lo hi. quiet v lo (omega arith))

    -- A jump to the next midnight, where the calendar has one.
    next_day :
        Quiet c s now (day_start + 86400) → RoundOk c s t (go_on c (midnight c (succ_opt (date t))))
    next_day quiet = elim (Option-cases (succ_opt (date t))) [
      | inl last ↦ rw last (elim (Bool-cases (leb max_year (year (date t)))) [
        | inl past ↦ ground arith
        | inr before ↦ let (e, more) = succ_opt_some (date t) (ground arith) in absurd (cc)
      ])
      | inr (e, more) ↦
          let days : num_days e ≡ num_days (date t) + 1 = succ_opt_next (date t) e more in
          rw more (
            jump e 0 0 0 (omega arith) (omega arith) (omega arith)
              (omega (arith, hour_range t, minute_range t, second_range t))
              (λ v lo hi. quiet v lo (omega arith)))
    ]

    second_missed :
        contains s.seconds (second t) ≡ false
        → (r : Option ℕ) → IsNext s.seconds (second t) r
        → RoundOk c s t (
            go_on c (elim r [
              | some n ↦ and_hms_opt (date t) (hour t) (minute t) n
              | none ↦ later c (and_hms_opt (date t) (hour t) (minute t) 0) 60
            ]))
    second_missed out none above =
        jump_over (hour t) (minute t) 60 (hour_range t) (minute_range t)
          (omega (arith, second_range t))
          λ v lo hi fires.
            let (d, h, m) = same_minute v lo (omega arith) in
            let clash = above (second v) (omega (arith, ap num_days d)) in cc (fires.second_ok)
    second_missed out (some n) (le, set, between) =
        jump (date t) (hour t) (minute t) n (hour_range t) (minute_range t)
          (omega (arith, valid.seconds.upper n set))
          (omega (arith, strictly s.seconds (second t) n out le set))
          λ v lo hi fires.
            let (d, h, m) = same_minute v lo (omega (arith, valid.seconds.upper n set)) in
            let clash =
              between (second v) (omega (arith, ap num_days d)) (omega (arith, ap num_days d)) in
            cc (fires.second_ok)

    second_RoundOk :
        contains s.months (month (date t)) ≡ true
        → day_matches c s (date t) ≡ true
        → contains s.hours (hour t) ≡ true
        → contains s.minutes (minute t) ≡ true
        → RoundOk c s t (second_round c s t)
    unfolding second_round
    second_RoundOk mo d h mi = elim (Bool-cases (contains s.seconds (second t))) [
      | inl yes_now ↦ rw yes_now (
        refl,
        record { month_ok = mo; day_ok = d; hour_ok = h; minute_ok = mi; second_ok = yes_now },
      )
      | inr not_now ↦
          rw not_now
            (second_missed not_now _ (missed s.seconds (second t) valid.seconds.fits not_now))
    ]

    minute_missed :
        contains s.minutes (minute t) ≡ false
        → (r : Option ℕ) → IsNext s.minutes (minute t) r
        → RoundOk c s t (
            go_on c (elim r [
              | some n ↦ and_hms_opt (date t) (hour t) n 0
              | none ↦ later c (and_hms_opt (date t) (hour t) 0 0) 3600
            ]))
    minute_missed out none above =
        jump_over (hour t) 0 3600 (hour_range t) (omega arith)
          (omega (arith, minute_range t, second_range t))
          λ v lo hi fires.
            let (d, h) = same_hour v lo (omega arith) in
            let clash = above (minute v) (omega (arith, ap num_days d, second_range v)) in
            cc (fires.minute_ok)
    minute_missed out (some n) (le, set, between) =
        jump (date t) (hour t) n 0 (hour_range t) (omega (arith, valid.minutes.upper n set))
          (omega arith) (omega (arith, second_range t, strictly s.minutes (minute t) n out le set))
          λ v lo hi fires.
            let (d, h) = same_hour v lo (omega (arith, valid.minutes.upper n set)) in
            let clash =
              between (minute v) (omega (arith, ap num_days d, second_range v))
                (omega (arith, ap num_days d)) in
            cc (fires.minute_ok)

    minute_RoundOk :
        contains s.months (month (date t)) ≡ true
        → day_matches c s (date t) ≡ true
        → contains s.hours (hour t) ≡ true
        → RoundOk c s t (minute_round c s t)
    unfolding minute_round
    minute_RoundOk mo d h = elim (Bool-cases (contains s.minutes (minute t))) [
      | inl yes_now ↦ rw yes_now (second_RoundOk mo d h yes_now)
      | inr not_now ↦
          rw not_now
            (minute_missed not_now _ (missed s.minutes (minute t) valid.minutes.fits not_now))
    ]

    hour_missed :
        contains s.hours (hour t) ≡ false
        → (r : Option ℕ) → IsNext s.hours (hour t) r
        → RoundOk c s t (
            go_on c (elim r [
              | some n ↦ and_hms_opt (date t) n 0 0
              | none ↦ midnight c (succ_opt (date t))
            ]))
    hour_missed out none above = next_day λ v lo hi fires.
        let d = same_day t v lo (omega arith) in
        let clash = above (hour v) (omega (arith, ap num_days d, minute_range v, second_range v)) in
        cc (fires.hour_ok)
    hour_missed out (some n) (le, set, between) =
        jump (date t) n 0 0 (omega (arith, valid.hours.upper n set)) (omega arith) (omega arith)
          (omega (arith, minute_range t, second_range t, strictly s.hours (hour t) n out le set))
          λ v lo hi fires.
            let d = same_day t v lo (omega (arith, valid.hours.upper n set)) in
            let clash =
              between (hour v) (omega (arith, ap num_days d, minute_range v, second_range v))
                (omega (arith, ap num_days d)) in
            cc (fires.hour_ok)

    hour_RoundOk :
        contains s.months (month (date t)) ≡ true
        → day_matches c s (date t) ≡ true
        → RoundOk c s t (hour_round c s t)
    unfolding hour_round
    hour_RoundOk mo d = elim (Bool-cases (contains s.hours (hour t))) [
      | inl yes_now ↦ rw yes_now (minute_RoundOk mo d yes_now)
      | inr not_now ↦
          rw not_now (hour_missed not_now _ (missed s.hours (hour t) valid.hours.fits not_now))
    ]

    day_RoundOk : contains s.months (month (date t)) ≡ true → RoundOk c s t (day_round c s t)
    unfolding day_round
    day_RoundOk mo = elim (Bool-cases (day_matches c s (date t))) [
      | inl yes_now ↦ rw yes_now (hour_RoundOk mo yes_now)
      | inr not_now ↦ rw not_now (
          next_day λ v lo hi fires.
            let d = same_day t v lo (omega arith) in
            let clash : day_matches c s (date v) ≡ false = rw d not_now in cc (fires.day_ok))
    ]

    -- A jump to the first day of a month, where the calendar has it.
    next_month :
        (y m : ℕ)
        → 1 ≤ m
        → m ≤ 12
        → (y ≤ year (date t) + 1)
        → ymd c (date t) < (y * 13 + m) * 32 + 1
        → ((v : DateTime)
            → ymd c (date t) ≤ ymd c (date v)
            → ymd c (date v) < (y * 13 + m) * 32 + 1
            → ¬ Fires c s v)
        → RoundOk c s t (go_on c (midnight c (from_ymd_opt y m 1)))
    next_month y m lo hi near up quiet = elim (Option-cases (from_ymd_opt y m 1)) [
      | inl last ↦ rw last (elim (Bool-cases (leb y max_year)) [
        | inl before ↦
            let (e, more) = from_ymd_opt_some y m (leb→le _ _ before) lo hi in absurd (cc)
        | inr past ↦ ground arith
      ])
      | inr (e, more) ↦
          let at = from_ymd_opt_fields y m 1 e more in
          let first : ymd c e ≡ (y * 13 + m) * 32 + 1 = omega (arith, at.0, at.1, at.2) in
          let later_day : num_days (date t) < num_days e = num_days-lt (date t) e (omega arith) in
          rw more (
            jump e 0 0 0 (omega arith) (omega arith) (omega arith)
              (omega (arith, hour_range t, minute_range t, second_range t))
              (λ v low high.
                let (from, to) = date_between v e low high in
                quiet v (ymd_mono (date t) (date v) from) (omega (arith, ymd-lt (date v) e to))))
    ]

    later_month :
        (m : ℕ)
        → month (date t) ≤ m
        → m ≢ month (date t)
        → ymd c (date t) < (year (date t) * 13 + m) * 32 + 1
    later_month m le ne = omega (arith, day_range (date t))

    month_missed :
        (r : Option ℕ)
        → IsNext s.months (month (date t)) r
        → RoundOk c s t (elim r [
          | none ↦ go_on c (midnight c (from_ymd_opt (year (date t) + 1) 1 1))
          | some m ↦
              if m == month (date t)
              then day_round c s t
              else go_on c (midnight c (from_ymd_opt (year (date t)) m 1))
        ])
    month_missed none above =
        next_month (year (date t) + 1) 1 (omega arith) (omega arith) (omega arith)
          (omega (arith, month_range (date t), day_range (date t)))
          λ v from to fires.
            let clash = above (month (date v)) (
              omega (
                arith,
                month_range (date t),
                day_range (date t),
                month_range (date v),
                day_range (date v),
              )) in
            cc (fires.month_ok)
    month_missed (some m) (le, set, between) = elim (Bool-cases (m == month (date t))) [
      | inl same ↦ rw same (day_RoundOk (ground arith))
      | inr other ↦ rw other (
          next_month (year (date t)) m (omega (arith, month_range (date t)))
            (valid.months.upper m set) (omega arith) (later_month m le (ground arith))
            λ v from to fires.
              let clash =
                between (month (date v))
                  (omega (
                    arith,
                    month_range (date t),
                    day_range (date t),
                    month_range (date v),
                    day_range (date v),
                    valid.months.upper m set,
                  ))
                  (omega (
                    arith,
                    month_range (date t),
                    day_range (date t),
                    month_range (date v),
                    day_range (date v),
                    valid.months.upper m set,
                  )) in
              cc (fires.month_ok))
    ]

  -- Every round keeps the promise of the search.
  pub round_ok : (t : DateTime) → RoundOk c s t (round c s t)
  unfolding round
  round_ok t = month_missed t _ (at_or_after-IsNext s.months (month (date t)) valid.months.fits)
