-- ===== src/Cron/Calendar.antt =====
-- The dates and times of the crate `chrono`, which crates/gn-drive-core/src/cron.rs uses for
-- wall-clock times: its operations, and what its documentation says of them.
use gn_drive.Common.{ℕ, ◌+◌, ◌*◌, ◌≤◌, ◌<◌, ◌≡◌, Option, some}

pub record Chrono : Type 1 where
  pub Date : Type 0
  pub year : Date → ℕ
  pub month : Date → ℕ
  pub day : Date → ℕ
  pub weekday : Date → ℕ  -- days from Sunday
  pub num_days : Date → ℕ  -- days from a fixed first day
  pub from_ymd_opt : ℕ → ℕ → ℕ → Option Date
  pub succ_opt : Date → Option Date
  pub max_year : ℕ
  pub DateTime : Type 0
  pub date : DateTime → Date
  pub hour : DateTime → ℕ
  pub minute : DateTime → ℕ
  pub second : DateTime → ℕ
  pub with_nanosecond : DateTime → ℕ → Option DateTime
  pub and_hms_opt : Date → ℕ → ℕ → ℕ → Option DateTime
  pub add_seconds : DateTime → ℕ → DateTime

module _ (c : Chrono) where
  open c use {
    Date, year, month, day, num_days, from_ymd_opt, succ_opt, max_year, DateTime, date, hour,
    minute, second, with_nanosecond, and_hms_opt, add_seconds,
  }

  -- Whole seconds from the first day, as every minute has sixty of them.
  abbrev pub timestamp : DateTime → ℕ
  timestamp t = num_days (date t) * 86400 + hour t * 3600 + minute t * 60 + second t

  -- Year, month and day, in the order of significance.
  abbrev pub ymd : Date → ℕ
  ymd d = (year d * 13 + month d) * 32 + day d

  abbrev pub IsAt : DateTime → Date → ℕ → ℕ → ℕ → Type 0
  IsAt t d h m s = (date t ≡ d) × (hour t ≡ h) × (minute t ≡ m) × (second t ≡ s)

  pub record Laws : Type 0 where
    pub month_range : (d : Date) → (1 ≤ month d) × (month d ≤ 12)
    pub day_range : (d : Date) → (1 ≤ day d) × (day d ≤ 31)
    pub hour_range : (t : DateTime) → hour t < 24
    pub minute_range : (t : DateTime) → minute t < 60
    pub second_range : (t : DateTime) → second t < 60
    -- Later days have later year, month and day, and a day is known by its number.
    pub ymd_mono : (d e : Date) → num_days d ≤ num_days e → ymd d ≤ ymd e
    pub num_days_mono : (d e : Date) → ymd d ≤ ymd e → num_days d ≤ num_days e
    pub num_days_injective : (d e : Date) → num_days d ≡ num_days e → d ≡ e
    pub from_ymd_opt_fields :
        (y m n : ℕ) (d : Date)
        → from_ymd_opt y m n ≡ some d
        → (year d ≡ y) × (month d ≡ m) × (day d ≡ n)
    pub from_ymd_opt_some :
        (y m : ℕ) → y ≤ max_year → 1 ≤ m → m ≤ 12 → (d : Date) × (from_ymd_opt y m 1 ≡ some d)
    pub succ_opt_next : (d e : Date) → succ_opt d ≡ some e → num_days e ≡ num_days d + 1
    pub succ_opt_some : (d : Date) → year d < max_year → (e : Date) × (succ_opt d ≡ some e)
    pub with_nanosecond_zero :
        (t : DateTime)
        → (u : DateTime) × (with_nanosecond t 0 ≡ some u) × (timestamp u ≡ timestamp t)
    pub and_hms_opt_at :
        (d : Date) (h m s : ℕ)
        → h < 24
        → m < 60
        → s < 60
        → (t : DateTime) × (and_hms_opt d h m s ≡ some t) × IsAt t d h m s
    pub add_seconds_later : (t : DateTime) (n : ℕ) → timestamp (add_seconds t n) ≡ timestamp t + n
