-- ===== src/Cron/Samples.antt =====
-- A small calendar and number type that meet the interfaces, with parses and searches of cron
-- expressions as they run.
use gn_drive.Common.{
  ℕ, ◌+◌, ◌-◌, ◌*◌, ◌/◌, ◌%◌, ◌≤◌, ◌<◌, ◌≡◌, refl, ap, ◌∙◌, sym, ◌&&◌, none, some, leb, ltb, arith,
  if◌then◌else◌,
}
use gn_drive.Common.Bits.{bit, trailing_zeros}
use gn_drive.Common.Text.{
  Text, codes, parse_u32, trim, to_lowercase, split, split_whitespace, digits_from, text_beq, join,
  is_whitespace,
}
use gn_drive.Cron.Calendar.{Chrono, Laws, IsAt, timestamp}
use gn_drive.Cron.Field.{contains, at_or_after, mask_range, mask_from}
use gn_drive.Cron.Parser.{parse_field, parse_parts, parse_part, parse_bound, position_from}
use gn_drive.Cron.Schedule.{F64, parse, normalize_cron}
use gn_drive.Cron.Next.{
  day_matches, round, day_round, hour_round, minute_round, second_round, next_naive_after,
}

-- Months of thirty days and years of twelve months; a date is a day number, a time a second.
abbrev pub even_chrono : Chrono
even_chrono = record {
  Date = ℕ;
  year = λ d. d / 360;
  month = λ d. d % 360 / 30 + 1;
  day = λ d. d % 30 + 1;
  weekday = λ d. d % 7;
  num_days = λ d. d;
  from_ymd_opt = λ y m d.
      if leb 1 m && leb m 12 && leb 1 d && leb d 30
      then some (y * 360 + (m - 1) * 30 + (d - 1))
      else none;
  succ_opt = λ d. some (d + 1);
  max_year = 9999;
  DateTime = ℕ;
  date = λ t. t / 86400;
  hour = λ t. t % 86400 / 3600;
  minute = λ t. t % 3600 / 60;
  second = λ t. t % 60;
  with_nanosecond = λ t n. some t;
  and_hms_opt = λ d h m s.
      if ltb h 24 && ltb m 60 && ltb s 60 then some (d * 86400 + h * 3600 + m * 60 + s) else none;
  add_seconds = λ t n. t + n;
}

even_ymd_mono :
    (d e : ℕ)
    → d ≤ e
    → (d / 360 * 13 + (d % 360 / 30 + 1)) * 32 + (d % 30 + 1)
      ≤ (e / 360 * 13 + (e % 360 / 30 + 1)) * 32 + (e % 30 + 1)
even_ymd_mono d e h = omega arith

even_days_mono :
    (d e : ℕ)
    → (d / 360 * 13 + (d % 360 / 30 + 1)) * 32 + (d % 30 + 1)
      ≤ (e / 360 * 13 + (e % 360 / 30 + 1)) * 32 + (e % 30 + 1)
    → d ≤ e
even_days_mono d e h = omega arith

even_date_fields :
    (y m n : ℕ)
    → 1 ≤ m
    → m ≤ 12
    → 1 ≤ n
    → n ≤ 30
    → let d = y * 360 + (m - 1) * 30 + (n - 1) in
      (d / 360 ≡ y) × (d % 360 / 30 + 1 ≡ m) × (d % 30 + 1 ≡ n)
even_date_fields y m n a b e f = omega arith

even_from_ymd_fields :
    (y m n d : ℕ)
    → even_chrono.from_ymd_opt y m n ≡ some d
    → (d / 360 ≡ y) × (d % 360 / 30 + 1 ≡ m) × (d % 30 + 1 ≡ n)
even_from_ymd_fields y m n d h = ground (arith, even_date_fields y m n)

even_from_ymd_some :
    (y m : ℕ) → y ≤ 9999 → 1 ≤ m → m ≤ 12 → (d : ℕ) × (even_chrono.from_ymd_opt y m 1 ≡ some d)
even_from_ymd_some y m a b e = (y * 360 + (m - 1) * 30 + (1 - 1), ground arith)

even_and_hms :
    (d h m s : ℕ)
    → h < 24
    → m < 60
    → s < 60
    → (t : ℕ) × (even_chrono.and_hms_opt d h m s ≡ some t) × IsAt even_chrono t d h m s
even_and_hms d h m s a b e = (
  d * 86400 + h * 3600 + m * 60 + s,
  ground arith,
  (omega arith, omega arith, omega arith, omega arith),
)

even_stamp : (t : ℕ) → timestamp even_chrono t ≡ t
even_stamp t = omega arith

pub even_laws : Laws even_chrono
even_laws = record {
  month_range = λ d. (omega arith, omega arith);
  day_range = λ d. (omega arith, omega arith);
  hour_range = λ t. omega arith;
  minute_range = λ t. omega arith;
  second_range = λ t. omega arith;
  ymd_mono = even_ymd_mono;
  num_days_mono = even_days_mono;
  num_days_injective = λ d e h. h;
  from_ymd_opt_fields = even_from_ymd_fields;
  from_ymd_opt_some = even_from_ymd_some;
  succ_opt_next = λ d e h. ground arith;
  succ_opt_some = λ d h. (d + 1, refl);
  with_nanosecond_zero = λ t. (t, refl, refl);
  and_hms_opt_at = even_and_hms;
  add_seconds_later = λ t n. even_stamp (t + n) ∙ ap (λ (x : ℕ). x + n) (sym (even_stamp t));
}

-- Whole numbers in place of floating-point ones.
abbrev pub whole_f64 : F64
whole_f64 = record {
  Number = ℕ;
  zero = 0;
  parse = parse_u32;
  add = λ a b. a + b;
  times = λ a n. a * n;
  is_positive = λ a. ltb 0 a;
  whole = λ a. a;
}

-- Each quarter of the hours from nine to seventeen, Monday to Friday.
abbrev pub office_hours : Text
office_hours = codes "*/15 9-17 * * 1-5"

unfoldable pub programs : Unit {0}
unfolding parse normalize_cron join parse_field parse_parts split_whitespace trim to_lowercase split
    parse_part parse_bound parse_u32 digits_from mask_range mask_from position_from bit text_beq
    is_whitespace next_naive_after round day_round hour_round minute_round second_round day_matches
    at_or_after contains trailing_zeros
programs = tt
