-- ===== src/Cron/Tests.antt =====
-- The theorems on cron schedules at concrete inputs, and runs of the code.
use gn_drive.Common.{
  ◌+◌, ◌-◌, ◌*◌, ◌^◌, ◌<◌, ◌≡◌, ◌↔◌, refl, true, false, none, some, [], ◌∷◌, arith,
}
use gn_drive.Common.Text.{codes}
use gn_drive.Cron.Calendar.{timestamp}
use gn_drive.Cron.Field.{contains, mask_range, u32_mod}
use gn_drive.Cron.Field.Range.{mask_range-wraps}
use gn_drive.Cron.Parser.{ok, parse_field}
use gn_drive.Cron.Parser.Values.{AllowedBy, parse_field-AllowedBy}
use gn_drive.Cron.Schedule.{CronSchedule, parse, normalize_cron}
use gn_drive.Cron.Schedule.Valid.{ScheduleIsValid, parse-ScheduleIsValid}
use gn_drive.Cron.Schedule.Normalize.{normalize_cron-parse}
use gn_drive.Cron.Next.{next_naive_after}
use gn_drive.Cron.Next.Rounds.{Fires, Quiet}
use gn_drive.Cron.Next.Least.{next_naive_after-least, next_naive_after-none}
use gn_drive.Cron.Samples.{even_chrono, even_laws, whole_f64, office_hours, programs}

abbrev office_schedule : CronSchedule
office_schedule = record {
  seconds = record { bits = 1 };
  minutes = record { bits = 35185445863425 };
  hours = record { bits = 261632 };
  dom = record { bits = 4294967294 };
  months = record { bits = 8190 };
  dow = record { bits = 62 };
  dom_restricted = false;
  dow_restricted = true;
  every_seconds = none;
}

parse_office : parse whole_f64 office_hours ≡ ok office_schedule
unfolding programs
parse_office = refl

parse-ScheduleIsValid_example : ScheduleIsValid office_schedule
parse-ScheduleIsValid_example = parse-ScheduleIsValid whole_f64 office_hours parse_office

-- The minute field `30/4294967295` also allows minute 29.
mask_range-wraps_example :
    contains (record { bits = mask_range 30 59 (u32_mod - 1) }) (30 - 1) ≡ true
mask_range-wraps_example =
    mask_range-wraps 30 59 1 (omega arith) (omega arith) (omega arith) (omega arith)

parse_minutes :
    parse_field 0 59 [] 0 (codes "5/20,50-52")
    ≡ ok (record { bits = 2 ^ 5 + 2 ^ 25 + 2 ^ 45 + 2 ^ 50 + 2 ^ 51 + 2 ^ 52 })
unfolding programs
parse_minutes = refl

parse_field-AllowedBy_example :
    (contains (record { bits = 2 ^ 5 + 2 ^ 25 + 2 ^ 45 + 2 ^ 50 + 2 ^ 51 + 2 ^ 52 }) 45 ≡ true)
    ↔ AllowedBy 0 59 [] 0 (codes "5/20" ∷ codes "50-52" ∷ []) 45
unfolding programs
parse_field-AllowedBy_example =
    parse_field-AllowedBy 0 59 [] 0 (omega arith) (codes "5/20,50-52") 45 parse_minutes
      (omega arith, (omega arith, tt))

-- From 20:00 on day 4 (a Thursday) the next quarter is at 09:00 on day 5.
next_office :
    next_naive_after even_chrono office_schedule (4 * 86400 + 20 * 3600)
    ≡ some (5 * 86400 + 9 * 3600)
unfolding programs
next_office = refl

next_naive_after-least_example :
    Fires even_chrono office_schedule (5 * 86400 + 9 * 3600)
    × (timestamp even_chrono (4 * 86400 + 20 * 3600) < timestamp even_chrono (5 * 86400 + 9 * 3600))
    × Quiet even_chrono office_schedule
        (timestamp even_chrono (4 * 86400 + 20 * 3600) + 1)
        (timestamp even_chrono (5 * 86400 + 9 * 3600))
next_naive_after-least_example =
    next_naive_after-least even_chrono even_laws office_schedule parse-ScheduleIsValid_example
      (4 * 86400 + 20 * 3600) (5 * 86400 + 9 * 3600) refl next_office

-- Midnight of day 31, which no month of the small calendar has.
abbrev day_31 : CronSchedule
day_31 = record {
  seconds = record { bits = 1 };
  minutes = record { bits = 1 };
  hours = record { bits = 1 };
  dom = record { bits = 2 ^ 31 };
  months = record { bits = 8190 };
  dow = record { bits = 127 };
  dom_restricted = true;
  dow_restricted = false;
  every_seconds = none;
}

parse_day_31 : parse whole_f64 (codes "0 0 31 * *") ≡ ok day_31
unfolding programs
parse_day_31 = refl

next_day_31 : next_naive_after even_chrono day_31 1000 ≡ none
unfolding programs
next_day_31 = refl

next_naive_after-none_example : ¬ Fires even_chrono day_31 (3 * 86400)
next_naive_after-none_example =
    next_naive_after-none even_chrono even_laws day_31
      (parse-ScheduleIsValid whole_f64 (codes "0 0 31 * *") parse_day_31) 1000 (3 * 86400) refl
      next_day_31 (omega arith) (omega arith) (omega arith)

normalize_office :
    normalize_cron whole_f64 (codes " */15 9-17  * * 1-5") ≡ ok (codes "0 */15 9-17 * * 1-5")
unfolding programs
normalize_office = refl

normalize_cron-parse_example :
    parse whole_f64 (codes "0 */15 9-17 * * 1-5") ≡ parse whole_f64 (codes " */15 9-17  * * 1-5")
normalize_cron-parse_example =
    normalize_cron-parse whole_f64 (codes " */15 9-17  * * 1-5") normalize_office
