-- ===== src/Cron/Schedule.antt =====
-- crates/gn-drive-core/src/cron.rs: `CronSchedule::parse`, `normalize_cron` and `parse_duration`.
-- Floating-point numbers are the parameter `F64`.
pub mod Valid
pub mod Normalize
use Prim.Native.Nat.{bit_and, bit_or}
use gn_drive.Common.{
  ℕ, zero, suc, ◌+◌, ◌-◌, ◌^◌, max, Bool, true, false, not, ◌||◌, Option, none, some, List, [], ◌∷◌,
  ◌==◌, nat_eq, if◌then◌else◌, any, leb, length, ◌&&◌, ◌++◌,
}
use gn_drive.Common.Text.{Text, codes, text_eq, trim, to_lowercase, split, split_whitespace, join}
use gn_drive.Cron.Field.{Field, contains, mask_range}
use gn_drive.Cron.Parser.{
  CronError, empty, bad_field_count, invalid, Result, ok, err, ◌>>=◌, month_names, dow_names,
  is_star, parse_field,
}

-- The operations of `f64` that durations use; `whole` is the cast of a positive value to `i64`.
pub record F64 : Type 1 where
  pub Number : Type 0
  pub zero : Number
  pub parse : Text → Option Number
  pub add : Number → Number → Number
  pub times : Number → ℕ → Number
  pub is_positive : Number → Bool
  pub whole : Number → ℕ

pub record CronSchedule : Type 0 where
  pub seconds : Field
  pub minutes : Field
  pub hours : Field
  pub dom : Field
  pub months : Field
  pub dow : Field
  pub dom_restricted : Bool
  pub dow_restricted : Bool
  pub every_seconds : Option ℕ

abbrev first_piece : List Text → Text
first_piece [] = []
first_piece (p ∷ ps) = p

-- A field is restricted unless the range of some comma-part is `*` or `?`.
unfoldable pub is_restricted : Text → Bool
is_restricted field = not (any (λ part. is_star (first_piece (split b'/' part))) (split b',' field))

-- `7 -> 0`: both stand for Sunday.
unfoldable pub sunday_is_zero : Field → Field
sunday_is_zero dow =
    if contains dow 7
    then record { bits = bit_or (bit_and dow.bits (2 ^ 64 - 1 - 2 ^ 7)) 1 }
    else dow

unfoldable pub parse_six : Text → Text → Text → Text → Text → Text → Result CronSchedule
unfolding is_restricted sunday_is_zero
parse_six sec min hour day month week = do
  seconds ← parse_field 0 59 [] 0 sec
  minutes ← parse_field 0 59 [] 0 min
  hours ← parse_field 0 23 [] 0 hour
  dom ← parse_field 1 31 [] 0 day
  months ← parse_field 1 12 month_names 1 month
  dow ← parse_field 0 7 dow_names 0 week
  ok (record {
    seconds = seconds;
    minutes = minutes;
    hours = hours;
    dom = dom;
    months = months;
    dow = sunday_is_zero dow;
    dom_restricted = is_restricted day;
    dow_restricted = is_restricted week;
    every_seconds = none;
  })

-- Five fields get a leading `0`, six pass through, any other number is refused.
unfoldable pub parse_fields : List Text → Result CronSchedule
unfolding parse_six
parse_fields (a ∷ b ∷ c ∷ d ∷ e ∷ []) = parse_six (codes "0") a b c d e
parse_fields (a ∷ b ∷ c ∷ d ∷ e ∷ f ∷ []) = parse_six a b c d e f
parse_fields fields = err (bad_field_count (length fields))

abbrev pub all_values : ℕ → ℕ → Field
all_values lo hi = record { bits = mask_range lo hi 1 }

-- `@every`: a fixed interval, of at least one second.
unfoldable pub every : ℕ → CronSchedule
every n = record {
  seconds = all_values 0 59;
  minutes = all_values 0 59;
  hours = all_values 0 23;
  dom = all_values 1 31;
  months = all_values 1 12;
  dow = all_values 0 6;
  dom_restricted = false;
  dow_restricted = false;
  every_seconds = some (max n 1);
}

-- `str::strip_prefix`.
unfoldable pub strip_prefix : Text → Text → Option Text
strip_prefix [] s = some s
strip_prefix (p ∷ ps) [] = none
strip_prefix (p ∷ ps) (c ∷ s) = let rest = strip_prefix ps s in if p == c then rest else none

module _ (float : F64) where
  open float use {Number, parse as parse_f64, add, times, is_positive, whole}

  abbrev unit_of : ℕ → Option ℕ
  unit_of c =
      if c == b'h'
      then some 3600
      else if c == b'm'
      then some 60
      else if c == b's'
      then some 1
      else none

  abbrev add_unit : Number → Option Number → Option ℕ → Option Number
  add_unit total (some v) (some unit) = some (add total (if unit == 1 then v else times v unit))
  add_unit total (some v) none = none
  add_unit total none unit = none

  -- What is left in `num` after the loop counts as seconds, if it is a number.
  abbrev add_rest : Number → Text → Number
  add_rest total [] = total
  add_rest total (c ∷ num) = elim (parse_f64 (c ∷ num)) [ none ↦ total | some v ↦ add total v ]

  -- The loop of `parse_duration`, with `total` and `num`.
  duration_from : Number → Text → Text → Option Number
  duration_from total num [] = some (add_rest total num)
  duration_from total num (c ∷ s) =
      let digit = duration_from total (num ++ c ∷ []) s in
      if leb b'0' c && leb c b'9' || c == b'.'
      then digit
      else elim (add_unit total (parse_f64 num) (unit_of c)) [
        | none ↦ none
        | some sum ↦ duration_from sum [] s
      ]

  abbrev positive_only : Option Number → Option Number
  positive_only none = none
  positive_only (some total) = if is_positive total then some total else none

  unfoldable pub parse_duration : Text → Option Number
  unfolding duration_from
  parse_duration s = positive_only (duration_from float.zero [] s)

  abbrev pub every_of : Text → Option Number → Result CronSchedule
  every_of expr none = err (invalid expr)
  every_of expr (some d) = ok (every (whole d))

  abbrev pub every_rest : Text → Option Text → Result CronSchedule
  every_rest expr none = err (invalid expr)
  every_rest expr (some rest) = every_of expr (parse_duration rest)

  -- The `@descriptors`; `expr` is the whole expression, for the error.
  unfoldable pub parse_descriptor : Text → Text → Result CronSchedule
  unfolding parse_fields strip_prefix every
  parse_descriptor expr lower =
      if lower == codes "@yearly" || lower == codes "@annually"
      then parse_fields (split_whitespace (codes "0 0 0 1 1 *"))
      else if lower == codes "@monthly"
      then parse_fields (split_whitespace (codes "0 0 0 1 * *"))
      else if lower == codes "@weekly"
      then parse_fields (split_whitespace (codes "0 0 0 * * 0"))
      else if lower == codes "@daily" || lower == codes "@midnight"
      then parse_fields (split_whitespace (codes "0 0 0 * * *"))
      else if lower == codes "@hourly"
      then parse_fields (split_whitespace (codes "0 0 * * * *"))
      else every_rest expr (strip_prefix (codes "@every ") lower)

  unfoldable pub parse_trimmed : Text → Text → Result CronSchedule
  unfolding parse_descriptor
  parse_trimmed expr [] = err empty
  parse_trimmed expr (c ∷ e) =
      if c == b'@'
      then parse_descriptor expr (to_lowercase (c ∷ e))
      else parse_fields (split_whitespace (c ∷ e))

  unfoldable pub parse : Text → Result CronSchedule
  unfolding parse_trimmed
  parse expr = parse_trimmed expr (trim expr)

  abbrev pub normal_fields : List Text → Result Text
  normal_fields (a ∷ b ∷ c ∷ d ∷ e ∷ []) = ok (codes "0 " ++ join (a ∷ b ∷ c ∷ d ∷ e ∷ []))
  normal_fields (a ∷ b ∷ c ∷ d ∷ e ∷ f ∷ []) = ok (join (a ∷ b ∷ c ∷ d ∷ e ∷ f ∷ []))
  normal_fields fields = err (bad_field_count (length fields))

  normalize_trimmed : Text → Result Text
  normalize_trimmed [] = err empty
  normalize_trimmed (c ∷ e) =
      if c == b'@'
      then (do schedule ← parse (c ∷ e); ok (c ∷ e))
      else normal_fields (split_whitespace (c ∷ e))

  -- A seconds-aware form of a UI expression.
  unfoldable pub normalize_cron : Text → Result Text
  unfolding normalize_trimmed
  normalize_cron expr = normalize_trimmed (trim expr)
