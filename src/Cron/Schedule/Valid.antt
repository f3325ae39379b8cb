-- ===== src/Cron/Schedule/Valid.antt =====
-- What `CronSchedule::parse` accepts is a usable schedule.
use Prim.Native.Nat.{bit_and, bit_or}
use gn_drive.Common.{
  ℕ, zero, suc, ◌-◌, ◌^◌, ◌≤◌, ◌<◌, max, min, ◌≡◌, refl, ◌≢◌, ap, true, false, ◌||◌, Option, none,
  some, List, [], ◌∷◌, ◌==◌, nat_eq, arith, Bool-cases, inl, inr,
}
use mathlib.Core.Path.{subst}
use gn_drive.Common.Bits.{
  bit, bit-lt, bit-bit_or, bit-bit_and, bit_or-lt, bit_and-lt, bit-pow_ne, bit-pow_self,
}
use gn_drive.Common.Text.{Text, codes, text_eq, trim, to_lowercase, split_whitespace}
use gn_drive.Cron.Field.Range.{mask_range-lt, mask_range-bounded, mask_range-first}
use gn_drive.Cron.Field.{Field, contains}
use gn_drive.Cron.Field.Search.{contains-bit, bit-contains}
use gn_drive.Cron.Parser.{Result, ok, err, ◌>>=◌, month_names, dow_names, parse_field}
use gn_drive.Cron.Parser.Bounds.{FieldIsValid, parse_field-FieldIsValid}
use gn_drive.Cron.Schedule.{
  F64, CronSchedule, sunday_is_zero, is_restricted, parse_six, parse_fields, all_values, every,
  every_of, every_rest, parse_duration, parse_descriptor, strip_prefix, parse_trimmed, parse,
}

abbrev not_seven : ℕ
not_seven = 2 ^ 64 - 1 - 2 ^ 7

seven_cleared : bit not_seven 7 ≡ 0
unfolding bit
seven_cleared = refl

others_kept : (v : ℕ) → v < 7 → bit not_seven v ≡ 1
unfolding bit
others_kept zero h = refl
others_kept (suc zero) h = refl
others_kept (suc (suc zero)) h = refl
others_kept (suc (suc (suc zero))) h = refl
others_kept (suc (suc (suc (suc zero)))) h = refl
others_kept (suc (suc (suc (suc (suc zero))))) h = refl
others_kept (suc (suc (suc (suc (suc (suc zero)))))) h = refl
others_kept (suc (suc (suc (suc (suc (suc (suc v))))))) h = absurd (omega arith)

abbrev moved : ℕ → ℕ
moved bits = bit_or (bit_and bits not_seven) 1

bit-moved : (bits v : ℕ) → bit (moved bits) v ≡ max (min (bit bits v) (bit not_seven v)) (bit 1 v)
bit-moved bits v =
    omega (arith, bit-bit_or (bit_and bits not_seven) 1 v, bit-bit_and bits not_seven v)

one_bit : (v : ℕ) → v ≢ 0 → bit 1 v ≡ 0
one_bit v h = bit-pow_ne 0 v (λ e. h (omega arith))

moved_seven : (bits : ℕ) → bit (moved bits) 7 ≡ 0
moved_seven bits =
    omega (arith, bit-moved bits 7, seven_cleared, one_bit 7 (omega arith), bit-lt bits 7)

moved_zero : (bits : ℕ) → bit (moved bits) 0 ≡ 1
moved_zero bits = omega (arith, bit-moved bits 0, bit-pow_self 0, bit-lt bits 0)

moved_other : (bits v : ℕ) → v ≢ 0 → v ≢ 7 → bit (moved bits) v ≡ 1 → bit bits v ≡ 1
moved_other bits v a b h =
    omega (arith, bit-moved bits v, one_bit v a, bit-lt bits v, bit-lt not_seven v)

module _ (dow : Field) (valid : FieldIsValid 0 7 dow) where
  abbrev renamed : Field
  renamed = record { bits = moved dow.bits }

  moved_upper : (v : ℕ) → contains renamed v ≡ true → v ≤ 6
  moved_upper v c = elim (Bool-cases (v == 0)) [
    | inl same ↦ ground arith
    | inr other ↦ elim (Bool-cases (v == 7)) [
      | inl last ↦
          let seven : v ≡ 7 = ground arith in
          absurd (
            omega (
              arith,
              moved_seven dow.bits,
              ap (bit (moved dow.bits)) seven,
              (contains-bit renamed v c).1,
            ))
      | inr middle ↦
          let (small, set) = contains-bit renamed v c in
          let old = moved_other dow.bits v (ground arith) (ground arith) set in
          ground (arith, valid.upper v (bit-contains dow v small old))
    ]
  ]

  moved-FieldIsValid : FieldIsValid 0 6 renamed
  moved-FieldIsValid = record {
    fits = bit_or-lt 64 _ 1 (bit_and-lt 64 dow.bits not_seven valid.fits) (omega arith);
    upper = moved_upper;
    inhabited =
        (0, omega arith, omega arith, bit-contains renamed 0 (omega arith) (moved_zero dow.bits));
  }

  kept-FieldIsValid : contains dow 7 ≡ false → FieldIsValid 0 6 dow
  kept-FieldIsValid no_seven = record {
    fits = valid.fits;
    upper = λ v c. ground (arith, valid.upper v c);
    inhabited = let (v, low, high, c) = valid.inhabited in (v, low, ground arith, c);
  }

-- After the normalisation Sunday is 0 only.
pub sunday_is_zero-FieldIsValid :
    (dow : Field) → FieldIsValid 0 7 dow → FieldIsValid 0 6 (sunday_is_zero dow)
unfolding sunday_is_zero
sunday_is_zero-FieldIsValid dow valid = elim (Bool-cases (contains dow 7)) [
  | inr no_seven ↦ rw no_seven (kept-FieldIsValid dow valid no_seven)
  | inl seven ↦ rw seven (moved-FieldIsValid dow valid)
]

all_values-valid : (lo hi : ℕ) → lo ≤ hi → hi < 60 → FieldIsValid lo hi (all_values lo hi)
all_values-valid lo hi h small = record {
  fits = mask_range-lt lo hi 1 (omega arith);
  upper = λ v c. mask_range-bounded lo hi 1 v (contains-bit _ v c).1;
  inhabited = (lo, omega arith, h, bit-contains _ lo (omega arith) (mask_range-first lo hi 1 h));
}

-- Every field of the schedule allows a value of its range, and none above it.
pub record ScheduleIsValid (s : CronSchedule) : Type 0 where
  pub seconds : FieldIsValid 0 59 s.seconds
  pub minutes : FieldIsValid 0 59 s.minutes
  pub hours : FieldIsValid 0 23 s.hours
  pub dom : FieldIsValid 1 31 s.dom
  pub months : FieldIsValid 1 12 s.months
  pub dow : FieldIsValid 0 6 s.dow

-- What ran before the rest of a chain that ended well.
first_value {ℓ κ} :
    {X : Type ℓ} {Y : Type κ} (r : Result X) (rest : X → Result Y) {y : Y}
    → (r >>= rest) ≡ ok y
    → (x : X) × (r ≡ ok x) × (rest x ≡ ok y)
first_value (err e) rest h = cc
first_value (ok x) rest h = (x, refl, h)

abbrev assembled : Text → Text → Field → Field → Field → Field → Field → Field → CronSchedule
assembled day week seconds minutes hours dom months dow = record {
  seconds = seconds;
  minutes = minutes;
  hours = hours;
  dom = dom;
  months = months;
  dow = sunday_is_zero dow;
  dom_restricted = is_restricted day;
  dow_restricted = is_restricted week;
  every_seconds = none;
}

parse_six-valid :
    (sec minute hour day month week : Text) {s : CronSchedule}
    → parse_six sec minute hour day month week ≡ ok s
    → ScheduleIsValid s
unfolding parse_six
parse_six-valid sec minute hour day month week h =
    let (seconds, e₁, h₁) = first_value (parse_field 0 59 [] 0 sec) _ h in
    let (minutes, e₂, h₂) = first_value (parse_field 0 59 [] 0 minute) _ h₁ in
    let (hours, e₃, h₃) = first_value (parse_field 0 23 [] 0 hour) _ h₂ in
    let (dom, e₄, h₄) = first_value (parse_field 1 31 [] 0 day) _ h₃ in
    let (months, e₅, h₅) = first_value (parse_field 1 12 month_names 1 month) _ h₄ in
    let (dow, e₆, h₆) = first_value (parse_field 0 7 dow_names 0 week) _ h₅ in
    subst ScheduleIsValid {x = assembled day week seconds minutes hours dom months dow}
      (ground arith)
      (record {
        seconds = parse_field-FieldIsValid 0 59 [] 0 (omega arith) sec e₁;
        minutes = parse_field-FieldIsValid 0 59 [] 0 (omega arith) minute e₂;
        hours = parse_field-FieldIsValid 0 23 [] 0 (omega arith) hour e₃;
        dom = parse_field-FieldIsValid 1 31 [] 0 (omega arith) day e₄;
        months = parse_field-FieldIsValid 1 12 month_names 1 (omega arith) month e₅;
        dow =
            sunday_is_zero-FieldIsValid dow
              (parse_field-FieldIsValid 0 7 dow_names 0 (omega arith) week e₆);
      })

parse_fields-valid :
    (fields : List Text) {s : CronSchedule} → parse_fields fields ≡ ok s → ScheduleIsValid s
unfolding parse_fields
parse_fields-valid [] h = cc
parse_fields-valid (a ∷ []) h = cc
parse_fields-valid (a ∷ b ∷ []) h = cc
parse_fields-valid (a ∷ b ∷ c ∷ []) h = cc
parse_fields-valid (a ∷ b ∷ c ∷ d ∷ []) h = cc
parse_fields-valid (a ∷ b ∷ c ∷ d ∷ e ∷ []) h = parse_six-valid (codes "0") a b c d e h
parse_fields-valid (a ∷ b ∷ c ∷ d ∷ e ∷ f ∷ []) h = parse_six-valid a b c d e f h
parse_fields-valid (a ∷ b ∷ c ∷ d ∷ e ∷ f ∷ g ∷ gs) h = cc

every-valid : (n : ℕ) → ScheduleIsValid (every n)
unfolding every
every-valid n = record {
  seconds = all_values-valid 0 59 (omega arith) (omega arith);
  minutes = all_values-valid 0 59 (omega arith) (omega arith);
  hours = all_values-valid 0 23 (omega arith) (omega arith);
  dom = all_values-valid 1 31 (omega arith) (omega arith);
  months = all_values-valid 1 12 (omega arith) (omega arith);
  dow = all_values-valid 0 6 (omega arith) (omega arith);
}

module _ (float : F64) where
  every_of-valid :
      (expr : Text) (d : Option (float.Number)) {s : CronSchedule}
      → every_of float expr d ≡ ok s
      → ScheduleIsValid s
  every_of-valid expr none h = cc
  every_of-valid expr (some d) {s} h =
      subst ScheduleIsValid {x = every (float.whole d)} (ground arith) (every-valid (float.whole d))

  every_rest-valid :
      (expr : Text) (rest : Option Text) {s : CronSchedule}
      → every_rest float expr rest ≡ ok s
      → ScheduleIsValid s
  every_rest-valid expr none h = cc
  every_rest-valid expr (some rest) h = every_of-valid expr (parse_duration float rest) h

  parse_descriptor-valid :
      (expr lower : Text) {s : CronSchedule}
      → parse_descriptor float expr lower ≡ ok s
      → ScheduleIsValid s
  unfolding parse_descriptor
  parse_descriptor-valid expr lower h =
      elim (Bool-cases (lower == codes "@yearly" || lower == codes "@annually")) [
        | inl yes₁ ↦ parse_fields-valid _ (rw yes₁ at h)
        | inr no₁ ↦ elim (Bool-cases (lower == codes "@monthly")) [
          | inl yes₂ ↦ parse_fields-valid _ (rw (no₁, yes₂) at h)
          | inr no₂ ↦ elim (Bool-cases (lower == codes "@weekly")) [
            | inl yes₃ ↦ parse_fields-valid _ (rw (no₁, no₂, yes₃) at h)
            | inr no₃ ↦ elim (Bool-cases (lower == codes "@daily" || lower == codes "@midnight")) [
              | inl yes₄ ↦ parse_fields-valid _ (rw (no₁, no₂, no₃, yes₄) at h)
              | inr no₄ ↦ elim (Bool-cases (lower == codes "@hourly")) [
                | inl yes₅ ↦ parse_fields-valid _ (rw (no₁, no₂, no₃, no₄, yes₅) at h)
                | inr no₅ ↦
                    every_rest-valid expr (strip_prefix (codes "@every ") lower)
                      (rw (no₁, no₂, no₃, no₄, no₅) at h)
              ]
            ]
          ]
        ]
      ]

  parse_trimmed-valid :
      (expr e : Text) {s : CronSchedule} → parse_trimmed float expr e ≡ ok s → ScheduleIsValid s
  unfolding parse_trimmed
  parse_trimmed-valid expr [] h = cc
  parse_trimmed-valid expr (c ∷ e) h = elim (Bool-cases (c == b'@')) [
    | inl at_sign ↦ parse_descriptor-valid expr (to_lowercase (c ∷ e)) (rw at_sign at h)
    | inr plain ↦ parse_fields-valid (split_whitespace (c ∷ e)) (rw plain at h)
  ]

  -- Every schedule that `parse` accepts is valid: each of its fields fits in 64 bits, allows at
  -- least one value of its range, and none above it; Sunday is 0 only.
  pub parse-ScheduleIsValid :
      (expr : Text) {s : CronSchedule} → parse float expr ≡ ok s → ScheduleIsValid s
  unfolding parse
  parse-ScheduleIsValid expr h = parse_trimmed-valid expr (trim expr) h
