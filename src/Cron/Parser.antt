-- ===== src/Cron/Parser.antt =====
-- crates/gn-drive-core/src/cron.rs: `parse_field` and its helpers. `bad()` is `none` inside a field.
pub mod Bounds
pub mod Values
use Prim.Native.Nat.{bit_or}
use gn_drive.Common.{
  ℕ, zero, suc, ◌+◌, Bool, not, ◌&&◌, ◌||◌, Option, none, some, List, [], ◌∷◌, map, ltb, ◌==◌,
  nat_eq, if◌then◌else◌, any, length,
}
use gn_drive.Common.Text.{Text, codes, text_eq, trim, to_lowercase, split, parse_u32}
use gn_drive.Cron.Field.{Field, mask_range}

pub data CronError : Type 0 where
  empty : CronError
  bad_field_count : ℕ → CronError
  invalid : Text → CronError

pub data Result {ℓ} (A : Type ℓ) : Type ℓ where
  ok : A → Result A
  err : CronError → Result A

infixl 5 ◌>>=◌
abbrev pub ◌>>=◌ {ℓ κ} : {A : Type ℓ} {B : Type κ} → Result A → (A → Result B) → Result B
ok a >>= f = f a
err e >>= f = err e

abbrev pub month_names : List Text
month_names = map codes (
    "jan" ∷ "feb" ∷ "mar" ∷ "apr" ∷ "may" ∷ "jun" ∷ "jul" ∷ "aug" ∷ "sep" ∷ "oct" ∷ "nov" ∷ "dec"
    ∷ [])

abbrev pub dow_names : List Text
dow_names = map codes ("sun" ∷ "mon" ∷ "tue" ∷ "wed" ∷ "thu" ∷ "fri" ∷ "sat" ∷ [])

-- `names.iter().position(|n| *n == tok)`, counted from `i`.
unfoldable pub position_from : ℕ → Text → List Text → Option ℕ
position_from i tok [] = none
position_from i tok (n ∷ ns) =
    let rest = position_from (i + 1) tok ns in if n == tok then some i else rest

abbrev or_else : Option ℕ → Option ℕ → Option ℕ
or_else none o = o
or_else (some n) o = some n

-- A number, or the index of a name raised by `name_base`.
unfoldable pub parse_bound : Text → List Text → ℕ → Option ℕ
unfolding position_from
parse_bound tok names name_base = or_else (parse_u32 tok) (position_from name_base tok names)

-- What one comma-part stands for: `lo`, `hi` and `step`.
pub record Part : Type 0 where
  pub lo : ℕ
  pub hi : ℕ
  pub step : ℕ

abbrev pub is_star : Text → Bool
is_star range = range == codes "*" || range == codes "?"

abbrev pair_of : Option ℕ → Option ℕ → Option (ℕ × ℕ)
pair_of (some lo) (some hi) = some (lo, hi)
pair_of (some lo) none = none
pair_of none hi = none

module _ (min max : ℕ) (names : List Text) (name_base : ℕ) where
  dash_bounds : List Text → Option (ℕ × ℕ)
  unfolding parse_bound
  dash_bounds (a ∷ b ∷ []) = pair_of (parse_bound a names name_base) (parse_bound b names name_base)
  dash_bounds _ = none

  single_bounds : Option ℕ → Bool → Option (ℕ × ℕ)
  single_bounds none has_step = none
  single_bounds (some lo) has_step = some (lo, if has_step then max else lo)

  -- The three forms of a range: `*` or `?`, `a-b`, and a single bound.
  range_bounds : Text → Bool → Option (ℕ × ℕ)
  unfolding dash_bounds single_bounds
  range_bounds range has_step =
      if is_star range
      then some (min, max)
      else if any (λ c. c == b'-') range
      then dash_bounds (split b'-' range)
      else single_bounds (parse_bound range names name_base) has_step

  checked_part : ℕ → Option (ℕ × ℕ) → Option Part
  checked_part step none = none
  checked_part step (some (lo, hi)) =
      if ltb lo min || ltb max hi || ltb hi lo
      then none
      else some (record { lo = lo; hi = hi; step = step })

  part_with_step : Text → Bool → Option ℕ → Option Part
  unfolding range_bounds checked_part
  part_with_step range has_step none = none
  part_with_step range has_step (some step) =
      if step == 0 then none else checked_part step (range_bounds range has_step)

  part_of_pieces : List Text → Option Part
  unfolding part_with_step
  part_of_pieces [] = none
  part_of_pieces (range ∷ []) = part_with_step range Bool.false (some 1)
  part_of_pieces (range ∷ step ∷ []) = part_with_step range Bool.true (parse_u32 step)
  part_of_pieces (range ∷ step ∷ more ∷ rest) = none

  unfoldable pub parse_part : Text → Option Part
  unfolding part_of_pieces
  parse_part part = part_of_pieces (split b'/' part)

  -- The loop over the comma-parts; the first bad part ends it.
  unfoldable pub parse_parts : List Text → ℕ → Option ℕ
  parse_parts [] mask = some mask
  parse_parts (t ∷ ts) mask = elim (parse_part t) [
    | none ↦ none
    | some p ↦ parse_parts ts (bit_or mask (mask_range p.lo p.hi p.step))
  ]

  field_of_mask : Text → Option ℕ → Result Field
  field_of_mask field none = err (invalid field)
  field_of_mask field (some mask) = ok (record { bits = mask })

  abbrev pub field_parts : Text → List Text
  field_parts field = split b',' (to_lowercase (trim field))

  unfoldable pub parse_field : Text → Result Field
  unfolding field_of_mask
  parse_field field = field_of_mask field (parse_parts (field_parts field) 0)
