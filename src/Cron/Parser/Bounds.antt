-- ===== src/Cron/Parser/Bounds.antt =====
-- A parsed field allows at least one value of its range, and none above it.
use Prim.Native.Nat.{bit_or}
use gn_drive.Common.{
  ℕ, ◌^◌, ◌≤◌, ◌<◌, ◌≡◌, refl, Bool, true, false, Option, none, some, List, [], ◌∷◌, arith,
  Bool-cases, Option-cases, ◌⊎◌, inl, inr, ◌==◌, nat_eq,
}
use mathlib.Core.Path.{subst}
use gn_drive.Common.Bits.{bit, bit-lt, zero-bit, bit-bit_or, bit_or-lt}
use gn_drive.Common.Text.{Text, split, parse_u32, trim, to_lowercase}
use gn_drive.Cron.Field.{Field, contains, mask_range}
use gn_drive.Cron.Field.Search.{contains-bit, bit-contains}
use gn_drive.Cron.Field.Range.{mask_range-bounded, mask_range-lt, mask_range-first}
use gn_drive.Cron.Parser.{
  Part, ok, checked_part, range_bounds, part_with_step, part_of_pieces, parse_part, parse_parts,
  field_of_mask, parse_field, field_parts,
}

-- A part lies in the range of its field, and its step is positive.
pub record PartIsValid (min max : ℕ) (p : Part) : Type 0 where
  pub low : min ≤ p.lo
  pub ordered : p.lo ≤ p.hi
  pub high : p.hi ≤ max
  pub positive : 0 < p.step

pub record FieldIsValid (min max : ℕ) (f : Field) : Type 0 where
  pub fits : f.bits < 2 ^ 64
  pub upper : (v : ℕ) → contains f v ≡ true → v ≤ max
  pub inhabited : (v : ℕ) × (min ≤ v) × (v ≤ max) × (contains f v ≡ true)

split-cons : (sep : ℕ) (s : Text) → (p : Text) × (ps : List Text) × (split sep s ≡ p ∷ ps)
unfolding split
split-cons sep [] = ([], [], refl)
split-cons sep (c ∷ s) =
    let (q, qs, e) = split-cons sep s in
    elim (Bool-cases (c == sep)) [
      | inl yes_sep ↦ ([], split sep s, rw yes_sep)
      | inr no_sep ↦ (c ∷ q, qs, rw (no_sep, e))
    ]

module _ (min max : ℕ) (names : List Text) (name_base : ℕ) where
  checked_part-valid :
      (step : ℕ) (bounds : Option (ℕ × ℕ)) {p : Part}
      → 0 < step
      → checked_part min max names name_base step bounds ≡ some p
      → PartIsValid min max p
  unfolding checked_part
  checked_part-valid step none pos h = ground arith
  checked_part-valid step (some (lo, hi)) pos h = ground arith

  part_with_step-valid :
      (range : Text) (has_step : Bool) (step : Option ℕ) {p : Part}
      → part_with_step min max names name_base range has_step step ≡ some p
      → PartIsValid min max p
  unfolding part_with_step
  part_with_step-valid range has_step none h = ground arith
  part_with_step-valid range has_step (some step) h = elim (Bool-cases (step == 0)) [
    | inl stopped ↦ absurd (ground arith)
    | inr going ↦
        checked_part-valid step (range_bounds min max names name_base range has_step) (ground arith)
          (rw going at h)
  ]

  part_of_pieces-valid :
      (pieces : List Text) {p : Part}
      → part_of_pieces min max names name_base pieces ≡ some p
      → PartIsValid min max p
  unfolding part_of_pieces
  part_of_pieces-valid [] h = ground arith
  part_of_pieces-valid (range ∷ []) h = part_with_step-valid range false (some 1) h
  part_of_pieces-valid (range ∷ step ∷ []) h = part_with_step-valid range true (parse_u32 step) h
  part_of_pieces-valid (range ∷ step ∷ more ∷ rest) h = ground arith

  pub parse_part-PartIsValid :
      (t : Text) {p : Part} → parse_part min max names name_base t ≡ some p → PartIsValid min max p
  unfolding parse_part
  parse_part-PartIsValid t h = part_of_pieces-valid _ h

  abbrev pub part_mask : Part → ℕ
  part_mask p = mask_range p.lo p.hi p.step

  -- One step of the loop, by what the part parses to.
  pub parse_parts-some :
      (t : Text) (ts : List Text) (mask : ℕ) {p : Part} {m : ℕ}
      → parse_part min max names name_base t ≡ some p
      → parse_parts min max names name_base (t ∷ ts) mask ≡ some m
      → parse_parts min max names name_base ts (bit_or mask (part_mask p)) ≡ some m
  unfolding parse_parts
  parse_parts-some t ts mask e h = ground arith

  pub parse_parts-none :
      (t : Text) (ts : List Text) (mask m : ℕ)
      → parse_part min max names name_base t ≡ none
      → parse_parts min max names name_base (t ∷ ts) mask ≡ some m
      → ⊥
  unfolding parse_parts
  parse_parts-none t ts mask m e h = ground arith

  parse_parts-keeps :
      (ts : List Text) (mask w : ℕ) {m : ℕ}
      → parse_parts min max names name_base ts mask ≡ some m
      → bit mask w ≡ 1
      → bit m w ≡ 1
  parse_parts-keeps [] mask w h b = unfold parse_parts in ground arith
  parse_parts-keeps (t ∷ ts) mask w {m} h b =
      elim (Option-cases (parse_part min max names name_base t)) [
        | inl bad ↦ absurd (parse_parts-none t ts mask m bad h)
        | inr (p, good) ↦
            parse_parts-keeps ts (bit_or mask (part_mask p)) w (parse_parts-some t ts mask good h)
              (omega (arith, bit-bit_or mask (part_mask p) w, bit-lt (part_mask p) w))
      ]

  module _ (small : max < 64) where
    parse_parts-lt :
        (ts : List Text) (mask : ℕ) {m : ℕ}
        → parse_parts min max names name_base ts mask ≡ some m
        → mask < 2 ^ 64
        → m < 2 ^ 64
    parse_parts-lt [] mask h b = unfold parse_parts in ground arith
    parse_parts-lt (t ∷ ts) mask {m} h b =
        elim (Option-cases (parse_part min max names name_base t)) [
          | inl bad ↦ absurd (parse_parts-none t ts mask m bad h)
          | inr (p, good) ↦
              let v = parse_part-PartIsValid t good in
              parse_parts-lt ts (bit_or mask (part_mask p)) (parse_parts-some t ts mask good h) (
                bit_or-lt 64 mask (part_mask p) b
                  (mask_range-lt p.lo p.hi p.step (omega (arith, v.high))))
        ]

    parse_parts-bounded :
        (ts : List Text) (mask w : ℕ) {m : ℕ}
        → parse_parts min max names name_base ts mask ≡ some m
        → bit m w ≡ 1
        → (bit mask w ≡ 1) ⊎ (w ≤ max)
    parse_parts-bounded [] mask w h b = inl (unfold parse_parts in ground arith)
    parse_parts-bounded (t ∷ ts) mask w {m} h b =
        elim (Option-cases (parse_part min max names name_base t)) [
          | inl bad ↦ absurd (parse_parts-none t ts mask m bad h)
          | inr (p, good) ↦
              let v = parse_part-PartIsValid t good in
              elim (parse_parts-bounded ts (bit_or mask (part_mask p)) w
                (parse_parts-some t ts mask good h) b) [
                  | inr le ↦ inr le
                  | inl set ↦ elim (Bool-cases (bit mask w == 1)) [
                    | inl old ↦ inl (ground arith)
                    | inr fresh ↦ inr (
                        omega (
                          arith,
                          v.high,
                          mask_range-bounded p.lo p.hi p.step w (
                              ground (
                                arith,
                                bit-bit_or mask (part_mask p) w,
                                bit-lt mask w,
                                bit-lt (part_mask p) w,
                              )),
                        ))
                  ]
                ]
        ]

    field_valid :
        (ts : List Text) (t : Text) (m : ℕ)
        → parse_parts min max names name_base (t ∷ ts) 0 ≡ some m
        → FieldIsValid min max (record { bits = m })
    field_valid ts t m h = elim (Option-cases (parse_part min max names name_base t)) [
      | inl bad ↦ absurd (parse_parts-none t ts 0 m bad h)
      | inr (p, good) ↦
          let v = parse_part-PartIsValid t good in
          let first = mask_range-first p.lo p.hi p.step v.ordered in
          record {
            fits = parse_parts-lt (t ∷ ts) 0 h (omega arith);
            upper = λ w c. elim (parse_parts-bounded (t ∷ ts) 0 w h (contains-bit _ w c).1) [
              | inl old ↦ absurd (omega (arith, zero-bit w))
              | inr le ↦ le
            ];
            inhabited = (
              p.lo,
              v.low,
              omega (arith, v.ordered, v.high),
              bit-contains _ p.lo (omega (arith, v.ordered, v.high)) (
                  parse_parts-keeps ts (bit_or 0 (part_mask p)) p.lo
                    (parse_parts-some t ts 0 good h)
                    (omega (arith, bit-bit_or 0 (part_mask p) p.lo, bit-lt 0 p.lo, first))),
            );
          }
    ]

    -- A field that `parse_field` accepts fits in 64 bits, allows no value above `max`, and
    -- allows at least one value from `min` to `max`.
    pub parse_field-FieldIsValid :
        (field : Text) {f : Field}
        → parse_field min max names name_base field ≡ ok f
        → FieldIsValid min max f
    unfolding parse_field field_of_mask
    parse_field-FieldIsValid field {f} h =
        let (t, ts, e) = split-cons b',' (to_lowercase (trim field)) in
        elim (Option-cases (parse_parts min max names name_base (t ∷ ts) 0)) [
          | inl bad ↦ absurd (failed t ts e bad)
          | inr (m, good) ↦
              subst (FieldIsValid min max) (same t ts m e good) (field_valid ts t m good)
        ]
      where
        failed :
            (t : Text) (ts : List Text)
            → field_parts min max names name_base field ≡ t ∷ ts
            → parse_parts min max names name_base (t ∷ ts) 0 ≡ none
            → ⊥
        failed t ts e bad = ground arith

        same :
            (t : Text) (ts : List Text) (m : ℕ)
            → field_parts min max names name_base field ≡ t ∷ ts
            → parse_parts min max names name_base (t ∷ ts) 0 ≡ some m
            → ◌≡◌ {A = Field} (record { bits = m }) f
        same t ts m e good = ground arith
