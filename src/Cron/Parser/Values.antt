-- ===== src/Cron/Parser/Values.antt =====
-- Which values a parsed field allows: those of the progressions that its comma-parts denote.
use Prim.Native.Nat.{bit_or}
use gn_drive.Common.{
  ℕ, ◌+◌, ◌≤◌, ◌<◌, ◌≡◌, true, Option, none, some, List, [], ◌∷◌, arith, Bool-cases, Option-cases,
  ◌⊎◌, inl, inr, ◌==◌, nat_eq, ◌↔◌,
}
use gn_drive.Common.Bits.{bit, bit-lt, zero-bit, bit-bit_or}
use gn_drive.Common.Text.{Text}
use gn_drive.Cron.Field.{Field, contains, mask_range, u32_mod}
use gn_drive.Cron.Field.Search.{contains-bit, bit-contains}
use gn_drive.Cron.Field.Range.{InProgression, mask_range-InProgression, mask_range-bounded}
use gn_drive.Cron.Parser.{
  Part, ok, parse_part, parse_parts, field_of_mask, parse_field, field_parts,
}
use gn_drive.Cron.Parser.Bounds.{
  PartIsValid, part_mask, parse_part-PartIsValid, parse_parts-some, parse_parts-none,
}

-- The value lies in the progression of the part, and the part did parse.
abbrev pub Denotes : Option Part → ℕ → Type 0
Denotes none w = ⊥
Denotes (some p) w = InProgression p.lo p.hi p.step w

-- Adding the step to a value of the range stays below 2 ^ 32.
abbrev pub StepFits : Option Part → Type 0
StepFits none = Unit
StepFits (some p) = p.hi + p.step < u32_mod

module _ (min max : ℕ) (names : List Text) (name_base : ℕ) where
  abbrev pub AllowedBy : List Text → ℕ → Type 0
  AllowedBy [] w = ⊥
  AllowedBy (t ∷ ts) w = Denotes (parse_part min max names name_base t) w ⊎ AllowedBy ts w

  abbrev pub StepsFit : List Text → Type 0
  StepsFit [] = Unit
  StepsFit (t ∷ ts) = StepFits (parse_part min max names name_base t) × StepsFit ts

  denoted_le : (t : Text) (w : ℕ) → Denotes (parse_part min max names name_base t) w → w ≤ max
  denoted_le t w d = elim (Option-cases (parse_part min max names name_base t)) [
    | inl bad ↦ absurd (rw bad at d)
    | inr (p, good) ↦
        let here : InProgression p.lo p.hi p.step w = rw good at d in
        omega (arith, here.2, (parse_part-PartIsValid min max names name_base t good).high)
  ]

  AllowedBy-le : (ts : List Text) (w : ℕ) → AllowedBy ts w → w ≤ max
  AllowedBy-le [] w d = absurd d
  AllowedBy-le (t ∷ ts) w (inl here) = denoted_le t w here
  AllowedBy-le (t ∷ ts) w (inr later) = AllowedBy-le ts w later

  module _ (small : max < 64) where
    part_bit :
        (p : Part) (w : ℕ)
        → PartIsValid min max p
        → p.hi + p.step < u32_mod
        → (bit (mask_range p.lo p.hi p.step) w ≡ 1) ↔ InProgression p.lo p.hi p.step w
    part_bit p w v fits =
        let iff =
          mask_range-InProgression p.lo p.hi p.step w (omega (arith, v.high)) v.positive fits
            v.ordered in
        (
          λ b.
              iff.0 (
                bit-contains _ w (omega (arith, v.high, mask_range-bounded p.lo p.hi p.step w b))
                  b),
          λ d. (contains-bit _ w (iff.1 d)).1,
        )

    or_cases : (a b w : ℕ) → bit (bit_or a b) w ≡ 1 → (bit a w ≡ 1) ⊎ (bit b w ≡ 1)
    or_cases a b w h = elim (Bool-cases (bit a w == 1)) [
      | inl left ↦ inl (ground arith)
      | inr right ↦ inr (ground (arith, bit-bit_or a b w, bit-lt a w, bit-lt b w))
    ]

    or_left : (a b w : ℕ) → bit a w ≡ 1 → bit (bit_or a b) w ≡ 1
    or_left a b w h = omega (arith, bit-bit_or a b w, bit-lt b w)

    or_right : (a b w : ℕ) → bit b w ≡ 1 → bit (bit_or a b) w ≡ 1
    or_right a b w h = omega (arith, bit-bit_or a b w, bit-lt a w)

    abbrev Splits : List Text → ℕ → ℕ → ℕ → Type 0
    Splits ts mask w m = (bit m w ≡ 1) ↔ ((bit mask w ≡ 1) ⊎ AllowedBy ts w)

    parse_parts_iff :
        (ts : List Text) (mask w : ℕ) {m : ℕ}
        → parse_parts min max names name_base ts mask ≡ some m
        → StepsFit ts
        → Splits ts mask w m
    parse_parts_iff [] mask w {m} h fit =
        let same : mask ≡ m = unfold parse_parts in ground arith in
        (
          λ b. inl (rw same b),
          λ d. elim d [ inl b ↦ rw (← same) b | inr none_left ↦ absurd none_left ],
        )
    parse_parts_iff (t ∷ ts) mask w {m} h fit =
        elim (Option-cases (parse_part min max names name_base t)) [
          | inl bad ↦ absurd (parse_parts-none min max names name_base t ts mask m bad h)
          | inr (p, good) ↦
              let step_fits : StepFits (some p) = rw good at fit.0 in
              let here =
                part_bit p w (parse_part-PartIsValid min max names name_base t good) step_fits in
              let later =
                parse_parts_iff ts (bit_or mask (part_mask min max names name_base p)) w
                  (parse_parts-some min max names name_base t ts mask good h) fit.1 in
              (
                λ b. elim (later.0 b) [
                  | inl set ↦ elim (or_cases _ _ w set) [
                    | inl old ↦ inl old
                    | inr new ↦ inr (inl (rw good (here.0 new)))
                  ]
                  | inr rest ↦ inr (inr rest)
                ],
                λ d. later.1 (elim d [
                  | inl old ↦ inl (or_left mask (mask_range p.lo p.hi p.step) w old)
                  | inr (inl new) ↦
                      inl (or_right mask (mask_range p.lo p.hi p.step) w (here.1 (rw good at new)))
                  | inr (inr rest) ↦ inr rest
                ]),
              )
        ]

    -- An accepted field allows exactly the values that one of its comma-parts denotes, when no
    -- part's step wraps at 32 bits.
    pub parse_field-AllowedBy :
        (field : Text) (w : ℕ) {f : Field}
        → parse_field min max names name_base field ≡ ok f
        → StepsFit (field_parts min max names name_base field)
        → (contains f w ≡ true) ↔ AllowedBy (field_parts min max names name_base field) w
    unfolding parse_field field_of_mask
    parse_field-AllowedBy field w {f} h fit =
        elim (Option-cases (parse_parts min max names name_base parts 0)) [
          | inl bad ↦ absurd (ground arith)
          | inr (m, good) ↦
              let both = parse_parts_iff parts 0 w good fit in
              let same : m ≡ f.bits = ground arith in
              (
                λ c. elim (both.0 (rw same (contains-bit f w c).1)) [
                  | inl old ↦ absurd (omega (arith, zero-bit w))
                  | inr found ↦ found
                ],
                λ d. bit-contains f w (in_range d) (rw (← same) (both.1 (inr d))),
              )
        ]
      where
        parts : List Text
        parts = field_parts min max names name_base field

        in_range : AllowedBy parts w → w < 64
        in_range d = omega (arith, AllowedBy-le parts w d)
