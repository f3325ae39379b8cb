-- ===== src/Cron/Field/Search.antt =====
-- Lookup in a field: `contains` reads one bit, `at_or_after` finds the next allowed value.
use Prim.Native.Nat.{ℕ}
use gn_drive.Common.{
  ℕ, ◌+◌, ◌-◌, ◌/◌, ◌^◌, ◌≤◌, ◌<◌, ◌≡◌, sym, ap, ◌∙◌, true, false, Option, none, some, leb, ltb,
  ltb→lt, leb→le, ◌==◌, nat_eq, arith, Bool-cases, inl, inr,
}
use gn_drive.Common.Bits.{
  bit, bit-above, zero-bit, bit-shift, trailing_zeros, bit-trailing_zeros, bit-lt-trailing_zeros,
}
use gn_drive.Cron.Field.{Field, contains, at_or_after}

pub contains-bit : (f : Field) (v : ℕ) → contains f v ≡ true → (v < 64) × (bit f.bits v ≡ 1)
unfolding contains
contains-bit f v h = ground arith

pub bit-contains : (f : Field) (v : ℕ) → v < 64 → bit f.bits v ≡ 1 → contains f v ≡ true
unfolding contains
bit-contains f v h e = ground arith

pub not-contains : (f : Field) (v : ℕ) → bit f.bits v ≡ 0 → contains f v ≡ false
unfolding contains
not-contains f v e = ground arith

-- What `at_or_after f v` promises: the result is the least allowed value from `v` on, if any is.
abbrev pub IsNext : Field → ℕ → Option ℕ → Type 0
IsNext f v none = (u : ℕ) → v ≤ u → contains f u ≡ false
IsNext f v (some w) =
    (v ≤ w) × (contains f w ≡ true) × ((u : ℕ) → v ≤ u → u < w → contains f u ≡ false)

beyond : (f : Field) (v u : ℕ) → 64 ≤ v → v ≤ u → contains f u ≡ false
unfolding contains
beyond f v u h p = ground arith

-- Bits from `v` on, as the bits of the shifted mask.
shifted : (f : Field) (v u : ℕ) → v ≤ u → bit (f.bits / 2 ^ v) (u - v) ≡ bit f.bits u
shifted f v u h = bit-shift v f.bits (u - v) ∙ ap (bit f.bits) (omega arith)

none_above : (f : Field) (v u : ℕ) → f.bits / 2 ^ v ≡ 0 → v ≤ u → contains f u ≡ false
none_above f v u e h =
    not-contains f u (sym (shifted f v u h) ∙ ap (λ (t : ℕ). bit t (u - v)) e ∙ zero-bit (u - v))

module _ (f : Field) (v : ℕ) (small : f.bits < 2 ^ 64) (some_bit : 0 < f.bits / 2 ^ v) where
  abbrev skip : ℕ
  skip = trailing_zeros 64 (f.bits / 2 ^ v)

  found_bit : bit f.bits (v + skip) ≡ 1
  found_bit =
      sym (bit-shift v f.bits skip) ∙ bit-trailing_zeros 64 (f.bits / 2 ^ v) some_bit (omega arith)

  skipped : (u : ℕ) → v ≤ u → u < v + skip → contains f u ≡ false
  skipped u h l =
      not-contains f u
        (sym (shifted f v u h) ∙ bit-lt-trailing_zeros 64 (f.bits / 2 ^ v) (u - v) (omega arith))

  found_small : v + skip < 64
  found_small = elim (Bool-cases (ltb (v + skip) 64)) [
    | inl below ↦ ltb→lt _ _ below
    | inr above ↦
        absurd (omega (arith, found_bit, bit-above 64 f.bits (v + skip) small (ground arith)))
  ]

  found-IsNext : IsNext f v (some (v + skip))
  found-IsNext = (omega arith, bit-contains f (v + skip) found_small found_bit, skipped)

pub at_or_after-IsNext : (f : Field) (v : ℕ) → f.bits < 2 ^ 64 → IsNext f v (at_or_after f v)
unfolding at_or_after
at_or_after-IsNext f v small = elim (Bool-cases (leb 64 v)) [
  | inl far ↦ rw far (λ u h. beyond f v u (leb→le _ _ far) h)
  | inr near ↦ rw near (elim (Bool-cases (f.bits / 2 ^ v == 0)) [
    | inl empty ↦ rw empty (λ u h. none_above f v u (ground arith) h)
    | inr full ↦ rw full (found-IsNext f v small (ground arith))
  ])
]
