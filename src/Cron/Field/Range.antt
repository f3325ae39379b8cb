-- ===== src/Cron/Field/Range.antt =====
-- The values that `mask_range` allows: an arithmetic progression, as long as `v += step` does not
-- wrap at 32 bits.
use Prim.Native.Nat.{bit_or}
use native.Mathlib.Nat.{pow-le-pow_right}
use gn_drive.Common.{
  ℕ, zero, suc, ◌+◌, ◌-◌, ◌*◌, ◌%◌, ◌^◌, ◌≤◌, ◌<◌, ◌≡◌, ◌↔◌, sym, ◌⊎◌, inl, inr, true, leb, arith,
  Bool-cases, leb→le, eqb, eqb_iff,
}
use gn_drive.Common.Bits.{bit, bit-lt, zero-bit, bit-bit_or, bit-pow_self, bit-pow_ne, bit_or-lt}
use gn_drive.Cron.Field.{contains, u32_mod, mask_from, mask_range}
use gn_drive.Cron.Field.Search.{contains-bit, bit-contains}

-- The values `lo`, `lo + step`, `lo + 2 * step`, … up to `hi`.
abbrev pub InProgression : ℕ → ℕ → ℕ → ℕ → Type 0
InProgression lo hi step w = (k : ℕ) × (w ≡ lo + k * step) × (w ≤ hi)

set_bit : (m v w : ℕ) → bit (bit_or m (2 ^ v)) w ≡ 1 → (bit m w ≡ 1) ⊎ (w ≡ v)
set_bit m v w h = elim (Bool-cases (eqb v w)) [
  | inl same ↦ inr (sym ((eqb_iff v w).0 same))
  | inr other ↦
      inl (omega (arith, bit-bit_or m (2 ^ v) w, bit-pow_ne v w (λ e. ground arith), bit-lt m w))
]

old_bit : (m v w : ℕ) → bit m w ≡ 1 → bit (bit_or m (2 ^ v)) w ≡ 1
old_bit m v w h =
    omega (arith, bit-bit_or m (2 ^ v) w, bit-lt (bit_or m (2 ^ v)) w, bit-lt (2 ^ v) w)

new_bit : (m v : ℕ) → bit (bit_or m (2 ^ v)) v ≡ 1
new_bit m v = omega (arith, bit-bit_or m (2 ^ v) v, bit-pow_self v, bit-lt m v)

mask_from-keeps : (fuel hi step v m w : ℕ) → bit m w ≡ 1 → bit (mask_from fuel hi step v m) w ≡ 1
unfolding mask_from
mask_from-keeps zero hi step v m w h = h
mask_from-keeps (suc fuel) hi step v m w h = ground (
  arith,
  mask_from-keeps fuel hi step ((v + step) % u32_mod) (bit_or m (2 ^ v)) w (old_bit m v w h),
)

mask_from-first : (fuel hi step v m : ℕ) → v ≤ hi → bit (mask_from (suc fuel) hi step v m) v ≡ 1
unfolding mask_from
mask_from-first fuel hi step v m h =
    ground (
      arith,
      mask_from-keeps fuel hi step ((v + step) % u32_mod) (bit_or m (2 ^ v)) v (new_bit m v),
    )

-- Whatever the step is, no value above `hi` is set.
mask_from-bounded :
    (fuel hi step v m w : ℕ) → bit (mask_from fuel hi step v m) w ≡ 1 → (bit m w ≡ 1) ⊎ (w ≤ hi)
unfolding mask_from
mask_from-bounded zero hi step v m w h = inl h
mask_from-bounded (suc fuel) hi step v m w h = ground (
  arith,
  mask_from-bounded fuel hi step ((v + step) % u32_mod) (bit_or m (2 ^ v)) w,
  set_bit m v w,
)

mask_from-lt : (fuel hi step v m : ℕ) → hi < 64 → m < 2 ^ 64 → mask_from fuel hi step v m < 2 ^ 64
unfolding mask_from
mask_from-lt zero hi step v m h s = s
mask_from-lt (suc fuel) hi step v m h s = elim (Bool-cases (leb v hi)) [
  | inl more ↦ rw more (
      mask_from-lt fuel hi step ((v + step) % u32_mod) (bit_or m (2 ^ v)) h
        (bit_or-lt 64 m (2 ^ v) s (omega (arith, power (leb→le v hi more)))))
  | inr done ↦ rw done s
]
  where
    power : v ≤ hi → 2 ^ v ≤ 2 ^ 63
    power le = pow-le-pow_right (omega arith) {j = 63} (omega arith)

module _ (hi step : ℕ) (positive : 0 < step) (fits : hi + step < u32_mod) where
  mask_from_complete :
      (fuel v m w k : ℕ)
      → hi < v + fuel
      → w ≡ v + k * step
      → w ≤ hi
      → bit (mask_from fuel hi step v m) w ≡ 1
  unfolding mask_from
  mask_from_complete zero v m w k enough e h = absurd (grind arith)
  mask_from_complete (suc fuel) v m w zero enough e h =
      let same : w ≡ v = omega arith in rw same (mask_from-first fuel hi step v m (omega arith))
  mask_from_complete (suc fuel) v m w (suc k) enough e h =
      let below : v ≤ hi = grind arith in
      let next : (v + step) % u32_mod ≡ v + step = omega arith in
      ground (
        arith,
        next,
        mask_from_complete fuel ((v + step) % u32_mod) (bit_or m (2 ^ v)) w k (omega arith)
            (omega arith) h,
      )

  mask_from_sound :
      (fuel v m w : ℕ)
      → bit (mask_from fuel hi step v m) w ≡ 1
      → (bit m w ≡ 1) ⊎ InProgression v hi step w
  unfolding mask_from
  mask_from_sound zero v m w h = inl h
  mask_from_sound (suc fuel) v m w h = elim (Bool-cases (leb v hi)) [
    | inr done ↦ inl (rw done at h)
    | inl more ↦
        let below : v ≤ hi = leb→le v hi more in
        let next : (v + step) % u32_mod ≡ v + step = omega arith in
        elim (mask_from_sound fuel ((v + step) % u32_mod) (bit_or m (2 ^ v)) w (rw more at h)) [
          | inl old ↦ elim (set_bit m v w old) [
            | inl before ↦ inl before
            | inr here ↦ inr (0, omega arith, omega arith)
          ]
          | inr (k, e, le) ↦ inr (suc k, omega arith, le)
        ]
  ]

-- Every bit that is set stands for a value from the range, whatever the step is.
pub mask_range-bounded : (lo hi step w : ℕ) → bit (mask_range lo hi step) w ≡ 1 → w ≤ hi
unfolding mask_range
mask_range-bounded lo hi step w h = elim (mask_from-bounded (hi + 2) hi step lo 0 w h) [
  | inl old ↦ absurd (omega (arith, zero-bit w))
  | inr le ↦ le
]

pub mask_range-lt : (lo hi step : ℕ) → hi < 64 → mask_range lo hi step < 2 ^ 64
unfolding mask_range
mask_range-lt lo hi step h = mask_from-lt (hi + 2) hi step lo 0 h (omega arith)

pub mask_range-first : (lo hi step : ℕ) → lo ≤ hi → bit (mask_range lo hi step) lo ≡ 1
unfolding mask_range
mask_range-first lo hi step h =
    let two : hi + 2 ≡ suc (hi + 1) = omega arith in
    rw two (mask_from-first (hi + 1) hi step lo 0 h)

-- A range of a field allows exactly the values `lo`, `lo + step`, … up to `hi`, when the step is
-- positive and no addition of it wraps at 32 bits.
pub mask_range-InProgression :
    (lo hi step w : ℕ)
    → hi < 64
    → 0 < step
    → hi + step < u32_mod
    → lo ≤ hi
    → (contains (record { bits = mask_range lo hi step }) w ≡ true) ↔ InProgression lo hi step w
unfolding mask_range
mask_range-InProgression lo hi step w small positive fits le = (
  λ h. elim (mask_from_sound hi step positive fits (hi + 2) lo 0 w (contains-bit _ w h).1) [
    | inl old ↦ absurd (omega (arith, zero-bit w))
    | inr found ↦ found
  ],
  λ p.
      bit-contains _ w (omega (arith, p.2))
        (mask_from_complete hi step positive fits (hi + 2) lo 0 w p.0 (omega arith) p.1 p.2),
)

-- When `v += step` wraps at 32 bits, the range also allows a value below its start.
pub mask_range-wraps :
    (lo hi back : ℕ)
    → hi < 64
    → lo ≤ hi
    → 0 < back
    → back ≤ lo
    → contains (record { bits = mask_range lo hi (u32_mod - back) }) (lo - back) ≡ true
unfolding mask_range mask_from
mask_range-wraps lo hi back small le positive low =
    let two : hi + 2 ≡ suc (suc hi) = omega arith in
    let next : (lo + (u32_mod - back)) % u32_mod ≡ lo - back = omega arith in
    bit-contains _ (lo - back) (omega arith) (
      rw two (
        ground (
          arith,
          next,
          mask_from-first hi hi (u32_mod - back) (lo - back) (bit_or 0 (2 ^ lo)) (omega arith),
        )))
