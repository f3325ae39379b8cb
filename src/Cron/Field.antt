-- ===== src/Cron/Field.antt =====
-- crates/gn-drive-core/src/cron.rs: `Field`, a bit mask of the allowed values of one cron field,
-- and `mask_range`, the loop that fills it.
pub mod Search
pub mod Range
use Prim.Native.Nat.{bit_or}
use gn_drive.Common.{
  ℕ, zero, suc, ◌+◌, ◌/◌, ◌%◌, ◌^◌, Bool, ◌&&◌, Option, none, some, ltb, leb, ◌==◌, nat_eq,
  if◌then◌else◌,
}
use gn_drive.Common.Bits.{bit, trailing_zeros}

-- `struct Field(u64)`.
pub record Field : Type 0 where
  pub bits : ℕ

unfoldable pub contains : Field → ℕ → Bool
contains f v = ltb v 64 && bit f.bits v == 1

-- The first allowed value that is at least `v`.
unfoldable pub at_or_after : Field → ℕ → Option ℕ
at_or_after f v =
    if leb 64 v
    then none
    else (let m = f.bits / 2 ^ v in if m == 0 then none else some (v + trailing_zeros 64 m))

abbrev pub u32_mod : ℕ
u32_mod = 2 ^ 32

-- The `while v <= hi` loop of `mask_range`; `v += step` wraps at 32 bits, as in a release build.
unfoldable pub mask_from : ℕ → ℕ → ℕ → ℕ → ℕ → ℕ
mask_from zero hi step v m = m
mask_from (suc fuel) hi step v m =
    let rest = mask_from fuel hi step ((v + step) % u32_mod) (bit_or m (2 ^ v)) in
    if leb v hi then rest else m

-- `hi + 2` rounds suffice: `v` only grows until it passes `hi`, or only falls until it wraps.
unfoldable pub mask_range : ℕ → ℕ → ℕ → ℕ
unfolding mask_from
mask_range lo hi step = mask_from (hi + 2) hi step lo 0
