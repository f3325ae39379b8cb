-- ===== src/Common/Text/Decimal.antt =====
-- Decimal numerals, `to_string` and `str::parse::<i64>`. `show_from` runs on fuel: the number plus
-- one is enough, since each round divides by ten.
use Prim.Native.Nat.{ℕ, zero, suc, ◌+◌, ◌-◌, ◌*◌, ◌/◌, ◌%◌, ◌^◌, ◌<◌}
use mathlib.Core.Path.{◌≡◌, refl, sym, ap, ◌∙◌}
use mathlib.Core.Bool.{true}
use mathlib.Core.Option.{Option, none, some}
use mathlib.Core.List.{[], ◌∷◌}
use mathlib.Core.Logic.{inl, inr}
use native.Mathlib.Omega.{arith}
use gn_drive.Common.Tests.{ltb, if◌then◌else◌, Bool-cases}
use gn_drive.Common.Eq.{◌==◌, nat_eq}
use gn_drive.Common.Text.{Text, digits, digits_from, is_digit}

-- A signed number: `negsuc n` is -(n + 1).
pub data ℤ : Type 0 where
  pos : ℕ → ℤ
  negsuc : ℕ → ℤ

unfoldable pub show_from : ℕ → ℕ → Text → Text
show_from zero n acc = acc
show_from (suc fuel) n acc =
    let rest = show_from fuel (n / 10) ((n % 10 + 48) ∷ acc) in
    if ltb n 10 then (n + 48) ∷ acc else rest

unfoldable pub show : ℕ → Text
unfolding show_from
show n = show_from (suc n) n []

unfoldable pub show_i64 : ℤ → Text
unfolding show
show_i64 (pos n) = show n
show_i64 (negsuc n) = b'-' ∷ show (suc n)

abbrev pub within_i64 : Option ℕ → Option ℤ
within_i64 none = none
within_i64 (some n) = if ltb n (2 ^ 63) then some (pos n) else none

abbrev pub negated : Option ℕ → Option ℤ
negated none = none
negated (some zero) = some (pos 0)
negated (some (suc n)) = if ltb n (2 ^ 63) then some (negsuc n) else none

-- `str::parse::<i64>`: an optional sign, at least one digit, no overflow.
unfoldable pub parse_i64 : Text → Option ℤ
unfolding digits
parse_i64 [] = none
parse_i64 (c ∷ s) =
    if c == b'-'
    then negated (digits s)
    else within_i64 (if c == b'+' then digits s else digits (c ∷ s))

digit_step :
    (v d : ℕ) (s : Text) → d < 10 → digits_from v ((d + 48) ∷ s) ≡ digits_from (v * 10 + d) s
unfolding digits_from
digit_step v d s h =
    let exact : v * 10 + (d + 48 - 48) ≡ v * 10 + d = omega arith in rw exact (ground arith)

pub digits_from-show_from :
    (fuel n : ℕ) (acc : Text) → n < fuel → digits_from 0 (show_from fuel n acc) ≡ digits_from n acc
unfolding show_from
digits_from-show_from zero n acc h = absurd (omega arith)
digits_from-show_from (suc fuel) n acc h = elim (Bool-cases (ltb n 10)) [
  | inl small ↦
      let alone : 0 * 10 + n ≡ n = omega arith in
      rw (small, digit_step 0 n acc (ground arith), alone) refl
  | inr large ↦
      let joined : n / 10 * 10 + n % 10 ≡ n = omega arith in
      rw
        (
          large,
          digits_from-show_from fuel (n / 10) ((n % 10 + 48) ∷ acc) (ground arith),
          digit_step (n / 10) (n % 10) acc (omega arith),
          joined,
        )
        refl
]

-- The text is a digit followed by some text.
abbrev pub StartsWithDigit : Text → Type 0
StartsWithDigit s = (c : ℕ) × ((t : Text) × ((s ≡ c ∷ t) × (is_digit c ≡ true)))

pub show_from-StartsWithDigit :
    (fuel n : ℕ) (acc : Text) → n < fuel → StartsWithDigit (show_from fuel n acc)
unfolding show_from
show_from-StartsWithDigit zero n acc h = absurd (omega arith)
show_from-StartsWithDigit (suc fuel) n acc h = elim (Bool-cases (ltb n 10)) [
  | inl small ↦ rw small (n + 48, (acc, (refl, ground arith)))
  | inr large ↦
      rw large (show_from-StartsWithDigit fuel (n / 10) ((n % 10 + 48) ∷ acc) (ground arith))
]

-- A number below 2^63 is read back from its numeral.
pub parse_i64-show : (n : ℕ) → n < 2 ^ 63 → parse_i64 (show n) ≡ some (pos n)
unfolding parse_i64 show
parse_i64-show n h =
    let (c, (t, (shown, digit))) = show_from-StartsWithDigit (suc n) n [] (omega arith) in
    let back : digits (c ∷ t) ≡ some n =
      ap (λ (s : Text). digits_from 0 s) (sym shown)
      ∙ digits_from-show_from (suc n) n [] (omega arith) in
    rw (shown, back) (ground arith)
