-- ===== src/Common/Bits.antt =====
-- The bits of a native number: `bit m v` is bit `v` of `m`, and how `|` and `1 << v` act on them.
use Prim.Native.Nat.{
  ℕ, zero, suc, ◌+◌, ◌-◌, ◌*◌, ◌/◌, ◌%◌, ◌^◌, ◌≤◌, ◌<◌, max, compare, Ordering, bit_and, bit_or,
  digits, bit_and-bitwise, bit_or-bitwise, min, bit_xor, bit_xor-bitwise, differ,
}
use mathlib.Core.Path.{◌≡◌, refl, sym, ap, subst, ◌∙◌}
use mathlib.Core.Logic.{◌≢◌}
use native.Mathlib.Omega.{arith}
use native.Mathlib.Nat.{pow-suc, pow-succ', div-div-eq-div-mul, pow-le-pow_right, div-eq_of_lt}

unfoldable pub bit : ℕ → ℕ → ℕ
bit m v = m / 2 ^ v % 2

pub bit-zero : (m : ℕ) → bit m 0 ≡ m % 2
unfolding bit
bit-zero m = omega arith

pub bit-suc : (m v : ℕ) → bit m (suc v) ≡ bit (m / 2) v
unfolding bit
bit-suc m v =
    ap (λ (t : ℕ). t % 2)
      (ap (λ (t : ℕ). m / t) (pow-succ' 2 v) ∙ sym (div-div-eq-div-mul m 2 (2 ^ v)))

pub bit-lt : (m v : ℕ) → bit m v < 2
unfolding bit
bit-lt m v = omega arith

pub zero-bit : (v : ℕ) → bit 0 v ≡ 0
zero-bit zero = omega (arith, bit-zero 0)
zero-bit (suc v) = bit-suc 0 v ∙ zero-bit v

-- A native operation recurses on the digits of `a` with `a` units of fuel. Below, `tail` stands for
-- what it does with the rest of `b` when `a` has run out, and `pair` for what it does with two digits.
module _ (tail : ℕ → ℕ) (pair : ℕ → ℕ → ℕ) where
  zero_digits : (fuel b : ℕ) → digits tail pair fuel 0 b ≡ tail b
  zero_digits zero b = refl
  zero_digits (suc fuel) b = refl

  digits_more_fuel :
      (extra fuel a b : ℕ)
      → a ≤ fuel
      → digits tail pair (fuel + extra) a b ≡ digits tail pair fuel a b
  digits_more_fuel extra fuel zero b h = zero_digits (fuel + extra) b ∙ sym (zero_digits fuel b)
  digits_more_fuel extra zero (suc a) b h = absurd (omega arith)
  digits_more_fuel extra (suc fuel) (suc a) b h =
      let grown : suc fuel + extra ≡ suc (fuel + extra) = omega arith in
      rw grown (omega (arith, digits_more_fuel extra fuel (suc a / 2) (b / 2) (omega arith)))

  lowest_digit :
      (op : ℕ → ℕ → ℕ)
      → ((a b : ℕ) → op a b ≡ digits tail pair a a b)
      → ((b : ℕ) → tail b ≡ tail (b / 2) * 2 + pair 0 (b % 2))
      → (a b : ℕ) → op a b ≡ op (a / 2) (b / 2) * 2 + pair (a % 2) (b % 2)
  lowest_digit op law rest zero b = rw (law 0 b, law 0 (b / 2)) (rest b)
  lowest_digit op law rest (suc a) b =
      let half : ℕ = suc a / 2 in
      let spare : half + (a - half) ≡ a = omega arith in
      let same : digits tail pair a half (b / 2) ≡ digits tail pair half half (b / 2) =
        subst (λ n. digits tail pair n half (b / 2) ≡ digits tail pair half half (b / 2)) spare
          (digits_more_fuel (a - half) half half (b / 2) (omega arith)) in
      rw (law (suc a) b, law half (b / 2), ← same) refl

zero-bit_or : (b : ℕ) → bit_or 0 b ≡ b
zero-bit_or b = bit_or-bitwise 0 b

bit_or-digit : (m k : ℕ) → bit_or m k ≡ bit_or (m / 2) (k / 2) * 2 + max (m % 2) (k % 2)
bit_or-digit = lowest_digit (λ b. b) max bit_or bit_or-bitwise (λ b. omega arith)

bit_or-halves : (a b : ℕ) → bit_or a b / 2 ≡ bit_or (a / 2) (b / 2)
bit_or-halves a b = omega (arith, bit_or-digit a b)

pub bit-bit_or : (a b v : ℕ) → bit (bit_or a b) v ≡ max (bit a v) (bit b v)
bit-bit_or a b zero = omega (arith, bit_or-digit a b, bit-zero (bit_or a b), bit-zero a, bit-zero b)
bit-bit_or a b (suc v) =
    rw (bit-suc (bit_or a b) v, bit-suc a v, bit-suc b v, bit_or-halves)
      (bit-bit_or (a / 2) (b / 2) v)

half-pow_suc : (v : ℕ) → 2 ^ suc v / 2 ≡ 2 ^ v
half-pow_suc v = omega (arith, pow-suc 2 v)

pub bit-pow_self : (v : ℕ) → bit (2 ^ v) v ≡ 1
bit-pow_self zero = omega (arith, bit-zero 1)
bit-pow_self (suc v) = rw (bit-suc, half-pow_suc) (bit-pow_self v)

pub bit-pow_ne : (v w : ℕ) → v ≢ w → bit (2 ^ v) w ≡ 0
bit-pow_ne zero zero h = absurd (h refl)
bit-pow_ne zero (suc w) h = bit-suc 1 w ∙ zero-bit w
bit-pow_ne (suc v) zero h = omega (arith, bit-zero (2 ^ suc v), pow-suc 2 v)
bit-pow_ne (suc v) (suc w) h = rw (bit-suc, half-pow_suc) (bit-pow_ne v w (λ e. h (ap suc e)))

pub bit-shift : (v m k : ℕ) → bit (m / 2 ^ v) k ≡ bit m (v + k)
bit-shift zero m k =
    let e : m / 2 ^ 0 ≡ m = omega arith in let z : 0 + k ≡ k = omega arith in rw (e, z)
bit-shift (suc v) m k =
    rw (pow-succ' 2 v, ← div-div-eq-div-mul m 2 (2 ^ v), bit-shift v (m / 2) k, ← bit-suc m (v + k))
      (ap (bit m) (omega arith))

pub bit_or-lt : (n a b : ℕ) → a < 2 ^ n → b < 2 ^ n → bit_or a b < 2 ^ n
bit_or-lt zero zero b p q = omega (arith, zero-bit_or b)
bit_or-lt zero (suc a) b p q = absurd (omega arith)
bit_or-lt (suc n) a b p q = omega (
  arith,
  bit_or-digit a b,
  pow-suc 2 n,
  bit_or-lt n (a / 2) (b / 2) (omega (arith, pow-suc 2 n)) (omega (arith, pow-suc 2 n)),
)

-- The number of zeros below the lowest one bit, among `width` bits.
unfoldable pub trailing_zeros : ℕ → ℕ → ℕ
trailing_zeros zero m = 0
trailing_zeros (suc width) m = elim (compare (m % 2) 1) [
  | Ordering.eq ↦ 0
  | _ ↦ suc (trailing_zeros width (m / 2))
]

pub bit-trailing_zeros : (n m : ℕ) → 0 < m → m < 2 ^ n → bit m (trailing_zeros n m) ≡ 1
unfolding trailing_zeros
bit-trailing_zeros zero m p q = absurd (omega arith)
bit-trailing_zeros (suc n) m p q = ground (
  arith,
  pow-suc 2 n,
  bit-zero m,
  bit-suc m (trailing_zeros n (m / 2)),
  bit-trailing_zeros n (m / 2),
)

pub bit-lt-trailing_zeros : (n m k : ℕ) → k < trailing_zeros n m → bit m k ≡ 0
unfolding trailing_zeros
bit-lt-trailing_zeros zero m k h = elim h [ ]
bit-lt-trailing_zeros (suc n) m zero h = ground (arith, bit-zero m)
bit-lt-trailing_zeros (suc n) m (suc k) h =
    ground (arith, bit-suc m k, bit-lt-trailing_zeros n (m / 2) k)

pub trailing_zeros-le : (n m : ℕ) → trailing_zeros n m ≤ n
unfolding trailing_zeros
trailing_zeros-le zero m = omega arith
trailing_zeros-le (suc n) m = ground (arith, trailing_zeros-le n (m / 2))

pub bit-above : (n m v : ℕ) → m < 2 ^ n → n ≤ v → bit m v ≡ 0
unfolding bit
bit-above n m v small h =
    let wide : 2 ^ n ≤ 2 ^ v = pow-le-pow_right (omega arith) h in
    let none_left : m / 2 ^ v ≡ 0 = div-eq_of_lt (omega arith) in ap (λ (t : ℕ). t % 2) none_left

zero-bit_and : (b : ℕ) → bit_and 0 b ≡ 0
zero-bit_and b = bit_and-bitwise 0 b

bit_and-digit : (m k : ℕ) → bit_and m k ≡ bit_and (m / 2) (k / 2) * 2 + min (m % 2) (k % 2)
bit_and-digit = lowest_digit (λ b. zero) min bit_and bit_and-bitwise (λ b. omega arith)

bit_and-halves : (a b : ℕ) → bit_and a b / 2 ≡ bit_and (a / 2) (b / 2)
bit_and-halves a b = omega (arith, bit_and-digit a b)

pub bit-bit_and : (a b v : ℕ) → bit (bit_and a b) v ≡ min (bit a v) (bit b v)
bit-bit_and a b zero =
    omega (arith, bit_and-digit a b, bit-zero (bit_and a b), bit-zero a, bit-zero b)
bit-bit_and a b (suc v) =
    rw (bit-suc (bit_and a b) v, bit-suc a v, bit-suc b v, bit_and-halves)
      (bit-bit_and (a / 2) (b / 2) v)

pub bit_and-lt : (n a b : ℕ) → a < 2 ^ n → bit_and a b < 2 ^ n
bit_and-lt zero zero b p = omega (arith, zero-bit_and b)
bit_and-lt zero (suc a) b p = absurd (omega arith)
bit_and-lt (suc n) a b p = omega (
  arith,
  bit_and-digit a b,
  pow-suc 2 n,
  bit_and-lt n (a / 2) (b / 2) (omega (arith, pow-suc 2 n)),
)

bit_xor-digit : (m k : ℕ) → bit_xor m k ≡ bit_xor (m / 2) (k / 2) * 2 + differ (m % 2) (k % 2)
bit_xor-digit = lowest_digit (λ b. b) differ bit_xor bit_xor-bitwise (λ b. omega arith)

differ_zero : (x y : ℕ) → differ x y ≡ 0 → x ≡ y
differ_zero zero y h = sym h
differ_zero (suc x) zero h = h
differ_zero (suc x) (suc y) h = ap suc (differ_zero x y h)

differ_self : (x : ℕ) → differ x x ≡ 0
differ_self zero = refl
differ_self (suc x) = differ_self x

halves_agree : (n a b : ℕ) → a ≤ n → b ≤ n → bit_xor a b ≡ 0 → a ≡ b
halves_agree zero a b p q h = omega arith
halves_agree (suc n) a b p q h =
    let half : bit_xor (a / 2) (b / 2) ≡ 0 = omega (arith, bit_xor-digit a b) in
    let low : differ (a % 2) (b % 2) ≡ 0 = omega (arith, bit_xor-digit a b) in
    omega (
      arith,
      differ_zero (a % 2) (b % 2) low,
      halves_agree n (a / 2) (b / 2) (omega arith) (omega arith) half,
    )

-- `^` gives 0 only for two equal numbers, and `|` only for two zeros.
pub bit_xor_zero : (a b : ℕ) → bit_xor a b ≡ 0 → a ≡ b
bit_xor_zero a b h = halves_agree (max a b) a b (omega arith) (omega arith) h

self_below : (n a : ℕ) → a ≤ n → bit_xor a a ≡ 0
self_below zero zero p = bit_xor-bitwise 0 0
self_below zero (suc a) p = absurd (omega arith)
self_below (suc n) a p =
    omega (arith, bit_xor-digit a a, differ_self (a % 2), self_below n (a / 2) (omega arith))

pub bit_xor_self : (a : ℕ) → bit_xor a a ≡ 0
bit_xor_self a = self_below a a (omega arith)

or_below : (n a b : ℕ) → a ≤ n → b ≤ n → bit_or a b ≡ 0 → (a ≡ 0) × (b ≡ 0)
or_below zero a b p q h = (omega arith, omega arith)
or_below (suc n) a b p q h =
    let rest =
      or_below n (a / 2) (b / 2) (omega arith) (omega arith) (omega (arith, bit_or-digit a b)) in
    (omega (arith, bit_or-digit a b, rest.0), omega (arith, bit_or-digit a b, rest.1))

pub bit_or_zero : (a b : ℕ) → bit_or a b ≡ 0 → (a ≡ 0) × (b ≡ 0)
bit_or_zero a b h = or_below (max a b) a b (omega arith) (omega arith) h
