-- ===== src/Common/Held.antt =====
-- Counting by the keys of a map: what a key adds to a count when it comes and goes.
use Prim.Native.Nat.{ℕ, ◌+◌, ◌≤◌}
use Prim.Native.String.{String}
use mathlib.Core.Path.{◌≡◌, refl, sym, ap, ◌∙◌}
use mathlib.Core.Logic.{inl, inr}
use mathlib.Core.Bool.{Bool, true, false}
use mathlib.Core.Option.{Option, none, some}
use native.Mathlib.Omega.{arith}
use text.Mathlib.TextEquality.{eq_iff}
use gn_drive.Common.Tests.{if◌then◌else◌, Bool-cases}
use gn_drive.Common.Eq.{◌==◌, string_eq}
use gn_drive.Common.Maps.{Dict, lookup, insert, remove, lookup-insert, lookup-remove}

abbrev pub one_if : Bool → ℕ
one_if b = if b then 1 else 0

module _ {ℓ} {V : Type ℓ} where
  abbrev pub is_some : Option V → Bool
  is_some none = false
  is_some (some v) = true

  abbrev pub held : String → Dict V → ℕ
  held key m = if is_some (lookup key m) then 1 else 0

  pub held-insert :
      (key k : String) (v : V) (m : Dict V)
      → held k (insert key v m) ≡ (if key == k then 1 else held k m)
  held-insert key k v m =
      rw (lookup-insert key k v m)
        (elim (Bool-cases (key == k)) [ inl e ↦ rw e refl | inr e ↦ rw e refl ])

  pub held-remove :
      (key k : String) (m : Dict V) → held k (remove key m) ≡ (if key == k then 0 else held k m)
  held-remove key k m =
      rw (lookup-remove key k m)
        (elim (Bool-cases (key == k)) [ inl e ↦ rw e refl | inr e ↦ rw e refl ])

  pub free_key :
      (key k : String) (m : Dict V)
      → is_some (lookup key m) ≡ false
      → (key == k) ≡ true
      → held k m ≡ 0
  free_key key k m free e = rw (← (eq_iff key k).0 e, free) refl

  pub held-le_one : (k : String) (m : Dict V) → held k m ≤ 1
  held-le_one k m = ground arith

  pub one_more :
      (key k : String) (v : V) (m : Dict V) (n : ℕ)
      → ((key == k) ≡ true → held k m ≡ 0)
      → n ≡ held k m
      → one_if (key == k) + n ≡ held k (insert key v m)
  one_more key k v m n free h = rw (held-insert key k v m) (elim (Bool-cases (key == k)) [
    | inl e ↦ let z : n ≡ 0 = h ∙ free e in rw (e, z) refl
    | inr e ↦ rw e (omega (arith, h))
  ])

  pub held_again :
      (key k : String) (v : V) (m : Dict V) (n : ℕ)
      → one_if (key == k) + n ≡ held k m
      → held k (insert key v m) ≡ held k m
  held_again key k v m n h = rw (held-insert key k v m) (elim (Bool-cases (key == k)) [
    | inl e ↦
        let counted : 1 + n ≡ held k m = ap (λ (b : Bool). one_if b + n) (sym e) ∙ h in
        rw e (omega (arith, counted, held-le_one k m))
    | inr e ↦ rw e refl
  ])

  pub one_less :
      (key k : String) (m : Dict V) (n : ℕ)
      → one_if (key == k) + n ≡ held k m
      → n ≡ held k (remove key m)
  one_less key k m n h = rw (held-remove key k m) (elim (Bool-cases (key == k)) [
    | inl e ↦
        let counted : 1 + n ≡ held k m = ap (λ (b : Bool). one_if b + n) (sym e) ∙ h in
        rw e (omega (arith, counted, held-le_one k m))
    | inr e ↦
        let counted : 0 + n ≡ held k m = ap (λ (b : Bool). one_if b + n) (sym e) ∙ h in
        rw e (omega (arith, counted))
  ])
