-- ===== src/Common/Sort.antt =====
-- Stable sorting by a text key, as `sort_by(|a, b| a.key.cmp(&b.key))`: `str` compares by bytes,
-- which is the order of the code points.
use Prim.Native.String.{String}
use mathlib.Core.Path.{◌≡◌, refl}
use mathlib.Core.Bool.{Bool, true, false}
use mathlib.Core.List.{List, [], ◌∷◌, Perm}
use mathlib.Core.List.Perm
use native.Mathlib.Omega.{arith}
use mathlib.Core.Logic.{inl, inr}
use gn_drive.Common.Tests.{ltb, eqb, if◌then◌else◌, Bool-cases}
use gn_drive.Common.Text.{Text, codes}

unfoldable pub text_leb : Text → Text → Bool
text_leb [] t = true
text_leb (a ∷ s) [] = false
text_leb (a ∷ s) (b ∷ t) =
    let rest = text_leb s t in if ltb a b then true else if eqb a b then rest else false

pub text_leb_total : (s t : Text) → text_leb s t ≡ false → text_leb t s ≡ true
unfolding text_leb
text_leb_total [] t h = ground arith
text_leb_total (a ∷ s) [] h = refl
text_leb_total (a ∷ s) (b ∷ t) h = ground (arith, text_leb_total s t)

abbrev pub key_leb : String → String → Bool
key_leb a b = text_leb (codes a) (codes b)

module _ {ℓ} {A : Type ℓ} (key : A → String) where
  unfoldable pub insert_sorted : A → List A → List A
  insert_sorted x [] = x ∷ []
  insert_sorted x (y ∷ ys) = if key_leb (key x) (key y) then x ∷ y ∷ ys else y ∷ insert_sorted x ys

  unfoldable pub sort_by_key : List A → List A
  unfolding insert_sorted
  sort_by_key [] = []
  sort_by_key (x ∷ xs) = insert_sorted x (sort_by_key xs)

  -- Each element's key is at most that of the next.
  abbrev pub IsSortedBy : List A → Type 0
  IsSortedBy [] = Unit
  IsSortedBy (x ∷ []) = Unit
  IsSortedBy (x ∷ y ∷ ys) = (key_leb (key x) (key y) ≡ true) × IsSortedBy (y ∷ ys)

  insert_sorted-perm : (x : A) (ys : List A) → Perm (insert_sorted x ys) (x ∷ ys)
  unfolding insert_sorted
  insert_sorted-perm x [] = Perm.refl (x ∷ [])
  insert_sorted-perm x (y ∷ ys) = elim (Bool-cases (key_leb (key x) (key y))) [
    | inl le ↦ rw le (Perm.refl (x ∷ y ∷ ys))
    | inr gt ↦ rw gt (Perm.trans (Perm.cons y (insert_sorted-perm x ys)) (Perm.swap x y ys))
  ]

  pub sort_by_key-perm : (xs : List A) → Perm (sort_by_key xs) xs
  unfolding sort_by_key
  sort_by_key-perm [] = Perm.refl []
  sort_by_key-perm (x ∷ xs) =
      Perm.trans (insert_sorted-perm x (sort_by_key xs)) (Perm.cons x (sort_by_key-perm xs))

  insert_sorted-IsSortedBy : (x : A) (ys : List A) → IsSortedBy ys → IsSortedBy (insert_sorted x ys)
  unfolding insert_sorted
  insert_sorted-IsSortedBy x [] h = tt
  insert_sorted-IsSortedBy x (y ∷ []) h =
      ground (arith, text_leb_total (codes (key x)) (codes (key y)))
  insert_sorted-IsSortedBy x (y ∷ z ∷ ys) h =
      ground
        (arith, text_leb_total (codes (key x)) (codes (key y)), insert_sorted-IsSortedBy x (z ∷ ys))

  pub sort_by_key-IsSortedBy : (xs : List A) → IsSortedBy (sort_by_key xs)
  unfolding sort_by_key
  sort_by_key-IsSortedBy [] = tt
  sort_by_key-IsSortedBy (x ∷ xs) =
      insert_sorted-IsSortedBy x (sort_by_key xs) (sort_by_key-IsSortedBy xs)
