-- ===== src/Common/Maps.antt =====
-- Hash maps with text keys as association lists: `remove` drops every entry of a key,
-- and `insert` puts its entry in front of what is left.
use Prim.Native.String.{String}
use mathlib.Core.Path.{◌≡◌}
use mathlib.Core.Option.{Option, none, some}
use mathlib.Core.List.{List, [], ◌∷◌}
use native.Mathlib.Omega.{arith}
use text.Mathlib.TextEquality.{eq_iff}
use gn_drive.Common.Tests.{if◌then◌else◌}
use gn_drive.Common.Eq.{◌==◌, string_eq}

abbrev pub Dict {ℓ} : Type ℓ → Type ℓ
Dict V = List (String × V)

module _ {ℓ} {V : Type ℓ} where
  unfoldable pub lookup : String → Dict V → Option V
  lookup wanted [] = none
  lookup wanted ((key, value) ∷ rest) = if key == wanted then some value else lookup wanted rest

  unfoldable pub remove : String → Dict V → Dict V
  remove gone [] = []
  remove gone ((key, value) ∷ rest) =
      if key == gone then remove gone rest else (key, value) ∷ remove gone rest

  unfoldable pub insert : String → V → Dict V → Dict V
  unfolding remove
  insert key value m = (key, value) ∷ remove key m

  pub lookup-remove :
      (gone wanted : String) (m : Dict V)
      → lookup wanted (remove gone m) ≡ (if gone == wanted then none else lookup wanted m)
  unfolding lookup remove
  lookup-remove gone wanted [] = ground (arith, eq_iff gone wanted)
  lookup-remove gone wanted ((key, value) ∷ rest) = ground (
    arith,
    eq_iff gone wanted,
    eq_iff key gone,
    eq_iff key wanted,
    lookup-remove gone wanted rest,
  )

  pub lookup-insert :
      (key wanted : String) (value : V) (m : Dict V)
      → lookup wanted (insert key value m) ≡ (if key == wanted then some value else lookup wanted m)
  unfolding lookup insert
  lookup-insert key wanted value m = ground (arith, eq_iff key wanted, lookup-remove key wanted m)
