-- ===== src/Board/Layers/Order.antt =====
-- The layers are a schedule: they hold every edge once, and no edge starts before the edges into
-- its source are done.
use gn_drive.Common.{
  ℕ, zero, suc, ◌≡◌, ◌≢◌, refl, sym, ap, ◌∙◌, Bool, true, List, [], ◌∷◌, ◌++◌, nat_eq, arith,
  Bool-cases, inl, inr, length,
}
use mathlib.Core.Path.{subst}
use mathlib.Core.Bool.{Bool-set}
use mathlib.Core.Logic.Or
use mathlib.Core.List.{Perm, Mem, flatten, mem-cons, not-mem-nil}
use mathlib.Core.List.Perm
use gn_drive.Common.Sort.{sort_by_key-perm, sort_by_key-IsSortedBy, IsSortedBy}
use gn_drive.Board.{BoardNode, BoardEdge, Result, ok, err, failed, cycle_detected}
use gn_drive.Board.Layers.{select, sorted, push_layer, topo_layers}
use gn_drive.Board.Layers.Counts.{edges_into, edges_into-Perm}
use gn_drive.Board.Layers.Rounds.{
  is_free, free, held, layer-perm, counted_layers, topo_layers-counted,
}

-- The layers that the counting rounds produce from the pending edges.
abbrev pub Layering : List BoardEdge → List (List BoardEdge) → Type 0
Layering pending [] = pending ≡ []
Layering pending (l ∷ ls) =
    (l ≡ sorted (free pending)) × (free pending ≢ []) × Layering (held pending) ls

pushed :
    (layer : List BoardEdge) (r : Result (List (List BoardEdge))) {ls : List (List BoardEdge)}
    → push_layer layer r ≡ ok ls
    → (rest : List (List BoardEdge)) × (r ≡ ok rest) × (ls ≡ layer ∷ rest)
pushed layer (ok rest) h = (rest, refl, cc)
pushed layer (err x) h = cc

counted_layers-Layering :
    (fuel : ℕ) (pending : List BoardEdge) (ls : List (List BoardEdge))
    → counted_layers fuel pending ≡ ok ls
    → Layering pending ls
unfolding counted_layers
counted_layers-Layering zero [] [] h = refl
counted_layers-Layering zero [] (l ∷ ls) h = cc
counted_layers-Layering zero (e ∷ es) ls h = cc
counted_layers-Layering (suc fuel) [] [] h = refl
counted_layers-Layering (suc fuel) [] (l ∷ ls) h = cc
counted_layers-Layering (suc fuel) (e ∷ es) ls h =
    round (free (e ∷ es)) refl (counted_layers-Layering fuel (held (e ∷ es))) h
  where
    round :
        (f : List BoardEdge)
        → free (e ∷ es) ≡ f
        → ((rest : List (List BoardEdge))
            → counted_layers fuel (held (e ∷ es)) ≡ ok rest
            → Layering (held (e ∷ es)) rest)
        → elim f [
          | [] ↦ err (failed (cycle_detected (length (e ∷ es))))
          | r ∷ rs ↦ push_layer (sorted (r ∷ rs)) (counted_layers fuel (held (e ∷ es)))
        ]
          ≡ ok ls
        → Layering (e ∷ es) ls
    round [] same ih k = cc
    round (r ∷ rs) same ih k =
        let (rest, inner, shape) =
          pushed (sorted (r ∷ rs)) (counted_layers fuel (held (e ∷ es))) k in
        rw shape (ap sorted (sym same), (λ empty. cc), ih rest inner)

pub topo_layers-Layering :
    (nodes : List BoardNode) (edges : List BoardEdge) {ls : List (List BoardEdge)}
    → topo_layers nodes edges ≡ ok ls
    → Layering edges ls
topo_layers-Layering nodes edges {ls} h =
    counted_layers-Layering (length edges) edges ls (sym (topo_layers-counted nodes edges) ∙ h)

Layering-perm :
    (pending : List BoardEdge) (ls : List (List BoardEdge))
    → Layering pending ls
    → Perm (flatten ls) pending
unfolding flatten
Layering-perm pending [] h = rw h (Perm.refl [])
Layering-perm pending (l ∷ ls) (same, some_free, rest) = rw same (
    Perm.trans (Perm.append_left (sorted (free pending)) (Layering-perm (held pending) ls rest))
      (layer-perm pending))

-- The layers hold every edge of the board, each as often as the board does.
pub topo_layers-perm :
    (nodes : List BoardNode) (edges : List BoardEdge) {ls : List (List BoardEdge)}
    → topo_layers nodes edges ≡ ok ls
    → Perm (flatten ls) edges
topo_layers-perm nodes edges {ls} h = Layering-perm edges ls (topo_layers-Layering nodes edges h)

pub mem-select :
    (p : BoardEdge → Bool) (xs : List BoardEdge) {e : BoardEdge} → Mem e (select p xs) → p e ≡ true
unfolding select
mem-select p [] m = absurd (not-mem-nil m)
mem-select p (x ∷ xs) {e} m = elim (Bool-cases (p x)) [
  | inl chosen ↦
      Or.elim (Bool-set _ _) (mem-cons.0 (rw chosen at m)) (λ same. ap p same ∙ chosen)
        (mem-select p xs)
  | inr left_out ↦ mem-select p xs (rw left_out at m)
]

-- No edge of a layer has a source into which an edge of the same or of a later layer leads, and
-- each layer is non-empty and sorted by the edges' ids.
abbrev pub IsSchedule : List (List BoardEdge) → Type 0
IsSchedule [] = Unit
IsSchedule (l ∷ ls) =
    ((e : BoardEdge) → Mem e l → edges_into e.source_id (l ++ flatten ls) ≡ 0)
    × (l ≢ [])
    × IsSortedBy (λ (e : BoardEdge). e.id) l
    × IsSchedule ls

sorted_ne : (xs : List BoardEdge) → xs ≢ [] → sorted xs ≢ []
sorted_ne xs h e = h (
    Perm.eq-nil
      (Perm.symm (subst (λ l. Perm l xs) e (sort_by_key-perm (λ (x : BoardEdge). x.id) xs))))

Layering-IsSchedule :
    (pending : List BoardEdge) (ls : List (List BoardEdge)) → Layering pending ls → IsSchedule ls
Layering-IsSchedule pending [] h = tt
Layering-IsSchedule pending (l ∷ ls) (same, some_free, rest) = rw same (
  sources,
  sorted_ne (free pending) some_free,
  sort_by_key-IsSortedBy (λ (e : BoardEdge). e.id) (free pending),
  Layering-IsSchedule (held pending) ls rest,
)
  where
    whole : Perm (sorted (free pending) ++ flatten ls) pending
    whole =
        Perm.trans (Perm.append_left (sorted (free pending)) (Layering-perm (held pending) ls rest))
          (layer-perm pending)

    sources :
        (e : BoardEdge)
        → Mem e (sorted (free pending))
        → edges_into e.source_id (sorted (free pending) ++ flatten ls) ≡ 0
    sources e m =
        let chosen : is_free pending e ≡ true =
          mem-select (is_free pending) pending
            (Perm.subset (sort_by_key-perm (λ (x : BoardEdge). x.id) (free pending)) e m) in
        edges_into-Perm e.source_id whole ∙ ground arith

-- In the layers that `topo_layers` returns no edge starts before all the edges into its source are
-- done in earlier layers; each layer is non-empty and sorted by id.
pub topo_layers-IsSchedule :
    (nodes : List BoardNode) (edges : List BoardEdge) {ls : List (List BoardEdge)}
    → topo_layers nodes edges ≡ ok ls
    → IsSchedule ls
topo_layers-IsSchedule nodes edges {ls} h =
    Layering-IsSchedule edges ls (topo_layers-Layering nodes edges h)
