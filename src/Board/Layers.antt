-- ===== src/Board/Layers.antt =====
-- crates/gn-drive-core/src/board_engine.rs: `topo_layers`. The flags `pending` are the list of the
-- edges whose flag is set, in their order; `indeg` counts the edges not yet placed into each node.
pub mod Counts
pub mod Rounds
pub mod Order
pub mod Cycles
use gn_drive.Common.{
  ℕ, zero, suc, ◌+◌, ◌-◌, String, Bool, Option, none, some, List, [], ◌∷◌, Dict, lookup, insert,
  ◌==◌, nat_eq, length, if◌then◌else◌, not,
}
use gn_drive.Common.Sort.{sort_by_key}
use gn_drive.Board.{BoardNode, BoardEdge, Result, ok, err, failed, cycle_detected}

-- `.copied().unwrap_or(0)`.
abbrev pub or_zero : Option ℕ → ℕ
or_zero none = 0
or_zero (some n) = n

unfoldable pub degree : String → Dict ℕ → ℕ
degree k indeg = or_zero (lookup k indeg)

unfoldable pub with_nodes : List BoardNode → Dict ℕ
with_nodes [] = []
with_nodes (n ∷ ns) = insert n.id 0 (with_nodes ns)

-- `*indeg.entry(e.target_id).or_insert(0) += 1` for every edge.
unfoldable pub count_edges : List BoardEdge → Dict ℕ → Dict ℕ
unfolding degree
count_edges [] indeg = indeg
count_edges (e ∷ es) indeg =
    count_edges es (insert e.target_id (degree e.target_id indeg + 1) indeg)

-- `-= 1` for every edge of a layer.
unfoldable pub release_edges : List BoardEdge → Dict ℕ → Dict ℕ
unfolding degree
release_edges [] indeg = indeg
release_edges (e ∷ es) indeg =
    release_edges es (insert e.target_id (degree e.target_id indeg - 1) indeg)

unfoldable pub select {ℓ} : {A : Type ℓ} → (A → Bool) → List A → List A
select p [] = []
select p (x ∷ xs) = let rest = select p xs in if p x then x ∷ rest else rest

abbrev pub is_ready : Dict ℕ → BoardEdge → Bool
is_ready indeg e = degree e.source_id indeg == 0

abbrev pub ready : Dict ℕ → List BoardEdge → List BoardEdge
ready indeg = select (is_ready indeg)

abbrev pub waiting : Dict ℕ → List BoardEdge → List BoardEdge
waiting indeg = select (λ e. not (is_ready indeg e))

abbrev pub sorted : List BoardEdge → List BoardEdge
sorted = sort_by_key (λ (e : BoardEdge). e.id)

abbrev pub push_layer :
    List BoardEdge → Result (List (List BoardEdge)) → Result (List (List BoardEdge))
push_layer layer (ok layers) = ok (layer ∷ layers)
push_layer layer (err e) = err e

-- The `while processed < edges.len()` loop, one round for each unit of fuel.
unfoldable pub layers_from : ℕ → Dict ℕ → List BoardEdge → Result (List (List BoardEdge))
layers_from fuel indeg [] = ok []
layers_from zero indeg (e ∷ es) = err (failed (cycle_detected (length (e ∷ es))))
layers_from (suc fuel) indeg (e ∷ es) = elim (ready indeg (e ∷ es)) [
  | [] ↦ err (failed (cycle_detected (length (e ∷ es))))
  | r ∷ rs ↦
      push_layer (sorted (r ∷ rs))
        (layers_from fuel (release_edges (sorted (r ∷ rs)) indeg) (waiting indeg (e ∷ es)))
]

-- Each round places at least one edge, so one unit of fuel for each edge suffices.
unfoldable pub topo_layers : List BoardNode → List BoardEdge → Result (List (List BoardEdge))
unfolding layers_from
topo_layers nodes edges = layers_from (length edges) (count_edges edges (with_nodes nodes)) edges
