-- ===== src/Board/Layers/Rounds.antt =====
-- A rule for the loop of `topo_layers`: the table stays in step with the edges not yet placed, so
-- a round places exactly the edges whose source no such edge leads into.
use gn_drive.Common.{
  ℕ, zero, suc, ◌≡◌, refl, ap, ◌∙◌, String, Bool, not, List, [], ◌∷◌, ◌++◌, Dict, ◌==◌, nat_eq,
  arith, length,
}
use mathlib.Core.Path.{subst}
use mathlib.Core.List.{Perm}
use mathlib.Core.List.Perm
use gn_drive.Common.Sort.{sort_by_key-perm}
use gn_drive.Board.{BoardNode, BoardEdge, Result, ok, err, failed, cycle_detected}
use gn_drive.Board.Layers.{
  degree, with_nodes, count_edges, release_edges, select, is_ready, sorted, push_layer, layers_from,
  topo_layers,
}
use gn_drive.Board.Layers.Counts.{
  edges_into, with_nodes-degree, count_edges-degree, release_edges-degree, edges_into-append,
  edges_into-Perm, select-perm,
}

-- The table holds the number of pending edges into each node.
abbrev pub InStep : Dict ℕ → List BoardEdge → Type 0
InStep indeg pending = (x : String) → degree x indeg ≡ edges_into x pending

-- No pending edge leads into the source of the edge.
abbrev pub is_free : List BoardEdge → BoardEdge → Bool
is_free pending e = edges_into e.source_id pending == 0

abbrev pub free : List BoardEdge → List BoardEdge
free pending = select (is_free pending) pending

abbrev pub held : List BoardEdge → List BoardEdge
held pending = select (λ e. not (is_free pending e)) pending

ready_test :
    (indeg : Dict ℕ) (pending : List BoardEdge)
    → InStep indeg pending
    → is_ready indeg ≡ is_free pending
ready_test indeg pending step = λ i e. step e.source_id i == 0

pub layer-perm : (pending : List BoardEdge) → Perm (sorted (free pending) ++ held pending) pending
layer-perm pending =
    Perm.trans (Perm.append_right _ (sort_by_key-perm (λ (e : BoardEdge). e.id) (free pending)))
      (select-perm (is_free pending) pending)

-- After a round the table is in step with the edges that are left.
released :
    (indeg : Dict ℕ) (pending : List BoardEdge)
    → InStep indeg pending
    → InStep (release_edges (sorted (free pending)) indeg) (held pending)
released indeg pending step x = omega (
  arith,
  step x,
  release_edges-degree (sorted (free pending)) indeg x,
  edges_into-append x (sorted (free pending)) (held pending),
  edges_into-Perm x (layer-perm pending),
)

-- The layers by counting afresh in each round, without a table.
unfoldable pub counted_layers : ℕ → List BoardEdge → Result (List (List BoardEdge))
counted_layers fuel [] = ok []
counted_layers zero (e ∷ es) = err (failed (cycle_detected (length (e ∷ es))))
counted_layers (suc fuel) (e ∷ es) = elim (free (e ∷ es)) [
  | [] ↦ err (failed (cycle_detected (length (e ∷ es))))
  | r ∷ rs ↦ push_layer (sorted (r ∷ rs)) (counted_layers fuel (held (e ∷ es)))
]

layers_from-counted :
    (fuel : ℕ) (indeg : Dict ℕ) (pending : List BoardEdge)
    → InStep indeg pending
    → layers_from fuel indeg pending ≡ counted_layers fuel pending
unfolding layers_from counted_layers
layers_from-counted zero indeg [] step = refl
layers_from-counted zero indeg (e ∷ es) step = refl
layers_from-counted (suc fuel) indeg [] step = refl
layers_from-counted (suc fuel) indeg (e ∷ es) step =
    ap
      (λ test. elim (select test (e ∷ es)) [
        | [] ↦ err (failed (cycle_detected (length (e ∷ es))))
        | r ∷ rs ↦ push_layer (sorted (r ∷ rs)) (
            layers_from fuel (release_edges (sorted (r ∷ rs)) indeg)
              (select (λ x. not (test x)) (e ∷ es)))
      ])
      (ready_test indeg (e ∷ es) step)
    ∙ round (free (e ∷ es))
        (λ l same. layers_from-counted fuel (release_edges (sorted l) indeg) (held (e ∷ es)) (
          subst (λ l. InStep (release_edges (sorted l) indeg) (held (e ∷ es))) same
            (released indeg (e ∷ es) step)))
        refl
  where
    round :
        (l : List BoardEdge)
        → ((l : List BoardEdge)
            → free (e ∷ es) ≡ l
            → layers_from fuel (release_edges (sorted l) indeg) (held (e ∷ es))
              ≡ counted_layers fuel (held (e ∷ es)))
        → free (e ∷ es) ≡ l
        → elim l [
          | [] ↦ err (failed (cycle_detected (length (e ∷ es))))
          | r ∷ rs ↦
              push_layer
                (sorted (r ∷ rs))
                (layers_from fuel (release_edges (sorted (r ∷ rs)) indeg) (held (e ∷ es)))
        ]
          ≡ elim l [
            | [] ↦ err (failed (cycle_detected (length (e ∷ es))))
            | r ∷ rs ↦ push_layer (sorted (r ∷ rs)) (counted_layers fuel (held (e ∷ es)))
          ]
    round [] ih same = refl
    round (r ∷ rs) ih same = ap (push_layer (sorted (r ∷ rs))) (ih (r ∷ rs) same)

-- The table decides as counting the pending edges afresh does, for any nodes and edges.
pub topo_layers-counted :
    (nodes : List BoardNode) (edges : List BoardEdge)
    → topo_layers nodes edges ≡ counted_layers (length edges) edges
unfolding topo_layers
topo_layers-counted nodes edges =
    layers_from-counted (length edges) (count_edges edges (with_nodes nodes)) edges
      λ x. omega (arith, count_edges-degree edges (with_nodes nodes) x, with_nodes-degree nodes x)
