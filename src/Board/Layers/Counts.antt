-- ===== src/Board/Layers/Counts.antt =====
-- The in-degree table against the edges: `indeg` holds, for each node, how many of the edges not
-- yet placed lead into it.
use gn_drive.Common.{
  ℕ, ◌+◌, ◌-◌, ◌≡◌, refl, ◌∙◌, String, Bool, not, List, [], ◌∷◌, ◌++◌, Dict, lookup, insert,
  lookup-insert, ◌==◌, nat_eq, string_eq, arith, if◌then◌else◌, Bool-cases, inl, inr, eq_iff,
}
use mathlib.Core.List.{Perm, Permᴰ, perm_middle}
use mathlib.Core.List.Perm
use mathlib.Core.Logic.{∥∥₁_elim}
use native.Mathlib.Nat.{ℕ_set}
use gn_drive.Board.{BoardNode, BoardEdge}
use gn_drive.Board.Layers.{degree, with_nodes, count_edges, release_edges, select}

-- How many edges lead into the node.
unfoldable pub edges_into : String → List BoardEdge → ℕ
edges_into x [] = 0
edges_into x (e ∷ es) = let rest = edges_into x es in if e.target_id == x then rest + 1 else rest

degree-insert :
    (k x : String) (n : ℕ) (m : Dict ℕ)
    → degree x (insert k n m) ≡ (if k == x then n else degree x m)
unfolding degree
degree-insert k x n m = ground (arith, lookup-insert k x n m)

pub with_nodes-degree : (ns : List BoardNode) (x : String) → degree x (with_nodes ns) ≡ 0
unfolding with_nodes degree lookup
with_nodes-degree [] x = refl
with_nodes-degree (n ∷ ns) x =
    ground (arith, lookup-insert n.id x 0 (with_nodes ns), with_nodes-degree ns x)

pub count_edges-degree :
    (es : List BoardEdge) (m : Dict ℕ) (x : String)
    → degree x (count_edges es m) ≡ degree x m + edges_into x es
unfolding count_edges edges_into
count_edges-degree [] m x = omega arith
count_edges-degree (e ∷ es) m x = ground (
  arith,
  count_edges-degree es (insert e.target_id (degree e.target_id m + 1) m) x,
  degree-insert e.target_id x (degree e.target_id m + 1) m,
  eq_iff e.target_id x,
)

pub release_edges-degree :
    (es : List BoardEdge) (m : Dict ℕ) (x : String)
    → degree x (release_edges es m) ≡ degree x m - edges_into x es
unfolding release_edges edges_into
release_edges-degree [] m x = omega arith
release_edges-degree (e ∷ es) m x = ground (
  arith,
  release_edges-degree es (insert e.target_id (degree e.target_id m - 1) m) x,
  degree-insert e.target_id x (degree e.target_id m - 1) m,
  eq_iff e.target_id x,
)

pub edges_into-append :
    (x : String) (xs ys : List BoardEdge)
    → edges_into x (xs ++ ys) ≡ edges_into x xs + edges_into x ys
unfolding edges_into
edges_into-append x [] ys = omega arith
edges_into-append x (e ∷ xs) ys = ground (arith, edges_into-append x xs ys)

edges_into-Permᴰ :
    (x : String) {xs ys : List BoardEdge} → Permᴰ xs ys → edges_into x xs ≡ edges_into x ys
unfolding edges_into
edges_into-Permᴰ x Permᴰ.nil = refl
edges_into-Permᴰ x (Permᴰ.cons e p) = ground (arith, edges_into-Permᴰ x p)
edges_into-Permᴰ x (Permᴰ.swap e f) = ground arith
edges_into-Permᴰ x (Permᴰ.trans p q) = edges_into-Permᴰ x p ∙ edges_into-Permᴰ x q

-- The count does not depend on the order of the edges.
pub edges_into-Perm :
    (x : String) {xs ys : List BoardEdge} → Perm xs ys → edges_into x xs ≡ edges_into x ys
edges_into-Perm x p = ∥∥₁_elim p (ℕ_set _ _) (edges_into-Permᴰ x)

pub select-perm {ℓ} :
    {A : Type ℓ} (p : A → Bool) (xs : List A) → Perm (select p xs ++ select (λ x. not (p x)) xs) xs
unfolding select
select-perm p [] = Perm.refl []
select-perm p (x ∷ xs) = elim (Bool-cases (p x)) [
  | inl chosen ↦ rw chosen (Perm.cons x (select-perm p xs))
  | inr left_out ↦ rw left_out (Perm.trans (perm_middle _ _) (Perm.cons x (select-perm p xs)))
]
