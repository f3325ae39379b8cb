-- ===== src/Board/Run/Success.antt =====
-- `run_board` ends with success only after every edge has.
use gn_drive.Common.{
  ℕ, suc, ◌≡◌, ◌≢◌, refl, ap, ◌∙◌, String, Bool, true, false, none, some, List, [], ◌∷◌, ◌++◌, Dict,
  All,
}
use mathlib.Core.List.{Mem, Perm, flatten, mem-cons, mem-append, not-mem-nil}
use mathlib.Core.List.Perm
use mathlib.Core.Logic.Or
use mathlib.Core.Bool.{Bool-set}
use mathlib.Core.Path.{subst}
use gn_drive.Board.{Board, BoardNode, BoardEdge, Result, ok, err}
use gn_drive.Board.Layers.{topo_layers}
use gn_drive.Board.Layers.Order.{topo_layers-perm}
use gn_drive.Board.Run.{
  World, Resolved, Report, edge_ok, edge_thread, resolve_edge, resolve, run_layers, run_board,
  nodes_by_id, started_before, scan,
}
use gn_drive.Board.Run.Cases.{
  is_done, is_success, thread_succeeds, scan-some, scan-none, resolve-cons, layer_cases,
  halted_by_token, not_resolved, failing, going_on,
}

module _ (w : World) (stop : Bool) (m : Dict BoardNode) where
  -- An error in an earlier layer is not forgotten.
  run_layers-some :
      (i : ℕ) (ls : List (List BoardEdge)) (first : String)
      → (run_layers w stop m i ls (some first)).result ≢ ok tt
  unfolding run_layers
  run_layers-some i [] first = λ h. cc
  run_layers-some i (l ∷ ls) first = elim (layer_cases w stop m i l ls (some first)) [
    | halted_by_token c e ↦ λ h. let k = rw e at h in cc
    | not_resolved f r e ↦ λ h. let k = rw e at h in cc
    | failing rs f r s e ↦ λ h. let k = rw e at h in cc
    | going_on rs none r s e ↦ absurd (scan-some w stop rs first s refl)
    | going_on rs (some next) r s e ↦ λ h. run_layers-some (suc i) ls next (rw e at h)
  ]

  done_of :
      (x : BoardEdge) (r : Resolved)
      → resolve_edge m x ≡ some r
      → edge_thread w r ≡ edge_ok
      → is_done w m x ≡ true
  unfolding is_done
  done_of x r found this = ap (thread_succeeds w) found ∙ ap is_success this

  resolve-is_done :
      (l : List BoardEdge) (rs : List Resolved)
      → resolve m l ≡ ok rs
      → All (λ r. edge_thread w r ≡ edge_ok) rs
      → (e : BoardEdge) → Mem e l
      → is_done w m e ≡ true
  resolve-is_done [] rs h every e here = absurd (not-mem-nil here)
  resolve-is_done (x ∷ l) rs h every e here =
      let (r, rest, found, inner, shape) = resolve-cons w stop m x l h in
      let (this, others) =
        subst (λ (qs : List Resolved). All (λ q. edge_thread w q ≡ edge_ok) qs) shape every in
      Or.elim (Bool-set _ _) (mem-cons.0 here)
        (λ (same : e ≡ x). ap (is_done w m) same ∙ done_of x r found this)
        (λ (later : Mem e l). resolve-is_done l rest inner others e later)

  run_layers-done :
      (i : ℕ) (ls : List (List BoardEdge))
      → (run_layers w stop m i ls none).result ≡ ok tt
      → ((e : BoardEdge) → Mem e (flatten ls) → is_done w m e ≡ true)
        × ((run_layers w stop m i ls none).started ≡ flatten ls)
  unfolding run_layers flatten
  run_layers-done i [] h = (λ e here. absurd (not-mem-nil here), refl)
  run_layers-done i (l ∷ ls) h = elim (layer_cases w stop m i l ls none) [
    | halted_by_token c e ↦ let k = rw e at h in cc
    | not_resolved f r e ↦ let k = rw e at h in cc
    | failing rs f r s e ↦ let k = rw e at h in cc
    | going_on rs none r s e ↦ further rs r s e (run_layers-done (suc i) ls (rw e at h))
    | going_on rs (some next) r s e ↦ absurd (run_layers-some (suc i) ls next (rw e at h))
  ]
    where
      further :
          (rs : List Resolved)
          → resolve m l ≡ ok rs
          → scan w stop rs none false ≡ ok none
          → run_layers w stop m i (l ∷ ls) none
            ≡ started_before l (run_layers w stop m (suc i) ls none)
          → ((e : BoardEdge) → Mem e (flatten ls) → is_done w m e ≡ true)
            × ((run_layers w stop m (suc i) ls none).started ≡ flatten ls)
          → ((e : BoardEdge) → Mem e (l ++ flatten ls) → is_done w m e ≡ true)
            × ((run_layers w stop m i (l ∷ ls) none).started ≡ l ++ flatten ls)
      further rs r s shape (done, started) = (
        λ e here.
            Or.elim (Bool-set _ _) (mem-append.0 here)
              (λ (now : Mem e l). resolve-is_done l rs r (scan-none w stop rs s) e now)
              (λ (later : Mem e (flatten ls)). done e later),
        ap (λ (r : Report). r.started) shape ∙ ap (λ (t : List BoardEdge). l ++ t) started,
      )

-- When a run ends with success, every edge of the board has both nodes, its thread ended with success,
-- and the threads started are those of the board's edges, each once.
pub run_board-is_done :
    (w : World) (stop : Bool) (b : Board)
    → (run_board w stop b).result ≡ ok tt
    → ((e : BoardEdge) → Mem e b.edges → is_done w (nodes_by_id b.nodes []) e ≡ true)
      × Perm (run_board w stop b).started b.edges
unfolding run_board
run_board-is_done w stop b h = go (topo_layers b.nodes b.edges) refl
  where
    go :
        (x : Result (List (List BoardEdge)))
        → topo_layers b.nodes b.edges ≡ x
        → ((e : BoardEdge) → Mem e b.edges → is_done w (nodes_by_id b.nodes []) e ≡ true)
          × Perm (run_board w stop b).started b.edges
    go (err f) e = let k = rw (run_board, e) at h in cc
    go (ok ls) e =
        let (done, started) =
          run_layers-done w stop (nodes_by_id b.nodes []) 0 ls (rw (run_board, e) at h) in
        let order : Perm (flatten ls) b.edges = topo_layers-perm b.nodes b.edges e in
        (λ f here. done f (Perm.subset (Perm.symm order) f here), rw (run_board, e, started) order)
