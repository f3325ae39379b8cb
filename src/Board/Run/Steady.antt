-- ===== src/Board/Run/Steady.antt =====
-- Without `stop_on_error`, `run_board` starts every edge and reports the first failure at the end.
use gn_drive.Common.{
  ℕ, suc, ◌≡◌, refl, sym, ap, ◌∙◌, ◌⊎◌, inl, inr, String, Bool, true, false, Option, none, some,
  List, [], ◌∷◌, ◌++◌, Dict, Option-cases, all, arith,
}
use mathlib.Core.List.{
  Mem, flatten, not-mem-nil, mem-cons, mem-cons_self, mem-cons_of_mem, mem-append_left,
  mem-append_right,
}
use mathlib.Core.Logic.Or
use mathlib.Core.Bool.{Bool-set}
use mathlib.Core.Path.{subst}
use gn_drive.Board.{Board, BoardNode, BoardEdge, Result, ok, err, completed_with_errors}
use gn_drive.Board.Layers.{topo_layers}
use gn_drive.Board.Run.{
  Report, World, Resolved, EdgeResult, no_result, edge_ok, edge_failed, edge_thread, resolve_edge,
  resolve, scan, or_first, run_layers, run_board, nodes_by_id, started_before, finished,
}
use gn_drive.Board.Run.Cases.{EdgeResult-cases, resolve-cons}
use gn_drive.Board.Run.Stopping.{failure_of, thread_failure, failure_message}

abbrev ends_by_itself : EdgeResult → Bool
ends_by_itself no_result = false
ends_by_itself edge_ok = true
ends_by_itself (edge_failed e) = true

abbrev thread_runs : World → Option Resolved → Bool
thread_runs w none = false
thread_runs w (some r) = ends_by_itself (edge_thread w r)

-- The edge has both its nodes, and its thread is neither cancelled nor panics.
unfoldable pub runs_through : World → Dict BoardNode → BoardEdge → Bool
unfolding edge_thread
runs_through w m e = thread_runs w (resolve_edge m e)

-- The first failure among the edges, if none has been seen before them.
unfoldable pub earliest : World → Dict BoardNode → Option String → List BoardEdge → Option String
unfolding failure_of
earliest w m first [] = first
earliest w m none (e ∷ es) = earliest w m (failure_of w m e) es
earliest w m (some f) (e ∷ es) = earliest w m (some f) es

all-mem :
    (p : BoardEdge → Bool) (xs : List BoardEdge)
    → all p xs ≡ true
    → (e : BoardEdge) → Mem e xs
    → p e ≡ true
all-mem p [] h e here = absurd (not-mem-nil here)
all-mem p (x ∷ xs) h e here =
    Or.elim (Bool-set _ _) (mem-cons.0 here) (λ (same : e ≡ x). ap p same ∙ ground arith)
      (λ (later : Mem e xs). let rest : all p xs ≡ true = ground arith in all-mem p xs rest e later)

module _ (w : World) (m : Dict BoardNode) where
  earliest-append :
      (first : Option String) (l t : List BoardEdge)
      → earliest w m first (l ++ t) ≡ earliest w m (earliest w m first l) t
  unfolding earliest
  earliest-append first [] t = refl
  earliest-append none (e ∷ l) t = earliest-append (failure_of w m e) l t
  earliest-append (some f) (e ∷ l) t = earliest-append (some f) l t

  AllRun : List BoardEdge → Type 0
  AllRun l = (e : BoardEdge) → Mem e l → runs_through w m e ≡ true

  resolve_steady : (l : List BoardEdge) → AllRun l → (rs : List Resolved) × (resolve m l ≡ ok rs)
  unfolding AllRun resolve runs_through
  resolve_steady [] runs = ([], refl)
  resolve_steady (e ∷ l) runs = elim (Option-cases (resolve_edge m e)) [
    | inl gone ↦ let k : false ≡ true = ap (thread_runs w) (sym gone) ∙ runs e mem-cons_self in cc
    | inr (r, found) ↦
        let (rs, rest) = resolve_steady l (λ f here. runs f (mem-cons_of_mem e here)) in
        (r ∷ rs, rw (resolve, found, rest) refl)
  ]

  runs_of : (x : BoardEdge) → runs_through w m x ≡ true → thread_runs w (resolve_edge m x) ≡ true
  unfolding runs_through
  runs_of x h = h

  failure_at :
      (x : BoardEdge) (q : Resolved)
      → resolve_edge m x ≡ some q
      → failure_of w m x ≡ failure_message (edge_thread w q)
  unfolding failure_of
  failure_at x q found = ap (thread_failure w) found

  passed :
      (first : Option String) (x : BoardEdge) (l : List BoardEdge)
      → failure_of w m x ≡ none
      → earliest w m first (x ∷ l) ≡ earliest w m first l
  unfolding earliest
  passed none x l h = ap (λ (o : Option String). earliest w m o l) h
  passed (some f) x l h = refl

  missed :
      (first : Option String) (x : BoardEdge) (l : List BoardEdge) (message : String)
      → failure_of w m x ≡ some message
      → earliest w m first (x ∷ l) ≡ earliest w m (or_first first message) l
  unfolding earliest
  missed none x l message h = ap (λ (o : Option String). earliest w m o l) h
  missed (some f) x l message h = refl

  scan_steady :
      (l : List BoardEdge) (rs : List Resolved) (first : Option String)
      → resolve m l ≡ ok rs
      → AllRun l
      → scan w false rs first false ≡ ok (earliest w m first l)
  unfolding scan resolve AllRun earliest
  scan_steady [] [] first r runs = refl
  scan_steady [] (q ∷ rs) first r runs = cc
  scan_steady (x ∷ l) rs first r runs =
      let (q, rest, found, inner, shape) = resolve-cons w false m x l r in
      let later : AllRun l = λ f here. runs f (mem-cons_of_mem x here) in
      let ended : ends_by_itself (edge_thread w q) ≡ true =
        ap (thread_runs w) (sym found) ∙ runs_of x (runs x mem-cons_self) in
      subst (λ (qs : List Resolved). scan w false qs first false ≡ ok (earliest w m first (x ∷ l)))
        (sym shape)
        (elim (EdgeResult-cases (edge_thread w q)) [
          | inl e ↦ let k = ap ends_by_itself (sym e) ∙ ended in cc
          | inr (inl e) ↦
              rw (scan, e) (scan_steady l rest first inner later)
              ∙ ap ok (sym (passed first x l (failure_at x q found ∙ ap failure_message e)))
          | inr (inr (f, e)) ↦
              rw (scan, e) (scan_steady l rest (or_first first f.message) inner later)
              ∙ ap ok
                  (sym (missed first x l f.message (failure_at x q found ∙ ap failure_message e)))
        ])

  run_layers_steady :
      (i : ℕ) (ls : List (List BoardEdge)) (first : Option String)
      → ((j : ℕ) → w.cancelled_at_layer j ≡ false)
      → AllRun (flatten ls)
      → run_layers w false m i ls first
        ≡ record { started = flatten ls; result = finished (earliest w m first (flatten ls)) }
  unfolding run_layers flatten AllRun earliest
  run_layers_steady i [] first calm runs = refl
  run_layers_steady i (l ∷ ls) first calm runs =
      let now : AllRun l = λ f here. runs f (mem-append_left (flatten ls) here) in
      let (rs, r) = resolve_steady l now in
      let s = scan_steady l rs first r now in
      rw (run_layers, calm i, r, s)
        (ap (started_before l) (
            run_layers_steady (suc i) ls (earliest w m first l) calm
              (λ f here. runs f (mem-append_right l here)))
          ∙ ap (λ (o : Option String). record { started = l ++ flatten ls; result = finished o })
              (sym (earliest-append first l (flatten ls))))

run_board_shape :
    (w : World) (b : Board) {ls : List (List BoardEdge)}
    → topo_layers b.nodes b.edges ≡ ok ls
    → ((j : ℕ) → w.cancelled_at_layer j ≡ false)
    → all (runs_through w (nodes_by_id b.nodes [])) (flatten ls) ≡ true
    → run_board w false b ≡ record {
      started = flatten ls;
      result = finished (earliest w (nodes_by_id b.nodes []) none (flatten ls));
    }
unfolding run_board AllRun
run_board_shape w b {ls} h calm runs =
    rw (run_board, h)
      (run_layers_steady w (nodes_by_id b.nodes []) 0 ls none calm
        (all-mem (runs_through w (nodes_by_id b.nodes [])) (flatten ls) runs))

-- What a run reports of the first failure, or of none.
abbrev pub ReportsFirst : Option String → Result (Unit {0}) → Type 0
ReportsFirst first result =
    ((first ≡ none) × (result ≡ ok tt))
    ⊎ ((message : String) × ((first ≡ some message)
          × (result ≡ err (completed_with_errors message))))

finished-ReportsFirst : (first : Option String) → ReportsFirst first (finished first)
finished-ReportsFirst none = inl (refl, refl)
finished-ReportsFirst (some message) = inr (message, (refl, refl))

-- Without stop_on_error, on a board whose layers are ls, when the token is never cancelled, every
-- edge has both its nodes and no thread is cancelled or panics, the run starts every edge in the
-- order of the layers; it ends with success when no edge fails, and else with "completed with
-- errors" and the message of the first edge in that order that fails.
pub run_board_steady :
    (w : World) (b : Board) {ls : List (List BoardEdge)}
    → topo_layers b.nodes b.edges ≡ ok ls
    → ((j : ℕ) → w.cancelled_at_layer j ≡ false)
    → all (runs_through w (nodes_by_id b.nodes [])) (flatten ls) ≡ true
    → ((run_board w false b).started ≡ flatten ls)
      × ReportsFirst
          (earliest w (nodes_by_id b.nodes []) none (flatten ls))
          (run_board w false b).result
run_board_steady w b {ls} h calm runs =
    let whole = run_board_shape w b h calm runs in
    let first = earliest w (nodes_by_id b.nodes []) none (flatten ls) in
    (
      ap (λ (r : Report). r.started) whole,
      subst (ReportsFirst first) (sym (ap (λ (r : Report). r.result) whole))
          (finished-ReportsFirst first),
    )
