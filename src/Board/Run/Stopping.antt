-- ===== src/Board/Run/Stopping.antt =====
-- With `stop_on_error`, `run_board` stops at a failed edge before anything starts from its target.
use gn_drive.Common.{
  ℕ, suc, ◌≡◌, ◌≢◌, refl, sym, ap, ◌∙◌, inl, inr, String, Bool, true, false, Option, none, some,
  List, [], ◌∷◌, ◌++◌, Dict, lookup, Bool-cases, arith,
}
use mathlib.Core.Logic.Or
use mathlib.Core.List.{
  Mem, flatten, mem-append, not-mem-nil, mem-cons_self, mem-cons_of_mem, mem-append_left,
  mem-append_right,
}
use mathlib.Core.List.Perm
use mathlib.Core.Path.{subst}
use gn_drive.Board.{Board, BoardNode, BoardEdge, Result, ok, err, failed, stopped_at_edge}
use gn_drive.Board.Layers.{topo_layers}
use gn_drive.Board.Layers.Order.{IsSchedule, topo_layers-perm, topo_layers-IsSchedule}
use gn_drive.Board.Layers.Cycles.{edges_into-mem, topo_layers_err-Stuck}
use gn_drive.Board.Run.{
  SyncFailedError, World, Resolved, EdgeResult, Report, no_result, edge_ok, edge_failed,
  edge_thread, resolve_edge, with_ends, resolve, run_layers, run_board, nodes_by_id, scan,
}
use gn_drive.Board.Run.Cases.{
  EdgeResult-cases, resolve-missing, resolve-cons, layer_cases, halted_by_token, not_resolved,
  failing, going_on,
}

no_proof : (p q : ⊥) → p ≡ q
no_proof p q = absurd p

abbrev pub failure_message : EdgeResult → Option String
failure_message no_result = none
failure_message edge_ok = none
failure_message (edge_failed e) = some e.message

abbrev pub thread_failure : World → Option Resolved → Option String
thread_failure w none = none
thread_failure w (some r) = failure_message (edge_thread w r)

-- The message with which the edge's thread fails.
unfoldable pub failure_of : World → Dict BoardNode → BoardEdge → Option String
unfolding edge_thread
failure_of w m e = thread_failure w (resolve_edge m e)

-- The edge of that id is one of `edges`, fails with that message, and none of the edges in
-- `started` leads out of its target.
pub record StoppedAt (w : World) (m : Dict BoardNode) (edges started : List BoardEdge)
    (id message : String) : Type 0 where
  pub edge : BoardEdge
  pub drawn : Mem edge edges
  pub same_id : edge.id ≡ id
  pub fails : failure_of w m edge ≡ some message
  pub downstream : (f : BoardEdge) → Mem f started → f.source_id ≢ edge.target_id

abbrev edge_or : BoardEdge → Option Resolved → BoardEdge
edge_or x none = x
edge_or x (some r) = r.edge

resolve_edge-edge :
    (m : Dict BoardNode) (x : BoardEdge) {r : Resolved} → resolve_edge m x ≡ some r → r.edge ≡ x
unfolding resolve_edge
resolve_edge-edge m x h = go (lookup x.source_id m) (lookup x.target_id m) h
  where
    go : (s t : Option BoardNode) {r : Resolved} → with_ends x s t ≡ some r → r.edge ≡ x
    go (some s) (some t) {r} h = ap (edge_or x) (sym h)
    go (some s) none h = cc
    go none t h = cc

module _ (w : World) (m : Dict BoardNode) where
  abbrev FailedIn : List BoardEdge → String → String → Type 0
  FailedIn l id message =
      (e : BoardEdge) × Mem e l × (e.id ≡ id) × (failure_of w m e ≡ some message)

  further :
      (x : BoardEdge) (l : List BoardEdge) {id message : String}
      → FailedIn l id message
      → FailedIn (x ∷ l) id message
  further x l (e, here, same, fails) = (e, mem-cons_of_mem x here, same, fails)

  failure_known :
      (x : BoardEdge) (q : Resolved) (f : SyncFailedError)
      → resolve_edge m x ≡ some q
      → edge_thread w q ≡ edge_failed f
      → failure_of w m x ≡ some f.message
  unfolding failure_of
  failure_known x q f found e = ap (thread_failure w) found ∙ ap failure_message e

  layer_failure :
      (l : List BoardEdge) (rs : List Resolved) (first : Option String) (was_cancelled : Bool)
      (id message : String)
      → resolve m l ≡ ok rs
      → scan w true rs first was_cancelled ≡ err (failed (stopped_at_edge id message))
      → FailedIn l id message
  unfolding resolve scan
  layer_failure [] [] first c id message r s = elim (Bool-cases c) [
    | inl stopped ↦ let k = rw (scan, stopped) at s in cc
    | inr open_yet ↦ let k = rw (scan, open_yet) at s in cc
  ]
  layer_failure [] (q ∷ rs) first c id message r s = cc
  layer_failure (x ∷ l) rs first c id message r s =
      let (q, rest, found, inner, shape) = resolve-cons w true m x l r in
      let s' : scan w true (q ∷ rest) first c ≡ err (failed (stopped_at_edge id message)) =
        subst
          (λ (qs : List Resolved).
            scan w true qs first c ≡ err (failed (stopped_at_edge id message)))
          shape s in
      elim (EdgeResult-cases (edge_thread w q)) [
        | inl e ↦
            further x l (layer_failure l rest first true id message inner (rw (scan, e) at s'))
        | inr (inl e) ↦
            further x l (layer_failure l rest first c id message inner (rw (scan, e) at s'))
        | inr (inr (f, e)) ↦
            let k = rw (scan, e) at s' in
            let own : x.id ≡ q.edge.id =
              ap (λ (y : BoardEdge). y.id) (sym (resolve_edge-edge m x found)) in
            let known = failure_known x q f found e in (x, mem-cons_self, cc, cc)
      ]

  -- An edge into the source of an edge of the first layer is in no layer.
  not_fed :
      (l : List BoardEdge) (ls : List (List BoardEdge))
      → IsSchedule (l ∷ ls)
      → (e f : BoardEdge) → Mem e (l ++ flatten ls)
      → Mem f l
      → f.source_id ≢ e.target_id
  not_fed l ls (sources, _, _, _) e f drawn here same =
      let fed = edges_into-mem f.source_id (l ++ flatten ls) drawn (sym same) in
      let none_in = sources f here in absurd (omega arith)

  stopped_now :
      (l : List BoardEdge) (ls : List (List BoardEdge)) (rs : List Resolved) (first : Option String)
      {id message : String}
      → IsSchedule (l ∷ ls)
      → resolve m l ≡ ok rs
      → scan w true rs first false ≡ err (failed (stopped_at_edge id message))
      → StoppedAt w m (l ++ flatten ls) (l ++ []) id message
  stopped_now l ls rs first {id} {message} sched r s =
      let (e, here, same, fails) = layer_failure l rs first false id message r s in
      record {
        edge = e;
        drawn = mem-append_left (flatten ls) here;
        same_id = same;
        fails = fails;
        downstream = λ f started fed.
            Or.elim no_proof (mem-append.0 started)
              (λ (now : Mem f l).
                not_fed l ls sched e f (mem-append_left (flatten ls) here) now fed)
              (λ (none_left : Mem f []). absurd (not-mem-nil none_left));
      }

  stopped_later :
      (l : List BoardEdge) (ls : List (List BoardEdge)) {started : List BoardEdge}
      {id message : String}
      → IsSchedule (l ∷ ls)
      → StoppedAt w m (flatten ls) started id message
      → StoppedAt w m (l ++ flatten ls) (l ++ started) id message
  stopped_later l ls {started} sched s = record {
    edge = s.edge;
    drawn = mem-append_right l s.drawn;
    same_id = s.same_id;
    fails = s.fails;
    downstream = λ f run fed.
        Or.elim no_proof (mem-append.0 run)
          (λ (now : Mem f l). not_fed l ls sched s.edge f (mem-append_right l s.drawn) now fed)
          (λ (later : Mem f started). s.downstream f later fed);
  }

  moved :
      {edges more : List BoardEdge} {report : Report} {id message : String} {r : Result (Unit {0})}
      → report ≡ record { started = more; result = r }
      → StoppedAt w m edges more id message
      → StoppedAt w m edges report.started id message
  moved {edges} {id = id} {message = message} e s =
      subst (λ (started : List BoardEdge). StoppedAt w m edges started id message)
        (sym (ap (λ (r : Report). r.started) e)) s

  run_layers-StoppedAt :
      (i : ℕ) (ls : List (List BoardEdge)) (first : Option String) {id message : String}
      → IsSchedule ls
      → (run_layers w true m i ls first).result ≡ err (failed (stopped_at_edge id message))
      → StoppedAt w m (flatten ls) (run_layers w true m i ls first).started id message
  unfolding run_layers flatten
  run_layers-StoppedAt i [] none sched h = cc
  run_layers-StoppedAt i [] (some f) sched h = cc
  run_layers-StoppedAt i (l ∷ ls) first {id} {message} sched h =
      elim (layer_cases w true m i l ls first) [
        | halted_by_token c e ↦ let k = rw e at h in cc
        | not_resolved f r e ↦
            let (missing, q) = resolve-missing w true m l r in let k = rw e at h in cc
        | failing rs f r s e ↦
            let k = rw e at h in
            let same : f ≡ failed (stopped_at_edge id message) = cc in
            moved e (stopped_now l ls rs first sched r (s ∙ ap err same))
        | going_on rs next r s e ↦
            moved e
              (stopped_later l ls sched (run_layers-StoppedAt (suc i) ls next sched.3 (rw e at h)))
      ]

-- When a run with `stop_on_error` ends with "stopped at edge", an edge of the board has that id and its
-- thread fails with that message, and no thread was started for an edge out of its target.
pub run_board-StoppedAt :
    (w : World) (b : Board) {id message : String}
    → (run_board w true b).result ≡ err (failed (stopped_at_edge id message))
    → StoppedAt w (nodes_by_id b.nodes []) b.edges (run_board w true b).started id message
unfolding run_board
run_board-StoppedAt w b {id} {message} h = go (topo_layers b.nodes b.edges) refl
  where
    go :
        (x : Result (List (List BoardEdge)))
        → topo_layers b.nodes b.edges ≡ x
        → StoppedAt w (nodes_by_id b.nodes []) b.edges (run_board w true b).started id message
    go (err f) e =
        let (stuck, _, _, shape) = topo_layers_err-Stuck b.nodes b.edges e in
        let k = rw (run_board, e) at h in cc
    go (ok ls) e =
        let k : (run_layers w true (nodes_by_id b.nodes []) 0 ls none).result
            ≡ err (failed (stopped_at_edge id message)) =
          rw (run_board, e) at h in
        let s =
          run_layers-StoppedAt w (nodes_by_id b.nodes []) 0 ls none
            (topo_layers-IsSchedule b.nodes b.edges e) k in
        rw (run_board, e)
          (record {
            edge = s.edge;
            drawn = Perm.subset (topo_layers-perm b.nodes b.edges e) s.edge s.drawn;
            same_id = s.same_id;
            fails = s.fails;
            downstream = s.downstream;
          })
