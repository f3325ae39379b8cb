-- ===== src/Board/Run.antt =====
-- crates/gn-drive-core/src/board_engine.rs: `run_board`, `run_edge` and `node_path`. What the threads of
-- a run observe, the cancellation token and the outcome of each transfer, is a `World`.
pub mod Cases
pub mod Success
pub mod Stopping
pub mod Steady
use gn_drive.Common.{
  ℕ, suc, ◌+◌, String, Bool, true, false, ◌||◌, ◌&&◌, not, Option, none, some, List, [], ◌∷◌, ◌++◌,
  map, Dict, lookup, insert, ◌==◌, string_eq, if◌then◌else◌,
}
use Prim.Native.String.{◌++◌ as str_append}
use gn_drive.Board.{
  Board, BoardNode, BoardEdge, Result, ok, err, failed, stopped_at_edge, missing_node, cancelled,
  completed_with_errors,
}
use gn_drive.Board.Layers.{topo_layers}

pub data RcloneAction : Type 0 where
  pull push bi bi_resync copy move check dry_run : RcloneAction

-- `RcloneAction::parse`.
unfoldable pub parse_action : String → Option RcloneAction
parse_action s =
    if s == "pull"
    then some pull
    else if s == "push"
    then some push
    else if s == "bi"
    then some bi
    else if s == "bi-resync"
    then some bi_resync
    else if s == "copy"
    then some copy
    else if s == "move"
    then some move
    else if s == "check"
    then some check
    else if s == "dry-run"
    then some dry_run
    else none

-- The fields that `run_edge` sets: the others keep their defaults.
pub record SyncConfig : Type 0 where
  pub action : RcloneAction
  pub source : String
  pub dest : String
  pub transfers : ℕ

pub record SyncFailedError : Type 0 where
  pub message : String
  pub was_cancelled : Bool

-- How the call of the client ends in its thread.
pub data Outcome : Type 0 where
  synced panicked : Outcome
  sync_failed : SyncFailedError → Outcome

pub record World : Type 0 where
  pub cancelled_at_layer : ℕ → Bool
  pub cancelled_at_start : BoardEdge → Bool
  pub sync : BoardEdge → SyncConfig → Outcome
  pub cancelled_at_end : BoardEdge → Bool

unfoldable pub node_path : BoardNode → String
node_path n =
    if not (n.remote_name == "")
    then if n.path == "" || n.path == "/"
      then str_append n.remote_name ":"
      else str_append n.remote_name (str_append ":" n.path)
    else n.path

abbrev pub or_push : Option RcloneAction → RcloneAction
or_push none = push
or_push (some a) = a

unfoldable pub edge_config : BoardEdge → BoardNode → BoardNode → SyncConfig
edge_config e src dst = record {
  action = or_push (parse_action e.action);
  source = node_path src;
  dest = node_path dst;
  transfers = 4;
}

-- `Option<Result<(), SyncFailedError>>`, what a thread gives when it is joined.
pub data EdgeResult : Type 0 where
  no_result edge_ok : EdgeResult
  edge_failed : SyncFailedError → EdgeResult

-- An edge with its two nodes.
pub record Resolved : Type 0 where
  pub edge : BoardEdge
  pub src : BoardNode
  pub dst : BoardNode

-- What follows `run_edge`, given whether the token is cancelled by then.
unfoldable pub after_sync : Bool → Outcome → EdgeResult
after_sync stopped panicked = no_result
after_sync true synced = no_result
after_sync false synced = edge_ok
after_sync stopped (sync_failed e) = if stopped || e.was_cancelled then no_result else edge_failed e

unfoldable pub edge_thread : World → Resolved → EdgeResult
unfolding after_sync
edge_thread w r =
    if w.cancelled_at_start r.edge
    then no_result
    else after_sync (w.cancelled_at_end r.edge) (w.sync r.edge (edge_config r.edge r.src r.dst))

-- The map of a board's nodes: of two with one id the later stays.
unfoldable pub nodes_by_id : List BoardNode → Dict BoardNode → Dict BoardNode
nodes_by_id [] m = m
nodes_by_id (n ∷ ns) m = nodes_by_id ns (insert n.id n m)

abbrev pub with_ends : BoardEdge → Option BoardNode → Option BoardNode → Option Resolved
with_ends e (some s) (some d) = some (record { edge = e; src = s; dst = d })
with_ends e (some s) none = none
with_ends e none d = none

unfoldable pub resolve_edge : Dict BoardNode → BoardEdge → Option Resolved
resolve_edge m e = with_ends e (lookup e.source_id m) (lookup e.target_id m)

abbrev pub resolved_more : Resolved → Result (List Resolved) → Result (List Resolved)
resolved_more r (ok rs) = ok (r ∷ rs)
resolved_more r (err e) = err e

unfoldable pub resolve : Dict BoardNode → List BoardEdge → Result (List Resolved)
unfolding resolve_edge
resolve m [] = ok []
resolve m (e ∷ es) = elim (resolve_edge m e) [
  | none ↦ err (missing_node e.id)
  | some r ↦ resolved_more r (resolve m es)
]

abbrev pub or_first : Option String → String → Option String
or_first none message = some message
or_first (some first) message = some first

-- The loop over the results of a layer, with `first_err` and `cancelled` as they stand.
unfoldable pub scan : World → Bool → List Resolved → Option String → Bool → Result (Option String)
unfolding edge_thread
scan w stop [] first was_cancelled = if was_cancelled then err cancelled else ok first
scan w stop (r ∷ rs) first was_cancelled = elim (edge_thread w r) [
  | no_result ↦ scan w stop rs first true
  | edge_ok ↦ scan w stop rs first was_cancelled
  | edge_failed e ↦
      if stop
      then err (failed (stopped_at_edge r.edge.id e.message))
      else scan w stop rs (or_first first e.message) was_cancelled
]

-- The edges whose threads have been started, and the result of the run.
pub record Report : Type 0 where
  pub started : List BoardEdge
  pub result : Result (Unit {0})

abbrev pub stops : Result (Unit {0}) → Report
stops r = record { started = []; result = r }

abbrev pub started_before : List BoardEdge → Report → Report
started_before es r = record { started = es ++ r.started; result = r.result }

abbrev pub finished : Option String → Result (Unit {0})
finished none = ok tt
finished (some message) = err (completed_with_errors message)

-- The loop over the layers from number `i` on.
unfoldable pub run_layers :
    World → Bool → Dict BoardNode → ℕ → List (List BoardEdge) → Option String → Report
unfolding scan resolve
run_layers w stop m i [] first = stops (finished first)
run_layers w stop m i (l ∷ ls) first =
    if w.cancelled_at_layer i then stops (err cancelled) else elim (resolve m l) [
      | err e ↦ stops (err e)
      | ok rs ↦ started_before l (elim (scan w stop rs first false) [
        | err e ↦ stops (err e)
        | ok first' ↦ run_layers w stop m (suc i) ls first'
      ])
    ]

unfoldable pub run_board : World → Bool → Board → Report
unfolding run_layers nodes_by_id
run_board w stop b = elim (topo_layers b.nodes b.edges) [
  | err e ↦ stops (err e)
  | ok layers ↦ run_layers w stop (nodes_by_id b.nodes []) 0 layers none
]
