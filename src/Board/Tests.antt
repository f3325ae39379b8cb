-- ===== src/Board/Tests.antt =====
-- The order of the edges, runs and the registry of runs at concrete boards.
use gn_drive.Common.{
  ◌≡◌, refl, String, true, false, all, none, some, List, [], ◌∷◌, ◌==◌, string_eq, lookup, insert,
  remove, length, if◌then◌else◌, get_elem?,
}
use gn_drive.Common.Sort.{text_leb, sort_by_key}
use mathlib.Core.List.{Mem, Perm, flatten}
use gn_drive.Board.{
  Board, BoardNode, BoardEdge, ok, err, failed, cycle_detected, stopped_at_edge, cancelled,
}
use gn_drive.Board.Run.{
  World, synced, sync_failed, run_board, run_layers, scan, resolve, resolve_edge, edge_thread,
  after_sync, nodes_by_id,
}
use gn_drive.Board.Run.Cases.{is_done}
use gn_drive.Board.Run.Success.{run_board-is_done}
use gn_drive.Board.Run.Stopping.{StoppedAt, run_board-StoppedAt}
use gn_drive.Board.Run.Steady.{runs_through, earliest, ReportsFirst, run_board_steady}
use gn_drive.Board.Registry.{
  Event, attaches, executes, stops, after, new, status, Status, step, execute, load, stop, finish,
}
use gn_drive.Board.Registry.Threads.{live, reported_running, after-OneThread}
use gn_drive.Board.Registry.Ends.{EndsAs, finish-status}
use gn_drive.Board.Layers.{topo_layers, count_edges, with_nodes, degree, release_edges, select}
use gn_drive.Board.Layers.Order.{IsSchedule, topo_layers-perm, topo_layers-IsSchedule}
use gn_drive.Board.Layers.Cycles.{IsBlocked, IsCore, topo_layers_ok-acyclic, topo_layers_err-Stuck}
use gn_drive.Board.Layers.Rounds.{counted_layers, topo_layers-counted}

abbrev node : String → BoardNode
node id = record { id = id; remote_name = ""; path = "/" }

abbrev edge : String → String → String → BoardEdge
edge id s t = record { id = id; source_id = s; target_id = t; action = "push" }

abbrev diamond_nodes : List BoardNode
diamond_nodes = node "a" ∷ node "b" ∷ node "c" ∷ node "d" ∷ []

abbrev diamond : List BoardEdge
diamond = edge "e4" "c" "d" ∷ edge "e2" "a" "c" ∷ edge "e1" "a" "b" ∷ edge "e3" "b" "d" ∷ []

abbrev diamond_layers : List (List BoardEdge)
diamond_layers =
    (edge "e1" "a" "b" ∷ edge "e2" "a" "c" ∷ []) ∷ (edge "e3" "b" "d" ∷ edge "e4" "c" "d" ∷ []) ∷ []

topo_diamond : topo_layers diamond_nodes diamond ≡ ok diamond_layers
unfolding topo_layers count_edges with_nodes degree release_edges select sort_by_key lookup insert
    text_leb
topo_diamond = refl

topo_layers-perm_example : Perm (flatten diamond_layers) diamond
topo_layers-perm_example = topo_layers-perm diamond_nodes diamond topo_diamond

topo_layers-IsSchedule_example : IsSchedule diamond_layers
topo_layers-IsSchedule_example = topo_layers-IsSchedule diamond_nodes diamond topo_diamond

topo_layers_ok-acyclic_example : ¬ IsBlocked diamond (edge "e1" "a" "b" ∷ [])
topo_layers_ok-acyclic_example =
    topo_layers_ok-acyclic diamond_nodes diamond (edge "e1" "a" "b" ∷ []) topo_diamond

abbrev cyclic : List BoardEdge
cyclic = edge "e1" "a" "b" ∷ edge "e2" "b" "a" ∷ []

topo_cyclic : topo_layers (node "a" ∷ node "b" ∷ []) cyclic ≡ err (failed (cycle_detected 2))
unfolding topo_layers count_edges with_nodes degree release_edges select sort_by_key lookup insert
    text_leb
topo_cyclic = refl

topo_layers_err-Stuck_example :
    (stuck : List BoardEdge) × (rest : List BoardEdge) × IsCore cyclic stuck rest
    × (failed (cycle_detected 2) ≡ failed (cycle_detected (length stuck)))
topo_layers_err-Stuck_example = topo_layers_err-Stuck (node "a" ∷ node "b" ∷ []) cyclic topo_cyclic

topo_layers-counted_example :
    topo_layers diamond_nodes diamond ≡ counted_layers (length diamond) diamond
topo_layers-counted_example = topo_layers-counted diamond_nodes diamond

abbrev diamond_board : Board
diamond_board = record { id = "b"; nodes = diamond_nodes; edges = diamond }

abbrev calm : World
calm = record {
  cancelled_at_layer = λ i. false;
  cancelled_at_start = λ e. false;
  sync = λ e config. synced;
  cancelled_at_end = λ e. false;
}

calm_run : (run_board calm false diamond_board).result ≡ ok tt
unfolding run_board run_layers scan resolve resolve_edge edge_thread after_sync nodes_by_id
    topo_layers count_edges with_nodes degree release_edges select sort_by_key lookup insert remove
    text_leb
calm_run = refl

run_board-is_done_example :
    ((e : BoardEdge) → Mem e diamond → is_done calm (nodes_by_id diamond_nodes []) e ≡ true)
    × Perm (run_board calm false diamond_board).started diamond
run_board-is_done_example = run_board-is_done calm false diamond_board calm_run

-- The edge "e2" fails.
abbrev stormy : World
stormy = record {
  cancelled_at_layer = λ i. false;
  cancelled_at_start = λ e. false;
  sync = λ e config.
      if e.id == "e2"
      then sync_failed (record { message = "no space"; was_cancelled = false })
      else synced;
  cancelled_at_end = λ e. false;
}

stormy_run :
    (run_board stormy true diamond_board).result ≡ err (failed (stopped_at_edge "e2" "no space"))
unfolding run_board run_layers scan resolve resolve_edge edge_thread after_sync nodes_by_id
    topo_layers count_edges with_nodes degree release_edges select sort_by_key lookup insert remove
    text_leb
stormy_run = refl

run_board-StoppedAt_example :
    StoppedAt stormy
      (nodes_by_id diamond_nodes [])
      diamond
      (run_board stormy true diamond_board).started
      "e2"
      "no space"
run_board-StoppedAt_example = run_board-StoppedAt stormy diamond_board stormy_run

each_runs : all (runs_through stormy (nodes_by_id diamond_nodes [])) (flatten diamond_layers) ≡ true
unfolding runs_through resolve_edge edge_thread after_sync nodes_by_id lookup insert remove flatten
each_runs = refl

run_board_steady_example :
    ((run_board stormy false diamond_board).started ≡ flatten diamond_layers)
    × ReportsFirst
        (earliest stormy (nodes_by_id diamond_nodes []) none (flatten diamond_layers))
        (run_board stormy false diamond_board).result
run_board_steady_example = run_board_steady stormy diamond_board topo_diamond (λ j. refl) each_runs

-- A board is executed, asked for again while it runs, and stopped.
abbrev busy_day : List Event
busy_day =
    attaches
    ∷ executes (ok diamond_board) "run1" "b"
    ∷ executes (ok diamond_board) "run2" "b"
    ∷ stops "b"
    ∷ []

after-OneThread_example :
    live "b" "run1" (after busy_day new).threads
    ≡ reported_running "run1" (status (after busy_day new) "b")
after-OneThread_example = after-OneThread busy_day "b" "run1"

busy_thread :
    get_elem? (after busy_day new).threads 0 ≡ some (record { board_id = "b"; run_id = "run1" })
unfolding after step execute load stop finish lookup insert remove
busy_thread = refl

finish-status_example :
    (ending : Status) × EndsAs (some cancelled) ending
    × (status (finish 0 (some cancelled) (after busy_day new)) "b"
        ≡ some (record { run_id = "run1"; board_id = "b"; status = ending }))
finish-status_example = finish-status busy_day 0 (some cancelled) busy_thread
