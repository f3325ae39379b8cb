-- ===== src/Board/Registry/Threads.antt =====
-- A board never has two under_way threads, and each thread ends the run that it was started for.
use gn_drive.Common.{
  ℕ, zero, suc, ◌+◌, ◌≡◌, refl, sym, ap, ◌∙◌, inl, inr, String, Bool, true, false, ◌&&◌, not,
  Option, none, some, List, [], ◌∷◌, Dict, lookup, insert, lookup-insert, ◌==◌, string_eq, eq_iff,
  get_elem?, remove_at, if◌then◌else◌, arith, Bool-cases,
}
use gn_drive.Board.{
  Board, BoardEngineError, Result, ok, err, not_configured, empty_board, already_running,
  not_running, cancelled, missing_node, failed, completed_with_errors, store,
}
use gn_drive.Board.Registry.{
  Run, Thread, Engine, running, Status, BoardRunStatus, Event, executes, finishes, attaches,
  detaches, step, after, new, status, execute, stop, finish, load, is_running, status_of, admit,
  admitted, started_run, stop_run, cancel_unless, run_status, was_cancelled, completed, has_failed,
  stops, end_thread, end_of, ended_run, cancelled_run,
}

-- The number of threads for a board and a run.
unfoldable pub live : String → String → List Thread → ℕ
live board_id run_id [] = 0
live board_id run_id (t ∷ ts) =
    let rest = live board_id run_id ts in
    if t.board_id == board_id && t.run_id == run_id then rest + 1 else rest

abbrev counted : String → Option Run → ℕ
counted run_id none = 0
counted run_id (some r) = if not r.done && r.id == run_id then 1 else 0

-- 1 if that run of the board is not done, else 0.
unfoldable pub under_way : String → String → Dict Run → ℕ
under_way board_id run_id runs = counted run_id (lookup board_id runs)

under_way-insert :
    (k j i : String) (r : Run) (runs : Dict Run)
    → under_way j i (insert k r runs) ≡ (if k == j then counted i (some r) else under_way j i runs)
unfolding under_way
under_way-insert k j i r runs = ground (arith, lookup-insert k j r runs)

abbrev or_thread : Thread → Option Thread → Thread
or_thread x none = x
or_thread x (some t) = t

live-remove_at :
    (n : ℕ) (ts : List Thread) (t : Thread) (k i : String)
    → get_elem? ts n ≡ some t
    → live k i ts ≡ (if t.board_id == k && t.run_id == i then 1 else 0) + live k i (remove_at n ts)
unfolding live remove_at
live-remove_at n [] t k i h = cc
live-remove_at zero (x ∷ ts) t k i h = let same = ap (or_thread x) h in rw same (ground arith)
live-remove_at (suc n) (x ∷ ts) t k i h = ground (arith, live-remove_at n ts t k i h)

abbrev pub Counted : Engine → Type 0
Counted s = (k i : String) → live k i s.threads ≡ under_way k i s.runs

idle :
    (k j i : String) (runs : Dict Run)
    → is_running (lookup k runs) ≡ false
    → k ≡ j
    → under_way j i runs ≡ 0
unfolding under_way
idle k j i runs h same = rw (← same) (go (lookup k runs) h)
  where
    go : (o : Option Run) → is_running o ≡ false → counted i o ≡ 0
    go none h = refl
    go (some r) h = ground arith

admitted-Counted :
    (k run_id : String) (s : Engine)
    → Counted s
    → is_running (lookup k s.runs) ≡ false
    → Counted (admitted k run_id s)
unfolding live
admitted-Counted k run_id s inv h j i = elim (Bool-cases (k == j)) [
  | inl same ↦
      let none_yet = idle k j i s.runs h ((eq_iff k j).0 same) in
      ground (arith, inv j i, under_way-insert k j i (started_run run_id) s.runs)
  | inr other ↦ ground (arith, inv j i, under_way-insert k j i (started_run run_id) s.runs)
]

admit-Counted :
    (k run_id : String) (answer : Result Board) (s : Engine)
    → Counted s
    → Counted (admit k run_id answer s).1
admit-Counted k run_id (err e) s inv = inv
admit-Counted k run_id (ok b) s inv = elim (Bool-cases (is_running (lookup k s.runs))) [
  | inl busy ↦ rw busy inv
  | inr free ↦ rw free (admitted-Counted k run_id s inv free)
]

execute-Counted :
    (answer : Result Board) (run_id board_id : String) (s : Engine)
    → Counted s
    → Counted (execute answer run_id board_id s).1
unfolding execute
execute-Counted answer run_id k s inv = elim (Bool-cases (s.has_store && s.has_sync)) [
  | inl ready ↦ rw (execute, ready) (admit-Counted k run_id (load answer) s inv)
  | inr unready ↦ rw (execute, unready) inv
]

-- A run replaced by one of the same identifier that is as far.
replaced :
    (k j i : String) (r q : Run) (runs : Dict Run)
    → lookup k runs ≡ some r
    → q.id ≡ r.id
    → q.done ≡ r.done
    → under_way j i (insert k q runs) ≡ under_way j i runs
unfolding under_way
replaced k j i r q runs found same_id same_done = elim (Bool-cases (k == j)) [
  | inl same ↦
      let at_j : lookup j runs ≡ some r =
        ap (λ x. lookup x runs) (sym ((eq_iff k j).0 same)) ∙ found in
      under_way-insert k j i q runs ∙ rw (same, at_j, same_id, same_done) refl
  | inr other ↦ under_way-insert k j i q runs ∙ rw other refl
]

stop-Counted : (board_id : String) (s : Engine) → Counted s → Counted (stop board_id s).1
unfolding stop
stop-Counted k s inv = go (lookup k s.runs) refl
  where
    go : (o : Option Run) → lookup k s.runs ≡ o → Counted (stop_run k o s).1
    go none e = inv
    go (some r) e = chosen r.done
      where
        chosen : (over : Bool) → Counted (cancel_unless over k r s).1
        chosen true j i = inv j i
        chosen false j i = inv j i ∙ sym (replaced k j i r (cancelled_run r) s.runs e refl refl)

-- What the end of a run leaves of its board's count.
ended_run-live :
    (n : ℕ) (error : Option BoardEngineError) (s : Engine) (t : Thread) (r : Run) (j i : String)
    → Counted s
    → get_elem? s.threads n ≡ some t
    → lookup t.board_id s.runs ≡ some r
    → t.board_id ≡ j
    → live j i (remove_at n s.threads) ≡ 0
unfolding under_way
ended_run-live n error s t r j i inv here found same =
    let at_j : lookup j s.runs ≡ some r = ap (λ x. lookup x s.runs) (sym same) ∙ found in
    let a = inv j i ∙ ap (counted i) at_j in
    let b = inv j t.run_id ∙ ap (counted t.run_id) at_j in
    let c = live-remove_at n s.threads t j i here in
    let d = live-remove_at n s.threads t j t.run_id here in
    ground (
      arith,
      eq_iff t.board_id j,
      eq_iff r.id i,
      eq_iff r.id t.run_id,
      eq_iff t.run_id i,
      eq_iff t.run_id t.run_id,
    )

-- The board of a thread has a run, under the identifier that the thread was started with.
pub thread_run :
    (n : ℕ) (s : Engine) (t : Thread)
    → Counted s
    → get_elem? s.threads n ≡ some t
    → (r : Run) × (lookup t.board_id s.runs ≡ some r) × (r.id ≡ t.run_id)
unfolding under_way
thread_run n s t inv here = go (lookup t.board_id s.runs) refl
  where
    go :
        (o : Option Run)
        → lookup t.board_id s.runs ≡ o
        → (r : Run) × (lookup t.board_id s.runs ≡ some r) × (r.id ≡ t.run_id)
    go none found =
        let a = inv t.board_id t.run_id ∙ ap (counted t.run_id) found in
        let d = live-remove_at n s.threads t t.board_id t.run_id here in
        absurd (ground (arith, eq_iff t.board_id t.board_id, eq_iff t.run_id t.run_id))
    go (some r) found =
        let a = inv t.board_id t.run_id ∙ ap (counted t.run_id) found in
        let d = live-remove_at n s.threads t t.board_id t.run_id here in
        (
          r,
          found,
          ground
              (arith, eq_iff t.board_id t.board_id, eq_iff t.run_id t.run_id, eq_iff r.id t.run_id),
        )

finish-Counted :
    (n : ℕ) (error : Option BoardEngineError) (s : Engine) → Counted s → Counted (finish n error s)
unfolding finish under_way
finish-Counted n error s inv = go (get_elem? s.threads n) refl
  where
    ended :
        (t : Thread)
        → get_elem? s.threads n ≡ some t
        → (o : Option Run) → lookup t.board_id s.runs ≡ o
        → (j i : String)
        → live j i (remove_at n s.threads) ≡ under_way j i (end_of t.board_id error o s.runs)
    ended t here none found j i =
        absurd (let (r, own, _) = thread_run n s t inv here in let k = sym found ∙ own in cc)
    ended t here (some r) found j i = elim (Bool-cases (t.board_id == j)) [
      | inl same ↦
          ended_run-live n error s t r j i inv here found ((eq_iff t.board_id j).0 same)
          ∙ sym (under_way-insert t.board_id j i (ended_run error r) s.runs ∙ rw same refl)
      | inr other ↦ ground (
        arith,
        inv j i,
        live-remove_at n s.threads t j i here,
        under_way-insert t.board_id j i (ended_run error r) s.runs,
      )
    ]

    go : (o : Option Thread) → get_elem? s.threads n ≡ o → Counted (end_thread n error o s)
    go none e = inv
    go (some t) e = ended t e (lookup t.board_id s.runs) refl

step-Counted : (e : Event) (s : Engine) → Counted s → Counted (step e s)
unfolding step
step-Counted (executes answer run_id k) s inv = execute-Counted answer run_id k s inv
step-Counted (stops k) s inv = stop-Counted k s inv
step-Counted (finishes n error) s inv = finish-Counted n error s inv
step-Counted attaches s inv = inv
step-Counted detaches s inv = inv

pub after-Counted : (es : List Event) (s : Engine) → Counted s → Counted (after es s)
unfolding after
after-Counted [] s inv = inv
after-Counted (e ∷ es) s inv = after-Counted es (step e s) (step-Counted e s inv)

pub new-Counted : Counted new
unfolding live under_way lookup
new-Counted k i = refl

abbrev is_under_way : Status → Bool
is_under_way running = true
is_under_way completed = false
is_under_way was_cancelled = false
is_under_way (has_failed e) = false

-- 1 if the status is that of the given run, still running, else 0.
abbrev pub reported_running : String → Option BoardRunStatus → ℕ
reported_running run_id none = 0
reported_running run_id (some st) = if is_under_way st.status && st.run_id == run_id then 1 else 0

status_of-done :
    (done : Bool) (error : Option BoardEngineError) → is_under_way (status_of done error) ≡ not done
unfolding status_of
status_of-done false error = refl
status_of-done true none = refl
status_of-done true (some e) = failed_or_cancelled e
  where
    failed_or_cancelled : (e : BoardEngineError) → is_under_way (status_of true (some e)) ≡ false
    failed_or_cancelled not_configured = refl
    failed_or_cancelled empty_board = refl
    failed_or_cancelled already_running = refl
    failed_or_cancelled not_running = refl
    failed_or_cancelled cancelled = refl
    failed_or_cancelled (missing_node id) = refl
    failed_or_cancelled (failed f) = refl
    failed_or_cancelled (completed_with_errors m) = refl
    failed_or_cancelled (store m) = refl

counted-reported :
    (k i : String) (o : Option Run) → counted i o ≡ reported_running i (run_status k o)
counted-reported k i none = refl
counted-reported k i (some r) =
    ap (λ (b : Bool). if◌then◌else◌ {A = ℕ} (b && r.id == i) 1 0)
      (sym (status_of-done r.done r.error))

-- Whatever has happened to a new engine, there is one thread for a run whose status is "running", and
-- none for any other run: a board never runs twice at a time.
pub after-OneThread :
    (es : List Event) (board_id run_id : String)
    → live board_id run_id (after es new).threads
      ≡ reported_running run_id (status (after es new) board_id)
unfolding status under_way
after-OneThread es k i =
    after-Counted es new new-Counted k i ∙ counted-reported k i (lookup k (after es new).runs)
