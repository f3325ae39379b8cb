-- ===== src/Board/Registry/Ends.antt =====
-- The end of a thread of the board engine, and what `status` answers then.
use gn_drive.Common.{
  ℕ, ◌≡◌, ◌≢◌, ◌⊎◌, inl, inr, refl, ap, ◌∙◌, String, true, Option, none, some, List, Dict, lookup,
  insert, lookup-insert, beq_self, get_elem?,
}
use gn_drive.Board.{
  BoardEngineError, not_configured, empty_board, already_running, not_running, cancelled,
  missing_node, failed, completed_with_errors, store,
}
use gn_drive.Board.Registry.{
  Status, completed, was_cancelled, has_failed, Run, Thread, Engine, BoardRunStatus, Event, new,
  after, status, finish, status_of, run_status, ended_run,
}
use gn_drive.Board.Registry.Threads.{thread_run, after-Counted, new-Counted}

abbrev ended_status : String → String → Option BoardEngineError → BoardRunStatus
ended_status run_id board_id error = record {
  run_id = run_id;
  board_id = board_id;
  status = status_of true error;
}

finish-runs :
    (n : ℕ) (error : Option BoardEngineError) (s : Engine) (t : Thread) (r : Run)
    → get_elem? s.threads n ≡ some t
    → lookup t.board_id s.runs ≡ some r
    → (finish n error s).runs ≡ insert t.board_id (ended_run error r) s.runs
unfolding finish
finish-runs n error s t r here found = rw (finish, here, found) refl

lookup-insert_self : (k : String) (r : Run) (m : Dict Run) → lookup k (insert k r m) ≡ some r
lookup-insert_self k r m = lookup-insert k k r m ∙ rw (beq_self k) refl

finish-status_of :
    (es : List Event) (n : ℕ) (error : Option BoardEngineError) {t : Thread}
    → get_elem? (after es new).threads n ≡ some t
    → status (finish n error (after es new)) t.board_id
      ≡ some (record { run_id = t.run_id; board_id = t.board_id; status = status_of true error })
unfolding status
finish-status_of es n error {t} here =
    let s = after es new in
    let (r, found, own) = thread_run n s t (after-Counted es new new-Counted) here in
    ap (λ (m : Dict Run). run_status t.board_id (lookup t.board_id m))
      (finish-runs n error s t r here found)
    ∙ ap (run_status t.board_id) (lookup-insert_self t.board_id (ended_run error r) s.runs)
    ∙ ap (λ (id : String). some (ended_status id t.board_id error)) own

-- The status of a run that has ended with the error, or without one.
abbrev pub EndsAs : Option BoardEngineError → Status → Type 0
EndsAs error ending =
    ((error ≡ none) × (ending ≡ completed))
    ⊎ (((error ≡ some cancelled) × (ending ≡ was_cancelled))
        ⊎ ((e : BoardEngineError) × ((error ≡ some e)
              × ((e ≢ cancelled) × (ending ≡ has_failed e)))))

status_of-EndsAs : (error : Option BoardEngineError) → EndsAs error (status_of true error)
unfolding status_of
status_of-EndsAs none = inl (refl, refl)
status_of-EndsAs (some cancelled) = inr (inl (refl, refl))
status_of-EndsAs (some not_configured) = inr (inr (not_configured, (refl, ((λ h. cc), refl))))
status_of-EndsAs (some empty_board) = inr (inr (empty_board, (refl, ((λ h. cc), refl))))
status_of-EndsAs (some already_running) = inr (inr (already_running, (refl, ((λ h. cc), refl))))
status_of-EndsAs (some not_running) = inr (inr (not_running, (refl, ((λ h. cc), refl))))
status_of-EndsAs (some (missing_node id)) = inr (inr (missing_node id, (refl, ((λ h. cc), refl))))
status_of-EndsAs (some (failed f)) = inr (inr (failed f, (refl, ((λ h. cc), refl))))
status_of-EndsAs (some (completed_with_errors message)) =
    inr (inr (completed_with_errors message, (refl, ((λ h. cc), refl))))
status_of-EndsAs (some (store e)) = inr (inr (store e, (refl, ((λ h. cc), refl))))

-- After any sequence of events on a new engine, when a live thread ends with a given error or
-- none, the status of its board names the run the thread was started for, and is completed without
-- an error, cancelled when the error is the cancellation, and failed with any other error.
pub finish-status :
    (es : List Event) (n : ℕ) (error : Option BoardEngineError) {t : Thread}
    → get_elem? (after es new).threads n ≡ some t
    → (ending : Status) × EndsAs error ending
      × (status (finish n error (after es new)) t.board_id
          ≡ some (record { run_id = t.run_id; board_id = t.board_id; status = ending }))
finish-status es n error here =
    (status_of true error, status_of-EndsAs error, finish-status_of es n error here)
