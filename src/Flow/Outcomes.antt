-- ===== src/Flow/Outcomes.antt =====
-- How a run of the operations of a flow may end.
use gn_drive.Common.{
  ℕ, suc, String, ◌≡◌, ◌⊎◌, true, false, some, List, [], ◌∷◌, ◌++◌, map, get_elem?, take, ◌+◌, ◌≢◌,
}
use gn_drive.Common.Text.{Text}
use gn_drive.Common.Result.{ok, err}
use gn_drive.Profile.{Numerics}
use gn_drive.Sync.{SyncEngineError, task_cancelled}
use gn_drive.Flow.{FlowOperation, Report, World, Publication, publication, request}
use gn_drive.Flow.Errors.{display, friendly_task_err}

module _ (N : Numerics) where
  -- What is published of operations that are done.
  abbrev pub rounds : String → List (FlowOperation N.Number) → List Publication
  rounds flow_id [] = []
  rounds flow_id (op ∷ ops) =
      publication flow_id op.id "running" []
      ∷ publication flow_id op.id "completed" []
      ∷ rounds flow_id ops

  -- At the number of the round the flow is not cancelled, the operation's sync starts, and the wait
  -- for its task succeeds.
  abbrev pub Passes : World N.Float → ℕ → String → FlowOperation N.Number → Type 0
  Passes w i flow_id op =
      (w.is_cancelled i ≡ false)
      × (task : String) × (w.start_path_sync i (request N flow_id op) ≡ ok task)
      × (w.wait_task i task ≡ ok tt)

  abbrev pub AllPass : World N.Float → ℕ → String → List (FlowOperation N.Number) → Type 0
  AllPass w n flow_id [] = Unit
  AllPass w n flow_id (op ∷ ops) = Passes w n flow_id op × AllPass w (suc n) flow_id ops

  -- The sync does not start, or the wait for its task fails for another reason than a cancellation.
  abbrev pub Fails : World N.Float → ℕ → String → FlowOperation N.Number → Text → Type 0
  Fails w i flow_id op error =
      ((e : SyncEngineError) × (w.start_path_sync i (request N flow_id op) ≡ err e)
        × (error ≡ display e))
      ⊎ ((task : String) × (e : SyncEngineError) × (w.start_path_sync i (request N flow_id op)
            ≡ ok task)
          × (w.wait_task i task ≡ err e)
          × (w.is_cancelled_after i ≡ false)
          × (e ≢ task_cancelled)
          × (error ≡ friendly_task_err e))

  -- The wait for the task ends with an error, and the flow or the task was cancelled.
  abbrev pub IsStopped : World N.Float → ℕ → String → FlowOperation N.Number → String → Type 0
  IsStopped w i flow_id op task =
      (e : SyncEngineError) × (w.start_path_sync i (request N flow_id op) ≡ ok task)
      × (w.wait_task i task ≡ err e)
      × ((w.is_cancelled_after i ≡ true) ⊎ (e ≡ task_cancelled))

  -- Every operation passed, was asked for and completed, in order.
  abbrev pub IsCompleted :
      World N.Float → ℕ → String → List (FlowOperation N.Number) → Report N.Float → Type 0
  IsCompleted w n flow_id ops r =
      AllPass w n flow_id ops
      × (r.final_status ≡ "completed")
      × (r.requests ≡ map (request N flow_id) ops)
      × (r.published ≡ rounds flow_id ops)
      × (r.stopped ≡ [])

  -- The flow was cancelled at the round of a number: the operations before it completed, and no
  -- other was asked for.
  abbrev pub IsCancelledAt :
      World N.Float → ℕ → ℕ → String → List (FlowOperation N.Number) → Report N.Float → Type 0
  IsCancelledAt w i k flow_id ops r =
      (w.is_cancelled i ≡ true)
      × (r.final_status ≡ "cancelled")
      × (r.requests ≡ map (request N flow_id) (take k ops))
      × (r.published ≡ rounds flow_id (take k ops))
      × (r.stopped ≡ [])

  -- What is published by a run that ends at an operation.
  abbrev pub rounds_to :
      ℕ
      → FlowOperation N.Number
      → String
      → String
      → Text
      → List (FlowOperation N.Number)
      → List Publication
  rounds_to k op status flow_id error ops =
      rounds flow_id (take k ops)
      ++ publication flow_id op.id "running" [] ∷ publication flow_id op.id status error ∷ []

  -- The operations before one completed, it was the last one asked for, and it failed, or was
  -- stopped with its task.
  abbrev pub EndsAt :
      World N.Float
      → ℕ
      → ℕ
      → FlowOperation N.Number
      → String
      → List (FlowOperation N.Number)
      → Report N.Float
      → Type 0
  EndsAt w i k op flow_id ops r =
      (w.is_cancelled i ≡ false)
      × (r.requests ≡ map (request N flow_id) (take (suc k) ops))
      × (((error : Text) × Fails w i flow_id op error
            × (r.final_status ≡ "failed")
            × (r.stopped ≡ [])
            × (r.published ≡ rounds_to k op "failed" flow_id error ops))
          ⊎ ((task : String) × IsStopped w i flow_id op task
              × (r.final_status ≡ "cancelled")
              × (r.stopped ≡ task ∷ [])
              × (r.published ≡ rounds_to k op "cancelled" flow_id [] ops)))

  abbrev pub IsInOrder :
      World N.Float → ℕ → String → List (FlowOperation N.Number) → Report N.Float → Type 0
  IsInOrder w n flow_id ops r =
      IsCompleted w n flow_id ops r
      ⊎ ((k : ℕ) × (op : FlowOperation N.Number) × (get_elem? ops k ≡ some op)
          × AllPass w n flow_id (take k ops)
          × (IsCancelledAt w (n + k) k flow_id ops r ⊎ EndsAt w (n + k) k op flow_id ops r))
