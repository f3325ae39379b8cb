-- ===== src/Flow/Order.antt =====
-- The operations of a flow run one after another, each after the one before it has completed.
use gn_drive.Common.{
  ℕ, suc, String, ◌≡◌, refl, ◌⊎◌, inl, inr, Bool, true, false, ◌||◌, List, [], ◌∷◌, ◌+◌, ◌≢◌, sym,
  ap, ◌∙◌, arith,
}
use gn_drive.Common.Text.{Text}
use gn_drive.Common.Result.{Result, ok, err}
use gn_drive.Profile.{Numerics}
use gn_drive.Sync.{
  SyncEngineError, task_cancelled, not_running, store_not_ready, profile_busy, task_not_found,
  task_failed, store_failed,
}
use mathlib.Core.Path.{subst}
use gn_drive.Flow.{
  FlowOperation, Report, World, request, run_ops, run_op, after_start, after_wait, after_error,
  ends_at, goes_on, is_task_cancelled,
}
use gn_drive.Flow.Errors.{display, friendly_task_err}
use gn_drive.Flow.Outcomes.{Passes, Fails, IsStopped, IsInOrder}

module _ (N : Numerics) where
  next_number : (n k : ℕ) → suc n + k ≡ n + suc k
  next_number n k = omega arith

  later : (n k : ℕ) (P : ℕ → Type 0) → P (suc n + k) → P (n + suc k)
  later n k P h = subst P (next_number n k) h

  goes_on-IsInOrder :
      (w : World N.Float) (n : ℕ) (flow_id : String) (op : FlowOperation N.Number)
      (ops : List (FlowOperation N.Number)) (r : Report N.Float)
      → Passes N w n flow_id op
      → IsInOrder N w (suc n) flow_id ops r
      → IsInOrder N w n flow_id (op ∷ ops) (goes_on N flow_id op r)
  goes_on-IsInOrder w n flow_id op ops r pass (inl (all, f, q, p, s)) =
      inl ((pass, all), f, rw q refl, rw p refl, s)
  goes_on-IsInOrder w n flow_id op ops r pass (inr (k, o, here, passed, inl (c, f, q, p, s))) =
      inr (
        suc k,
        o,
        here,
        (pass, passed),
        inl (later n k (λ i. w.is_cancelled i ≡ true) c, f, rw q refl, rw p refl, s),
      )
  goes_on-IsInOrder w n flow_id op ops r pass
        (inr (k, o, here, passed, inr (c, q, inl (error, why, f, s, p)))) =
      inr (
        suc k,
        o,
        here,
        (pass, passed),
        inr (
          later n k (λ i. w.is_cancelled i ≡ false) c,
          rw q refl,
          inl (error, later n k (λ i. Fails N w i flow_id o error) why, f, s, rw p refl),
        ),
      )
  goes_on-IsInOrder w n flow_id op ops r pass
        (inr (k, o, here, passed, inr (c, q, inr (task, why, f, s, p)))) =
      inr (
        suc k,
        o,
        here,
        (pass, passed),
        inr (
          later n k (λ i. w.is_cancelled i ≡ false) c,
          rw q refl,
          inr (task, later n k (λ i. IsStopped N w i flow_id o task) why, f, s, rw p refl),
        ),
      )

  first_number : (n : ℕ) → n ≡ n + 0
  first_number n = omega arith

  Fails-first :
      (w : World N.Float) (n : ℕ) (flow_id : String) (op : FlowOperation N.Number)
      (ops : List (FlowOperation N.Number)) (error : Text)
      → w.is_cancelled n ≡ false
      → Fails N w n flow_id op error
      → IsInOrder N w n flow_id (op ∷ ops) (ends_at N flow_id op [] "failed" error)
  Fails-first w n flow_id op ops error calm why = inr (
    0,
    op,
    refl,
    tt,
    inr (
      subst (λ i. w.is_cancelled i ≡ false) (first_number n) calm,
      refl,
      inl (error, subst (λ i. Fails N w i flow_id op error) (first_number n) why, refl, refl, refl),
    ),
  )

  IsStopped-first :
      (w : World N.Float) (n : ℕ) (flow_id : String) (op : FlowOperation N.Number)
      (ops : List (FlowOperation N.Number)) (task : String)
      → w.is_cancelled n ≡ false
      → IsStopped N w n flow_id op task
      → IsInOrder N w n flow_id (op ∷ ops) (ends_at N flow_id op (task ∷ []) "cancelled" [])
  IsStopped-first w n flow_id op ops task calm why = inr (
    0,
    op,
    refl,
    tt,
    inr (
      subst (λ i. w.is_cancelled i ≡ false) (first_number n) calm,
      refl,
      inr (
        task,
        subst (λ i. IsStopped N w i flow_id op task) (first_number n) why,
        refl,
        refl,
        refl,
      ),
    ),
  )

  task_cancelled_iff : (e : SyncEngineError) → is_task_cancelled e ≡ true → e ≡ task_cancelled
  task_cancelled_iff task_cancelled h = refl
  task_cancelled_iff not_running h = cc
  task_cancelled_iff store_not_ready h = cc
  task_cancelled_iff profile_busy h = cc
  task_cancelled_iff task_not_found h = cc
  task_cancelled_iff (task_failed m) h = cc
  task_cancelled_iff (store_failed e) h = cc

  stop_reason :
      (b : Bool) (e : SyncEngineError)
      → (b || is_task_cancelled e) ≡ true
      → (b ≡ true) ⊎ (e ≡ task_cancelled)
  stop_reason true e h = inl refl
  stop_reason false e h = inr (task_cancelled_iff e h)

  fail_reason :
      (b : Bool) (e : SyncEngineError)
      → (b || is_task_cancelled e) ≡ false
      → (b ≡ false) × (e ≢ task_cancelled)
  fail_reason true e h = cc
  fail_reason false e h = (refl, λ same. let k = sym (ap is_task_cancelled same) ∙ h in cc)

  module _ (w : World N.Float) (n : ℕ) (flow_id : String) (op : FlowOperation N.Number)
      (ops : List (FlowOperation N.Number)) where
    after_error-IsInOrder :
        (b : Bool) (task : String) (e : SyncEngineError)
        → (w.is_cancelled_after n || is_task_cancelled e) ≡ b
        → w.is_cancelled n ≡ false
        → w.start_path_sync n (request N flow_id op) ≡ ok task
        → w.wait_task n task ≡ err e
        → IsInOrder N w n flow_id (op ∷ ops) (after_error N b flow_id op task e)
    after_error-IsInOrder true task e b calm started waited =
        IsStopped-first w n flow_id op ops task calm
          (e, started, waited, stop_reason (w.is_cancelled_after n) e b)
    after_error-IsInOrder false task e b calm started waited =
        let (on, other) = fail_reason (w.is_cancelled_after n) e b in
        Fails-first w n flow_id op ops (friendly_task_err e) calm
          (inr (task, e, started, waited, on, other, refl))

    after_wait-IsInOrder :
        (task : String) (answer : Result SyncEngineError (Unit {0})) (r : Report N.Float)
        → w.is_cancelled n ≡ false
        → w.start_path_sync n (request N flow_id op) ≡ ok task
        → w.wait_task n task ≡ answer
        → IsInOrder N w (suc n) flow_id ops r
        → IsInOrder N w n flow_id
            (op ∷ ops)
            (after_wait N (w.is_cancelled_after n) flow_id op task answer r)
    after_wait-IsInOrder task (ok u) r calm started waited h =
        goes_on-IsInOrder w n flow_id op ops r (calm, task, started, waited) h
    after_wait-IsInOrder task (err e) r calm started waited h =
        after_error-IsInOrder (w.is_cancelled_after n || is_task_cancelled e) task e refl calm
          started waited

    after_start-IsInOrder :
        (answer : Result SyncEngineError String) (r : Report N.Float)
        → w.is_cancelled n ≡ false
        → w.start_path_sync n (request N flow_id op) ≡ answer
        → IsInOrder N w (suc n) flow_id ops r
        → IsInOrder N w n flow_id (op ∷ ops) (after_start N w n flow_id op answer r)
    after_start-IsInOrder (err e) r calm started h =
        Fails-first w n flow_id op ops (display e) calm (inl (e, started, refl))
    after_start-IsInOrder (ok task) r calm started h =
        after_wait-IsInOrder task (w.wait_task n task) r calm started refl h

    run_op-IsInOrder :
        (b : Bool) (r : Report N.Float)
        → w.is_cancelled n ≡ b
        → IsInOrder N w (suc n) flow_id ops r
        → IsInOrder N w n flow_id (op ∷ ops) (run_op N b w n flow_id op r)
    run_op-IsInOrder true r told h = inr (
      0,
      op,
      refl,
      tt,
      inl (subst (λ i. w.is_cancelled i ≡ true) (first_number n) told, refl, refl, refl, refl),
    )
    run_op-IsInOrder false r told h =
        after_start-IsInOrder (w.start_path_sync n (request N flow_id op)) r told refl h

  -- For any world and flow run from round `n` on, either every operation passed (at its round the
  -- flow was not cancelled, its sync started and the wait for its task succeeded), was asked for
  -- and published as running and completed, in order, and the final status is completed; or there
  -- is an operation before which all passed and were asked for and completed in order, and either
  -- the flow was cancelled at its round and it was not asked for; or it was the last one asked for
  -- and published as failed, with the error with which its sync did not start or its wait ended,
  -- neither the flow nor the task being cancelled; or its wait ended with an error, the flow or
  -- the task being cancelled, and the task was stopped once.
  pub run_ops-IsInOrder :
      (w : World N.Float) (n : ℕ) (flow_id : String) (ops : List (FlowOperation N.Number))
      → IsInOrder N w n flow_id ops (run_ops N w n flow_id ops)
  unfolding run_ops
  run_ops-IsInOrder w n flow_id [] = inl (tt, refl, refl, refl, refl)
  run_ops-IsInOrder w n flow_id (op ∷ ops) =
      run_op-IsInOrder w n flow_id op ops (w.is_cancelled n) (run_ops N w (suc n) flow_id ops) refl
        (run_ops-IsInOrder w (suc n) flow_id ops)
