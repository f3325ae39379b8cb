-- ===== src/Sync/Exclusion.antt =====
-- At most one thread of a busy key, in an engine that is started once.
use gn_drive.Common.{
  ℕ, zero, suc, ◌+◌, ◌≤◌, String, ◌≡◌, refl, sym, ap, ◌∙◌, inl, inr, Bool, true, false, ◌||◌,
  Option, none, some, List, [], ◌∷◌, map, Dict, lookup, ◌==◌, string_eq, get_elem?, remove_at,
  count_by, count_by-remove_at, All, arith, Bool-cases, held, one_more, one_if, free_key,
  held_again, one_less, held-le_one,
}
use gn_drive.Common.Text.{Text}
use gn_drive.Common.Result.{Result, ok, err}
use gn_drive.Sync.{
  SyncTask, Engine, Event, step, after, new, start, stop_admission, stop_workers, claim, admit,
  stop_sync, run, finish, wait_round, starts, stops_admission, stops_workers, claims_key, admits,
  stops_sync, runs, finishes, waits, is_cancelled_status, is_some, is_busy, cancel_if_in,
  cancel_by_id, run_sync, failed_task, set_at, harvest, claim_unless, admit_claim, admit_if,
  stop_task, run_thread, drop_thread, take_outcome, SyncFailedError, TaskOutcome,
}

-- The threads and the waiting calls of a key.
unfoldable pub live : String → List SyncTask → ℕ
live key ts = count_by (λ (t : SyncTask). t.name == key) ts

unfoldable pub waiting : String → List String → ℕ
waiting key claims = count_by (λ (k : String). k == key) claims

live-map :
    (f : SyncTask → SyncTask)
    → ((t : SyncTask) → (f t).name ≡ t.name)
    → (key : String) (ts : List SyncTask) → live key (map f ts) ≡ live key ts
unfolding live
live-map f same key [] = refl
live-map f same key (t ∷ ts) = rw (same t, live-map f same key ts) refl

failed_task-name :
    (b : Bool) (message : Text) (t : SyncTask) → (failed_task b message t).name ≡ t.name
failed_task-name true message t = refl
failed_task-name false message t = refl

run_sync-name :
    (answer : Option (Result SyncFailedError (Unit {0}))) (t : SyncTask)
    → (run_sync answer t).name ≡ t.name
unfolding run_sync
run_sync-name none t = refl
run_sync-name (some (ok u)) t = refl
run_sync-name (some (err e)) t =
    failed_task-name (t.token_cancelled || is_cancelled_status t.status || e.cancelled) e.message t

live-set_at :
    (n : ℕ) (key : String) (ts : List SyncTask) (t u : SyncTask)
    → get_elem? ts n ≡ some t
    → u.name ≡ t.name
    → live key (set_at n u ts) ≡ live key ts
unfolding live
live-set_at n key [] t u h same = refl
live-set_at zero key (x ∷ ts) t u h same =
    let found : x ≡ t = ap (λ (o : Option SyncTask). elim o [ none ↦ x | some z ↦ z ]) h in
    rw (found, same) refl
live-set_at (suc n) key (x ∷ ts) t u h same = rw (live-set_at n key ts t u h same) refl

-- While the engine is running, a key is busy exactly when one call waits or one thread runs for it.
abbrev Accounted : Engine → Type 0
Accounted s = (k : String) → waiting k s.claims + live k s.threads ≡ held k s.busy

abbrev pub IsExclusive : Engine → Type 0
IsExclusive s =
    (s.is_running ≡ true → (s.stopping ≡ 0) × Accounted s) × ((k : String) → live k s.threads ≤ 1)

same_threads :
    (s t : Engine)
    → t.is_running ≡ s.is_running
    → t.stopping ≡ s.stopping
    → t.claims ≡ s.claims
    → t.busy ≡ s.busy
    → ((k : String) → live k t.threads ≡ live k s.threads)
    → IsExclusive s
    → IsExclusive t
same_threads s t run stop claims busy threads (account, single) = (
  λ h. (
    stop ∙ (account (sym run ∙ h)).0,
    λ k. rw (claims, busy, threads k) ((account (sym run ∙ h)).1 k),
  ),
  λ k. rw (threads k) (single k),
)

claim_unless-IsExclusive :
    (b : Bool) (key : String) (s : Engine)
    → is_busy s key ≡ b
    → IsExclusive s
    → IsExclusive (claim_unless b key s).1
unfolding is_busy waiting
claim_unless-IsExclusive true key s free h = h
claim_unless-IsExclusive false key s free (account, single) = (
  λ h. (
    (account h).0,
    λ k.
        let more =
          one_more key k tt s.busy (waiting k s.claims + live k s.threads)
            (λ e. free_key key k s.busy free e) ((account h).1 k) in
        omega (arith, more),
  ),
  single,
)

admit_if-IsExclusive :
    (b : Bool) (n : ℕ) (id key : String) (s : Engine)
    → s.is_running ≡ b
    → get_elem? s.claims n ≡ some key
    → IsExclusive s
    → IsExclusive (admit_if b n id key s).1
unfolding live waiting
admit_if-IsExclusive false n id key s is_on here (account, single) =
    (λ h. absurd (ground (arith, is_on, h)), single)
admit_if-IsExclusive true n id key s is_on here (account, single) = (
  λ h. (
    (account h).0,
    λ k.
        let gone : waiting k s.claims ≡ one_if (key == k) + waiting k (remove_at n s.claims) =
          count_by-remove_at (λ (c : String). c == k) n s.claims key here in
        let all = (account h).1 k in
        let same =
          held_again key k tt s.busy (waiting k (remove_at n s.claims) + live k s.threads)
            (omega (arith, gone, all)) in
        omega (arith, gone, all, same),
  ),
  λ k.
      let gone : waiting k s.claims ≡ one_if (key == k) + waiting k (remove_at n s.claims) =
        count_by-remove_at (λ (c : String). c == k) n s.claims key here in
      omega (arith, gone, (account is_on).1 k, held-le_one k s.busy),
)

admit_claim-IsExclusive :
    (o : Option String) (n : ℕ) (id : String) (s : Engine)
    → get_elem? s.claims n ≡ o
    → IsExclusive s
    → IsExclusive (admit_claim n id o s).1
admit_claim-IsExclusive none n id s here h = h
admit_claim-IsExclusive (some key) n id s here h =
    admit_if-IsExclusive s.is_running n id key s refl here h

cancel_if_in-name : (tasks : Dict (Unit {0})) (t : SyncTask) → (cancel_if_in tasks t).name ≡ t.name
cancel_if_in-name tasks t = elim (Bool-cases (is_some (lookup t.id tasks))) [
  | inl e ↦ rw e refl
  | inr e ↦ rw e refl
]

cancel_by_id-name : (id : String) (t : SyncTask) → (cancel_by_id id t).name ≡ t.name
cancel_by_id-name id t = elim (Bool-cases (t.id == id)) [ inl e ↦ rw e refl | inr e ↦ rw e refl ]

harvest-IsExclusive :
    (n : ℕ) (s : Engine) → s.stopping ≡ n → IsExclusive s → IsExclusive (harvest n s)
harvest-IsExclusive zero s e h = h
harvest-IsExclusive (suc n) s e (account, single) = (
  λ h. absurd (omega (arith, e, (account h).0)),
  λ k. rw (live-map (cancel_if_in s.tasks) (cancel_if_in-name s.tasks) k s.threads) (single k),
)

drop_thread-IsExclusive :
    (n : ℕ) (o : Option SyncTask) (s : Engine)
    → get_elem? s.threads n ≡ o
    → IsExclusive s
    → IsExclusive (drop_thread n o s)
unfolding live
drop_thread-IsExclusive n none s here h = h
drop_thread-IsExclusive n (some t) s here (account, single) = (
  λ h. (
    (account h).0,
    λ k.
        let gone : live k s.threads ≡ one_if (t.name == k) + live k (remove_at n s.threads) =
          count_by-remove_at (λ (u : SyncTask). u.name == k) n s.threads t here in
        one_less t.name k s.busy (waiting k s.claims + live k (remove_at n s.threads))
          (omega (arith, gone, (account h).1 k)),
  ),
  λ k.
      let gone : live k s.threads ≡ one_if (t.name == k) + live k (remove_at n s.threads) =
        count_by-remove_at (λ (u : SyncTask). u.name == k) n s.threads t here in
      omega (arith, gone, single k),
)

stop_task-IsExclusive :
    (o : Option (Unit {0})) (id : String) (s : Engine)
    → IsExclusive s
    → IsExclusive (stop_task o id s).1
stop_task-IsExclusive none id s h = h
stop_task-IsExclusive (some u) id s h =
    same_threads s (stop_task (some u) id s).1 refl refl refl refl
      (λ k. live-map (cancel_by_id id) (cancel_by_id-name id) k s.threads) h

run_thread-IsExclusive :
    (n : ℕ) (answer : Option (Result SyncFailedError (Unit {0}))) (o : Option SyncTask) (s : Engine)
    → get_elem? s.threads n ≡ o
    → IsExclusive s
    → IsExclusive (run_thread n answer o s)
run_thread-IsExclusive n answer none s here h = h
run_thread-IsExclusive n answer (some t) s here h =
    same_threads s (run_thread n answer (some t) s) refl refl refl refl
      (λ k. live-set_at n k s.threads t (run_sync answer t) here (run_sync-name answer t)) h

wait_round-IsExclusive :
    (gives_up : Bool) (id : String) (s : Engine)
    → IsExclusive s
    → IsExclusive (wait_round gives_up id s).1
unfolding wait_round
wait_round-IsExclusive true id s h = h
wait_round-IsExclusive false id s h = go (lookup id s.outcomes)
  where
    go : (o : Option TaskOutcome) → IsExclusive (take_outcome id o s).1
    go none = h
    go (some o) = h

-- The event is no call of `start`.
abbrev pub IsNoStart : Event → Type 0
IsNoStart starts = ⊥
IsNoStart stops_admission = Unit
IsNoStart stops_workers = Unit
IsNoStart (claims_key key) = Unit
IsNoStart (admits n id) = Unit
IsNoStart (stops_sync id) = Unit
IsNoStart (runs n answer) = Unit
IsNoStart (finishes n) = Unit
IsNoStart (waits gives_up id) = Unit

step-IsExclusive : (e : Event) (s : Engine) → IsNoStart e → IsExclusive s → IsExclusive (step e s)
unfolding step stop_admission stop_workers claim admit stop_sync run finish
step-IsExclusive starts s ok_event h = absurd ok_event
step-IsExclusive stops_admission s ok_event h = (λ e. absurd (ground arith), h.1)
step-IsExclusive stops_workers s ok_event h = harvest-IsExclusive s.stopping s refl h
step-IsExclusive (claims_key key) s ok_event h =
    claim_unless-IsExclusive (is_busy s key) key s refl h
step-IsExclusive (admits n id) s ok_event h =
    admit_claim-IsExclusive (get_elem? s.claims n) n id s refl h
step-IsExclusive (stops_sync id) s ok_event h = stop_task-IsExclusive (lookup id s.tasks) id s h
step-IsExclusive (runs n answer) s ok_event h =
    run_thread-IsExclusive n answer (get_elem? s.threads n) s refl h
step-IsExclusive (finishes n) s ok_event h =
    drop_thread-IsExclusive n (get_elem? s.threads n) s refl h
step-IsExclusive (waits gives_up id) s ok_event h = wait_round-IsExclusive gives_up id s h

after-IsExclusive :
    (es : List Event) (s : Engine) → All IsNoStart es → IsExclusive s → IsExclusive (after es s)
unfolding after
after-IsExclusive [] s allowed h = h
after-IsExclusive (e ∷ es) s (first, rest) h =
    after-IsExclusive es (step e s) rest (step-IsExclusive e s first h)

-- After any sequence of steps other than a start on an engine that has been started once, at most
-- one thread runs for a busy key.
pub after-live :
    (es : List Event)
    → All IsNoStart es
    → (key : String) → live key (after es (start new)).threads ≤ 1
unfolding start live waiting lookup
after-live es allowed key =
    (after-IsExclusive es (start new) allowed (λ h. (refl, λ k. refl), λ k. omega arith)).1 key
