-- ===== src/Flow/Registry/Threads.antt =====
-- A flow has one thread while it is running and none otherwise, and what `status` answers then.
use gn_drive.Common.{
  ℕ, String, ◌≡◌, refl, sym, ◌∙◌, inl, inr, Bool, true, false, Option, none, some, List, [], ◌∷◌,
  lookup, is_some, held, held-insert, held-remove, one_more, one_less, free_key, lookup-insert,
  lookup-remove, get_elem?, remove_at, count_by, count_by-remove_at, if◌then◌else◌, ◌==◌, string_eq,
  eq_iff, beq_self, Bool-cases,
}
use gn_drive.Common.Result.{Result, ok, err}
use gn_drive.Sync.{StoreError}
use gn_drive.Flow.{Flow}
use gn_drive.Profile.Config.{is_empty}
use gn_drive.Flow.Registry.{
  State, Run, Event, begins, stops, finishes, begin, begin_with, begun, stop, stop_run, finish,
  end_run, step, after, new, status,
}

unfoldable pub live : String → List String → ℕ
live flow_id ts = count_by (λ (t : String). t == flow_id) ts

abbrev IsCounted : State → Type 0
IsCounted s = (k : String) → live k s.threads ≡ held k s.runs

begun-IsCounted :
    (b : Bool) (id : String) (s : State)
    → is_some (lookup id s.runs) ≡ b
    → IsCounted s
    → IsCounted (begun id b s).1
unfolding live
begun-IsCounted true id s e h = h
begun-IsCounted false id s e h = λ k.
    one_more id k (record { cancelled = false; status = "running" }) s.runs (live k s.threads)
      (λ same. free_key id k s.runs e same) (h k)

stop_run-IsCounted :
    (o : Option Run) (id : String) (s : State)
    → lookup id s.runs ≡ o
    → IsCounted s
    → IsCounted (stop_run id o s).1
stop_run-IsCounted none id s e h = h
stop_run-IsCounted (some r) id s e h = λ k.
    h k
    ∙ sym (
        rw (held-insert id k (record { cancelled = true; status = "cancelling" }) s.runs)
          (elim (Bool-cases (id == k)) [
            | inl same ↦ rw (same, ← (eq_iff id k).0 same, e) refl
            | inr other ↦ rw other refl
          ]))

end_run-IsCounted :
    (o : Option String) (n : ℕ) (final : String) (s : State)
    → get_elem? s.threads n ≡ o
    → IsCounted s
    → IsCounted (end_run n final o s)
unfolding live
end_run-IsCounted none n final s e h = h
end_run-IsCounted (some id) n final s e h = λ k.
    one_less id k s.runs (live k (remove_at n s.threads))
      (sym (count_by-remove_at (λ (t : String). t == k) n s.threads id e) ∙ h k)

begin_with-IsCounted :
    {Number : Type 0} (answer : Result StoreError (Flow Number)) (id : String) (s : State)
    → IsCounted s
    → IsCounted (begin_with answer id s).1
begin_with-IsCounted (err e) id s h = h
begin_with-IsCounted (ok f) id s h = elim (Bool-cases (is_empty f.operations)) [
  | inl e ↦ rw e h
  | inr e ↦ rw e (begun-IsCounted (is_some (lookup id s.runs)) id s refl h)
]

step-IsCounted :
    {Number : Type 0} (e : Event Number) (s : State) → IsCounted s → IsCounted (step e s)
unfolding step begin stop finish
step-IsCounted (begins none id) s h = h
step-IsCounted (begins (some answer) id) s h = begin_with-IsCounted answer id s h
step-IsCounted (stops id) s h = stop_run-IsCounted (lookup id s.runs) id s refl h
step-IsCounted (finishes n final) s h = end_run-IsCounted (get_elem? s.threads n) n final s refl h

after-IsCounted :
    {Number : Type 0} (es : List (Event Number)) (s : State) → IsCounted s → IsCounted (after es s)
unfolding after
after-IsCounted [] s h = h
after-IsCounted (e ∷ es) s h = after-IsCounted es (step e s) (step-IsCounted e s h)

-- After any sequence of begin, stop and the ends of runs on a new flow engine, a flow has one
-- thread if it is registered as running and none otherwise.
pub live-after :
    {Number : Type 0} (es : List (Event Number)) (flow_id : String)
    → live flow_id (after es new).threads
      ≡ (if is_some (lookup flow_id (after es new).runs) then 1 else 0)
unfolding live lookup
live-after es flow_id = after-IsCounted es new (λ k. refl) flow_id

-- After any such sequence, when a thread ends with a final status, status answers this for its
-- flow, and no thread of the flow is left.
pub status-finish :
    {Number : Type 0} (es : List (Event Number)) (n : ℕ) (final flow_id : String)
    → get_elem? (after es new).threads n ≡ some flow_id
    → (status (finish n final (after es new)) flow_id ≡ final)
      × (live flow_id (finish n final (after es new)).threads ≡ 0)
unfolding status finish live lookup
status-finish es n final flow_id here =
    let s = after es new in
    let counted =
      end_run-IsCounted (some flow_id) n final s here (after-IsCounted es new (λ k. refl))
        flow_id in
    rw here (
      rw
          (
            lookup-remove flow_id flow_id s.runs,
            lookup-insert flow_id flow_id final s.last_status,
            beq_self flow_id,
          )
          refl,
      counted ∙ rw (held-remove flow_id flow_id s.runs, beq_self flow_id) refl,
    )
