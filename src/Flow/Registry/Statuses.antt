-- ===== src/Flow/Registry/Statuses.antt =====
-- `statuses` lists what `status` answers.
use gn_drive.Common.{
  ℕ, String, ◌≡◌, refl, inl, inr, Bool, true, false, Option, none, some, List, [], ◌∷◌, Dict,
  lookup, insert, remove, is_some, lookup-insert, get_elem?, ◌==◌, string_eq, All, Bool-cases,
}
use gn_drive.Common.Result.{Result, ok, err}
use gn_drive.Sync.{StoreError}
use gn_drive.Flow.{Flow}
use gn_drive.Profile.Config.{is_empty}
use gn_drive.Flow.Registry.{
  State, Run, Event, begins, stops, finishes, begin, begin_with, begun, stop, stop_run, finish,
  end_run, step, after, new, status, statuses, filled, with_runs, run_status, or_text,
}

-- A map without an entry whose status is empty.
abbrev HasNoEmpty {ℓ} : {V : Type ℓ} → (V → String) → Dict V → Type 0
HasNoEmpty text [] = Unit
HasNoEmpty text ((id, v) ∷ rest) = ((text v == "") ≡ false) × HasNoEmpty text rest

remove-HasNoEmpty :
    {V : Type 0} (text : V → String) (id : String) (m : Dict V)
    → HasNoEmpty text m
    → HasNoEmpty text (remove id m)
unfolding remove
remove-HasNoEmpty text id [] h = h
remove-HasNoEmpty text id ((k, v) ∷ rest) h = elim (Bool-cases (k == id)) [
  | inl e ↦ rw e (remove-HasNoEmpty text id rest h.1)
  | inr e ↦ rw e (h.0, remove-HasNoEmpty text id rest h.1)
]

insert-HasNoEmpty :
    {V : Type 0} (text : V → String) (id : String) (v : V) (m : Dict V)
    → (text v == "") ≡ false
    → HasNoEmpty text m
    → HasNoEmpty text (insert id v m)
unfolding insert
insert-HasNoEmpty text id v m e h = (e, remove-HasNoEmpty text id m h)

abbrev text_of_run : Run → String
text_of_run r = r.status

abbrev text_of_status : String → String
text_of_status v = v

abbrev IsListable : State → Type 0
IsListable s = HasNoEmpty text_of_run s.runs × HasNoEmpty text_of_status s.last_status

filled-HasNoEmpty : (m : Dict String) → HasNoEmpty text_of_status m → filled m ≡ m
filled-HasNoEmpty [] h = refl
filled-HasNoEmpty ((id, v) ∷ rest) h = rw (h.0, filled-HasNoEmpty rest h.1) refl

listed :
    (runs : Dict Run) (out : Dict String) (id : String)
    → HasNoEmpty text_of_run runs
    → or_text "idle" (lookup id (with_runs runs out)) ≡ run_status (lookup id runs) (lookup id out)
unfolding with_runs lookup
listed [] out id h = refl
listed ((k, r) ∷ rest) out id h =
    rw (h.0, lookup-insert k id r.status (with_runs rest out))
      (elim (Bool-cases (k == id)) [ inl e ↦ rw e refl | inr e ↦ rw e (listed rest out id h.1) ])

-- The status that `run` ends with is no empty text.
abbrev pub EndsNamed : {Number : Type 0} → Event Number → Type 0
EndsNamed (begins answer id) = Unit
EndsNamed (stops id) = Unit
EndsNamed (finishes n final) = (final == "") ≡ false

begun-IsListable : (b : Bool) (id : String) (s : State) → IsListable s → IsListable (begun id b s).1
begun-IsListable true id s h = h
begun-IsListable false id s h = (
  insert-HasNoEmpty text_of_run id (record { cancelled = false; status = "running" }) s.runs refl
      h.0,
  remove-HasNoEmpty text_of_status id s.last_status h.1,
)

begin_with-IsListable :
    {Number : Type 0} (answer : Result StoreError (Flow Number)) (id : String) (s : State)
    → IsListable s
    → IsListable (begin_with answer id s).1
begin_with-IsListable (err e) id s h = h
begin_with-IsListable (ok f) id s h = elim (Bool-cases (is_empty f.operations)) [
  | inl e ↦ rw e h
  | inr e ↦ rw e (begun-IsListable (is_some (lookup id s.runs)) id s h)
]

stop_run-IsListable :
    (o : Option Run) (id : String) (s : State) → IsListable s → IsListable (stop_run id o s).1
stop_run-IsListable none id s h = h
stop_run-IsListable (some r) id s h = (
  insert-HasNoEmpty text_of_run id (record { cancelled = true; status = "cancelling" }) s.runs refl
      h.0,
  h.1,
)

end_run-IsListable :
    (o : Option String) (n : ℕ) (final : String) (s : State)
    → (final == "") ≡ false
    → IsListable s
    → IsListable (end_run n final o s)
end_run-IsListable none n final s e h = h
end_run-IsListable (some id) n final s e h = (
  remove-HasNoEmpty text_of_run id s.runs h.0,
  insert-HasNoEmpty text_of_status id final s.last_status e h.1,
)

step-IsListable :
    {Number : Type 0} (e : Event Number) (s : State)
    → EndsNamed e
    → IsListable s
    → IsListable (step e s)
unfolding step begin stop finish
step-IsListable (begins none id) s named h = h
step-IsListable (begins (some answer) id) s named h = begin_with-IsListable answer id s h
step-IsListable (stops id) s named h = stop_run-IsListable (lookup id s.runs) id s h
step-IsListable (finishes n final) s named h =
    end_run-IsListable (get_elem? s.threads n) n final s named h

after-IsListable :
    {Number : Type 0} (es : List (Event Number)) (s : State)
    → All EndsNamed es
    → IsListable s
    → IsListable (after es s)
unfolding after
after-IsListable [] s named h = h
after-IsListable (e ∷ es) s named h =
    after-IsListable es (step e s) named.1 (step-IsListable e s named.0 h)

-- After any such sequence in which no run ends with an empty status, what statuses lists for a
-- flow, or idle if it lists nothing, is what status answers.
pub statuses-status :
    {Number : Type 0} (es : List (Event Number)) (flow_id : String)
    → All EndsNamed es
    → or_text "idle" (lookup flow_id (statuses (after es new))) ≡ status (after es new) flow_id
unfolding statuses status
statuses-status es flow_id named =
    let h = after-IsListable es new named (tt, tt) in
    rw (filled-HasNoEmpty (after es new).last_status h.1)
      (listed (after es new).runs (after es new).last_status flow_id h.0)
