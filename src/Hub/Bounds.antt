-- ===== src/Hub/Bounds.antt =====
-- The log of a flow is short, and no entry repeats the one before it.
use gn_drive.Common.{
  ℕ, zero, suc, ◌-◌, ◌≤◌, ◌≡◌, sym, inl, inr, String, false, List, [], ◌∷◌, ◌++◌, ◌==◌, string_eq,
  length, drop, last?, length-drop, arith, Bool-cases,
}
use mathlib.Core.Path.{subst}
use gn_drive.Hub.{
  RuntimeLogEntry, BusEvent, flow_execution, sync_started, sync_progress, sync_failed,
  sync_completed, repeats, is_repeated, entry, after, new,
}
use gn_drive.Hub.Logs.{
  is_repeated-says_again, append_all, log_of, recorded, history_from, after-log_of,
}

abbrev pub NoRepeats : List RuntimeLogEntry → Type 0
NoRepeats [] = Unit
NoRepeats (x ∷ []) = Unit
NoRepeats (x ∷ y ∷ log) = (repeats x y ≡ false) × NoRepeats (y ∷ log)

tail-NoRepeats :
    (x : RuntimeLogEntry) (log : List RuntimeLogEntry) → NoRepeats (x ∷ log) → NoRepeats log
tail-NoRepeats x [] h = tt
tail-NoRepeats x (y ∷ log) (_, rest) = rest

drop-NoRepeats : (n : ℕ) (log : List RuntimeLogEntry) → NoRepeats log → NoRepeats (drop n log)
drop-NoRepeats zero log h = h
drop-NoRepeats (suc n) [] h = tt
drop-NoRepeats (suc n) (x ∷ log) h = drop-NoRepeats n log (tail-NoRepeats x log h)

extended :
    (log : List RuntimeLogEntry) (e : RuntimeLogEntry)
    → NoRepeats log
    → is_repeated (last? log) e ≡ false
    → NoRepeats (log ++ e ∷ [])
extended [] e h fresh = tt
extended (x ∷ []) e h fresh = (fresh, tt)
extended (x ∷ y ∷ log) e (first, rest) fresh = (first, extended (y ∷ log) e rest fresh)

append_all-NoRepeats :
    (log : List RuntimeLogEntry) (e : RuntimeLogEntry)
    → NoRepeats log
    → NoRepeats (append_all log e)
unfolding append_all
append_all-NoRepeats log e h = elim (Bool-cases (is_repeated (last? log) e)) [
  | inl same ↦ rw (append_all, is_repeated-says_again (last? log) e, same) h
  | inr fresh ↦
      rw (append_all, is_repeated-says_again (last? log) e, fresh) (extended log e h fresh)
]

recorded-NoRepeats :
    (flow_id : String) (history : List RuntimeLogEntry) (now : ℕ) (ev : BusEvent)
    → NoRepeats history
    → NoRepeats (recorded flow_id history now ev)
unfolding recorded
recorded-NoRepeats flow_id history now (flow_execution fe) h =
    elim (Bool-cases (fe.flow_id == "")) [
      | inl unnamed ↦ rw (recorded, unnamed) h
      | inr named ↦ elim (Bool-cases (fe.flow_id == flow_id)) [
        | inl own ↦ rw (recorded, named, own) (append_all-NoRepeats history (entry now fe) h)
        | inr other ↦ rw (recorded, named, other) h
      ]
    ]
recorded-NoRepeats flow_id history now (sync_started e) h = h
recorded-NoRepeats flow_id history now (sync_progress p) h = h
recorded-NoRepeats flow_id history now (sync_failed p) h = h
recorded-NoRepeats flow_id history now (sync_completed e) h = h
recorded-NoRepeats flow_id history now _ h = h

history-NoRepeats :
    (evs : List (ℕ × BusEvent)) (flow_id : String) (history : List RuntimeLogEntry)
    → NoRepeats history
    → NoRepeats (history_from flow_id history evs)
unfolding history_from
history-NoRepeats [] flow_id history h = h
history-NoRepeats ((now, ev) ∷ evs) flow_id history h =
    history-NoRepeats evs flow_id (recorded flow_id history now ev)
      (recorded-NoRepeats flow_id history now ev h)

abbrev pub IsShortLog : List RuntimeLogEntry → Type 0
IsShortLog log = (length log ≤ 40) × NoRepeats log

-- After any sequence of bus events on a new hub, the log of every flow has at most 40 entries, and no
-- entry has the status, the operation and the error of the entry before it.
pub after-IsShortLog :
    (evs : List (ℕ × BusEvent)) (flow_id : String) → IsShortLog (log_of flow_id (after evs new))
after-IsShortLog evs flow_id =
    let history = history_from flow_id [] evs in
    subst (λ (log : List RuntimeLogEntry). IsShortLog log) (sym (after-log_of evs flow_id))
      (
        omega (arith, length-drop (length history - 40) history),
        drop-NoRepeats (length history - 40) history (history-NoRepeats evs flow_id [] tt),
      )
