-- ===== src/Sync/Restart.antt =====
-- Two threads of one busy key, in an engine that is stopped and started while a call waits.
use gn_drive.Common.{
  String, ◌≡◌, refl, List, [], ◌∷◌, string_eq, beq_self, lookup, insert, remove, remove_at,
}
use gn_drive.Sync.{
  Event, new, after, starts, stops_admission, stops_workers, claims_key, admits, start,
  stop_admission, stop_workers, claim, admit, step, is_busy,
}
use gn_drive.Sync.Exclusion.{live}

-- A call marks its key; before it takes `admit`, the engine is stopped and started, and a second
-- call marks the key that `stop` has freed.
abbrev pub overtaken : String → String → String → List Event
overtaken key id id' =
    starts
    ∷ claims_key key
    ∷ stops_admission
    ∷ stops_workers
    ∷ starts
    ∷ claims_key key
    ∷ admits 0 id
    ∷ admits 0 id'
    ∷ []

-- For any key and identifiers: when the engine is stopped and started between the two halves of
-- start_with_profile, and a second call then marks the same key, both calls are admitted and two
-- threads run for the key.
pub overtaken-live : (key id id' : String) → live key (after (overtaken key id id') new).threads ≡ 2
unfolding after step start stop_admission stop_workers claim admit is_busy live lookup insert remove
    remove_at
overtaken-live key id id' = rw (beq_self key) refl
