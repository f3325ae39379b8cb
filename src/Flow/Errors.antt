-- ===== src/Flow/Errors.antt =====
-- crates/gn-drive-core/src/sync_engine.rs, store.rs and flow_engine.rs: the texts of errors.
use gn_drive.Common.{
  ℕ, zero, suc, Bool, ◌||◌, [], ◌∷◌, ◌++◌, ◌==◌, nat_eq, ltb, length, take, if◌then◌else◌,
}
use gn_drive.Common.Text.{Text, codes, trim_matches}
use gn_drive.Sync.{
  SyncEngineError, StoreError, not_found, invalid, db, task_cancelled, not_running, store_not_ready,
  profile_busy, task_not_found, task_failed, store_failed,
}
use gn_drive.Sync.Errors.{starts_with, before, without_stderr}

unfoldable pub display_store : StoreError → Text
display_store not_found = codes "record not found"
display_store (invalid m) = m
display_store (db m) = m

unfoldable pub display : SyncEngineError → Text
unfolding display_store
display not_running = codes "sync engine is not running"
display store_not_ready = codes "sync engine has no data plane"
display profile_busy = codes "a sync for this profile is already running"
display (task_failed m) = m
display task_cancelled = codes "task was cancelled"
display task_not_found = codes "task not found"
display (store_failed e) = display_store e

abbrev pub rest_of : Text → ℕ
rest_of [] = 0
rest_of (c ∷ s) = length s

-- `replace` of a text by nothing; so many characters are still to be skipped.
unfoldable pub removed_from : ℕ → Text → Text → Text
removed_from skip t [] = []
removed_from (suc skip) t (c ∷ s) = removed_from skip t s
removed_from zero t (c ∷ s) =
    let here = starts_with t (c ∷ s) in
    let rest = removed_from (if here then rest_of t else 0) t s in if here then rest else c ∷ rest

unfoldable pub removed : Text → Text → Text
unfolding removed_from
removed t s = removed_from 0 t s

unfoldable pub is_wrapper : ℕ → Bool
is_wrapper c = c == b'(' || c == b')' || c == b'"' || c == 39 || c == b' '

-- At most 200 characters, with an ellipsis in place of the rest.
unfoldable pub shortened : Text → Text
shortened s = if ltb 200 (length s) then take 200 s ++ 0x2026 ∷ [] else s

unfoldable pub friendly_task_err : SyncEngineError → Text
unfolding removed is_wrapper shortened
friendly_task_err e =
    let plain =
      removed (codes "syncengine: task failed: ")
        (removed (codes "syncengine: task failed" ++ 10 ∷ []) (display e)) in
    let s = trim_matches is_wrapper plain in
    shortened (without_stderr s (before (codes "(stderr:") s))
