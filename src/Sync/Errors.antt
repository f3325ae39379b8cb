-- ===== src/Sync/Errors.antt =====
-- crates/gn-drive-core/src/sync_engine.rs and rclone/stats.rs: the error text that a task keeps.
use gn_drive.Common.{
  ℕ, Bool, true, false, ◌||◌, ◌&&◌, Option, none, some, [], ◌∷◌, ◌++◌, ◌==◌, nat_eq, leb, length,
  take, if◌then◌else◌,
}
use gn_drive.Common.Text.{Text, codes, to_lowercase}
use gn_drive.Profile.Config.{trim_ws}

unfoldable pub truncate_string : Text → ℕ → Text
truncate_string s n = if leb (length s) n then s else take n s ++ codes "...(truncated)"

unfoldable pub starts_with : Text → Text → Bool
starts_with [] s = true
starts_with (a ∷ t) [] = false
starts_with (a ∷ t) (c ∷ s) = a == c && starts_with t s

abbrev pub longer : ℕ → Option Text → Option Text
longer c none = none
longer c (some s) = some (c ∷ s)

-- The text before the first place at which another text starts.
unfoldable pub before : Text → Text → Option Text
unfolding starts_with
before t [] = none
before t (c ∷ s) = let rest = before t s in if starts_with t (c ∷ s) then some [] else longer c rest

unfoldable pub contains : Text → Text → Bool
unfolding starts_with
contains t [] = starts_with t []
contains t (c ∷ s) = starts_with t (c ∷ s) || contains t s

abbrev pub is_cancellation : Text → Bool
is_cancellation s =
    contains (codes "signal: killed") s
    || contains (codes "signal: interrupt") s
    || contains (codes "context canceled") s
    || contains (codes "context cancelled") s
    || contains (codes "cancelled") s

abbrev pub without_stderr : Text → Option Text → Text
without_stderr s none = s
without_stderr s (some t) = trim_ws t

unfoldable pub sanitize_rclone_err : Text → Text
unfolding contains before trim_ws
sanitize_rclone_err s =
    let out = without_stderr s (before (codes "(stderr:") s) in
    if is_cancellation (to_lowercase s)
    then []
    else if starts_with (codes "{") (trim_ws out)
    then codes "sync failed"
    else out
