-- ===== src/Rclone.antt =====
-- crates/gn-drive-core/src/rclone/types.rs and rclone/client.rs: the actions of rclone, what a sync
-- is configured with, and the command line that `build_args` makes of it.
pub mod Flags
pub mod Given
pub mod Reading
pub mod Options
pub mod Sources
pub mod Passed
pub mod Endpoints
pub mod Tests
use gn_drive.Common.{
  ℕ, String, Bool, true, false, not, ◌&&◌, ◌||◌, Option, none, some, List, [], ◌∷◌, ◌++◌, ◌==◌,
  if◌then◌else◌,
}
use gn_drive.Common.Text.{Text, codes, text_eq, trim, to_lowercase}
use gn_drive.Common.Text.Decimal.{ℤ, show_i64}
use gn_drive.Profile.{Numerics, ProfileFlags, is_above}
use gn_drive.Profile.Config.{is_empty}

pub data RcloneAction : Type 0 where
  pull push bi bi_resync copy move check dry_run : RcloneAction

unfoldable pub as_str : RcloneAction → Text
as_str pull = codes "pull"
as_str push = codes "push"
as_str bi = codes "bi"
as_str bi_resync = codes "bi-resync"
as_str copy = codes "copy"
as_str move = codes "move"
as_str check = codes "check"
as_str dry_run = codes "dry-run"

unfoldable pub parse : Text → Option RcloneAction
parse s =
    if s == codes "pull"
    then some pull
    else if s == codes "push"
    then some push
    else if s == codes "bi"
    then some bi
    else if s == codes "bi-resync"
    then some bi_resync
    else if s == codes "copy"
    then some copy
    else if s == codes "move"
    then some move
    else if s == codes "check"
    then some check
    else if s == codes "dry-run"
    then some dry_run
    else none

pub record SyncConfig (Float : Type 0) : Type 0 where
  pub action : RcloneAction
  pub source : Text
  pub source_remote : Text
  pub source_path : Text
  pub dest : Text
  pub dest_remote : Text
  pub dest_path : Text
  pub resync : Bool
  pub profile : Option (ProfileFlags Float)
  pub stats_interval : Text

pub data RcloneError : Type 0 where
  binary_not_found : Text → RcloneError
  run_failed : Text → Text → RcloneError
  cancelled : RcloneError

pub data Result {ℓ} (A : Type ℓ) : Type ℓ where
  ok : A → Result A
  err : RcloneError → Result A

abbrev pub concat {ℓ} : {A : Type ℓ} → List (List A) → List A
concat [] = []
concat (x ∷ xs) = x ++ concat xs

-- A flag with its value, which is left out when it is empty.
unfoldable pub text_flag : String → Text → List Text
text_flag flag [] = []
text_flag flag (c ∷ s) = codes flag ∷ (c ∷ s) ∷ []

unfoldable pub count_flag : String → ℤ → List Text
count_flag flag n = if is_above n then codes flag ∷ show_i64 n ∷ [] else []

unfoldable pub switch : String → Bool → List Text
switch flag b = if b then codes flag ∷ [] else []

-- The flag with each of the trimmed values that is not empty.
unfoldable pub each_flag : String → List Text → List Text
unfolding text_flag
each_flag flag [] = []
each_flag flag (v ∷ vs) = text_flag flag (trim v) ++ each_flag flag vs

unfoldable pub timing_flag : Text → List Text
timing_flag timing =
    if timing == codes "before"
    then codes "--delete-before" ∷ []
    else if timing == codes "after"
    then codes "--delete-after" ∷ []
    else if timing == codes "during"
    then codes "--delete-during" ∷ []
    else []

abbrev pub joined : Text → Text → Text
joined remote path = remote ++ codes ":" ++ path

module _ (N : Numerics) where
  unfoldable pub float_flag : String → N.Float → List Text
  float_flag flag v = if N.is_above_zero v then codes flag ∷ N.debug v ∷ [] else []

  -- What each setting adds to the command line.
  abbrev pub pieces : ProfileFlags N.Float → List (List Text)
  pieces p =
      text_flag "--bwlimit" p.bandwidth
      ∷ count_flag "--transfers" p.transfers
      ∷ count_flag "--checkers" p.checkers
      ∷ float_flag "--tpslimit" p.tps_limit
      ∷ text_flag "--min-age" p.min_age
      ∷ text_flag "--max-age" p.max_age
      ∷ text_flag "--min-size" p.min_size
      ∷ text_flag "--max-size" p.max_size
      ∷ text_flag "--exclude-if-present" p.exclude_if_present
      ∷ count_flag "--max-delete" p.max_delete
      ∷ switch "--dry-run" p.dry_run
      ∷ switch "--no-unicode-normalization" p.no_unicode_normalize
      ∷ each_flag "--include" p.includes
      ∷ each_flag "--exclude" p.excludes
      ∷ count_flag "--multi-thread-streams" p.multi_thread_streams
      ∷ text_flag "--buffer-size" p.buffer_size
      ∷ count_flag "--retries" p.retries
      ∷ count_flag "--low-level-retries" p.low_level_retries
      ∷ text_flag "--max-duration" p.max_duration
      ∷ text_flag "--retries-sleep" p.retries_sleep
      ∷ text_flag "--contimeout" p.conn_timeout
      ∷ text_flag "--timeout" p.io_timeout
      ∷ text_flag "--order-by" p.order_by
      ∷ switch "--check-first" p.check_first
      ∷ switch "--immutable" p.immutable
      ∷ text_flag "--max-transfer" p.max_transfer
      ∷ text_flag "--max-delete-size" p.max_delete_size
      ∷ text_flag "--suffix" p.suffix
      ∷ switch "--suffix-keep-extension" p.suffix_keep_extension
      ∷ text_flag "--backup-dir" p.backup_dir
      ∷ switch "--size-only" p.size_only
      ∷ switch "--update" p.update_mode
      ∷ switch "--ignore-existing" p.ignore_existing
      ∷ switch "--delete-excluded" p.delete_excluded
      ∷ count_flag "--max-depth" p.max_depth
      ∷ timing_flag (to_lowercase (trim p.delete_timing))
      ∷ text_flag "--conflict-resolve" p.conflict_resolve
      ∷ text_flag "--conflict-loser" p.conflict_loser
      ∷ text_flag "--conflict-suffix" p.conflict_suffix
      ∷ switch "--resilient" p.resilient
      ∷ text_flag "--max-lock" p.max_lock
      ∷ switch "--check-access" p.check_access
      ∷ []

  unfoldable pub profile_to_flags : ProfileFlags N.Float → List Text
  profile_to_flags p = concat (pieces p)

  unfoldable pub resolve_endpoints : SyncConfig N.Float → Result (Text × Text)
  resolve_endpoints cfg =
      if not (is_empty cfg.source) && not (is_empty cfg.dest)
      then ok (cfg.source, cfg.dest)
      else if is_empty cfg.source_remote
          || is_empty cfg.source_path
          || is_empty cfg.dest_remote
          || is_empty cfg.dest_path
      then err (run_failed (codes "sync") (codes "requires Source+Dest or remotes+paths"))
      else ok (joined cfg.source_remote cfg.source_path, joined cfg.dest_remote cfg.dest_path)

  -- `remote:path` in place of the path given before, when both are there.
  abbrev pub or_joined : Text → Text → Text → Text
  or_joined remote path given =
      if not (is_empty remote) && not (is_empty path) then joined remote path else given

  abbrev pub read_side : RcloneAction → Text × Text → Text
  read_side pull ends = ends.1
  read_side push ends = ends.0
  read_side bi ends = ends.0
  read_side bi_resync ends = ends.0
  read_side copy ends = ends.0
  read_side move ends = ends.0
  read_side check ends = ends.0
  read_side dry_run ends = ends.0

  unfoldable pub pending_seed_path : SyncConfig N.Float → Text
  pending_seed_path cfg =
      if is_empty cfg.source || is_empty cfg.dest
      then read_side cfg.action (
        or_joined cfg.source_remote cfg.source_path cfg.source,
        or_joined cfg.dest_remote cfg.dest_path cfg.dest,
      )
      else read_side cfg.action (cfg.source, cfg.dest)

  unfoldable pub command : RcloneAction → Text × Text → List Text
  command pull (src, dst) = codes "sync" ∷ dst ∷ src ∷ codes "--update" ∷ []
  command push (src, dst) = codes "sync" ∷ src ∷ dst ∷ codes "--update" ∷ []
  command bi (src, dst) = codes "bisync" ∷ src ∷ dst ∷ []
  command bi_resync (src, dst) =
      codes "bisync" ∷ src ∷ dst ∷ codes "--resync" ∷ codes "--force" ∷ []
  command copy (src, dst) = codes "copy" ∷ src ∷ dst ∷ []
  command move (src, dst) = codes "move" ∷ src ∷ dst ∷ []
  command check (src, dst) = codes "check" ∷ src ∷ dst ∷ []
  command dry_run (src, dst) = codes "sync" ∷ src ∷ dst ∷ codes "--dry-run" ∷ codes "--update" ∷ []

  abbrev pub interval : Text → Text
  interval [] = codes "1s"
  interval (c ∷ s) = c ∷ s

  abbrev pub base : Text → Text → List Text
  base config_path stats_interval =
      codes "--config"
      ∷ config_path
      ∷ codes "--stats"
      ∷ interval stats_interval
      ∷ codes "--use-json-log"
      ∷ codes "-v"
      ∷ []

  abbrev pub flags_of : Option (ProfileFlags N.Float) → List Text
  flags_of none = []
  flags_of (some p) = profile_to_flags p

  abbrev pub args_with : Text → SyncConfig N.Float → Result (Text × Text) → Result (List Text)
  args_with config_path cfg (err e) = err e
  args_with config_path cfg (ok ends) =
      ok (command cfg.action ends ++ (base config_path cfg.stats_interval ++ flags_of cfg.profile))

  unfoldable pub build_args : Text → SyncConfig N.Float → Result (List Text)
  unfolding resolve_endpoints
  build_args config_path cfg = args_with config_path cfg (resolve_endpoints cfg)
