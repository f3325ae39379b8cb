-- ===== src/Sync/Requests.antt =====
-- crates/gn-drive-core/src/sync_engine.rs: what `start_sync` and `start_path_sync` check and hand on, and
-- what `run_sync` asks the client for.
use gn_drive.Common.{Bool, false, not, ◌||◌, Option, none, some, [], if◌then◌else◌}
use gn_drive.Common.Text.{Text, codes}
use gn_drive.Common.Text.Decimal.{ℤ, pos}
use gn_drive.Common.Result.{Result, ok, err, map_err}
use gn_drive.Profile.{Numerics, Profile, is_above, profile_flags}
use gn_drive.Profile.Config.{is_empty, unwrap_or}
use gn_drive.Rclone.{push, parse, SyncConfig}
use gn_drive.Sync.{
  SyncEngineError, StoreError, not_running, store_not_ready, task_failed, store_failed,
}

module _ (N : Numerics) where
  -- The profile that `start_sync` hands on, given the store's `get_profile` if there is a store.
  abbrev pub stored_profile :
      Option (Text → Result StoreError (Profile N.Float))
      → Text
      → Result SyncEngineError (Profile N.Float)
  stored_profile none name = err store_not_ready
  stored_profile (some get_profile) name = map_err store_failed (get_profile name)

  unfoldable pub start_sync :
      Bool
      → Option (Text → Result StoreError (Profile N.Float))
      → Text
      → Result SyncEngineError (Profile N.Float)
  start_sync is_running store name =
      if not is_running then err not_running else stored_profile store name

  -- `Profile::default()`
  abbrev pub default_profile : Profile N.Float
  default_profile = record {
    name = [];
    from = [];
    to = [];
    direction = [];
    included_paths = [];
    excluded_paths = [];
    bandwidth = pos 0;
    parallel = pos 0;
    backup_path = [];
    cache_path = [];
    min_size = [];
    max_size = [];
    filter_from_file = [];
    exclude_if_present = [];
    use_regex = false;
    max_age = [];
    min_age = [];
    max_depth = none;
    delete_excluded = false;
    max_delete = none;
    immutable = false;
    conflict_resolution = [];
    dry_run = false;
    max_transfer = [];
    max_delete_size = [];
    suffix = [];
    suffix_keep_extension = false;
    multi_thread_streams = none;
    buffer_size = [];
    retries = none;
    low_level_retries = none;
    max_duration = [];
    check_first = false;
    order_by = [];
    retries_sleep = [];
    tps_limit = none;
    conn_timeout = [];
    io_timeout = [];
    size_only = false;
    update_mode = false;
    ignore_existing = false;
    delete_timing = [];
    resilient = false;
    max_lock = [];
    check_access = false;
    conflict_loser = [];
    conflict_suffix = [];
    fast_list = false;
  }

  abbrev pub or_four : ℤ → ℤ
  or_four n = if is_above n then n else pos 4

  -- The profile that `start_path_sync` hands on.
  unfoldable pub start_path_sync :
      Bool
      → Text
      → Text
      → Text
      → Option (Profile N.Float)
      → Result SyncEngineError (Profile N.Float)
  start_path_sync is_running busy_key from to opts =
      if not is_running
      then err not_running
      else if is_empty from || is_empty to
      then err (task_failed (codes "syncengine: from and to are required"))
      else ok (record (unwrap_or default_profile opts) {
        name = busy_key;
        from = from;
        to = to;
        parallel = or_four (unwrap_or default_profile opts).parallel;
      })

  unfoldable pub sync_config : Text → Profile N.Float → SyncConfig N.Float
  sync_config action profile = record {
    action = unwrap_or push (parse action);
    source = profile.from;
    source_remote = [];
    source_path = [];
    dest = profile.to;
    dest_remote = [];
    dest_path = [];
    resync = false;
    profile = some (profile_flags N profile);
    stats_interval = codes "1s";
  }
