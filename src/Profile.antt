-- ===== src/Profile.antt =====
-- crates/gn-drive-core/src/models.rs, rclone/types.rs and sync_engine.rs: the settings of a sync, a
-- `Profile`, and the rclone flags that `profile_flags` makes of them.
pub mod Config
pub use gn_drive.Common.Text.{Text, codes, text_eq}
pub use gn_drive.Common.Text.Decimal.{ℤ, pos, negsuc, show, show_i64, parse_i64}
use gn_drive.Common.{
  ℕ, zero, suc, Bool, true, false, Option, none, some, List, [], ◌∷◌, ◌++◌, if◌then◌else◌,
}

-- What the code uses of `f64` and of the numbers of a JSON text.
pub record Numerics : Type 1 where
  pub Float : Type 0
  pub zero_float : Float
  -- `> 0.0`
  pub is_above_zero : Float → Bool
  -- `{:?}`
  pub debug : Float → Text
  pub parse_f64 : Text → Option Float
  pub Number : Type 0
  pub as_i64 : Number → Option ℤ
  pub as_f64 : Number → Option Float
  -- `as i64`
  pub to_i64 : Float → ℤ

pub record Profile (Float : Type 0) : Type 0 where
  pub name : Text
  pub from : Text
  pub to : Text
  pub direction : Text
  pub included_paths : List Text
  pub excluded_paths : List Text
  pub bandwidth : ℤ
  pub parallel : ℤ
  pub backup_path : Text
  pub cache_path : Text
  pub min_size : Text
  pub max_size : Text
  pub filter_from_file : Text
  pub exclude_if_present : Text
  pub use_regex : Bool
  pub max_age : Text
  pub min_age : Text
  pub max_depth : Option ℤ
  pub delete_excluded : Bool
  pub max_delete : Option ℤ
  pub immutable : Bool
  pub conflict_resolution : Text
  pub dry_run : Bool
  pub max_transfer : Text
  pub max_delete_size : Text
  pub suffix : Text
  pub suffix_keep_extension : Bool
  pub multi_thread_streams : Option ℤ
  pub buffer_size : Text
  pub retries : Option ℤ
  pub low_level_retries : Option ℤ
  pub max_duration : Text
  pub check_first : Bool
  pub order_by : Text
  pub retries_sleep : Text
  pub tps_limit : Option Float
  pub conn_timeout : Text
  pub io_timeout : Text
  pub size_only : Bool
  pub update_mode : Bool
  pub ignore_existing : Bool
  pub delete_timing : Text
  pub resilient : Bool
  pub max_lock : Text
  pub check_access : Bool
  pub conflict_loser : Text
  pub conflict_suffix : Text
  pub fast_list : Bool

pub record ProfileFlags (Float : Type 0) : Type 0 where
  pub bandwidth : Text
  pub transfers : ℤ
  pub checkers : ℤ
  pub tps_limit : Float
  pub min_age : Text
  pub max_age : Text
  pub min_size : Text
  pub max_size : Text
  pub exclude_if_present : Text
  pub max_delete : ℤ
  pub dry_run : Bool
  pub use_list_r : Bool
  pub no_unicode_normalize : Bool
  pub includes : List Text
  pub excludes : List Text
  pub multi_thread_streams : ℤ
  pub buffer_size : Text
  pub retries : ℤ
  pub low_level_retries : ℤ
  pub max_duration : Text
  pub retries_sleep : Text
  pub conn_timeout : Text
  pub io_timeout : Text
  pub order_by : Text
  pub check_first : Bool
  pub immutable : Bool
  pub max_transfer : Text
  pub max_delete_size : Text
  pub suffix : Text
  pub suffix_keep_extension : Bool
  pub backup_dir : Text
  pub size_only : Bool
  pub update_mode : Bool
  pub ignore_existing : Bool
  pub delete_excluded : Bool
  pub max_depth : ℤ
  pub delete_timing : Text
  pub conflict_resolve : Text
  pub conflict_loser : Text
  pub conflict_suffix : Text
  pub resilient : Bool
  pub max_lock : Text
  pub check_access : Bool

unfoldable pub is_above : ℤ → Bool
is_above (pos zero) = false
is_above (pos (suc n)) = true
is_above (negsuc n) = false

-- `format!("{}M", bandwidth)` of a bandwidth above 0.
unfoldable pub bandwidth_text : ℤ → Text
unfolding is_above
bandwidth_text n = if is_above n then show_i64 n ++ codes "M" else []

-- The value of a setting that is above 0, else the default of the flag.
unfoldable pub set_count : Option ℤ → ℤ
unfolding is_above
set_count none = pos 0
set_count (some n) = if is_above n then n else pos 0

module _ (N : Numerics) where
  unfoldable pub set_float : Option N.Float → N.Float
  set_float none = N.zero_float
  set_float (some v) = if N.is_above_zero v then v else N.zero_float

  unfoldable pub profile_flags : Profile N.Float → ProfileFlags N.Float
  unfolding bandwidth_text set_count set_float
  profile_flags p = record {
    bandwidth = bandwidth_text p.bandwidth;
    transfers = p.parallel;
    checkers = pos 0;
    tps_limit = set_float p.tps_limit;
    min_age = p.min_age;
    max_age = p.max_age;
    min_size = p.min_size;
    max_size = p.max_size;
    exclude_if_present = p.exclude_if_present;
    max_delete = set_count p.max_delete;
    dry_run = p.dry_run;
    use_list_r = false;
    no_unicode_normalize = false;
    includes = p.included_paths;
    excludes = p.excluded_paths;
    multi_thread_streams = set_count p.multi_thread_streams;
    buffer_size = p.buffer_size;
    retries = set_count p.retries;
    low_level_retries = set_count p.low_level_retries;
    max_duration = p.max_duration;
    retries_sleep = p.retries_sleep;
    conn_timeout = p.conn_timeout;
    io_timeout = p.io_timeout;
    order_by = p.order_by;
    check_first = p.check_first;
    immutable = p.immutable;
    max_transfer = p.max_transfer;
    max_delete_size = p.max_delete_size;
    suffix = p.suffix;
    suffix_keep_extension = p.suffix_keep_extension;
    backup_dir = p.backup_path;
    size_only = p.size_only;
    update_mode = p.update_mode;
    ignore_existing = p.ignore_existing;
    delete_excluded = p.delete_excluded;
    max_depth = set_count p.max_depth;
    delete_timing = p.delete_timing;
    conflict_resolve = p.conflict_resolution;
    conflict_loser = p.conflict_loser;
    conflict_suffix = p.conflict_suffix;
    resilient = p.resilient;
    max_lock = p.max_lock;
    check_access = p.check_access;
  }
