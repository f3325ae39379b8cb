-- ===== src/Profile/Config.antt =====
-- crates/gn-drive-core/src/flow_engine.rs: the settings of a flow operation, read from its
-- `sync_config` with keys in two spellings.
use mathlib.Core.Option
use gn_drive.Common.{
  ℕ, String, Bool, true, false, not, ◌&&◌, ◌||◌, Option, none, some, List, [], ◌∷◌, Dict, lookup,
  ◌==◌, nat_eq, if◌then◌else◌,
}
use gn_drive.Common.Text.{Text, trim_matches, is_whitespace}
use gn_drive.Common.Text.Decimal.{ℤ, pos, parse_i64}
use gn_drive.Profile.{Numerics, Profile, is_above}

-- A JSON value. The members of an object are never read here.
mutual
  pub data Value (Number : Type 0) : Type 0 where
    null object : Value Number
    bool : Bool → Value Number
    number : Number → Value Number
    string : Text → Value Number
    array : Values Number → Value Number

  pub data Values (Number : Type 0) : Type 0 where
    nil : Values Number
    cons : Value Number → Values Number → Values Number

abbrev pub JsonDict : Type 0 → Type 0
JsonDict Number = Dict (Value Number)

module _ {ℓ} {A : Type ℓ} where
  abbrev pub or_else : Option A → Option A → Option A
  or_else none o = o
  or_else (some a) o = some a

  abbrev pub filter : (A → Bool) → Option A → Option A
  filter p none = none
  filter p (some a) = if p a then some a else none

  abbrev pub unwrap_or : A → Option A → A
  unwrap_or d none = d
  unwrap_or d (some a) = a

  abbrev pub found :
      {Number : Type 0} → (Value Number → Option A) → Option (Value Number) → Option A
  found read none = none
  found read (some v) = read v

  -- `keys.iter().find_map` with a reader of the value of a key.
  unfoldable pub find_map :
      {Number : Type 0} → (Value Number → Option A) → JsonDict Number → List String → Option A
  find_map read m [] = none
  find_map read m (k ∷ ks) = or_else (found read (lookup k m)) (find_map read m ks)

unfoldable pub is_blank : ℕ → Bool
is_blank c = c == 9 || is_whitespace c && not (c == 10) && not (c == 13)

unfoldable pub trim_ws : Text → Text
unfolding is_blank
trim_ws s = trim_matches is_blank s

abbrev pub is_empty {ℓ} : {A : Type ℓ} → List A → Bool
is_empty [] = true
is_empty (x ∷ xs) = false

module _ (N : Numerics) where
  abbrev pub as_bool : Value N.Number → Option Bool
  as_bool (bool b) = some b
  as_bool v = none

  unfoldable pub bool_v : JsonDict N.Number → List String → Option Bool
  unfolding find_map
  bool_v m keys = find_map as_bool m keys

  unfoldable pub as_int : Value N.Number → Option ℤ
  unfolding trim_ws
  as_int (number n) = or_else (N.as_i64 n) (Option.map N.to_i64 (N.as_f64 n))
  as_int (string s) = parse_i64 (trim_ws s)
  as_int v = none

  unfoldable pub int_v : JsonDict N.Number → List String → Option ℤ
  unfolding find_map as_int
  int_v m keys = find_map as_int m keys

  unfoldable pub as_double : Value N.Number → Option N.Float
  unfolding trim_ws
  as_double (number n) = N.as_f64 n
  as_double (string s) = N.parse_f64 (trim_ws s)
  as_double v = none

  unfoldable pub double_v : JsonDict N.Number → List String → Option N.Float
  unfolding find_map as_double
  double_v m keys = find_map as_double m keys

  unfoldable pub as_text : Value N.Number → Option Text
  unfolding trim_ws
  as_text (string s) = if is_empty (trim_ws s) then none else some (trim_ws s)
  as_text v = none

  unfoldable pub string_v : JsonDict N.Number → List String → Option Text
  unfolding find_map as_text
  string_v m keys = find_map as_text m keys

  unfoldable pub texts : Values N.Number → List Text
  unfolding trim_ws
  texts nil = []
  texts (cons (string s) vs) =
      let rest = texts vs in if is_empty (trim_ws s) then rest else trim_ws s ∷ rest
  texts (cons v vs) = texts vs

  unfoldable pub as_texts : Value N.Number → Option (List Text)
  unfolding texts
  as_texts (array vs) = some (texts vs)
  as_texts v = none

  unfoldable pub strings_v : JsonDict N.Number → List String → Option (List Text)
  unfolding find_map as_texts
  strings_v m keys = find_map as_texts m keys

  unfoldable pub profile_from_sync_config : JsonDict N.Number → Profile N.Float
  unfolding bool_v int_v double_v string_v strings_v
  profile_from_sync_config m = record {
    name = [];
    from = [];
    to = [];
    direction = [];
    included_paths = unwrap_or [] (strings_v m ("included_paths" ∷ "includedPaths" ∷ []));
    excluded_paths = unwrap_or [] (strings_v m ("excluded_paths" ∷ "excludedPaths" ∷ []));
    bandwidth = unwrap_or (pos 0) (filter is_above (int_v m ("bandwidth" ∷ [])));
    parallel = unwrap_or (pos 4) (filter is_above (int_v m ("parallel" ∷ [])));
    backup_path = unwrap_or [] (string_v m ("backup_path" ∷ "backupPath" ∷ []));
    cache_path = [];
    min_size = unwrap_or [] (string_v m ("min_size" ∷ "minSize" ∷ []));
    max_size = unwrap_or [] (string_v m ("max_size" ∷ "maxSize" ∷ []));
    filter_from_file = unwrap_or [] (string_v m ("filter_from_file" ∷ "filterFromFile" ∷ []));
    exclude_if_present = unwrap_or [] (string_v m ("exclude_if_present" ∷ "excludeIfPresent" ∷ []));
    use_regex = unwrap_or false (bool_v m ("use_regex" ∷ "useRegex" ∷ []));
    max_age = unwrap_or [] (string_v m ("max_age" ∷ "maxAge" ∷ []));
    min_age = unwrap_or [] (string_v m ("min_age" ∷ "minAge" ∷ []));
    max_depth = filter is_above (int_v m ("max_depth" ∷ "maxDepth" ∷ []));
    delete_excluded = unwrap_or false (bool_v m ("delete_excluded" ∷ "deleteExcluded" ∷ []));
    max_delete = filter is_above (int_v m ("max_delete" ∷ "maxDelete" ∷ []));
    immutable = unwrap_or false (bool_v m ("immutable" ∷ []));
    conflict_resolution =
        unwrap_or [] (string_v m ("conflict_resolution" ∷ "conflictResolution" ∷ []));
    dry_run = unwrap_or false (bool_v m ("dry_run" ∷ "dryRun" ∷ []));
    max_transfer = unwrap_or [] (string_v m ("max_transfer" ∷ "maxTransfer" ∷ []));
    max_delete_size = unwrap_or [] (string_v m ("max_delete_size" ∷ "maxDeleteSize" ∷ []));
    suffix = unwrap_or [] (string_v m ("suffix" ∷ []));
    suffix_keep_extension =
        unwrap_or false (bool_v m ("suffix_keep_extension" ∷ "suffixKeepExtension" ∷ []));
    multi_thread_streams =
        filter is_above (int_v m ("multi_thread_streams" ∷ "multiThreadStreams" ∷ []));
    buffer_size = unwrap_or [] (string_v m ("buffer_size" ∷ "bufferSize" ∷ []));
    retries = filter is_above (int_v m ("retries" ∷ []));
    low_level_retries = filter is_above (int_v m ("low_level_retries" ∷ "lowLevelRetries" ∷ []));
    max_duration = unwrap_or [] (string_v m ("max_duration" ∷ "maxDuration" ∷ []));
    check_first = unwrap_or false (bool_v m ("check_first" ∷ "checkFirst" ∷ []));
    order_by = unwrap_or [] (string_v m ("order_by" ∷ "orderBy" ∷ []));
    retries_sleep = unwrap_or [] (string_v m ("retries_sleep" ∷ "retriesSleep" ∷ []));
    tps_limit = filter N.is_above_zero (double_v m ("tps_limit" ∷ "tpsLimit" ∷ []));
    conn_timeout = unwrap_or [] (string_v m ("conn_timeout" ∷ "connTimeout" ∷ []));
    io_timeout = unwrap_or [] (string_v m ("io_timeout" ∷ "ioTimeout" ∷ []));
    size_only = unwrap_or false (bool_v m ("size_only" ∷ "sizeOnly" ∷ []));
    update_mode = unwrap_or false (bool_v m ("update_mode" ∷ "updateMode" ∷ []));
    ignore_existing = unwrap_or false (bool_v m ("ignore_existing" ∷ "ignoreExisting" ∷ []));
    delete_timing = unwrap_or [] (string_v m ("delete_timing" ∷ "deleteTiming" ∷ []));
    resilient = unwrap_or false (bool_v m ("resilient" ∷ []));
    max_lock = unwrap_or [] (string_v m ("max_lock" ∷ "maxLock" ∷ []));
    check_access = unwrap_or false (bool_v m ("check_access" ∷ "checkAccess" ∷ []));
    conflict_loser = unwrap_or [] (string_v m ("conflict_loser" ∷ "conflictLoser" ∷ []));
    conflict_suffix = unwrap_or [] (string_v m ("conflict_suffix" ∷ "conflictSuffix" ∷ []));
    fast_list = false;
  }
