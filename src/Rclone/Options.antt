-- ===== src/Rclone/Options.antt =====
-- crates/gn-drive-core/src/flow_engine.rs, sync_engine.rs and rclone/client.rs together: from the
-- `sync_config` of a flow operation to the command line of rclone.
use gn_drive.Common.{
  zero, suc, String, ◌≡◌, refl, ◌∙◌, inl, inr, Bool, true, false, Option, none, some, List, [], ◌∷◌,
  ◌++◌, arith, All, Bool-cases, lookup, ◌⨾◌,
}
use gn_drive.Common.Text.{Text, codes, text_beq}
use gn_drive.Common.Text.Decimal.{ℤ, pos, negsuc, show, show_i64, show_from-StartsWithDigit}
use gn_drive.Profile.{Numerics, is_above, set_count, bandwidth_text, profile_flags}
use gn_drive.Profile.Config.{
  Value, JsonDict, null, object, bool, number, array, string, filter, unwrap_or, or_else, found,
  find_map, is_empty, trim_ws, bool_v, int_v, string_v, as_text, profile_from_sync_config,
}
use gn_drive.Rclone.{profile_to_flags}
use gn_drive.Rclone.Flags.{valued, counted, present, settings}
use gn_drive.Rclone.Given.{given, given-profile_to_flags, collect}

-- Flags with the keys that set them.
abbrev pub count_options : List (String × List String)
count_options =
    ("--max-delete", "max_delete" ∷ "maxDelete" ∷ [])
    ∷ ("--multi-thread-streams", "multi_thread_streams" ∷ "multiThreadStreams" ∷ [])
    ∷ ("--retries", "retries" ∷ [])
    ∷ ("--low-level-retries", "low_level_retries" ∷ "lowLevelRetries" ∷ [])
    ∷ ("--max-depth", "max_depth" ∷ "maxDepth" ∷ [])
    ∷ []

abbrev pub text_options : List (String × List String)
text_options =
    ("--min-age", "min_age" ∷ "minAge" ∷ [])
    ∷ ("--max-age", "max_age" ∷ "maxAge" ∷ [])
    ∷ ("--min-size", "min_size" ∷ "minSize" ∷ [])
    ∷ ("--max-size", "max_size" ∷ "maxSize" ∷ [])
    ∷ ("--exclude-if-present", "exclude_if_present" ∷ "excludeIfPresent" ∷ [])
    ∷ ("--buffer-size", "buffer_size" ∷ "bufferSize" ∷ [])
    ∷ ("--max-duration", "max_duration" ∷ "maxDuration" ∷ [])
    ∷ ("--retries-sleep", "retries_sleep" ∷ "retriesSleep" ∷ [])
    ∷ ("--contimeout", "conn_timeout" ∷ "connTimeout" ∷ [])
    ∷ ("--timeout", "io_timeout" ∷ "ioTimeout" ∷ [])
    ∷ ("--order-by", "order_by" ∷ "orderBy" ∷ [])
    ∷ ("--max-transfer", "max_transfer" ∷ "maxTransfer" ∷ [])
    ∷ ("--max-delete-size", "max_delete_size" ∷ "maxDeleteSize" ∷ [])
    ∷ ("--suffix", "suffix" ∷ [])
    ∷ ("--backup-dir", "backup_path" ∷ "backupPath" ∷ [])
    ∷ ("--conflict-resolve", "conflict_resolution" ∷ "conflictResolution" ∷ [])
    ∷ ("--conflict-loser", "conflict_loser" ∷ "conflictLoser" ∷ [])
    ∷ ("--conflict-suffix", "conflict_suffix" ∷ "conflictSuffix" ∷ [])
    ∷ ("--max-lock", "max_lock" ∷ "maxLock" ∷ [])
    ∷ []

abbrev pub switch_options : List (String × List String)
switch_options =
    ("--dry-run", "dry_run" ∷ "dryRun" ∷ [])
    ∷ ("--check-first", "check_first" ∷ "checkFirst" ∷ [])
    ∷ ("--immutable", "immutable" ∷ [])
    ∷ ("--suffix-keep-extension", "suffix_keep_extension" ∷ "suffixKeepExtension" ∷ [])
    ∷ ("--size-only", "size_only" ∷ "sizeOnly" ∷ [])
    ∷ ("--update", "update_mode" ∷ "updateMode" ∷ [])
    ∷ ("--ignore-existing", "ignore_existing" ∷ "ignoreExisting" ∷ [])
    ∷ ("--delete-excluded", "delete_excluded" ∷ "deleteExcluded" ∷ [])
    ∷ ("--resilient", "resilient" ∷ [])
    ∷ ("--check-access", "check_access" ∷ "checkAccess" ∷ [])
    ∷ []

-- What is given for a flag whose setting was found, or not.
abbrev pub shown : Option ℤ → List (Option Text)
shown none = []
shown (some n) = some (show_i64 n) ∷ []

abbrev pub shown_in_megabytes : Option ℤ → List (Option Text)
shown_in_megabytes none = []
shown_in_megabytes (some n) = some (show_i64 n ++ codes "M") ∷ []

abbrev pub shown_text : Option Text → List (Option Text)
shown_text none = []
shown_text (some s) = some s ∷ []

count_given :
    (o : Option ℤ) → counted (set_count (filter is_above o)) ++ [] ≡ shown (filter is_above o)
unfolding counted set_count is_above
count_given none = refl
count_given (some (pos zero)) = refl
count_given (some (pos (suc n))) = refl
count_given (some (negsuc n)) = refl

transfers_given :
    (o : Option ℤ)
    → counted (unwrap_or (pos 4) (filter is_above o)) ++ []
      ≡ some (show_i64 (unwrap_or (pos 4) (filter is_above o))) ∷ []
unfolding counted is_above
transfers_given none = refl
transfers_given (some (pos zero)) = refl
transfers_given (some (pos (suc n))) = refl
transfers_given (some (negsuc n)) = refl

bandwidth_given :
    (o : Option ℤ)
    → valued (bandwidth_text (unwrap_or (pos 0) (filter is_above o))) ++ []
      ≡ shown_in_megabytes (filter is_above o)
unfolding valued bandwidth_text is_above show_i64 show
bandwidth_given none = refl
bandwidth_given (some (pos zero)) = refl
bandwidth_given (some (pos (suc n))) =
    let (c, (t, (e, digit))) = show_from-StartsWithDigit (suc (suc n)) (suc n) [] (omega arith) in
    rw e refl
bandwidth_given (some (negsuc n)) = refl

-- A setting that is found is no empty text.
abbrev IsFilled : Option Text → Type 0
IsFilled none = Unit
IsFilled (some s) = is_empty s ≡ false

text_given : (o : Option Text) → IsFilled o → valued (unwrap_or [] o) ++ [] ≡ shown_text o
unfolding valued
text_given none h = refl
text_given (some []) h = absurd (ground arith)
text_given (some (c ∷ s)) h = refl

switch_given : (b : Bool) → present b ++ [] ≡ present b
unfolding present
switch_given true = refl
switch_given false = refl

module _ (N : Numerics) where
  as_text-IsFilled : (v : Value N.Number) → IsFilled (as_text N v)
  unfolding as_text
  as_text-IsFilled null = tt
  as_text-IsFilled object = tt
  as_text-IsFilled (bool b) = tt
  as_text-IsFilled (number n) = tt
  as_text-IsFilled (array vs) = tt
  as_text-IsFilled (string s) = elim (Bool-cases (is_empty (trim_ws s))) [
    | inl e ↦ rw e tt
    | inr e ↦ rw e e
  ]

  found-IsFilled : (o : Option (Value N.Number)) → IsFilled (found (as_text N) o)
  found-IsFilled none = tt
  found-IsFilled (some v) = as_text-IsFilled v

  or_else-IsFilled : (o more : Option Text) → IsFilled o → IsFilled more → IsFilled (or_else o more)
  or_else-IsFilled none more h k = k
  or_else-IsFilled (some s) more h k = h

  string_v-IsFilled : (m : JsonDict N.Number) (keys : List String) → IsFilled (string_v N m keys)
  unfolding string_v find_map
  string_v-IsFilled m [] = tt
  string_v-IsFilled m (k ∷ ks) =
      or_else-IsFilled (found (as_text N) (lookup k m)) (string_v N m ks)
        (found-IsFilled (lookup k m)) (string_v-IsFilled m ks)

  abbrev pub args : JsonDict N.Number → List Text
  args m = profile_to_flags N (profile_flags N (profile_from_sync_config N m))

  -- What is given for each flag, with the readers of the configuration.
  abbrev pub AreShown : JsonDict N.Number → Type 0
  AreShown m =
      (given (codes "--transfers") (args m)
        ≡ some (show_i64 (unwrap_or (pos 4) (filter is_above (int_v N m ("parallel" ∷ []))))) ∷ [])
      × ((given (codes "--bwlimit") (args m)
            ≡ shown_in_megabytes (filter is_above (int_v N m ("bandwidth" ∷ []))))
          × ((All
                (λ (option : String × List String).
                  given (codes option.0) (args m) ≡ shown (filter is_above (int_v N m option.1)))
                count_options)
              × ((All
                    (λ (option : String × List String).
                      given (codes option.0) (args m) ≡ shown_text (string_v N m option.1))
                    text_options)
                  × (All
                      (λ (option : String × List String).
                        given (codes option.0) (args m)
                        ≡ present (unwrap_or false (bool_v N m option.1)))
                      switch_options))))

  pub sync_config-shown : (m : JsonDict N.Number) → AreShown m
  unfolding profile_from_sync_config profile_flags text_beq
  sync_config-shown m =
      let of : (flag : Text)
          → given flag (args m)
            ≡ collect flag (settings N (profile_flags N (profile_from_sync_config N m))) =
        λ flag. given-profile_to_flags N flag (profile_flags N (profile_from_sync_config N m)) in
      (of (codes "--transfers") ∙ transfers_given (int_v N m ("parallel" ∷ [])))
      ⨾ (of (codes "--bwlimit") ∙ bandwidth_given (int_v N m ("bandwidth" ∷ [])))
      ⨾ ((of (codes "--max-delete") ∙ count_given (int_v N m ("max_delete" ∷ "maxDelete" ∷ [])))
          ⨾ (of (codes "--multi-thread-streams")
              ∙ count_given (int_v N m ("multi_thread_streams" ∷ "multiThreadStreams" ∷ [])))
          ⨾ (of (codes "--retries") ∙ count_given (int_v N m ("retries" ∷ [])))
          ⨾ (of (codes "--low-level-retries")
              ∙ count_given (int_v N m ("low_level_retries" ∷ "lowLevelRetries" ∷ [])))
          ⨾ (of (codes "--max-depth") ∙ count_given (int_v N m ("max_depth" ∷ "maxDepth" ∷ [])))
          ⨾ tt)
      ⨾ ((of (codes "--min-age")
            ∙ text_given (string_v N m ("min_age" ∷ "minAge" ∷ []))
                (string_v-IsFilled m ("min_age" ∷ "minAge" ∷ [])))
          ⨾ (of (codes "--max-age")
              ∙ text_given (string_v N m ("max_age" ∷ "maxAge" ∷ []))
                  (string_v-IsFilled m ("max_age" ∷ "maxAge" ∷ [])))
          ⨾ (of (codes "--min-size")
              ∙ text_given (string_v N m ("min_size" ∷ "minSize" ∷ []))
                  (string_v-IsFilled m ("min_size" ∷ "minSize" ∷ [])))
          ⨾ (of (codes "--max-size")
              ∙ text_given (string_v N m ("max_size" ∷ "maxSize" ∷ []))
                  (string_v-IsFilled m ("max_size" ∷ "maxSize" ∷ [])))
          ⨾ (of (codes "--exclude-if-present")
              ∙ text_given (string_v N m ("exclude_if_present" ∷ "excludeIfPresent" ∷ []))
                  (string_v-IsFilled m ("exclude_if_present" ∷ "excludeIfPresent" ∷ [])))
          ⨾ (of (codes "--buffer-size")
              ∙ text_given (string_v N m ("buffer_size" ∷ "bufferSize" ∷ []))
                  (string_v-IsFilled m ("buffer_size" ∷ "bufferSize" ∷ [])))
          ⨾ (of (codes "--max-duration")
              ∙ text_given (string_v N m ("max_duration" ∷ "maxDuration" ∷ []))
                  (string_v-IsFilled m ("max_duration" ∷ "maxDuration" ∷ [])))
          ⨾ (of (codes "--retries-sleep")
              ∙ text_given (string_v N m ("retries_sleep" ∷ "retriesSleep" ∷ []))
                  (string_v-IsFilled m ("retries_sleep" ∷ "retriesSleep" ∷ [])))
          ⨾ (of (codes "--contimeout")
              ∙ text_given (string_v N m ("conn_timeout" ∷ "connTimeout" ∷ []))
                  (string_v-IsFilled m ("conn_timeout" ∷ "connTimeout" ∷ [])))
          ⨾ (of (codes "--timeout")
              ∙ text_given (string_v N m ("io_timeout" ∷ "ioTimeout" ∷ []))
                  (string_v-IsFilled m ("io_timeout" ∷ "ioTimeout" ∷ [])))
          ⨾ (of (codes "--order-by")
              ∙ text_given (string_v N m ("order_by" ∷ "orderBy" ∷ []))
                  (string_v-IsFilled m ("order_by" ∷ "orderBy" ∷ [])))
          ⨾ (of (codes "--max-transfer")
              ∙ text_given (string_v N m ("max_transfer" ∷ "maxTransfer" ∷ []))
                  (string_v-IsFilled m ("max_transfer" ∷ "maxTransfer" ∷ [])))
          ⨾ (of (codes "--max-delete-size")
              ∙ text_given (string_v N m ("max_delete_size" ∷ "maxDeleteSize" ∷ []))
                  (string_v-IsFilled m ("max_delete_size" ∷ "maxDeleteSize" ∷ [])))
          ⨾ (of (codes "--suffix")
              ∙ text_given (string_v N m ("suffix" ∷ [])) (string_v-IsFilled m ("suffix" ∷ [])))
          ⨾ (of (codes "--backup-dir")
              ∙ text_given (string_v N m ("backup_path" ∷ "backupPath" ∷ []))
                  (string_v-IsFilled m ("backup_path" ∷ "backupPath" ∷ [])))
          ⨾ (of (codes "--conflict-resolve")
              ∙ text_given (string_v N m ("conflict_resolution" ∷ "conflictResolution" ∷ []))
                  (string_v-IsFilled m ("conflict_resolution" ∷ "conflictResolution" ∷ [])))
          ⨾ (of (codes "--conflict-loser")
              ∙ text_given (string_v N m ("conflict_loser" ∷ "conflictLoser" ∷ []))
                  (string_v-IsFilled m ("conflict_loser" ∷ "conflictLoser" ∷ [])))
          ⨾ (of (codes "--conflict-suffix")
              ∙ text_given (string_v N m ("conflict_suffix" ∷ "conflictSuffix" ∷ []))
                  (string_v-IsFilled m ("conflict_suffix" ∷ "conflictSuffix" ∷ [])))
          ⨾ (of (codes "--max-lock")
              ∙ text_given (string_v N m ("max_lock" ∷ "maxLock" ∷ []))
                  (string_v-IsFilled m ("max_lock" ∷ "maxLock" ∷ [])))
          ⨾ tt)
      ⨾ ((of (codes "--dry-run")
            ∙ switch_given (unwrap_or false (bool_v N m ("dry_run" ∷ "dryRun" ∷ []))))
          ⨾ (of (codes "--check-first")
              ∙ switch_given (unwrap_or false (bool_v N m ("check_first" ∷ "checkFirst" ∷ []))))
          ⨾ (of (codes "--immutable")
              ∙ switch_given (unwrap_or false (bool_v N m ("immutable" ∷ []))))
          ⨾ (of (codes "--suffix-keep-extension")
              ∙ switch_given (
                  unwrap_or false
                    (bool_v N m ("suffix_keep_extension" ∷ "suffixKeepExtension" ∷ []))))
          ⨾ (of (codes "--size-only")
              ∙ switch_given (unwrap_or false (bool_v N m ("size_only" ∷ "sizeOnly" ∷ []))))
          ⨾ (of (codes "--update")
              ∙ switch_given (unwrap_or false (bool_v N m ("update_mode" ∷ "updateMode" ∷ []))))
          ⨾ (of (codes "--ignore-existing")
              ∙ switch_given
                  (unwrap_or false (bool_v N m ("ignore_existing" ∷ "ignoreExisting" ∷ []))))
          ⨾ (of (codes "--delete-excluded")
              ∙ switch_given
                  (unwrap_or false (bool_v N m ("delete_excluded" ∷ "deleteExcluded" ∷ []))))
          ⨾ (of (codes "--resilient")
              ∙ switch_given (unwrap_or false (bool_v N m ("resilient" ∷ []))))
          ⨾ (of (codes "--check-access")
              ∙ switch_given (unwrap_or false (bool_v N m ("check_access" ∷ "checkAccess" ∷ []))))
          ⨾ tt)
