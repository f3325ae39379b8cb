-- ===== src/Rclone/Flags.antt =====
-- crates/gn-drive-core/src/rclone/client.rs: `profile_to_flags` beside a reader of command lines.
use gn_drive.Common.{
  String, ◌≡◌, refl, sym, ap, ◌∙◌, inl, inr, Bool, true, false, Option, none, some, List, [], ◌∷◌,
  ◌++◌, ◌==◌, if◌then◌else◌, any, map, Bool-cases, ◌⨾◌,
}
use gn_drive.Common.Text.{Text, codes, text_eq, text_beq, text_beq_iff, trim, to_lowercase}
use gn_drive.Common.Text.Decimal.{ℤ, show_i64}
use mathlib.Core.List.{append_assoc, append-nil}
use gn_drive.Profile.{Numerics, ProfileFlags, is_above}
use gn_drive.Rclone.{
  concat, text_flag, count_flag, switch, each_flag, timing_flag, float_flag, profile_to_flags,
  pieces,
}

-- The flags without a value.
abbrev pub switches : List Text
switches = map codes (
    "--dry-run" ∷ "--no-unicode-normalization" ∷ "--check-first" ∷ "--immutable"
    ∷ "--suffix-keep-extension" ∷ "--size-only" ∷ "--update" ∷ "--ignore-existing"
    ∷ "--delete-excluded" ∷ "--delete-before" ∷ "--delete-after" ∷ "--delete-during" ∷ "--resilient"
    ∷ "--check-access" ∷ [])

unfoldable pub is_switch : Text → Bool
is_switch a = any (λ (s : Text). s == a) switches

abbrev pub Setting : Type 0
Setting = Text × Option Text

-- A command line as rclone reads it: every flag but a switch takes the argument after it, whatever
-- that is. The first argument is the flag that waits for its value.
unfoldable pub read_from : Option Text → List Text → List Setting
unfolding is_switch
read_from waiting [] = []
read_from (some flag) (a ∷ rest) = (flag, some a) ∷ read_from none rest
read_from none (a ∷ rest) =
    let valued = read_from (some a) rest in
    let alone = (a, none) ∷ read_from none rest in if is_switch a then alone else valued

-- What is given for a flag: nothing, or its values.
unfoldable pub valued : Text → List (Option Text)
valued [] = []
valued (c ∷ s) = some (c ∷ s) ∷ []

unfoldable pub counted : ℤ → List (Option Text)
counted n = if is_above n then some (show_i64 n) ∷ [] else []

unfoldable pub present : Bool → List (Option Text)
present b = if b then none ∷ [] else []

unfoldable pub each : List Text → List (Option Text)
unfolding valued
each [] = []
each (v ∷ vs) = valued (trim v) ++ each vs

abbrev pub entries : String → List (Option Text) → List Setting
entries flag vs = map (λ (v : Option Text). (codes flag, v)) vs

abbrev pub flatten : List (String × List (Option Text)) → List Setting
flatten [] = []
flatten ((flag, vs) ∷ rest) = entries flag vs ++ flatten rest

-- The arguments are read as the settings, whatever arguments follow.
abbrev pub IsRead : List Text → List (String × List (Option Text)) → Type 0
IsRead args ss =
    (rest : List Text) → read_from none (args ++ rest) ≡ flatten ss ++ read_from none rest

abbrev Reads : List (List Text) → List (List (String × List (Option Text))) → Type 0
Reads [] [] = Unit
Reads [] (ss ∷ more) = ⊥
Reads (args ∷ next) [] = ⊥
Reads (args ∷ next) (ss ∷ more) = IsRead args ss × Reads next more

flatten-append :
    (ss ts : List (String × List (Option Text))) → flatten (ss ++ ts) ≡ flatten ss ++ flatten ts
flatten-append [] ts = refl
flatten-append ((flag, vs) ∷ ss) ts =
    ap (λ (t : List Setting). entries flag vs ++ t) (flatten-append ss ts)
    ∙ sym (append_assoc (entries flag vs) (flatten ss) (flatten ts))

concat-IsRead :
    (pieces : List (List Text)) (groups : List (List (String × List (Option Text))))
    → Reads pieces groups
    → IsRead (concat pieces) (concat groups)
concat-IsRead [] [] h rest = refl
concat-IsRead [] (ss ∷ more) h rest = absurd h
concat-IsRead (args ∷ next) [] h rest = absurd h
concat-IsRead (args ∷ next) (ss ∷ more) h rest =
    rw
      (
        append_assoc args (concat next) rest,
        h.0 (concat next ++ rest),
        concat-IsRead next more h.1 rest,
        flatten-append ss (concat more),
        append_assoc (flatten ss) (flatten (concat more)) (read_from none rest),
      )
      refl

text_flag-IsRead :
    (flag : String) (v : Text)
    → is_switch (codes flag) ≡ false
    → IsRead (text_flag flag v) ((flag, valued v) ∷ [])
unfolding text_flag valued read_from
text_flag-IsRead flag [] h rest = refl
text_flag-IsRead flag (c ∷ s) h rest = rw h refl

count_flag-IsRead :
    (flag : String) (n : ℤ)
    → is_switch (codes flag) ≡ false
    → IsRead (count_flag flag n) ((flag, counted n) ∷ [])
unfolding count_flag counted read_from
count_flag-IsRead flag n h rest = elim (Bool-cases (is_above n)) [
  | inl e ↦ rw (e, h) refl
  | inr e ↦ rw e refl
]

switch-IsRead :
    (flag : String) (b : Bool)
    → is_switch (codes flag) ≡ true
    → IsRead (switch flag b) ((flag, present b) ∷ [])
unfolding switch present read_from
switch-IsRead flag true h rest = rw h refl
switch-IsRead flag false h rest = refl

entries-append :
    (flag : String) (vs ws : List (Option Text))
    → entries flag (vs ++ ws) ≡ entries flag vs ++ entries flag ws
entries-append flag [] ws = refl
entries-append flag (v ∷ vs) ws =
    ap (λ (t : List Setting). (codes flag, v) ∷ t) (entries-append flag vs ws)

each_flag-IsRead :
    (flag : String) (vs : List Text)
    → is_switch (codes flag) ≡ false
    → IsRead (each_flag flag vs) ((flag, each vs) ∷ [])
unfolding each_flag each
each_flag-IsRead flag [] h rest = refl
each_flag-IsRead flag (v ∷ vs) h rest =
    rw
      (
        append_assoc (text_flag flag (trim v)) (each_flag flag vs) rest,
        text_flag-IsRead flag (trim v) h (each_flag flag vs ++ rest),
        each_flag-IsRead flag vs h rest,
        entries-append flag (valued (trim v)) (each vs),
        append-nil (entries flag (valued (trim v))),
        append-nil (entries flag (each vs)),
        append-nil (entries flag (valued (trim v)) ++ entries flag (each vs)),
        append_assoc (entries flag (valued (trim v))) (entries flag (each vs))
            (read_from none rest),
      )
      refl

abbrev pub timing_group : Text → List (String × List (Option Text))
timing_group t =
    ("--delete-before", present (t == codes "before"))
    ∷ ("--delete-after", present (t == codes "after"))
    ∷ ("--delete-during", present (t == codes "during"))
    ∷ []

timing_flag-IsRead : (t : Text) → IsRead (timing_flag t) (timing_group t)
unfolding timing_flag present read_from text_beq
timing_flag-IsRead t rest = elim (Bool-cases (t == codes "before")) [
  | inl e ↦ rw ((text_beq_iff t (codes "before")).0 e) refl
  | inr b ↦ elim (Bool-cases (t == codes "after")) [
    | inl e ↦ rw ((text_beq_iff t (codes "after")).0 e) refl
    | inr a ↦ elim (Bool-cases (t == codes "during")) [
      | inl e ↦ rw ((text_beq_iff t (codes "during")).0 e) refl
      | inr d ↦ rw (b, a, d) refl
    ]
  ]
]

module _ (N : Numerics) where
  unfoldable pub measured : N.Float → List (Option Text)
  measured v = if N.is_above_zero v then some (N.debug v) ∷ [] else []

  float_flag-IsRead :
      (flag : String) (v : N.Float)
      → is_switch (codes flag) ≡ false
      → IsRead (float_flag N flag v) ((flag, measured v) ∷ [])
  unfolding float_flag measured read_from
  float_flag-IsRead flag v h rest = elim (Bool-cases (N.is_above_zero v)) [
    | inl e ↦ rw (e, h) refl
    | inr e ↦ rw e refl
  ]

  abbrev pub timing_of : ProfileFlags N.Float → Text
  timing_of p = to_lowercase (trim p.delete_timing)

  -- The flags in the order of the command line, each with what is given for it.
  abbrev pub groups : ProfileFlags N.Float → List (List (String × List (Option Text)))
  groups p =
      (("--bwlimit", valued p.bandwidth) ∷ [])
      ∷ (("--transfers", counted p.transfers) ∷ [])
      ∷ (("--checkers", counted p.checkers) ∷ [])
      ∷ (("--tpslimit", measured p.tps_limit) ∷ [])
      ∷ (("--min-age", valued p.min_age) ∷ [])
      ∷ (("--max-age", valued p.max_age) ∷ [])
      ∷ (("--min-size", valued p.min_size) ∷ [])
      ∷ (("--max-size", valued p.max_size) ∷ [])
      ∷ (("--exclude-if-present", valued p.exclude_if_present) ∷ [])
      ∷ (("--max-delete", counted p.max_delete) ∷ [])
      ∷ (("--dry-run", present p.dry_run) ∷ [])
      ∷ (("--no-unicode-normalization", present p.no_unicode_normalize) ∷ [])
      ∷ (("--include", each p.includes) ∷ [])
      ∷ (("--exclude", each p.excludes) ∷ [])
      ∷ (("--multi-thread-streams", counted p.multi_thread_streams) ∷ [])
      ∷ (("--buffer-size", valued p.buffer_size) ∷ [])
      ∷ (("--retries", counted p.retries) ∷ [])
      ∷ (("--low-level-retries", counted p.low_level_retries) ∷ [])
      ∷ (("--max-duration", valued p.max_duration) ∷ [])
      ∷ (("--retries-sleep", valued p.retries_sleep) ∷ [])
      ∷ (("--contimeout", valued p.conn_timeout) ∷ [])
      ∷ (("--timeout", valued p.io_timeout) ∷ [])
      ∷ (("--order-by", valued p.order_by) ∷ [])
      ∷ (("--check-first", present p.check_first) ∷ [])
      ∷ (("--immutable", present p.immutable) ∷ [])
      ∷ (("--max-transfer", valued p.max_transfer) ∷ [])
      ∷ (("--max-delete-size", valued p.max_delete_size) ∷ [])
      ∷ (("--suffix", valued p.suffix) ∷ [])
      ∷ (("--suffix-keep-extension", present p.suffix_keep_extension) ∷ [])
      ∷ (("--backup-dir", valued p.backup_dir) ∷ [])
      ∷ (("--size-only", present p.size_only) ∷ [])
      ∷ (("--update", present p.update_mode) ∷ [])
      ∷ (("--ignore-existing", present p.ignore_existing) ∷ [])
      ∷ (("--delete-excluded", present p.delete_excluded) ∷ [])
      ∷ (("--max-depth", counted p.max_depth) ∷ [])
      ∷ (timing_group (timing_of p))
      ∷ (("--conflict-resolve", valued p.conflict_resolve) ∷ [])
      ∷ (("--conflict-loser", valued p.conflict_loser) ∷ [])
      ∷ (("--conflict-suffix", valued p.conflict_suffix) ∷ [])
      ∷ (("--resilient", present p.resilient) ∷ [])
      ∷ (("--max-lock", valued p.max_lock) ∷ [])
      ∷ (("--check-access", present p.check_access) ∷ [])
      ∷ []

  abbrev pub settings : ProfileFlags N.Float → List (String × List (Option Text))
  settings p = concat (groups p)

  pub profile_to_flags-IsRead :
      (p : ProfileFlags N.Float) → IsRead (profile_to_flags N p) (settings p)
  unfolding profile_to_flags is_switch text_beq
  profile_to_flags-IsRead p = concat-IsRead (pieces N p) (groups p) (
      text_flag-IsRead "--bwlimit" p.bandwidth refl
      ⨾ count_flag-IsRead "--transfers" p.transfers refl
      ⨾ count_flag-IsRead "--checkers" p.checkers refl
      ⨾ float_flag-IsRead "--tpslimit" p.tps_limit refl
      ⨾ text_flag-IsRead "--min-age" p.min_age refl
      ⨾ text_flag-IsRead "--max-age" p.max_age refl
      ⨾ text_flag-IsRead "--min-size" p.min_size refl
      ⨾ text_flag-IsRead "--max-size" p.max_size refl
      ⨾ text_flag-IsRead "--exclude-if-present" p.exclude_if_present refl
      ⨾ count_flag-IsRead "--max-delete" p.max_delete refl
      ⨾ switch-IsRead "--dry-run" p.dry_run refl
      ⨾ switch-IsRead "--no-unicode-normalization" p.no_unicode_normalize refl
      ⨾ each_flag-IsRead "--include" p.includes refl
      ⨾ each_flag-IsRead "--exclude" p.excludes refl
      ⨾ count_flag-IsRead "--multi-thread-streams" p.multi_thread_streams refl
      ⨾ text_flag-IsRead "--buffer-size" p.buffer_size refl
      ⨾ count_flag-IsRead "--retries" p.retries refl
      ⨾ count_flag-IsRead "--low-level-retries" p.low_level_retries refl
      ⨾ text_flag-IsRead "--max-duration" p.max_duration refl
      ⨾ text_flag-IsRead "--retries-sleep" p.retries_sleep refl
      ⨾ text_flag-IsRead "--contimeout" p.conn_timeout refl
      ⨾ text_flag-IsRead "--timeout" p.io_timeout refl
      ⨾ text_flag-IsRead "--order-by" p.order_by refl
      ⨾ switch-IsRead "--check-first" p.check_first refl
      ⨾ switch-IsRead "--immutable" p.immutable refl
      ⨾ text_flag-IsRead "--max-transfer" p.max_transfer refl
      ⨾ text_flag-IsRead "--max-delete-size" p.max_delete_size refl
      ⨾ text_flag-IsRead "--suffix" p.suffix refl
      ⨾ switch-IsRead "--suffix-keep-extension" p.suffix_keep_extension refl
      ⨾ text_flag-IsRead "--backup-dir" p.backup_dir refl
      ⨾ switch-IsRead "--size-only" p.size_only refl
      ⨾ switch-IsRead "--update" p.update_mode refl
      ⨾ switch-IsRead "--ignore-existing" p.ignore_existing refl
      ⨾ switch-IsRead "--delete-excluded" p.delete_excluded refl
      ⨾ count_flag-IsRead "--max-depth" p.max_depth refl
      ⨾ timing_flag-IsRead (timing_of p)
      ⨾ text_flag-IsRead "--conflict-resolve" p.conflict_resolve refl
      ⨾ text_flag-IsRead "--conflict-loser" p.conflict_loser refl
      ⨾ text_flag-IsRead "--conflict-suffix" p.conflict_suffix refl
      ⨾ switch-IsRead "--resilient" p.resilient refl
      ⨾ text_flag-IsRead "--max-lock" p.max_lock refl
      ⨾ switch-IsRead "--check-access" p.check_access refl
      ⨾ tt)
