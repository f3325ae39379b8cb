-- ===== src/Rclone/Reading.antt =====
-- crates/gn-drive-core/src/rclone/client.rs: the flags of a sync, read back from the command line
-- that `profile_to_flags` writes.
use gn_drive.Common.{
  ℕ, zero, suc, ◌^◌, ◌<◌, ◌≡◌, refl, sym, ap, ◌∙◌, ◌⊎◌, inl, inr, Bool, true, false, Option, none,
  some, List, [], ◌∷◌, ◌++◌, ◌==◌, All,
}
use mathlib.Core.Path.{fun_ext}
use gn_drive.Common.Text.{Text, codes, text_eq, text_beq, is_whitespace, trim, to_lowercase}
use gn_drive.Common.Text.Decimal.{ℤ, pos, show_i64, parse_i64, parse_i64-show}
use gn_drive.Profile.{Numerics, ProfileFlags, is_above}
use gn_drive.Rclone.{profile_to_flags}
use gn_drive.Rclone.Flags.{valued, counted, present, each, measured}
use gn_drive.Rclone.Given.{given, given-profile_to_flags}

-- The settings that a reader takes from what is given for each flag; nothing given is the default.
unfoldable pub text_of : List (Option Text) → Text
text_of [] = []
text_of (none ∷ vs) = []
text_of (some s ∷ vs) = s

abbrev pub or_zero : Option ℤ → ℤ
or_zero none = pos 0
or_zero (some n) = n

unfoldable pub count_of : List (Option Text) → ℤ
count_of [] = pos 0
count_of (none ∷ vs) = pos 0
count_of (some s ∷ vs) = or_zero (parse_i64 s)

unfoldable pub is_given : List (Option Text) → Bool
is_given [] = false
is_given (v ∷ vs) = true

unfoldable pub texts_of : List (Option Text) → List Text
texts_of [] = []
texts_of (none ∷ vs) = texts_of vs
texts_of (some s ∷ vs) = s ∷ texts_of vs

unfoldable pub timing : Bool → Bool → Bool → Text
timing true after during = codes "before"
timing false true during = codes "after"
timing false false true = codes "during"
timing false false false = []

-- A count that an i64 holds.
abbrev pub IsCount : ℤ → Type 0
IsCount n = (k : ℕ) × ((k < 2 ^ 63) × (n ≡ pos k))

-- A text without white space at its ends that is not empty.
abbrev pub IsWord : Text → Type 0
IsWord s = (trim s ≡ s) × ((c : ℕ) × ((t : Text) × (s ≡ c ∷ t)))

abbrev pub IsTiming : Text → Type 0
IsTiming t = (t ≡ []) ⊎ ((t ≡ codes "before") ⊎ ((t ≡ codes "after") ⊎ (t ≡ codes "during")))

text_back : (s : Text) → text_of (valued s ++ []) ≡ s
unfolding text_of valued
text_back [] = refl
text_back (c ∷ s) = refl

count_back : (n : ℤ) → IsCount n → count_of (counted n ++ []) ≡ n
unfolding count_of counted show_i64 is_above
count_back n (zero, (small, e)) = rw e refl
count_back n (suc k, (small, e)) = rw (e, parse_i64-show (suc k) small) refl

switch_back : (b : Bool) → is_given (present b ++ []) ≡ b
unfolding is_given present
switch_back true = refl
switch_back false = refl

texts_back : (vs : List Text) → All IsWord vs → texts_of (each vs ++ []) ≡ vs
unfolding texts_of each valued
texts_back [] h = refl
texts_back (v ∷ vs) ((trimmed, (c, (t, e))), h) =
    rw (trimmed, e) (ap (λ (ws : List Text). (c ∷ t) ∷ ws) (texts_back vs h))

timing_back :
    (t : Text)
    → IsTiming t
    → timing
        (is_given (present (to_lowercase (trim t) == codes "before") ++ []))
        (is_given (present (to_lowercase (trim t) == codes "after") ++ []))
        (is_given (present (to_lowercase (trim t) == codes "during") ++ []))
      ≡ t
unfolding timing is_given present to_lowercase trim text_beq is_whitespace
timing_back t (inl e) = rw e refl
timing_back t (inr (inl e)) = rw e refl
timing_back t (inr (inr (inl e))) = rw e refl
timing_back t (inr (inr (inr e))) = rw e refl

module _ (N : Numerics) where
  unfoldable pub float_of : List (Option Text) → N.Float
  float_of [] = N.zero_float
  float_of (none ∷ vs) = N.zero_float
  float_of (some s ∷ vs) = elim (N.parse_f64 s) [ none ↦ N.zero_float | some v ↦ v ]

  -- A rate above 0 that its text gives back, or 0.
  abbrev pub IsRate : N.Float → Type 0
  IsRate v =
      ((v ≡ N.zero_float) × (N.is_above_zero v ≡ false))
      ⊎ ((N.is_above_zero v ≡ true) × (N.parse_f64 (N.debug v) ≡ some v))

  -- Settings that a command line can hold: counts from 0 on, patterns that are words, and
  -- for `delete_timing` a word that rclone has a flag for.
  pub record IsPlain (p : ProfileFlags N.Float) : Type 0 where
    pub transfers : IsCount p.transfers
    pub checkers : IsCount p.checkers
    pub tps_limit : IsRate p.tps_limit
    pub max_delete : IsCount p.max_delete
    pub use_list_r : p.use_list_r ≡ false
    pub includes : All IsWord p.includes
    pub excludes : All IsWord p.excludes
    pub multi_thread_streams : IsCount p.multi_thread_streams
    pub retries : IsCount p.retries
    pub low_level_retries : IsCount p.low_level_retries
    pub max_depth : IsCount p.max_depth
    pub delete_timing : IsTiming p.delete_timing

  unfoldable pub read_flags : (Text → List (Option Text)) → ProfileFlags N.Float
  unfolding text_of count_of is_given texts_of timing float_of
  read_flags o = record {
    bandwidth = text_of (o (codes "--bwlimit"));
    transfers = count_of (o (codes "--transfers"));
    checkers = count_of (o (codes "--checkers"));
    tps_limit = float_of (o (codes "--tpslimit"));
    min_age = text_of (o (codes "--min-age"));
    max_age = text_of (o (codes "--max-age"));
    min_size = text_of (o (codes "--min-size"));
    max_size = text_of (o (codes "--max-size"));
    exclude_if_present = text_of (o (codes "--exclude-if-present"));
    max_delete = count_of (o (codes "--max-delete"));
    dry_run = is_given (o (codes "--dry-run"));
    use_list_r = false;
    no_unicode_normalize = is_given (o (codes "--no-unicode-normalization"));
    includes = texts_of (o (codes "--include"));
    excludes = texts_of (o (codes "--exclude"));
    multi_thread_streams = count_of (o (codes "--multi-thread-streams"));
    buffer_size = text_of (o (codes "--buffer-size"));
    retries = count_of (o (codes "--retries"));
    low_level_retries = count_of (o (codes "--low-level-retries"));
    max_duration = text_of (o (codes "--max-duration"));
    retries_sleep = text_of (o (codes "--retries-sleep"));
    conn_timeout = text_of (o (codes "--contimeout"));
    io_timeout = text_of (o (codes "--timeout"));
    order_by = text_of (o (codes "--order-by"));
    check_first = is_given (o (codes "--check-first"));
    immutable = is_given (o (codes "--immutable"));
    max_transfer = text_of (o (codes "--max-transfer"));
    max_delete_size = text_of (o (codes "--max-delete-size"));
    suffix = text_of (o (codes "--suffix"));
    suffix_keep_extension = is_given (o (codes "--suffix-keep-extension"));
    backup_dir = text_of (o (codes "--backup-dir"));
    size_only = is_given (o (codes "--size-only"));
    update_mode = is_given (o (codes "--update"));
    ignore_existing = is_given (o (codes "--ignore-existing"));
    delete_excluded = is_given (o (codes "--delete-excluded"));
    max_depth = count_of (o (codes "--max-depth"));
    delete_timing =
        timing (is_given (o (codes "--delete-before"))) (is_given (o (codes "--delete-after")))
          (is_given (o (codes "--delete-during")));
    conflict_resolve = text_of (o (codes "--conflict-resolve"));
    conflict_loser = text_of (o (codes "--conflict-loser"));
    conflict_suffix = text_of (o (codes "--conflict-suffix"));
    resilient = is_given (o (codes "--resilient"));
    max_lock = text_of (o (codes "--max-lock"));
    check_access = is_given (o (codes "--check-access"));
  }

  float_back : (v : N.Float) → IsRate v → float_of (measured N v ++ []) ≡ v
  unfolding float_of measured
  float_back v (inl (e, low)) = rw low (sym e)
  float_back v (inr (high, back)) = rw (high, back) refl

  -- For flags that a command line can hold (counts from 0 to 2^63 - 1, a rate that its text gives
  -- back or 0, patterns that are trimmed and not empty, a delete_timing that is empty or one of
  -- the three words, use_list_r off), a reader that takes the argument after every flag but a
  -- switch as its value gets the same flags back from profile_to_flags.
  pub read_flags-profile_to_flags :
      (p : ProfileFlags N.Float)
      → IsPlain p
      → read_flags (λ (flag : Text). given flag (profile_to_flags N p)) ≡ p
  unfolding read_flags text_beq
  read_flags-profile_to_flags p h =
      ap read_flags (fun_ext (λ (flag : Text). given-profile_to_flags N flag p))
      ∙ rw
          (
            text_back p.bandwidth,
            count_back p.transfers h.transfers,
            count_back p.checkers h.checkers,
            float_back p.tps_limit h.tps_limit,
            text_back p.min_age,
            text_back p.max_age,
            text_back p.min_size,
            text_back p.max_size,
            text_back p.exclude_if_present,
            count_back p.max_delete h.max_delete,
            switch_back p.dry_run,
            h.use_list_r,
            switch_back p.no_unicode_normalize,
            texts_back p.includes h.includes,
            texts_back p.excludes h.excludes,
            count_back p.multi_thread_streams h.multi_thread_streams,
            text_back p.buffer_size,
            count_back p.retries h.retries,
            count_back p.low_level_retries h.low_level_retries,
            text_back p.max_duration,
            text_back p.retries_sleep,
            text_back p.conn_timeout,
            text_back p.io_timeout,
            text_back p.order_by,
            switch_back p.check_first,
            switch_back p.immutable,
            text_back p.max_transfer,
            text_back p.max_delete_size,
            text_back p.suffix,
            switch_back p.suffix_keep_extension,
            text_back p.backup_dir,
            switch_back p.size_only,
            switch_back p.update_mode,
            switch_back p.ignore_existing,
            switch_back p.delete_excluded,
            count_back p.max_depth h.max_depth,
            timing_back p.delete_timing h.delete_timing,
            text_back p.conflict_resolve,
            text_back p.conflict_loser,
            text_back p.conflict_suffix,
            switch_back p.resilient,
            text_back p.max_lock,
            switch_back p.check_access,
          )
          refl
