-- ===== src/Rclone/Tests.antt =====
-- Examples of command lines.
use gn_drive.Common.{
  ℕ, ◌≡◌, refl, true, false, Option, none, some, List, [], ◌∷◌, inl, inr, arith, ltb,
}
use gn_drive.Common.Text.{Text, codes, trim, is_whitespace}
use gn_drive.Common.Text.Decimal.{ℤ, pos, show, parse_i64}
use gn_drive.Profile.{Numerics, ProfileFlags}
use gn_drive.Profile.Config.{JsonDict, string, number, bool}
use gn_drive.Rclone.{SyncConfig, pull, ok, build_args, profile_to_flags, resolve_endpoints, command}
use gn_drive.Rclone.Given.{given}
use gn_drive.Rclone.Reading.{read_flags, IsPlain, read_flags-profile_to_flags}
use gn_drive.Rclone.Passed.{ArePassed, sync_config-given}

abbrev whole : ℤ → Option ℕ
whole (pos n) = some n
whole n = none

abbrev parsed : Text → Option ℕ
parsed s = elim (parse_i64 s) [ none ↦ none | some n ↦ whole n ]

-- Rates that are whole numbers, and whole numbers in a JSON text.
abbrev pub naturals : Numerics
naturals = record {
  Float = ℕ;
  zero_float = 0;
  is_above_zero = λ v. ltb 0 v;
  debug = show;
  parse_f64 = parsed;
  Number = ℕ;
  as_i64 = λ n. some (pos n);
  as_f64 = λ n. some n;
  to_i64 = pos;
}

abbrev config : JsonDict ℕ
config =
    ("parallel", number 8)
    ∷ ("bandwidth", string (codes " 10 "))
    ∷ ("maxAge", string (codes "--dry-run"))
    ∷ ("dryRun", bool true)
    ∷ []

abbrev flags : ProfileFlags ℕ
flags = record {
  bandwidth = codes "10M";
  transfers = pos 8;
  checkers = pos 0;
  tps_limit = 3;
  min_age = [];
  max_age = codes "--dry-run";
  min_size = [];
  max_size = [];
  exclude_if_present = [];
  max_delete = pos 5;
  dry_run = false;
  use_list_r = false;
  no_unicode_normalize = false;
  includes = codes "*.txt" ∷ codes "*.md" ∷ [];
  excludes = [];
  multi_thread_streams = pos 0;
  buffer_size = [];
  retries = pos 2;
  low_level_retries = pos 0;
  max_duration = [];
  retries_sleep = [];
  conn_timeout = [];
  io_timeout = [];
  order_by = [];
  check_first = true;
  immutable = false;
  max_transfer = [];
  max_delete_size = [];
  suffix = [];
  suffix_keep_extension = false;
  backup_dir = [];
  size_only = false;
  update_mode = true;
  ignore_existing = false;
  delete_excluded = false;
  max_depth = pos 0;
  delete_timing = codes "after";
  conflict_resolve = [];
  conflict_loser = [];
  conflict_suffix = [];
  resilient = false;
  max_lock = [];
  check_access = false;
}

flags-IsPlain : IsPlain naturals flags
unfolding trim is_whitespace show parse_i64
flags-IsPlain = record {
  transfers = (8, (omega arith, refl));
  checkers = (0, (omega arith, refl));
  tps_limit = inr (refl, refl);
  max_delete = (5, (omega arith, refl));
  use_list_r = refl;
  includes = ((refl, (_, (_, refl))), ((refl, (_, (_, refl))), tt));
  excludes = tt;
  multi_thread_streams = (0, (omega arith, refl));
  retries = (2, (omega arith, refl));
  low_level_retries = (0, (omega arith, refl));
  max_depth = (0, (omega arith, refl));
  delete_timing = inr (inr (inl refl));
}

read_flags-profile_to_flags_example :
    read_flags naturals (λ (flag : Text). given flag (profile_to_flags naturals flags)) ≡ flags
read_flags-profile_to_flags_example = read_flags-profile_to_flags naturals flags flags-IsPlain

abbrev from_drive : SyncConfig ℕ
from_drive = record {
  action = pull;
  source = codes "/home";
  source_remote = [];
  source_path = [];
  dest = codes "drive:home";
  dest_remote = [];
  dest_path = [];
  resync = false;
  profile = none;
  stats_interval = [];
}

abbrev command_line : List Text
command_line =
    codes "sync"
    ∷ codes "drive:home"
    ∷ codes "/home"
    ∷ codes "--update"
    ∷ codes "--config"
    ∷ codes "rclone.conf"
    ∷ codes "--stats"
    ∷ codes "1s"
    ∷ codes "--use-json-log"
    ∷ codes "-v"
    ∷ []

built : build_args naturals (codes "rclone.conf") from_drive ≡ ok command_line
unfolding build_args resolve_endpoints command
built = refl

sync_config-given_example : ArePassed naturals config
sync_config-given_example = sync_config-given naturals config
