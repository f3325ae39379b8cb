-- ===== src/Rclone/Endpoints.antt =====
-- crates/gn-drive-core/src/rclone/client.rs: the endpoints on the command line of a sync.
use gn_drive.Common.{◌≡◌, refl, sym, ap, ◌∙◌, some, List, [], ◌++◌, get_elem?, arith}
use gn_drive.Common.Text.{Text, text_eq}
use gn_drive.Profile.{Numerics}
use gn_drive.Rclone.{
  RcloneAction, pull, push, bi, bi_resync, copy, move, check, dry_run, base, flags_of, SyncConfig,
  Result, ok, err, build_args, resolve_endpoints, pending_seed_path, command, read_side, args_with,
}

abbrev pub args_of : Result (List Text) → List Text
args_of (ok args) = args
args_of (err e) = []

module _ (N : Numerics) where
  first_endpoint :
      (a : RcloneAction) (ends : Text × Text) (rest : List Text)
      → get_elem? (command N a ends ++ rest) 1 ≡ some (read_side N a ends)
  unfolding command
  first_endpoint pull ends rest = refl
  first_endpoint push ends rest = refl
  first_endpoint bi ends rest = refl
  first_endpoint bi_resync ends rest = refl
  first_endpoint copy ends rest = refl
  first_endpoint move ends rest = refl
  first_endpoint check ends rest = refl
  first_endpoint dry_run ends rest = refl

  resolved_seed :
      (cfg : SyncConfig N.Float) (ends : Text × Text)
      → resolve_endpoints N cfg ≡ ok ends
      → pending_seed_path N cfg ≡ read_side N cfg.action ends
  unfolding resolve_endpoints pending_seed_path
  resolved_seed cfg ends h = ground arith

  -- When build_args gives a command line, its first endpoint is the path that pending_seed_path
  -- lists.
  pub build_args-seed :
      (config_path : Text) (cfg : SyncConfig N.Float) (args : List Text)
      → build_args N config_path cfg ≡ ok args
      → get_elem? args 1 ≡ some (pending_seed_path N cfg)
  unfolding build_args
  build_args-seed config_path cfg args h = go (resolve_endpoints N cfg) refl h
    where
      go :
          (r : Result (Text × Text))
          → resolve_endpoints N cfg ≡ r
          → args_with N config_path cfg r ≡ ok args
          → get_elem? args 1 ≡ some (pending_seed_path N cfg)
      go (err e) e' k = absurd (ground arith)
      go (ok ends) e k =
          ap (λ (l : List Text). get_elem? l 1) (sym (ap args_of k))
          ∙ first_endpoint cfg.action ends
              (base N config_path cfg.stats_interval ++ flags_of N cfg.profile)
          ∙ ap some (sym (resolved_seed cfg ends e))
