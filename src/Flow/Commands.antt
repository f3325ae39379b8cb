-- ===== src/Flow/Commands.antt =====
-- The command line of a flow's operation: crates/gn-drive-core/src/models.rs, flow_engine.rs,
-- sync_engine.rs and rclone/client.rs together.
use gn_drive.Common.{String, ◌≡◌, ◌⊎◌, true, some, List, ◌∷◌}
use gn_drive.Common.Text.{Text, codes, text_eq}
use gn_drive.Common.Result.{ok}
use gn_drive.Profile.{Numerics, Profile, profile_flags}
use gn_drive.Rclone.{RcloneAction, push, bi, bi_resync, as_str, build_args, base, flags_of}
use gn_drive.Rclone
use gn_drive.Sync.Requests.{start_path_sync, sync_config, or_four}
use gn_drive.Flow.{FlowOperation, SyncRequest, request}
use gn_drive.Flow.Directions.{IsActionOf}
use gn_drive.Flow.Endpoints.{IsEndpoint}

-- A command line for the direction, from the source to the target.
abbrev pub Opens : Text → Text → Text → Text → List Text → Type 0
Opens config_path d src dst line =
    (rest : List Text) × (((d ≡ codes "push")
        × (line
            ≡ codes "sync" ∷ src ∷ dst ∷ codes "--update" ∷ codes "--config" ∷ config_path ∷ rest))
      ⊎ (((d ≡ codes "bi")
            × (line ≡ codes "bisync" ∷ src ∷ dst ∷ codes "--config" ∷ config_path ∷ rest))
          ⊎ ((d ≡ codes "bi-resync")
              × (line
                  ≡ codes "bisync"
                    ∷ src
                    ∷ dst
                    ∷ codes "--resync"
                    ∷ codes "--force"
                    ∷ codes "--config"
                    ∷ config_path
                    ∷ rest))))

module _ (N : Numerics) where
  -- The request for an operation is accepted, and its command line is that of the operation.
  abbrev pub IsPushed : Text → String → FlowOperation N.Number → Type 0
  IsPushed config_path flow_id op =
      (d : Text) × (src : Text) × (dst : Text) × (p : Profile N.Float) × (line : List Text)
      × IsActionOf op d
      × IsEndpoint op.source_remote op.source_path src
      × IsEndpoint op.target_remote op.target_path dst
      × ((request N flow_id op).action ≡ d)
      × (start_path_sync N true (codes (request N flow_id op).busy_key) (request N flow_id op).from
            (request N flow_id op).to (some (request N flow_id op).opts)
          ≡ ok p)
      × (build_args N config_path (sync_config N (request N flow_id op).action p) ≡ Rclone.ok line)
      × Opens config_path d src dst line

  -- The profile that the request becomes.
  abbrev accepted : SyncRequest N.Float → Profile N.Float
  accepted r = record r.opts {
    name = codes r.busy_key;
    from = r.from;
    to = r.to;
    parallel = or_four N r.opts.parallel;
  }

  options : String → FlowOperation N.Number → List Text
  options flow_id op =
      codes "--stats"
      ∷ codes "1s"
      ∷ codes "--use-json-log"
      ∷ codes "-v"
      ∷ flags_of N (some (profile_flags N (accepted (request N flow_id op))))
