-- ===== src/Update/Pipeline/Tests.antt =====
-- An update at concrete inputs.
use gn_drive.Common.{◌≡◌, refl, true, false, none, some, [], ◌∷◌, ◌==◌, if◌then◌else◌}
use gn_drive.Common.Result.{err}
use gn_drive.Common.Text.{
  Text, codes, text_eq, text_beq, to_lowercase, trim, split_whitespace, is_whitespace,
}
use gn_drive.Sync.Errors.{starts_with}
use gn_drive.Update.{Files, trim_v}
use gn_drive.Update.Pipeline.{update}
use gn_drive.Update.Release.{Bytes, GitHubRelease, World, UpdateOptions, checksum_mismatch}
use gn_drive.Update.Pipeline.Verified.{IsSafeUpdate, update-IsSafeUpdate}

abbrev release : GitHubRelease
release = record {
  tag_name = codes "v2.0.0";
  assets =
      record { name = codes "gn-drive-darwin-arm64.tar.gz"; browser_download_url = codes "u/bin" }
      ∷ record {
        name = codes "gn-drive-darwin-arm64.tar.gz.sha256";
        browser_download_url = codes "u/sum";
      }
      ∷ [];
}

-- The digest of every download is ab; the checksum file holds the given text.
abbrev serving : Text → World
serving sum = record {
  get = λ url. some (record { status = 200; body = if url == codes "u/sum" then sum else 7 ∷ [] });
  read_release = λ body. some release;
  lossy = λ body. body;
  sha256_hex = λ body. codes "ab";
  makes_stage = true;
  stage = codes "/tmp";
  stores_archive = true;
  unpack = λ tool body. some (
      record { file = codes "gn-drive"; is_file = true; is_executable = true; content = 9 ∷ [] }
      ∷ []);
  sets_mode = true;
  steps = record {
    removes_staged = true;
    copies = true;
    partial = none;
    sets_mode = true;
    removes_backup = true;
    renames_current = true;
    renames_staged = true;
    renames_back = true;
    cleans = true;
  };
}

abbrev options : UpdateOptions
options = record {
  api_base = codes "a";
  repo_owner = codes "o";
  repo_name = codes "n";
  current_version = codes "1.0.0";
  force = false;
  arch = codes "arm64";
  target = codes "/app";
}

abbrev installed_files : Files Bytes
installed_files p = if p == codes "/app" then some (1 ∷ []) else none

update-IsSafeUpdate_example :
    IsSafeUpdate
      (serving (codes "AB  gn-drive"))
      options
      installed_files
      (update (serving (codes "AB  gn-drive")) options installed_files)
unfolding text_beq
update-IsSafeUpdate_example =
    update-IsSafeUpdate (serving (codes "AB  gn-drive")) options installed_files (λ e. refl)
      (λ e. refl)

updates :
    ((update (serving (codes "AB  gn-drive")) options installed_files).1 (codes "/app")
      ≡ some (9 ∷ []))
    × ((update (serving (codes "ac")) options installed_files).0 ≡ err checksum_mismatch)
    × ((update (serving (codes "ac")) options installed_files).1 (codes "/app") ≡ some (1 ∷ []))
unfolding update text_beq trim_v to_lowercase trim split_whitespace is_whitespace starts_with
updates = (refl, refl, refl)
