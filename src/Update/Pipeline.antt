-- ===== src/Update/Pipeline.antt =====
-- crates/gn-drive-core/src/self_update.rs: an update, from the release to the swap of the program.
pub mod Verified
mod Tests
use gn_drive.Common.{
  ℕ, Bool, true, false, ◌&&◌, ◌||◌, not, Option, none, some, List, [], ◌∷◌, ◌++◌, ◌==◌, nat_eq, any,
  if◌then◌else◌,
}
use mathlib.Core.List.{reverse}
use gn_drive.Common.Result.{Result, ok, err}
use gn_drive.Common.Text.{Text, codes, text_eq, trim, to_lowercase, split_whitespace}
use gn_drive.Sync.Errors.{starts_with}
use gn_drive.Update.{Files, Steps, put, trim_v, atomic_swap}
use gn_drive.Update.Release.{
  Bytes, SelfUpdateError, GitHubAsset, GitHubRelease, HttpResponse, Entry, World, UpdateOptions,
  UpdateResult, Answer, and_then, guard, tagged, fetch_release, candidate_asset_names, find_asset,
  find_first, with_sum, pick_assets, no_release, no_matching_asset, missing_checksum,
  checksum_mismatch, already_up_to_date, http, extract_failed, io,
}

unfoldable pub download : World → Text → Answer Bytes
download w url = elim (w.get url) [
  | none ↦ err io
  | some r ↦ guard (r.status == 200) (http r.status) (ok r.body)
]

abbrev first_word : List Text → Text
first_word [] = []
first_word (s ∷ rest) = s

unfoldable pub fetch_checksum : World → GitHubAsset → Answer Text
unfolding download
fetch_checksum w asset =
    and_then (download w asset.browser_download_url)
      (λ body. ok (first_word (split_whitespace (w.lossy body))))

-- `eq_ignore_ascii_case`
unfoldable pub same_hex : Text → Text → Bool
same_hex a b = to_lowercase a == to_lowercase b

unfoldable pub ends_with : Text → Text → Bool
ends_with t s = starts_with (reverse t) (reverse s)

abbrev first_executable : List Entry → Answer Entry
first_executable [] = err extract_failed
first_executable (e ∷ es) =
    let rest = first_executable es in
    if e.is_file && not (ends_with (codes ".tar.gz") e.file) && e.is_executable then ok e else rest

abbrev direct_or : List Entry → List Entry → Answer Entry
direct_or all [] = first_executable all
direct_or all (e ∷ es) =
    let rest = direct_or all es in if e.file == codes "gn-drive" && e.is_file then ok e else rest

abbrev unpacked : Option (List Entry) → Answer Entry
unpacked none = err extract_failed
unpacked (some es) = direct_or es es

unfoldable pub extract_binary : World → Text → Bytes → Answer Entry
unfolding ends_with
extract_binary w archive body =
    if ends_with (codes ".tar.gz") archive || ends_with (codes ".tgz") archive
    then unpacked (w.unpack (codes "/usr/bin/tar") body)
    else guard (ends_with (codes ".zip") archive) extract_failed
        (unpacked (w.unpack (codes "/usr/bin/unzip") body))

-- The binary of an archive whose digest is the expected one.
unfoldable pub verified : World → Text → Bytes → Text → Answer Entry
unfolding same_hex extract_binary
verified w archive body expected =
    guard (same_hex (w.sha256_hex body) (trim expected)) checksum_mismatch
      (extract_binary w archive body)

unfoldable pub summed : World → GitHubAsset → GitHubAsset → Bytes → Answer Entry
unfolding fetch_checksum verified
summed w asset sum body =
    guard w.stores_archive io (and_then (fetch_checksum w sum) (verified w asset.name body))

unfoldable pub fetch_binary : World → GitHubAsset → GitHubAsset → Answer Entry
unfolding download summed
fetch_binary w asset sum =
    guard w.makes_stage io (and_then (download w asset.browser_download_url) (summed w asset sum))

abbrev pub versioned : Text → Entry → Answer (Text × Entry)
versioned version binary = ok (version, binary)

unfoldable pub with_assets : World → Text → GitHubAsset × GitHubAsset → Answer (Text × Entry)
unfolding fetch_binary
with_assets w version (asset, sum) = and_then (fetch_binary w asset sum) (versioned version)

abbrev pub is_current : UpdateOptions → Text → Bool
is_current o version = not o.force && not (o.current_version == []) && version == o.current_version

unfoldable pub prepare_from : World → UpdateOptions → GitHubRelease → Answer (Text × Entry)
unfolding pick_assets with_assets
prepare_from w o rel =
    let version = trim_v rel.tag_name in
    if is_current o version
    then err already_up_to_date
    else and_then (pick_assets rel version o.arch) (with_assets w version)

-- `update` up to the changes of the installed files.
unfoldable pub prepare : World → UpdateOptions → Answer (Text × Entry)
unfolding fetch_release prepare_from
prepare w o = and_then (fetch_release w o) (prepare_from w o)

abbrev pub installed : UpdateOptions → Text → Bool × Files Bytes → Answer UpdateResult × Files Bytes
installed o version (false, files) = (err io, files)
installed o version (true, files) = (
  ok (record { old_version = o.current_version; new_version = version; binary_path = o.target }),
  files,
)

abbrev pub staged_path : World → Entry → Text
staged_path w e = w.stage ++ b'/' ∷ e.file

unfoldable pub install :
    World → UpdateOptions → Answer (Text × Entry) → Files Bytes → Answer UpdateResult × Files Bytes
unfolding atomic_swap
install w o (err e) files = (err e, files)
install w o (ok (version, binary)) files =
    let staged = put (staged_path w binary) (some binary.content) files in
    if not w.sets_mode
    then (err io, staged)
    else installed o version (atomic_swap w.steps (staged_path w binary) o.target staged)

unfoldable pub update : World → UpdateOptions → Files Bytes → Answer UpdateResult × Files Bytes
unfolding prepare install
update w o files = install w o (prepare w o) files
