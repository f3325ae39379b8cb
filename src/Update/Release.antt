-- ===== src/Update/Release.antt =====
-- crates/gn-drive-core/src/self_update.rs: the release on the network and the choice of its assets.
use gn_drive.Common.{
  ℕ, Bool, not, Option, none, some, List, [], ◌∷◌, ◌++◌, ◌==◌, nat_eq, if◌then◌else◌,
}
use gn_drive.Common.Result.{Result, ok, err}
use gn_drive.Common.Text.{Text, codes, text_eq}
use gn_drive.Update.{Steps}

abbrev pub Bytes : Type 0
Bytes = List ℕ

pub data SelfUpdateError : Type 0 where
  no_release : SelfUpdateError
  no_matching_asset : Text → SelfUpdateError
  missing_checksum : Text → SelfUpdateError
  checksum_mismatch : SelfUpdateError
  already_up_to_date : SelfUpdateError
  http : ℕ → SelfUpdateError
  extract_failed : SelfUpdateError
  io : SelfUpdateError

pub record GitHubAsset : Type 0 where
  pub name : Text
  pub browser_download_url : Text

pub record GitHubRelease : Type 0 where
  pub tag_name : Text
  pub assets : List GitHubAsset

pub record HttpResponse : Type 0 where
  pub status : ℕ
  pub body : Bytes

-- A file of the unpacked archive, by its name in the staging directory.
pub record Entry : Type 0 where
  pub file : Text
  pub is_file : Bool
  pub is_executable : Bool
  pub content : Bytes

-- What the update meets: the answers of the network (none for a failed transport), the readers of
-- JSON and of UTF-8, SHA-256 in hexadecimal, tar and unzip with the sorted names of what they
-- leave, and how the file operations end.
pub record World : Type 0 where
  pub get : Text → Option HttpResponse
  pub read_release : Bytes → Option GitHubRelease
  pub lossy : Bytes → Text
  pub sha256_hex : Bytes → Text
  pub makes_stage : Bool
  pub stage : Text
  pub stores_archive : Bool
  pub unpack : Text → Bytes → Option (List Entry)
  pub sets_mode : Bool
  pub steps : Steps Bytes

pub record UpdateOptions : Type 0 where
  pub api_base : Text
  pub repo_owner : Text
  pub repo_name : Text
  pub current_version : Text
  pub force : Bool
  pub arch : Text
  pub target : Text

pub record UpdateResult : Type 0 where
  pub old_version : Text
  pub new_version : Text
  pub binary_path : Text

abbrev pub Answer : Type 0 → Type 0
Answer A = Result SelfUpdateError A

-- `?` on the answer of a call.
abbrev pub and_then : {A B : Type 0} → Answer A → (A → Answer B) → Answer B
and_then (ok a) f = f a
and_then (err e) f = err e

abbrev pub guard : {A : Type 0} → Bool → SelfUpdateError → Answer A → Answer A
guard b e a = if b then a else err e

abbrev pub tagged : Option GitHubRelease → Answer GitHubRelease
tagged none = err no_release
tagged (some r) = guard (not (r.tag_name == [])) no_release (ok r)

unfoldable pub fetch_release : World → UpdateOptions → Answer GitHubRelease
fetch_release w o =
    elim (w.get (
      o.api_base
      ++ (codes "/repos/"
          ++ (o.repo_owner ++ (codes "/" ++ (o.repo_name ++ codes "/releases/latest")))))) [
            | none ↦ err io
            | some r ↦
                if r.status == 404
                then err no_release
                else guard (r.status == 200) (http r.status) (tagged (w.read_release r.body))
          ]

unfoldable pub candidate_asset_names : Text → Text → List Text
candidate_asset_names version arch =
    (codes "gn-drive-darwin-" ++ (arch ++ codes ".tar.gz"))
    ∷ (codes "gn-drive-" ++ (version ++ (codes "-macos-" ++ (arch ++ codes ".tar.gz"))))
    ∷ (if arch == codes "amd64"
        then (codes "gn-drive-" ++ (version ++ codes "-macos-x86_64.tar.gz")) ∷ []
        else [])

unfoldable pub find_asset : Text → List GitHubAsset → Option GitHubAsset
find_asset name [] = none
find_asset name (a ∷ rest) = if a.name == name then some a else find_asset name rest

unfoldable pub find_first : List Text → List GitHubAsset → Option GitHubAsset
unfolding find_asset
find_first [] assets = none
find_first (n ∷ names) assets = elim (find_asset n assets) [
  | none ↦ find_first names assets
  | some a ↦ some a
]

abbrev pub with_sum : GitHubAsset → Option GitHubAsset → Answer (GitHubAsset × GitHubAsset)
with_sum bin none = err (missing_checksum (bin.name ++ codes ".sha256"))
with_sum bin (some sum) = ok (bin, sum)

unfoldable pub pick_assets : GitHubRelease → Text → Text → Answer (GitHubAsset × GitHubAsset)
unfolding find_first candidate_asset_names
pick_assets r version arch = elim (find_first (candidate_asset_names version arch) r.assets) [
  | none ↦ err (no_matching_asset (codes "gn-drive-darwin-" ++ (arch ++ codes ".tar.gz")))
  | some bin ↦ with_sum bin (find_asset (bin.name ++ codes ".sha256") r.assets)
]
