-- ===== src/Update/Pipeline/Verified.antt =====
-- The program is replaced only by what the checksum of its release vouches for.
use gn_drive.Common.{
  Bool, true, false, not, ◌≡◌, refl, ap, some, ◌++◌, ◌==◌, arith, if◌then◌else◌, beq_self,
}
use gn_drive.Common.Result.{ok, err}
use gn_drive.Common.Text.{Text, codes, text_eq, trim}
use gn_drive.Update.{Files, put, trim_v, atomic_swap}
use gn_drive.Update.Swap.{IsSafe, atomic_swap-IsSafe}
use gn_drive.Update.Pipeline.{
  download, fetch_checksum, same_hex, extract_binary, verified, fetch_binary, prepare, staged_path,
  update, summed, prepare_from, installed, install, with_assets, is_current, versioned,
}
use gn_drive.Update.Release.{
  Bytes, SelfUpdateError, GitHubAsset, GitHubRelease, Entry, World, UpdateOptions, UpdateResult,
  Answer, and_then, guard, fetch_release, pick_assets, io, checksum_mismatch, already_up_to_date,
}

-- How a binary was come by: it is in the download of an asset of the release, whose digest is the
-- first word of the asset's checksum file, letter case and surrounding space aside.
pub record IsVouchedFor (w : World) (o : UpdateOptions) (binary : Entry) : Type 0 where
  pub release : GitHubRelease
  pub asset : GitHubAsset
  pub sum : GitHubAsset
  pub body : Bytes
  pub expected : Text
  pub fetched : fetch_release w o ≡ ok release
  pub picked : pick_assets release (trim_v release.tag_name) o.arch ≡ ok (asset, sum)
  pub downloaded : download w asset.browser_download_url ≡ ok body
  pub summed : fetch_checksum w sum ≡ ok expected
  pub matching : same_hex (w.sha256_hex body) (trim expected) ≡ true
  pub extracted : extract_binary w asset.name body ≡ ok binary

ok-injective : {A : Type 0} (a b : A) → ◌≡◌ {A = Answer A} (ok a) (ok b) → a ≡ b
ok-injective {A = A} a b h = ap (λ (r : Answer A). elim r [ ok c ↦ c | err e ↦ a ]) h

no_err : {A : Type 0} (e : SelfUpdateError) (b : A) → ◌≡◌ {A = Answer A} (err e) (ok b) → ⊥
no_err e b h = absurd (ground arith)

guard-ok :
    {A : Type 0} (b : Bool) (e : SelfUpdateError) (a : Answer A) (x : A)
    → guard b e a ≡ ok x
    → (b ≡ true) × (a ≡ ok x)
guard-ok true e a x h = (refl, h)
guard-ok false e a x h = absurd (no_err e x h)

and_then-ok :
    {A B : Type 0} (r : Answer A) (f : A → Answer B) (y : B)
    → and_then r f ≡ ok y
    → (x : A) × (r ≡ ok x) × (f x ≡ ok y)
and_then-ok (ok a) f y h = (a, refl, h)
and_then-ok (err e) f y h = absurd (no_err e y h)

fetch_binary-ok :
    (w : World) (o : UpdateOptions) (rel : GitHubRelease) (asset sum : GitHubAsset) (binary : Entry)
    → fetch_release w o ≡ ok rel
    → pick_assets rel (trim_v rel.tag_name) o.arch ≡ ok (asset, sum)
    → fetch_binary w asset sum ≡ ok binary
    → IsVouchedFor w o binary
unfolding fetch_binary summed verified
fetch_binary-ok w o rel asset sum binary fetched picked h =
    let loaded = download w asset.browser_download_url in
    let (_, staged) = guard-ok w.makes_stage io (and_then loaded (summed w asset sum)) binary h in
    let (body, downloaded, rest) = and_then-ok loaded (summed w asset sum) binary staged in
    let check = verified w asset.name body in
    let (_, stored) =
      guard-ok w.stores_archive io (and_then (fetch_checksum w sum) check) binary rest in
    let (expected, read, tested) = and_then-ok (fetch_checksum w sum) check binary stored in
    let (same, extracted) =
      guard-ok (same_hex (w.sha256_hex body) (trim expected)) checksum_mismatch
        (extract_binary w asset.name body) binary tested in
    record {
      release = rel;
      asset = asset;
      sum = sum;
      body = body;
      expected = expected;
      fetched = fetched;
      picked = picked;
      downloaded = downloaded;
      summed = read;
      matching = same;
      extracted = extracted;
    }

prepare-ok :
    (w : World) (o : UpdateOptions) (version : Text) (binary : Entry)
    → prepare w o ≡ ok (version, binary)
    → IsVouchedFor w o binary
unfolding prepare prepare_from with_assets
prepare-ok w o version binary h =
    let (rel, fetched, go) =
      and_then-ok (fetch_release w o) (prepare_from w o) (version, binary) h in
    let new = trim_v rel.tag_name in
    let (_, free) =
      guard-ok (not (is_current o new)) already_up_to_date
        (and_then (pick_assets rel new o.arch) (with_assets w new)) (version, binary)
        (unless_current (is_current o new)
          (and_then (pick_assets rel new o.arch) (with_assets w new)) (version, binary) go) in
    let ((asset, sum), picked, found) =
      and_then-ok (pick_assets rel new o.arch) (with_assets w new) (version, binary) free in
    let (entry, got, same) =
      and_then-ok (fetch_binary w asset sum) (versioned new) (version, binary) found in
    let is : entry ≡ binary =
      ap (λ (t : Text × Entry). t.1) (ok-injective (new, entry) (version, binary) same) in
    fetch_binary-ok w o rel asset sum binary fetched picked (rw (← is) got)
  where
    unless_current :
        (b : Bool) (a : Answer (Text × Entry)) (x : Text × Entry)
        → (if b then err already_up_to_date else a) ≡ ok x
        → guard (not b) already_up_to_date a ≡ ok x
    unless_current true a x h = h
    unless_current false a x h = h

-- An update that succeeds has put a vouched-for binary in place and kept the old program as the
-- backup; one that fails leaves the old program in place unless the renaming back fails too.
abbrev pub IsSafeUpdate :
    World → UpdateOptions → Files Bytes → Answer UpdateResult × Files Bytes → Type 0
IsSafeUpdate w o old (ok result, files) =
    (binary : Entry) × IsVouchedFor w o binary
    × (files o.target ≡ some binary.content)
    × (files (o.target ++ codes ".bak") ≡ old o.target)
IsSafeUpdate w o old (err e, files) = w.steps.renames_back ≡ true → files o.target ≡ old o.target

module _ (w : World) (o : UpdateOptions) where
  installed_lem :
      (version : Text) (binary : Entry) (old : Files Bytes) (d : Bool × Files Bytes)
      → IsVouchedFor w o binary
      → IsSafe w.steps.renames_back
          (o.target ++ codes ".bak")
          o.target
          (some binary.content)
          (old o.target)
          d
      → IsSafeUpdate w o old (installed o version d)
  installed_lem version binary old (true, files) v safe =
      (binary, v, (safe.0 refl).0, (safe.0 refl).1)
  installed_lem version binary old (false, files) v safe = λ back. safe.1 refl back

  -- For any answers of the network and outcomes of the file operations, when no staged file has
  -- the path of the program or of its .new copy: if update succeeds, the program is a binary out
  -- of a download of an asset of the release whose SHA-256 equals, letter case and surrounding
  -- space aside, the first word of the downloaded checksum file of this asset, and the old program
  -- is the backup; if update fails, and the renaming back does not fail too, the old program is in
  -- place.
  pub update-IsSafeUpdate :
      (files : Files Bytes)
      → ((e : Entry) → ((o.target ++ codes ".new") == staged_path w e) ≡ false)
      → ((e : Entry) → (staged_path w e == o.target) ≡ false)
      → IsSafeUpdate w o files (update w o files)
  unfolding update install
  update-IsSafeUpdate files apart other = from (prepare w o) refl
    where
      after_mode :
          (b : Bool) (staged : Files Bytes) (swap : Answer UpdateResult × Files Bytes)
          → IsSafeUpdate w o files (err io, staged)
          → IsSafeUpdate w o files swap
          → IsSafeUpdate w o files (if not b then (err io, staged) else swap)
      after_mode true staged swap fails safe = safe
      after_mode false staged swap fails safe = fails

      from :
          (r : Answer (Text × Entry))
          → prepare w o ≡ r
          → IsSafeUpdate w o files (install w o r files)
      from (err e) p = λ back. refl
      from (ok (version, binary)) p =
          let path = staged_path w binary in
          let staged = put path (some binary.content) files in
          let swap = installed o version (atomic_swap w.steps path o.target staged) in
          let safe = atomic_swap-IsSafe w.steps path o.target staged (apart binary) in
          after_mode w.sets_mode staged swap (λ back. rw (other binary) refl)
            (installed_lem version binary files (atomic_swap w.steps path o.target staged)
              (prepare-ok w o version binary p) (rw (beq_self path, other binary) at safe))
