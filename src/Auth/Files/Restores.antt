-- ===== src/Auth/Files/Restores.antt =====
-- After any run of operations on the config files a decryption whose file operations succeed
-- gives every file its content back.
use gn_drive.Common.{
  ◌<◌, ◌≡◌, inl, inr, refl, ◌∙◌, Bool, true, Option, none, some, List, [], ◌∷◌, length, arith,
  Option-cases,
}
use gn_drive.Common.Text.{Text}
use gn_drive.Update.{Files, put, remove_file}
use gn_drive.Auth.Password.{Bytes}
use gn_drive.Auth.Files.{
  Cipher, Io, enc, nonce_len, decrypt_file, decrypt_names, encrypt_config_files,
  decrypt_config_files, recover_from_crash, config_files, rclone_conf, gn_drive_db, opened,
}
use gn_drive.Auth.Files.Recoverable.{
  Restored, Kept, Away, Single, SameAt, KeptIn, RestoredIn, kept_same, decrypted_own,
  decrypted-Away,
}
use gn_drive.Auth.Files.Sealing.{CipherLaws}
use gn_drive.Auth.Files.Sessions.{
  Covers, rclone_conf-Single, gn_drive_db-Single, conf-db-Away, db-conf-Away, encrypt_names-Kept,
  decrypt_names-keeps, recover_names-Kept,
}

-- Runs of operations on the config files under one key, each with any outcomes of its file
-- operations. A recovery is that of a start with a password set.
pub data Runs (C : Cipher) (key : Bytes) (start : Files Bytes) : Files Bytes → Type 0 where
  none_yet : Runs C key start start
  encrypts :
      (io : Text → Io)
      → ((n : Text) → length (io n).nonce ≡ nonce_len)
      → (files : Files Bytes) → Runs C key start files
      → Runs C key start (encrypt_config_files C io key files).1
  decrypts :
      (io : Text → Io)
      → (files : Files Bytes) → Runs C key start files
      → Runs C key start (decrypt_config_files C io key files).1
  recovers :
      (io : Text → Io)
      → (files : Files Bytes) → Runs C key start files
      → Runs C key start (recover_from_crash true io files)

-- A config file that is not empty, and has no encrypted copy.
abbrev pub IsPlain : Files Bytes → Text → Type 0
IsPlain files m =
    (files (enc m) ≡ none) × ((plain : Bytes) → files m ≡ some plain → 0 < length plain)

abbrev pub Succeeds : Io → Type 0
Succeeds io = (io.reads ≡ true) × (io.writes ≡ true)

-- A decryption that ends without an error and leaves both files with their contents.
abbrev pub RestoresBoth : (Text → Option Bytes) → Bool × Files Bytes → Type 0
RestoresBoth orig (done, final) =
    (done ≡ true) × (final rclone_conf ≡ orig rclone_conf) × (final gn_drive_db ≡ orig gn_drive_db)

module _ (C : Cipher) (laws : CipherLaws C) (key : Bytes) where
  Runs-Kept :
      (m : Text) (start files : Files Bytes)
      → Single m
      → Covers m
      → IsPlain start m
      → Runs C key start files
      → KeptIn C laws key (start m) m files
  unfolding encrypt_config_files decrypt_config_files recover_from_crash
  Runs-Kept m start files single cover plain none_yet = inl (refl, inl plain.0)
  Runs-Kept m start files single cover plain (encrypts io short before run) =
      encrypt_names-Kept C laws key m single (start m) io config_files before short plain.1 cover
        (Runs-Kept m start before single cover plain run)
  Runs-Kept m start files single cover plain (decrypts io before run) =
      decrypt_names-keeps C laws key m single (start m) (Kept C key (start m))
        (λ file copy kept. kept) (λ file copy done. inl done) io config_files before cover
        (Runs-Kept m start before single cover plain run)
  Runs-Kept m start files single cover plain (recovers io before run) =
      recover_names-Kept C laws key m single (start m) io config_files before cover
        (Runs-Kept m start before single cover plain run)

  -- A file is decrypted, or there is nothing to decrypt; the loop goes on with files in which it is in place.
  abbrev Goes : (Text → Io) → Text → List Text → Option Bytes → Files Bytes → Type 0
  Goes io n names orig files =
      (after : Files Bytes) × (decrypt_names C io key (n ∷ names) files
        ≡ decrypt_names C io key names after)
      × RestoredIn C laws key orig n after
      × ((m : Text) → Away n m → SameAt m files after)

  opens_of :
      (orig file copy : Option Bytes) (blob : Bytes)
      → Kept C key orig file copy
      → copy ≡ some blob
      → (plain : Bytes) × (opened C key copy ≡ some plain)
  opens_of orig file copy blob (inl (e, inl gone)) h = absurd (ground arith)
  opens_of orig file copy blob (inl (e, inr (p, is, opens))) h = (p, opens)
  opens_of orig file copy blob (inr (e, (p, is, opens))) h = (p, opens)

  nothing_sealed :
      (orig file copy : Option Bytes)
      → Kept C key orig file copy
      → copy ≡ none
      → Restored C key orig file copy
  nothing_sealed orig file copy (inl done) h = done
  nothing_sealed orig file copy (inr (e, (p, is, opens))) h =
      let closed : opened C key none ≡ some p = rw h at opens in absurd (ground arith)

  good_decrypt :
      (io : Io) (n : Text) (files : Files Bytes) (plain : Bytes)
      → Succeeds io
      → opened C key (files (enc n)) ≡ some plain
      → decrypt_file C io key (enc n) n files ≡ some (put n (some plain) files)
  unfolding decrypt_file
  good_decrypt io n files plain good opens = rw (good.0, opens, good.1) refl

  goes :
      (io : Text → Io) (n : Text) (names : List Text) (orig : Option Bytes) (files : Files Bytes)
      → Succeeds (io n)
      → Single n
      → KeptIn C laws key orig n files
      → Goes io n names orig files
  unfolding decrypt_names
  goes io n names orig files good single kept = elim (Option-cases (files (enc n))) [
    | inl e ↦ (
      files,
      rw e refl,
      nothing_sealed orig (files n) (files (enc n)) kept e,
      λ m away. (refl, refl),
    )
    | inr (blob, e) ↦
        let (plain, opens) = opens_of orig (files n) (files (enc n)) blob kept e in
        let after = put n (some plain) files in
        let f = good_decrypt (io n) n files plain good opens in
        (
          remove_file (io n).removes (enc n) after,
          rw (f, e) refl,
          decrypted_own C laws key (io n) n orig files after single kept f,
          λ m away. decrypted-Away C laws key (io n) n m files after away f,
        )
  ]

  restores_both :
      (io : Text → Io) (orig : Text → Option Bytes) (files : Files Bytes)
      → ((n : Text) → Succeeds (io n))
      → KeptIn C laws key (orig rclone_conf) rclone_conf files
      → KeptIn C laws key (orig gn_drive_db) gn_drive_db files
      → RestoresBoth orig (decrypt_config_files C io key files)
  unfolding decrypt_config_files decrypt_names
  restores_both io orig files good conf db =
      let (first, step, done, off) =
        goes io rclone_conf (gn_drive_db ∷ []) (orig rclone_conf) files (good rclone_conf)
          rclone_conf-Single conf in
      let db_kept =
        kept_same C laws key (orig gn_drive_db) gn_drive_db files first
          (off gn_drive_db conf-db-Away) db in
      let (second, step', done', off') =
        goes io gn_drive_db [] (orig gn_drive_db) first (good gn_drive_db) gn_drive_db-Single
          db_kept in
      let conf_same = off' rclone_conf db-conf-Away in
      rw (step, step') (refl, conf_same.0 ∙ done.0, done'.0)

  Covers-conf : Covers rclone_conf
  Covers-conf = (inl refl, (inr db-conf-Away, tt))

  Covers-db : Covers gn_drive_db
  Covers-db = (inr conf-db-Away, (inl refl, tt))

  -- Of config files that are not empty and have no encrypted copies, after any run of encryptions
  -- with nonces of 12 bytes, decryptions and crash recoveries under one key, whichever of their
  -- file operations fail, a decryption whose reads and writes succeed ends without an error and
  -- gives both files their first contents; assumed are the laws of the cipher.
  pub decrypt_config_files_restores :
      (start files : Files Bytes) (io : Text → Io)
      → IsPlain start rclone_conf
      → IsPlain start gn_drive_db
      → Runs C key start files
      → ((n : Text) → Succeeds (io n))
      → RestoresBoth start (decrypt_config_files C io key files)
  decrypt_config_files_restores start files io conf db run good =
      restores_both io start files good
        (Runs-Kept rclone_conf start files rclone_conf-Single Covers-conf conf run)
        (Runs-Kept gn_drive_db start files gn_drive_db-Single Covers-db db run)
