-- ===== src/Auth/Files/Sessions.antt =====
-- Runs of operations on the config files: encryptions, decryptions and recoveries, each with any
-- outcomes of its file operations, and the decryption that gives the files back.
use gn_drive.Common.{
  ◌<◌, ◌≡◌, ◌⊎◌, inl, inr, refl, ◌∙◌, true, ◌&&◌, Option, some, List, [], ◌∷◌, length, All, is_some,
  arith, Option-cases, Bool-cases,
}
use gn_drive.Common.Text.{Text, text_eq, text_beq}
use gn_drive.Update.{Files, remove_file}
use gn_drive.Auth.Password.{Bytes}
use gn_drive.Auth.Files.{
  Cipher, Io, enc, nonce_len, encrypt_file, decrypt_file, encrypt_names, decrypt_names,
  without_wal_shm, recover_names, config_files, rclone_conf, gn_drive_db,
}
use gn_drive.Auth.Files.Recoverable.{
  Restored, Kept, Away, Single, without-Away, own_without, KeptIn, kept_same, encrypted_own,
  encrypted-Away, decrypted_own, decrypted-Away,
}
use gn_drive.Auth.Files.Sealing.{CipherLaws}

pub rclone_conf-Single : Single rclone_conf
unfolding text_beq
rclone_conf-Single = (refl, refl, (refl, refl), (refl, refl))

pub gn_drive_db-Single : Single gn_drive_db
unfolding text_beq
gn_drive_db-Single = (refl, refl, (refl, refl), (refl, refl))

pub conf-db-Away : Away rclone_conf gn_drive_db
unfolding text_beq
conf-db-Away = ((refl, refl), (refl, refl), (refl, refl), (refl, refl))

pub db-conf-Away : Away gn_drive_db rclone_conf
unfolding text_beq
db-conf-Away = ((refl, refl), (refl, refl), (refl, refl), (refl, refl))

-- A config file, told apart from the other.
abbrev pub Covers : Text → Type 0
Covers m = All (λ n. (n ≡ m) ⊎ Away n m) config_files

module _ (C : Cipher) (laws : CipherLaws C) (key : Bytes) (m : Text) (single : Single m)
    (orig : Option Bytes) where
  pub encrypt_names-Kept :
      (io : Text → Io) (names : List Text) (files : Files Bytes)
      → ((n : Text) → length (io n).nonce ≡ nonce_len)
      → ((plain : Bytes) → orig ≡ some plain → 0 < length plain)
      → All (λ n. (n ≡ m) ⊎ Away n m) names
      → KeptIn C laws key orig m files
      → KeptIn C laws key orig m (encrypt_names C io key names files).1
  unfolding encrypt_names
  encrypt_names-Kept io [] files short nonempty cover kept = kept
  encrypt_names-Kept io (n ∷ names) files short nonempty (here, cover) kept =
      elim (Bool-cases (is_some (files n))) [
        | inr e ↦ rw e (encrypt_names-Kept io names files short nonempty cover kept)
        | inl e ↦ elim (Option-cases (encrypt_file C (io n) key n (enc n) files)) [
          | inl f ↦ rw (e, f) kept
          | inr (after, f) ↦
              rw (e, f)
                (encrypt_names-Kept io names (without_wal_shm (io n) n after) short nonempty cover
                  (step here after f))
        ]
      ]
    where
      step :
          (n ≡ m) ⊎ Away n m
          → (after : Files Bytes) → encrypt_file C (io n) key n (enc n) files ≡ some after
          → KeptIn C laws key orig m (without_wal_shm (io n) n after)
      step (inl same) after f = rw same (
          encrypted_own C laws key (io m) m orig files after single (short m) nonempty kept
            (rw same at f))
      step (inr away) after f =
          kept_same C laws key orig m files (without_wal_shm (io n) n after)
            (encrypted-Away C laws key (io n) n m files after away f) kept

  -- What a decryption keeps: that the file is kept, and that it is in place.
  module _ (Q : Option Bytes → Option Bytes → Type 0)
      (weaker : (file copy : Option Bytes) → Q file copy → Kept C key orig file copy)
      (stronger : (file copy : Option Bytes) → Restored C key orig file copy → Q file copy) where
    pub decrypt_names-keeps :
        (io : Text → Io) (names : List Text) (files : Files Bytes)
        → All (λ n. (n ≡ m) ⊎ Away n m) names
        → Q (files m) (files (enc m))
        → Q
            ((decrypt_names C io key names files).1 m)
            ((decrypt_names C io key names files).1 (enc m))
    unfolding decrypt_names
    decrypt_names-keeps io [] files cover kept = kept
    decrypt_names-keeps io (n ∷ names) files (here, cover) kept =
        elim (Bool-cases (is_some (files (enc n)))) [
          | inr e ↦ rw e (decrypt_names-keeps io names files cover kept)
          | inl e ↦ elim (Option-cases (decrypt_file C (io n) key (enc n) n files)) [
            | inl f ↦ rw (e, f) kept
            | inr (after, f) ↦
                rw (e, f)
                  (decrypt_names-keeps io names (remove_file (io n).removes (enc n) after) cover
                    (step here after f))
          ]
        ]
      where
        step :
            (n ≡ m) ⊎ Away n m
            → (after : Files Bytes) → decrypt_file C (io n) key (enc n) n files ≡ some after
            → Q
                (remove_file (io n).removes (enc n) after m)
                (remove_file (io n).removes (enc n) after (enc m))
        step (inl same) after f =
            let own =
              decrypted_own C laws key (io m) m orig files after single
                (weaker (files m) (files (enc m)) kept) (rw same at f) in
            rw same (
              stronger (remove_file (io m).removes (enc m) after m)
                (remove_file (io m).removes (enc m) after (enc m)) own)
        step (inr away) after f =
            let same = decrypted-Away C laws key (io n) n m files after away f in
            rw (same.0, same.1) kept

  recovered_own :
      (io : Io) (files : Files Bytes)
      → is_some (files (enc m)) ≡ true
      → KeptIn C laws key orig m files
      → KeptIn C laws key orig m (without_wal_shm io m files)
  recovered_own io files there kept =
      let (file, copy) = own_without io m files single in
      elim kept [
        | inr (gone, opens) ↦ inr (elim file [ inl e ↦ e | inr e ↦ e ∙ gone ], rw copy opens)
        | inl (whole, inl none_left) ↦ absurd (ground arith)
        | inl (whole, inr opens) ↦ elim file [
          | inl e ↦ inr (e, rw copy opens)
          | inr e ↦ inl (e ∙ whole, inr (rw copy opens))
        ]
      ]

  pub recover_names-Kept :
      (io : Text → Io) (names : List Text) (files : Files Bytes)
      → All (λ n. (n ≡ m) ⊎ Away n m) names
      → KeptIn C laws key orig m files
      → KeptIn C laws key orig m (recover_names true io names files)
  unfolding recover_names
  recover_names-Kept io [] files cover kept = kept
  recover_names-Kept io (n ∷ names) files (here, cover) kept =
      elim (Bool-cases (is_some (files n) && is_some (files (enc n)))) [
        | inr e ↦ rw e (recover_names-Kept io names files cover kept)
        | inl e ↦ rw e (
            recover_names-Kept io names (without_wal_shm (io n) n files) cover
              (step here (ground arith)))
      ]
    where
      step :
          (n ≡ m) ⊎ Away n m
          → is_some (files (enc n)) ≡ true
          → KeptIn C laws key orig m (without_wal_shm (io n) n files)
      step (inl same) there = rw same (recovered_own (io m) files (rw same at there) kept)
      step (inr away) there =
          kept_same C laws key orig m files (without_wal_shm (io n) n files)
            (without-Away (io n) n m files away) kept
