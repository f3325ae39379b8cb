-- ===== src/Auth/Files.antt =====
-- crates/gn-drive-core/src/crypto.rs and the file part of auth.rs: the config files and their
-- encrypted copies. A file is named by its name in the config directory.
pub mod Sealing
pub mod Recoverable
pub mod Sessions
pub mod Restores
pub mod RoundTrip
use gn_drive.Common.{
  ℕ, Bool, true, false, ◌||◌, ◌&&◌, not, Option, none, some, List, [], ◌∷◌, ◌++◌, leb, length, take,
  drop, any, is_some, if◌then◌else◌, ◌+◌,
}
use gn_drive.Common.Text.{Text, codes, text_eq}
use gn_drive.Update.{Files, put, remove_file}
use gn_drive.Auth.Password.{Bytes}

-- AES-256-GCM under a key and a nonce. It refuses a key of a wrong length, and opening refuses a
-- text that it has not sealed.
pub record Cipher : Type 0 where
  pub encrypt : Bytes → Bytes → Bytes → Option Bytes
  pub decrypt : Bytes → Bytes → Bytes → Option Bytes

-- How the file operations on one config file end. A write is atomic.
pub record Io : Type 0 where
  pub nonce : Bytes
  pub reads : Bool
  pub writes : Bool
  pub removes : Bool
  pub removes_wal : Bool
  pub removes_shm : Bool

abbrev pub rclone_conf : Text
rclone_conf = codes "rclone.conf"

abbrev pub gn_drive_db : Text
gn_drive_db = codes "gn-drive.db"

abbrev pub config_files : List Text
config_files = rclone_conf ∷ gn_drive_db ∷ []

abbrev pub enc : Text → Text
enc name = name ++ codes ".enc"

abbrev pub nonce_len : ℕ
nonce_len = 12

abbrev pub tag_len : ℕ
tag_len = 16

abbrev pub written : Io → Text → Option Bytes → Files Bytes → Option (Files Bytes)
written io dst none files = none
written io dst (some out) files = if io.writes then some (put dst (some out) files) else none

abbrev pub read : Io → Option Bytes → Option Bytes
read io content = if io.reads then content else none

abbrev pub has_encrypted_config : Files Bytes → Bool
has_encrypted_config files = any (λ name. is_some (files (enc name))) config_files

abbrev pub without_wal_shm : Io → Text → Files Bytes → Files Bytes
without_wal_shm io name files =
    remove_file io.removes_shm (name ++ codes "-shm")
      (remove_file io.removes_wal (name ++ codes "-wal") (remove_file io.removes name files))

module _ (C : Cipher) where
  abbrev pub sealed : Bytes → Bytes → Option Bytes → Option Bytes
  sealed key nonce none = none
  sealed key nonce (some plain) = elim (C.encrypt key nonce plain) [
    | none ↦ none
    | some ct ↦ some (nonce ++ ct)
  ]

  -- none if the encryption or a file operation fails, which changes no file.
  unfoldable pub encrypt_file : Io → Bytes → Text → Text → Files Bytes → Option (Files Bytes)
  encrypt_file io key src dst files =
      written io dst (sealed key io.nonce (read io (files src))) files

  abbrev pub opened : Bytes → Option Bytes → Option Bytes
  opened key none = none
  opened key (some blob) =
      if leb (length blob) (nonce_len + tag_len)
      then none
      else C.decrypt key (take nonce_len blob) (drop nonce_len blob)

  unfoldable pub decrypt_file : Io → Bytes → Text → Text → Files Bytes → Option (Files Bytes)
  decrypt_file io key src dst files = written io dst (opened key (read io (files src))) files

  -- The loops over the config files: false if an error stopped them. Each file has its own outcomes.
  unfoldable pub encrypt_names : (Text → Io) → Bytes → List Text → Files Bytes → Bool × Files Bytes
  unfolding encrypt_file
  encrypt_names io key [] files = (true, files)
  encrypt_names io key (name ∷ names) files =
      if not (is_some (files name))
      then encrypt_names io key names files
      else elim (encrypt_file (io name) key name (enc name) files) [
        | none ↦ (false, files)
        | some after ↦ encrypt_names io key names (without_wal_shm (io name) name after)
      ]

  unfoldable pub encrypt_config_files : (Text → Io) → Bytes → Files Bytes → Bool × Files Bytes
  unfolding encrypt_names
  encrypt_config_files io key files = encrypt_names io key config_files files

  unfoldable pub decrypt_names : (Text → Io) → Bytes → List Text → Files Bytes → Bool × Files Bytes
  unfolding decrypt_file
  decrypt_names io key [] files = (true, files)
  decrypt_names io key (name ∷ names) files =
      if not (is_some (files (enc name)))
      then decrypt_names io key names files
      else elim (decrypt_file (io name) key (enc name) name files) [
        | none ↦ (false, files)
        | some after ↦ decrypt_names io key names (remove_file (io name).removes (enc name) after)
      ]

  unfoldable pub decrypt_config_files : (Text → Io) → Bytes → Files Bytes → Bool × Files Bytes
  unfolding decrypt_names
  decrypt_config_files io key files = decrypt_names io key config_files files

abbrev pub recovered : Bool → Io → Text → Files Bytes → Files Bytes
recovered true io name files = without_wal_shm io name files
recovered false io name files = remove_file io.removes (enc name) files

unfoldable pub recover_names : Bool → (Text → Io) → List Text → Files Bytes → Files Bytes
recover_names enabled io [] files = files
recover_names enabled io (name ∷ names) files = recover_names enabled io names (
    if is_some (files name) && is_some (files (enc name))
    then recovered enabled (io name) name files
    else files)

-- After a crash between the two writes of a file: one of the two copies goes.
unfoldable pub recover_from_crash : Bool → (Text → Io) → Files Bytes → Files Bytes
unfolding recover_names
recover_from_crash enabled io files = recover_names enabled io config_files files

unfoldable pub cleanup_encrypted_files : (Text → Io) → Files Bytes → Files Bytes
cleanup_encrypted_files io files =
    remove_file (io gn_drive_db).removes (enc gn_drive_db)
      (remove_file (io rclone_conf).removes (enc rclone_conf) files)
