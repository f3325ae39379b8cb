-- ===== src/Auth/Tests.antt =====
-- The theorems on the master password at concrete inputs, and runs of the code.
mod Calls
use gn_drive.Common.{
  All, ℕ, ◌+◌, ◌-◌, ◌≤◌, ◌≡◌, ◌↔◌, ◌⊎◌, refl, true, false, Option, none, some, List, [], ◌∷◌, ◌++◌,
  ◌==◌, nat_eq, length, remove_at, arith, ◌<◌,
}
use gn_drive.Common.Text.{
  Text, codes, text_eq, split, text_beq, parse_u32, digits, digits_from, below_u32,
}
use gn_drive.Sync.Errors.{starts_with}
use gn_drive.Update.{Files, put}
use gn_drive.Auth.Password.{
  Bytes, create_hash, derive_key, hash_raw, extract_salt, verify, b64_raw, text_at, encoded,
  trim_end, constant_time_eq, parse_params, params_from, split_once, matches, difference,
}
use gn_drive.Auth.Password.Reading.{verify-create_hash, b64_raw-create_hash}
use gn_drive.Auth.Files.{
  Io, rclone_conf, gn_drive_db, enc, encrypt_file, decrypt_file, encrypt_config_files,
  decrypt_config_files, recover_from_crash,
}
use gn_drive.Auth.Files.Restores.{
  none_yet, encrypts, recovers, IsPlain, RestoresBoth, decrypt_config_files_restores,
}
use gn_drive.Auth.Files.RoundTrip.{decrypt_file-encrypt_file}
use gn_drive.Auth.Service.{AuthService, Outcomes, default_data, done, save_auth_data}
use gn_drive.Auth.Unlock.{
  setup_password, unlock, check_password, freed, delayed, wake, ask, count_failure,
}
use gn_drive.Auth.Unlock.Attempts.{IsWithin, wrong_tests-le}
use gn_drive.Auth.Unlock.Calls.{time, Session, Event, asks, wakes, wrong_tests, SleepAtMost, run}
use gn_drive.Auth.Unlock.Ending.{unlock_ends}
use gn_drive.Auth.Lock.{lock}
use gn_drive.Auth.Lock.Return.{IsOpenWith, IsBack, lock-unlock, IsRefused}
use gn_drive.Auth.Lock.Setup.{setup_password-IsOpenWith}
use gn_drive.Auth.Toys.{
  fill, shift, unshift, plain_argon2, plain_argon2-Argon2Laws, plain_cipher,
  plain_cipher-CipherLaws,
}

abbrev pub password : Text
password = codes "secret"

abbrev pub salt : Bytes
salt = 1 ∷ 2 ∷ []

abbrev pub hash : Text
hash = encoded plain_argon2 salt (fill 32 (password ++ salt))

pub is_made : create_hash plain_argon2 salt password ≡ some hash
unfolding create_hash hash_raw
is_made = refl

verify-create_hash_example :
    (extract_salt plain_argon2 hash ≡ some salt)
    × ((attempt : Text)
        → (verify plain_argon2 attempt hash ≡ true)
          ↔ (derive_key plain_argon2 attempt salt ≡ derive_key plain_argon2 password salt))
verify-create_hash_example =
    verify-create_hash plain_argon2 plain_argon2-Argon2Laws salt password hash is_made

b64_raw-create_hash_example :
    b64_raw plain_argon2 (text_at (split b'$' hash) 5) ≡ derive_key plain_argon2 password salt
b64_raw-create_hash_example =
    b64_raw-create_hash plain_argon2 plain_argon2-Argon2Laws salt password hash is_made

abbrev pub good_io : Text → Io
good_io name = record {
  nonce = fill 12 (7 ∷ []);
  reads = true;
  writes = true;
  removes = true;
  removes_wal = true;
  removes_shm = true;
}

-- The second file cannot be read, and the first one's plain text cannot be removed.
abbrev pub failing_io : Text → Io
failing_io name = record {
  nonce = fill 12 (7 ∷ []);
  reads = name == rclone_conf;
  writes = true;
  removes = false;
  removes_wal = true;
  removes_shm = true;
}

pub short_nonces : (name : Text) → length (fill 12 (7 ∷ [])) ≡ 12
unfolding fill
short_nonces name = refl

abbrev pub start : Files Bytes
start = put rclone_conf (some (5 ∷ 6 ∷ [])) (put gn_drive_db (some (9 ∷ [])) (λ name. none))

pub conf-IsPlain : IsPlain start rclone_conf
unfolding text_beq
conf-IsPlain = (refl, λ plain h. long_enough plain h)
  where
    long_enough :
        (plain : Bytes) → ◌≡◌ {A = Option Bytes} (some (5 ∷ 6 ∷ [])) (some plain) → 0 < length plain
    long_enough [] h = absurd (ground arith)
    long_enough (x ∷ plain) h = omega arith

pub db-IsPlain : IsPlain start gn_drive_db
unfolding text_beq
db-IsPlain = (refl, λ plain h. long_enough plain h)
  where
    long_enough :
        (plain : Bytes) → ◌≡◌ {A = Option Bytes} (some (9 ∷ [])) (some plain) → 0 < length plain
    long_enough [] h = absurd (ground arith)
    long_enough (x ∷ plain) h = omega arith

abbrev half_done : Files Bytes
half_done = (encrypt_config_files plain_cipher failing_io (3 ∷ []) start).1

decrypt_config_files_restores_example :
    RestoresBoth start (
      decrypt_config_files plain_cipher good_io
        (3 ∷ [])
        (recover_from_crash true good_io half_done))
decrypt_config_files_restores_example =
    decrypt_config_files_restores plain_cipher plain_cipher-CipherLaws (3 ∷ []) start
      (recover_from_crash true good_io half_done) good_io conf-IsPlain db-IsPlain
      (recovers good_io half_done (encrypts failing_io short_nonces start none_yet))
      (λ name. (refl, refl))

decrypt_file-encrypt_file_example :
    ◌≡◌ {A = Option (Files Bytes)}
      (decrypt_file plain_cipher
        (good_io gn_drive_db)
        (3 ∷ [])
        (enc rclone_conf)
        gn_drive_db
        (put (enc rclone_conf) (some (fill 12 (7 ∷ []) ++ fill 16 (3 ∷ []) ++ 5 ∷ 6 ∷ [])) start))
      (some (
        put gn_drive_db (some (5 ∷ 6 ∷ [])) (
          put (enc rclone_conf) (some (fill 12 (7 ∷ []) ++ fill 16 (3 ∷ []) ++ 5 ∷ 6 ∷ [])) start)))
unfolding encrypt_file text_beq fill
decrypt_file-encrypt_file_example =
    decrypt_file-encrypt_file plain_cipher plain_cipher-CipherLaws (good_io rclone_conf)
      (good_io gn_drive_db) (3 ∷ []) (5 ∷ 6 ∷ []) rclone_conf (enc rclone_conf) gn_drive_db start
      (put (enc rclone_conf) (some (fill 12 (7 ∷ []) ++ fill 16 (3 ∷ []) ++ 5 ∷ 6 ∷ [])) start)
      (short_nonces rclone_conf) refl refl refl (refl, refl)
