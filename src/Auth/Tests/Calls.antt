-- ===== src/Auth/Tests/Calls.antt =====
-- The operations of the password service at concrete inputs.
use gn_drive.Common.{
  All, ℕ, ◌+◌, ◌-◌, ◌≤◌, ◌≡◌, ◌⊎◌, refl, true, false, none, List, [], ◌∷◌, ◌++◌, ◌==◌, nat_eq,
  remove_at, arith,
}
use gn_drive.Common.Text.{
  Text, codes, text_eq, split, text_beq, parse_u32, digits, digits_from, below_u32,
}
use gn_drive.Sync.Errors.{starts_with}
use gn_drive.Auth.Password.{
  Bytes, create_hash, derive_key, hash_raw, extract_salt, verify, b64_raw, text_at, trim_end,
  constant_time_eq, parse_params, params_from, split_once, matches, key_of,
}
use gn_drive.Auth.Files.{
  Io, rclone_conf, encrypt_file, decrypt_file, encrypt_config_files, decrypt_config_files,
  recover_from_crash,
}
use gn_drive.Auth.Service.{
  AuthService, Outcomes, default_data, done, save_auth_data, active_lockout_remaining, fails,
}
use gn_drive.Auth.Unlock.{
  setup_password, unlock, check_password, freed, delayed, wake, ask, count_failure,
}
use gn_drive.Auth.Unlock.Attempts.{IsWithin, wrong_tests-le}
use gn_drive.Auth.Unlock.Calls.{time, Session, Event, asks, wakes, wrong_tests, SleepAtMost, run}
use gn_drive.Auth.Unlock.Ending.{unlock_ends}
use gn_drive.Auth.Lock.{
  lock, suspend, lock_internal, change_password, remove_password, new, resume_remembered_key,
  set_app_settings,
}
use gn_drive.Auth.Lock.Return.{IsOpenWith, IsBack, lock-unlock, IsRefused}
use gn_drive.Auth.Lock.Setup.{setup_password-IsOpenWith}
use gn_drive.Auth.Toys.{
  fill, shift, unshift, plain_argon2, plain_argon2-Argon2Laws, plain_cipher,
  plain_cipher-CipherLaws,
}
use gn_drive.Auth.Service.{
  crypto, not_unlocked, open_plaintext_session, remember_key, forget_remembered_key, save_auth_data,
}
use gn_drive.Auth.Unlock.{
  with_key, with_hash, unlock_with, opened_by, delayed, wake, ask, count_failure,
}
use gn_drive.Auth.Files.{
  cleanup_encrypted_files, encrypt_names, decrypt_names, recover_names, recover_from_crash,
  encrypt_file, decrypt_file, encrypt_config_files, decrypt_config_files,
}
use gn_drive.Auth.Tests.{
  password, salt, hash, good_io, failing_io, start, is_made, short_nonces, conf-IsPlain, db-IsPlain,
}

abbrev fresh : AuthService
fresh = record {
  state = record { unlocked = true; enc_key = none; auth_data = default_data; locked_at = none };
  files = start;
  auth_file = none;
  has_key_store = true;
  remembered = none;
}

abbrev at : ℕ → Outcomes
at time = record {
  now = time;
  reads_auth_file = true;
  saves = true;
  gets = true;
  sets = true;
  deletes = true;
  removes_auth_file = true;
  encrypting = failing_io;
  decrypting = good_io;
}

abbrev protected : AuthService
protected = (setup_password plain_argon2 (at 1000) salt password fresh).1

setup_password-IsOpenWith_example :
    ((setup_password plain_argon2 (at 1000) salt password fresh).0 ≡ done)
    × ((key : Bytes) × IsOpenWith plain_argon2 salt password key protected)
    × (protected.files ≡ start)
setup_password-IsOpenWith_example =
    setup_password-IsOpenWith plain_argon2 plain_argon2-Argon2Laws (at 1000) salt password hash
      fresh refl (omega arith) is_made refl

protected-IsOpenWith : IsOpenWith plain_argon2 salt password (fill 32 (password ++ salt)) protected
unfolding setup_password create_hash hash_raw derive_key split shift fill unshift text_beq
protected-IsOpenWith = record {
  enabled = refl;
  unlocked = refl;
  has_key = refl;
  not_locked_out = refl;
  made = refl;
  derived = refl;
}

lock-unlock_example :
    (verify plain_argon2 password protected.state.auth_data.password_hash ≡ true
      → IsBack (fill 32 (password ++ salt)) protected (
          unlock plain_argon2 plain_cipher
            (at 2000)
            (at 3000)
            password
            (lock plain_cipher (at 1000) protected).1))
    × (verify plain_argon2 password protected.state.auth_data.password_hash ≡ false
        → IsRefused (lock plain_cipher (at 1000) protected).1 (
            unlock plain_argon2 plain_cipher
              (at 2000)
              (at 3000)
              password
              (lock plain_cipher (at 1000) protected).1))
unfolding setup_password split text_beq shift fill
lock-unlock_example =
    lock-unlock plain_argon2 plain_argon2-Argon2Laws plain_cipher plain_cipher-CipherLaws (at 1000)
      (at 2000) (at 3000) salt (fill 32 (password ++ salt)) password password protected
      protected-IsOpenWith conf-IsPlain db-IsPlain short_nonces (λ name. (refl, refl))
      (λ name. (refl, refl))

-- Three wrong passwords have been tested; two calls come, sleep, and go on one after the other.
abbrev guessed : Session
guessed = record {
  svc = record fresh {
    state = record {
      unlocked = false;
      enc_key = none;
      auth_data = record {
        app_settings = default_data.app_settings;
        enabled = true;
        failed_attempts = 9;
        lockout_until = none;
        password_hash = hash;
      };
      locked_at = none;
    };
  };
  sleepers = [];
}

abbrev guesses : List Event
guesses =
    asks (at 5000) (codes "guess")
    ∷ asks (at 6000) (codes "guest")
    ∷ wakes (at 69000) 0
    ∷ wakes (at 70000) 0
    ∷ asks (at 71000) password
    ∷ []

runs_lem :
    (wrong_tests plain_argon2 plain_cipher guesses guessed ≡ 2)
    × SleepAtMost plain_argon2 plain_cipher 2 guesses guessed
unfolding wrong_tests SleepAtMost delayed check_password wake ask remove_at split fill shift unshift
    text_beq starts_with matches verify count_failure save_auth_data parse_params params_from
    split_once parse_u32 digits digits_from below_u32 b64_raw trim_end constant_time_eq
runs_lem =
    (refl, (omega arith, (omega arith, (omega arith, (omega arith, (omega arith, omega arith))))))

in_window : All (λ e. IsWithin 5000 (time e)) guesses
in_window = (
  (omega arith, omega arith),
  (
    (omega arith, omega arith),
    ((omega arith, omega arith), ((omega arith, omega arith), ((omega arith, omega arith), tt))),
  ),
)

wrong_tests-le_example : wrong_tests plain_argon2 plain_cipher guesses guessed ≤ 10 - 9 + (2 - 1)
wrong_tests-le_example =
    wrong_tests-le plain_argon2 plain_cipher 2 5000 guesses guessed in_window (omega arith)
      runs_lem.1

ended_lem :
    ((run plain_argon2 plain_cipher guesses guessed).svc.state.auth_data.enabled ≡ true)
    × ((run plain_argon2 plain_cipher guesses guessed).svc.state.unlocked ≡ false)
unfolding run delayed check_password wake ask remove_at split fill shift unshift text_beq
    starts_with matches verify count_failure save_auth_data parse_params params_from split_once
    parse_u32 digits digits_from below_u32 b64_raw trim_end constant_time_eq
ended_lem = (refl, refl)

unlock_ends_example :
    (o : Outcomes) × ((o ≡ at 371000) ⊎ (o ≡ at 435000))
    × (unlock plain_argon2 plain_cipher
          (at 371000)
          (at 435000)
          password
          (run plain_argon2 plain_cipher guesses guessed).svc
        ≡ check_password plain_argon2 plain_cipher o password
            (freed (run plain_argon2 plain_cipher guesses guessed).svc))
unlock_ends_example =
    unlock_ends plain_argon2 plain_cipher 71000 guesses guessed (at 371000) (at 435000) password
      (omega arith, (omega arith, (omega arith, (omega arith, (omega arith, tt))))) refl ended_lem.0
      ended_lem.1 (omega arith)

-- The text in auth.json gives the key away.
reveals : b64_raw plain_argon2 (text_at (split b'$' hash) 5) ≡ protected.state.enc_key
unfolding setup_password create_hash hash_raw split b64_raw trim_end text_beq shift unshift fill
    derive_key
reveals = refl

-- The database cannot be decrypted.
abbrev stuck_io : Text → Io
stuck_io name = record (good_io name) { writes = name == rclone_conf }

abbrev stuck : Outcomes
stuck = record (at 2000) { encrypting = good_io; decrypting = stuck_io }

abbrev good : Outcomes
good = record (at 4000) { encrypting = good_io }

-- The new password is saved, and the last decryption fails: the key is still the old one, so that
-- after a lock the new password, which is accepted, does not open the files any more.
abbrev half_changed : AuthService
half_changed =
    (change_password plain_cipher plain_argon2 stuck salt password (codes "hunter2") protected).1

-- A changed password opens the files unless the change has failed at its end; a removed password
-- is gone; a start after suspend goes on with the remembered key, and lock leaves no plain session.
service_runs :
    ((change_password plain_cipher plain_argon2 stuck salt password (codes "hunter2") protected).0
      ≡ fails crypto)
    × ((unlock plain_argon2 plain_cipher good good
          (codes "hunter2")
          (lock plain_cipher good half_changed).1).0
        ≡ fails crypto)
    × ((unlock plain_argon2 plain_cipher good good
          (codes "hunter2")
          (lock plain_cipher good
            (change_password plain_cipher plain_argon2 good salt password
              (codes "hunter2")
              protected).1).1).0
        ≡ done)
    × ((remove_password plain_cipher plain_argon2 good password protected).1.state.auth_data
        ≡ default_data)
    × ((new plain_cipher good (suspend plain_cipher good protected)).state.unlocked ≡ true)
    × ((set_app_settings good (record default_data.app_settings { debug_mode = true }) protected).0
        ≡ done)
    × ((open_plaintext_session (lock plain_cipher good protected).1).0 ≡ fails not_unlocked)
unfolding setup_password create_hash hash_raw derive_key key_of extract_salt verify matches
    starts_with split shift fill unshift text_beq b64_raw trim_end constant_time_eq parse_params
    params_from split_once parse_u32 digits digits_from below_u32 save_auth_data remember_key
    forget_remembered_key lock suspend lock_internal encrypt_config_files decrypt_config_files
    encrypt_names decrypt_names encrypt_file decrypt_file unlock ask wake delayed check_password
    unlock_with opened_by active_lockout_remaining count_failure recover_from_crash recover_names
    change_password remove_password resume_remembered_key new set_app_settings
    open_plaintext_session cleanup_encrypted_files with_key with_hash
service_runs = (refl, refl, refl, refl, refl, refl, refl)
