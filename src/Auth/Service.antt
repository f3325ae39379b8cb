-- ===== src/Auth/Service.antt =====
-- crates/gn-drive-core/src/auth.rs: the state of the password service. Times are milliseconds
-- since 1970.
use gn_drive.Common.{
  ℕ, ◌+◌, ◌-◌, ◌*◌, ◌/◌, Bool, true, false, ◌&&◌, ◌||◌, not, Option, none, some, nat_eq, leb,
  if◌then◌else◌,
}
use gn_drive.Common.Text.{Text, codes}
use gn_drive.Update.{Files}
use gn_drive.Auth.Password.{Bytes}
use gn_drive.Auth.Files.{Io, has_encrypted_config}

abbrev pub max_attempts_before_delay : ℕ
max_attempts_before_delay = 3

abbrev pub max_attempts_before_lock : ℕ
max_attempts_before_lock = 10

abbrev pub lockout_duration_secs : ℕ
lockout_duration_secs = 300

pub data AuthError : Type 0 where
  not_setup : AuthError
  already_unlocked : AuthError
  not_unlocked : AuthError
  invalid_password : AuthError
  locked : ℕ → AuthError
  already_setup : AuthError
  password_too_short : AuthError
  crypto : AuthError
  argon2 : AuthError
  key_store : AuthError
  io : AuthError
  json : AuthError

pub data Answer : Type 0 where
  done : Answer
  fails : AuthError → Answer

pub record AppSettings : Type 0 where
  pub debug_mode : Bool
  pub minimize_to_tray : Bool
  pub notifications_enabled : Bool
  pub start_at_login : Bool

-- The end of a lockout is in whole seconds, none where the text is empty or no time.
pub record AuthData : Type 0 where
  pub app_settings : AppSettings
  pub enabled : Bool
  pub failed_attempts : ℕ
  pub lockout_until : Option ℕ
  pub password_hash : Text

abbrev pub default_data : AuthData
default_data = record {
  app_settings = record {
    debug_mode = false;
    minimize_to_tray = false;
    notifications_enabled = false;
    start_at_login = false;
  };
  enabled = false;
  failed_attempts = 0;
  lockout_until = none;
  password_hash = codes "";
}

pub record State : Type 0 where
  pub unlocked : Bool
  pub enc_key : Option Bytes
  pub auth_data : AuthData
  pub locked_at : Option ℕ

-- The state with what the service reaches: the config directory, auth.json, and the key store if
-- there is one, with the key that it remembers.
pub record AuthService : Type 0 where
  pub state : State
  pub files : Files Bytes
  pub auth_file : Option AuthData
  pub has_key_store : Bool
  pub remembered : Option Bytes

-- How the calls of the system end during one operation.
pub record Outcomes : Type 0 where
  pub now : ℕ
  pub reads_auth_file : Bool
  pub saves : Bool
  pub gets : Bool
  pub sets : Bool
  pub deletes : Bool
  pub removes_auth_file : Bool
  pub encrypting : Text → Io
  pub decrypting : Text → Io

-- Seconds until the end of the lockout, rounded up.
abbrev pub remaining : ℕ → Option ℕ → Option ℕ
remaining now none = none
remaining now (some until) =
    if leb (until * 1000) now then none else some ((until * 1000 - now + 999) / 1000)

unfoldable pub active_lockout_remaining : ℕ → AuthData → Option ℕ
active_lockout_remaining now d = remaining now d.lockout_until

abbrev pub with_data : AuthData → AuthService → AuthService
with_data d svc = record svc { state = record (svc.state) { auth_data = d } }

abbrev pub with_files : Files Bytes → AuthService → AuthService
with_files files svc = record svc { files = files }

-- `save_auth_data` of the data in the state: whether it was written, and the service then.
unfoldable pub save_auth_data : Bool → AuthService → AuthService
save_auth_data false svc = svc
save_auth_data true svc = record svc { auth_file = some (svc.state.auth_data) }

unfoldable pub remember_key : Bool → Bytes → AuthService → AuthService
remember_key sets key svc =
    if svc.has_key_store && sets then record svc { remembered = some key } else svc

-- Whether the key store took the removal.
unfoldable pub forget_remembered_key : Bool → AuthService → Bool × AuthService
forget_remembered_key deletes svc =
    if not (svc.has_key_store)
    then (true, svc)
    else if deletes
    then (true, record svc { remembered = none })
    else (false, svc)

-- The state with the app unlocked under a key.
abbrev pub opened_with : Bytes → State → State
opened_with key st = record st { unlocked = true; enc_key = some key }

unfoldable pub open_plaintext_session : AuthService → Answer × AuthService
open_plaintext_session svc =
    let session = record svc { state = record (svc.state) { unlocked = true } } in
    if not (svc.state.auth_data.enabled) || svc.state.unlocked
    then (done, session)
    else if has_encrypted_config (svc.files)
    then (fails not_unlocked, svc)
    else (done, session)
