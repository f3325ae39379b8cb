-- ===== src/Auth/Unlock.antt =====
-- crates/gn-drive-core/src/auth.rs: setting a password up, and unlocking with it.
pub mod Paths
pub mod Tested
pub mod Calls
pub mod Attempts
pub mod Ending
use gn_drive.Common.{
  ◌+◌, ◌-◌, ◌*◌, ◌/◌, ◌^◌, ℕ, Bool, true, false, ◌&&◌, not, Option, none, some, ltb, leb, length,
  if◌then◌else◌,
}
use gn_drive.Common.Text.{Text}
use gn_drive.Update.{Files}
use gn_drive.Auth.Password.{Bytes, Argon2, create_hash, extract_salt, key_of, verify}
use gn_drive.Auth.Files.{Cipher, decrypt_config_files}
use gn_drive.Auth.Service.{
  max_attempts_before_delay, max_attempts_before_lock, lockout_duration_secs, AuthError, not_setup,
  invalid_password, locked, already_setup, password_too_short, crypto, argon2, io, Answer, done,
  fails, AuthData, State, with_files, AuthService, Outcomes, active_lockout_remaining, with_data,
  save_auth_data, remember_key, opened_with,
}

pub data Asked : Type 0 where
  answers : Answer → Asked
  sleeps : ℕ → Asked

abbrev pub answered : Answer × AuthService → Asked × AuthService
answered (a, svc) = (answers a, svc)

unfoldable pub with_key : Outcomes → AuthData → Option Bytes → AuthService → Answer × AuthService
unfolding save_auth_data remember_key
with_key o d none svc = (fails argon2, svc)
with_key o d (some key) svc =
    if not (o.saves)
    then (fails io, with_data d svc)
    else let kept = remember_key (o.sets) key (save_auth_data true (with_data d svc)) in
      (done, record kept { state = opened_with key (kept.state) })

-- `unlock` when the password was wrong.
unfoldable pub count_failure : Outcomes → AuthService → AuthService
unfolding save_auth_data
count_failure o svc =
    let d = svc.state.auth_data in
    let failed = d.failed_attempts + 1 in
    let counted =
      if leb max_attempts_before_lock failed
      then record d {
        failed_attempts = 0;
        lockout_until = some ((o.now + lockout_duration_secs * 1000) / 1000);
      }
      else record d { failed_attempts = failed } in
    save_auth_data (o.saves) (with_data counted svc)

unfoldable pub opened_by :
    Outcomes → Bytes → Bool × Files Bytes → AuthService → Answer × AuthService
unfolding save_auth_data remember_key
opened_by o key (false, files) svc = (fails crypto, with_files files svc)
opened_by o key (true, files) svc =
    let d = record (svc.state.auth_data) { failed_attempts = 0; lockout_until = none } in
    let kept =
      remember_key (o.sets) key (save_auth_data (o.saves) (with_data d (with_files files svc))) in
    (done, record kept { state = record (opened_with key (kept.state)) { locked_at = none } })

module _ (A : Argon2) where
  unfoldable pub with_hash : Outcomes → Text → Option Text → AuthService → Answer × AuthService
  unfolding extract_salt key_of with_key
  with_hash o password none svc = (fails argon2, svc)
  with_hash o password (some hash) svc =
      with_key o
        (record (svc.state.auth_data) {
          enabled = true;
          password_hash = hash;
          failed_attempts = 0;
          lockout_until = none;
        })
        (key_of A password (extract_salt A hash)) svc

  unfoldable pub setup_password : Outcomes → Bytes → Text → AuthService → Answer × AuthService
  unfolding create_hash with_hash
  setup_password o salt password svc =
      if svc.state.auth_data.enabled
      then (fails already_setup, svc)
      else if ltb (length password) 4
      then (fails password_too_short, svc)
      else with_hash o password (create_hash A salt password) svc

abbrev pub freed : AuthService → AuthService
freed svc = with_data (record (svc.state.auth_data) { lockout_until = none }) svc

module _ (A : Argon2) (C : Cipher) where
  unfoldable pub unlock_with : Outcomes → Option Bytes → AuthService → Answer × AuthService
  unfolding opened_by
  unlock_with o none svc = (fails argon2, svc)
  unlock_with o (some key) svc =
      opened_by o key (decrypt_config_files C (o.decrypting) key (svc.files)) svc

  -- `unlock` from the test of the password on.
  unfoldable pub check_password : Outcomes → Text → AuthService → Answer × AuthService
  unfolding verify count_failure unlock_with extract_salt key_of
  check_password o password svc =
      if not (verify A password (svc.state.auth_data.password_hash))
      then (fails invalid_password, count_failure o svc)
      else unlock_with o (key_of A password (extract_salt A (svc.state.auth_data.password_hash)))
          svc

  -- `unlock` past the lockout: after three failures it sleeps, longer each time.
  unfoldable pub delayed : Outcomes → Text → AuthService → Asked × AuthService
  delayed o password svc =
      let failed = svc.state.auth_data.failed_attempts in
      if leb max_attempts_before_delay failed && ltb failed max_attempts_before_lock
      then (sleeps (2 ^ (failed - max_attempts_before_delay)), svc)
      else answered (check_password o password svc)

  -- `unlock` up to its sleep: it answers, or it sleeps for some seconds without holding the state.
  unfoldable pub ask : Outcomes → Text → AuthService → Asked × AuthService
  unfolding active_lockout_remaining
  ask o password svc =
      if not (svc.state.auth_data.enabled)
      then (answers (fails not_setup), svc)
      else if svc.state.unlocked
      then (answers done, svc)
      else elim (active_lockout_remaining (o.now) (svc.state.auth_data)) [
        | some secs ↦ (answers (fails (locked secs)), svc)
        | none ↦ delayed o password (freed svc)
      ]

  -- `unlock` after its sleep.
  unfoldable pub wake : Outcomes → Text → AuthService → Answer × AuthService
  wake o password svc = if svc.state.unlocked then (done, svc) else check_password o password svc

  abbrev pub after_sleep : Outcomes → Text → Asked × AuthService → Answer × AuthService
  unfolding wake
  after_sleep o password (answers a, svc) = (a, svc)
  after_sleep o password (sleeps secs, svc) = wake o password svc

  -- `unlock` when nothing else happens during its sleep.
  unfoldable pub unlock : Outcomes → Outcomes → Text → AuthService → Answer × AuthService
  unfolding ask after_sleep
  unlock o later password svc = after_sleep later password (ask o password svc)
