-- ===== src/Auth/Lock.antt =====
-- crates/gn-drive-core/src/auth.rs: locking, changing and removing the password, the settings, and
-- a start of the service.
pub mod Return
pub mod Setup
use gn_drive.Common.{
  ℕ, Bool, true, false, not, Option, none, some, ◌==◌, nat_eq, ltb, length, if◌then◌else◌, ◌||◌,
}
use gn_drive.Common.Text.{Text}
use gn_drive.Update.{Files}
use gn_drive.Auth.Password.{Bytes, Argon2, key_length, create_hash, extract_salt, key_of, verify}
use gn_drive.Auth.Files.{
  Cipher, has_encrypted_config, encrypt_config_files, decrypt_config_files, recover_from_crash,
  cleanup_encrypted_files,
}
use gn_drive.Auth.Service.{
  AuthError, not_setup, not_unlocked, invalid_password, password_too_short, crypto, argon2,
  key_store, io, Answer, done, fails, AppSettings, AuthData, default_data, State, with_files,
  AuthService, Outcomes, with_data, save_auth_data, forget_remembered_key, opened_with,
}

abbrev pub with_state : State → AuthService → AuthService
with_state st svc = record svc { state = st }

abbrev pub forgotten : Bool × AuthService → Answer × AuthService
forgotten (true, svc) = (done, svc)
forgotten (false, svc) = (fails key_store, svc)

module _ (C : Cipher) where
  abbrev pub locked_with : Outcomes → Option Bytes → AuthService → AuthService
  locked_with o none svc = svc
  locked_with o (some key) svc =
      with_state (record (svc.state) { unlocked = false; enc_key = none; locked_at = some (o.now) })
        (with_files (encrypt_config_files C (o.encrypting) key (svc.files)).1 svc)

  unfoldable pub lock_internal : Outcomes → AuthService → AuthService
  lock_internal o svc = locked_with o (svc.state.enc_key) svc

  unfoldable pub suspend : Outcomes → AuthService → AuthService
  unfolding lock_internal
  suspend o svc = if svc.state.unlocked then lock_internal o svc else svc

  unfoldable pub lock : Outcomes → AuthService → Answer × AuthService
  unfolding suspend forget_remembered_key
  lock o svc = forgotten (forget_remembered_key (o.deletes) (suspend o svc))

  -- The end of `change_password`, when the new hash is saved.
  abbrev finish_change : Bytes → Bool × Files Bytes → AuthService → Answer × AuthService
  finish_change key (false, files) svc = (fails crypto, with_files files svc)
  finish_change key (true, files) svc =
      (done, with_state (record (svc.state) { enc_key = some key }) (with_files files svc))

  -- When the files could not be encrypted under the new key.
  abbrev undo_change : Bool × Files Bytes → AuthService → AuthService
  undo_change (true, files) svc = with_files files svc
  undo_change (false, files) svc =
      with_state (record (svc.state) { unlocked = false; enc_key = none }) (with_files files svc)

  abbrev change_to :
      Outcomes → Text → Bytes → Bool × Files Bytes → AuthService → Answer × AuthService
  unfolding decrypt_config_files save_auth_data
  change_to o hash key (false, files) svc = (
    fails crypto,
    undo_change (decrypt_config_files C (o.decrypting) key files) (with_files files svc),
  )
  change_to o hash key (true, files) svc =
      let plain = decrypt_config_files C (o.decrypting) key files in
      if not (o.saves)
      then (fails io, with_files (plain.1) svc)
      else finish_change key plain (
          save_auth_data true (
            with_data (record (svc.state.auth_data) { password_hash = hash })
              (with_files files svc)))

  module _ (A : Argon2) where
    abbrev change_with : Outcomes → Text → Option Bytes → AuthService → Answer × AuthService
    unfolding encrypt_config_files change_to
    change_with o hash none svc = (fails argon2, svc)
    change_with o hash (some key) svc =
        change_to o hash key (encrypt_config_files C (o.encrypting) key (svc.files)) svc

    abbrev change_hash : Outcomes → Text → Option Text → AuthService → Answer × AuthService
    unfolding change_with extract_salt key_of
    change_hash o new none svc = (fails argon2, svc)
    change_hash o new (some hash) svc = change_with o hash (key_of A new (extract_salt A hash)) svc

    abbrev change_forgotten : Outcomes → Bytes → Text → Bool × AuthService → Answer × AuthService
    unfolding create_hash change_hash
    change_forgotten o salt new (false, svc) = (fails key_store, svc)
    change_forgotten o salt new (true, svc) = change_hash o new (create_hash A salt new) svc

    unfoldable pub change_password :
        Outcomes → Bytes → Text → Text → AuthService → Answer × AuthService
    unfolding verify forget_remembered_key change_forgotten
    change_password o salt old new svc =
        if not (svc.state.auth_data.enabled)
        then (fails not_setup, svc)
        else if not (svc.state.unlocked)
        then (fails not_unlocked, svc)
        else if not (verify A old (svc.state.auth_data.password_hash))
        then (fails invalid_password, svc)
        else if ltb (length new) 4
        then (fails password_too_short, svc)
        else change_forgotten o salt new (forget_remembered_key (o.deletes) svc)

    unfoldable pub remove_password : Outcomes → Text → AuthService → Answer × AuthService
    unfolding verify cleanup_encrypted_files
    remove_password o password svc =
        if not (svc.state.auth_data.enabled)
        then (fails not_setup, svc)
        else if not (svc.state.unlocked)
        then (fails not_unlocked, svc)
        else if not (verify A password (svc.state.auth_data.password_hash))
        then (fails invalid_password, svc)
        else (
          done,
          record svc {
            state = record (svc.state) {
              unlocked = true;
              enc_key = none;
              auth_data = default_data;
            };
            files = cleanup_encrypted_files (o.decrypting) (svc.files);
            auth_file = if o.removes_auth_file then none else svc.auth_file;
          },
        )

  -- The remembered key, when it was read from the key store.
  abbrev resumed_with : Outcomes → Bytes → Bool × Files Bytes → AuthService → AuthService
  unfolding forget_remembered_key
  resumed_with o key (false, files) svc =
      (forget_remembered_key (o.deletes) (with_files files svc)).1
  resumed_with o key (true, files) svc =
      with_state (record (opened_with key (svc.state)) { locked_at = none }) (with_files files svc)

  abbrev resumed : Outcomes → Option Bytes → AuthService → AuthService
  unfolding decrypt_config_files resumed_with forget_remembered_key
  resumed o none svc = svc
  resumed o (some key) svc =
      if not (length key == key_length)
      then (forget_remembered_key (o.deletes) svc).1
      else resumed_with o key (decrypt_config_files C (o.decrypting) key (svc.files)) svc

  unfoldable pub resume_remembered_key : Outcomes → AuthService → AuthService
  unfolding resumed
  resume_remembered_key o svc =
      if not (svc.has_key_store) || not (has_encrypted_config (svc.files)) || not (o.gets)
      then svc
      else resumed o (svc.remembered) svc

  abbrev loaded : Bool → Option AuthData → AuthData
  loaded reads none = default_data
  loaded reads (some d) = if reads then d else default_data

  -- `new`: a start of the service on what an earlier one has left.
  unfoldable pub new : Outcomes → AuthService → AuthService
  unfolding resume_remembered_key recover_from_crash
  new o old =
      let d = loaded (o.reads_auth_file) (old.auth_file) in
      let svc = record old {
        state = record {
          unlocked = not (d.enabled);
          enc_key = none;
          auth_data = d;
          locked_at = none;
        };
        files = recover_from_crash (d.enabled) (o.encrypting) (old.files);
      } in
      if d.enabled then resume_remembered_key o svc else svc

unfoldable pub set_app_settings : Outcomes → AppSettings → AuthService → Answer × AuthService
unfolding save_auth_data
set_app_settings o s svc =
    let after =
      save_auth_data (o.saves)
        (with_data (record (svc.state.auth_data) { app_settings = s }) svc) in
    (if o.saves then done else fails io, after)
