-- ===== src/Auth/Lock/Return.antt =====
-- What unlock gives back after lock.
use gn_drive.Common.{
  ◌≡◌, inl, inr, refl, ap, ◌∙◌, Bool, true, false, Option, none, some, length, Bool-cases,
  if◌then◌else◌, arith, ◌&&◌,
}
use gn_drive.Common.Text.{Text}
use gn_drive.Update.{Files}
use gn_drive.Auth.Password.{Bytes, Argon2, create_hash, derive_key, verify, key_of}
use gn_drive.Auth.Password.Reading.{Argon2Laws, verify-create_hash}
use gn_drive.Auth.Files.{
  Cipher, nonce_len, rclone_conf, gn_drive_db, encrypt_config_files, decrypt_config_files,
}
use gn_drive.Auth.Files.Sealing.{CipherLaws}
use gn_drive.Auth.Files.Restores.{
  none_yet, encrypts, IsPlain, Succeeds, RestoresBoth, decrypt_config_files_restores,
}
use gn_drive.Auth.Service.{
  invalid_password, Answer, done, fails, AuthService, Outcomes, forget_remembered_key,
  save_auth_data, remember_key,
}
use gn_drive.Auth.Unlock.{unlock, check_password, count_failure, unlock_with, opened_by, freed}
use gn_drive.Auth.Unlock.Paths.{unlock_free, save_auth_data-state}
use gn_drive.Auth.Lock.{lock, suspend, lock_internal, forgotten, locked_with}

-- The service is unlocked with the key of its password, and not locked out.
pub record IsOpenWith (A : Argon2) (salt : Bytes) (password : Text) (key : Bytes)
    (svc : AuthService) : Type 0 where
  pub enabled : svc.state.auth_data.enabled ≡ true
  pub unlocked : svc.state.unlocked ≡ true
  pub has_key : svc.state.enc_key ≡ some key
  pub not_locked_out : svc.state.auth_data.lockout_until ≡ none
  pub made : create_hash A salt password ≡ some svc.state.auth_data.password_hash
  pub derived : derive_key A password salt ≡ some key

pub save_auth_data-files : (b : Bool) (svc : AuthService) → (save_auth_data b svc).files ≡ svc.files
unfolding save_auth_data
save_auth_data-files false svc = refl
save_auth_data-files true svc = refl

pub remember_key-files :
    (b : Bool) (key : Bytes) (svc : AuthService) → (remember_key b key svc).files ≡ svc.files
unfolding remember_key
remember_key-files b key svc = elim (Bool-cases (svc.has_key_store && b)) [
  | inl e ↦ rw e refl
  | inr e ↦ rw e refl
]

forgotten_same :
    (b : Bool) (svc : AuthService)
    → ((forgotten (forget_remembered_key b svc)).1.state ≡ svc.state)
      × ((forgotten (forget_remembered_key b svc)).1.files ≡ svc.files)
unfolding forget_remembered_key
forgotten_same b svc = elim (Bool-cases svc.has_key_store) [
  | inr e ↦ rw e (refl, refl)
  | inl e ↦ elim (Bool-cases b) [ inl f ↦ rw (e, f) (refl, refl) | inr f ↦ rw (e, f) (refl, refl) ]
]

-- Unlocked again under the key, with the files of an earlier service.
abbrev pub IsBack : Bytes → AuthService → Answer × AuthService → Type 0
IsBack key old (a, svc) =
    (a ≡ done)
    × (svc.state.unlocked ≡ true)
    × (svc.state.enc_key ≡ some key)
    × (svc.files rclone_conf ≡ old.files rclone_conf)
    × (svc.files gn_drive_db ≡ old.files gn_drive_db)

-- The password was refused, and nothing else has changed.
abbrev pub IsRefused : AuthService → Answer × AuthService → Type 0
IsRefused old (a, svc) =
    (a ≡ fails invalid_password) × (svc.state.unlocked ≡ false) × (svc.files ≡ old.files)

module _ (A : Argon2) (laws : Argon2Laws A) (C : Cipher) (closes : CipherLaws C) where
  opened-IsBack :
      (o : Outcomes) (key : Bytes) (d : Bool × Files Bytes) (old svc : AuthService)
      → RestoresBoth old.files d
      → IsBack key old (opened_by o key d svc)
  unfolding opened_by
  opened-IsBack o key (false, files) old svc back = absurd (ground (arith, back.0))
  opened-IsBack o key (true, files) old svc back = (
    refl,
    refl,
    refl,
    rw (remember_key-files, save_auth_data-files) back.1,
    rw (remember_key-files, save_auth_data-files) back.2,
  )

  checked-IsBack :
      (o : Outcomes) (salt key : Bytes) (password attempt : Text) (old svc : AuthService)
      → create_hash A salt password ≡ some svc.state.auth_data.password_hash
      → derive_key A password salt ≡ some key
      → verify A attempt svc.state.auth_data.password_hash ≡ true
      → RestoresBoth old.files (decrypt_config_files C o.decrypting key svc.files)
      → IsBack key old (check_password A C o attempt svc)
  unfolding check_password unlock_with key_of
  checked-IsBack o salt key password attempt old svc made derived right back =
      let (salt_back, accepts) =
        verify-create_hash A laws salt password svc.state.auth_data.password_hash made in
      let same_key : derive_key A attempt salt ≡ some key = (accepts attempt).0 right ∙ derived in
      rw (right, salt_back, same_key)
        (opened-IsBack o key (decrypt_config_files C o.decrypting key svc.files) old svc back)

  locked_lem :
      (o : Outcomes) (key : Bytes) (svc : AuthService)
      → svc.state.unlocked ≡ true
      → svc.state.enc_key ≡ some key
      → ((lock C o svc).1.state.auth_data ≡ svc.state.auth_data)
        × ((lock C o svc).1.state.unlocked ≡ false)
        × ((lock C o svc).1.files ≡ (encrypt_config_files C o.encrypting key svc.files).1)
  unfolding lock suspend lock_internal
  locked_lem o key svc u k =
      let same = forgotten_same o.deletes (suspend C o svc) in
      let inner : lock_internal C o svc ≡ locked_with C o (some key) svc =
        ap (λ (k : Option Bytes). locked_with C o k svc) k in
      let all : suspend C o svc ≡ locked_with C o (some key) svc =
        ap (λ (b : Bool). if b then lock_internal C o svc else svc) u ∙ inner in
      rw (same.0, same.1, all) (refl, refl, refl)

  checked_wrong :
      (o : Outcomes) (attempt : Text) (svc : AuthService)
      → verify A attempt svc.state.auth_data.password_hash ≡ false
      → ((check_password A C o attempt svc).0 ≡ fails invalid_password)
        × ((check_password A C o attempt svc).1.state.unlocked ≡ svc.state.unlocked)
        × ((check_password A C o attempt svc).1.files ≡ svc.files)
  unfolding check_password count_failure
  checked_wrong o attempt svc e =
      rw (e, save_auth_data-state, save_auth_data-files) (refl, refl, refl)

  unlocked_from :
      (after : AuthService) (o1 o2 : Outcomes) (salt key : Bytes) (password attempt : Text)
      (svc : AuthService)
      → IsOpenWith A salt password key svc
      → after.state.auth_data ≡ svc.state.auth_data
      → after.state.unlocked ≡ false
      → ((n : Text) → Succeeds (o1.decrypting n))
      → ((n : Text) → Succeeds (o2.decrypting n))
      → ((o : Outcomes)
          → ((n : Text) → Succeeds (o.decrypting n))
          → RestoresBoth svc.files (decrypt_config_files C o.decrypting key after.files))
      → (verify A attempt svc.state.auth_data.password_hash ≡ true
          → IsBack key svc (unlock A C o1 o2 attempt after))
        × (verify A attempt svc.state.auth_data.password_hash ≡ false
            → IsRefused after (unlock A C o1 o2 attempt after))
  unlocked_from after o1 o2 salt key password attempt svc ready kept shut good1 good2 back =
      let (o, which, same) =
        unlock_free A C o1 o2 attempt after (rw kept ready.enabled) shut
          (rw (kept, ready.not_locked_out) refl) in
      let good : (n : Text) → Succeeds (o.decrypting n) =
        λ n. elim which [ inl e ↦ rw e (good1 n) | inr e ↦ rw e (good2 n) ] in
      (
        λ right. rw same (
            checked-IsBack o salt key password attempt svc (freed after) (rw kept ready.made)
              ready.derived (rw kept right) (back o good)),
        λ wrong.
            let (a, u, f) = checked_wrong o attempt (freed after) (rw kept wrong) in
            rw same (a, u ∙ shut, f),
      )

  -- For a service that is unlocked with the key of its password and not locked out, whose config
  -- files are not empty and have no encrypted copies: after lock, whichever file operations fail,
  -- and with a decryption whose reads and writes succeed, unlock with a password that verify
  -- accepts answers done, with the same key and both files as before, and with any other password
  -- answers InvalidPassword and changes no file; assumed are the laws of Argon2, base64 and the
  -- cipher, and nonces of 12 bytes.
  pub lock-unlock :
      (o o1 o2 : Outcomes) (salt key : Bytes) (password attempt : Text) (svc : AuthService)
      → IsOpenWith A salt password key svc
      → IsPlain svc.files rclone_conf
      → IsPlain svc.files gn_drive_db
      → ((n : Text) → length (o.encrypting n).nonce ≡ nonce_len)
      → ((n : Text) → Succeeds (o1.decrypting n))
      → ((n : Text) → Succeeds (o2.decrypting n))
      → (verify A attempt svc.state.auth_data.password_hash ≡ true
          → IsBack key svc (unlock A C o1 o2 attempt (lock C o svc).1))
        × (verify A attempt svc.state.auth_data.password_hash ≡ false
            → IsRefused (lock C o svc).1 (unlock A C o1 o2 attempt (lock C o svc).1))
  lock-unlock o o1 o2 salt key password attempt svc ready conf db short good1 good2 =
      let (kept, shut, files) = locked_lem o key svc ready.unlocked ready.has_key in
      unlocked_from (lock C o svc).1 o1 o2 salt key password attempt svc ready kept shut good1 good2
        (λ o' good. rw files (
          decrypt_config_files_restores C closes key svc.files
            (encrypt_config_files C o.encrypting key svc.files).1 o'.decrypting conf db
            (encrypts o.encrypting short svc.files none_yet) good))
