-- ===== src/Auth/Unlock/Tested.antt =====
-- What the test of a password in unlock does.
use gn_drive.Common.{
  ℕ, ◌+◌, ◌/◌, ◌≤◌, ◌<◌, ◌≡◌, inl, inr, refl, Bool, true, false, none, some, leb, arith, Bool-cases,
  Option-cases,
}
use gn_drive.Common.Text.{Text}
use gn_drive.Update.{Files}
use gn_drive.Auth.Password.{Bytes, Argon2, verify, key_of, extract_salt}
use gn_drive.Auth.Files.{Cipher, decrypt_config_files}
use gn_drive.Auth.Service.{
  max_attempts_before_lock, invalid_password, Answer, done, fails, State, AuthService, Outcomes,
}
use gn_drive.Auth.Unlock.Paths.{save_auth_data-state, remember_key-state}
use gn_drive.Auth.Unlock.{check_password, count_failure, opened_by, unlock_with}

-- 1 for the answer to a wrong password.
abbrev pub refused : Answer → ℕ
refused done = 0
refused (fails e) = elim e [ invalid_password ↦ 1 | _ ↦ 0 ]

-- What the test of a password does to the lock, the failures and the lockout.
pub data Tested (now : ℕ) (b a : State) : ℕ → Type 0 where
  wrong :
      a.unlocked ≡ b.unlocked
      → b.auth_data.failed_attempts + 1 < max_attempts_before_lock
      → a.auth_data.failed_attempts ≡ b.auth_data.failed_attempts + 1
      → a.auth_data.lockout_until ≡ b.auth_data.lockout_until
      → Tested now b a 1
  locks :
      a.unlocked ≡ b.unlocked
      → max_attempts_before_lock ≤ b.auth_data.failed_attempts + 1
      → a.auth_data.failed_attempts ≡ 0
      → a.auth_data.lockout_until ≡ some ((now + 300000) / 1000)
      → Tested now b a 1
  same : a ≡ b → Tested now b a 0
  opens :
      a.unlocked ≡ true
      → a.auth_data.failed_attempts ≡ 0
      → a.auth_data.lockout_until ≡ none
      → Tested now b a 0

counted : (o : Outcomes) (svc : AuthService) → Tested o.now svc.state (count_failure o svc).state 1
unfolding count_failure
counted o svc =
    elim (Bool-cases (leb max_attempts_before_lock (svc.state.auth_data.failed_attempts + 1))) [
      | inl e ↦ rw (save_auth_data-state, e) (locks refl (ground arith) refl refl)
      | inr e ↦ rw (save_auth_data-state, e) (wrong refl (ground arith) refl refl)
    ]

opened_lem :
    (o : Outcomes) (key : Bytes) (d : Bool × Files Bytes) (svc : AuthService)
    → Tested o.now svc.state (opened_by o key d svc).1.state (refused (opened_by o key d svc).0)
unfolding opened_by
opened_lem o key (false, files) svc = same refl
opened_lem o key (true, files) svc =
    opens refl (rw (remember_key-state, save_auth_data-state) refl)
      (rw (remember_key-state, save_auth_data-state) refl)

module _ (A : Argon2) (C : Cipher) where
  pub checked :
      (o : Outcomes) (password : Text) (svc : AuthService)
      → Tested o.now svc.state
          (check_password A C o password svc).1.state
          (refused (check_password A C o password svc).0)
  unfolding check_password unlock_with
  checked o password svc = elim (Bool-cases (verify A password svc.state.auth_data.password_hash)) [
    | inr e ↦ rw e (counted o svc)
    | inl e ↦
        elim (Option-cases (key_of A password (extract_salt A svc.state.auth_data.password_hash))) [
          | inl f ↦ rw (e, f) (same refl)
          | inr (key, f) ↦
              rw (e, f) (opened_lem o key (decrypt_config_files C o.decrypting key svc.files) svc)
        ]
  ]
