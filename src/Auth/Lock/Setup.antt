-- ===== src/Auth/Lock/Setup.antt =====
-- A new password, and a changed one: the service is unlocked with its key.
use gn_drive.Common.{
  ◌≤◌, ◌≡◌, ◌∙◌, refl, ap, some, true, false, length, if◌then◌else◌, ltb, arith, Bool, Option,
}
use gn_drive.Common.Text.{Text}
use gn_drive.Auth.Password.{Bytes, Argon2, create_hash, key_of}
use gn_drive.Auth.Password.Reading.{Argon2Laws, created, verify-create_hash}
use gn_drive.Auth.Service.{done, AuthService, Outcomes, fails, already_setup, password_too_short}
use gn_drive.Auth.Unlock.{setup_password, with_hash, with_key}
use gn_drive.Auth.Unlock.Paths.{remember_key-state}
use gn_drive.Auth.Lock.Return.{IsOpenWith, remember_key-files}

module _ (A : Argon2) (laws : Argon2Laws A) where
  setup_with :
      (o : Outcomes) (salt : Bytes) (password hash : Text) (svc : AuthService)
      → svc.state.auth_data.enabled ≡ false
      → 4 ≤ length password
      → create_hash A salt password ≡ some hash
      → setup_password A o salt password svc ≡ with_hash A o password (some hash) svc
  unfolding setup_password
  setup_with o salt password hash svc fresh long made =
      let enough : ltb (length password) 4 ≡ false = ground arith in
      ap
        (λ (b : Bool).
          if b
          then (fails already_setup, svc)
          else if ltb (length password) 4
          then (fails password_too_short, svc)
          else with_hash A o password (create_hash A salt password) svc)
        fresh
      ∙ ap
          (λ (b : Bool).
            if b
            then (fails password_too_short, svc)
            else with_hash A o password (create_hash A salt password) svc)
          enough
      ∙ ap (λ (h : Option Text). with_hash A o password h svc) made

  -- On a service without a password, with a password of at least 4 characters whose hash can be
  -- made, and when auth.json can be written, setup_password answers done, leaves the files alone,
  -- and the service is unlocked with the key of this password and not locked out; assumed are the
  -- laws of base64 and of the length of what Argon2 gives.
  pub setup_password-IsOpenWith :
      (o : Outcomes) (salt : Bytes) (password hash : Text) (svc : AuthService)
      → svc.state.auth_data.enabled ≡ false
      → 4 ≤ length password
      → create_hash A salt password ≡ some hash
      → o.saves ≡ true
      → ((setup_password A o salt password svc).0 ≡ done)
        × ((key : Bytes) × IsOpenWith A salt password key (setup_password A o salt password svc).1)
        × ((setup_password A o salt password svc).1.files ≡ svc.files)
  unfolding with_hash with_key key_of
  setup_password-IsOpenWith o salt password hash svc fresh long made saves =
      let (key, derived, text) = created A laws salt password hash made in
      let salt_back = (verify-create_hash A laws salt password hash made).0 in
      rw (setup_with o salt password hash svc fresh long made, salt_back, derived, saves)
        (
          refl,
          (
            key,
            record {
              enabled = rw remember_key-state refl;
              unlocked = refl;
              has_key = refl;
              not_locked_out = rw remember_key-state refl;
              made = rw remember_key-state made;
              derived = derived;
            },
          ),
          rw remember_key-files refl,
        )
