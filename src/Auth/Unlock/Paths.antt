-- ===== src/Auth/Unlock/Paths.antt =====
-- The branches of unlock, as equations.
use gn_drive.Common.{
  ℕ, ◌≡◌, ◌⊎◌, inl, inr, refl, ap, ◌∙◌, Bool, true, false, not, ◌&&◌, leb, ltb, Option, none, some,
  if◌then◌else◌, Bool-cases,
}
use gn_drive.Common.Text.{Text}
use gn_drive.Auth.Password.{Bytes, Argon2}
use gn_drive.Auth.Files.{Cipher}
use gn_drive.Auth.Service.{
  not_setup, locked, done, fails, AuthService, Outcomes, active_lockout_remaining, remaining,
  save_auth_data, remember_key,
}
use gn_drive.Auth.Unlock.{answers, ask, wake, check_password, delayed, freed, unlock, after_sleep}

pub save_auth_data-state : (b : Bool) (svc : AuthService) → (save_auth_data b svc).state ≡ svc.state
unfolding save_auth_data
save_auth_data-state false svc = refl
save_auth_data-state true svc = refl

pub remember_key-state :
    (b : Bool) (key : Bytes) (svc : AuthService) → (remember_key b key svc).state ≡ svc.state
unfolding remember_key
remember_key-state b key svc = elim (Bool-cases (svc.has_key_store && b)) [
  | inl e ↦ rw e refl
  | inr e ↦ rw e refl
]

module _ (A : Argon2) (C : Cipher) where
  pub wake_shut :
      (o : Outcomes) (p : Text) (svc : AuthService)
      → svc.state.unlocked ≡ false
      → wake A C o p svc ≡ check_password A C o p svc
  unfolding wake
  wake_shut o p svc e = ap (λ (b : Bool). if b then (done, svc) else check_password A C o p svc) e

  pub ask_free :
      (o : Outcomes) (p : Text) (svc : AuthService)
      → svc.state.auth_data.enabled ≡ true
      → svc.state.unlocked ≡ false
      → remaining o.now svc.state.auth_data.lockout_until ≡ none
      → ask A C o p svc ≡ delayed A C o p (freed svc)
  unfolding ask active_lockout_remaining
  ask_free o p svc e u r =
      ap
        (λ (t : Bool × (Bool × Option ℕ)).
          if not t.0
          then (answers (fails not_setup), svc)
          else if t.1.0
          then (answers done, svc)
          else elim t.1.1 [
            | some secs ↦ (answers (fails (locked secs)), svc)
            | none ↦ delayed A C o p (freed svc)
          ])
        (ap
            (λ (t : Bool).
              (t, (svc.state.unlocked, remaining o.now svc.state.auth_data.lockout_until)))
            e
          ∙ ap (λ (t : Bool). (true, (t, remaining o.now svc.state.auth_data.lockout_until))) u
          ∙ ap (λ (t : Option ℕ). (true, (false, t))) r)

  delayed_lem :
      (o later : Outcomes) (p : Text) (svc : AuthService)
      → svc.state.unlocked ≡ false
      → (o' : Outcomes) × ((o' ≡ o) ⊎ (o' ≡ later))
        × (after_sleep A C later p (delayed A C o p svc) ≡ check_password A C o' p svc)
  unfolding delayed after_sleep
  delayed_lem o later p svc shut =
      elim (Bool-cases
        (leb 3 svc.state.auth_data.failed_attempts && ltb svc.state.auth_data.failed_attempts 10)) [
          | inl slow ↦ (later, inr refl, rw slow (wake_shut later p svc shut))
          | inr quick ↦ (o, inl refl, rw quick refl)
        ]

  -- Outside a lockout the password is tested, at once or after the sleep.
  pub unlock_free :
      (o later : Outcomes) (p : Text) (svc : AuthService)
      → svc.state.auth_data.enabled ≡ true
      → svc.state.unlocked ≡ false
      → remaining o.now svc.state.auth_data.lockout_until ≡ none
      → (o' : Outcomes) × ((o' ≡ o) ⊎ (o' ≡ later))
        × (unlock A C o later p svc ≡ check_password A C o' p (freed svc))
  unfolding unlock
  unlock_free o later p svc e u r =
      let (o', which, same) = delayed_lem o later p (freed svc) u in
      (o', which, ap (after_sleep A C later p) (ask_free o p svc e u r) ∙ same)
