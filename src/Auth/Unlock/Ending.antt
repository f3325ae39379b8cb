-- ===== src/Auth/Unlock/Ending.antt =====
-- A lockout ends.
use gn_drive.Common.{
  ℕ, ◌+◌, ◌*◌, ◌≤◌, ◌≡◌, ◌⊎◌, inl, inr, refl, true, false, Option, none, some, List, [], ◌∷◌, All,
  get_elem?, arith, Bool-cases, Option-cases, leb, ltb, ◌&&◌,
}
use gn_drive.Common.Text.{Text}
use gn_drive.Auth.Password.{Argon2}
use gn_drive.Auth.Files.{Cipher}
use gn_drive.Auth.Service.{State, AuthService, Outcomes, remaining, active_lockout_remaining}
use gn_drive.Auth.Unlock.{ask, wake, check_password, delayed, freed, unlock}
use gn_drive.Auth.Unlock.Paths.{wake_shut, ask_free, unlock_free}
use gn_drive.Auth.Unlock.Tested.{refused, Tested, checked, wrong, locks, same, opens}
use gn_drive.Auth.Unlock.Calls.{Session, Event, asks, wakes, step, woken, run, after_ask, time}

-- The lockout ends at most 300 seconds after a time.
abbrev EndsAt : ℕ → Option ℕ → Type 0
EndsAt t none = 0 ≤ t
EndsAt t (some until) = until * 1000 ≤ t + 300000

tested_ends :
    (t now : ℕ) (b a : State) (c : ℕ)
    → Tested now b a c
    → now ≤ t
    → EndsAt t b.auth_data.lockout_until
    → EndsAt t a.auth_data.lockout_until
tested_ends t now b a c (wrong u more f l) early ends = rw l ends
tested_ends t now b a c (locks u enough f l) early ends = rw l (omega arith)
tested_ends t now b a c (same e) early ends = rw e ends
tested_ends t now b a c (opens u f l) early ends = rw l (omega arith)

ended : (t now : ℕ) (l : Option ℕ) → t + 300000 ≤ now → EndsAt t l → remaining now l ≡ none
ended t now none late ends = refl
ended t now (some until) late ends = ground arith

module _ (A : Argon2) (C : Cipher) where
  delayed_ends :
      (t : ℕ) (o : Outcomes) (p : Text) (sleepers : List Text) (svc : AuthService)
      → o.now ≤ t
      → EndsAt t svc.state.auth_data.lockout_until
      → EndsAt t (after_ask p sleepers (delayed A C o p svc)).1.svc.state.auth_data.lockout_until
  unfolding delayed
  delayed_ends t o p sleepers svc early ends =
      elim (Bool-cases
        (leb 3 svc.state.auth_data.failed_attempts && ltb svc.state.auth_data.failed_attempts 10)) [
          | inl slow ↦ rw slow ends
          | inr quick ↦ rw quick (
              tested_ends t o.now svc.state (check_password A C o p svc).1.state
                (refused (check_password A C o p svc).0) (checked A C o p svc) early ends)
        ]

  step_ends :
      (t : ℕ) (e : Event) (s : Session)
      → time e ≤ t
      → EndsAt t s.svc.state.auth_data.lockout_until
      → EndsAt t (step A C e s).1.svc.state.auth_data.lockout_until
  unfolding step ask active_lockout_remaining
  step_ends t (asks o p) s early ends = elim (Bool-cases s.svc.state.auth_data.enabled) [
    | inr e ↦ rw e ends
    | inl e ↦ elim (Bool-cases s.svc.state.unlocked) [
      | inl u ↦ rw (e, u) ends
      | inr u ↦ elim (Option-cases (remaining o.now s.svc.state.auth_data.lockout_until)) [
        | inr (secs, r) ↦ rw (e, u, r) ends
        | inl r ↦
            rw (ask_free A C o p s.svc e u r)
              (delayed_ends t o p s.sleepers (freed s.svc) early (omega arith))
      ]
    ]
  ]
  step_ends t (wakes o i) s early ends = elim (Option-cases (get_elem? s.sleepers i)) [
    | inl e ↦ rw e ends
    | inr (p, e) ↦ elim (Bool-cases s.svc.state.unlocked) [
      | inl u ↦ rw (e, woken, wake, u) ends
      | inr u ↦
          rw (e, woken, wake_shut A C o p s.svc u)
            (tested_ends t o.now s.svc.state (check_password A C o p s.svc).1.state
              (refused (check_password A C o p s.svc).0) (checked A C o p s.svc) early ends)
    ]
  ]

  run_ends :
      (t : ℕ) (es : List Event) (s : Session)
      → All (λ e. time e ≤ t) es
      → EndsAt t s.svc.state.auth_data.lockout_until
      → EndsAt t (run A C es s).svc.state.auth_data.lockout_until
  unfolding run
  run_ends t [] s early ends = ends
  run_ends t (e ∷ es) s (first, early) ends =
      run_ends t es (step A C e s).1 early (step_ends t e s first ends)

  -- After any run of calls of unlock at times up to t, on a service without a lockout, if it is
  -- set up and still locked, then unlock at 300 seconds after t or later tests its password, at
  -- once or after its sleep, and is not refused for a lockout.
  pub unlock_ends :
      (t : ℕ) (es : List Event) (s : Session) (o later : Outcomes) (p : Text)
      → All (λ e. time e ≤ t) es
      → s.svc.state.auth_data.lockout_until ≡ none
      → (run A C es s).svc.state.auth_data.enabled ≡ true
      → (run A C es s).svc.state.unlocked ≡ false
      → t + 300000 ≤ o.now
      → (o' : Outcomes) × ((o' ≡ o) ⊎ (o' ≡ later))
        × (unlock A C o later p (run A C es s).svc
            ≡ check_password A C o' p (freed (run A C es s).svc))
  unlock_ends t es s o later p early none_yet e u late =
      let ends = run_ends t es s early (rw none_yet (omega arith)) in
      unlock_free A C o later p (run A C es s).svc e u
        (ended t o.now (run A C es s).svc.state.auth_data.lockout_until late ends)
