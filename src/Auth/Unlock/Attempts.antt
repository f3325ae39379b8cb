-- ===== src/Auth/Unlock/Attempts.antt =====
-- How often a wrong password is tested, by calls of unlock whose sleeps may overlap.
use gn_drive.Common.{
  ℕ, ◌+◌, ◌-◌, ◌*◌, ◌/◌, ◌≤◌, ◌<◌, ◌≡◌, inl, inr, refl, Bool, true, false, Option, none, some, ◌≢◌,
  suc, List, [], ◌∷◌, ◌&&◌, length, All, get_elem?, remove_at, length-remove_at, ltb, leb,
  if◌then◌else◌, arith, Bool-cases, Option-cases,
}
use gn_drive.Common.Text.{Text}
use gn_drive.Auth.Password.{Argon2}
use gn_drive.Auth.Files.{Cipher}
use gn_drive.Auth.Service.{State, AuthService, Outcomes, active_lockout_remaining, remaining}
use gn_drive.Auth.Unlock.Tested.{refused, Tested, checked, wrong, locks, same, opens}
use gn_drive.Auth.Unlock.Paths.{wake_shut, ask_free}
use gn_drive.Auth.Unlock.{ask, wake, check_password, delayed, freed}
use gn_drive.Auth.Unlock.Calls.{
  Session, Event, asks, wakes, after_ask, woken, step, wrong_tests, SleepAtMost, time,
}

-- The time lies in the 299 seconds from a start on.
abbrev pub IsWithin : ℕ → ℕ → Type 0
IsWithin start now = (start ≤ now) × (now ≤ start + 299000)

abbrev lasts : ℕ → Option ℕ → Bool
lasts start none = false
lasts start (some until) = ltb (start + 299000) (until * 1000)

-- The wrong passwords that can still be tested.
abbrev left : ℕ → ℕ → Bool → ℕ → Option ℕ → ℕ → ℕ
left k start unlocked failed until n =
    if unlocked then 0 else if lasts start until then n else 10 - failed + (k - 1)

abbrev left_in : ℕ → ℕ → Session → ℕ
left_in k start s =
    left k start s.svc.state.unlocked s.svc.state.auth_data.failed_attempts
      s.svc.state.auth_data.lockout_until (length s.sleepers)

abbrev left_of : ℕ → ℕ → State → ℕ → ℕ
left_of k start st n =
    left k start st.unlocked st.auth_data.failed_attempts st.auth_data.lockout_until n

locked_lasts : (start now : ℕ) → start ≤ now → lasts start (some ((now + 300000) / 1000)) ≡ true
locked_lasts start now h = ground arith

tested_awake :
    (k start now m : ℕ) (b a : State) (c : ℕ)
    → Tested now b a c
    → b.unlocked ≡ false
    → b.auth_data.failed_attempts < 10
    → suc m ≤ k
    → IsWithin start now
    → (c + left_of k start a m ≤ left_of k start b (suc m)) × (a.auth_data.failed_attempts < 10)
tested_awake k start now m b a c (wrong u more f l) shut few room within =
    elim (Bool-cases (lasts start b.auth_data.lockout_until)) [
      | inl e ↦ rw (u, shut, f, l, e) (omega arith, omega arith)
      | inr e ↦ rw (u, shut, f, l, e) (omega arith, omega arith)
    ]
tested_awake k start now m b a c (locks u enough f l) shut few room within =
    let still = locked_lasts start now within.0 in
    elim (Bool-cases (lasts start b.auth_data.lockout_until)) [
      | inl e ↦ rw (u, shut, f, l, still, e) (omega arith, omega arith)
      | inr e ↦ rw (u, shut, f, l, still, e) (omega arith, omega arith)
    ]
tested_awake k start now m b a c (same e) shut few room within =
    rw (e, shut)
      (elim (Bool-cases (lasts start b.auth_data.lockout_until)) [
        | inl e ↦ rw e (omega arith, omega arith)
        | inr e ↦ rw e (omega arith, omega arith)
      ])
tested_awake k start now m b a c (opens u f l) shut few room within =
    rw (u, f) (omega arith, omega arith)

tested_at_once :
    (k start now n : ℕ) (b a : State) (c : ℕ)
    → Tested now b a c
    → b.unlocked ≡ false
    → b.auth_data.failed_attempts < 3
    → b.auth_data.lockout_until ≡ none
    → (c + left_of k start a n ≤ left_of k start b n) × (a.auth_data.failed_attempts < 10)
tested_at_once k start now n b a c (wrong u more f l) shut few free =
    rw (u, shut, f, l, free) (omega arith, omega arith)
tested_at_once k start now n b a c (locks u enough f l) shut few free = absurd (omega arith)
tested_at_once k start now n b a c (same e) shut few free =
    rw (e, shut, free) (omega arith, omega arith)
tested_at_once k start now n b a c (opens u f l) shut few free =
    rw (u, f) (omega arith, omega arith)

-- A lockout that lasts beyond the window is active at any time of it.
active_throughout :
    (start now : ℕ) (l : Option ℕ)
    → IsWithin start now
    → lasts start l ≡ true
    → remaining now l ≢ none
active_throughout start now none within h = absurd (ground arith)
active_throughout start now (some until) within h = ground arith

module _ (A : Argon2) (C : Cipher) where
  woken_left :
      (k start : ℕ) (o : Outcomes) (i : ℕ) (p : Text) (s : Session)
      → get_elem? s.sleepers i ≡ some p
      → IsWithin start o.now
      → s.svc.state.auth_data.failed_attempts < 10
      → length s.sleepers ≤ k
      → ((woken A C o i (some p) s).0 + left_in k start (woken A C o i (some p) s).1
          ≤ left_in k start s)
        × ((woken A C o i (some p) s).1.svc.state.auth_data.failed_attempts < 10)
  unfolding woken wake
  woken_left k start o i p s there within few room =
      let fewer = length-remove_at i s.sleepers p there in
      elim (Bool-cases s.svc.state.unlocked) [
        | inl e ↦ rw e (omega arith, few)
        | inr e ↦
            let t =
              tested_awake k start o.now (length (remove_at i s.sleepers)) s.svc.state
                (check_password A C o p s.svc).1.state (refused (check_password A C o p s.svc).0)
                (checked A C o p s.svc) e few (omega arith) within in
            rw (wake_shut A C o p s.svc e, fewer) t
      ]

  delayed_left :
      (k start : ℕ) (o : Outcomes) (p : Text) (svc : AuthService) (sleepers : List Text)
      → svc.state.auth_data.failed_attempts < 10
      → svc.state.unlocked ≡ false
      → svc.state.auth_data.lockout_until ≡ none
      → ((after_ask p sleepers (delayed A C o p svc)).0
            + left_in k start (after_ask p sleepers (delayed A C o p svc)).1
          ≤ left_of k start svc.state (length sleepers))
        × ((after_ask p sleepers (delayed A C o p svc)).1.svc.state.auth_data.failed_attempts < 10)
  unfolding delayed
  delayed_left k start o p svc sleepers few shut free =
      elim (Bool-cases
        (leb 3 svc.state.auth_data.failed_attempts && ltb svc.state.auth_data.failed_attempts 10)) [
          | inl slow ↦ rw (slow, shut, free) (omega arith, few)
          | inr quick ↦ rw quick (
              tested_at_once k start o.now (length sleepers) svc.state
                (check_password A C o p svc).1.state (refused (check_password A C o p svc).0)
                (checked A C o p svc) shut (ground arith) free)
        ]

  asked_free :
      (k start : ℕ) (o : Outcomes) (p : Text) (s : Session)
      → IsWithin start o.now
      → s.svc.state.auth_data.failed_attempts < 10
      → s.svc.state.auth_data.enabled ≡ true
      → s.svc.state.unlocked ≡ false
      → remaining o.now s.svc.state.auth_data.lockout_until ≡ none
      → ((step A C (asks o p) s).0 + left_in k start (step A C (asks o p) s).1 ≤ left_in k start s)
        × ((step A C (asks o p) s).1.svc.state.auth_data.failed_attempts < 10)
  unfolding step
  asked_free k start o p s within few e u r =
      elim (Bool-cases (lasts start s.svc.state.auth_data.lockout_until)) [
        | inl long ↦
            absurd (active_throughout start o.now s.svc.state.auth_data.lockout_until within long r)
        | inr short ↦
            let same : left_of k start (freed s.svc).state (length s.sleepers) ≡ left_in k start s =
              rw short refl in
            rw (ask_free A C o p s.svc e u r, ← same)
              (delayed_left k start o p (freed s.svc) s.sleepers few u refl)
      ]

  asked_left :
      (k start : ℕ) (o : Outcomes) (p : Text) (s : Session)
      → IsWithin start o.now
      → s.svc.state.auth_data.failed_attempts < 10
      → ((step A C (asks o p) s).0 + left_in k start (step A C (asks o p) s).1 ≤ left_in k start s)
        × ((step A C (asks o p) s).1.svc.state.auth_data.failed_attempts < 10)
  unfolding step ask active_lockout_remaining
  asked_left k start o p s within few = elim (Bool-cases s.svc.state.auth_data.enabled) [
    | inr e ↦ rw e (omega arith, few)
    | inl e ↦ elim (Bool-cases s.svc.state.unlocked) [
      | inl u ↦ rw (e, u) (omega arith, few)
      | inr u ↦ elim (Option-cases (remaining o.now s.svc.state.auth_data.lockout_until)) [
        | inr (secs, r) ↦ rw (e, u, r) (ground arith, few)
        | inl r ↦ asked_free k start o p s within few e u r
      ]
    ]
  ]

  step_left :
      (k start : ℕ) (e : Event) (s : Session)
      → IsWithin start (time e)
      → s.svc.state.auth_data.failed_attempts < 10
      → length s.sleepers ≤ k
      → ((step A C e s).0 + left_in k start (step A C e s).1 ≤ left_in k start s)
        × ((step A C e s).1.svc.state.auth_data.failed_attempts < 10)
  unfolding step
  step_left k start (asks o p) s within few room = asked_left k start o p s within few
  step_left k start (wakes o i) s within few room = elim (Option-cases (get_elem? s.sleepers i)) [
    | inl e ↦ rw (step, e) (omega arith, few)
    | inr (p, e) ↦ rw (step, e) (woken_left k start o i p s e within few room)
  ]

  wrong_tests-left :
      (k start : ℕ) (es : List Event) (s : Session)
      → All (λ e. IsWithin start (time e)) es
      → s.svc.state.auth_data.failed_attempts < 10
      → SleepAtMost A C k es s
      → wrong_tests A C es s ≤ left_in k start s
  unfolding wrong_tests SleepAtMost
  wrong_tests-left k start [] s within few room = omega arith
  wrong_tests-left k start (e ∷ es) s (now, within) few (room, rooms) =
      let (l, f) = step_left k start e s now few room in
      omega (arith, wrong_tests-left k start es (step A C e s).1 within f rooms)

  room_now :
      (k : ℕ) (es : List Event) (s : Session) → SleepAtMost A C k es s → length s.sleepers ≤ k
  unfolding SleepAtMost
  room_now k [] s room = room
  room_now k (e ∷ es) s rooms = rooms.0

  -- For calls of unlock that start and wake in any order within 299 seconds, of which never more
  -- than k sleep at once, with fewer than 10 failures counted: the passwords that are tested and
  -- found wrong are at most 10 less the failures counted, plus k - 1.
  pub wrong_tests-le :
      (k start : ℕ) (es : List Event) (s : Session)
      → All (λ e. IsWithin start (time e)) es
      → s.svc.state.auth_data.failed_attempts < 10
      → SleepAtMost A C k es s
      → wrong_tests A C es s ≤ 10 - s.svc.state.auth_data.failed_attempts + (k - 1)
  wrong_tests-le k start es s within few rooms =
      let l = wrong_tests-left k start es s within few rooms in
      let room = room_now k es s rooms in ground arith
