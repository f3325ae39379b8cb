-- ===== src/Auth/Unlock/Calls.antt =====
-- Calls of unlock whose sleeps may overlap, as steps.
use gn_drive.Common.{
  ℕ, ◌+◌, ◌≤◌, Option, none, some, List, [], ◌∷◌, ◌++◌, length, get_elem?, remove_at,
}
use gn_drive.Common.Text.{Text}
use gn_drive.Auth.Password.{Argon2}
use gn_drive.Auth.Files.{Cipher}
use gn_drive.Auth.Service.{Answer, AuthService, Outcomes}
use gn_drive.Auth.Unlock.Tested.{refused}
use gn_drive.Auth.Unlock.{Asked, answers, sleeps, ask, wake}

-- The service with the passwords of the calls that sleep.
pub record Session : Type 0 where
  pub svc : AuthService
  pub sleepers : List Text

-- A call starts, or a sleep ends and its call goes on.
pub data Event : Type 0 where
  asks : Outcomes → Text → Event
  wakes : Outcomes → ℕ → Event

abbrev pub after_ask : Text → List Text → Asked × AuthService → ℕ × Session
after_ask password sleepers (answers a, svc) =
    (refused a, record { svc = svc; sleepers = sleepers })
after_ask password sleepers (sleeps secs, svc) =
    (0, record { svc = svc; sleepers = sleepers ++ password ∷ [] })

abbrev pub after_wake : List Text → Answer × AuthService → ℕ × Session
after_wake sleepers (a, svc) = (refused a, record { svc = svc; sleepers = sleepers })

module _ (A : Argon2) (C : Cipher) where
  unfoldable pub woken : Outcomes → ℕ → Option Text → Session → ℕ × Session
  unfolding wake
  woken o i none s = (0, s)
  woken o i (some password) s = after_wake (remove_at i s.sleepers) (wake A C o password s.svc)

  unfoldable pub step : Event → Session → ℕ × Session
  unfolding ask woken
  step (asks o password) s = after_ask password s.sleepers (ask A C o password s.svc)
  step (wakes o i) s = woken o i (get_elem? s.sleepers i) s

  -- The number of wrong passwords that the calls of a run have tested.
  unfoldable pub wrong_tests : List Event → Session → ℕ
  unfolding step
  wrong_tests [] s = 0
  wrong_tests (e ∷ es) s = (step e s).0 + wrong_tests es (step e s).1

  -- The session after a run.
  unfoldable pub run : List Event → Session → Session
  unfolding step
  run [] s = s
  run (e ∷ es) s = run es (step e s).1

  -- Never more than k calls sleep.
  unfoldable pub SleepAtMost : ℕ → List Event → Session → Type 0
  unfolding step
  SleepAtMost k [] s = length s.sleepers ≤ k
  SleepAtMost k (e ∷ es) s = (length s.sleepers ≤ k) × SleepAtMost k es (step e s).1

abbrev pub time : Event → ℕ
time (asks o password) = o.now
time (wakes o i) = o.now
