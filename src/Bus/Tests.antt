-- ===== src/Bus/Tests.antt =====
-- The event bus at concrete steps.
use gn_drive.Common.{
  ◌≡◌, ◌+◌, ◌-◌, ℕ, zero, suc, String, List, [], ◌∷◌, ◌++◌, some, length, drop, All, true, arith,
}
use gn_drive.Bus.{BusEvent, auth_unlocked, auth_locked, topic}
use gn_drive.Bus.Mailbox.{send_from, send_from-ends, mailbox_capacity}
use gn_drive.Bus.Router.{
  Step, subscribes, publishes, delivers, receives, closes, after, new, subscribe,
}
use gn_drive.Bus.Router.Delivery.{Delivers, sent_from, received_from, subscribe-Delivers}
use gn_drive.Bus.Router.Topics.{has_topic}
use gn_drive.Bus.Router.Wanted.{sent_from-wanted}

abbrev locks : ℕ → List BusEvent
locks zero = []
locks (suc n) = auth_locked ∷ locks n

send_from-ends_example :
    send_from 65 auth_unlocked (locks 64)
    ≡ some (drop (length (locks 64) + 1 - mailbox_capacity) (locks 64) ++ auth_unlocked ∷ [])
send_from-ends_example = send_from-ends 65 auth_unlocked (locks 64) (omega arith)

-- A subscriber of locks hears one lock, between a lock and an unlock that two threads publish.
abbrev night : List Step
night =
    publishes auth_locked
    ∷ publishes auth_unlocked
    ∷ publishes auth_locked
    ∷ delivers 2
    ∷ delivers 1
    ∷ delivers 0
    ∷ receives 0
    ∷ closes
    ∷ publishes auth_locked
    ∷ []

abbrev lock_topics : List String
lock_topics = "auth:locked" ∷ []

subscribe-Delivers_example :
    Delivers
      (sent_from 0 [] night (subscribe lock_topics new))
      (received_from 0 [] night (subscribe lock_topics new))
      ((after night (subscribe lock_topics new)).channels 0).queue
subscribe-Delivers_example = subscribe-Delivers lock_topics new night

sent_from-wanted_example :
    All
      (λ (e : BusEvent).
        has_topic (topic e) ((after (subscribes lock_topics ∷ night) new).channels 0).topics ≡ true)
      (sent_from 0 [] (subscribes lock_topics ∷ night) new)
sent_from-wanted_example = sent_from-wanted (subscribes lock_topics ∷ night) 0
