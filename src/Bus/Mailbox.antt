-- ===== src/Bus/Mailbox.antt =====
-- crates/gn-drive-core/src/event_bus.rs: the bounded mailbox of a subscription and the loop that sends into it.
use gn_drive.Common.{
  ℕ, zero, suc, ◌+◌, ◌-◌, ◌≤◌, ◌<◌, ◌≡◌, refl, ap, ◌∙◌, inl, inr, Option, none, some, List, [], ◌∷◌,
  ◌++◌, ltb, length, drop, length-append, length-drop, if◌then◌else◌, arith, Bool-cases, drop-drop,
}
use gn_drive.Bus.{BusEvent}

abbrev pub mailbox_capacity : ℕ
mailbox_capacity = 64

-- The loop of `publish` over `try_send`: a full mailbox loses its oldest event, and the send is tried
-- again. `none` means that the fuel ran out.
unfoldable pub send_from : ℕ → BusEvent → List BusEvent → Option (List BusEvent)
send_from zero ev queue = none
send_from (suc fuel) ev queue =
    let again = send_from fuel ev (drop 1 queue) in
    if ltb (length queue) mailbox_capacity then some (queue ++ ev ∷ []) else again

abbrev pub queue_or : List BusEvent → Option (List BusEvent) → List BusEvent
queue_or queue none = queue
queue_or queue (some sent) = sent

-- One unit of fuel for each queued event, and one for the send.
unfoldable pub send : BusEvent → List BusEvent → List BusEvent
unfolding send_from
send ev queue = queue_or queue (send_from (suc (length queue)) ev queue)

-- With more units of fuel than the queue has events, the send loop ends, for a queue of any
-- length, with the event behind the newest 63 events of the queue.
pub send_from-ends :
    (fuel : ℕ) (ev : BusEvent) (queue : List BusEvent)
    → length queue < fuel
    → send_from fuel ev queue ≡ some (drop (length queue + 1 - mailbox_capacity) queue ++ ev ∷ [])
unfolding send_from
send_from-ends zero ev queue h = absurd (omega arith)
send_from-ends (suc fuel) ev queue h = elim (Bool-cases (ltb (length queue) mailbox_capacity)) [
  | inl room ↦
      let none_dropped : length queue + 1 - 64 ≡ 0 = ground arith in
      rw (send_from, room, none_dropped) refl
  | inr full ↦
      let long : 64 ≤ length queue = ground arith in
      let later = send_from-ends fuel ev (drop 1 queue) (omega (arith, length-drop 1 queue)) in
      let both = drop-drop (length (drop 1 queue) + 1 - 64) 1 queue in
      let count : 1 + (length (drop 1 queue) + 1 - 64) ≡ length queue + 1 - 64 =
        omega (arith, length-drop 1 queue) in
      rw (send_from, full)
        (later
          ∙ ap (λ (kept : List BusEvent). some (kept ++ ev ∷ []))
              (both ∙ ap (λ (n : ℕ). drop n queue) count))
]

-- What is left when the newest events make room.
pub send_lem :
    (ev : BusEvent) (queue : List BusEvent)
    → send ev queue ≡ drop (length queue + 1 - mailbox_capacity) queue ++ ev ∷ []
unfolding send
send_lem ev queue = ap (queue_or queue) (send_from-ends (suc (length queue)) ev queue (omega arith))

pub length-send-le :
    (ev : BusEvent) (queue : List BusEvent) → length queue ≤ 64 → length (send ev queue) ≤ 64
length-send-le ev queue h =
    let n = length queue + 1 - 64 in
    rw (send_lem ev queue)
      (omega (arith, length-append (drop n queue) (ev ∷ []), length-drop n queue))
