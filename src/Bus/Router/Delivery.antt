-- ===== src/Bus/Router/Delivery.antt =====
-- What a subscriber receives of what is sent to it, whatever the threads do.
use mathlib.Core.List.{Sublistᴰ, append_assoc, append-nil}
use mathlib.Core.List.Sublistᴰ
use mathlib.Core.Path.{subst}
use gn_drive.Common.{
  ℕ, ◌+◌, ◌-◌, ◌≤◌, ◌<◌, ◌≡◌, refl, sym, ap, ◌∙◌, inl, inr, Bool, true, false, Option, none, some,
  List, [], ◌∷◌, ◌++◌, length, drop, take, ◌==◌, nat_eq, get_elem?, if◌then◌else◌, arith,
  Bool-cases, take-append-drop, length-append, eqb_iff,
}
use gn_drive.Bus.{BusEvent, String}
use gn_drive.Bus.Mailbox.{send, send_lem, length-send-le}
use gn_drive.Bus.Router.{
  Job, Router, deliver_next, deliver_job, take_first, Step, subscribes, publishes, delivers,
  receives, cancels, closes, step, after, subscribe, publish,
}

abbrev pub added : ℕ → ℕ → BusEvent → List BusEvent → List BusEvent
added id target ev past = if target == id then past ++ ev ∷ [] else past

abbrev pub sent_by_job : ℕ → List BusEvent → BusEvent → List ℕ → List BusEvent
sent_by_job id past ev [] = past
sent_by_job id past ev (target ∷ rest) = added id target ev past

abbrev pub sent_by_next : ℕ → List BusEvent → Option Job → List BusEvent
sent_by_next id past none = past
sent_by_next id past (some j) = sent_by_job id past j.event j.targets

-- What has been sent into the channel, with what the step sends.
unfoldable pub sent_by : ℕ → List BusEvent → Step → Router → List BusEvent
sent_by id past (delivers n) s = sent_by_next id past (get_elem? s.jobs n)
sent_by id past _ s = past

abbrev pub received_first : ℕ → ℕ → List BusEvent → List BusEvent → List BusEvent
received_first id target past [] = past
received_first id target past (ev ∷ queue) = added id target ev past

-- What the subscriber has received, with what it receives in the step.
unfoldable pub received_by : ℕ → List BusEvent → Step → Router → List BusEvent
received_by id past (receives target) s = received_first id target past (s.channels target).queue
received_by id past _ s = past

unfoldable pub sent_from : ℕ → List BusEvent → List Step → Router → List BusEvent
unfolding sent_by
sent_from id past [] s = past
sent_from id past (st ∷ sts) s = sent_from id (sent_by id past st s) sts (step st s)

unfoldable pub received_from : ℕ → List BusEvent → List Step → Router → List BusEvent
unfolding received_by
received_from id past [] s = past
received_from id past (st ∷ sts) s = received_from id (received_by id past st s) sts (step st s)

-- The queue is the end of what was sent, the events received are among those before it, in their
-- order, and the queue is bounded.
pub record Delivers (sent received queue : List BusEvent) : Type 0 where
  pub old : List BusEvent
  pub split : sent ≡ old ++ queue
  pub in_order : Sublistᴰ received old
  pub bounded : length queue ≤ 64
  pub lossless : length sent ≤ 64 → received ++ queue ≡ sent

behind :
    {received old : List BusEvent}
    → Sublistᴰ received old
    → (more : List BusEvent) → Sublistᴰ received (old ++ more)
behind {received} {old} h more =
    subst (λ (l : List BusEvent). Sublistᴰ l (old ++ more)) (append-nil received)
      (Sublistᴰ.append h (Sublistᴰ.nil-sublist more))

-- One more event is sent.
send-Delivers :
    (sent received queue : List BusEvent) (ev : BusEvent)
    → Delivers sent received queue
    → Delivers (sent ++ ev ∷ []) received (send ev queue)
send-Delivers sent received queue ev d = record {
  old = d.old ++ take n queue;
  split = rw (send_lem ev queue) (ap (λ (t : List BusEvent). t ++ ev ∷ []) d.split ∙ regrouped);
  in_order = behind d.in_order (take n queue);
  bounded = length-send-le ev queue d.bounded;
  lossless = λ few.
      let total = length-append sent (ev ∷ []) in
      let same = d.lossless (omega arith) in
      let parts = ap length same ∙ refl in
      let room : n ≡ 0 = omega (arith, length-append received queue) in
      rw (send_lem ev queue, room)
        (sym (append_assoc received queue (ev ∷ []))
          ∙ ap (λ (t : List BusEvent). t ++ ev ∷ []) same);
}
  where
    n : ℕ
    n = length queue + 1 - 64

    regrouped : (d.old ++ queue) ++ ev ∷ [] ≡ (d.old ++ take n queue) ++ (drop n queue ++ ev ∷ [])
    regrouped =
        ap (λ (t : List BusEvent). (d.old ++ t) ++ ev ∷ []) (sym (take-append-drop n queue))
        ∙ simp append_assoc

-- The oldest queued event is received.
recv-Delivers :
    (sent received queue : List BusEvent) (ev : BusEvent)
    → Delivers sent received (ev ∷ queue)
    → Delivers sent (received ++ ev ∷ []) queue
recv-Delivers sent received queue ev d = record {
  old = d.old ++ ev ∷ [];
  split = d.split ∙ sym (append_assoc d.old (ev ∷ []) queue);
  in_order = Sublistᴰ.append d.in_order (Sublistᴰ.refl (ev ∷ []));
  bounded = omega (arith, d.bounded);
  lossless = λ few. append_assoc received (ev ∷ []) queue ∙ d.lossless few;
}

module _ (id : ℕ) where
  -- The channel has been opened, and its mailbox holds the end of what was sent.
  record Open (s : Router) (sent received : List BusEvent) : Type 0 where
    known : id < s.next_id
    delivers : Delivers sent received (s.channels id).queue

  deliver_next-Open :
      (n : ℕ) (ev : BusEvent) (targets : List ℕ) (s : Router) (sent received : List BusEvent)
      → Open s sent received
      → Open (deliver_next n ev targets s) (sent_by_job id sent ev targets) received
  deliver_next-Open n ev [] s sent received o = o
  deliver_next-Open n ev (target ∷ rest) s sent received o = record {
    known = o.known;
    delivers = elim (Bool-cases (target == id)) [
      | inl same ↦
          rw (same, (eqb_iff target id).0 same)
            (send-Delivers sent received (s.channels id).queue ev o.delivers)
      | inr other ↦ rw other o.delivers
    ];
  }

  take_first-Open :
      (target : ℕ) (queue : List BusEvent) (s : Router) (sent received : List BusEvent)
      → (s.channels target).queue ≡ queue
      → Open s sent received
      → Open (take_first target queue s) sent (received_first id target received queue)
  take_first-Open target [] s sent received here o = o
  take_first-Open target (ev ∷ queue) s sent received here o = record {
    known = o.known;
    delivers = elim (Bool-cases (target == id)) [
      | inl same ↦
          let own = (eqb_iff target id).0 same in
          let queued = subst (λ (t : ℕ). (s.channels t).queue ≡ ev ∷ queue) own here in
          rw same (
            recv-Delivers sent received queue ev
              (subst (λ (q : List BusEvent). Delivers sent received q) queued o.delivers))
      | inr other ↦ rw other o.delivers
    ];
  }

  deliver_job-Open :
      (n : ℕ) (j : Option Job) (s : Router) (sent received : List BusEvent)
      → Open s sent received
      → Open (deliver_job n j s) (sent_by_next id sent j) received
  deliver_job-Open n none s sent received o = o
  deliver_job-Open n (some j) s sent received o =
      deliver_next-Open n j.event j.targets s sent received o

  if-Open :
      (b : Bool) (s t : Router) (sent received : List BusEvent)
      → Open s sent received
      → Open t sent received
      → Open (if b then s else t) sent received
  if-Open true s t sent received o p = o
  if-Open false s t sent received o p = p

  step-Open :
      (st : Step) (s : Router) (sent received : List BusEvent)
      → Open s sent received
      → Open (step st s) (sent_by id sent st s) (received_by id received st s)
  unfolding step publish sent_by received_by
  step-Open (subscribes topics) s sent received o =
      let fresh : (s.next_id == id) ≡ false = ground (arith, o.known) in
      record { known = omega (arith, o.known); delivers = rw fresh o.delivers }
  step-Open (publishes ev) s sent received o =
      if-Open s.closed s _ sent received o (record { known = o.known; delivers = o.delivers })
  step-Open (delivers n) s sent received o =
      deliver_job-Open n (get_elem? s.jobs n) s sent received o
  step-Open (receives target) s sent received o =
      take_first-Open target (s.channels target).queue s sent received refl o
  step-Open (cancels target) s sent received o = record { known = o.known; delivers = o.delivers }
  step-Open closes s sent received o = record { known = o.known; delivers = o.delivers }

  after-Open :
      (sts : List Step) (s : Router) (sent received : List BusEvent)
      → Open s sent received
      → Open (after sts s) (sent_from id sent sts s) (received_from id received sts s)
  unfolding after sent_from received_from
  after-Open [] s sent received o = o
  after-Open (st ∷ sts) s sent received o =
      after-Open sts (step st s) (sent_by id sent st s) (received_by id received st s)
        (step-Open st s sent received o)

-- For a new subscription of any bus, after any sequence of steps, its mailbox holds at most 64
-- events and they are the last ones sent to it, the events received are among those sent before
-- them and in the order of the sends, and while no more than 64 have been sent, each is received
-- or queued.
pub subscribe-Delivers :
    (topics : List String) (s : Router) (sts : List Step)
    → let id = s.next_id in
      let opened_bus = subscribe topics s in
      Delivers
        (sent_from id [] sts opened_bus)
        (received_from id [] sts opened_bus)
        ((after sts opened_bus).channels id).queue
unfolding subscribe
subscribe-Delivers topics s sts =
    (after-Open s.next_id sts (subscribe topics s) [] [] (record {
      known = omega arith;
      delivers = rw own (record {
        old = [];
        split = refl;
        in_order = Sublistᴰ.slnil;
        bounded = omega arith;
        lossless = λ few. refl;
      });
    })).delivers
  where
    own : (s.next_id == s.next_id) ≡ true
    own = ground arith
