-- ===== src/Bus/Router/Wanted.antt =====
-- Every event that is sent to a subscription has one of its topics.
use mathlib.Core.Path.{subst}
use gn_drive.Common.{
  ℕ, ◌≤◌, ◌≡◌, refl, sym, inl, inr, String, Bool, true, false, Option, none, some, List, [], ◌∷◌,
  ◌++◌, lookup, ◌==◌, nat_eq, string_eq, All, All-append, All-get_elem?, get_elem?, if◌then◌else◌,
  arith, Bool-cases, eqb_iff, ltb,
}
use gn_drive.Bus.{BusEvent, topic}
use gn_drive.Bus.Router.Topics.{
  has_topic, Listens, IsWellRouted, Grows, same_channels, requeued, opened_later, step-IsWellRouted,
}
use gn_drive.Bus.Router.{
  Job, Router, or_empty, deliver_next, deliver_job, take_first, subscribe, publish, Step,
  subscribes, publishes, delivers, receives, cancels, closes, step, after, new, send,
}
use gn_drive.Bus.Router.Delivery.{sent_by, sent_from, added, sent_by_job, sent_by_next}

-- Every step keeps the topics of the open channels.
step-Grows :
    (st : Step) (s : Router) → Grows s.next_id (step st s).next_id s.channels (step st s).channels
unfolding step subscribe publish
step-Grows (subscribes topics) s = opened_later s.next_id topics s.channels
step-Grows (publishes ev) s = go s.closed
  where
    go :
        (shut : Bool)
        → let t = if shut then s else record s {
          jobs =
              s.jobs ++ record { event = ev; targets = or_empty (lookup (topic ev) s.topics) } ∷ [];
        } in
          Grows s.next_id t.next_id s.channels t.channels
    go true = same_channels s.next_id s.channels
    go false = same_channels s.next_id s.channels
step-Grows (delivers n) s = by_job (get_elem? s.jobs n)
  where
    by_next :
        (ev : BusEvent) (targets : List ℕ)
        → Grows s.next_id
            (deliver_next n ev targets s).next_id
            s.channels
            (deliver_next n ev targets s).channels
    by_next ev [] = same_channels s.next_id s.channels
    by_next ev (id ∷ rest) = requeued s.next_id id (send ev (s.channels id).queue) s.channels

    by_job :
        (j : Option Job)
        → Grows s.next_id (deliver_job n j s).next_id s.channels (deliver_job n j s).channels
    by_job none = same_channels s.next_id s.channels
    by_job (some j) = by_next j.event j.targets
step-Grows (receives id) s = go (s.channels id).queue
  where
    go :
        (queue : List BusEvent)
        → Grows s.next_id
            (take_first id queue s).next_id
            s.channels
            (take_first id queue s).channels
    go [] = same_channels s.next_id s.channels
    go (ev ∷ queue) = requeued s.next_id id queue s.channels
step-Grows (cancels id) s = same_channels s.next_id s.channels
step-Grows closes s = same_channels s.next_id s.channels

-- What has been sent to a channel has its topics; nothing has been sent to a channel not yet open.
record AreWanted (id : ℕ) (s : Router) (sent : List BusEvent) : Type 0 where
  wanted : All (λ (e : BusEvent). has_topic (topic e) (s.channels id).topics ≡ true) sent
  unborn : s.next_id ≤ id → sent ≡ []

added-AreWanted :
    (id target : ℕ) (ev : BusEvent) (s : Router) (sent : List BusEvent)
    → Listens s.next_id s.channels (topic ev) target
    → AreWanted id s sent
    → AreWanted id s (added id target ev sent)
added-AreWanted id target ev s sent (known, hears) a = elim (Bool-cases (target == id)) [
  | inl same ↦
      let own = (eqb_iff target id).0 same in
      rw same (record {
        wanted =
            All-append (λ (e : BusEvent). has_topic (topic e) (s.channels id).topics ≡ true) sent
              (ev ∷ []) a.wanted
              (subst (λ (t : ℕ). has_topic (topic ev) (s.channels t).topics ≡ true) own hears, tt);
        unborn = λ late. absurd (omega (arith, own));
      })
  | inr other ↦ rw other a
]

sent_by-AreWanted :
    (id : ℕ) (st : Step) (s : Router) (sent : List BusEvent)
    → IsWellRouted s
    → AreWanted id s sent
    → AreWanted id s (sent_by id sent st s)
unfolding sent_by
sent_by-AreWanted id (delivers n) s sent h a = by_job (get_elem? s.jobs n) refl
  where
    by_targets :
        (ev : BusEvent) (targets : List ℕ)
        → All (Listens s.next_id s.channels (topic ev)) targets
        → AreWanted id s (sent_by_job id sent ev targets)
    by_targets ev [] own = a
    by_targets ev (target ∷ rest) own = added-AreWanted id target ev s sent own.0 a

    by_job : (j : Option Job) → get_elem? s.jobs n ≡ j → AreWanted id s (sent_by_next id sent j)
    by_job none e = a
    by_job (some j) e = by_targets j.event j.targets (
        All-get_elem? (λ (j : Job). All (Listens s.next_id s.channels (topic j.event)) j.targets)
          s.jobs n j h.jobs e)
sent_by-AreWanted id _ s sent h a = a

grown-AreWanted :
    (id : ℕ) (s t : Router) (sent : List BusEvent)
    → Grows s.next_id t.next_id s.channels t.channels
    → AreWanted id s sent
    → AreWanted id t sent
grown-AreWanted id s t sent g a = elim (Bool-cases (ltb id s.next_id)) [
  | inl known ↦ record {
    wanted =
        subst
          (λ (topics : List String). All (λ (e : BusEvent). has_topic (topic e) topics ≡ true) sent)
          (sym (g.kept id (ground arith))) a.wanted;
    unborn = λ late. absurd (ground (arith, g.more));
  }
  | inr late ↦ rw (a.unborn (ground arith)) (record { wanted = tt; unborn = λ e. refl })
]

after-AreWanted :
    (id : ℕ) (sts : List Step) (s : Router) (sent : List BusEvent)
    → IsWellRouted s
    → AreWanted id s sent
    → AreWanted id (after sts s) (sent_from id sent sts s)
unfolding after sent_from
after-AreWanted id [] s sent h a = a
after-AreWanted id (st ∷ sts) s sent h a =
    after-AreWanted id sts (step st s) (sent_by id sent st s) (step-IsWellRouted st s h) (
      grown-AreWanted id s (step st s) (sent_by id sent st s) (step-Grows st s)
        (sent_by-AreWanted id st s sent h a))

-- After any sequence of steps on a new bus, every event sent to a subscription has one of the
-- topics that it asked for.
pub sent_from-wanted :
    (sts : List Step) (id : ℕ)
    → All
        (λ (e : BusEvent). has_topic (topic e) ((after sts new).channels id).topics ≡ true)
        (sent_from id [] sts new)
unfolding lookup
sent_from-wanted sts id =
    (after-AreWanted id sts new [] (record { registry = λ t. tt; jobs = tt })
      (record { wanted = tt; unborn = λ e. refl })).wanted
