-- ===== src/Bus/Router.antt =====
-- crates/gn-drive-core/src/event_bus.rs: `subscribe`, `publish`, `recv`, `cancel` and `close` of a bus that
-- several threads share. A publisher takes its subscriptions under the lock and sends to them later,
-- one at a time: what it has still to do is a `Job`, and the sends of jobs interleave with all else.
pub mod Delivery
pub mod Topics
pub mod Wanted
use gn_drive.Common.{
  ℕ, zero, suc, ◌+◌, String, Bool, true, false, Option, none, some, List, [], ◌∷◌, ◌++◌, Dict,
  lookup, insert, ◌==◌, nat_eq, string_eq, get_elem?, any, if◌then◌else◌,
}
use gn_drive.Bus.{BusEvent, topic}
use gn_drive.Bus.Mailbox.{send}

-- A channel with its subscriber: the topics it asked for, and the queued events, the oldest first.
pub record Channel : Type 0 where
  pub topics : List String
  pub queue : List BusEvent

pub record Job : Type 0 where
  pub event : BusEvent
  pub targets : List ℕ

-- `topics` of the locked state holds identifiers, which name the channels.
pub record Router : Type 0 where
  pub topics : Dict (List ℕ)
  pub closed : Bool
  pub next_id : ℕ
  pub channels : ℕ → Channel
  pub jobs : List Job

abbrev pub update {ℓ} : {A : Type ℓ} → (ℕ → A) → ℕ → A → ℕ → A
update f i a j = if i == j then a else f j

abbrev pub or_empty : Option (List ℕ) → List ℕ
or_empty none = []
or_empty (some ids) = ids

-- `topics.entry(t).or_default().push(sub)` for each topic.
unfoldable pub register : ℕ → List String → Dict (List ℕ) → Dict (List ℕ)
register id [] reg = reg
register id (t ∷ ts) reg = register id ts (insert t (or_empty (lookup t reg) ++ id ∷ []) reg)

abbrev pub opened : List String → Channel
opened topics = record { topics = topics; queue = [] }

unfoldable pub subscribe : List String → Router → Router
unfolding register
subscribe topics s = record s {
  topics = if s.closed then s.topics else register s.next_id topics s.topics;
  next_id = s.next_id + 1;
  channels = update s.channels s.next_id (opened topics);
}

-- The part of `publish` under the lock.
unfoldable pub publish : BusEvent → Router → Router
publish ev s = if s.closed then s else record s {
  jobs = s.jobs ++ record { event = ev; targets = or_empty (lookup (topic ev) s.topics) } ∷ [];
}

abbrev pub received_into : ℕ → List BusEvent → (ℕ → Channel) → ℕ → Channel
received_into id queue channels = update channels id (record (channels id) { queue = queue })

unfoldable pub set_job : ℕ → Job → List Job → List Job
set_job n j [] = []
set_job zero j (x ∷ xs) = j ∷ xs
set_job (suc n) j (x ∷ xs) = x ∷ set_job n j xs

-- The next send of job `n`.
abbrev pub deliver_next : ℕ → BusEvent → List ℕ → Router → Router
deliver_next n ev [] s = s
deliver_next n ev (id ∷ rest) s = record s {
  jobs = set_job n (record { event = ev; targets = rest }) s.jobs;
  channels = received_into id (send ev (s.channels id).queue) s.channels;
}

abbrev pub deliver_job : ℕ → Option Job → Router → Router
deliver_job n none s = s
deliver_job n (some j) s = deliver_next n j.event j.targets s

unfoldable pub deliver : ℕ → Router → Router
unfolding set_job
deliver n s = deliver_job n (get_elem? s.jobs n) s

-- `recv` and its variants: the oldest queued event goes to the subscriber.
abbrev pub take_first : ℕ → List BusEvent → Router → Router
take_first id [] s = s
take_first id (ev ∷ queue) s = record s { channels = received_into id queue s.channels }

unfoldable pub recv : ℕ → Router → Router
recv id s = take_first id (s.channels id).queue s

unfoldable pub retain_others : ℕ → List ℕ → List ℕ
retain_others id [] = []
retain_others id (x ∷ xs) = let rest = retain_others id xs in if x == id then rest else x ∷ rest

abbrev pub retained_in : ℕ → String → Option (List ℕ) → Dict (List ℕ) → Dict (List ℕ)
retained_in id t none reg = reg
retained_in id t (some ids) reg = insert t (retain_others id ids) reg

unfoldable pub unregister : ℕ → List String → Dict (List ℕ) → Dict (List ℕ)
unfolding retain_others
unregister id [] reg = reg
unregister id (t ∷ ts) reg = unregister id ts (retained_in id t (lookup t reg) reg)

-- `cancel`, and the drop of a subscriber.
unfoldable pub cancel : ℕ → Router → Router
unfolding unregister
cancel id s = record s { topics = unregister id (s.channels id).topics s.topics }

unfoldable pub close : Router → Router
close s = record s { topics = []; closed = true }

pub data Step : Type 0 where
  subscribes : List String → Step
  publishes : BusEvent → Step
  delivers : ℕ → Step
  receives : ℕ → Step
  cancels : ℕ → Step
  closes : Step

unfoldable pub step : Step → Router → Router
unfolding subscribe publish deliver recv cancel close
step (subscribes topics) s = subscribe topics s
step (publishes ev) s = publish ev s
step (delivers n) s = deliver n s
step (receives id) s = recv id s
step (cancels id) s = cancel id s
step closes s = close s

unfoldable pub after : List Step → Router → Router
after [] s = s
after (st ∷ sts) s = after sts (step st s)

abbrev pub new : Router
new = record { topics = []; closed = false; next_id = 0; channels = λ id. opened []; jobs = [] }
