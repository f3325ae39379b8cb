-- ===== src/Bus/Router/Topics.antt =====
-- A subscriber is sent only events of the topics that it asked for.
use mathlib.Core.Path.{subst}
use gn_drive.Common.{
  ℕ, zero, suc, ◌+◌, ◌≤◌, ◌<◌, ◌≡◌, refl, ap, ◌∙◌, inl, inr, String, Bool, true, false, Option,
  none, some, List, [], ◌∷◌, ◌++◌, Dict, lookup, insert, lookup-insert, ◌==◌, nat_eq, string_eq,
  eq_iff, any, All, All-map, All-append, All-get_elem?, get_elem?, if◌then◌else◌, arith, Bool-cases,
  eqb_iff,
}
use gn_drive.Bus.{BusEvent, topic}
use gn_drive.Bus.Router.{
  Channel, Job, Router, update, opened, or_empty, register, retain_others, retained_in, unregister,
  set_job, deliver_next, deliver_job, take_first, received_into, subscribe, publish, Step,
  subscribes, publishes, delivers, receives, cancels, closes, step, send,
}

abbrev pub has_topic : String → List String → Bool
has_topic t topics = any (λ (u : String). u == t) topics

-- The channel is open, and its subscriber asked for the topic.
abbrev pub Listens : ℕ → (ℕ → Channel) → String → ℕ → Type 0
Listens n channels t id = (id < n) × (has_topic t (channels id).topics ≡ true)

abbrev pub IsRegistry : ℕ → (ℕ → Channel) → Dict (List ℕ) → Type 0
IsRegistry n channels reg = (t : String) → All (Listens n channels t) (or_empty (lookup t reg))

abbrev pub AreJobs : ℕ → (ℕ → Channel) → List Job → Type 0
AreJobs n channels jobs = All (λ (j : Job). All (Listens n channels (topic j.event)) j.targets) jobs

pub record IsWellRouted (s : Router) : Type 0 where
  pub registry : IsRegistry s.next_id s.channels s.topics
  pub jobs : AreJobs s.next_id s.channels s.jobs

-- More channels may be open later, and an open channel keeps its topics.
pub record Grows (n n' : ℕ) (ch ch' : ℕ → Channel) : Type 0 where
  pub more : n ≤ n'
  pub kept : (id : ℕ) → id < n → (ch' id).topics ≡ (ch id).topics

module _ {n n' : ℕ} {ch ch' : ℕ → Channel} (g : Grows n n' ch ch') where
  Listens-grows : (t : String) (id : ℕ) → Listens n ch t id → Listens n' ch' t id
  Listens-grows t id (known, hears) =
      (omega (arith, g.more), ap (has_topic t) (g.kept id known) ∙ hears)

  IsRegistry-grows : (reg : Dict (List ℕ)) → IsRegistry n ch reg → IsRegistry n' ch' reg
  IsRegistry-grows reg h t = All-map (or_empty (lookup t reg)) (Listens-grows t) (h t)

  jobs-grows : (jobs : List Job) → AreJobs n ch jobs → AreJobs n' ch' jobs
  jobs-grows jobs h = All-map jobs (λ j k. All-map j.targets (Listens-grows (topic j.event)) k) h

pub same_channels : (n : ℕ) (ch : ℕ → Channel) → Grows n n ch ch
same_channels n ch = record { more = omega arith; kept = λ id known. refl }

pub requeued :
    (n id : ℕ) (queue : List BusEvent) (ch : ℕ → Channel) → Grows n n ch (received_into id queue ch)
requeued n id queue ch = record {
  more = omega arith;
  kept = λ j known. elim (Bool-cases (id == j)) [
    | inl same ↦ rw (same, (eqb_iff id j).0 same) refl
    | inr other ↦ rw other refl
  ];
}

pub opened_later :
    (n : ℕ) (topics : List String) (ch : ℕ → Channel)
    → Grows n (n + 1) ch (update ch n (opened topics))
opened_later n topics ch = record {
  more = omega arith;
  kept = λ j known. let other : (n == j) ≡ false = ground arith in rw other refl;
}

module _ (n : ℕ) (ch : ℕ → Channel) where
  IsRegistry-insert :
      (t : String) (ids : List ℕ) (reg : Dict (List ℕ))
      → IsRegistry n ch reg
      → All (Listens n ch t) ids
      → IsRegistry n ch (insert t ids reg)
  IsRegistry-insert t ids reg h own u = elim (Bool-cases (t == u)) [
    | inl same ↦
        rw (lookup-insert t u ids reg, same)
          (subst (λ (v : String). All (Listens n ch v) ids) ((eq_iff t u).0 same) own)
    | inr other ↦ rw (lookup-insert t u ids reg, other) (h u)
  ]

  register-IsRegistry :
      (id : ℕ) (ts : List String) (reg : Dict (List ℕ))
      → IsRegistry n ch reg
      → All (λ (t : String). Listens n ch t id) ts
      → IsRegistry n ch (register id ts reg)
  unfolding register
  register-IsRegistry id [] reg h hears = h
  register-IsRegistry id (t ∷ ts) reg h hears =
      register-IsRegistry id ts (insert t (or_empty (lookup t reg) ++ id ∷ []) reg)
        (IsRegistry-insert t (or_empty (lookup t reg) ++ id ∷ []) reg h
          (All-append (Listens n ch t) (or_empty (lookup t reg)) (id ∷ []) (h t) (hears.0, tt)))
        hears.1

  retain_others-All :
      (t : String) (id : ℕ) (ids : List ℕ)
      → All (Listens n ch t) ids
      → All (Listens n ch t) (retain_others id ids)
  unfolding retain_others
  retain_others-All t id [] h = tt
  retain_others-All t id (x ∷ xs) h = elim (Bool-cases (x == id)) [
    | inl same ↦ rw (retain_others, same) (retain_others-All t id xs h.1)
    | inr other ↦ rw (retain_others, other) (h.0, retain_others-All t id xs h.1)
  ]

  retained_in-IsRegistry :
      (id : ℕ) (t : String) (found : Option (List ℕ)) (reg : Dict (List ℕ))
      → IsRegistry n ch reg
      → All (Listens n ch t) (or_empty found)
      → IsRegistry n ch (retained_in id t found reg)
  retained_in-IsRegistry id t none reg h own = h
  retained_in-IsRegistry id t (some ids) reg h own =
      IsRegistry-insert t (retain_others id ids) reg h (retain_others-All t id ids own)

  unregister-IsRegistry :
      (id : ℕ) (ts : List String) (reg : Dict (List ℕ))
      → IsRegistry n ch reg
      → IsRegistry n ch (unregister id ts reg)
  unfolding unregister
  unregister-IsRegistry id [] reg h = h
  unregister-IsRegistry id (t ∷ ts) reg h =
      unregister-IsRegistry id ts (retained_in id t (lookup t reg) reg)
        (retained_in-IsRegistry id t (lookup t reg) reg h (h t))

  set_job-AreJobs :
      (k : ℕ) (j : Job) (jobs : List Job)
      → AreJobs n ch jobs
      → All (Listens n ch (topic j.event)) j.targets
      → AreJobs n ch (set_job k j jobs)
  unfolding set_job
  set_job-AreJobs k j [] h own = tt
  set_job-AreJobs zero j (x ∷ xs) h own = (own, h.1)
  set_job-AreJobs (suc k) j (x ∷ xs) h own = (h.0, set_job-AreJobs k j xs h.1 own)

deliver_next-IsWellRouted :
    (n : ℕ) (ev : BusEvent) (targets : List ℕ) (s : Router)
    → IsWellRouted s
    → All (Listens s.next_id s.channels (topic ev)) targets
    → IsWellRouted (deliver_next n ev targets s)
deliver_next-IsWellRouted n ev [] s h own = h
deliver_next-IsWellRouted n ev (id ∷ rest) s h own =
    let g = requeued s.next_id id (send ev (s.channels id).queue) s.channels in
    record {
      registry = IsRegistry-grows g s.topics h.registry;
      jobs = jobs-grows g (set_job n (record { event = ev; targets = rest }) s.jobs) (
          set_job-AreJobs s.next_id s.channels n (record { event = ev; targets = rest }) s.jobs
            h.jobs own.1);
    }

take_first-IsWellRouted :
    (id : ℕ) (queue : List BusEvent) (s : Router)
    → IsWellRouted s
    → IsWellRouted (take_first id queue s)
take_first-IsWellRouted id [] s h = h
take_first-IsWellRouted id (ev ∷ queue) s h =
    let g = requeued s.next_id id queue s.channels in
    record { registry = IsRegistry-grows g s.topics h.registry; jobs = jobs-grows g s.jobs h.jobs }

deliver_job-IsWellRouted :
    (n : ℕ) (j : Option Job) (s : Router)
    → get_elem? s.jobs n ≡ j
    → IsWellRouted s
    → IsWellRouted (deliver_job n j s)
deliver_job-IsWellRouted n none s e h = h
deliver_job-IsWellRouted n (some j) s e h = deliver_next-IsWellRouted n j.event j.targets s h (
    All-get_elem? (λ (j : Job). All (Listens s.next_id s.channels (topic j.event)) j.targets) s.jobs
      n j h.jobs e)

publish-IsWellRouted : (ev : BusEvent) (s : Router) → IsWellRouted s → IsWellRouted (publish ev s)
unfolding publish
publish-IsWellRouted ev s h = go s.closed
  where
    go :
        (shut : Bool)
        → IsWellRouted (
            if shut then s else record s {
              jobs =
                  s.jobs
                  ++ record { event = ev; targets = or_empty (lookup (topic ev) s.topics) } ∷ [];
            })
    go true = h
    go false = record {
      registry = h.registry;
      jobs =
          All-append (λ (j : Job). All (Listens s.next_id s.channels (topic j.event)) j.targets)
            s.jobs _ h.jobs (h.registry (topic ev), tt);
    }

has_topic_self : (ts : List String) → All (λ (t : String). has_topic t ts ≡ true) ts
has_topic_self [] = tt
has_topic_self (u ∷ ts) = (
  ground (arith, eq_iff u u),
  All-map ts (λ (t : String) (e : has_topic t ts ≡ true). later t e) (has_topic_self ts),
)
  where
    later : (t : String) → has_topic t ts ≡ true → has_topic t (u ∷ ts) ≡ true
    later t e = ground arith

subscribe-IsWellRouted :
    (topics : List String) (s : Router) → IsWellRouted s → IsWellRouted (subscribe topics s)
unfolding subscribe
subscribe-IsWellRouted topics s h = record {
  registry = go s.closed;
  jobs = jobs-grows g s.jobs h.jobs;
}
  where
    g : Grows s.next_id (s.next_id + 1) s.channels (update s.channels s.next_id (opened topics))
    g = opened_later s.next_id topics s.channels

    hears :
        (t : String)
        → has_topic t topics ≡ true
        → Listens (s.next_id + 1) (update s.channels s.next_id (opened topics)) t s.next_id
    hears t e = let own : (s.next_id == s.next_id) ≡ true = ground arith in (omega arith, rw own e)

    go :
        (shut : Bool)
        → IsRegistry
            (s.next_id + 1)
            (update s.channels s.next_id (opened topics))
            (if shut then s.topics else register s.next_id topics s.topics)
    go true = IsRegistry-grows g s.topics h.registry
    go false =
        register-IsRegistry (s.next_id + 1) (update s.channels s.next_id (opened topics)) s.next_id
          topics s.topics (IsRegistry-grows g s.topics h.registry)
          (All-map topics hears (has_topic_self topics))

pub step-IsWellRouted : (st : Step) (s : Router) → IsWellRouted s → IsWellRouted (step st s)
unfolding step lookup
step-IsWellRouted (subscribes topics) s h = subscribe-IsWellRouted topics s h
step-IsWellRouted (publishes ev) s h = publish-IsWellRouted ev s h
step-IsWellRouted (delivers n) s h = deliver_job-IsWellRouted n (get_elem? s.jobs n) s refl h
step-IsWellRouted (receives id) s h = take_first-IsWellRouted id (s.channels id).queue s h
step-IsWellRouted (cancels id) s h = record {
  registry =
      unregister-IsRegistry s.next_id s.channels id (s.channels id).topics s.topics h.registry;
  jobs = h.jobs;
}
step-IsWellRouted closes s h = record { registry = λ t. tt; jobs = h.jobs }
