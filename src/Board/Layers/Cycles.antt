-- ===== src/Board/Layers/Cycles.antt =====
-- `topo_layers` refuses a board exactly when it has a cycle.
use gn_drive.Common.{
  ℕ, zero, suc, ◌+◌, ◌≤◌, ◌<◌, ◌≡◌, ◌≢◌, refl, sym, ap, ◌∙◌, String, Bool, true, false, not, List,
  [], ◌∷◌, ◌++◌, ◌==◌, nat_eq, string_eq, eq_iff, arith, Bool-cases, inl, inr, length,
}
use mathlib.Core.Bool.{Bool-set}
use mathlib.Core.Logic.Or
use mathlib.Core.List.{
  Mem, Subset, flatten, mem-cons, mem-append, not-mem-nil, mem-cons_self, mem-cons_of_mem,
  mem-append_right, Mem-prop, Perm, perm_append_comm, append_assoc, append-nil,
}
use mathlib.Core.Path.{subst}
use mathlib.Core.List.Perm
use native.Mathlib.Bridge.{le_prop}
use gn_drive.Board.{BoardNode, BoardEdge, BoardEngineError, Result, ok, err, failed, cycle_detected}
use gn_drive.Board.Layers.{select, sorted, push_layer, topo_layers}
use gn_drive.Board.Layers.Counts.{edges_into, select-perm}
use gn_drive.Board.Layers.Rounds.{is_free, free, held, counted_layers, topo_layers-counted}
use gn_drive.Board.Layers.Order.{IsSchedule, mem-select, topo_layers-perm, topo_layers-IsSchedule}

-- Into the source of each edge of the set leads an edge of the set: it holds a cycle.
pub record IsBlocked (edges stuck : List BoardEdge) : Type 0 where
  pub some_edge : stuck ≢ []
  pub drawn : Subset stuck edges
  pub fed : (e : BoardEdge) → Mem e stuck → 0 < edges_into e.source_id stuck

pub edges_into-mem :
    (x : String) (es : List BoardEdge) {e : BoardEdge}
    → Mem e es
    → e.target_id ≡ x
    → 0 < edges_into x es
unfolding edges_into
edges_into-mem x [] m t = absurd (not-mem-nil m)
edges_into-mem x (f ∷ es) {e} m t =
    Or.elim le_prop (mem-cons.0 m)
      (λ same.
        let hit : f.target_id ≡ x = sym (ap (λ (y : BoardEdge). y.target_id) same) ∙ t in
        let test : (f.target_id == x) ≡ true = (eq_iff f.target_id x).1 hit in
        rw test (omega arith))
      (λ later. let more = edges_into-mem x es later t in ground arith)

edges_into-subset :
    (x : String) (es fs : List BoardEdge) → Subset es fs → 0 < edges_into x es → 0 < edges_into x fs
unfolding edges_into
edges_into-subset x [] fs sub h = absurd (omega arith)
edges_into-subset x (e ∷ es) fs sub h = elim (Bool-cases (e.target_id == x)) [
  | inl hit ↦ edges_into-mem x fs (sub e mem-cons_self) ((eq_iff e.target_id x).0 hit)
  | inr miss ↦ edges_into-subset x es fs (λ f m. sub f (mem-cons_of_mem e m)) (rw miss at h)
]

-- A schedule holds no blocked set: it would have to start in some layer.
not_in_schedule :
    (ls : List (List BoardEdge))
    → IsSchedule ls
    → (stuck : List BoardEdge) → IsBlocked (flatten ls) stuck
    → ⊥
unfolding flatten
not_in_schedule [] sched [] blocked = blocked.some_edge refl
not_in_schedule [] sched (e ∷ es) blocked = not-mem-nil (blocked.drawn e mem-cons_self)
not_in_schedule (l ∷ ls) (sources, _, _, rest) stuck blocked =
    not_in_schedule ls rest stuck (record {
      some_edge = blocked.some_edge;
      fed = blocked.fed;
      drawn = λ e m.
          Or.elim (Mem-prop) (mem-append.0 (blocked.drawn e m))
            (λ (here : Mem e l). absurd (
              omega (
                arith,
                sources e here,
                edges_into-subset e.source_id stuck (l ++ flatten ls) blocked.drawn
                    (blocked.fed e m),
              )))
            (λ later. later);
    })

-- A board whose edges are ordered into layers has no cycle.
pub topo_layers_ok-acyclic :
    (nodes : List BoardNode) (edges stuck : List BoardEdge) {ls : List (List BoardEdge)}
    → topo_layers nodes edges ≡ ok ls
    → ¬ IsBlocked edges stuck
topo_layers_ok-acyclic nodes edges stuck {ls} h blocked =
    not_in_schedule ls (topo_layers-IsSchedule nodes edges h) stuck (record {
      some_edge = blocked.some_edge;
      fed = blocked.fed;
      drawn = λ e m. Perm.subset (Perm.symm (topo_layers-perm nodes edges h)) e (blocked.drawn e m);
    })

select_empty :
    (p : BoardEdge → Bool) (xs : List BoardEdge) {e : BoardEdge}
    → select p xs ≡ []
    → Mem e xs
    → p e ≡ false
unfolding select
select_empty p [] h m = absurd (not-mem-nil m)
select_empty p (x ∷ xs) h m = elim (Bool-cases (p x)) [
  | inl chosen ↦ absurd (let bad = rw chosen at h in cc)
  | inr left_out ↦
      Or.elim (Bool-set _ _) (mem-cons.0 m) (λ same. ap p same ∙ left_out)
        (select_empty p xs (rw left_out at h))
]

length-select :
    (p : BoardEdge → Bool) (xs : List BoardEdge)
    → length (select p xs) + length (select (λ x. not (p x)) xs) ≡ length xs
unfolding select
length-select p [] = omega arith
length-select p (x ∷ xs) = ground (arith, length-select p xs)

held-subset : (pending : List BoardEdge) → Subset (held pending) pending
held-subset pending e m =
    Perm.subset (select-perm (is_free pending) pending) e (mem-append_right (free pending) m)

-- The edges are those that wait for each other and the rest, and no edge of the rest lies in any
-- blocked set.
pub record IsCore (edges stuck rest : List BoardEdge) : Type 0 where
  pub blocked : IsBlocked edges stuck
  pub split : Perm (stuck ++ rest) edges
  pub largest :
      (other : List BoardEdge)
      → IsBlocked edges other
      → (e : BoardEdge) → Mem e other
      → ¬ Mem e rest

-- What a failed run says of the pending edges.
abbrev Stuck : List BoardEdge → BoardEngineError → Type 0
Stuck pending x =
    (stuck : List BoardEdge) × (rest : List BoardEdge) × IsCore pending stuck rest
    × (x ≡ failed (cycle_detected (length stuck)))

all_stuck : (e : BoardEdge) (es : List BoardEdge) → free (e ∷ es) ≡ [] → IsBlocked (e ∷ es) (e ∷ es)
all_stuck e es none_free = record {
  some_edge = λ h. cc;
  drawn = λ f m. m;
  fed = λ f m.
      let held_up : is_free (e ∷ es) f ≡ false =
        select_empty (is_free (e ∷ es)) (e ∷ es) none_free m in
      ground arith;
}

all-IsCore :
    (e : BoardEdge) (es : List BoardEdge) → free (e ∷ es) ≡ [] → IsCore (e ∷ es) (e ∷ es) []
all-IsCore e es none_free = record {
  blocked = all_stuck e es none_free;
  split =
      subst (λ (xs : List BoardEdge). Perm xs (e ∷ es)) (sym (append-nil (e ∷ es))) (Perm.refl _);
  largest = λ other blocked f m. not-mem-nil;
}

-- No edge of a blocked set is free.
IsBlocked-free :
    (pending other : List BoardEdge) (e : BoardEdge)
    → IsBlocked pending other
    → Mem e other
    → ¬ Mem e (free pending)
IsBlocked-free pending other e blocked m here =
    let chosen : is_free pending e ≡ true = mem-select (is_free pending) pending here in
    let fed = edges_into-subset e.source_id other pending blocked.drawn (blocked.fed e m) in
    ground arith

IsBlocked-held :
    (pending other : List BoardEdge) → IsBlocked pending other → IsBlocked (held pending) other
IsBlocked-held pending other blocked = record {
  some_edge = blocked.some_edge;
  fed = blocked.fed;
  drawn = λ e m.
      let here : Mem e (free pending ++ held pending) =
        Perm.subset (Perm.symm (select-perm (is_free pending) pending)) e (blocked.drawn e m) in
      Or.elim (Mem-prop) (mem-append.0 here)
        (λ (first : Mem e (free pending)). absurd (IsBlocked-free pending other e blocked m first))
        (λ later. later);
}

wider-split :
    (pending stuck rest : List BoardEdge)
    → Perm (stuck ++ rest) (held pending)
    → Perm (stuck ++ (rest ++ free pending)) pending
wider-split pending stuck rest h =
    subst (λ (xs : List BoardEdge). Perm xs pending) (append_assoc stuck rest (free pending))
      (Perm.trans (Perm.append_right (free pending) h) (
        Perm.trans (perm_append_comm (held pending) (free pending))
          (select-perm (is_free pending) pending)))

wider : (pending : List BoardEdge) (x : BoardEngineError) → Stuck (held pending) x → Stuck pending x
wider pending x (stuck, rest, core, same) = (
  stuck,
  rest ++ free pending,
  record {
    blocked = record {
      some_edge = core.blocked.some_edge;
      drawn = λ e m. held-subset pending e (core.blocked.drawn e m);
      fed = core.blocked.fed;
    };
    split = wider-split pending stuck rest core.split;
    largest = λ other blocked e m here.
        Or.elim (λ a b. absurd a) (mem-append.0 here)
          (core.largest other (IsBlocked-held pending other blocked) e m)
          (IsBlocked-free pending other e blocked m);
  },
  same,
)

pushed_err :
    (layer : List BoardEdge) (r : Result (List (List BoardEdge))) {x : BoardEngineError}
    → push_layer layer r ≡ err x
    → r ≡ err x
pushed_err layer (ok rest) h = cc
pushed_err layer (err y) h = h

counted_layers-Stuck :
    (fuel : ℕ) (pending : List BoardEdge) (x : BoardEngineError)
    → length pending ≤ fuel
    → counted_layers fuel pending ≡ err x
    → Stuck pending x
unfolding counted_layers
counted_layers-Stuck zero [] x enough h = cc
counted_layers-Stuck zero (e ∷ es) x enough h = absurd (omega arith)
counted_layers-Stuck (suc fuel) [] x enough h = cc
counted_layers-Stuck (suc fuel) (e ∷ es) x enough h =
    round (free (e ∷ es)) refl (λ shorter. counted_layers-Stuck fuel (held (e ∷ es)) x shorter) h
  where
    round :
        (f : List BoardEdge)
        → free (e ∷ es) ≡ f
        → (length (held (e ∷ es)) ≤ fuel
            → counted_layers fuel (held (e ∷ es)) ≡ err x
            → Stuck (held (e ∷ es)) x)
        → elim f [
          | [] ↦ err (failed (cycle_detected (length (e ∷ es))))
          | r ∷ rs ↦ push_layer (sorted (r ∷ rs)) (counted_layers fuel (held (e ∷ es)))
        ]
          ≡ err x
        → Stuck (e ∷ es) x
    round [] same ih k = (e ∷ es, [], all-IsCore e es same, cc)
    round (r ∷ rs) same ih k = wider (e ∷ es) x (
        ih (omega (arith, length-select (is_free (e ∷ es)) (e ∷ es), ap length same))
          (pushed_err (sorted (r ∷ rs)) (counted_layers fuel (held (e ∷ es))) k))

-- When a board is refused, its edges are, as a permutation, some that each wait for another of
-- them and the rest, no edge of which lies in a set of edges that wait for each other; and the
-- number of the first is the one reported: a refusal is never due to the bound on the number of
-- rounds.
pub topo_layers_err-Stuck :
    (nodes : List BoardNode) (edges : List BoardEdge) {x : BoardEngineError}
    → topo_layers nodes edges ≡ err x
    → (stuck : List BoardEdge) × (rest : List BoardEdge) × IsCore edges stuck rest
      × (x ≡ failed (cycle_detected (length stuck)))
topo_layers_err-Stuck nodes edges {x} h =
    counted_layers-Stuck (length edges) edges x (omega arith)
      (sym (topo_layers-counted nodes edges) ∙ h)
