-- ===== src/Flow/Directions.antt =====
-- The direction of a flow's operation: crates/gn-drive-core/src/models.rs and flow_engine.rs.
use gn_drive.Common.{
  ◌≡◌, ◌≢◌, sym, ◌∙◌, refl, ◌⊎◌, inl, inr, true, false, Option, none, some, [], ◌∷◌, ◌==◌, lookup,
  arith, Bool-cases,
}
use gn_drive.Common.Text.{Text, codes, text_eq, text_beq, text_beq_iff, trim}
use gn_drive.Profile.Config.{Value, null, object, bool, number, array, string, is_empty}
use gn_drive.Flow.{FlowOperation, is_direction, normalize, configured_action, resolved_action}
use mathlib.Core.Path.{subst}

-- A direction of a flow.
abbrev pub IsDirection : Text → Type 0
IsDirection d = (d ≡ codes "push") ⊎ ((d ≡ codes "bi") ⊎ (d ≡ codes "bi-resync"))

-- The direction that a text gives: itself, trimmed, if it is one, and else push.
abbrev pub Chosen : Text → Text → Type 0
Chosen s d = ((trim s ≡ d) × IsDirection d) ⊎ ((d ≡ codes "push") × ¬ IsDirection (trim s))

-- The direction that the value of the key "action", if any, gives.
abbrev pub Configured : {Number : Type 0} → Option (Value Number) → Text → Type 0
Configured o d =
    ((a : Text) × (o ≡ some (string a)) × Chosen a d)
    ⊎ ((d ≡ codes "push") × ((a : Text) → o ≢ some (string a)))

-- The direction of an operation: its own action, or when this is blank its configuration's.
abbrev pub IsActionOf : {Number : Type 0} → FlowOperation Number → Text → Type 0
IsActionOf op d =
    ((trim op.action ≢ []) × Chosen op.action d)
    ⊎ ((trim op.action ≡ []) × Configured (lookup "action" op.sync_config) d)

is_direction-IsDirection : (d : Text) → is_direction d ≡ true → IsDirection d
unfolding is_direction
is_direction-IsDirection d h = elim (Bool-cases (d == codes "push")) [
  | inl e ↦ inl ((text_beq_iff d (codes "push")).0 e)
  | inr p ↦ elim (Bool-cases (d == codes "bi")) [
    | inl e ↦ inr (inl ((text_beq_iff d (codes "bi")).0 e))
    | inr b ↦
        let resync : (d == codes "bi-resync") ≡ true = ground arith in
        inr (inr ((text_beq_iff d (codes "bi-resync")).0 resync))
  ]
]

IsDirection-is_direction : (d : Text) → IsDirection d → is_direction d ≡ true
unfolding is_direction text_beq
IsDirection-is_direction d (inl e) = rw e refl
IsDirection-is_direction d (inr (inl e)) = rw e refl
IsDirection-is_direction d (inr (inr e)) = rw e refl

normalize-Chosen : (s : Text) → Chosen s (normalize s)
unfolding normalize
normalize-Chosen s = elim (Bool-cases (is_direction (trim s))) [
  | inl e ↦ rw e (inl (refl, is_direction-IsDirection (trim s) e))
  | inr e ↦ rw e (inr (refl, λ h. let k = sym (IsDirection-is_direction (trim s) h) ∙ e in cc))
]

Chosen-IsDirection : (s d : Text) → Chosen s d → IsDirection d
Chosen-IsDirection s d (inl (same, h)) = h
Chosen-IsDirection s d (inr (e, other)) = inl e

is_empty-nil : (s : Text) → is_empty s ≡ true → s ≡ []
is_empty-nil [] h = refl
is_empty-nil (c ∷ s) h = cc

is_empty-filled : (s : Text) → is_empty s ≡ false → s ≢ []
is_empty-filled [] h = cc
is_empty-filled (c ∷ s) h = λ e. cc

nil-IsDirection : ¬ IsDirection []
nil-IsDirection (inl e) = cc
nil-IsDirection (inr (inl e)) = cc
nil-IsDirection (inr (inr e)) = cc

configured_action-Configured :
    {Number : Type 0} (o : Option (Value Number)) → Configured o (configured_action o)
configured_action-Configured none = inr (refl, λ a e. cc)
configured_action-Configured (some null) = inr (refl, λ a e. cc)
configured_action-Configured (some object) = inr (refl, λ a e. cc)
configured_action-Configured (some (bool b)) = inr (refl, λ a e. cc)
configured_action-Configured (some (number n)) = inr (refl, λ a e. cc)
configured_action-Configured (some (array vs)) = inr (refl, λ a e. cc)
configured_action-Configured (some (string a)) = elim (Bool-cases (is_empty (trim a))) [
  | inl e ↦ inl (
    a,
    refl,
    rw e (
        inr (
          refl,
          λ h. nil-IsDirection (subst (λ (s : Text). IsDirection s) (is_empty-nil (trim a) e) h),
        )),
  )
  | inr e ↦ inl (a, refl, rw e (normalize-Chosen a))
]

Configured-IsDirection :
    {Number : Type 0} (o : Option (Value Number)) (d : Text) → Configured o d → IsDirection d
Configured-IsDirection o d (inl (a, same, h)) = Chosen-IsDirection a d h
Configured-IsDirection o d (inr (e, other)) = inl e

pub resolved_action-IsActionOf :
    {Number : Type 0} (op : FlowOperation Number) → IsActionOf op (resolved_action op)
unfolding resolved_action
resolved_action-IsActionOf op = elim (Bool-cases (is_empty (trim op.action))) [
  | inl e ↦ inr (
    is_empty-nil (trim op.action) e,
    rw e (configured_action-Configured (lookup "action" op.sync_config)),
  )
  | inr e ↦ inl (is_empty-filled (trim op.action) e, rw e (normalize-Chosen op.action))
]

pub IsActionOf-IsDirection :
    {Number : Type 0} (op : FlowOperation Number) (d : Text) → IsActionOf op d → IsDirection d
IsActionOf-IsDirection op d (inl (filled, h)) = Chosen-IsDirection op.action d h
IsActionOf-IsDirection op d (inr (blank, h)) =
    Configured-IsDirection (lookup "action" op.sync_config) d h
