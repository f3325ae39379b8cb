-- ===== src/Flow/Endpoints.antt =====
-- The endpoints of a flow's operation: crates/gn-drive-core/src/flow_engine.rs, `compose_path`.
use gn_drive.Common.{
  ℕ, ◌≡◌, ◌≢◌, sym, ◌∙◌, refl, ◌⊎◌, inl, inr, true, false, ◌||◌, [], ◌∷◌, ◌++◌, ◌==◌, arith,
  Bool-cases,
}
use gn_drive.Common.Text.{Text, codes, text_eq, text_beq_iff, trim}
use gn_drive.Profile.Config.{is_empty}
use gn_drive.Flow.{compose_path, or_root}

-- The endpoint of a trimmed remote and a trimmed path.
abbrev Endpoint : Text → Text → Text → Type 0
Endpoint r p e =
    (((r ≡ []) ⊎ (r ≡ codes "local")) × (((p ≡ []) × (e ≡ codes "/")) ⊎ ((p ≢ []) × (e ≡ p))))
    ⊎ ((r ≢ [])
        × (r ≢ codes "local")
        × ((((p ≡ []) ⊎ (p ≡ codes "/")) × (e ≡ r ++ codes ":"))
            ⊎ ((p ≢ []) × (p ≢ codes "/") × (e ≡ r ++ codes ":" ++ p))))

abbrev pub IsEndpoint : Text → Text → Text → Type 0
IsEndpoint remote path e = Endpoint (trim remote) (trim path) e

blank_or : (s t : Text) → (is_empty s || s == t) ≡ true → (s ≡ []) ⊎ (s ≡ t)
blank_or [] t h = inl refl
blank_or (c ∷ s) t h = inr ((text_beq_iff (c ∷ s) t).0 h)

neither : (s t : Text) → (is_empty s || s == t) ≡ false → (s ≢ []) × (s ≢ t)
neither [] t h = cc
neither (c ∷ s) t h = ((λ e. cc), λ e. let k = sym ((text_beq_iff (c ∷ s) t).1 e) ∙ h in cc)

or_root_cases : (p : Text) → ((p ≡ []) × (or_root p ≡ codes "/")) ⊎ ((p ≢ []) × (or_root p ≡ p))
or_root_cases [] = inl (refl, refl)
or_root_cases (c ∷ s) = inr ((λ e. cc), refl)

pub compose_path-IsEndpoint :
    (remote path : Text) → IsEndpoint remote path (compose_path remote path)
unfolding compose_path
compose_path-IsEndpoint remote path =
    elim (Bool-cases (is_empty (trim remote) || trim remote == codes "local")) [
      | inl e ↦ inl (blank_or (trim remote) (codes "local") e, rw e (or_root_cases (trim path)))
      | inr e ↦
          let (named, away) = neither (trim remote) (codes "local") e in
          elim (Bool-cases (is_empty (trim path) || trim path == codes "/")) [
            | inl k ↦ inr (named, away, inl (blank_or (trim path) (codes "/") k, rw (e, k) refl))
            | inr k ↦
                let (filled, below) = neither (trim path) (codes "/") k in
                inr (named, away, inr (filled, below, rw (e, k) refl))
          ]
    ]

or_root-filled : (s : Text) → is_empty (or_root s) ≡ false
or_root-filled [] = refl
or_root-filled (c ∷ s) = refl

append-filled : (s t : Text) (c : ℕ) → is_empty (s ++ c ∷ t) ≡ false
append-filled [] t c = refl
append-filled (a ∷ s) t c = refl

filled-append : (s t : Text) → is_empty s ≡ false → is_empty (s ++ t) ≡ false
filled-append [] t h = absurd (ground (arith, h))
filled-append (a ∷ s) t h = refl

pub compose_path-filled : (remote path : Text) → is_empty (compose_path remote path) ≡ false
unfolding compose_path
compose_path-filled remote path =
    elim (Bool-cases (is_empty (trim remote) || trim remote == codes "local")) [
      | inl e ↦ rw e (or_root-filled (trim path))
      | inr e ↦ elim (Bool-cases (is_empty (trim path) || trim path == codes "/")) [
        | inl k ↦ rw (e, k) (append-filled (trim remote) [] 58)
        | inr k ↦
            rw (e, k)
              (filled-append (trim remote ++ codes ":") (trim path)
                (append-filled (trim remote) [] 58))
      ]
    ]
