-- ===== src/Board/Run/Cases.antt =====
-- One layer of `run_board`, case by case, and what its threads' results come to.
use gn_drive.Common.{
  ℕ, suc, ◌≡◌, ◌≢◌, refl, ◌⊎◌, inl, inr, String, Bool, true, false, Option, none, some, List, [],
  ◌∷◌, Dict, All, Bool-cases, Option-cases,
}
use gn_drive.Board.{
  BoardNode, BoardEdge, BoardEngineError, Result, ok, err, missing_node, cancelled,
}
use gn_drive.Board.Run.{
  World, Resolved, EdgeResult, no_result, edge_ok, edge_failed, SyncFailedError, edge_thread,
  resolve_edge, resolve, resolved_more, scan, or_first, run_layers, stops, started_before,
}

pub EdgeResult-cases :
    (x : EdgeResult)
    → (x ≡ no_result) ⊎ (x ≡ edge_ok) ⊎ ((e : SyncFailedError) × (x ≡ edge_failed e))
EdgeResult-cases no_result = inl refl
EdgeResult-cases edge_ok = inr (inl refl)
EdgeResult-cases (edge_failed e) = inr (inr (e, refl))

abbrev pub is_success : EdgeResult → Bool
is_success no_result = false
is_success edge_ok = true
is_success (edge_failed e) = false

abbrev pub thread_succeeds : World → Option Resolved → Bool
thread_succeeds w none = false
thread_succeeds w (some r) = is_success (edge_thread w r)

-- The nodes of the edge are on the board and its thread ended with success.
unfoldable pub is_done : World → Dict BoardNode → BoardEdge → Bool
unfolding edge_thread
is_done w m e = thread_succeeds w (resolve_edge m e)

module _ (w : World) (stop : Bool) where
  pub scan-cancelled :
      (rs : List Resolved) (first : Option String) {o : Option String}
      → scan w stop rs first true ≢ ok o
  unfolding scan
  scan-cancelled [] first h = cc
  scan-cancelled (r ∷ rs) first h = elim (EdgeResult-cases (edge_thread w r)) [
    | inl e ↦ scan-cancelled rs first (rw (scan, e) at h)
    | inr (inl e) ↦ scan-cancelled rs first (rw (scan, e) at h)
    | inr (inr (f, e)) ↦ elim (Bool-cases stop) [
      | inl s ↦ let k = rw (scan, e, s) at h in cc
      | inr s ↦ scan-cancelled rs (or_first first f.message) (rw (scan, e, s) at h)
    ]
  ]

  pub scan-some :
      (rs : List Resolved) (first : String) {o : Option String}
      → scan w stop rs (some first) false ≡ ok o
      → o ≢ none
  unfolding scan
  scan-some [] first h = λ e. cc
  scan-some (r ∷ rs) first h = elim (EdgeResult-cases (edge_thread w r)) [
    | inl e ↦ λ _. scan-cancelled rs (some first) (rw (scan, e) at h)
    | inr (inl e) ↦ scan-some rs first (rw (scan, e) at h)
    | inr (inr (f, e)) ↦ elim (Bool-cases stop) [
      | inl s ↦ λ _. let k = rw (scan, e, s) at h in cc
      | inr s ↦ scan-some rs first (rw (scan, e, s) at h)
    ]
  ]

  -- A layer without an error: every thread ended with success.
  pub scan-none :
      (rs : List Resolved)
      → scan w stop rs none false ≡ ok none
      → All (λ r. edge_thread w r ≡ edge_ok) rs
  unfolding scan
  scan-none [] h = tt
  scan-none (r ∷ rs) h = elim (EdgeResult-cases (edge_thread w r)) [
    | inl e ↦ absurd (scan-cancelled rs none (rw (scan, e) at h))
    | inr (inl e) ↦ (e, scan-none rs (rw (scan, e) at h))
    | inr (inr (f, e)) ↦ elim (Bool-cases stop) [
      | inl s ↦ let k = rw (scan, e, s) at h in cc
      | inr s ↦ absurd (scan-some rs f.message (rw (scan, e, s) at h) refl)
    ]
  ]

  pub resolve-missing :
      (m : Dict BoardNode) (es : List BoardEdge) {e : BoardEngineError}
      → resolve m es ≡ err e
      → (id : String) × (e ≡ missing_node id)
  unfolding resolve
  resolve-missing m [] h = cc
  resolve-missing m (x ∷ es) {e} h = elim (Option-cases (resolve_edge m x)) [
    | inl none_found ↦ let k = rw (resolve, none_found) at h in (x.id, cc)
    | inr (r, found) ↦
        below r (λ f k. resolve-missing m es k) (resolve m es) refl (rw (resolve, found) at h)
  ]
    where
      below :
          (r : Resolved)
          → ((f : BoardEngineError) → resolve m es ≡ err f → (id : String) × (f ≡ missing_node id))
          → (x : Result (List Resolved)) → resolve m es ≡ x
          → resolved_more r (resolve m es) ≡ err e
          → (id : String) × (e ≡ missing_node id)
      below r ih (ok rs) same k = let k' = rw same at k in cc
      below r ih (err f) same k = let (id, q) = ih f same in let k' = rw same at k in (id, cc)

  pub resolve-cons :
      (m : Dict BoardNode) (x : BoardEdge) (es : List BoardEdge) {rs : List Resolved}
      → resolve m (x ∷ es) ≡ ok rs
      → (r : Resolved) × (rest : List Resolved) × (resolve_edge m x ≡ some r)
        × (resolve m es ≡ ok rest)
        × (rs ≡ r ∷ rest)
  unfolding resolve
  resolve-cons m x es {rs} h = elim (Option-cases (resolve_edge m x)) [
    | inl gone ↦ let k = rw (resolve, gone) at h in cc
    | inr (r, found) ↦ below r found (resolve m es) refl (rw (resolve, found) at h)
  ]
    where
      below :
          (r : Resolved)
          → resolve_edge m x ≡ some r
          → (y : Result (List Resolved)) → resolve m es ≡ y
          → resolved_more r (resolve m es) ≡ ok rs
          → (r : Resolved) × (rest : List Resolved) × (resolve_edge m x ≡ some r)
            × (resolve m es ≡ ok rest)
            × (rs ≡ r ∷ rest)
      below r found (ok rest) same k = let k' = rw same at k in (r, rest, found, same, cc)
      below r found (err e) same k = let k' = rw same at k in cc

  -- What a layer does: it stops the run before a thread is started, or after its threads have
  -- ended, or the run goes on.
  pub data LayerCase (m : Dict BoardNode) (i : ℕ) (l : List BoardEdge) (ls : List (List BoardEdge))
      (first : Option String) : Type 0 where
    halted_by_token :
        w.cancelled_at_layer i ≡ true
        → run_layers w stop m i (l ∷ ls) first ≡ stops (err cancelled)
        → LayerCase m i l ls first
    not_resolved :
        (e : BoardEngineError)
        → resolve m l ≡ err e
        → run_layers w stop m i (l ∷ ls) first ≡ stops (err e)
        → LayerCase m i l ls first
    failing :
        (rs : List Resolved) (e : BoardEngineError)
        → resolve m l ≡ ok rs
        → scan w stop rs first false ≡ err e
        → run_layers w stop m i (l ∷ ls) first ≡ started_before l (stops (err e))
        → LayerCase m i l ls first
    going_on :
        (rs : List Resolved) (next : Option String)
        → resolve m l ≡ ok rs
        → scan w stop rs first false ≡ ok next
        → run_layers w stop m i (l ∷ ls) first
          ≡ started_before l (run_layers w stop m (suc i) ls next)
        → LayerCase m i l ls first

  pub layer_cases :
      (m : Dict BoardNode) (i : ℕ) (l : List BoardEdge) (ls : List (List BoardEdge))
      (first : Option String)
      → LayerCase m i l ls first
  unfolding run_layers
  layer_cases m i l ls first = elim (Bool-cases (w.cancelled_at_layer i)) [
    | inl c ↦ halted_by_token c (rw (run_layers, c) refl)
    | inr c ↦ resolved c (resolve m l) refl
  ]
    where
      scanned :
          (c : w.cancelled_at_layer i ≡ false) (rs : List Resolved)
          → resolve m l ≡ ok rs
          → (x : Result (Option String)) → scan w stop rs first false ≡ x
          → LayerCase m i l ls first
      scanned c rs r (ok next) e = going_on rs next r e (rw (run_layers, c, r, e) refl)
      scanned c rs r (err f) e = failing rs f r e (rw (run_layers, c, r, e) refl)

      resolved :
          (c : w.cancelled_at_layer i ≡ false) (x : Result (List Resolved))
          → resolve m l ≡ x
          → LayerCase m i l ls first
      resolved c (err f) e = not_resolved f e (rw (run_layers, c, e) refl)
      resolved c (ok rs) e = scanned c rs e (scan w stop rs first false) refl
