-- ===== src/Common/Text/Words.antt =====
-- Splitting at whitespace and joining with a space are inverse on words, and trimming is idempotent.
use mathlib.Core.List.{reverse, append-nil, append_assoc, reverse-append, reverse-reverse}
use mathlib.Core.Path.{◌≡◌, refl, sym, ap, ◌∙◌}
use mathlib.Core.Bool.{false}
use mathlib.Core.Logic.{inl, inr}
use mathlib.Core.List.{List, [], ◌∷◌, ◌++◌}
use Prim.Native.Nat.{ℕ}
use gn_drive.Common.Tests.{Bool-cases}
use gn_drive.Common.Lists.{All}
use gn_drive.Common.Text.{
  Text, is_whitespace, trim_start, trim, emit, words_from, split_whitespace, join,
}

abbrev pub NonSpace : Text → Type 0
NonSpace = All (λ c. is_whitespace c ≡ false)

abbrev pub IsWord : Text → Type 0
IsWord [] = ⊥
IsWord (c ∷ w) = NonSpace (c ∷ w)

NonSpace-append : (u w : Text) → NonSpace u → NonSpace w → NonSpace (u ++ w)
NonSpace-append [] w a b = b
NonSpace-append (c ∷ u) w a b = (a.0, NonSpace-append u w a.1 b)

emit-IsWord : (u : Text) (ws : List Text) → NonSpace u → All IsWord ws → All IsWord (emit u ws)
emit-IsWord [] ws a b = b
emit-IsWord (c ∷ u) ws a b = (a, b)

words_from-IsWord : (u s : Text) → NonSpace u → All IsWord (words_from u s)
unfolding words_from
words_from-IsWord u [] a = emit-IsWord u [] a tt
words_from-IsWord u (c ∷ s) a = elim (Bool-cases (is_whitespace c)) [
  | inl space ↦ rw space (emit-IsWord u (words_from [] s) a (words_from-IsWord [] s tt))
  | inr letter ↦
      rw letter (words_from-IsWord (u ++ c ∷ []) s (NonSpace-append u (c ∷ []) a (letter, tt)))
]

pub split_whitespace-IsWord : (s : Text) → All IsWord (split_whitespace s)
unfolding split_whitespace
split_whitespace-IsWord s = words_from-IsWord [] s tt

words_from-append :
    (u w rest : Text) → NonSpace w → words_from u (w ++ rest) ≡ words_from (u ++ w) rest
unfolding words_from
words_from-append u [] rest a = rw append-nil
words_from-append u (c ∷ w) rest a = rw a.0 (
    words_from-append (u ++ c ∷ []) w rest a.1
    ∙ ap (λ t. words_from t rest) (append_assoc u (c ∷ []) w))

emit_word : (w : Text) (ws : List Text) → IsWord w → emit w ws ≡ w ∷ ws
emit_word [] ws a = absurd a
emit_word (c ∷ w) ws a = refl

IsWord→NonSpace : (w : Text) → IsWord w → NonSpace w
IsWord→NonSpace [] a = absurd a
IsWord→NonSpace (c ∷ w) a = a

words_of_join : (ws : List Text) → All IsWord ws → words_from [] (join ws) ≡ ws
unfolding words_from join is_whitespace
words_of_join [] a = refl
words_of_join (w ∷ []) a =
    ap (words_from []) (sym (append-nil w))
    ∙ words_from-append [] w [] (IsWord→NonSpace w a.0)
    ∙ emit_word w [] a.0
words_of_join (w ∷ v ∷ ws) a =
    words_from-append [] w _ (IsWord→NonSpace w a.0)
    ∙ emit_word w _ a.0
    ∙ ap (◌∷◌ w) (words_of_join (v ∷ ws) a.1)

pub split_whitespace-join : (ws : List Text) → All IsWord ws → split_whitespace (join ws) ≡ ws
unfolding split_whitespace
split_whitespace-join ws a = words_of_join ws a

-- The first character is no whitespace.
abbrev pub FirstOk : Text → Type 0
FirstOk [] = Unit
FirstOk (c ∷ s) = is_whitespace c ≡ false

abbrev pub LastOk : Text → Type 0
LastOk [] = Unit
LastOk (c ∷ []) = is_whitespace c ≡ false
LastOk (c ∷ d ∷ s) = LastOk (d ∷ s)

trim_start_id : (s : Text) → FirstOk s → trim_start s ≡ s
unfolding trim_start
trim_start_id [] a = refl
trim_start_id (c ∷ s) a = rw a

reverse_cons : (c : ℕ) (s : Text) → reverse (c ∷ s) ≡ reverse s ++ c ∷ []
reverse_cons c s = reverse-append (c ∷ []) s

last_first :
    (c : ℕ) (s : Text)
    → LastOk (c ∷ s)
    → (d : ℕ) × (t : Text) × (reverse (c ∷ s) ≡ d ∷ t) × (is_whitespace d ≡ false)
last_first c [] a = (c, [], refl, a)
last_first c (e ∷ s) a =
    let (d, t, eq, ok) = last_first e s a in
    (d, t ++ c ∷ [], reverse_cons c (e ∷ s) ∙ ap (λ (x : Text). x ++ c ∷ []) eq, ok)

FirstOk-reverse : (s : Text) → LastOk s → FirstOk (reverse s)
FirstOk-reverse [] a = tt
FirstOk-reverse (c ∷ s) a = let (d, t, eq, ok) = last_first c s a in rw eq ok

pub trim_id : (s : Text) → FirstOk s → LastOk s → trim s ≡ s
unfolding trim
trim_id s a b =
    rw (trim_start_id s a, trim_start_id (reverse s) (FirstOk-reverse s b)) (reverse-reverse s)

LastOk-append : (s : Text) (c : ℕ) (t : Text) → LastOk (c ∷ t) → LastOk (s ++ c ∷ t)
LastOk-append [] c t a = a
LastOk-append (x ∷ []) c t a = a
LastOk-append (x ∷ y ∷ s) c t a = LastOk-append (y ∷ s) c t a

NonSpace→LastOk : (s : Text) → NonSpace s → LastOk s
NonSpace→LastOk [] a = tt
NonSpace→LastOk (c ∷ []) a = a.0
NonSpace→LastOk (c ∷ d ∷ s) a = NonSpace→LastOk (d ∷ s) a.1

pub join_shape :
    (w : Text) (ws : List Text)
    → All IsWord (w ∷ ws)
    → (c : ℕ) × (t : Text) × (join (w ∷ ws) ≡ c ∷ t) × (is_whitespace c ≡ false)
unfolding join
join_shape [] ws a = absurd a.0
join_shape (c ∷ w) [] a = (c, w, refl, a.0.0)
join_shape (c ∷ w) (v ∷ ws) a = (c, _, refl, a.0.0)

LastOk-space : (x c : ℕ) (s t : Text) → s ≡ c ∷ t → LastOk s → LastOk (x ∷ s)
LastOk-space x c [] t e a = cc
LastOk-space x c (d ∷ s) t e a = a

pub join-LastOk : (ws : List Text) → All IsWord ws → LastOk (join ws)
unfolding join
join-LastOk [] a = tt
join-LastOk (w ∷ []) a = NonSpace→LastOk w (IsWord→NonSpace w a.0)
join-LastOk (w ∷ v ∷ ws) a =
    let (c, t, eq, ok) = join_shape v ws a.1 in
    LastOk-append w b' ' (join (v ∷ ws))
      (LastOk-space b' ' c (join (v ∷ ws)) t eq (join-LastOk (v ∷ ws) a.1))

pub join-FirstOk : (ws : List Text) → All IsWord ws → FirstOk (join ws)
unfolding join
join-FirstOk [] a = tt
join-FirstOk (w ∷ ws) a = let (c, t, eq, ok) = join_shape w ws a in rw eq ok

trim_start-FirstOk : (s : Text) → FirstOk (trim_start s)
unfolding trim_start
trim_start-FirstOk [] = tt
trim_start-FirstOk (c ∷ s) = elim (Bool-cases (is_whitespace c)) [
  | inl space ↦ rw space (trim_start-FirstOk s)
  | inr letter ↦ rw letter letter
]

trim_start_suffix : (s : Text) → (p : Text) × (s ≡ p ++ trim_start s)
unfolding trim_start
trim_start_suffix [] = ([], refl)
trim_start_suffix (c ∷ s) = elim (Bool-cases (is_whitespace c)) [
  | inl space ↦ let (p, e) = trim_start_suffix s in (c ∷ p, rw space (ap (◌∷◌ c) e))
  | inr letter ↦ ([], rw letter)
]

FirstOk-prefix : (s t : Text) → FirstOk (s ++ t) → FirstOk s
FirstOk-prefix [] t a = tt
FirstOk-prefix (c ∷ s) t a = a

LastOk-reverse : (s : Text) → FirstOk s → LastOk (reverse s)
LastOk-reverse [] a = tt
LastOk-reverse (c ∷ s) a = rw reverse_cons (LastOk-append (reverse s) c [] a)

pub trim-LastOk : (s : Text) → LastOk (trim s)
unfolding trim
trim-LastOk s = LastOk-reverse _ (trim_start-FirstOk (reverse (trim_start s)))

pub trim-FirstOk : (s : Text) → FirstOk (trim s)
unfolding trim
trim-FirstOk s =
    let u = trim_start s in
    let v = trim_start (reverse u) in
    let (p, e) = trim_start_suffix (reverse u) in
    let parts : u ≡ reverse v ++ reverse p =
      sym (reverse-reverse u) ∙ ap reverse e ∙ reverse-append p v in
    FirstOk-prefix (reverse v) (reverse p) (rw parts at (trim_start-FirstOk s))

-- The word that is being read keeps its first character.
words_from_first :
    (c : ℕ) (u s : Text) → (w : Text) × (ws : List Text) × (words_from (c ∷ u) s ≡ (c ∷ w) ∷ ws)
unfolding words_from
words_from_first c u [] = (u, [], refl)
words_from_first c u (d ∷ s) = elim (Bool-cases (is_whitespace d)) [
  | inl space ↦ (u, words_from [] s, rw space)
  | inr letter ↦ let (w, ws, e) = words_from_first c (u ++ d ∷ []) s in (w, ws, rw letter e)
]

pub split_whitespace_first :
    (c : ℕ) (s : Text)
    → is_whitespace c ≡ false
    → (w : Text) × (ws : List Text) × (split_whitespace (c ∷ s) ≡ (c ∷ w) ∷ ws)
unfolding split_whitespace words_from
split_whitespace_first c s letter = let (w, ws, e) = words_from_first c [] s in (w, ws, rw letter e)

pub join_first : (c : ℕ) (w : Text) (ws : List Text) → (t : Text) × (join ((c ∷ w) ∷ ws) ≡ c ∷ t)
unfolding join
join_first c w [] = (w, refl)
join_first c w (v ∷ ws) = (_, refl)
