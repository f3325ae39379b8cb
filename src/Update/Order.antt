-- ===== src/Update/Order.antt =====
-- `is_newer` is a strict order.
use gn_drive.Common.{
  ℕ, zero, suc, ◌+◌, ◌-◌, ◌≤◌, max, ◌≡◌, refl, sym, ap, ◌∙◌, true, false, List, [], ◌∷◌, nat_eq,
  length, arith,
}
use gn_drive.Common.Text.{Text}
use gn_drive.Update.{part_at, parts, newer_from, is_newer}

past_end : (a : List ℕ) (j : ℕ) → length a ≤ j → part_at a j ≡ 0
unfolding part_at
past_end [] j h = refl
past_end (x ∷ a) zero h = absurd (omega arith)
past_end (x ∷ a) (suc j) h = past_end a j (omega arith)

equal_not_newer :
    (n i : ℕ) (a b : List ℕ)
    → ((j : ℕ) → i ≤ j → part_at a j ≡ part_at b j)
    → newer_from n i a b ≡ false
unfolding newer_from
equal_not_newer zero i a b h = refl
equal_not_newer (suc n) i a b h =
    let rest = equal_not_newer n (suc i) a b (λ j k. h j (omega arith)) in
    ground (arith, rest, h i (omega arith))

newer_more :
    (n k i : ℕ) (a b : List ℕ)
    → ((j : ℕ) → i + n ≤ j → part_at a j ≡ part_at b j)
    → newer_from (n + k) i a b ≡ newer_from n i a b
unfolding newer_from
newer_more zero k i a b h =
    let none_left : 0 + k ≡ k = omega arith in
    rw none_left (equal_not_newer k i a b (λ j l. h j (omega arith)))
newer_more (suc n) k i a b h =
    let grown : suc n + k ≡ suc (n + k) = omega arith in
    rw (grown, newer_more n k (suc i) a b (λ j l. h j (omega arith))) refl

newer_asym : (n i : ℕ) (a b : List ℕ) → newer_from n i a b ≡ true → newer_from n i b a ≡ false
unfolding newer_from
newer_asym zero i a b h = refl
newer_asym (suc n) i a b h = ground (arith, newer_asym n (suc i) a b)

newer_trans :
    (n i : ℕ) (a b c : List ℕ)
    → newer_from n i a b ≡ true
    → newer_from n i b c ≡ true
    → newer_from n i a c ≡ true
unfolding newer_from
newer_trans zero i a b c h k = h
newer_trans (suc n) i a b c h k = ground (arith, newer_trans n (suc i) a b c)

abbrev span : List ℕ → List ℕ → ℕ
span a b = max (length a) (length b)

at_span : (m : ℕ) (a b : List ℕ) → span a b ≤ m → newer_from m 0 a b ≡ newer_from (span a b) 0 a b
at_span m a b h =
    let exact : span a b + (m - span a b) ≡ m = omega arith in
    ap (λ (n : ℕ). newer_from n 0 a b) (sym exact)
    ∙ newer_more (span a b) (m - span a b) 0 a b
        (λ j l. past_end a j (omega arith) ∙ sym (past_end b j (omega arith)))

-- For any texts, when the first version is newer than the second, the second is not newer than the
-- first.
pub is_newer_asym : (v w : Text) → is_newer v w ≡ true → is_newer w v ≡ false
unfolding is_newer
is_newer_asym v w h =
    let turned : span (parts w) (parts v) ≡ span (parts v) (parts w) = omega arith in
    rw turned (newer_asym (span (parts v) (parts w)) 0 (parts v) (parts w) h)

-- For any texts, when the first version is newer than the second and the second newer than the
-- third, the first is newer than the third and the third not newer than the first.
pub is_newer_trans :
    (u v w : Text)
    → is_newer u v ≡ true
    → is_newer v w ≡ true
    → (is_newer u w ≡ true) × (is_newer w u ≡ false)
unfolding is_newer
is_newer_trans u v w h k =
    let m = length (parts u) + length (parts v) + length (parts w) in
    let first = at_span m (parts u) (parts v) (omega arith) in
    let second = at_span m (parts v) (parts w) (omega arith) in
    let both = newer_trans m 0 (parts u) (parts v) (parts w) (first ∙ h) (second ∙ k) in
    let newer = sym (at_span m (parts u) (parts w) (omega arith)) ∙ both in
    (newer, is_newer_asym u w newer)
