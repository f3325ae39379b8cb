-- ===== src/Rclone/Sources.antt =====
-- The values that a `sync_config` has for a setting, said without the readers of the source.
use gn_drive.Common.{
  String, ◌≡◌, ◌≢◌, refl, sym, ap, ◌∙◌, ◌⊎◌, inl, inr, Bool, Option, none, some, List, [], ◌∷◌,
  lookup, Option-cases, Bool-cases, false,
}
use gn_drive.Common.Text.{Text}
use gn_drive.Common.Text.Decimal.{ℤ, parse_i64}
use gn_drive.Profile.{Numerics}
use gn_drive.Profile.Config.{
  Value, JsonDict, null, object, bool, number, array, string, found, find_map, is_empty, trim_ws,
  as_bool, as_int, as_text, bool_v, int_v, string_v,
}

module _ {Number A : Type 0} where
  -- The first of the keys whose value means something decides; what no key has is missing.
  abbrev pub FirstOf :
      (Value Number → A → Type 0) → JsonDict Number → List String → Option A → Type 0
  FirstOf Means m [] o = o ≡ none
  FirstOf Means m (k ∷ ks) o =
      ((v : Value Number) × (a : A) × (lookup k m ≡ some v) × Means v a × (o ≡ some a))
      ⊎ (((v : Value Number) (a : A) → ¬ ((lookup k m ≡ some v) × Means v a))
          × FirstOf Means m ks o)

  module _ (read : Value Number → Option A) (Means : Value Number → A → Type 0)
      (sound : (v : Value Number) (a : A) → read v ≡ some a → Means v a)
      (complete : (v : Value Number) (a : A) → Means v a → read v ≡ some a) where
    find_map-FirstOf :
        (m : JsonDict Number) (keys : List String) → FirstOf Means m keys (find_map read m keys)
    unfolding find_map
    find_map-FirstOf m [] = refl
    find_map-FirstOf m (k ∷ ks) = elim (Option-cases (found read (lookup k m))) [
      | inl miss ↦ inr (
        λ v a (here, means).
            let hit : found read (lookup k m) ≡ some a =
              ap (found read) here ∙ complete v a means in
            let bad = sym miss ∙ hit in cc,
        rw miss (find_map-FirstOf m ks),
      )
      | inr (a, hit) ↦ elim (Option-cases (lookup k m)) [
        | inl gone ↦ let bad = sym (ap (found read) gone) ∙ hit in cc
        | inr (v, here) ↦
            inl (v, a, here, sound v a (sym (ap (found read) here) ∙ hit), rw hit refl)
      ]
    ]

module _ (N : Numerics) where
  abbrev pub IsBool : Value N.Number → Bool → Type 0
  IsBool v b = v ≡ bool b

  -- A string that is not blank stands for itself, trimmed.
  abbrev pub IsWord : Value N.Number → Text → Type 0
  IsWord v t = (s : Text) × (v ≡ string s) × (trim_ws s ≡ t) × (t ≢ [])

  -- A number stands for the integer it is, or else for what it is cut to; a string for the integer
  -- it is read as.
  abbrev pub IsInt : Value N.Number → ℤ → Type 0
  IsInt v z =
      ((n : N.Number) × (v ≡ number n)
        × ((N.as_i64 n ≡ some z)
            ⊎ ((x : N.Float) × (N.as_i64 n ≡ none) × (N.as_f64 n ≡ some x) × (z ≡ N.to_i64 x))))
      ⊎ ((s : Text) × (v ≡ string s) × (parse_i64 (trim_ws s) ≡ some z))

  as_bool-IsBool : (v : Value N.Number) (b : Bool) → as_bool N v ≡ some b → IsBool v b
  as_bool-IsBool null b h = cc
  as_bool-IsBool object b h = cc
  as_bool-IsBool (bool c) b h = cc
  as_bool-IsBool (number n) b h = cc
  as_bool-IsBool (string s) b h = cc
  as_bool-IsBool (array vs) b h = cc

  IsBool-as_bool : (v : Value N.Number) (b : Bool) → IsBool v b → as_bool N v ≡ some b
  IsBool-as_bool v b h = ap (as_bool N) h

  as_text-IsWord : (v : Value N.Number) (t : Text) → as_text N v ≡ some t → IsWord v t
  unfolding as_text
  as_text-IsWord null t h = cc
  as_text-IsWord object t h = cc
  as_text-IsWord (bool c) t h = cc
  as_text-IsWord (number n) t h = cc
  as_text-IsWord (array vs) t h = cc
  as_text-IsWord (string s) t h = elim (Bool-cases (is_empty (trim_ws s))) [
    | inl blank ↦ let bad = rw blank at h in cc
    | inr word ↦
        let same : trim_ws s ≡ t = let k = rw word at h in cc in
        (s, refl, same, λ nil. let bad = sym (ap is_empty (same ∙ nil)) ∙ word in cc)
  ]

  filled : (t : Text) → t ≢ [] → is_empty t ≡ false
  filled [] h = absurd (h refl)
  filled (c ∷ t) h = refl

  IsWord-as_text : (v : Value N.Number) (t : Text) → IsWord v t → as_text N v ≡ some t
  unfolding as_text
  IsWord-as_text v t (s, here, same, word) =
      let e : is_empty (trim_ws s) ≡ false = ap is_empty same ∙ filled t word in
      ap (as_text N) here ∙ rw (as_text, e) (ap some same)

  as_int-IsInt : (v : Value N.Number) (z : ℤ) → as_int N v ≡ some z → IsInt v z
  unfolding as_int
  as_int-IsInt null z h = cc
  as_int-IsInt object z h = cc
  as_int-IsInt (bool c) z h = cc
  as_int-IsInt (array vs) z h = cc
  as_int-IsInt (string s) z h = inr (s, refl, h)
  as_int-IsInt (number n) z h = elim (Option-cases (N.as_i64 n)) [
    | inr (y, whole) ↦ let k = rw whole at h in inl (n, refl, inl (whole ∙ k))
    | inl broken ↦ elim (Option-cases (N.as_f64 n)) [
      | inl lost ↦ let bad = rw (broken, lost) at h in cc
      | inr (x, cut) ↦
          let same : z ≡ N.to_i64 x = let k = rw (broken, cut) at h in cc in
          inl (n, refl, inr (x, broken, cut, same))
    ]
  ]

  IsInt-as_int : (v : Value N.Number) (z : ℤ) → IsInt v z → as_int N v ≡ some z
  unfolding as_int
  IsInt-as_int v z (inl (n, here, inl whole)) = ap (as_int N) here ∙ rw (as_int, whole) refl
  IsInt-as_int v z (inl (n, here, inr (x, broken, cut, same))) =
      ap (as_int N) here ∙ rw (as_int, broken, cut) (ap some (sym same))
  IsInt-as_int v z (inr (s, here, whole)) = ap (as_int N) here ∙ whole

  pub bool_v-FirstOf :
      (m : JsonDict N.Number) (keys : List String) → FirstOf IsBool m keys (bool_v N m keys)
  unfolding bool_v
  bool_v-FirstOf m keys = find_map-FirstOf (as_bool N) IsBool as_bool-IsBool IsBool-as_bool m keys

  pub string_v-FirstOf :
      (m : JsonDict N.Number) (keys : List String) → FirstOf IsWord m keys (string_v N m keys)
  unfolding string_v
  string_v-FirstOf m keys = find_map-FirstOf (as_text N) IsWord as_text-IsWord IsWord-as_text m keys

  pub int_v-FirstOf :
      (m : JsonDict N.Number) (keys : List String) → FirstOf IsInt m keys (int_v N m keys)
  unfolding int_v
  int_v-FirstOf m keys = find_map-FirstOf (as_int N) IsInt as_int-IsInt IsInt-as_int m keys
