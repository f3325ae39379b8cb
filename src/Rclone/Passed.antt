-- ===== src/Rclone/Passed.antt =====
-- crates/gn-drive-core/src/flow_engine.rs, sync_engine.rs and rclone/client.rs together: which flags
-- are made of the `sync_config` of a flow operation.
use mathlib.Core.List.{append-nil}
use gn_drive.Common.{
  zero, suc, String, ◌≡◌, refl, ◌∙◌, Bool, true, false, Option, none, some, List, [], ◌∷◌, ◌++◌,
  All, All-map, ap, sym,
}
use gn_drive.Common.Text.{Text, codes}
use gn_drive.Common.Text.Decimal.{ℤ, pos, negsuc, show_i64}
use gn_drive.Profile.{Numerics, is_above}
use gn_drive.Profile.Config.{JsonDict, filter, unwrap_or, bool_v, int_v, string_v, Value}
use gn_drive.Rclone.Flags.{present}
use gn_drive.Rclone.Given.{given}
use gn_drive.Rclone.Options.{
  count_options, text_options, switch_options, shown, shown_in_megabytes, shown_text, args,
  sync_config-shown,
}
use gn_drive.Rclone.Sources.{
  FirstOf, IsBool, IsWord, IsInt, bool_v-FirstOf, string_v-FirstOf, int_v-FirstOf,
}

abbrev pub above_zero_or_four : Option ℤ → ℤ
above_zero_or_four (some (pos (suc n))) = pos (suc n)
above_zero_or_four (some (pos zero)) = pos 4
above_zero_or_four (some (negsuc n)) = pos 4
above_zero_or_four none = pos 4

abbrev pub count_shown : Text → Option ℤ → List (Option Text)
count_shown unit (some (pos (suc n))) = some (show_i64 (pos (suc n)) ++ unit) ∷ []
count_shown unit (some (pos zero)) = []
count_shown unit (some (negsuc n)) = []
count_shown unit none = []

-- A switch is given, without a value, when its setting is true.
abbrev pub switched : Option Bool → List (Option Text)
switched (some true) = none ∷ []
switched (some false) = []
switched none = []

count_shown-same : (o : Option ℤ) → shown (filter is_above o) ≡ count_shown [] o
unfolding is_above
count_shown-same none = refl
count_shown-same (some (pos zero)) = refl
count_shown-same (some (pos (suc n))) =
    ap (λ (s : Text). some s ∷ []) (sym (append-nil (show_i64 (pos (suc n)))))
count_shown-same (some (negsuc n)) = refl

megabytes-same : (o : Option ℤ) → shown_in_megabytes (filter is_above o) ≡ count_shown (codes "M") o
unfolding is_above
megabytes-same none = refl
megabytes-same (some (pos zero)) = refl
megabytes-same (some (pos (suc n))) = refl
megabytes-same (some (negsuc n)) = refl

four-same : (o : Option ℤ) → unwrap_or (pos 4) (filter is_above o) ≡ above_zero_or_four o
unfolding is_above
four-same none = refl
four-same (some (pos zero)) = refl
four-same (some (pos (suc n))) = refl
four-same (some (negsuc n)) = refl

switched-same : (o : Option Bool) → present (unwrap_or false o) ≡ switched o
unfolding present
switched-same none = refl
switched-same (some true) = refl
switched-same (some false) = refl

module _ (N : Numerics) where
  -- The flag is given as the function says of the setting that the keys have.
  abbrev pub FollowsKeys :
      {A : Type 0}
      → (Value N.Number → A → Type 0)
      → (Option A → List (Option Text))
      → JsonDict N.Number
      → String × List String
      → Type 0
  FollowsKeys {A} Means show m (flag, keys) =
      (o : Option A) × FirstOf Means m keys o × (given (codes flag) (args N m) ≡ show o)

  abbrev pub ArePassed : JsonDict N.Number → Type 0
  ArePassed m =
      FollowsKeys (IsInt N) (λ o. some (show_i64 (above_zero_or_four o)) ∷ []) m
        ("--transfers", "parallel" ∷ [])
      × FollowsKeys (IsInt N) (count_shown (codes "M")) m ("--bwlimit", "bandwidth" ∷ [])
      × All (FollowsKeys (IsInt N) (count_shown []) m) count_options
      × All (FollowsKeys (IsWord N) shown_text m) text_options
      × All (FollowsKeys (IsBool N) switched m) switch_options

  count_follows :
      (m : JsonDict N.Number) (option : String × List String)
      → given (codes option.0) (args N m) ≡ shown (filter is_above (int_v N m option.1))
      → FollowsKeys (IsInt N) (count_shown []) m option
  count_follows m (flag, keys) h =
      (int_v N m keys, int_v-FirstOf N m keys, h ∙ count_shown-same (int_v N m keys))

  text_follows :
      (m : JsonDict N.Number) (option : String × List String)
      → given (codes option.0) (args N m) ≡ shown_text (string_v N m option.1)
      → FollowsKeys (IsWord N) shown_text m option
  text_follows m (flag, keys) h = (string_v N m keys, string_v-FirstOf N m keys, h)

  switch_follows :
      (m : JsonDict N.Number) (option : String × List String)
      → given (codes option.0) (args N m) ≡ present (unwrap_or false (bool_v N m option.1))
      → FollowsKeys (IsBool N) switched m option
  switch_follows m (flag, keys) h =
      (bool_v N m keys, bool_v-FirstOf N m keys, h ∙ switched-same (bool_v N m keys))

  -- For any sync_config of a flow operation, the flags that profile_to_flags gives for the profile
  -- made of it have --transfers once, with the configured number if above 0 and else 4; --bwlimit
  -- with an M after it and the counts when the configured number is above 0; the texts when the
  -- configuration has one that is not blank; and each switch exactly when its setting is true. A
  -- setting is what the first of its keys says whose value is of its kind: a boolean, a string,
  -- trimmed, or a number or a string that reads as one.
  pub sync_config-given : (m : JsonDict N.Number) → ArePassed m
  sync_config-given m =
      let (transfers, (bandwidth, (counts, (texts, switches)))) = sync_config-shown N m in
      (
        (
          int_v N m ("parallel" ∷ []),
          int_v-FirstOf N m ("parallel" ∷ []),
          transfers
              ∙ ap (λ (z : ℤ). some (show_i64 z) ∷ []) (four-same (int_v N m ("parallel" ∷ []))),
        ),
        (
          int_v N m ("bandwidth" ∷ []),
          int_v-FirstOf N m ("bandwidth" ∷ []),
          bandwidth ∙ megabytes-same (int_v N m ("bandwidth" ∷ [])),
        ),
        All-map count_options (count_follows m) counts,
        All-map text_options (text_follows m) texts,
        All-map switch_options (switch_follows m) switches,
      )
