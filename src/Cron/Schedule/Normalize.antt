-- ===== src/Cron/Schedule/Normalize.antt =====
-- `normalize_cron` keeps the meaning of the expressions that it accepts.
use mathlib.Core.Path.{subst}
use gn_drive.Common.{
  ℕ, ◌≡◌, refl, sym, ap, ◌∙◌, false, List, [], ◌∷◌, ◌++◌, ◌==◌, nat_eq, Bool-cases, Option, none,
  some, inl, inr, All, ◌||◌,
}
use gn_drive.Common.Text.{
  Text, codes, trim, split_whitespace, join, is_whitespace, to_lowercase, text_eq,
}
use gn_drive.Common.Text.Words.{
  IsWord, FirstOk, LastOk, split_whitespace-IsWord, split_whitespace-join, join-FirstOk,
  join-LastOk, trim_id, trim-FirstOk, trim-LastOk, split_whitespace_first, join_first,
}
use gn_drive.Cron.Parser.{Result, ok, err, ◌>>=◌}
use gn_drive.Cron.Schedule.{
  F64, CronSchedule, parse_fields, every_of, every_rest, parse_duration, strip_prefix,
  parse_descriptor, parse_trimmed, parse, normal_fields, normalize_trimmed, normalize_cron,
}

module _ (float : F64) where
  -- An accepted expression parses alike, whatever text an error would name.
  every_rest_payload :
      (x y : Text) (rest : Option Text) {k : CronSchedule}
      → every_rest float x rest ≡ ok k
      → every_rest float y rest ≡ ok k
  every_rest_payload x y none h = cc
  every_rest_payload x y (some rest) h = every_of_payload (parse_duration float rest) h
    where
      every_of_payload :
          (d : Option float.Number) {k : CronSchedule}
          → every_of float x d ≡ ok k
          → every_of float y d ≡ ok k
      every_of_payload none h = cc
      every_of_payload (some d) h = h

  parse_descriptor_payload :
      (x y lower : Text) {k : CronSchedule}
      → parse_descriptor float x lower ≡ ok k
      → parse_descriptor float y lower ≡ ok k
  unfolding parse_descriptor
  parse_descriptor_payload x y lower h =
      elim (Bool-cases (lower == codes "@yearly" || lower == codes "@annually")) [
        | inl yes₁ ↦ rw yes₁ (rw yes₁ at h)
        | inr no₁ ↦ elim (Bool-cases (lower == codes "@monthly")) [
          | inl yes₂ ↦ rw (no₁, yes₂) (rw (no₁, yes₂) at h)
          | inr no₂ ↦ elim (Bool-cases (lower == codes "@weekly")) [
            | inl yes₃ ↦ rw (no₁, no₂, yes₃) (rw (no₁, no₂, yes₃) at h)
            | inr no₃ ↦ elim (Bool-cases (lower == codes "@daily" || lower == codes "@midnight")) [
              | inl yes₄ ↦ rw (no₁, no₂, no₃, yes₄) (rw (no₁, no₂, no₃, yes₄) at h)
              | inr no₄ ↦ elim (Bool-cases (lower == codes "@hourly")) [
                | inl yes₅ ↦ rw (no₁, no₂, no₃, no₄, yes₅) (rw (no₁, no₂, no₃, no₄, yes₅) at h)
                | inr no₅ ↦
                    rw (no₁, no₂, no₃, no₄, no₅)
                      (every_rest_payload x y (strip_prefix (codes "@every ") lower)
                        (rw (no₁, no₂, no₃, no₄, no₅) at h))
              ]
            ]
          ]
        ]
      ]

  parse_trimmed_payload :
      (x y t : Text) {k : CronSchedule}
      → parse_trimmed float x t ≡ ok k
      → parse_trimmed float y t ≡ ok k
  unfolding parse_trimmed
  parse_trimmed_payload x y [] h = cc
  parse_trimmed_payload x y (c ∷ t) h = elim (Bool-cases (c == b'@')) [
    | inl at_sign ↦
        rw at_sign (parse_descriptor_payload x y (to_lowercase (c ∷ t)) (rw at_sign at h))
    | inr plain ↦ rw plain (rw plain at h)
  ]

  parse_plain :
      (x t : Text) (c : ℕ)
      → (c == b'@') ≡ false
      → parse_trimmed float x (c ∷ t) ≡ parse_fields (split_whitespace (c ∷ t))
  unfolding parse_trimmed
  parse_plain x t c plain = rw plain

  -- The words of a joined text are parsed as they are.
  parse_join :
      (c : ℕ) (w : Text) (ws : List Text)
      → (c == b'@') ≡ false
      → All IsWord ((c ∷ w) ∷ ws)
      → parse float (join ((c ∷ w) ∷ ws)) ≡ parse_fields ((c ∷ w) ∷ ws)
  unfolding parse
  parse_join c w ws plain words =
      let text = join ((c ∷ w) ∷ ws) in
      let (t, shape) = join_first c w ws in
      rw (trim_id text (join-FirstOk ((c ∷ w) ∷ ws) words) (join-LastOk ((c ∷ w) ∷ ws) words)) (
        ap (parse_trimmed float text) shape
        ∙ parse_plain text t c plain
        ∙ ap (λ (x : Text). parse_fields (split_whitespace x)) (sym shape)
        ∙ ap parse_fields (split_whitespace-join ((c ∷ w) ∷ ws) words))

  result_text : (t s : Text) → ◌≡◌ {A = Result Text} (ok t) (ok s) → t ≡ s
  result_text t s h = cc

  parsed_trimmed :
      (c : ℕ) (t : Text) (k : CronSchedule)
      → FirstOk (c ∷ t)
      → LastOk (c ∷ t)
      → parse float (c ∷ t) ≡ ok k
      → parse_trimmed float (c ∷ t) (c ∷ t) ≡ ok k
  unfolding parse
  parsed_trimmed c t k first last h = rw (trim_id (c ∷ t) first last) at h

  five_fields :
      (a b c d e : Text)
      → parse_fields (codes "0" ∷ a ∷ b ∷ c ∷ d ∷ e ∷ []) ≡ parse_fields (a ∷ b ∷ c ∷ d ∷ e ∷ [])
  unfolding parse_fields
  five_fields a b c d e = refl

  zero-IsWord : IsWord (codes "0")
  unfolding is_whitespace
  zero-IsWord = (refl, tt)

  normal_fields_parse :
      (fields : List Text) (x : ℕ) (w : Text) (ws : List Text) {s : Text}
      → All IsWord fields
      → fields ≡ (x ∷ w) ∷ ws
      → (x == b'@') ≡ false
      → normal_fields float fields ≡ ok s
      → parse float s ≡ parse_fields fields
  unfolding join
  normal_fields_parse [] x w ws words first plain h = cc
  normal_fields_parse (a ∷ []) x w ws words first plain h = cc
  normal_fields_parse (a ∷ b ∷ []) x w ws words first plain h = cc
  normal_fields_parse (a ∷ b ∷ c ∷ []) x w ws words first plain h = cc
  normal_fields_parse (a ∷ b ∷ c ∷ d ∷ []) x w ws words first plain h = cc
  normal_fields_parse (a ∷ b ∷ c ∷ d ∷ e ∷ []) x w ws words first plain h =
      let fields = a ∷ b ∷ c ∷ d ∷ e ∷ [] in
      let same = result_text (codes "0 " ++ join fields) _ h in
      ap (parse float) (sym same)
      ∙ parse_join b'0' [] fields refl (zero-IsWord, words)
      ∙ five_fields a b c d e
  normal_fields_parse (a ∷ b ∷ c ∷ d ∷ e ∷ f ∷ []) x w ws {s} words first plain h =
      let fields = a ∷ b ∷ c ∷ d ∷ e ∷ f ∷ [] in
      let same = result_text (join fields) s h in
      ap (parse float) (sym same ∙ ap join first)
      ∙ parse_join x w ws plain (subst (All IsWord) first words)
      ∙ ap parse_fields (sym first)
  normal_fields_parse (a ∷ b ∷ c ∷ d ∷ e ∷ f ∷ g ∷ gs) x w ws words first plain h = cc

  normalize_trimmed_parse :
      (expr t : Text) {s : Text}
      → FirstOk t
      → LastOk t
      → normalize_trimmed float t ≡ ok s
      → parse float s ≡ parse_trimmed float expr t
  unfolding normalize_trimmed
  normalize_trimmed_parse expr [] first last h = cc
  normalize_trimmed_parse expr (c ∷ t) {s} first last h = elim (Bool-cases (c == b'@')) [
    | inl at_sign ↦ descriptor (parse float (c ∷ t)) refl (rw at_sign at h)
    | inr plain ↦
        let (w, ws, e) = split_whitespace_first c t first in
        normal_fields_parse (split_whitespace (c ∷ t)) c w ws (split_whitespace-IsWord (c ∷ t)) e
          plain (rw plain at h)
        ∙ sym (parse_plain expr t c plain)
  ]
    where
      descriptor :
          (r : Result CronSchedule)
          → parse float (c ∷ t) ≡ r
          → (r >>= λ schedule. ok (c ∷ t)) ≡ ok s
          → parse float s ≡ parse_trimmed float expr (c ∷ t)
      descriptor (err e) parsed h = cc
      descriptor (ok k) parsed h =
          ap (parse float) (sym (result_text (c ∷ t) s h))
          ∙ parsed
          ∙ sym
              (parse_trimmed_payload (c ∷ t) expr (c ∷ t) (parsed_trimmed c t k first last parsed))

  -- An expression and its normal form, where there is one, parse to the same schedule or error.
  pub normalize_cron-parse :
      (expr : Text) {s : Text} → normalize_cron float expr ≡ ok s → parse float s ≡ parse float expr
  unfolding normalize_cron parse
  normalize_cron-parse expr h =
      normalize_trimmed_parse expr (trim expr) (trim-FirstOk expr) (trim-LastOk expr) h
