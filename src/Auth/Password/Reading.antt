-- ===== src/Auth/Password/Reading.antt =====
-- The hash that create_hash writes, read again.
use gn_drive.Auth.Password.{
  Bytes, Argon2, encoded, create_hash, verify, extract_salt, b64_raw, text_at, hash_raw, derive_key,
  constant_time_eq, trim_end, difference, parse_params, params_from, split_once, matches,
  key_length,
}
use gn_drive.Common.{
  ℕ, ◌≡◌, ◌∙◌, sym, ap, refl, All, Option, none, some, ◌==◌, nat_eq, ◌++◌, ◌∷◌, [], true, false,
  beq_self, length, arith, ◌↔◌, Option-cases, inl, inr,
}
use gn_drive.Common.Bits.{bit_or_zero, bit_xor_zero, bit_xor_self}
use Prim.Native.Nat.{bit_or, bit_xor}
use gn_drive.Sync.Errors.{starts_with}
use gn_drive.Common.Text.{Text, codes, split, text_beq, parse_u32, digits, digits_from, below_u32}

abbrev pub Lacks : ℕ → Text → Type 0
Lacks sep = All (λ c. (c == sep) ≡ false)

split-Lacks : (sep : ℕ) (s : Text) → Lacks sep s → split sep s ≡ s ∷ []
unfolding split
split-Lacks sep [] h = refl
split-Lacks sep (c ∷ s) h = rw (h.0, split-Lacks sep s h.1) refl

split-append : (sep : ℕ) (s t : Text) → Lacks sep s → split sep (s ++ sep ∷ t) ≡ s ∷ split sep t
unfolding split
split-append sep [] t h = rw (beq_self sep) refl
split-append sep (c ∷ s) t h = rw (h.0, split-append sep s t h.1) refl

trim_end-Lacks : (c : ℕ) (s : Text) → Lacks c s → trim_end c s ≡ s
unfolding trim_end text_beq
trim_end-Lacks c [] h = refl
trim_end-Lacks c (d ∷ []) h = rw h.0 refl
trim_end-Lacks c (d ∷ e ∷ s) h = rw (trim_end-Lacks c (e ∷ s) h.1) refl

-- What base64 without padding and Argon2id promise: decoding undoes encoding, whose text has
-- neither `$` nor `=`, and the output has the length that was asked for.
pub record Argon2Laws (A : Argon2) : Type 0 where
  pub decode-encode : (b : Bytes) → A.decode (A.encode b) ≡ some b
  pub no_dollar : (b : Bytes) → Lacks b'$' (A.encode b)
  pub no_padding : (b : Bytes) → Lacks b'=' (A.encode b)
  pub output_length :
      (m t p : ℕ) (password : Text) (salt out : Bytes) (n : ℕ)
      → A.hash_password_into m t p password salt n ≡ some out
      → length out ≡ n

difference-zero : (d : ℕ) (a b : Bytes) → difference d a b ≡ 0 → d ≡ 0
difference-zero d [] b h = h
difference-zero d (x ∷ a) [] h = h
difference-zero d (x ∷ a) (y ∷ b) h =
    (bit_or_zero d (bit_xor x y) (difference-zero (bit_or d (bit_xor x y)) a b h)).0

no_difference : (d : ℕ) (a b : Bytes) → length a ≡ length b → difference d a b ≡ 0 → a ≡ b
no_difference d [] [] e h = refl
no_difference d [] (y ∷ b) e h = absurd (omega arith)
no_difference d (x ∷ a) [] e h = absurd (omega arith)
no_difference d (x ∷ a) (y ∷ b) e h =
    let z = bit_or_zero d (bit_xor x y) (difference-zero (bit_or d (bit_xor x y)) a b h) in
    rw (bit_xor_zero x y z.1, no_difference (bit_or d (bit_xor x y)) a b (omega arith) h) refl

difference_self : (a : Bytes) → difference 0 a a ≡ 0
difference_self [] = refl
difference_self (x ∷ a) = rw (bit_xor_self x) (difference_self a)

constant_time_eq_iff : (a b : Bytes) → (constant_time_eq a b ≡ true) ↔ (a ≡ b)
unfolding constant_time_eq
constant_time_eq_iff a b = (
  λ h. no_difference 0 a b (ground arith) (ground arith),
  λ e. rw (e, beq_self (length b), difference_self b) refl,
)

module _ (A : Argon2) (laws : Argon2Laws A) where
  split-encoded :
      (salt out : Bytes)
      → split b'$' (encoded A salt out)
        ≡ []
          ∷ codes "argon2id"
          ∷ codes "v=19"
          ∷ codes "m=65536,t=3,p=4"
          ∷ A.encode salt
          ∷ A.encode out
          ∷ []
  unfolding split
  split-encoded salt out =
      rw
        (
          split-append b'$' (A.encode salt) (A.encode out) (laws.no_dollar salt),
          split-Lacks b'$' (A.encode out) (laws.no_dollar out),
        )
        refl

  b64_raw-encode : (b : Bytes) → b64_raw A (A.encode b) ≡ some b
  unfolding b64_raw
  b64_raw-encode b =
      ap A.decode (trim_end-Lacks b'=' (A.encode b) (laws.no_padding b)) ∙ (laws.decode-encode b)

  pub extract_salt-encoded : (salt out : Bytes) → extract_salt A (encoded A salt out) ≡ some salt
  unfolding extract_salt starts_with
  extract_salt-encoded salt out = rw (split-encoded salt out) (b64_raw-encode salt)

  parameters : parse_params (codes "m=65536,t=3,p=4") ≡ some (65536, (3, 4))
  unfolding parse_params params_from split_once split parse_u32 digits digits_from below_u32
      text_beq
  parameters = refl

  verify-encoded :
      (salt out : Bytes) (password : Text)
      → verify A password (encoded A salt out)
        ≡ matches A (hash_raw A password salt (length out)) out
  unfolding verify starts_with hash_raw matches text_beq
  verify-encoded salt out password =
      rw (split-encoded salt out, parameters, b64_raw-encode salt, b64_raw-encode out) refl

  key_of_length :
      (password : Text) (salt out : Bytes)
      → derive_key A password salt ≡ some out
      → length out ≡ key_length
  unfolding derive_key hash_raw
  key_of_length password salt out e = laws.output_length 65536 3 4 password salt out key_length e

  encoded-injective :
      (salt out : Bytes) (hash : Text)
      → ◌≡◌ {A = Option Text} (some (encoded A salt out)) (some hash)
      → encoded A salt out ≡ hash
  encoded-injective salt out hash h =
      ap (λ (o : Option Text). elim o [ none ↦ hash | some t ↦ t ]) h

  pub created :
      (salt : Bytes) (password hash : Text)
      → create_hash A salt password ≡ some hash
      → (out : Bytes) × (derive_key A password salt ≡ some out) × (encoded A salt out ≡ hash)
  unfolding create_hash derive_key
  created salt password hash h = elim (Option-cases (hash_raw A password salt key_length)) [
    | inl e ↦ absurd (ground arith)
    | inr (out, e) ↦ (out, e, encoded-injective salt out hash (rw (create_hash, e) at h))
  ]

  matches_iff : (o : Option Bytes) (out : Bytes) → (matches A o out ≡ true) ↔ (o ≡ some out)
  unfolding matches
  matches_iff none out = (λ h. absurd (ground arith), λ h. absurd (ground arith))
  matches_iff (some a) out = (
    λ h. ap (λ b. some b) (sym ((constant_time_eq_iff out a).0 h)),
    λ h.
        (constant_time_eq_iff out a).1
          (ap (λ (o : Option Bytes). elim o [ none ↦ a | some b ↦ b ]) (sym h)),
  )

  verified_iff :
      (salt out : Bytes) (attempt : Text)
      → length out ≡ key_length
      → (verify A attempt (encoded A salt out) ≡ true) ↔ (derive_key A attempt salt ≡ some out)
  unfolding derive_key
  verified_iff salt out attempt e =
      rw (verify-encoded salt out attempt, e) (matches_iff (hash_raw A attempt salt key_length) out)

  -- For a hash that create_hash has made: extract_salt gives the salt back, and verify accepts a
  -- password exactly when derive_key gives for it, with this salt, the key of the first password;
  -- assumed are the laws of base64 and of the length of what Argon2 gives.
  pub verify-create_hash :
      (salt : Bytes) (password hash : Text)
      → create_hash A salt password ≡ some hash
      → (extract_salt A hash ≡ some salt)
        × ((attempt : Text)
            → (verify A attempt hash ≡ true)
              ↔ (derive_key A attempt salt ≡ derive_key A password salt))
  verify-create_hash salt password hash h =
      let (out, key, text) = created salt password hash h in
      rw (← text, key)
        (
          extract_salt-encoded salt out,
          λ attempt. verified_iff salt out attempt (key_of_length password salt out key),
        )

  -- The last part of a hash that create_hash has made, which is saved in auth.json, decodes to the
  -- key that derive_key gives for the password and the salt, with which the files are encrypted;
  -- assumed are the laws of base64 and of the length of what Argon2 gives.
  pub b64_raw-create_hash :
      (salt : Bytes) (password hash : Text)
      → create_hash A salt password ≡ some hash
      → b64_raw A (text_at (split b'$' hash) 5) ≡ derive_key A password salt
  b64_raw-create_hash salt password hash h =
      let (out, key, text) = created salt password hash h in
      rw (← text, key, split-encoded salt out) (b64_raw-encode out)
