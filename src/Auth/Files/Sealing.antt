-- ===== src/Auth/Files/Sealing.antt =====
-- What the cipher promises, and what it makes of the content of a file.
use gn_drive.Common.{
  zero, suc, length-append, nat_eq, if◌then◌else◌, ℕ, ◌+◌, ◌≡◌, inl, inr, refl, ap, Option, none,
  some, [], ◌∷◌, ◌++◌, ◌==◌, length, take, drop, arith, Option-cases, Bool-cases, suc,
}
use gn_drive.Common.Text.{Text, text_eq}
use gn_drive.Update.{Files, put}
use gn_drive.Auth.Password.{Bytes}
use gn_drive.Auth.Files.{Cipher, Io, written, sealed, opened, read, nonce_len, tag_len}

-- What AES-GCM promises: a text can be opened again, and sealing adds a tag of 16 bytes.
pub record CipherLaws (C : Cipher) : Type 0 where
  pub decrypt-encrypt :
      (key nonce plain ct : Bytes)
      → C.encrypt key nonce plain ≡ some ct
      → C.decrypt key nonce ct ≡ some plain
  pub length-encrypt :
      (key nonce plain ct : Bytes)
      → C.encrypt key nonce plain ≡ some ct
      → length ct ≡ length plain + tag_len

pub take-append : (n : ℕ) (xs ys : Bytes) → length xs ≡ n → take n (xs ++ ys) ≡ xs
take-append zero [] ys h = refl
take-append zero (x ∷ xs) ys h = absurd (omega arith)
take-append (suc n) [] ys h = absurd (omega arith)
take-append (suc n) (x ∷ xs) ys h = ap (λ (t : Bytes). x ∷ t) (take-append n xs ys (omega arith))

pub drop_exactly : (n : ℕ) (xs ys : Bytes) → length xs ≡ n → drop n (xs ++ ys) ≡ ys
drop_exactly zero [] ys h = refl
drop_exactly zero (x ∷ xs) ys h = absurd (omega arith)
drop_exactly (suc n) [] ys h = absurd (omega arith)
drop_exactly (suc n) (x ∷ xs) ys h = drop_exactly n xs ys (omega arith)

pub some-injective : (a b : Bytes) → ◌≡◌ {A = Option Bytes} (some a) (some b) → a ≡ b
some-injective a b h = ap (λ (o : Option Bytes). elim o [ none ↦ a | some c ↦ c ]) h

module _ (C : Cipher) (laws : CipherLaws C) where
  blob_of :
      (key nonce plain blob : Bytes)
      → sealed C key nonce (some plain) ≡ some blob
      → (ct : Bytes) × (C.encrypt key nonce plain ≡ some ct) × (nonce ++ ct ≡ blob)
  blob_of key nonce plain blob h = elim (Option-cases (C.encrypt key nonce plain)) [
    | inl e ↦ absurd (ground arith)
    | inr (ct, e) ↦ (ct, e, some-injective (nonce ++ ct) blob (rw (sealed, e) at h))
  ]

  pub opened-sealed :
      (key nonce plain blob : Bytes)
      → length nonce ≡ nonce_len
      → sealed C key nonce (some plain) ≡ some blob
      → opened C key (some blob) ≡ (if length plain == 0 then none else some plain)
  opened-sealed key nonce plain blob short h =
      let (ct, e, whole) = blob_of key nonce plain blob h in
      let long = laws.length-encrypt key nonce plain ct e in
      let back = laws.decrypt-encrypt key nonce plain ct e in
      rw
        (
          ← whole,
          length-append nonce ct,
          take-append nonce_len nonce ct short,
          drop_exactly nonce_len nonce ct short,
          back,
        )
        (ground arith)

  pub no_blob :
      (key nonce : Bytes) (o : Option Bytes) (blob : Bytes)
      → sealed C key nonce o ≡ some blob
      → (plain : Bytes) × (o ≡ some plain)
  no_blob key nonce none blob h = absurd (ground arith)
  no_blob key nonce (some plain) blob h = (plain, refl)

pub written-some :
    (io : Io) (dst : Text) (o : Option Bytes) (files after : Files Bytes)
    → written io dst o files ≡ some after
    → (out : Bytes) × (o ≡ some out) × (put dst (some out) files ≡ after)
written-some io dst none files after h = absurd (ground arith)
written-some io dst (some out) files after h = elim (Bool-cases io.writes) [
  | inl e ↦ (
    out,
    refl,
    ap (λ (o : Option (Files Bytes)). elim o [ none ↦ files | some f ↦ f ]) (rw e at h),
  )
  | inr e ↦ absurd (ground arith)
]

pub read-some : (io : Io) (o : Option Bytes) (b : Bytes) → read io o ≡ some b → o ≡ some b
read-some io o b h = elim (Bool-cases io.reads) [
  | inl e ↦ rw e at h
  | inr e ↦ absurd (ground arith)
]
