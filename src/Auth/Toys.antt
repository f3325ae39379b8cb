-- ===== src/Auth/Toys.antt =====
-- Small stand-ins for Argon2id, base64 and the cipher, which keep the laws that are assumed of them.
use gn_drive.Common.{
  ℕ, zero, suc, ◌+◌, ◌-◌, ◌≡◌, ◌∙◌, refl, ap, Option, none, some, [], ◌∷◌, ◌++◌, ◌==◌, length,
  length-append, take, drop, if◌then◌else◌, beq_self, arith, ◌≤◌, sym,
}
use gn_drive.Common.Text.{Text, text_eq}
use gn_drive.Auth.Password.{Bytes, Argon2}
use gn_drive.Auth.Password.Reading.{Argon2Laws, Lacks}
use gn_drive.Auth.Files.{Cipher}
use gn_drive.Auth.Files.Sealing.{CipherLaws, take-append, drop_exactly, some-injective}

-- The first n bytes, filled up with zeros.
unfoldable pub fill : ℕ → Bytes → Bytes
fill zero b = []
fill (suc n) [] = 0 ∷ fill n []
fill (suc n) (x ∷ b) = x ∷ fill n b

length-fill : (n : ℕ) (b : Bytes) → length (fill n b) ≡ n
unfolding fill
length-fill zero b = refl
length-fill (suc n) [] = omega (arith, length-fill n [])
length-fill (suc n) (x ∷ b) = omega (arith, length-fill n b)

-- Every byte moved past the characters that the format uses.
unfoldable pub shift : Bytes → Text
shift [] = []
shift (x ∷ b) = (x + 100) ∷ shift b

unfoldable pub unshift : Text → Bytes
unshift [] = []
unshift (x ∷ s) = (x - 100) ∷ unshift s

unshift-shift : (b : Bytes) → unshift (shift b) ≡ b
unfolding shift unshift
unshift-shift [] = refl
unshift-shift (x ∷ b) = let e : x + 100 - 100 ≡ x = omega arith in rw (unshift-shift b, e) refl

shift-Lacks : (c : ℕ) (b : Bytes) → c ≤ 99 → Lacks c (shift b)
unfolding shift
shift-Lacks c [] h = tt
shift-Lacks c (x ∷ b) h = (ground arith, shift-Lacks c b h)

abbrev pub plain_argon2 : Argon2
plain_argon2 = record {
  hash_password_into = λ m t p password salt n. some (fill n (password ++ salt));
  encode = shift;
  decode = λ s. some (unshift s);
}

pub plain_argon2-Argon2Laws : Argon2Laws plain_argon2
plain_argon2-Argon2Laws = record {
  decode-encode = λ b. ap (λ (t : Bytes). some t) (unshift-shift b);
  no_dollar = λ b. shift-Lacks b'$' b (omega arith);
  no_padding = λ b. shift-Lacks b'=' b (omega arith);
  output_length = λ m t p password salt out n h.
      ap length (sym (some-injective (fill n (password ++ salt)) out h))
      ∙ length-fill n (password ++ salt);
}

-- The key in front of the text.
abbrev pub plain_cipher : Cipher
plain_cipher = record {
  encrypt = λ key nonce plain. some (fill 16 key ++ plain);
  decrypt = λ key nonce ct. if take 16 ct == fill 16 key then some (drop 16 ct) else none;
}

opens_again :
    (key plain ct : Bytes)
    → fill 16 key ++ plain ≡ ct
    → ◌≡◌ {A = Option Bytes}
        (if take 16 ct == fill 16 key then some (drop 16 ct) else none)
        (some plain)
opens_again key plain ct e =
    rw
      (
        ← e,
        take-append 16 (fill 16 key) plain (length-fill 16 key),
        drop_exactly 16 (fill 16 key) plain (length-fill 16 key),
        beq_self (fill 16 key),
      )
      refl

pub plain_cipher-CipherLaws : CipherLaws plain_cipher
plain_cipher-CipherLaws = record {
  decrypt-encrypt =
      λ key nonce plain ct h. opens_again key plain ct (some-injective (fill 16 key ++ plain) ct h);
  length-encrypt = λ key nonce plain ct h.
      ap length (sym (some-injective (fill 16 key ++ plain) ct h))
      ∙ length-append (fill 16 key) plain
      ∙ omega (arith, length-fill 16 key);
}
