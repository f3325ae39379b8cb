-- ===== src/Auth/Files/RoundTrip.antt =====
-- Decrypting what was encrypted.
use gn_drive.Common.{
  ◌≡◌, ◌∙◌, inl, inr, sym, refl, ap, none, some, ◌==◌, nat_eq, length, if◌then◌else◌, Bool-cases,
  beq_self,
}
use gn_drive.Common.Text.{Text, text_eq}
use gn_drive.Update.{Files, put}
use gn_drive.Auth.Password.{Bytes}
use gn_drive.Auth.Files.{Cipher, Io, nonce_len, sealed, read, encrypt_file, decrypt_file, true}
use gn_drive.Auth.Files.Sealing.{CipherLaws, opened-sealed, written-some}
use gn_drive.Auth.Files.Restores.{Succeeds}

module _ (C : Cipher) (laws : CipherLaws C) where
  -- When encrypt_file has written a file of some content with a nonce of 12 bytes, decrypt_file
  -- under the same key, with its read and write successful, fails if the content is empty, and
  -- else writes this content; assumed are the laws of the cipher.
  pub decrypt_file-encrypt_file :
      (io io' : Io) (key plain : Bytes) (src copy dst : Text) (files after : Files Bytes)
      → length io.nonce ≡ nonce_len
      → files src ≡ some plain
      → io.reads ≡ true
      → encrypt_file C io key src copy files ≡ some after
      → Succeeds io'
      → decrypt_file C io' key copy dst after
        ≡ (if length plain == 0 then none else some (put dst (some plain) after))
  unfolding encrypt_file decrypt_file
  decrypt_file-encrypt_file io io' key plain src copy dst files after short held reads h good =
      let (blob, made, there) =
        written-some io copy (sealed C key io.nonce (read io (files src))) files after h in
      let got : read io (files src) ≡ some plain = rw reads held in
      let made' : sealed C key io.nonce (some plain) ≡ some blob =
        ap (sealed C key io.nonce) (sym got) ∙ made in
      let stored : after copy ≡ some blob = rw (← there, beq_self copy) refl in
      rw (good.0, good.1, stored, opened-sealed C laws key io.nonce plain blob short made')
        (elim (Bool-cases (length plain == 0)) [ inl e ↦ rw e refl | inr e ↦ rw e refl ])
