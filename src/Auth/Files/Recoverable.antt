-- ===== src/Auth/Files/Recoverable.antt =====
-- No config file is lost: whatever file operations fail, what a file held can be decrypted.
use gn_drive.Common.{
  nat_eq, ◌<◌, ◌≡◌, ◌⊎◌, inl, inr, refl, sym, ◌∙◌, Bool, true, false, Option, none, some, ◌++◌,
  ◌==◌, length, beq_self, arith, Bool-cases,
}
use gn_drive.Common.Text.{Text, text_eq, codes}
use gn_drive.Update.{Files, put, remove_file}
use gn_drive.Auth.Password.{Bytes}
use gn_drive.Auth.Files.{
  Cipher, Io, enc, sealed, opened, read, nonce_len, encrypt_file, decrypt_file, without_wal_shm,
}
use gn_drive.Auth.Files.Sealing.{CipherLaws, opened-sealed, no_blob, written-some, read-some}

-- What a file and its encrypted copy hold, when the content that counts is `orig`.
abbrev pub Opens : Cipher → Bytes → Option Bytes → Option Bytes → Type 0
Opens C key orig copy = (plain : Bytes) × (orig ≡ some plain) × (opened C key copy ≡ some plain)

abbrev pub Restored : Cipher → Bytes → Option Bytes → Option Bytes → Option Bytes → Type 0
Restored C key orig file copy = (file ≡ orig) × ((copy ≡ none) ⊎ Opens C key orig copy)

abbrev pub Kept : Cipher → Bytes → Option Bytes → Option Bytes → Option Bytes → Type 0
Kept C key orig file copy = Restored C key orig file copy ⊎ ((file ≡ none) × Opens C key orig copy)

-- The path q is neither the file m nor its encrypted copy.
abbrev Off : Text → Text → Type 0
Off q m = ((q == m) ≡ false) × ((q == enc m) ≡ false)

-- All that an operation on the file n touches is off the file m.
abbrev pub Away : Text → Text → Type 0
Away n m = Off n m × Off (enc n) m × Off (n ++ codes "-wal") m × Off (n ++ codes "-shm") m

abbrev pub Single : Text → Type 0
Single m =
    ((m == enc m) ≡ false)
    × ((enc m == m) ≡ false)
    × Off (m ++ codes "-wal") m
    × Off (m ++ codes "-shm") m

abbrev pub SameAt : Text → Files Bytes → Files Bytes → Type 0
SameAt m before after = (after m ≡ before m) × (after (enc m) ≡ before (enc m))

put-Off :
    (q m : Text) (c : Option Bytes) (files : Files Bytes) → Off q m → SameAt m files (put q c files)
put-Off q m c files off = (rw off.0 refl, rw off.1 refl)

remove-Off :
    (b : Bool) (q m : Text) (files : Files Bytes) → Off q m → SameAt m files (remove_file b q files)
remove-Off false q m files off = (refl, refl)
remove-Off true q m files off = put-Off q m none files off

pub SameAt-trans : (m : Text) (a b c : Files Bytes) → SameAt m a b → SameAt m b c → SameAt m a c
SameAt-trans m a b c p q = (q.0 ∙ p.0, q.1 ∙ p.1)

pub without-Away :
    (io : Io) (n m : Text) (files : Files Bytes)
    → Away n m
    → SameAt m files (without_wal_shm io n files)
without-Away io n m files (plain, copy, wal, shm) =
    let first = remove_file io.removes n files in
    let second = remove_file io.removes_wal (n ++ codes "-wal") first in
    SameAt-trans m files second (without_wal_shm io n files)
      (SameAt-trans m files first second (remove-Off io.removes n m files plain)
        (remove-Off io.removes_wal (n ++ codes "-wal") m first wal))
      (remove-Off io.removes_shm (n ++ codes "-shm") m second shm)

pub own_without :
    (io : Io) (m : Text) (files : Files Bytes)
    → Single m
    → ((without_wal_shm io m files m ≡ none) ⊎ (without_wal_shm io m files m ≡ files m))
      × (without_wal_shm io m files (enc m) ≡ files (enc m))
own_without io m files (copy, _, wal, shm) =
    let first = remove_file io.removes m files in
    let second = remove_file io.removes_wal (m ++ codes "-wal") first in
    let same =
      SameAt-trans m first second (without_wal_shm io m files)
        (remove-Off io.removes_wal (m ++ codes "-wal") m first wal)
        (remove-Off io.removes_shm (m ++ codes "-shm") m second shm) in
    (own_removed io.removes m files same.0, same.1 ∙ other_removed io.removes m files copy)
  where
    own_removed :
        (b : Bool) (m : Text) (files : Files Bytes) {x : Option Bytes}
        → x ≡ remove_file b m files m
        → (x ≡ none) ⊎ (x ≡ files m)
    own_removed false m files e = inr e
    own_removed true m files e = inl (e ∙ rw (beq_self m) refl)

    other_removed :
        (b : Bool) (m : Text) (files : Files Bytes)
        → (m == enc m) ≡ false
        → remove_file b m files (enc m) ≡ files (enc m)
    other_removed false m files e = refl
    other_removed true m files e = rw e refl

module _ (C : Cipher) (laws : CipherLaws C) (key : Bytes) where
  abbrev pub KeptIn : Option Bytes → Text → Files Bytes → Type 0
  KeptIn orig m files = Kept C key orig (files m) (files (enc m))

  abbrev pub RestoredIn : Option Bytes → Text → Files Bytes → Type 0
  RestoredIn orig m files = Restored C key orig (files m) (files (enc m))

  sealed_lem :
      (io : Io) (m : Text) (orig : Option Bytes) (before after : Files Bytes)
      → Single m
      → length io.nonce ≡ nonce_len
      → ((plain : Bytes) → orig ≡ some plain → 0 < length plain)
      → KeptIn orig m before
      → encrypt_file C io key m (enc m) before ≡ some after
      → (after m ≡ before m) × (before m ≡ orig) × Opens C key orig (after (enc m))
  unfolding encrypt_file
  sealed_lem io m orig before after single short nonempty kept h =
      let (blob, made, there) =
        written-some io (enc m) (sealed C key io.nonce (read io (before m))) before after h in
      let (plain, got) = no_blob C laws key io.nonce (read io (before m)) blob made in
      let held : before m ≡ some plain = read-some io (before m) plain got in
      let same : before m ≡ orig = elim kept [
        | inl (e, _) ↦ e
        | inr (e, _) ↦ absurd (ground arith)
      ] in
      let content : orig ≡ some plain = sym same ∙ held in
      let openable : opened C key (some blob) ≡ some plain =
        opened-sealed C laws key io.nonce plain blob short (rw got at made)
        ∙ (let positive = nonempty plain content in ground arith) in
      (rw (← there, single.1) refl, same, (plain, content, rw (← there, beq_self (enc m)) openable))

  pub kept_same :
      (orig : Option Bytes) (m : Text) (before after : Files Bytes)
      → SameAt m before after
      → KeptIn orig m before
      → KeptIn orig m after
  kept_same orig m before after same kept = rw (same.0, same.1) kept

  pub encrypted_own :
      (io : Io) (m : Text) (orig : Option Bytes) (before after : Files Bytes)
      → Single m
      → length io.nonce ≡ nonce_len
      → ((plain : Bytes) → orig ≡ some plain → 0 < length plain)
      → KeptIn orig m before
      → encrypt_file C io key m (enc m) before ≡ some after
      → KeptIn orig m (without_wal_shm io m after)
  encrypted_own io m orig before after single short nonempty kept h =
      let (same, whole, opens) = sealed_lem io m orig before after single short nonempty kept h in
      let (file, copy) = own_without io m after single in
      let still : Opens C key orig (without_wal_shm io m after (enc m)) = rw copy opens in
      elim file [ inl gone ↦ inr (gone, still) | inr stays ↦ inl (stays ∙ same ∙ whole, inr still) ]

  pub encrypted-Away :
      (io : Io) (n m : Text) (before after : Files Bytes)
      → Away n m
      → encrypt_file C io key n (enc n) before ≡ some after
      → SameAt m before (without_wal_shm io n after)
  unfolding encrypt_file
  encrypted-Away io n m before after away h =
      let (blob, made, there) =
        written-some io (enc n) (sealed C key io.nonce (read io (before n))) before after h in
      SameAt-trans m before after (without_wal_shm io n after)
        (rw (← there) (put-Off (enc n) m (some blob) before away.1))
        (without-Away io n m after away)

  opened-read :
      (io : Io) (copy : Option Bytes) (plain : Bytes)
      → opened C key (read io copy) ≡ some plain
      → opened C key copy ≡ some plain
  opened-read io none plain h = elim (Bool-cases io.reads) [
    | inl e ↦ absurd (ground arith)
    | inr e ↦ absurd (ground arith)
  ]
  opened-read io (some blob) plain h = elim (Bool-cases io.reads) [
    | inl e ↦ rw e at h
    | inr e ↦ absurd (ground arith)
  ]

  content_of :
      (orig file copy : Option Bytes) (plain : Bytes)
      → Kept C key orig file copy
      → opened C key copy ≡ some plain
      → orig ≡ some plain
  content_of orig file copy plain (inl (e, inl gone)) h = absurd (ground arith)
  content_of orig file copy plain (inl (e, inr (p, is, opens))) h = is ∙ sym opens ∙ h
  content_of orig file copy plain (inr (e, (p, is, opens))) h = is ∙ sym opens ∙ h

  removed_copy :
      (b : Bool) (m : Text) (orig : Option Bytes) (plain : Bytes) (files : Files Bytes)
      → Single m
      → files m ≡ orig
      → orig ≡ some plain
      → opened C key (files (enc m)) ≡ some plain
      → RestoredIn orig m (remove_file b (enc m) files)
  removed_copy false m orig plain files single e is opens = (e, inr (plain, is, opens))
  removed_copy true m orig plain files single e is opens =
      (rw single.1 e, inl (rw (beq_self (enc m)) refl))

  pub decrypted_own :
      (io : Io) (m : Text) (orig : Option Bytes) (before after : Files Bytes)
      → Single m
      → KeptIn orig m before
      → decrypt_file C io key (enc m) m before ≡ some after
      → RestoredIn orig m (remove_file io.removes (enc m) after)
  unfolding decrypt_file
  decrypted_own io m orig before after single kept h =
      let (plain, made, there) =
        written-some io m (opened C key (read io (before (enc m)))) before after h in
      let got : opened C key (before (enc m)) ≡ some plain =
        opened-read io (before (enc m)) plain made in
      let content : orig ≡ some plain =
        content_of orig (before m) (before (enc m)) plain kept got in
      let back : after m ≡ orig = rw (← there, beq_self m) (sym content) in
      let copy : after (enc m) ≡ before (enc m) = rw (← there, single.0) refl in
      removed_copy io.removes m orig plain after single back content (rw copy got)

  pub decrypted-Away :
      (io : Io) (n m : Text) (before after : Files Bytes)
      → Away n m
      → decrypt_file C io key (enc n) n before ≡ some after
      → SameAt m before (remove_file io.removes (enc n) after)
  unfolding decrypt_file
  decrypted-Away io n m before after away h =
      let (plain, made, there) =
        written-some io n (opened C key (read io (before (enc n)))) before after h in
      SameAt-trans m before after (remove_file io.removes (enc n) after)
        (rw (← there) (put-Off n m (some plain) before away.0))
        (remove-Off io.removes (enc n) m after away.1)
