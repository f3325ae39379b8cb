-- ===== src/Update/Swap.antt =====
-- A failed swap leaves the program's file as it was.
use gn_drive.Common.{
  ◌≡◌, refl, sym, ap, ◌∙◌, Bool, true, false, Option, [], ◌∷◌, ◌++◌, ◌==◌, nat_eq, beq_self, arith,
}
use mathlib.Core.List.{append-nil}
use gn_drive.Common.Text.{Text, codes, text_eq, text_beq}
use gn_drive.Update.{
  Files, Steps, put, remove_file, rename, swapped, backed_up, with_mode, copied, atomic_swap,
}

text_beq-append : (s t u : Text) → text_beq (s ++ t) (s ++ u) ≡ text_beq t u
unfolding text_beq
text_beq-append [] t u = refl
text_beq-append (c ∷ s) t u = rw (text_beq-append s t u) (ground arith)

with_suffix : (s t : Text) → ((s ++ t) == s) ≡ text_beq t []
with_suffix s t =
    ap (λ (u : Text). text_beq (s ++ t) u) (sym (append-nil s)) ∙ text_beq-append s t []

without_suffix : (s t : Text) → (s == (s ++ t)) ≡ text_beq [] t
without_suffix s t =
    ap (λ (u : Text). text_beq u (s ++ t)) (sym (append-nil s)) ∙ text_beq-append s [] t

-- Three paths that differ.
record AreApart (staged bak current : Text) : Type 0 where
  staged_current : (staged == current) ≡ false
  bak_current : (bak == current) ≡ false
  staged_bak : (staged == bak) ≡ false
  bak_staged : (bak == staged) ≡ false
  current_bak : (current == bak) ≡ false
  current_staged : (current == staged) ≡ false

suffixes-AreApart : (p : Text) → AreApart (p ++ codes ".new") (p ++ codes ".bak") p
unfolding text_beq
suffixes-AreApart p = record {
  staged_current = with_suffix p (codes ".new");
  bak_current = with_suffix p (codes ".bak");
  staged_bak = text_beq-append p (codes ".new") (codes ".bak");
  bak_staged = text_beq-append p (codes ".bak") (codes ".new");
  current_bak = without_suffix p (codes ".bak");
  current_staged = without_suffix p (codes ".new");
}

module _ {Content : Type 0} where
  -- When the swap succeeds, the new file is in place and the old one is the backup; when it fails,
  -- and the renaming back does not fail too, the old file is in place.
  abbrev pub IsSafe :
      Bool → Text → Text → Option Content → Option Content → Bool × Files Content → Type 0
  IsSafe renames_back bak current new old (done, files) =
      (done ≡ true → (files current ≡ new) × (files bak ≡ old))
      × (done ≡ false → renames_back ≡ true → files current ≡ old)

  removed_elsewhere :
      (b : Bool) (p q : Text) (files : Files Content)
      → (p == q) ≡ false
      → remove_file b p files q ≡ files q
  removed_elsewhere false p q files e = refl
  removed_elsewhere true p q files e = rw e refl

  renamed_back :
      (b : Bool) (p q : Text) (files : Files Content) → b ≡ true → rename b p q files q ≡ files p
  renamed_back true p q files e = rw (beq_self q) refl
  renamed_back false p q files e = absurd (ground arith)

  module _ (w : Steps Content) (staged bak current : Text)
      (apart : AreApart staged bak current) where
    swapped-IsSafe :
        (b : Bool) (new old : Option Content) (files : Files Content)
        → files staged ≡ new
        → files bak ≡ old
        → IsSafe w.renames_back bak current new old (swapped b w staged bak current files)
    swapped-IsSafe true new old files s k = (
      λ h. (rw (beq_self current) s, rw (apart.current_bak, apart.staged_bak) k),
      λ h. absurd (ground arith),
    )
    swapped-IsSafe false new old files s k = (
      λ h. absurd (ground arith),
      λ h back.
          removed_elsewhere w.cleans staged current (rename w.renames_back bak current files)
            apart.staged_current
          ∙ renamed_back w.renames_back bak current files back
          ∙ k,
    )

    backed_up-IsSafe :
        (b : Bool) (new old : Option Content) (files : Files Content)
        → files staged ≡ new
        → files current ≡ old
        → IsSafe w.renames_back bak current new old (backed_up b w staged bak current files)
    backed_up-IsSafe true new old files s c =
        swapped-IsSafe w.renames_staged new old (rename true current bak files)
          (rw (apart.bak_staged, apart.current_staged) s) (rw (beq_self bak) c)
    backed_up-IsSafe false new old files s c = (
      λ h. absurd (ground arith),
      λ h back. removed_elsewhere w.cleans staged current files apart.staged_current ∙ c,
    )

    with_mode-IsSafe :
        (b : Bool) (new old : Option Content) (files : Files Content)
        → files staged ≡ new
        → files current ≡ old
        → IsSafe w.renames_back bak current new old (with_mode b w staged bak current files)
    with_mode-IsSafe false new old files s c = (λ h. absurd (ground arith), λ h back. c)
    with_mode-IsSafe true new old files s c =
        backed_up-IsSafe w.renames_current new old (remove_file w.removes_backup bak files)
          (removed_elsewhere w.removes_backup bak staged files apart.bak_staged ∙ s)
          (removed_elsewhere w.removes_backup bak current files apart.bak_current ∙ c)

    copied-IsSafe :
        (b : Bool) (new old : Option Content) (files : Files Content)
        → files current ≡ old
        → IsSafe w.renames_back bak current new old (copied b w staged bak current new files)
    copied-IsSafe false new old files c =
        (λ h. absurd (ground arith), λ h back. rw apart.staged_current c)
    copied-IsSafe true new old files c =
        with_mode-IsSafe w.sets_mode new old (put staged new files) (rw (beq_self staged) refl)
          (rw apart.staged_current c)

  -- For any file operations that succeed or fail, when the new file is not the staged path itself:
  -- if atomic_swap succeeds, the new content is in place and the old one is the backup; if it
  -- fails, and the renaming back does not fail too, the old content is in place.
  pub atomic_swap-IsSafe :
      (w : Steps Content) (new_bin current : Text) (files : Files Content)
      → ((current ++ codes ".new") == new_bin) ≡ false
      → IsSafe w.renames_back
          (current ++ codes ".bak")
          current
          (files new_bin)
          (files current)
          (atomic_swap w new_bin current files)
  unfolding atomic_swap text_beq
  atomic_swap-IsSafe w new_bin current files apart =
      let staged = current ++ codes ".new" in
      let bak = current ++ codes ".bak" in
      let cleared = remove_file w.removes_staged staged files in
      rw (sym (removed_elsewhere w.removes_staged staged new_bin files apart)) (
        copied-IsSafe w staged bak current (suffixes-AreApart current) w.copies (cleared new_bin)
          (files current) cleared
          (removed_elsewhere w.removes_staged staged current files
            (with_suffix current (codes ".new"))))
