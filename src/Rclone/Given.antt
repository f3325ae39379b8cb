-- ===== src/Rclone/Given.antt =====
-- crates/gn-drive-core/src/rclone/client.rs: what the command line of `profile_to_flags` gives for each flag.
use gn_drive.Common.{
  String, ◌≡◌, refl, sym, inl, inr, Option, none, List, [], ◌∷◌, ◌++◌, ◌==◌, if◌then◌else◌,
  Bool-cases,
}
use mathlib.Core.List.{append-nil}
use gn_drive.Common.Text.{Text, codes, text_eq}
use gn_drive.Profile.{Numerics, ProfileFlags}
use gn_drive.Rclone.{profile_to_flags}
use gn_drive.Rclone.Flags.{Setting, read_from, flatten, entries, settings, profile_to_flags-IsRead}

unfoldable pub occurrences : Text → List Setting → List (Option Text)
occurrences flag [] = []
occurrences flag ((f, v) ∷ ss) =
    let rest = occurrences flag ss in if f == flag then v ∷ rest else rest

-- What a command line gives for a flag, in its order.
unfoldable pub given : Text → List Text → List (Option Text)
unfolding occurrences read_from
given flag args = occurrences flag (read_from none args)

abbrev pub collect : Text → List (String × List (Option Text)) → List (Option Text)
collect flag [] = []
collect flag ((f, vs) ∷ ss) = if codes f == flag then vs ++ collect flag ss else collect flag ss

occurrences-append :
    (flag : Text) (ss ts : List Setting)
    → occurrences flag (ss ++ ts) ≡ occurrences flag ss ++ occurrences flag ts
unfolding occurrences
occurrences-append flag [] ts = refl
occurrences-append flag ((f, v) ∷ ss) ts =
    rw (occurrences-append flag ss ts)
      (elim (Bool-cases (f == flag)) [ inl e ↦ rw e refl | inr e ↦ rw e refl ])

occurrences-entries :
    (flag : Text) (f : String) (vs : List (Option Text))
    → occurrences flag (entries f vs) ≡ (if codes f == flag then vs else [])
unfolding occurrences
occurrences-entries flag f [] = elim (Bool-cases (codes f == flag)) [
  | inl e ↦ rw e refl
  | inr e ↦ rw e refl
]
occurrences-entries flag f (v ∷ vs) =
    rw (occurrences-entries flag f vs)
      (elim (Bool-cases (codes f == flag)) [ inl e ↦ rw e refl | inr e ↦ rw e refl ])

occurrences-flatten :
    (flag : Text) (ss : List (String × List (Option Text)))
    → occurrences flag (flatten ss) ≡ collect flag ss
unfolding occurrences
occurrences-flatten flag [] = refl
occurrences-flatten flag ((f, vs) ∷ ss) =
    rw
      (
        occurrences-append flag (entries f vs) (flatten ss),
        occurrences-entries flag f vs,
        occurrences-flatten flag ss,
      )
      (elim (Bool-cases (codes f == flag)) [ inl e ↦ rw e refl | inr e ↦ rw e refl ])

module _ (N : Numerics) where
  pub given-profile_to_flags :
      (flag : Text) (p : ProfileFlags N.Float)
      → given flag (profile_to_flags N p) ≡ collect flag (settings N p)
  unfolding given read_from
  given-profile_to_flags flag p =
      rw
        (
          sym (append-nil (profile_to_flags N p)),
          profile_to_flags-IsRead N p [],
          append-nil (flatten (settings N p)),
        )
        (occurrences-flatten flag (settings N p))
