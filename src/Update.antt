-- ===== src/Update.antt =====
-- crates/gn-drive-core/src/self_update.rs: the order of versions, and the replacement of the program's file.
pub mod Swap
pub mod Release
pub mod Pipeline
pub mod Order
pub mod Tests
use gn_drive.Common.{
  ℕ, zero, suc, ◌^◌, max, Bool, true, false, ◌||◌, Option, none, some, List, [], ◌∷◌, ◌++◌, map,
  ◌==◌, nat_eq, ltb, length, get_elem?, if◌then◌else◌,
}
use gn_drive.Common.Text.{Text, codes, text_eq, trim, split, digits}

unfoldable pub trim_v : Text → Text
trim_v [] = []
trim_v (c ∷ s) = if c == b'v' then s else c ∷ s

abbrev pub or_zero : Option ℕ → ℕ
or_zero none = 0
or_zero (some n) = n

abbrev pub within_u64 : Option ℕ → ℕ
within_u64 none = 0
within_u64 (some n) = if ltb n (2 ^ 64) then n else 0

-- `parse::<u64>().unwrap_or(0)`
unfoldable pub number : Text → ℕ
unfolding digits
number [] = 0
number (c ∷ s) = within_u64 (if c == b'+' then digits s else digits (c ∷ s))

-- The text before the first `-` or `+`.
unfoldable pub core : Text → Text
core [] = []
core (c ∷ s) = let rest = core s in if c == b'-' || c == b'+' then [] else c ∷ rest

unfoldable pub parts : Text → List ℕ
unfolding trim_v number core
parts v = map number (split b'.' (core (trim_v (trim v))))

unfoldable pub part_at : List ℕ → ℕ → ℕ
part_at ps i = or_zero (get_elem? ps i)

-- So many rounds of the loop of `is_newer`, from a position on.
unfoldable pub newer_from : ℕ → ℕ → List ℕ → List ℕ → Bool
unfolding part_at
newer_from zero i a b = false
newer_from (suc n) i a b =
    let rest = newer_from n (suc i) a b in
    if part_at a i == part_at b i then rest else ltb (part_at b i) (part_at a i)

unfoldable pub is_newer : Text → Text → Bool
unfolding parts newer_from
is_newer latest current =
    newer_from (max (length (parts latest)) (length (parts current))) 0 (parts latest)
      (parts current)

-- The files, by their paths.
abbrev pub Files : Type 0 → Type 0
Files Content = Text → Option Content

-- How the file operations of a swap end. A failed copy leaves what it has written.
pub record Steps (Content : Type 0) : Type 0 where
  pub removes_staged : Bool
  pub copies : Bool
  pub partial : Option Content
  pub sets_mode : Bool
  pub removes_backup : Bool
  pub renames_current : Bool
  pub renames_staged : Bool
  pub renames_back : Bool
  pub cleans : Bool

module _ {Content : Type 0} where
  abbrev pub put : Text → Option Content → Files Content → Files Content
  put p c files q = if p == q then c else files q

  abbrev pub remove_file : Bool → Text → Files Content → Files Content
  remove_file false p files = files
  remove_file true p files = put p none files

  abbrev pub rename : Bool → Text → Text → Files Content → Files Content
  rename false p q files = files
  rename true p q files = put q (files p) (put p none files)

  -- After the second rename.
  abbrev pub swapped :
      Bool → Steps Content → Text → Text → Text → Files Content → Bool × Files Content
  swapped true w staged bak current files = (true, rename true staged current files)
  swapped false w staged bak current files =
      (false, remove_file w.cleans staged (rename w.renames_back bak current files))

  -- After the first rename.
  abbrev pub backed_up :
      Bool → Steps Content → Text → Text → Text → Files Content → Bool × Files Content
  backed_up true w staged bak current files =
      swapped w.renames_staged w staged bak current (rename true current bak files)
  backed_up false w staged bak current files = (false, remove_file w.cleans staged files)

  abbrev pub with_mode :
      Bool → Steps Content → Text → Text → Text → Files Content → Bool × Files Content
  with_mode false w staged bak current files = (false, files)
  with_mode true w staged bak current files =
      backed_up w.renames_current w staged bak current (remove_file w.removes_backup bak files)

  abbrev pub copied :
      Bool
      → Steps Content
      → Text
      → Text
      → Text
      → Option Content
      → Files Content
      → Bool × Files Content
  copied false w staged bak current new files = (false, put staged w.partial files)
  copied true w staged bak current new files =
      with_mode w.sets_mode w staged bak current (put staged new files)

  -- Whether the swap succeeds, and the files afterwards.
  unfoldable pub atomic_swap : Steps Content → Text → Text → Files Content → Bool × Files Content
  atomic_swap w new_bin current files =
      let bak = current ++ codes ".bak" in
      let staged = current ++ codes ".new" in
      let cleared = remove_file w.removes_staged staged files in
      copied w.copies w staged bak current (cleared new_bin) cleared
