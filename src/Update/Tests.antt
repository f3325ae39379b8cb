-- ===== src/Update/Tests.antt =====
-- Examples of updates.
use gn_drive.Common.{ℕ, ◌≡◌, refl, true, false, none, some, ◌++◌, ◌==◌, if◌then◌else◌}
use gn_drive.Common.Text.{codes, text_eq, text_beq, trim, is_whitespace, split, digits, digits_from}
use gn_drive.Update.{
  Files, Steps, atomic_swap, is_newer, parts, part_at, number, core, trim_v, newer_from,
}
use gn_drive.Update.Swap.{IsSafe, atomic_swap-IsSafe}

newest : is_newer (codes "v1.10.0") (codes "1.9.2-beta") ≡ true
unfolding is_newer parts part_at number core trim_v newer_from trim is_whitespace split digits
    digits_from
newest = refl

newer : is_newer (codes "1.9.2-beta") (codes "1.9") ≡ true
unfolding is_newer parts part_at number core trim_v newer_from trim is_whitespace split digits
    digits_from
newer = refl

abbrev installed : Files ℕ
installed p = if p == codes "/app" then some 1 else if p == codes "/tmp/app" then some 2 else none

-- The new file cannot be put in place.
abbrev refused : Steps ℕ
refused = record {
  removes_staged = true;
  copies = true;
  partial = none;
  sets_mode = true;
  removes_backup = false;
  renames_current = true;
  renames_staged = false;
  renames_back = true;
  cleans = true;
}

apart : ((codes "/app" ++ codes ".new") == codes "/tmp/app") ≡ false
unfolding text_beq
apart = refl

atomic_swap-IsSafe_example :
    IsSafe true
      (codes "/app" ++ codes ".bak")
      (codes "/app")
      (installed (codes "/tmp/app"))
      (installed (codes "/app"))
      (atomic_swap refused (codes "/tmp/app") (codes "/app") installed)
atomic_swap-IsSafe_example =
    atomic_swap-IsSafe refused (codes "/tmp/app") (codes "/app") installed apart
