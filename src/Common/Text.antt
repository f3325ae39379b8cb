-- ===== src/Common/Text.antt =====
-- Text as a list of code points, with the standard library's operations on `str` that the program
-- uses. Lower-casing covers the ASCII letters.
pub mod Words
pub mod Decimal
use Prim.Native.Char.{code}
use mathlib.Core.List.{reverse}
use gn_drive.Common.Tests.{ltb, leb, eqb, eqb_iff, if◌then◌else◌}
use gn_drive.Common.Eq.{Eq, ◌==◌, nat_eq}
use Prim.Native.Nat.{ℕ, ◌+◌, ◌-◌, ◌*◌, ◌^◌}
use Prim.Native.String.{String}
use mathlib.Core.Path.{◌≡◌, refl}
use mathlib.Core.Logic.{◌↔◌}
use mathlib.Core.Bool.{Bool, true, false, ◌&&◌, ◌||◌}
use mathlib.Core.Option.{Option, none, some}
use mathlib.Core.List.{List, [], ◌∷◌, ◌++◌, map}
use native.Mathlib.Omega.{arith}

abbrev pub Text : Type 0
Text = List ℕ

abbrev pub codes : String → Text
codes String.[] = []
codes (String.◌∷◌ c s) = code c ∷ codes s

unfoldable pub text_beq : Text → Text → Bool
text_beq [] [] = true
text_beq [] (b ∷ t) = false
text_beq (a ∷ s) [] = false
text_beq (a ∷ s) (b ∷ t) = eqb a b && text_beq s t

to_eq : (s t : Text) → text_beq s t ≡ true → s ≡ t
unfolding text_beq
to_eq [] [] h = refl
to_eq [] (b ∷ t) h = ground arith
to_eq (a ∷ s) [] h = ground arith
to_eq (a ∷ s) (b ∷ t) h = ground (arith, to_eq s t)

text_beq_self : (s : Text) → text_beq s s ≡ true
unfolding text_beq
text_beq_self [] = refl
text_beq_self (a ∷ s) = ground (arith, text_beq_self s)

of_eq : (s t : Text) → s ≡ t → text_beq s t ≡ true
of_eq s t e = rw e (text_beq_self t)

pub text_beq_iff : (s t : Text) → (text_beq s t ≡ true) ↔ (s ≡ t)
text_beq_iff s t = (to_eq s t, of_eq s t)

instance abbrev pub text_eq : Eq Text
text_eq = record { same = text_beq; same_iff = text_beq_iff }

-- `trim_matches` with a test on characters.
unfoldable pub trim_start_matches : (ℕ → Bool) → Text → Text
trim_start_matches p [] = []
trim_start_matches p (c ∷ s) = if p c then trim_start_matches p s else c ∷ s

unfoldable pub trim_matches : (ℕ → Bool) → Text → Text
unfolding trim_start_matches
trim_matches p s = reverse (trim_start_matches p (reverse (trim_start_matches p s)))

-- `char::is_whitespace`.
unfoldable pub is_whitespace : ℕ → Bool
is_whitespace c =
    leb 9 c && leb c 13
    || c == 32
    || c == 0x85
    || c == 0xa0
    || c == 0x1680
    || leb 0x2000 c && leb c 0x200a
    || c == 0x2028
    || c == 0x2029
    || c == 0x202f
    || c == 0x205f
    || c == 0x3000

unfoldable pub trim_start : Text → Text
trim_start [] = []
trim_start (c ∷ s) = if is_whitespace c then trim_start s else c ∷ s

unfoldable pub trim : Text → Text
unfolding trim_start
trim s = reverse (trim_start (reverse (trim_start s)))

unfoldable pub to_lower : ℕ → ℕ
to_lower c = if leb b'A' c && leb c b'Z' then c + 32 else c

unfoldable pub to_lowercase : Text → Text
unfolding to_lower
to_lowercase s = map to_lower s

abbrev pub push_head : ℕ → List Text → List Text
push_head c [] = (c ∷ []) ∷ []
push_head c (p ∷ ps) = (c ∷ p) ∷ ps

-- `str::split` at a character: at least one piece, pieces may be empty.
unfoldable pub split : ℕ → Text → List Text
split sep [] = [] ∷ []
split sep (c ∷ s) = let rest = split sep s in if c == sep then [] ∷ rest else push_head c rest

abbrev pub emit : Text → List Text → List Text
emit [] ws = ws
emit (c ∷ w) ws = (c ∷ w) ∷ ws

-- `str::split_whitespace`, with the word that is being read.
unfoldable pub words_from : Text → Text → List Text
words_from w [] = emit w []
words_from w (c ∷ s) =
    let next = words_from [] s in
    let more = words_from (w ++ c ∷ []) s in if is_whitespace c then emit w next else more

unfoldable pub split_whitespace : Text → List Text
unfolding words_from
split_whitespace s = words_from [] s

-- `join` with one space.
unfoldable pub join : List Text → Text
join [] = []
join (w ∷ []) = w
join (w ∷ v ∷ ws) = w ++ b' ' ∷ join (v ∷ ws)

abbrev pub is_digit : ℕ → Bool
is_digit c = leb b'0' c && leb c b'9'

unfoldable pub digits_from : ℕ → Text → Option ℕ
digits_from n [] = some n
digits_from n (c ∷ s) =
    let rest = digits_from (n * 10 + (c - b'0')) s in if is_digit c then rest else none

unfoldable pub digits : Text → Option ℕ
unfolding digits_from
digits [] = none
digits (c ∷ s) = digits_from 0 (c ∷ s)

unfoldable pub below_u32 : Option ℕ → Option ℕ
below_u32 none = none
below_u32 (some n) = if ltb n (2 ^ 32) then some n else none

-- `str::parse::<u32>`: an optional `+`, at least one digit, no overflow.
unfoldable pub parse_u32 : Text → Option ℕ
unfolding digits below_u32
parse_u32 [] = none
parse_u32 (c ∷ s) = below_u32 (if c == b'+' then digits s else digits (c ∷ s))
