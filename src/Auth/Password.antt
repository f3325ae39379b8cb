-- ===== src/Auth/Password.antt =====
-- crates/gn-drive-core/src/argon2id.rs: the encoded hash of a password.
pub mod Reading
use Prim.Native.Nat.{bit_or, bit_xor}
use gn_drive.Common.{
  ℕ, zero, suc, Bool, true, false, ◌&&◌, ◌||◌, not, Option, none, some, List, [], ◌∷◌, ◌++◌, ◌==◌,
  nat_eq, length, get_elem?, if◌then◌else◌,
}
use gn_drive.Common.Text.{Text, codes, text_eq, split, parse_u32}
use gn_drive.Sync.Errors.{starts_with}

abbrev pub Bytes : Type 0
Bytes = List ℕ

-- Argon2id, with a memory, iterations, a parallelism and an output length, which refuses parameters
-- out of its range, and base64 without padding.
pub record Argon2 : Type 0 where
  pub hash_password_into : ℕ → ℕ → ℕ → Text → Bytes → ℕ → Option Bytes
  pub encode : Bytes → Text
  pub decode : Text → Option Bytes

abbrev prefix : Text
prefix = codes "$argon2id$"

abbrev pub key_length : ℕ
key_length = 32

abbrev trimmed_end : ℕ → Text → Text → Text
trimmed_end p c [] = if c == p ∷ [] then [] else c
trimmed_end p c (d ∷ s) = c ++ d ∷ s

-- `trim_end_matches` of a character.
unfoldable pub trim_end : ℕ → Text → Text
trim_end p [] = []
trim_end p (c ∷ s) = trimmed_end p (c ∷ []) (trim_end p s)

abbrev after_first : ℕ → Option (Text × Text) → Option (Text × Text)
after_first c none = none
after_first c (some (a, b)) = some (c ∷ a, b)

-- `split_once`
unfoldable pub split_once : ℕ → Text → Option (Text × Text)
split_once sep [] = none
split_once sep (c ∷ s) =
    let rest = after_first c (split_once sep s) in if c == sep then some ([], s) else rest

pub record Params : Type 0 where
  pub m : Option ℕ
  pub t : Option ℕ
  pub p : Option ℕ

abbrev no_params : Params
no_params = record { m = none; t = none; p = none }

abbrev with_param : Text → ℕ → Params → Option Params
with_param k v ps =
    if k == codes "m"
    then some (record ps { m = some v })
    else if k == codes "t"
    then some (record ps { t = some v })
    else if k == codes "p"
    then some (record ps { p = some v })
    else none

abbrev with_value : Text → Option ℕ → Params → Option Params
with_value k none ps = none
with_value k (some v) ps = with_param k v ps

abbrev with_pair : Option (Text × Text) → Params → Option Params
with_pair none ps = none
with_pair (some (k, v)) ps = with_value k (parse_u32 v) ps

unfoldable pub params_from : List Text → Params → Option Params
unfolding split_once
params_from [] ps = some ps
params_from (kv ∷ kvs) ps = elim (with_pair (split_once b'=' kv) ps) [
  | none ↦ none
  | some qs ↦ params_from kvs qs
]

abbrev all_three : Option Params → Option (ℕ × (ℕ × ℕ))
all_three none = none
all_three (some ps) = elim ps.m [
  | none ↦ none
  | some m ↦ elim ps.t [
    | none ↦ none
    | some t ↦ elim ps.p [ none ↦ none | some p ↦ some (m, (t, p)) ]
  ]
]

unfoldable pub parse_params : Text → Option (ℕ × (ℕ × ℕ))
unfolding params_from
parse_params s = all_three (params_from (split b',' s) no_params)

abbrev pub difference : ℕ → Bytes → Bytes → ℕ
difference d [] ys = d
difference d (x ∷ xs) [] = d
difference d (x ∷ xs) (y ∷ ys) = difference (bit_or d (bit_xor x y)) xs ys

unfoldable pub constant_time_eq : Bytes → Bytes → Bool
constant_time_eq a b = if not (length a == length b) then false else difference 0 a b == 0

abbrev pub text_at : List Text → ℕ → Text
text_at parts i = elim (get_elem? parts i) [ none ↦ [] | some s ↦ s ]

module _ (A : Argon2) where
  unfoldable pub hash_raw : Text → Bytes → ℕ → Option Bytes
  hash_raw password salt n = A.hash_password_into 65536 3 4 password salt n

  unfoldable pub derive_key : Text → Bytes → Option Bytes
  unfolding hash_raw
  derive_key password salt = hash_raw password salt key_length

  abbrev pub encoded : Bytes → Bytes → Text
  encoded salt out =
      codes "$argon2id$v=19$m=65536,t=3,p=4$" ++ (A.encode salt ++ (codes "$" ++ A.encode out))

  -- The hash with the random salt given; none if Argon2 fails.
  unfoldable pub create_hash : Bytes → Text → Option Text
  unfolding hash_raw
  create_hash salt password = elim (hash_raw password salt key_length) [
    | none ↦ none
    | some out ↦ some (encoded salt out)
  ]

  unfoldable pub b64_raw : Text → Option Bytes
  unfolding trim_end
  b64_raw s = A.decode (trim_end b'=' s)

  unfoldable pub matches : Option Bytes → Bytes → Bool
  unfolding constant_time_eq
  matches none stored = false
  matches (some out) stored = constant_time_eq stored out

  abbrev verify_with : Option (ℕ × (ℕ × ℕ)) → Option Bytes → Option Bytes → Text → Bool
  verify_with none salt stored password = false
  verify_with (some params) none stored password = false
  verify_with (some params) (some salt) none password = false
  verify_with (some (m, (t, p))) (some salt) (some stored) password =
      matches (A.hash_password_into m t p password salt (length stored)) stored

  abbrev verify_new : List Text → Text → Bool
  unfolding parse_params b64_raw
  verify_new parts password =
      if not (length parts == 6) || not (text_at parts 2 == codes "v=19")
      then false
      else verify_with (parse_params (text_at parts 3)) (b64_raw (text_at parts 4))
          (b64_raw (text_at parts 5)) password

  -- The older format, whose parameters are fixed.
  abbrev verify_old : List Text → Text → Bool
  unfolding b64_raw
  verify_old parts password =
      if not (length parts == 5)
      then false
      else verify_with (some (65536, (3, 4))) (b64_raw (text_at parts 3))
          (b64_raw (text_at parts 4)) password

  unfoldable pub verify : Text → Text → Bool
  unfolding verify_new verify_old starts_with
  verify password hash =
      if starts_with prefix hash
      then verify_new (split b'$' hash) password
      else verify_old (split b'$' hash) password

  abbrev salt_part : List Text → ℕ → ℕ → Option Bytes
  unfolding b64_raw
  salt_part parts count i = if not (length parts == count) then none else b64_raw (text_at parts i)

  unfoldable pub extract_salt : Text → Option Bytes
  unfolding salt_part starts_with
  extract_salt hash =
      if starts_with prefix hash
      then salt_part (split b'$' hash) 6 4
      else salt_part (split b'$' hash) 5 3

  -- The key of a password with the salt of a hash, if both can be had.
  unfoldable pub key_of : Text → Option Bytes → Option Bytes
  unfolding derive_key
  key_of password none = none
  key_of password (some salt) = derive_key password salt
