-- ===== src/Uid.antt =====
-- `BlockUid` of src/benji/database.py: the pair of numbers that names a block's data in a storage,
-- or no numbers for a sparse block; and its key in the storage, with `StorageKeyMixIn` of
-- src/benji/storage/key.py. Texts are lists of code points.
pub mod Order
pub mod Digits
pub mod Keys
use be_backup.Prelude.{
  ltb, leb, if◌then◌else◌, Comparable, ◌==◌, length, take, drop, ℕ, zero, suc, ◌+◌, ◌-◌, ◌*◌, ◌/◌,
  ◌%◌, ◌^◌, ◌≡◌, ◌↔◌, Bool, true, false, not, ◌&&◌, ◌||◌, Option, none, some, List, [], ◌∷◌, ◌++◌,
  arith, nat_eq, option_eq,
}
use be_backup.Errors.{value_error, runtime_error, assertion_error, Result, ok, err, ◌>>=◌}

abbrev pub Text : Type 0
Text = List ℕ

pub record BlockUid : Type 0 where
  pub left : Option ℕ
  pub right : Option ℕ

abbrev pub sparse_block_uid : BlockUid
sparse_block_uid = record { left = none; right = none }

abbrev pub block_uid : ℕ → ℕ → BlockUid
block_uid l r = record { left = some l; right = some r }

abbrev pub is_some {ℓ} : {A : Type ℓ} → Option A → Bool
is_some none = false
is_some (some a) = true

-- __init__: both numbers or none
unfoldable pub new_block_uid : Option ℕ → Option ℕ → Result BlockUid
new_block_uid l r =
    if not (is_some l) && not (is_some r) || is_some l && is_some r
    then ok (record { left = l; right = r })
    else err assertion_error

-- __eq__
abbrev pub uid_eqb : BlockUid → BlockUid → Bool
uid_eqb a b = a.left == b.left && a.right == b.right

pub uid_eqb_iff : (a b : BlockUid) → (uid_eqb a b ≡ true) ↔ (a ≡ b)
uid_eqb_iff a b = ground arith

instance abbrev pub block_uid_eq : Comparable BlockUid
block_uid_eq = record { same = uid_eqb; same_iff = uid_eqb_iff }

-- __bool__
abbrev pub is_set : BlockUid → Bool
is_set a = is_some a.left && is_some a.right

abbrev pub or_zero : Option ℕ → ℕ
or_zero none = 0
or_zero (some n) = n

-- __lt__
unfoldable pub uid_lt : BlockUid → BlockUid → Bool
uid_lt a b =
    ltb (or_zero a.left) (or_zero b.left)
    || or_zero a.left == or_zero b.left && ltb (or_zero a.right) (or_zero b.right)

-- '{:x}' of one digit
unfoldable pub digit : ℕ → ℕ
digit d = if ltb d 10 then b'0' + d else b'a' + (d - 10)

-- the last `w` hexadecimal digits of a number
unfoldable pub low_digits : ℕ → ℕ → Text
unfolding digit
low_digits zero n = []
low_digits (suc w) n = low_digits w (n / 16) ++ digit (n % 16) ∷ []

-- the digits of a number, none for 0; a number that is not above the fuel has at most so many
unfoldable pub digits : ℕ → ℕ → Text
unfolding digit
digits zero n = []
digits (suc f) n =
    let rest = digits f (n / 16) in if n == 0 then [] else rest ++ digit (n % 16) ∷ []

-- '{:016x}'
unfoldable pub format_16x : ℕ → Text
unfolding low_digits digits
format_16x n = let high = n / 16 ^ 16 in digits high high ++ low_digits 16 n

-- the value of a hexadecimal digit
unfoldable pub digit_value : ℕ → Option ℕ
digit_value c =
    if leb b'0' c && leb c b'9'
    then some (c - b'0')
    else if leb b'a' c && leb c b'f'
    then some (c - b'a' + 10)
    else if leb b'A' c && leb c b'F'
    then some (c - b'A' + 10)
    else none

unfoldable pub parse_digits : ℕ → Text → Result ℕ
parse_digits n [] = ok n
parse_digits n (c ∷ cs) = elim (digit_value c) [
  | none ↦ err value_error
  | some d ↦ parse_digits (n * 16 + d) cs
]

-- int(s, 16) of a text of digits. The signs, spaces, underscores and the prefix 0x that `int` also
-- accepts are errors here: no key that the program writes has them.
unfoldable pub int_16 : Text → Result ℕ
unfolding parse_digits
int_16 [] = err value_error
int_16 (c ∷ cs) = parse_digits 0 (c ∷ cs)

abbrev key_of : Option ℕ → Option ℕ → Result Text
key_of (some l) (some r) = ok (format_16x l ++ b'-' ∷ format_16x r)
key_of _ _ = err assertion_error

-- _storage_object_to_key
unfoldable pub uid_to_key : BlockUid → Result Text
uid_to_key a = key_of a.left a.right

-- _storage_key_to_object
unfoldable pub key_to_uid : Text → Result BlockUid
key_to_uid key =
    if length key == 16 + 1 + 16
    then (do l ← int_16 (take 16 key); r ← int_16 (take 16 (drop 17 key)); ok (block_uid l r))
    else err runtime_error

-- str.startswith
unfoldable pub starts_with : Text → Text → Bool
starts_with [] s = true
starts_with (c ∷ p) [] = false
starts_with (c ∷ p) (d ∷ s) = c == d && starts_with p s

-- _to_path, with the hexadecimal MD5 digest of a text
unfoldable pub to_path : (Text → Text) → Text → Text → Text
to_path md5 prefix key =
    prefix ++ (take 2 (md5 key) ++ b'/' ∷ (take 2 (drop 2 (md5 key)) ++ b'/' ∷ key))

-- _from_path
unfoldable pub from_path : Text → Text → Result Text
unfolding starts_with
from_path prefix key =
    if starts_with prefix key
    then (if leb (length key) (length prefix + 6)
        then err runtime_error
        else ok (drop (length prefix + 6) key))
    else err runtime_error

-- 'blocks/'
abbrev pub blocks_prefix : Text
blocks_prefix = b'b' ∷ b'l' ∷ b'o' ∷ b'c' ∷ b'k' ∷ b's' ∷ b'/' ∷ []

-- storage_object_to_path
unfoldable pub uid_to_path : (Text → Text) → BlockUid → Result Text
uid_to_path md5 a = do key ← uid_to_key a; ok (to_path md5 blocks_prefix key)

-- storage_path_to_object
unfoldable pub path_to_uid : Text → Result BlockUid
path_to_uid path = do key ← from_path blocks_prefix path; key_to_uid key
