-- ===== src/Uid/Keys.antt =====
-- The key and the path of a block in a storage: what is printed is read back.
use mathlib.Core.List.{append_assoc, append-nil}
use be_backup.Prelude.{
  length, take, drop, length-append, length-take, length-drop, ℕ, zero, suc, ◌+◌, ◌/◌, ◌^◌, ◌≤◌,
  ◌<◌, ◌≡◌, refl, sym, ap, ◌∙◌, true, List, [], ◌∷◌, ◌++◌, arith, nat_eq,
}
use be_backup.Errors.{ok, ◌>>=◌}
use be_backup.Uid.{
  Text, block_uid, low_digits, digits, format_16x, parse_digits, int_16, uid_to_key, key_to_uid,
  starts_with, to_path, from_path, blocks_prefix, uid_to_path, path_to_uid, block_uid_eq,
}
use be_backup.Uid.Digits.{length-low_digits, parse-low_digits}

format_16x_lem : (n : ℕ) → n < 16 ^ 16 → format_16x n ≡ low_digits 16 n
unfolding format_16x digits
format_16x_lem n h = let e : n / 16 ^ 16 ≡ 0 = omega arith in rw e

module _ {ℓ} {A : Type ℓ} where
  take-append_left : (n : ℕ) (xs ys : List A) → length xs ≡ n → take n (xs ++ ys) ≡ xs
  take-append_left zero [] ys h = refl
  take-append_left (suc n) [] ys h = absurd (omega arith)
  take-append_left zero (x ∷ xs) ys h = absurd (omega arith)
  take-append_left (suc n) (x ∷ xs) ys h = ap (◌∷◌ x) (take-append_left n xs ys (omega arith))

  drop-append_left : (n : ℕ) (xs ys : List A) → length xs ≡ n → drop n (xs ++ ys) ≡ ys
  drop-append_left zero [] ys h = refl
  drop-append_left (suc n) [] ys h = absurd (omega arith)
  drop-append_left zero (x ∷ xs) ys h = absurd (omega arith)
  drop-append_left (suc n) (x ∷ xs) ys h = drop-append_left n xs ys (omega arith)

int_16-parse : (s : Text) → 0 < length s → int_16 s ≡ parse_digits 0 s
unfolding int_16
int_16-parse [] h = absurd (omega arith)
int_16-parse (c ∷ s) h = refl

int_16-format : (n : ℕ) → n < 16 ^ 16 → int_16 (format_16x n) ≡ ok n
unfolding parse_digits
int_16-format n h = rw (format_16x_lem n h) (
    int_16-parse (low_digits 16 n) (omega (arith, length-low_digits 16 n))
    ∙ ap (parse_digits 0) (sym (append-nil (low_digits 16 n)))
    ∙ parse-low_digits 16 0 n [] h
    ∙ ap ok (omega arith))

length-format : (n : ℕ) → n < 16 ^ 16 → length (format_16x n) ≡ 16
length-format n h = rw (format_16x_lem n h) (length-low_digits 16 n)

-- what `_storage_key_to_object` makes of two numbers of 16 digits
split_key :
    (a b : Text) (l r c : ℕ)
    → length a ≡ 16
    → length b ≡ 16
    → int_16 a ≡ ok l
    → int_16 b ≡ ok r
    → key_to_uid (a ++ c ∷ b) ≡ ok (block_uid l r)
unfolding key_to_uid
split_key a b l r c ha hb ia ib =
    let len : length (a ++ c ∷ b) ≡ 33 = omega (arith, length-append a (c ∷ b)) in
    let t : take 16 (a ++ c ∷ b) ≡ a = take-append_left 16 a (c ∷ b) ha in
    let rest : drop 17 (a ++ c ∷ b) ≡ b =
      ap (drop 17) (sym (append_assoc a (c ∷ []) b))
      ∙ drop-append_left 17 (a ++ c ∷ []) b (omega (arith, length-append a (c ∷ []))) in
    let tb : take 16 b ≡ b = ap (take 16) (sym (append-nil b)) ∙ take-append_left 16 b [] hb in
    rw (len, t, rest, tb, ia, ib)

starts_with-append : (p s : Text) → starts_with p (p ++ s) ≡ true
unfolding starts_with
starts_with-append [] s = refl
starts_with-append (c ∷ p) s = ground (arith, starts_with-append p s)

from_path-to_path :
    (md5 : Text → Text) (prefix key : Text)
    → 4 ≤ length (md5 key)
    → 0 < length key
    → from_path prefix (to_path md5 prefix key) ≡ ok key
unfolding from_path to_path
from_path-to_path md5 prefix key h k =
    let one = take 2 (md5 key) in
    let two = take 2 (drop 2 (md5 key)) in
    let mid = one ++ b'/' ∷ (two ++ b'/' ∷ []) in
    let shape : one ++ b'/' ∷ (two ++ b'/' ∷ key) ≡ mid ++ key = simp append_assoc in
    let n : length mid ≡ 6 = omega (
      arith,
      length-append one (b'/' ∷ (two ++ b'/' ∷ [])),
      length-append two (b'/' ∷ []),
      length-take 2 (md5 key),
      length-take 2 (drop 2 (md5 key)),
      length-drop 2 (md5 key),
    ) in
    let cut : drop (length prefix + 6) (prefix ++ mid ++ key) ≡ key =
      drop-append_left (length prefix + 6) (prefix ++ mid) key
        (omega (arith, length-append prefix mid)) in
    rw shape (
      rw (starts_with-append prefix (mid ++ key), ← append_assoc prefix mid key, cut)
        (ground (arith, length-append (prefix ++ mid) key, length-append prefix mid)))

-- the UID that a path under any prefix is read back as
pub uid_of_path :
    (md5 : Text → Text) (prefix : Text) (l r : ℕ)
    → ((key : Text) → 4 ≤ length (md5 key))
    → l < 16 ^ 16
    → r < 16 ^ 16
    → (let key = format_16x l ++ b'-' ∷ format_16x r in
        (uid_to_key (block_uid l r) ≡ ok key)
        × ((from_path prefix (to_path md5 prefix key) >>= key_to_uid) ≡ ok (block_uid l r)))
unfolding uid_to_key
uid_of_path md5 prefix l r digest hl hr =
    let key = format_16x l ++ b'-' ∷ format_16x r in
    (
      refl,
      rw
          (from_path-to_path md5 prefix key (digest key)
            (omega (arith, length-append (format_16x l) (b'-' ∷ format_16x r))))
          (split_key (format_16x l) (format_16x r) l r b'-' (length-format l hl)
            (length-format r hr) (int_16-format l hl) (int_16-format r hr)),
    )

-- For UIDs whose numbers are below 16 ^ 16, the path under which a block's data is stored reads
-- back as the UID; so no two such blocks share a path. The digest of the path is any text of at
-- least four characters.
pub path_to_uid-uid_to_path :
    (md5 : Text → Text) (l r : ℕ)
    → ((key : Text) → 4 ≤ length (md5 key))
    → l < 16 ^ 16
    → r < 16 ^ 16
    → (path : Text) × (uid_to_path md5 (block_uid l r) ≡ ok path)
      × (path_to_uid path ≡ ok (block_uid l r))
unfolding uid_to_path path_to_uid uid_to_key
path_to_uid-uid_to_path md5 l r digest hl hr =
    let key = format_16x l ++ b'-' ∷ format_16x r in
    (to_path md5 blocks_prefix key, refl, (uid_of_path md5 blocks_prefix l r digest hl hr).1)
