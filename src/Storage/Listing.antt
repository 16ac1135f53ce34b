-- ===== src/Storage/Listing.antt =====
-- `StorageBase.list_blocks` of src/benji/storage/base.py, on the keys that the storage lists for the
-- prefix of the blocks.
use be_backup.Prelude.{
  leb, if◌then◌else◌, Bool-cases, Option-cases, ◌==◌, length, take, drop, Has, ℕ, ◌+◌, ◌-◌, ◌*◌,
  ◌≡◌, refl, sym, ap, ◌∙◌, inl, inr, Bool, true, false, ◌&&◌, List, [], ◌∷◌, arith, nat_eq, list_eq,
  option_eq,
}
use be_backup.Errors.{Exception, value_error, runtime_error, Result, err, ok, ◌>>=◌}
use be_backup.Uid.{
  Text, BlockUid, block_uid, digit_value, parse_digits, int_16, key_to_uid, starts_with, from_path,
  blocks_prefix, path_to_uid,
}
use be_backup.Storage.{meta_suffix}
use be_backup.Clone.Packages.{Result-cases}

-- str.endswith
unfoldable pub ends_with : Text → Text → Bool
ends_with suffix s = leb (length suffix) (length s) && drop (length s - length suffix) s == suffix

-- except (RuntimeError, ValueError)
abbrev pub is_stray : Exception → Bool
is_stray runtime_error = true
is_stray value_error = true
is_stray _ = false

-- pass, and the next key
abbrev pub pass_stray : {A : Type 0} → Exception → Result A → Result A
pass_stray e rest = elim (is_stray e) [ true ↦ rest | false ↦ err e ]

unfoldable pub list_blocks : List Text → Result (List BlockUid)
list_blocks [] = ok []
list_blocks (key ∷ keys) =
    let rest = list_blocks keys in
    if ends_with meta_suffix key
    then rest
    else elim (path_to_uid key) [ err e ↦ pass_stray e rest | ok u ↦ rest >>= λ us. ok (u ∷ us) ]

-- no value, or an exception that is passed over
abbrev IsPassed : {A : Type 0} → Result A → Type 0
IsPassed r = (e : Exception) → r ≡ err e → is_stray e ≡ true

err-IsPassed : {A : Type 0} (x : Exception) → is_stray x ≡ true → IsPassed {A = A} (err x)
err-IsPassed x t e h = let same : x ≡ e = cc in rw (← same) t

ok-IsPassed : {A : Type 0} (a : A) → IsPassed (ok a)
ok-IsPassed a e h = absurd (ground arith)

parse_digits-IsPassed : (n : ℕ) (s : Text) → IsPassed (parse_digits n s)
unfolding parse_digits
parse_digits-IsPassed n [] e h = absurd (ground arith)
parse_digits-IsPassed n (x ∷ s) e h = elim (Option-cases (digit_value x)) [
  | inl f ↦ err-IsPassed {A = ℕ} value_error refl e (rw (f, parse_digits) at h)
  | inr (d, f) ↦ parse_digits-IsPassed (n * 16 + d) s e (rw (f, parse_digits) at h)
]

int_16-IsPassed : (s : Text) → IsPassed (int_16 s)
unfolding int_16
int_16-IsPassed [] e h = err-IsPassed {A = ℕ} value_error refl e h
int_16-IsPassed (x ∷ s) e h = parse_digits-IsPassed 0 (x ∷ s) e h

err_retype :
    {A B : Type 0} (x e : Exception)
    → ◌≡◌ {A = Result B} (err x) (err e)
    → ◌≡◌ {A = Result A} (err x) (err e)
err_retype x e h = let same : x ≡ e = cc in ap (λ y. err y) same

bind-IsPassed :
    {A B : Type 0} (r : Result A) (f : A → Result B)
    → IsPassed r
    → ((a : A) → IsPassed (f a))
    → IsPassed (r >>= f)
bind-IsPassed (err x) f p q e h = p e (err_retype x e h)
bind-IsPassed (ok a) f p q e h = q a e h

if-IsPassed :
    {A : Type 0} (t : Bool) (r q : Result A)
    → IsPassed r
    → IsPassed q
    → IsPassed (if t then r else q)
if-IsPassed true r q p s = p
if-IsPassed false r q p s = s

from_path-IsPassed : (key : Text) → IsPassed (from_path blocks_prefix key)
unfolding from_path
from_path-IsPassed key =
    let error = err-IsPassed {A = Text} runtime_error refl in
    let rest = drop (length blocks_prefix + 6) key in
    let short = leb (length key) (length blocks_prefix + 6) in
    if-IsPassed (starts_with blocks_prefix key) (if short then err runtime_error else ok rest)
      (err runtime_error) (if-IsPassed short (err runtime_error) (ok rest) error (ok-IsPassed rest))
      error

key_to_uid-IsPassed : (key : Text) → IsPassed (key_to_uid key)
unfolding key_to_uid
key_to_uid-IsPassed key =
    let left = int_16 (take 16 key) in
    let right = int_16 (take 16 (drop 17 key)) in
    if-IsPassed (length key == 16 + 1 + 16) (left >>= λ l. right >>= λ r. ok (block_uid l r))
      (err runtime_error)
      (bind-IsPassed left (λ l. right >>= λ r. ok (block_uid l r)) (int_16-IsPassed (take 16 key))
        (λ l.
          bind-IsPassed right (λ r. ok (block_uid l r)) (int_16-IsPassed (take 16 (drop 17 key)))
            (λ r. ok-IsPassed (block_uid l r))))
      (err-IsPassed {A = BlockUid} runtime_error refl)

path_to_uid-IsPassed : (key : Text) → IsPassed (path_to_uid key)
unfolding path_to_uid
path_to_uid-IsPassed key =
    bind-IsPassed (from_path blocks_prefix key) key_to_uid (from_path-IsPassed key)
      key_to_uid-IsPassed

pass_stray_lem :
    {A : Type 0} (x : Exception) (rest : Result A) → is_stray x ≡ true → pass_stray x rest ≡ rest
pass_stray_lem x rest t = rw (t, pass_stray)

-- the UID of a listed key
abbrev pub IsListed : List Text → BlockUid → Type 0
IsListed keys u =
    (key : Text) × Has key keys × (ends_with meta_suffix key ≡ false) × (path_to_uid key ≡ ok u)

-- Listing the blocks raises nothing, whatever keys the storage lists; a UID is listed exactly if it
-- is that of a key which does not end in the suffix of the metadata.
pub list_blocks-IsListed :
    (keys : List Text)
    → (us : List BlockUid) × (list_blocks keys ≡ ok us)
      × ((u : BlockUid) → Has u us → IsListed keys u)
      × ((u : BlockUid) → IsListed keys u → Has u us)
unfolding list_blocks
list_blocks-IsListed [] = ([], refl, (λ u m. absurd m), λ u (key, m, l, q). absurd m)
list_blocks-IsListed (key ∷ keys) =
    let (us, e, sound, complete) = list_blocks-IsListed keys in
    let later : (u : BlockUid) → IsListed keys u → IsListed (key ∷ keys) u =
      λ u (k, m, l, q). (k, inr m, l, q) in
    elim (Bool-cases (ends_with meta_suffix key)) [
      | inl meta ↦ (
        us,
        rw (list_blocks, meta) e,
        (λ u m. later u (sound u m)),
        λ u (k, m, l, q). elim m [
          | inl same ↦ absurd (
              let no : true ≡ false = sym meta ∙ (ap (ends_with meta_suffix) same ∙ l) in
              ground arith)
          | inr h ↦ complete u (k, h, l, q)
        ],
      )
      | inr plain ↦ elim (Result-cases (path_to_uid key)) [
        | inl (w, f) ↦ (
          w ∷ us,
          rw (list_blocks, plain, f, e) refl,
          (λ u m. elim m [
            | inl same ↦ (key, inl refl, plain, f ∙ ap (λ x. ok x) same)
            | inr h ↦ later u (sound u h)
          ]),
          λ u (k, m, l, q). elim m [
            | inl same ↦ inl (let two : ok w ≡ ok u = sym f ∙ (ap path_to_uid same ∙ q) in cc)
            | inr h ↦ inr (complete u (k, h, l, q))
          ],
        )
        | inr (x, f) ↦ (
          us,
          rw
              (
                list_blocks,
                plain,
                f,
                pass_stray_lem x (list_blocks keys) (path_to_uid-IsPassed key x f),
              )
              e,
          (λ u m. later u (sound u m)),
          λ u (k, m, l, q). elim m [
            | inl same ↦
                absurd (let no : err x ≡ ok u = sym f ∙ (ap path_to_uid same ∙ q) in ground arith)
            | inr h ↦ complete u (k, h, l, q)
          ],
        )
      ]
    ]
