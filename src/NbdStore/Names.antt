-- ===== src/NbdStore/Names.antt =====
-- The names of the files of the block store.
use be_backup.Prelude.{
  length, ℕ, ◌+◌, ◌*◌, ◌^◌, ◌≤◌, ◌<◌, ◌≡◌, refl, sym, ◌∙◌, [], ◌∷◌, ◌++◌, arith, nat_eq, list_eq,
  option_eq,
}
use be_backup.Errors.{ok, ◌>>=◌}
use be_backup.Uid.{Text, block_uid, format_16x, key_to_uid, to_path, from_path, block_uid_eq}
use be_backup.Uid.Keys.{uid_of_path}
use be_backup.Database.{Version}
use be_backup.NbdStore.{cache_filename}
use be_backup.NbdStore.Chunks.{HasNames}

index_below : (i bs size : ℕ) → i * bs < size → 0 < bs → i < size
index_below i bs size lt pos = grind arith

module _ (md5 : Text → Text) (directory : Text) (digest : (key : Text) → 4 ≤ length (md5 key))
    (l r : ℕ) (hl : l < 16 ^ 16) (hr : r < 16 ^ 16) where
  abbrev prefix : Text
  prefix = directory ++ b'/' ∷ []

  abbrev own_key : Text
  own_key = format_16x l ++ b'-' ∷ format_16x r

  name_of : cache_filename md5 directory (block_uid l r) ≡ ok (to_path md5 prefix own_key)
  unfolding cache_filename
  name_of = rw ((uid_of_path md5 prefix l r digest hl hr).0) refl

  read_name :
      (name : Text)
      → cache_filename md5 directory (block_uid l r) ≡ ok name
      → (from_path prefix name >>= key_to_uid) ≡ ok (block_uid l r)
  read_name name e =
      let same : to_path md5 prefix own_key ≡ name = cc (name_of, e) in
      rw (← same) ((uid_of_path md5 prefix l r digest hl hr).1)

-- For a version whose id and size are below 16 ^ 16, the file names of `_cache_filename` are all
-- there and differ. The digest is any text of at least four characters.
pub cache_filename-HasNames :
    (md5 : Text → Text) (directory : Text) (v : Version)
    → ((key : Text) → 4 ≤ length (md5 key))
    → v.id < 16 ^ 16
    → v.size < 16 ^ 16
    → 0 < v.block_size
    → HasNames (cache_filename md5 directory) v
cache_filename-HasNames md5 directory v digest small_id small_size pos =
    let below : (i : ℕ) → i * v.block_size < v.size → i + 1 < 16 ^ 16 =
      λ i lt. omega (arith, index_below i v.block_size v.size lt pos) in
    (
      λ i lt. (
        to_path md5 (directory ++ b'/' ∷ []) (format_16x v.id ++ b'-' ∷ format_16x (i + 1)),
        name_of md5 directory digest v.id (i + 1) small_id (below i lt),
      ),
      λ i j name p q at_i at_j.
          let one = read_name md5 directory digest v.id (i + 1) small_id (below i p) name at_i in
          let two = read_name md5 directory digest v.id (j + 1) small_id (below j q) name at_j in
          let same : ok (block_uid v.id (i + 1)) ≡ ok (block_uid v.id (j + 1)) = sym one ∙ two in
          ground arith,
    )
