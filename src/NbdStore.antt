-- ===== src/NbdStore.antt =====
-- `_BlockStore` and `BenjiStore` of src/benji/benji.py: the blocks that the NBD server reads, and
-- the copies of those that it writes. The copied blocks are the dict of one version. The files of
-- the block store do not fail but for a file that is not there, the block cache and the storage are
-- parameters, and a chunk whose length is below 0 is one of no bytes.
pub mod Device
pub mod Reads
pub mod Chunks
pub mod Writes
pub mod Names
use be_backup.Prelude.{
  if◌then◌else◌, ◌==◌, length, take, drop, replicate, filter, contains, add, ℕ, ◌+◌, not, Option,
  none, some, List, [], ◌∷◌, ◌++◌, nat_eq, list_eq, option_eq,
}
use be_backup.Errors.{assertion_error, Result, ok, ◌>>=◌, ◌>>◌, require}
use be_backup.Uid.{Text, BlockUid, block_uid, is_set, uid_to_key, to_path, block_uid_eq}
use be_backup.Database.{Block, Version, Database}
use be_backup.Transforms.{Bytes}
use be_backup.Io.{write_at}
use be_backup.Storage.File.{Files, read_file, write_file, rm_file}
use be_backup.BlockList.{Chunk, block_list}

-- _cache_filename
unfoldable pub cache_filename : (Text → Text) → Text → BlockUid → Result Text
cache_filename md5 directory uid = do
  key ← uid_to_key uid
  ok (to_path md5 (directory ++ b'/' ∷ []) key)

pub record BlockStore : Type 0 where
  pub files : Files
  pub block_present : List BlockUid

-- a read of some bytes from an offset on
abbrev pub read_at : ℕ → ℕ → Bytes → Bytes
read_at offset n bytes = take n (drop offset bytes)

-- f.seek(offset), f.write(data) of a file that is open for both
unfoldable pub update_bytes : ℕ → Bytes → Bytes → Bytes
update_bytes offset [] old = old
update_bytes offset (x ∷ xs) old = write_at offset (x ∷ xs) old

module _ (path : BlockUid → Result Text) where
  unfoldable pub store_read : BlockUid → ℕ → ℕ → BlockStore → Result Bytes
  store_read uid offset n s = do
    filename ← path uid
    bytes ← read_file filename s.files
    ok (read_at offset n bytes)

  unfoldable pub store_write : BlockUid → Bytes → BlockStore → Result BlockStore
  store_write uid bytes s = do
    filename ← path uid
    ok (record {
      files = write_file filename bytes s.files;
      block_present = add uid s.block_present;
    })

  unfoldable pub store_update : BlockUid → ℕ → Bytes → BlockStore → Result BlockStore
  store_update uid offset bytes s = do
    filename ← path uid
    old ← read_file filename s.files
    ok (record s { files = write_file filename (update_bytes offset bytes old) s.files })

  -- a UID or a file that is not there is passed over
  unfoldable pub store_rm : BlockUid → BlockStore → Result BlockStore
  store_rm uid s = do
    filename ← path uid
    ok (record {
      files = (rm_file filename s.files).1;
      block_present = filter (λ u. not (u == uid)) s.block_present;
    })

-- The cache of blocks, with what it may forget.
pub record BlockCache (C : Type 0) : Type 0 where
  pub cached : BlockUid → C → Option Bytes
  pub put : BlockUid → Bytes → C → C

-- cow[idx], if it is there
unfoldable pub find_copy : ℕ → List (ℕ × Block) → Option Block
find_copy i [] = none
find_copy i ((j, b) ∷ cow) = let rest = find_copy i cow in if j == i then some b else rest

module _ {C : Type 0} (path : BlockUid → Result Text) (cache : BlockCache C)
    (fetch : Block → Result Bytes) where
  -- a part of a block of the version itself
  unfoldable pub read_original : Block → ℕ → ℕ → C → Result (Bytes × C)
  read_original b offset n c =
      if not (is_set b.uid) then ok (replicate n 0, c) else elim (cache.cached b.uid c) [
        | some bytes ↦ ok (read_at offset n bytes, c)
        | none ↦ (do bytes ← fetch b; ok (read_at offset n bytes, cache.put b.uid bytes c))
      ]

  -- the body of the loop in `read`
  unfoldable pub read_chunk :
      Option (List (ℕ × Block)) → BlockStore → Chunk → C → Result (Bytes × C)
  read_chunk none s k c = read_original k.block k.offset_in_block k.length_in_block c
  read_chunk (some cow) s k c = elim (find_copy k.block.idx cow) [
    | none ↦ read_original k.block k.offset_in_block k.length_in_block c
    | some b ↦ (do
      require (contains s.block_present b.uid) assertion_error
      bytes ← store_read path b.uid k.offset_in_block k.length_in_block s
      ok (bytes, c))
  ]

  unfoldable pub read_chunks :
      Option (List (ℕ × Block)) → BlockStore → List Chunk → C → Result (Bytes × C)
  read_chunks cow s [] c = ok ([], c)
  read_chunks cow s (k ∷ ks) c = do
    (bytes, c') ← read_chunk cow s k c
    (rest, c'') ← read_chunks cow s ks c'
    ok (bytes ++ rest, c'')

  -- read; without enough fuel for the list of the chunks there is no result
  unfoldable pub read :
      Database
      → Version
      → Option (List (ℕ × Block))
      → BlockStore
      → C
      → ℕ
      → ℕ
      → Option (Result (Bytes × C))
  read db v cow s c offset n = elim (block_list db v offset n) [
    | none ↦ none
    | some ks ↦ some (read_chunks cow s ks c)
  ]

-- the data of a block that is copied
unfoldable pub copied_data : (Block → Result Bytes) → Version → Block → Result Bytes
copied_data fetch v b = if is_set b.uid then fetch b else ok (replicate v.block_size 0)

module _ (path : BlockUid → Result Text) (fetch : Block → Result Bytes) where
  -- the body of the loop in `write`, for the bytes of one chunk
  unfoldable pub write_chunk :
      Version
      → Chunk
      → Bytes
      → List (ℕ × Block) × BlockStore
      → Result (List (ℕ × Block) × BlockStore)
  write_chunk v k bytes (cow, s) = elim (find_copy k.block.idx cow) [
    | some b ↦ (do s' ← store_update path b.uid k.offset_in_block bytes s; ok (cow, s'))
    | none ↦ (do
      old ← copied_data fetch v k.block
      s' ←
          store_write path (block_uid v.id (k.block.idx + 1))
            (update_bytes k.offset_in_block bytes old) s
      ok (
        (k.block.idx, record k.block { uid = block_uid v.id (k.block.idx + 1); checksum = none })
            ∷ cow,
        s',
      ))
  ]

  -- the loop, with what is left of the data
  unfoldable pub write_chunks :
      Version
      → List Chunk
      → Bytes
      → List (ℕ × Block) × BlockStore
      → Result (List (ℕ × Block) × BlockStore)
  write_chunks v [] bytes state = ok state
  write_chunks v (k ∷ ks) bytes state = do
    state' ← write_chunk v k (take k.length_in_block bytes) state
    write_chunks v ks (drop k.length_in_block bytes) state'

  unfoldable pub write :
      Database
      → Version
      → ℕ
      → Bytes
      → List (ℕ × Block) × BlockStore
      → Option (Result (List (ℕ × Block) × BlockStore))
  write db v offset bytes state = elim (block_list db v offset (length bytes)) [
    | none ↦ none
    | some ks ↦ some (write_chunks v ks bytes state)
  ]
