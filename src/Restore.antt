-- ===== src/Restore.antt =====
-- `Benji.restore` of src/benji/benji.py between the opening of its target and the closing: the sparse
-- blocks are written as zeros, the others are read, written, and checked. The order in which an
-- executor completes its jobs is a function of the submitted ones. The target is a file, whose
-- writes do not fail.
pub mod Writes
pub mod Targets
pub mod RoundTrip
use be_backup.Prelude.{
  if◌then◌else◌, ◌==◌, length, replicate, filter, ℕ, Bool, true, false, not, some, List, [], ◌∷◌,
  map, nat_eq, list_eq, option_eq,
}
use be_backup.Errors.{Result, err, ok, ◌>>=◌, is_key_or_value_error}
use be_backup.Uid.{Text, is_set, block_uid_eq}
use be_backup.Database.{Block, Version, Database, create_sparse_block, version_blocks}
use be_backup.Versions.{set_block_valid}
use be_backup.Transforms.{Bytes}
use be_backup.Storage.{Metadata}
use be_backup.Storage.Operations.{check_block_metadata}
use be_backup.Io.{file_write}

-- The orders of completion of the writes of sparse blocks, of the reads and of the other writes.
pub record Orders : Type 0 where
  pub sparse_writes : List (Block × Bytes) → List (Block × Bytes)
  pub reads : List Block → List Block
  pub writes : List (Block × Bytes) → List (Block × Bytes)

-- if block.uid: storage.read_block_async(block)
unfoldable pub blocks_to_read : List Block → List Block
blocks_to_read = filter (λ b. is_set b.uid)

-- elif not sparse: io.write(block, sparse_data_block)
unfoldable pub sparse_writes_of : Bool → Version → List Block → List (Block × Bytes)
sparse_writes_of true v blocks = []
sparse_writes_of false v blocks =
    map (λ b. (b, replicate v.block_size 0)) (filter (λ b. not (is_set b.uid)) blocks)

-- the writes to the target, in the order in which they are completed
unfoldable pub write_all : ℕ → List (Block × Bytes) → Bytes → Bytes
write_all block_size [] d = d
write_all block_size ((b, bytes) ∷ jobs) d =
    write_all block_size jobs (file_write block_size b bytes d)

-- the database after the checks of a block that was read; a block that fails one is marked invalid
unfoldable pub check_restored :
    (Bytes → Text) → Database → Block → Bytes → Metadata → Result Database
check_restored hash db b bytes m = elim (check_block_metadata b (some (length bytes)) m) [
  | err e ↦ if is_key_or_value_error e then ok (set_block_valid db b.uid false).0 else err e
  | ok u ↦ if some (hash bytes) == b.checksum then ok db else ok (set_block_valid db b.uid false).0
]

-- The loop over the completed reads. `current` is the variable `block`: of a read that failed with a
-- key or value error it is not the block of that read, which is not known there.
unfoldable pub restore_loop :
    (Bytes → Text)
    → (Block → Result (Bytes × Metadata))
    → Database
    → Block
    → List Block
    → Result (Database × List (Block × Bytes))
restore_loop hash read db current [] = ok (db, [])
restore_loop hash read db current (b ∷ bs) = elim (read b) [
  | err e ↦ elim (is_key_or_value_error e) [
    | true ↦ restore_loop hash read (set_block_valid db current.uid false).0 current bs
    | false ↦ err e
  ]
  | ok (bytes, m) ↦ (do
    db' ← check_restored hash db b bytes m
    (db'', jobs) ← restore_loop hash read db' b bs
    ok (db'', (b, bytes) ∷ jobs))
]

abbrev last_of : Block → List Block → Block
last_of b [] = b
last_of b (c ∷ bs) = last_of c bs

-- the variable `block` after the loop that submits the jobs
abbrev pub last_block : Version → List Block → Block
last_block v [] = create_sparse_block v 0
last_block v (b ∷ bs) = last_of b bs

-- the database and the target after all writes
unfoldable pub restore_blocks :
    Orders
    → (Bytes → Text)
    → (Block → Result (Bytes × Metadata))
    → Bool
    → Version
    → Database
    → Bytes
    → Result (Database × Bytes)
restore_blocks o hash read sparse v db d = do
  (db', jobs) ←
      restore_loop hash read db (last_block v (version_blocks db v))
        (o.reads (blocks_to_read (version_blocks db v)))
  ok (
    db',
    write_all v.block_size (o.writes jobs) (
        write_all v.block_size (o.sparse_writes (sparse_writes_of sparse v (version_blocks db v)))
          d),
  )
