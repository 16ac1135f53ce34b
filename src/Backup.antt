-- ===== src/Backup.antt =====
-- `Benji.backup` of src/benji/benji.py after the version is prepared: the blocks to read are chosen,
-- and the job of each goes from the read to the write and to the row in any order that the executors
-- complete it. The source and the operations of the storage are parameters; the rows are read once
-- for the queue, since a row that the loop changes has been yielded.
pub mod Steps
pub mod Rows
pub mod Invariant
pub mod Turns
pub mod Content
pub mod Counts
pub mod Completion
pub mod Queue
pub mod Whole
use be_backup.Prelude.{
  ltb, if◌then◌else◌, ◌==◌, length, replicate, range, contains, ℕ, ◌+◌, max, true, not, ◌&&◌, ◌||◌,
  Option, none, some, List, [], ◌∷◌, map, nat_eq, list_eq, option_eq,
}
use be_backup.Errors.{
  input_data_error, internal_error, assertion_error, Result, ok, ◌>>=◌, ◌>>◌, require,
}
use be_backup.Uid.{Text, sparse_block_uid, block_uid, is_some, is_set, block_uid_eq}
use be_backup.Database.{VersionStatus, Block, Stats, Version, Database, blocks_count}
use be_backup.Versions.{set_block, set_version, get_block_by_checksum}
use be_backup.Hints.{Hint, BlockSets, blocks_from_hints}
use be_backup.Transforms.{Bytes}

abbrev max_offset : List Hint → ℕ
max_offset [] = 0
max_offset (h ∷ hs) = max (h.offset + h.size) (max_offset hs)

-- the sets of the blocks to read and of the sparse blocks, from the hints if there are any
unfoldable pub choose_sets : Option (List Hint) → Version → ℕ → Result BlockSets
choose_sets none v source_size = ok (record { sparse = []; read = range 0 (blocks_count v) })
choose_sets (some []) v source_size = ok (record { sparse = []; read = [] })
choose_sets (some (h ∷ hs)) v source_size = do
  require (not (ltb source_size (max_offset (h ∷ hs)))) input_data_error
  blocks_from_hints (h ∷ hs) v.block_size

-- A block of the first loop: it is read, or its row turns sparse, or it is kept. With the database
-- and the sparse bytes, the block to read.
unfoldable pub queue_block :
    Version → BlockSets → Block → Database → ℕ → Result (Database × ℕ × Option Block)
queue_block v sets b db sparse =
    if contains sets.read b.idx || not b.valid
    then ok (db, sparse, some b)
    else if contains sets.sparse b.idx
    then (if is_set b.uid
        then ok (set_block db v b.idx sparse_block_uid none b.size true, sparse + b.size, none)
        else (require (not (is_some b.checksum)) assertion_error >> ok (db, sparse + b.size, none)))
    else ok (db, sparse, none)

abbrev pub cons_some {ℓ} : {A : Type ℓ} → Option A → List A → List A
cons_some none xs = xs
cons_some (some x) xs = x ∷ xs

-- the first loop, with the blocks to read in the order of their submission
unfoldable pub queue_blocks :
    Version → BlockSets → List Block → Database → ℕ → Result (Database × ℕ × List Block)
queue_blocks v sets [] db sparse = ok (db, sparse, [])
queue_blocks v sets (b ∷ bs) db sparse = do
  (db', sparse', job) ← queue_block v sets b db sparse
  (db'', sparse'', jobs) ← queue_blocks v sets bs db' sparse'
  ok (db'', sparse'', cons_some job jobs)

-- How far the job of a block is: submitted to the source, its data submitted to the storage with the
-- new UID and checksum, written there, or done.
pub data Stage : Type 0 where
  reading : Stage
  queued : Block → Bytes → Stage
  written : Block → Stage
  finished : Stage

pub record Job : Type 0 where
  pub block : Block
  pub stage : Stage

pub record Progress (S : Type 0) : Type 0 where
  pub db : Database
  pub store : S
  pub stats : Stats
  pub done_read_jobs : ℕ
  pub write_jobs : ℕ
  pub done_write_jobs : ℕ

abbrev pub zeros : ℕ → Bytes
zeros n = replicate n 0

-- BlockUid(version.id, block.idx + 1), and the checksum of the data
abbrev pub new_block : Version → Block → Text → Block
new_block v b checksum = record b { uid = block_uid v.id (b.idx + 1); checksum = some checksum }

module _ {S : Type 0} (hash : Bytes → Text) (v : Version) where
  -- what a block that was read turns into
  unfoldable pub store_read : Progress S → Block → Bytes → Progress S × Stage
  store_read p b bytes =
      let checksum = hash bytes in
      let fresh : Progress S × Stage =
        (record p { write_jobs = p.write_jobs + 1 }, queued (new_block v b checksum) bytes) in
      if checksum == hash (zeros v.block_size) && b.size == v.block_size
      then (
        record p {
          db = set_block p.db v b.idx sparse_block_uid none b.size true;
          stats = record p.stats { bytes_sparse = p.stats.bytes_sparse + b.size };
        },
        finished,
      )
      else elim (get_block_by_checksum p.db v checksum) [
        | none ↦ fresh
        | some e ↦
            if e.size == b.size
            then (
              record p {
                db = set_block p.db v b.idx e.uid e.checksum e.size true;
                stats = record p.stats {
                  bytes_deduplicated = p.stats.bytes_deduplicated + length bytes;
                };
              },
              finished,
            )
            else fresh
      ]

  -- the body of the loop over the completed reads
  unfoldable pub handle_read : Progress S → Block → Bytes → Progress S × Stage
  unfolding store_read
  handle_read p b bytes =
      let (p', stage) =
        store_read
          (record p { stats = record p.stats { bytes_read = p.stats.bytes_read + length bytes } }) b
          bytes in
      (record p' { done_read_jobs = p'.done_read_jobs + 1 }, stage)

-- `handle_write_completed`: the row of a block that the storage has written
abbrev pub row_written : {S : Type 0} → Version → Progress S → Block → Progress S
row_written v p b = record p {
  db = set_block p.db v b.idx b.uid b.checksum b.size true;
  stats = record p.stats { bytes_written = p.stats.bytes_written + b.size };
  done_write_jobs = p.done_write_jobs + 1;
}

unfoldable pub handle_written : {S : Type 0} → Version → Progress S → Block → Result (Progress S)
handle_written v p b = do require (b.version_id == v.id) assertion_error; ok (row_written v p b)

-- Version.set_stats, without the duration
unfoldable pub set_stats : Database → Version → Stats → Database
set_stats db v s = record db {
  versions =
      map {A = Version} (λ w. if w.id == v.id then record w { stats = some s } else w) db.versions;
}

-- After the loops: the counts must agree before the version is marked valid and its metadata is
-- written to the storage.
unfoldable pub finish :
    {S : Type 0} → (Database → S → Result S) → Version → ℕ → Progress S → Result (Database × S)
unfolding set_stats
finish metadata_backup v read_jobs p = do
  require (read_jobs == p.done_read_jobs) internal_error
  require (p.write_jobs == p.done_write_jobs) internal_error
  store ← metadata_backup (set_version p.db v (some VersionStatus.valid) none) p.store
  ok (set_stats (set_version p.db v (some VersionStatus.valid) none) v p.stats, store)
