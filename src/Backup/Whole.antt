-- ===== src/Backup/Whole.antt =====
-- A whole backup: the blocks are chosen, and their jobs complete.
use be_backup.Prelude.{
  range, contains-range, ℕ, zero, suc, ◌+◌, ◌<◌, ◌≡◌, refl, List, map, arith, nat_eq, list_eq,
  option_eq,
}
use be_backup.Errors.{ok}
use be_backup.Uid.{block_uid_eq}
use be_backup.Database.{Block, Database, blocks_count, get_block_by_idx, version_blocks}
use be_backup.Database.Rows.{get_block-idx}
use be_backup.Database.Slices.{All-range, version_blocks-get_block_by_idx}
use be_backup.Transforms.{Bytes}
use be_backup.Hints.{BlockSets}
use be_backup.Backup.{queue_blocks, Job, Progress}
use be_backup.Backup.Steps.{World, Reach, submitted}
use be_backup.Backup.Invariant.{KeepsBlocks, IsSound, Holds}
use be_backup.Backup.Turns.{IsDistinctive}
use be_backup.Backup.Content.{AreApart, AreFinished, backup_content}
use be_backup.Backup.Queue.{idxs, IsPlanned, queue_blocks_lem}

idxs-range :
    (f : ℕ → Block) (lo n : ℕ) → ((i : ℕ) → (f i).idx ≡ i) → idxs (map f (range lo n)) ≡ range lo n
unfolding range
idxs-range f lo zero h = refl
idxs-range f lo (suc n) h = cc (h lo, idxs-range f (lo + 1) n h)

range-AreApart : (lo n : ℕ) → AreApart (range lo n)
unfolding range
range-AreApart lo zero = tt
range-AreApart lo (suc n) =
    (ground (arith, contains-range (lo + 1) n lo), range-AreApart (lo + 1) n)

module _ {S : Type 0} (w : World S) (image : ℕ → Bytes) (Known : Bytes → Type 0)
    (distinctive : IsDistinctive w image Known) (keeps : KeepsBlocks w) where
  -- Let the rows of the database be sound, and let each block of the version be as planned: one that
  -- the hints do not name, or that is valid and named sparse, is in the source what the rows or zeros
  -- say, and one that is read is free for its new data. Then the first loop raises nothing, and
  -- whatever order the executors complete the submitted jobs in, once all are done every block of the
  -- version is valid, has its size and checksum, and names the data of the source.
  pub backup-Holds :
      (sets : BlockSets) (db : Database) (s : S)
      → IsSound w Known db s
      → ((i : ℕ)
          → i < blocks_count w.version
          → IsPlanned w image Known sets s db (get_block_by_idx db w.version i))
      → (db' : Database) × ((n : ℕ) × ((blocks : List Block) × (queue_blocks w.version sets
                (version_blocks db w.version)
                db
                0
              ≡ ok (db', n, blocks))
            × ((p q : Progress S) (jobs : List Job)
                → p.db ≡ db'
                → p.store ≡ s
                → Reach w p (submitted blocks) q jobs
                → AreFinished jobs
                → (i : ℕ) → i < blocks_count w.version
                → Holds w image q.db q.store i)))
  backup-Holds sets db s sound planned =
      let bs = map (get_block_by_idx db w.version) (range 0 (blocks_count w.version)) in
      let yields : version_blocks db w.version ≡ bs =
        version_blocks-get_block_by_idx db w.version sound.0 in
      let same : idxs bs ≡ range 0 (blocks_count w.version) =
        idxs-range (get_block_by_idx db w.version) 0 (blocks_count w.version)
          (get_block-idx db w.version) in
      let (db', (n, (blocks, e, (sound', apart, reads, others, within, keep)))) =
        queue_blocks_lem w image Known sets s bs db 0
          (rw same (range-AreApart 0 (blocks_count w.version)))
          (All-range (IsPlanned w image Known sets s db) (get_block_by_idx db w.version) 0
            (blocks_count w.version) (λ i lt. planned i (omega arith)))
          sound in
      (
        db',
        (
          n,
          (
            blocks,
            rw yields e,
            λ p q jobs at_db at_store run done i lt.
                backup_content w image Known distinctive keeps p q blocks jobs
                  (rw (at_db, at_store) sound') (apart, rw at_db reads)
                  (λ j lt' c.
                    rw (at_db, at_store)
                      (others j
                        (rw same (ground (arith, contains-range 0 (blocks_count w.version) j))) c))
                  run done i lt,
          ),
        ),
      )
