-- ===== src/Tests/Devices.antt =====
-- Reads and writes of a device of two blocks, and the events of an executor.
use be_backup.Prelude.{
  Bool-cases, ◌==◌, list_eqb, add, ℕ, zero, suc, ◌+◌, ◌*◌, ◌≤◌, ◌<◌, ◌≡◌, refl, ap, inl, inr, true,
  false, Option, none, some, List, [], ◌∷◌, arith, nat_eq, list_eq, option_eq,
}
use be_backup.Errors.{invalid_block_exception, Result, err, ok}
use be_backup.Uid.{
  Text, BlockUid, block_uid, uid_eqb_iff, format_16x, uid_to_key, to_path, block_uid_eq,
}
use be_backup.Database.{Block, Database, find_row, create_sparse_block, get_block_by_idx}
use be_backup.Transforms.{Bytes}
use be_backup.Io.{write_at}
use be_backup.BlockList.Cover.{HasBlockSizes}
use be_backup.NbdStore.{cache_filename, BlockStore, store_write, BlockCache, find_copy, read, write}
use be_backup.NbdStore.Device.{IsShown, Shows}
use be_backup.NbdStore.Reads.{IsCoherent, IsCache, read-Shows}
use be_backup.NbdStore.Chunks.{HasNames}
use be_backup.NbdStore.Writes.{write-Shows}
use be_backup.NbdStore.Names.{cache_filename-HasNames}
use be_backup.JobExecutor.{
  Executor, new_executor, acquire, release, submit, start, end_job, collect, submitted, started,
  ended, collected, step, run,
}
use be_backup.JobExecutor.Bounds.{executor_bounds}
use be_backup.Storage.File.{read_file, write_file}
use be_backup.Tests.Data.{row_0}
use be_backup.Tests.Runs.{version_c, find_object}

-- the first block is stored, the second one sparse and copied
abbrev pub rows : Database
rows = record {
  versions = version_c ∷ [];
  blocks =
      (record {
        version_id = 3;
        idx = 0;
        uid = block_uid 3 1;
        checksum = some (1 ∷ 2 ∷ []);
        size = 2;
        valid = true;
      })
      ∷ [];
  deleted_blocks = [];
}

abbrev fetched : Option Bytes → Result Bytes
fetched none = err invalid_block_exception
fetched (some bytes) = ok bytes

abbrev pub fetch : Block → Result Bytes
fetch b = fetched (find_object ((block_uid 3 1, 1 ∷ 2 ∷ []) ∷ []) b.uid)

abbrev pub cache : BlockCache (List (BlockUid × Bytes))
cache = record { cached = λ u c. find_object c u; put = λ u bytes c. (u, bytes) ∷ c }

pub is_cache : IsCache cache fetch
is_cache = (
  λ u w bytes found c e. elim (Bool-cases (w == u)) [
    | inl same ↦ inl (ground (arith, uid_eqb_iff w u), ground arith)
    | inr other ↦ inr (ground arith)
  ],
  λ b b' e. ap (λ u. fetched (find_object ((block_uid 3 1, 1 ∷ 2 ∷ []) ∷ []) u)) e,
)

abbrev digest : Text → Text
digest key = b'0' ∷ b'0' ∷ b'0' ∷ b'0' ∷ key

abbrev pub path : BlockUid → Result Text
path = cache_filename digest []

has_names : HasNames path version_c
has_names =
    cache_filename-HasNames digest [] version_c (λ key. omega arith) (omega arith) (omega arith)
      (omega arith)

pub has_sizes : HasBlockSizes rows version_c
unfolding get_block_by_idx find_row create_sparse_block
has_sizes zero lt = refl
has_sizes (suc zero) lt = refl
has_sizes (suc (suc i)) lt = absurd (ground arith)

abbrev pub no_copies : BlockStore
no_copies = record { files = []; block_present = [] }

pub rows-IsShown :
    (w i : ℕ) → i * 2 < 4 → IsShown path fetch w version_c rows [] no_copies (1 ∷ 2 ∷ 0 ∷ 0 ∷ []) i
unfolding IsShown get_block_by_idx find_row create_sparse_block find_copy
rows-IsShown w zero lt = (λ e. absurd (ground arith), λ e. refl)
rows-IsShown w (suc zero) lt = (λ e. refl, λ e. absurd (ground arith))
rows-IsShown w (suc (suc i)) lt = absurd (ground arith)

-- the first block has a copy, of a copy on write version of version_c
abbrev cow_copy : Block
cow_copy = record (row_0) { idx = 0; uid = block_uid 9 1; checksum = none; size = 2 }

abbrev stored_copy : Result BlockStore → BlockStore
stored_copy (ok s) = s
stored_copy (err e) = no_copies

abbrev one_copy : BlockStore
one_copy = stored_copy (store_write path (block_uid 9 1) (8 ∷ 7 ∷ []) no_copies)

abbrev copy_list : List (ℕ × Block)
copy_list = (0, cow_copy) ∷ []

copy-IsShown :
    (i : ℕ)
    → i * 2 < 4
    → IsShown path fetch 9 version_c rows copy_list one_copy (8 ∷ 7 ∷ 0 ∷ 0 ∷ []) i
unfolding IsShown get_block_by_idx find_row create_sparse_block find_copy store_write read_file
    write_file cache_filename uid_to_key add list_eqb to_path format_16x
copy-IsShown zero lt = (refl, refl, (8 ∷ 7 ∷ [], (_, refl, refl, refl, omega arith)))
copy-IsShown (suc zero) lt = (λ e. refl, λ e. absurd (ground arith))
copy-IsShown (suc (suc i)) lt = absurd (ground arith)

read-Shows_example :
    (c' : List (BlockUid × Bytes)) × (read path cache fetch rows version_c
        (some copy_list)
        one_copy
        []
        1
        2
      ≡ some (ok (7 ∷ 0 ∷ [], c')))
    × IsCoherent cache fetch c'
read-Shows_example =
    read-Shows path cache fetch is_cache 9 version_c rows one_copy (8 ∷ 7 ∷ 0 ∷ 0 ∷ [])
      (some copy_list) 1 2 [] has_sizes (refl, copy-IsShown) (λ b bytes e. absurd (ground arith))
      (omega arith) (omega arith) (omega arith)

write-Shows_example :
    (cow' : List (ℕ × Block)) × ((s' : BlockStore) × (write path fetch rows version_c 1
          (7 ∷ 8 ∷ [])
          ([], no_copies)
        ≡ some (ok (cow', s')))
      × Shows path fetch version_c.id version_c rows cow' s' (1 ∷ 7 ∷ 8 ∷ 0 ∷ []))
unfolding write_at
write-Shows_example =
    write-Shows path fetch version_c has_names rows has_sizes 1 (7 ∷ 8 ∷ []) (1 ∷ 2 ∷ 0 ∷ 0 ∷ []) []
      no_copies (refl, rows-IsShown version_c.id) (omega arith) (omega arith) (omega arith)

runs :
    run (submitted ∷ started ∷ ended ∷ collected ∷ submitted ∷ []) (new_executor 1 true)
    ≡ some (
        ok (record {
          workers = 1;
          blocking_submit = true;
          permits = 2;
          waiting = 1;
          running = 0;
          completed = 0;
          cancelled = 0;
        }))
unfolding run new_executor step submit start end_job collect acquire release
runs = refl

executor_bounds_example :
    (e : Executor) × (ok (record {
      workers = 1;
      blocking_submit = true;
      permits = 2;
      waiting = 1;
      running = 0;
      completed = 0;
      cancelled = 0;
    })
      ≡ ok e)
    × (e.running ≤ 1)
    × (true ≡ true → e.waiting + e.running ≤ 2 * 1 + 1)
    × (true ≡ false → e.running + e.completed ≤ 2 * 1 + 1)
executor_bounds_example =
    executor_bounds 1 true (submitted ∷ started ∷ ended ∷ collected ∷ submitted ∷ [])
      (ok (record {
        workers = 1;
        blocking_submit = true;
        permits = 2;
        waiting = 1;
        running = 0;
        completed = 0;
        cancelled = 0;
      }))
      runs
