-- ===== src/Tests/Runs.antt =====
-- A backup of a device of two blocks, of which the second is zeros, and its restore.
use be_backup.Prelude.{
  if◌then◌else◌, ◌==◌, list_eqb, length, contains, ℕ, zero, suc, ◌*◌, ◌≤◌, ◌<◌, ◌≡◌, refl, sym, ap,
  subst, ◌∙◌, true, false, Option, none, some, List, [], ◌∷◌, map, arith, nat_eq, list_eq,
  option_eq,
}
use be_backup.Errors.{invalid_block_exception, Result, err, ok}
use be_backup.Uid.{BlockUid, block_uid, is_set, block_uid_eq}
use be_backup.Database.{
  VersionStatus, incomplete, Block, Version, Database, blocks_count, find_row, create_sparse_block,
  get_block_by_idx, version_blocks,
}
use be_backup.Hints.{BlockSets}
use be_backup.Versions.{set_block, set_version, get_block_by_checksum}
use be_backup.Transforms.{Bytes}
use be_backup.Storage.{Metadata}
use be_backup.Storage.Operations.{check_block_metadata}
use be_backup.Storage.RoundTrip.{check_lem}
use be_backup.Io.{file_read}
use be_backup.Io.Slices.{slice, block_of}
use be_backup.Backup.{
  queue_blocks, Stage, reading, queued, finished, Job, Progress, new_block, store_read, handle_read,
  row_written, handle_written, set_stats, finish,
}
use be_backup.Backup.Steps.{
  World, Turn, read_done, write_done, row_done, turn, Reach, no_step, then_step, submitted,
}
use be_backup.Backup.Invariant.{content, KeepsBlocks, Holds}
use be_backup.Backup.Turns.{IsDistinctive}
use be_backup.Backup.Content.{AreFinished, AreToRead}
use be_backup.Backup.Completion.{backup_completes, finish_when_finished}
use be_backup.Backup.Queue.{IsPlanned}
use be_backup.Backup.Whole.{backup-Holds}
use be_backup.Restore.{Orders, restore_blocks}
use be_backup.Restore.Targets.{IsRestorable, restore_target}
use be_backup.Restore.RoundTrip.{Serves, backup_restore}
use be_backup.Tests.Data.{version_a}

abbrev pub device : Bytes
device = 1 ∷ 2 ∷ 0 ∷ 0 ∷ []

abbrev pub version_c : Version
version_c = record version_a {
  id = 3;
  uid = b'c' ∷ [];
  size = 4;
  block_size = 2;
  status = incomplete;
}

abbrev Objects : Type 0
Objects = List (BlockUid × Bytes)

abbrev pub find_object : Objects → BlockUid → Option Bytes
find_object [] u = none
find_object ((w, bytes) ∷ objects) u = if w == u then some bytes else find_object objects u

abbrev world : World Objects
world = record {
  version = version_c;
  hash = λ x. x;
  source = λ b. file_read 2 b device;
  write = λ b bytes s. (ok tt, (b.uid, bytes) ∷ s);
  load = find_object;
}

abbrev image : ℕ → Bytes
image = block_of 2 device

abbrev AnyData : Bytes → Type 0
AnyData bytes = Unit

distinct : IsDistinctive world image AnyData
distinct = (λ x y p q e. e, tt, λ i. tt)

keeps_blocks : KeepsBlocks world
keeps_blocks b bytes s s' u set e =
    let same : (b.uid, bytes) ∷ s ≡ s' = ap (λ r. r.1) e in rw (← same) refl

abbrev empty_db : Database
empty_db = record { versions = version_c ∷ []; blocks = []; deleted_blocks = [] }

abbrev all_blocks : BlockSets
all_blocks = record { sparse = []; read = 0 ∷ 1 ∷ [] }

planned :
    (i : ℕ)
    → i < blocks_count version_c
    → IsPlanned world image AnyData all_blocks [] empty_db (get_block_by_idx empty_db version_c i)
unfolding blocks_count get_block_by_idx create_sparse_block find_row file_read
planned zero lt =
    (λ t. ((refl, refl, refl), tt), λ f. absurd (ground arith), λ f. absurd (ground arith))
planned (suc zero) lt =
    (λ t. ((refl, refl, refl), tt), λ f. absurd (ground arith), λ f. absurd (ground arith))
planned (suc (suc i)) lt = absurd (ground arith)

backup-Holds_example :
    (db' : Database) × ((n : ℕ) × ((blocks : List Block) × (queue_blocks version_c all_blocks
            (version_blocks empty_db version_c)
            empty_db
            0
          ≡ ok (db', n, blocks))
        × ((p q : Progress Objects) (jobs : List Job)
            → p.db ≡ db'
            → p.store ≡ []
            → Reach world p (submitted blocks) q jobs
            → AreFinished jobs
            → (i : ℕ) → i < blocks_count version_c
            → Holds world image q.db q.store i)))
backup-Holds_example =
    backup-Holds world image AnyData distinct keeps_blocks all_blocks empty_db [] (tt, tt) planned

abbrev block_0 : Block
block_0 = create_sparse_block version_c 0

abbrev block_1 : Block
block_1 = create_sparse_block version_c 1

abbrev p0 : Progress Objects
p0 = record {
  db = empty_db;
  store = [];
  stats = record { bytes_read = 0; bytes_written = 0; bytes_deduplicated = 0; bytes_sparse = 0 };
  done_read_jobs = 0;
  write_jobs = 0;
  done_write_jobs = 0;
}

to_read : AreToRead world image AnyData p0 (block_0 ∷ block_1 ∷ [])
unfolding create_sparse_block file_read
to_read = ((refl, (refl, tt)), (((refl, refl, refl), tt), (((refl, refl, refl), tt), tt)))

none_other :
    (i : ℕ)
    → i < blocks_count version_c
    → contains (map (λ (b : Block). b.idx) (block_0 ∷ block_1 ∷ [])) i ≡ false
    → Holds world image empty_db [] i
unfolding blocks_count create_sparse_block
none_other zero lt c = absurd (ground arith)
none_other (suc zero) lt c = absurd (ground arith)
none_other (suc (suc i)) lt c = absurd (ground arith)

abbrev started : List Job
started = submitted (block_0 ∷ block_1 ∷ [])

backup_completes_example :
    (0 ≤ 3 * 2)
    × ((r : Progress Objects) × ((ls : List Job) × Reach world p0 started r ls × AreFinished ls))
backup_completes_example =
    backup_completes world image AnyData distinct keeps_blocks
      (λ b bytes s set. ((b.uid, bytes) ∷ s, refl)) p0 p0 (block_0 ∷ block_1 ∷ []) started (tt, tt)
      to_read none_other no_step

-- the block of zeros is read first, then the other one is read, written and recorded
abbrev p1 : Progress Objects
p1 = record p0 {
  stats = record { bytes_read = 2; bytes_written = 0; bytes_deduplicated = 0; bytes_sparse = 2 };
  done_read_jobs = 1;
}

abbrev p2 : Progress Objects
p2 = record p1 {
  stats = record { bytes_read = 4; bytes_written = 0; bytes_deduplicated = 0; bytes_sparse = 2 };
  done_read_jobs = 2;
  write_jobs = 1;
}

abbrev fresh : Block
fresh = new_block version_c block_0 (1 ∷ 2 ∷ [])

abbrev p3 : Progress Objects
p3 = record p2 { store = (block_uid 3 1, 1 ∷ 2 ∷ []) ∷ [] }

abbrev p4 : Progress Objects
p4 = row_written version_c p3 fresh

abbrev job_of : Block → Stage → Job
job_of b s = record { block = b; stage = s }

first_part : Turn world p0 (job_of block_1 reading) p1 (job_of block_1 finished)
unfolding create_sparse_block file_read handle_read store_read set_block find_row list_eqb
first_part = read_done p0 p1 block_1 (0 ∷ 0 ∷ []) finished refl refl

second_part : Turn world p1 (job_of block_0 reading) p2 (job_of block_0 (queued fresh (1 ∷ 2 ∷ [])))
unfolding create_sparse_block file_read handle_read store_read get_block_by_checksum list_eqb
second_part = read_done p1 p2 block_0 (1 ∷ 2 ∷ []) (queued fresh (1 ∷ 2 ∷ [])) refl refl

third_part :
    Turn world p2
      (job_of block_0 (queued fresh (1 ∷ 2 ∷ [])))
      p3
      (job_of block_0 (Stage.written fresh))
unfolding create_sparse_block
third_part = write_done p2 block_0 fresh (1 ∷ 2 ∷ []) ((block_uid 3 1, 1 ∷ 2 ∷ []) ∷ []) refl

fourth_part : Turn world p3 (job_of block_0 (Stage.written fresh)) p4 (job_of block_0 finished)
unfolding create_sparse_block handle_written
fourth_part = row_done p3 p4 block_0 fresh refl

whole_run : Reach world p0 started p4 (job_of block_0 finished ∷ job_of block_1 finished ∷ [])
whole_run =
    let rest = job_of block_1 finished ∷ [] in
    then_step
      (then_step
        (then_step
          (then_step no_step (
            turn p0 p1 (job_of block_1 reading) (job_of block_1 finished)
              (job_of block_0 reading ∷ []) [] first_part))
          (turn p1 p2 (job_of block_0 reading) (job_of block_0 (queued fresh (1 ∷ 2 ∷ []))) [] rest
            second_part))
        (turn p2 p3 (job_of block_0 (queued fresh (1 ∷ 2 ∷ [])))
          (job_of block_0 (Stage.written fresh)) [] rest third_part))
      (turn p3 p4 (job_of block_0 (Stage.written fresh)) (job_of block_0 finished) [] rest
        fourth_part)

finish_when_finished_example :
    finish (λ db s. ok s) version_c 2 p4
    ≡ ok (
      set_stats (set_version p4.db version_c (some VersionStatus.valid) none) version_c p4.stats,
      p4.store,
    )
finish_when_finished_example =
    finish_when_finished world (λ db s. ok s) p0 p4 (block_0 ∷ block_1 ∷ [])
      (job_of block_0 finished ∷ job_of block_1 finished ∷ []) refl refl refl whole_run
      (refl, (refl, tt))

-- the database and the storage after it
abbrev backed_up : Database
backed_up = record empty_db {
  blocks =
      (record {
        version_id = 3;
        idx = 0;
        uid = block_uid 3 1;
        checksum = some (1 ∷ 2 ∷ []);
        size = 2;
        valid = true;
      })
      ∷ [];
}

as_recorded : p4.db ≡ backed_up
unfolding create_sparse_block set_block find_row
as_recorded = refl

abbrev orders : Orders
orders = record { sparse_writes = λ x. x; reads = λ x. x; writes = λ x. x }

-- the metadata that were written with the data; a read knows the UID alone
abbrev metadata_for : Bytes → Metadata
metadata_for bytes = record {
  created = none;
  metadata_version = none;
  modified = none;
  object_size = none;
  metadata_size = some (length bytes);
  metadata_checksum = some bytes;
  transforms = none;
  hmac = none;
}

abbrev served : Option Bytes → Result (Bytes × Metadata)
served none = err invalid_block_exception
served (some bytes) = ok (bytes, metadata_for bytes)

abbrev read_object : Block → Result (Bytes × Metadata)
read_object b = served (find_object p3.store b.uid)

first_served :
    (b : Block)
    → b.size ≡ 2
    → b.checksum ≡ some (1 ∷ 2 ∷ [])
    → b.uid ≡ block_uid 3 1
    → Serves world p3.store read_object b
first_served b size sum names bytes set e =
    let first = 1 ∷ 2 ∷ [] in
    let r : Result (Bytes × Metadata) = ok (first, metadata_for first) in
    let at : r ≡ read_object b = ap (λ u. served (find_object p3.store u)) (sym names) in
    let same : some first ≡ some bytes = ap (find_object p3.store) (sym names) ∙ e in
    let is : first ≡ bytes = cc in
    subst
      (λ x.
        (m : Metadata) × (read_object b ≡ ok (x, m))
        × (check_block_metadata b (some (length x)) m ≡ ok tt))
      is (metadata_for first, sym at, check_lem b (metadata_for first) 2 (sym size) refl sum)

holds :
    (i : ℕ)
    → i < blocks_count version_c
    → Holds world image backed_up p3.store i
      × (is_set (get_block_by_idx backed_up version_c i).uid ≡ false
          → (get_block_by_idx backed_up version_c i).size ≡ 2)
      × Serves world p3.store read_object (get_block_by_idx backed_up version_c i)
unfolding blocks_count get_block_by_idx create_sparse_block find_row content
holds zero lt = (
  (refl, refl, refl, λ e. refl),
  λ e. refl,
  first_served (get_block_by_idx backed_up version_c 0) refl refl refl,
)
holds (suc zero) lt =
    ((refl, refl, refl, λ e. absurd (ground arith)), λ e. refl, λ bytes set. absurd (ground arith))
holds (suc (suc i)) lt = absurd (ground arith)

backup_restore_example :
    restore_blocks orders (λ x. x) read_object false version_c backed_up (9 ∷ 9 ∷ 9 ∷ 9 ∷ [])
    ≡ ok (backed_up, device)
backup_restore_example =
    backup_restore world read_object orders backed_up p3.store device (9 ∷ 9 ∷ 9 ∷ 9 ∷ [])
      (λ x xs. (λ m. m, λ m. m), λ x xs. (λ m. m, λ m. m), λ x xs. (λ m. m, λ m. m))
      (unfold find_row in (refl, tt)) (omega arith) refl refl holds

-- a restore that leaves out the sparse block, to a new file
restorable :
    (i : ℕ)
    → i < blocks_count version_c
    → IsRestorable orders
        (λ x. x)
        read_object
        true
        version_c
        backed_up
        (0 ∷ 0 ∷ 0 ∷ 0 ∷ [])
        image
        (get_block_by_idx backed_up version_c i)
unfolding blocks_count get_block_by_idx create_sparse_block find_row check_block_metadata list_eqb
restorable zero lt = (
  λ e. (refl, (metadata_for (1 ∷ 2 ∷ []), refl, refl)),
  λ e. absurd (ground arith),
  λ e s. absurd (ground arith),
  omega arith,
  omega arith,
)
restorable (suc zero) lt =
    (λ e. absurd (ground arith), λ e. refl, λ e s. refl, omega arith, omega arith)
restorable (suc (suc i)) lt = absurd (ground arith)

restore_target_example :
    (d' : Bytes) × (restore_blocks orders
        (λ x. x)
        read_object
        true
        version_c
        backed_up
        (0 ∷ 0 ∷ 0 ∷ 0 ∷ [])
      ≡ ok (backed_up, d'))
    × (length d' ≡ 4)
    × ((i : ℕ) → i < blocks_count version_c → slice (i * 2) (length (image i)) d' ≡ image i)
restore_target_example =
    restore_target orders (λ x. x) read_object true version_c backed_up (0 ∷ 0 ∷ 0 ∷ 0 ∷ []) image
      (λ x xs. (λ m. m, λ m. m), λ x xs. (λ m. m, λ m. m), λ x xs. (λ m. m, λ m. m))
      (unfold find_row in (refl, tt)) restorable
