-- ===== src/Restore/RoundTrip.antt =====
-- A backup of a file, restored, is the file.
use be_backup.Prelude.{
  length, take, drop, length-take, length-drop, ℕ, zero, suc, ◌+◌, ◌-◌, ◌*◌, ◌/◌, ◌≤◌, ◌<◌, min,
  ◌≡◌, refl, sym, ap, subst, ◌∙◌, true, false, some, arith, nat_eq, list_eq, option_eq,
}
use be_backup.Errors.{Result, ok}
use be_backup.Uid.{is_set, block_uid_eq}
use be_backup.Database.{is_valid, Block, Version, Database, blocks_count, get_block_by_idx}
use be_backup.Database.Rows.{IsKeyed, get_block-idx}
use be_backup.Transforms.{Bytes}
use be_backup.Storage.{Metadata}
use be_backup.Storage.Operations.{check_block_metadata}
use be_backup.Io.Slices.{block_of, take-add, take-all, take_short}
use be_backup.Restore.{Orders, restore_blocks}
use be_backup.Restore.Writes.{IsReordering, mul_le_next}
use be_backup.Restore.Targets.{IsRestorable, restore_target}
use be_backup.Backup.{zeros}
use be_backup.Backup.Steps.{World}
use be_backup.Backup.Invariant.{content, IsGood, Holds}

-- devices whose first blocks are the same
same_blocks :
    (bs n : ℕ) (d e : Bytes)
    → ((i : ℕ) → i < n → block_of bs d i ≡ block_of bs e i)
    → take (n * bs) d ≡ take (n * bs) e
same_blocks bs zero d e h = let none_yet : 0 * bs ≡ 0 = omega arith in rw none_yet refl
same_blocks bs (suc n) d e h =
    let next : suc n * bs ≡ n * bs + bs = grind arith in
    rw (next, take-add (n * bs) bs d, take-add (n * bs) bs e)
      (cc (same_blocks bs n d e (λ i lt. h i (omega arith)), h n (omega arith)))

count_covers : (v : Version) → 0 < v.block_size → v.size ≤ blocks_count v * v.block_size
unfolding blocks_count
count_covers v pos = omega arith

starts_inside :
    (v : Version) (i : ℕ) → 0 < v.block_size → i < blocks_count v → i * v.block_size ≤ v.size
unfolding blocks_count
starts_inside v i pos lt =
    let q = (v.size + v.block_size - 1) / v.block_size in
    let last : q * v.block_size ≤ v.size + v.block_size - 1 = omega arith in
    let next : i * v.block_size + v.block_size ≤ q * v.block_size =
      mul_le_next i q v.block_size lt in
    omega arith

same_devices :
    (v : Version) (d e : Bytes)
    → 0 < v.block_size
    → length d ≡ v.size
    → length e ≡ v.size
    → ((i : ℕ) → i < blocks_count v → block_of v.block_size d i ≡ block_of v.block_size e i)
    → d ≡ e
same_devices v d e pos ld le h =
    let n = blocks_count v * v.block_size in
    let covers = count_covers v pos in
    sym (take-all n d (omega arith))
    ∙ (same_blocks v.block_size (blocks_count v) d e h ∙ take-all n e (omega arith))

-- What a read of a block with data gives: the data under its UID, with metadata that agrees with the
-- block.
abbrev pub Serves :
    {S : Type 0} → World S → S → (Block → Result (Bytes × Metadata)) → Block → Type 0
Serves w s read b =
    (bytes : Bytes)
    → is_set b.uid ≡ true
    → w.load s b.uid ≡ some bytes
    → (m : Metadata) × (read b ≡ ok (bytes, m))
      × (check_block_metadata b (some (length bytes)) m ≡ ok tt)

content_set :
    {S : Type 0} (w : World S) (s : S) (b : Block)
    → is_set b.uid ≡ true
    → content w s b ≡ w.load s b.uid
unfolding content
content_set w s b set = rw set refl

content_unset :
    {S : Type 0} (w : World S) (s : S) (b : Block)
    → is_set b.uid ≡ false
    → content w s b ≡ some (zeros b.size)
unfolding content
content_unset w s b unset = rw unset refl

-- what the backup left can be restored
IsGood-IsRestorable :
    {S : Type 0} (w : World S) (db : Database) (s : S) (read : Block → Result (Bytes × Metadata))
    (o : Orders) (dev d : Bytes) (b : Block)
    → Serves w s read b
    → length d ≡ length dev
    → IsGood w s (block_of w.version.block_size dev b.idx) b
    → (is_set b.uid ≡ false → b.size ≡ w.version.block_size)
    → b.idx * w.version.block_size ≤ length dev
    → IsRestorable o w.hash read false w.version db d (block_of w.version.block_size dev) b
IsGood-IsRestorable w db s read o dev d b serves same (is_valid, size, names, sum) whole start =
    let bs = w.version.block_size in
    let image = block_of bs dev b.idx in
    let len : length image ≡ min bs (length dev - b.idx * bs) =
      length-take bs (drop (b.idx * bs) dev) ∙ ap (min bs) (length-drop (b.idx * bs) dev) in
    (
      λ set. (sum set, serves image set (sym (content_set w s b set) ∙ names)),
      λ unset.
          let named : some (zeros b.size) ≡ some image = sym (content_unset w s b unset) ∙ names in
          ap zeros (sym (whole unset)) ∙ ground arith,
      λ unset skip. absurd (ground arith),
      omega arith,
      omega arith,
    )

module _ {S : Type 0} (w : World S) (read : Block → Result (Bytes × Metadata)) (o : Orders) where
  -- Let a backup of a device have left each block of its version valid and naming the device's
  -- data, as it does, and let a read of such a block give the data that the storage has for it, with
  -- metadata that agree with its row. Let the block size be positive, let blocks without data be
  -- whole blocks, and let the executors complete all jobs. Then a restore that writes the sparse
  -- blocks, to a target of the device's length, raises nothing, marks nothing invalid, and makes the
  -- target equal to the device.
  pub backup_restore :
      (db : Database) (s : S) (dev d : Bytes)
      → IsReordering o.sparse_writes × IsReordering o.reads × IsReordering o.writes
      → IsKeyed db.blocks
      → 0 < w.version.block_size
      → length dev ≡ w.version.size
      → length d ≡ w.version.size
      → ((i : ℕ)
          → i < blocks_count w.version
          → Holds w (block_of w.version.block_size dev) db s i
            × (is_set (get_block_by_idx db w.version i).uid ≡ false
                → (get_block_by_idx db w.version i).size ≡ w.version.block_size)
            × Serves w s read (get_block_by_idx db w.version i))
      → restore_blocks o w.hash read false w.version db d ≡ ok (db, dev)
  backup_restore db s dev d orders keyed pos ldev ld each =
      let image = block_of w.version.block_size dev in
      let (d', e, same, all) =
        restore_target o w.hash read false w.version db d image orders keyed (λ i lt.
          let b = get_block_by_idx db w.version i in
          let at : b.idx ≡ i = get_block-idx db w.version i in
          let start : b.idx * w.version.block_size ≤ length dev =
            rw (at, ldev) (starts_inside w.version i pos lt) in
          IsGood-IsRestorable w db s read o dev d b (each i lt).2 (ld ∙ sym ldev)
            (subst (λ k. IsGood w s (image k) b) (sym at) (each i lt).0) (each i lt).1 start) in
      let equal : d' ≡ dev = same_devices w.version d' dev pos (same ∙ ld) ldev (λ i lt.
        let o = i * w.version.block_size in
        let k : length (image i) ≡ min w.version.block_size (length (drop o d')) =
          length-take w.version.block_size (drop o dev)
          ∙ omega (arith, length-drop o dev, length-drop o d') in
        sym (take_short (length (image i)) w.version.block_size (drop o d') k) ∙ all i lt) in
      e ∙ ap (λ x. ok (db, x)) equal
