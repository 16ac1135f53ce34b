-- ===== src/Restore/Targets.antt =====
-- What a restore leaves in its target.
use be_backup.Prelude.{
  Bool-cases, ==_refl, length, replicate, range, All, filter, contains-range, All-filter, Has,
  All-Has, Has-filter, filter-Has, contains-Has, All-of-Has, Has-map, map-Has, ℕ, ◌+◌, ◌*◌, ◌≤◌,
  ◌<◌, ◌≡◌, refl, subst, ◌∙◌, inl, inr, Bool, true, false, not, some, List, [], ◌∷◌, map, arith,
  nat_eq, list_eq, option_eq,
}
use be_backup.Errors.{Result, ok}
use be_backup.Uid.{Text, is_set, block_uid_eq}
use be_backup.Database.{Block, Version, Database, blocks_count, get_block_by_idx}
use be_backup.Database.Rows.{IsKeyed, get_block-idx}
use be_backup.Database.Slices.{All-range, version_blocks-get_block_by_idx}
use be_backup.Transforms.{Bytes}
use be_backup.Storage.{Metadata}
use be_backup.Storage.Operations.{check_block_metadata}
use be_backup.Io.Slices.{slice}
use be_backup.Restore.{
  Orders, blocks_to_read, sparse_writes_of, write_all, check_restored, restore_loop, last_block,
  restore_blocks,
}
use be_backup.Restore.Writes.{
  IsReordering, reordered-All, IsOfImage, IsDone, length-write_all, write_all_lem,
}

module _ (hash : Bytes → Text) (read : Block → Result (Bytes × Metadata)) (image : ℕ → Bytes) where
  -- The storage gives the block's data, with metadata that agrees, and the block has its checksum.
  abbrev pub IsReadable : Block → Type 0
  IsReadable b =
      (b.checksum ≡ some (hash (image b.idx)))
      × ((m : Metadata) × (read b ≡ ok (image b.idx, m))
          × (check_block_metadata b (some (length (image b.idx))) m ≡ ok tt))

  check_restored_lem :
      (db : Database) (b : Block) (bytes : Bytes) (m : Metadata)
      → b.checksum ≡ some (hash bytes)
      → check_block_metadata b (some (length bytes)) m ≡ ok tt
      → check_restored hash db b bytes m ≡ ok db
  unfolding check_restored
  check_restored_lem db b bytes m sum agrees =
      rw (check_restored, agrees, sum, ==_refl (some (hash bytes))) refl

  restore_loop_lem :
      (db : Database) (current : Block) (bs : List Block)
      → All IsReadable bs
      → restore_loop hash read db current bs ≡ ok (db, map (λ b. (b, image b.idx)) bs)
  unfolding restore_loop
  restore_loop_lem db current [] a = refl
  restore_loop_lem db current (b ∷ bs) a =
      let (sum, (m, got, agrees)) = a.0 in
      rw
        (
          restore_loop,
          got,
          check_restored_lem db b (image b.idx) m sum agrees,
          restore_loop_lem db b bs a.1,
        )
        refl

module _ (o : Orders) (hash : Bytes → Text) (read : Block → Result (Bytes × Metadata))
    (sparse : Bool) (v : Version) (db : Database) (d : Bytes) (image : ℕ → Bytes) where
  -- the orders complete all jobs
  abbrev pub AreReorderings : Type 0
  AreReorderings = IsReordering o.sparse_writes × IsReordering o.reads × IsReordering o.writes

  -- A block with data is readable; one without is a whole block of zeros, which is in the target
  -- already if sparse blocks are not written. The target is large enough.
  abbrev pub IsRestorable : Block → Type 0
  IsRestorable b =
      (is_set b.uid ≡ true → IsReadable hash read image b)
      × (is_set b.uid ≡ false → replicate v.block_size 0 ≡ image b.idx)
      × (is_set b.uid ≡ false
          → sparse ≡ true
          → slice (b.idx * v.block_size) (length (image b.idx)) d ≡ image b.idx)
      × (length (image b.idx) ≤ v.block_size)
      × (b.idx * v.block_size + length (image b.idx) ≤ length d)

  sparse_jobs :
      (bs : List Block)
      → All IsRestorable bs
      → All (IsOfImage v.block_size image (length d)) (sparse_writes_of sparse v bs)
  unfolding sparse_writes_of
  sparse_jobs bs a = elim (Bool-cases sparse) [
    | inl skip ↦ rw skip tt
    | inr write ↦ rw write (
        All-of-Has (IsOfImage v.block_size image (length d))
          (map (λ b. (b, replicate v.block_size 0)) (filter (λ b. not (is_set b.uid)) bs))
          (λ x m.
            let (b, h, e) =
              Has-map (λ b. (b, replicate v.block_size 0)) x (filter (λ b. not (is_set b.uid)) bs)
                m in
            let (h', unset) = Has-filter (λ b. not (is_set b.uid)) b bs h in
            let r = All-Has IsRestorable b bs h' a in
            subst (IsOfImage v.block_size image (length d)) e (r.1 (ground arith), r.3, r.4)))
  ]

  read_jobs :
      (n : ℕ) (bs : List Block)
      → n ≡ length d
      → All IsRestorable bs
      → All (IsOfImage v.block_size image n) (map (λ b. (b, image b.idx)) bs)
  read_jobs n [] e a = tt
  read_jobs n (b ∷ bs) e a = ((refl, a.0.3, rw e a.0.4), read_jobs n bs e a.1)

  jobs-IsReadable :
      (bs : List Block) → All IsRestorable bs → All (IsReadable hash read image) (blocks_to_read bs)
  unfolding blocks_to_read
  jobs-IsReadable bs a = All-filter (λ b. is_set b.uid) bs (λ b r set. r.0 set) a

  -- after the first writes a block without data is done
  sparse-IsDone :
      (bs : List Block) (b : Block)
      → AreReorderings
      → All IsRestorable bs
      → Has b bs
      → is_set b.uid ≡ false
      → IsDone v.block_size image b.idx
          (write_all v.block_size (o.sparse_writes (sparse_writes_of sparse v bs)) d)
  sparse-IsDone bs b orders a m unset =
      let r = All-Has IsRestorable b bs m a in
      let jobs = sparse_writes_of sparse v bs in
      write_all_lem v.block_size image b.idx (o.sparse_writes jobs) d r.3
        (reordered-All (IsOfImage v.block_size image (length d)) o.sparse_writes jobs orders.0
          (sparse_jobs bs a))
        (elim (Bool-cases sparse) [
          | inl skip ↦ inl (unfold IsDone in r.2 unset skip)
          | inr write ↦ inr (
            b,
            (orders.0 (b, image b.idx) jobs).1 (
                rw write (
                  unfold sparse_writes_of in
                  subst
                    (λ (x : Bytes).
                      Has {A = Block × Bytes} (b, x)
                        (map (λ b. (b, replicate v.block_size 0))
                          (filter (λ b. not (is_set b.uid)) bs)))
                    (r.1 unset)
                    (map-Has (λ b. (b, replicate v.block_size 0)) b
                      (filter (λ b. not (is_set b.uid)) bs)
                      (filter-Has (λ b. not (is_set b.uid)) b bs m (ground arith))))),
            refl,
          )
        ])

  -- the target after all writes, from the blocks and in the orders of completion
  abbrev target_of : List Block → Bytes
  target_of bs =
      write_all v.block_size (o.writes (map (λ b. (b, image b.idx)) (o.reads (blocks_to_read bs))))
        (write_all v.block_size (o.sparse_writes (sparse_writes_of sparse v bs)) d)

  module _ (orders : AreReorderings) (bs : List Block) (all : All IsRestorable bs) where
    abbrev first_target : Bytes
    first_target = write_all v.block_size (o.sparse_writes (sparse_writes_of sparse v bs)) d

    length-first : length first_target ≡ length d
    length-first =
        length-write_all v.block_size image (o.sparse_writes (sparse_writes_of sparse v bs)) d (
          reordered-All (IsOfImage v.block_size image (length d)) o.sparse_writes
            (sparse_writes_of sparse v bs) orders.0 (sparse_jobs bs all))

    reads-IsRestorable : All IsRestorable (o.reads (blocks_to_read bs))
    reads-IsRestorable =
        reordered-All IsRestorable o.reads (blocks_to_read bs) orders.1
          (unfold blocks_to_read in All-filter (λ b. is_set b.uid) bs (λ b r set. r) all)

    writes-IsOfImage :
        All
          (IsOfImage v.block_size image (length first_target))
          (o.writes (map (λ b. (b, image b.idx)) (o.reads (blocks_to_read bs))))
    writes-IsOfImage =
        reordered-All (IsOfImage v.block_size image (length first_target)) o.writes
          (map (λ b. (b, image b.idx)) (o.reads (blocks_to_read bs))) orders.2
          (read_jobs (length first_target) (o.reads (blocks_to_read bs)) length-first
            reads-IsRestorable)

    length-target : length (target_of bs) ≡ length d
    length-target =
        length-write_all v.block_size image
          (o.writes (map (λ b. (b, image b.idx)) (o.reads (blocks_to_read bs)))) first_target
          writes-IsOfImage
        ∙ length-first

    block-IsDone : (b : Block) → Has b bs → IsDone v.block_size image b.idx (target_of bs)
    block-IsDone b m =
        let r = All-Has IsRestorable b bs m all in
        write_all_lem v.block_size image b.idx
          (o.writes (map (λ b. (b, image b.idx)) (o.reads (blocks_to_read bs)))) first_target r.3
          writes-IsOfImage
          (elim (Bool-cases (is_set b.uid)) [
            | inr unset ↦ inl (sparse-IsDone bs b orders all m unset)
            | inl set ↦ inr (
              b,
              (orders.2 (b, image b.idx)
                    (map (λ b. (b, image b.idx)) (o.reads (blocks_to_read bs)))).1
                  (map-Has (λ b. (b, image b.idx)) b (o.reads (blocks_to_read bs))
                    ((orders.1 b (blocks_to_read bs)).1
                      (unfold blocks_to_read in filter-Has (λ b. is_set b.uid) b bs m set))),
              refl,
            )
          ])

    read_back :
        restore_loop hash read db (last_block v bs) (o.reads (blocks_to_read bs))
        ≡ ok (db, map (λ b. (b, image b.idx)) (o.reads (blocks_to_read bs)))
    read_back =
        restore_loop_lem hash read image db (last_block v bs) (o.reads (blocks_to_read bs)) (
          reordered-All (IsReadable hash read image) o.reads (blocks_to_read bs) orders.1
            (jobs-IsReadable bs all))

  -- Let the rows have their key, the executors complete every submitted job, and let each block of
  -- the version be restorable: with data, the storage gives them with metadata and a checksum that
  -- agree; without, it is a whole block of zeros, which the target has already if sparse blocks are
  -- not written. Let the target be large enough. Then the restore raises nothing and marks no block
  -- invalid, the target keeps its length, and in it every block has the data of the version.
  pub restore_target :
      AreReorderings
      → IsKeyed db.blocks
      → ((i : ℕ) → i < blocks_count v → IsRestorable (get_block_by_idx db v i))
      → (d' : Bytes) × (restore_blocks o hash read sparse v db d ≡ ok (db, d'))
        × (length d' ≡ length d)
        × ((i : ℕ) → i < blocks_count v → slice (i * v.block_size) (length (image i)) d' ≡ image i)
  unfolding restore_blocks IsDone
  restore_target orders keyed each =
      let n = blocks_count v in
      let bs = map (get_block_by_idx db v) (range 0 n) in
      let all = All-range IsRestorable (get_block_by_idx db v) 0 n (λ i lt. each i (omega arith)) in
      (
        target_of bs,
        rw (version_blocks-get_block_by_idx db v keyed, read_back orders bs all) refl,
        length-target orders bs all,
        λ i lt.
            let has : Has i (range 0 n) =
              contains-Has i (range 0 n) (ground (arith, contains-range 0 n i)) in
            let done =
              block-IsDone orders bs all (get_block_by_idx db v i)
                (map-Has (get_block_by_idx db v) i (range 0 n) has) in
            subst (λ k. IsDone v.block_size image k (target_of bs)) (get_block-idx db v i) done,
      )
