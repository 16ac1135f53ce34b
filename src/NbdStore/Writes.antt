-- ===== src/NbdStore/Writes.antt =====
-- A write changes the device as a write to a file would.
use be_backup.Prelude.{
  length, take, drop, length-take, length-drop, take-append-drop, ℕ, ◌+◌, ◌-◌, ◌/◌, ◌≤◌, ◌<◌, ◌≡◌,
  refl, sym, ap, subst, ◌∙◌, some, List, [], ◌∷◌, arith, nat_eq, list_eq, option_eq,
}
use be_backup.Errors.{Result, ok}
use be_backup.Uid.{Text, BlockUid, block_uid_eq}
use be_backup.Database.{Block, Version, Database}
use be_backup.Transforms.{Bytes}
use be_backup.Io.{write_at}
use be_backup.Io.Parts.{write_at-append, write_at-none}
use be_backup.BlockList.{Chunk}
use be_backup.BlockList.Cover.{AreInBlocks, HasBlockSizes, AreChained, block_list-AreChained}
use be_backup.NbdStore.{BlockStore, write_chunks, write}
use be_backup.NbdStore.Device.{Shows}
use be_backup.NbdStore.Chunks.{HasNames, chunk_written}

module _ (path : BlockUid → Result Text) (fetch : Block → Result Bytes) (v : Version)
    (names : HasNames path v) (db : Database) (sizes : HasBlockSizes db v) where
  chunks_written :
      (i start n : ℕ) (ks : List Chunk) (bytes dev : Bytes) (cow : List (ℕ × Block))
      (s : BlockStore)
      → n ≡ length bytes
      → start + n ≤ v.size
      → AreChained v i start n ks
      → AreInBlocks db v i ks
      → Shows path fetch v.id v db cow s dev
      → (cow' : List (ℕ × Block)) × ((s' : BlockStore) × (write_chunks path fetch v ks bytes
              (cow, s)
            ≡ ok (cow', s'))
          × Shows path fetch v.id v db cow' s' (write_at start bytes dev))
  unfolding write_chunks
  chunks_written i start n [] [] dev cow s len le empty inside shows =
      (cow, (s, refl, rw (write_at-none start dev (omega (arith, shows.0))) shows))
  chunks_written i start n [] (c ∷ bytes) dev cow s len le empty inside shows = absurd (omega arith)
  chunks_written i start n (k ∷ ks) bytes dev cow s len le (at, some_byte, part, rest)
        (is_block, within, zero_below, inside) shows =
      let l = k.length_in_block in
      let x = take l bytes in
      let size : length x ≡ l = omega (arith, length-take l bytes) in
      let (cow1, (s1, e1, shows1)) =
        chunk_written path fetch v names db sizes dev i k.offset_in_block x (omega arith)
          (omega (arith, ap (λ (c : Block). c.size) is_block)) shows.0 (omega arith) k cow s
          is_block refl shows in
      let shows1' : Shows path fetch v.id v db cow1 s1 (write_at start x dev) =
        subst (λ y. Shows path fetch v.id v db cow1 s1 (write_at y x dev)) at shows1 in
      let (cow2, (s2, e2, shows2)) =
        chunks_written (i + 1) (start + l) (n - l) ks (drop l bytes) (write_at start x dev) cow1 s1
          (omega (arith, length-drop l bytes)) (omega arith) rest inside shows1' in
      let whole : write_at (start + l) (drop l bytes) (write_at start x dev)
          ≡ write_at start bytes dev =
        ap (λ y. write_at (start + y) (drop l bytes) (write_at start x dev)) (sym size)
        ∙ (write_at-append start x (drop l bytes) dev (omega (arith, length-drop l bytes, shows.0))
            ∙ ap (λ y. write_at start y dev) (take-append-drop l bytes)) in
      (
        cow2,
        (
          s2,
          rw (write_chunks, e1, e2) refl,
          subst (λ y. Shows path fetch v.id v db cow2 s2 y) whole shows2,
        ),
      )

  -- Let a version and its copied blocks show a device, and let the files of copied blocks have
  -- names of their own. Then a write of at least one byte within the version ends and raises
  -- nothing, and what the version and its copies then show is the device with the bytes written at
  -- their place.
  pub write-Shows :
      (offset : ℕ) (bytes dev : Bytes) (cow : List (ℕ × Block)) (s : BlockStore)
      → Shows path fetch v.id v db cow s dev
      → 0 < v.block_size
      → 0 < length bytes
      → offset + length bytes ≤ v.size
      → (cow' : List (ℕ × Block)) × ((s' : BlockStore) × (write path fetch db v offset bytes
              (cow, s)
            ≡ some (ok (cow', s')))
          × Shows path fetch v.id v db cow' s' (write_at offset bytes dev))
  unfolding write
  write-Shows offset bytes dev cow s shows bs pos le =
      let (ks, e, chained, inside) =
        block_list-AreChained db v sizes offset (length bytes) bs pos le in
      let (cow', (s', e', shown)) =
        chunks_written (offset / v.block_size) offset (length bytes) ks bytes dev cow s refl le
          chained inside shows in
      (cow', (s', rw (write, e, e') refl, shown))
