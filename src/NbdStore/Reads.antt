-- ===== src/NbdStore/Reads.antt =====
-- A read gives the bytes of the device.
use be_backup.Prelude.{
  Bool-cases, Option-cases, length, drop, replicate, length-take, length-drop, contains, ℕ, zero,
  suc, ◌+◌, ◌-◌, ◌*◌, ◌/◌, ◌≤◌, ◌<◌, min, ◌≡◌, refl, sym, ap, subst, ◌∙◌, ◌⊎◌, inl, inr, true,
  Option, none, some, List, [], ◌∷◌, arith, nat_eq, list_eq, option_eq,
}
use be_backup.Errors.{Result, ok}
use be_backup.Uid.{Text, BlockUid, is_set, block_uid_eq}
use be_backup.Database.{Block, Version, Database, get_block_by_idx}
use be_backup.Database.Rows.{get_block-idx}
use be_backup.Transforms.{Bytes}
use be_backup.Io.Slices.{slice}
use be_backup.Io.Parts.{slice-block, slice-append}
use be_backup.BlockList.{Chunk}
use be_backup.BlockList.Cover.{AreInBlocks, HasBlockSizes, AreChained, block_list-AreChained}
use be_backup.NbdStore.{
  BlockStore, store_read, BlockCache, find_copy, read_original, read_chunk, read_chunks, read,
}
use be_backup.NbdStore.Device.{IsShownBy, IsShown, Shows}

-- what the cache has of a block is what the storage has
abbrev pub IsCoherent : {C : Type 0} → BlockCache C → (Block → Result Bytes) → C → Type 0
IsCoherent cache fetch c =
    (b : Block) (bytes : Bytes) → cache.cached b.uid c ≡ some bytes → fetch b ≡ ok bytes

-- The cache gives back at most what was put into it, and the storage serves a block by its UID.
abbrev pub IsCache : {C : Type 0} → BlockCache C → (Block → Result Bytes) → Type 0
IsCache {C} cache fetch =
    ((u w : BlockUid) (bytes found : Bytes) (c : C)
      → cache.cached u (cache.put w bytes c) ≡ some found
      → ((u ≡ w) × (found ≡ bytes)) ⊎ (cache.cached u c ≡ some found))
    × ((b b' : Block) → b.uid ≡ b'.uid → fetch b ≡ fetch b')

pub slice-zeros : (o n size : ℕ) → o + n ≤ size → slice o n (replicate size 0) ≡ replicate n 0
slice-zeros zero zero size le = refl
slice-zeros zero (suc n) zero le = absurd (omega arith)
slice-zeros zero (suc n) (suc size) le = ap (◌∷◌ 0) (slice-zeros zero n size (omega arith))
slice-zeros (suc o) n zero le = absurd (omega arith)
slice-zeros (suc o) n (suc size) le = slice-zeros o n size (omega arith)

module _ {C : Type 0} (path : BlockUid → Result Text) (cache : BlockCache C)
    (fetch : Block → Result Bytes) (is_cache : IsCache cache fetch) (cow_id : ℕ) (v : Version)
    (db : Database) (s : BlockStore) (dev : Bytes) where
  put-IsCoherent :
      (b : Block) (bytes : Bytes) (c : C)
      → fetch b ≡ ok bytes
      → IsCoherent cache fetch c
      → IsCoherent cache fetch (cache.put b.uid bytes c)
  put-IsCoherent b bytes c got h b' found at = elim (is_cache.0 b'.uid b.uid bytes found c at) [
    | inl (same, is) ↦ is_cache.1 b' b same ∙ (got ∙ ap ok (sym is))
    | inr before ↦ h b' found before
  ]

  original_part :
      (b : Block) (bytes : Bytes) (o n : ℕ) (c : C)
      → IsShownBy path fetch cow_id v s bytes b none
      → length bytes ≡ b.size
      → o + n ≤ b.size
      → IsCoherent cache fetch c
      → (c' : C) × (read_original path cache fetch b o n c ≡ ok (slice o n bytes, c'))
        × IsCoherent cache fetch c'
  unfolding read_original
  original_part b bytes o n c shown len le h = elim (Bool-cases (is_set b.uid)) [
    | inr unset ↦
        (c, rw (unset, ← shown.0 unset) (ap (λ x. ok (x, c)) (sym (slice-zeros o n b.size le))), h)
    | inl set ↦ elim (Option-cases (cache.cached b.uid c)) [
      | inr (found, hit) ↦
          let same : found ≡ bytes = ground (arith, h b found hit, shown.1 set) in
          (c, rw (set, hit, same) refl, h)
      | inl miss ↦ (
        cache.put b.uid bytes c,
        rw (set, miss, shown.1 set) refl,
        put-IsCoherent b bytes c (shown.1 set) h,
      )
    ]
  ]

  -- the copies, of which a version that is not written to has none
  abbrev pub copies : Option (List (ℕ × Block)) → List (ℕ × Block)
  copies none = []
  copies (some cow) = cow

  copy_part :
      (b copy : Block) (bytes : Bytes) (o n : ℕ)
      → IsShownBy path fetch cow_id v s bytes b (some copy)
      → o + n ≤ b.size
      → (contains s.block_present copy.uid ≡ true)
        × (store_read path copy.uid o n s ≡ ok (slice o n bytes))
  unfolding store_read
  copy_part b copy bytes o n (uid, present, (file, (name, at, holds, begins, long))) le = (
    present,
    rw (at, holds)
        (ap ok (
          sym (slice-block 0 b.size o n file le ∙ ap (λ k. slice k n file) (omega arith))
          ∙ ap (slice o n) begins)),
  )

  chunk_case :
      (cow : Option (List (ℕ × Block))) (k : Chunk) (c : C) (bytes : Bytes)
      → IsShownBy path fetch cow_id v s bytes k.block (find_copy k.block.idx (copies cow))
      → length bytes ≡ k.block.size
      → k.offset_in_block + k.length_in_block ≤ k.block.size
      → IsCoherent cache fetch c
      → (c' : C) × (read_chunk path cache fetch cow s k c
          ≡ ok (slice k.offset_in_block k.length_in_block bytes, c'))
        × IsCoherent cache fetch c'
  unfolding read_chunk find_copy
  chunk_case none k c bytes shown len le h =
      original_part k.block bytes k.offset_in_block k.length_in_block c shown len le h
  chunk_case (some cow) k c bytes shown len le h = elim (Option-cases (find_copy k.block.idx cow)) [
    | inl not_copied ↦
        let shown' = rw not_copied at shown in
        rw (read_chunk, not_copied)
          (original_part k.block bytes k.offset_in_block k.length_in_block c shown' len le h)
    | inr (copy, copied) ↦
        let shown' = rw copied at shown in
        let (present, got) =
          copy_part k.block copy bytes k.offset_in_block k.length_in_block shown' le in
        (c, rw (read_chunk, copied) (rw (present, got) refl), h)
  ]

  chunk_part :
      (cow : Option (List (ℕ × Block))) (i : ℕ) (k : Chunk) (c : C)
      → k.block ≡ get_block_by_idx db v i
      → k.offset_in_block + k.length_in_block ≤ k.block.size
      → i * v.block_size + k.block.size ≤ length dev
      → IsShown path fetch cow_id v db (copies cow) s dev i
      → IsCoherent cache fetch c
      → (c' : C) × (read_chunk path cache fetch cow s k c
          ≡ ok (slice (i * v.block_size + k.offset_in_block) k.length_in_block dev, c'))
        × IsCoherent cache fetch c'
  unfolding IsShown
  chunk_part cow i k c is_block le fits shown h =
      let b = get_block_by_idx db v i in
      let bytes = slice (i * v.block_size) k.block.size dev in
      let part =
        slice-block (i * v.block_size) k.block.size k.offset_in_block k.length_in_block dev le in
      let len : length bytes ≡ k.block.size = omega (
        arith,
        length-take k.block.size (drop (i * v.block_size) dev),
        length-drop (i * v.block_size) dev,
      ) in
      let Shown : Block → Type 0 = λ x.
        IsShownBy path fetch cow_id v s (slice (i * v.block_size) x.size dev) x
          (find_copy x.idx (copies cow)) in
      let rows-IsShown : Shown b =
        subst
          (λ j.
            IsShownBy path fetch cow_id v s (slice (i * v.block_size) b.size dev) b
              (find_copy j (copies cow)))
          (sym (get_block-idx db v i)) shown in
      let shown' : Shown k.block = subst Shown (sym is_block) rows-IsShown in
      rw (← part) (chunk_case cow k c bytes shown' len le h)

  chunks_part :
      (cow : Option (List (ℕ × Block))) (i start n : ℕ) (ks : List Chunk) (c : C)
      → HasBlockSizes db v
      → Shows path fetch cow_id v db (copies cow) s dev
      → start + n ≤ v.size
      → AreChained v i start n ks
      → AreInBlocks db v i ks
      → IsCoherent cache fetch c
      → (c' : C) × (read_chunks path cache fetch cow s ks c ≡ ok (slice start n dev, c'))
        × IsCoherent cache fetch c'
  unfolding read_chunks
  chunks_part cow i start n [] c sizes shows le empty inside h = (c, rw empty refl, h)
  chunks_part cow i start n (k ∷ ks) c sizes shows le (at, some_byte, part, rest)
        (is_block, within, zero_below, inside) h =
      let begins : i * v.block_size < v.size = omega arith in
      let size : k.block.size ≡ min v.block_size (v.size - i * v.block_size) =
        rw is_block (sizes i begins) in
      let (c1, e1, h1) =
        chunk_part cow i k c is_block within (omega (arith, shows.0)) (shows.1 i begins) h in
      let len = k.length_in_block in
      let (c2, e2, h2) =
        chunks_part cow (i + 1) (start + len) (n - len) ks c1 sizes shows (omega arith) rest inside
          h1 in
      let sum : len + (n - len) ≡ n = omega arith in
      (
        c2,
        rw (e1, e2, at)
            (ap (λ x. ok (x, c2))
              (slice-append start len (n - len) dev ∙ ap (λ x. slice start x dev) sum)),
        h2,
      )

  -- Let a version, whose block size is positive, and the copied blocks of a copy on write version of
  -- it show a device, and let the cache have of a block only what the storage has. Then a read of at
  -- least one byte within the version ends, raises nothing, and gives the bytes of the device, from
  -- copied, sparse, cached and stored blocks alike, and the cache still has only what the storage
  -- has.
  pub read-Shows :
      (cow : Option (List (ℕ × Block))) (offset n : ℕ) (c : C)
      → HasBlockSizes db v
      → Shows path fetch cow_id v db (copies cow) s dev
      → IsCoherent cache fetch c
      → 0 < v.block_size
      → 0 < n
      → offset + n ≤ v.size
      → (c' : C) × (read path cache fetch db v cow s c offset n
          ≡ some (ok (slice offset n dev, c')))
        × IsCoherent cache fetch c'
  unfolding read
  read-Shows cow offset n c sizes shows h bs pos le =
      let (ks, e, chained, inside) = block_list-AreChained db v sizes offset n bs pos le in
      let (c', e', h') =
        chunks_part cow (offset / v.block_size) offset n ks c sizes shows le chained inside h in
      (c', rw (read, e, e') refl, h')
