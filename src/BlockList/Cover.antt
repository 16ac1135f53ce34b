-- ===== src/BlockList/Cover.antt =====
-- The parts of an access within the version are the bytes that it names, in their order.
use be_backup.Prelude.{
  Bool-cases, ◌==◌, range, ℕ, zero, suc, ◌+◌, ◌-◌, ◌*◌, ◌/◌, ◌%◌, ◌≤◌, ◌<◌, min, ◌≡◌, refl, sym, ap,
  subst, ◌∙◌, inl, inr, some, List, [], ◌∷◌, ◌++◌, arith, nat_eq,
}
use be_backup.Database.{Version, Database, get_block_by_idx}
use be_backup.Database.Slices.{range_append}
use be_backup.BlockList.{Chunk, chunk_at, chunks, block_list}

-- the positions in the version of the bytes of a part, and of those of all parts
abbrev pub positions : Version → ℕ → List Chunk → List ℕ
positions v idx [] = []
positions v idx (c ∷ cs) =
    range (idx * v.block_size + c.offset_in_block) c.length_in_block ++ positions v (idx + 1) cs

-- each part is in the block of its index and within it
abbrev pub AreInBlocks : Database → Version → ℕ → List Chunk → Type 0
AreInBlocks db v idx [] = Unit
AreInBlocks db v idx (c ∷ cs) =
    (c.block ≡ get_block_by_idx db v idx)
    × (c.offset_in_block + c.length_in_block ≤ c.block.size)
    × (c.below_zero ≡ 0)
    × AreInBlocks db v (idx + 1) cs

-- every block has the block size, or what is left of the version
abbrev pub HasBlockSizes : Database → Version → Type 0
HasBlockSizes db v =
    (j : ℕ)
    → j * v.block_size < v.size
    → (get_block_by_idx db v j).size ≡ min v.block_size (v.size - j * v.block_size)

-- the arithmetic of one turn: p is the start of the block, sz its size, vs that of the version
module _ (p bs sz vs off n : ℕ) (size : sz ≡ min bs (vs - p)) (o : off < bs) (le : p + off + n ≤ vs)
    (pos : 0 < n) where
  turn_within : (off - sz ≡ 0) × (off + min (sz - off) n ≤ sz) × (0 < min (sz - off) n)
  turn_within = (ground arith, ground arith, ground arith)

  turn_last : n + (off - sz) - min (sz - off) n ≡ 0 → min (sz - off) n ≡ n
  turn_last e = ground arith

  turn_next :
      0 < n + (off - sz) - min (sz - off) n
      → (n + (off - sz) - min (sz - off) n < n)
        × (p + off + min (sz - off) n ≡ p + bs)
        × (p + bs + 0 + (n + (off - sz) - min (sz - off) n) ≤ vs)
        × (min (sz - off) n + (n + (off - sz) - min (sz - off) n) ≡ n)
  turn_next more = (ground arith, ground arith, ground arith, ground arith)

next_start : (idx bs : ℕ) → (idx + 1) * bs ≡ idx * bs + bs
next_start idx bs = ground arith

-- each part takes at least a byte and begins where the one before it ends
abbrev pub AreChained : Version → ℕ → ℕ → ℕ → List Chunk → Type 0
AreChained v idx start n [] = n ≡ 0
AreChained v idx start n (c ∷ cs) =
    (idx * v.block_size + c.offset_in_block ≡ start)
    × (0 < c.length_in_block)
    × (c.length_in_block ≤ n)
    × AreChained v (idx + 1) (start + c.length_in_block) (n - c.length_in_block) cs

pub positions-AreChained :
    (v : Version) (idx start n : ℕ) (cs : List Chunk)
    → AreChained v idx start n cs
    → positions v idx cs ≡ range start n
unfolding range
positions-AreChained v idx start n [] chained = ap (range start) (sym chained)
positions-AreChained v idx start n (c ∷ cs) (at, some_byte, le, rest) =
    let len = c.length_in_block in
    let sum : len + (n - len) ≡ n = omega arith in
    rw (at, positions-AreChained v (idx + 1) (start + len) (n - len) cs rest)
      (range_append start len (n - len) ∙ ap (range start) sum)

module _ (db : Database) (v : Version) (sizes : HasBlockSizes db v) where
  chunks_cover :
      (fuel idx off n : ℕ)
      → n < fuel
      → 0 < n
      → off < v.block_size
      → idx * v.block_size + off + n ≤ v.size
      → (cs : List Chunk) × (chunks fuel db v idx off n ≡ some cs)
        × AreChained v idx (idx * v.block_size + off) n cs
        × AreInBlocks db v idx cs
  unfolding chunks chunk_at
  chunks_cover zero idx off n lt pos o le = absurd (ground arith)
  chunks_cover (suc fuel) idx off n lt pos o le =
      let b = get_block_by_idx db v idx in
      let size : b.size ≡ min v.block_size (v.size - idx * v.block_size) =
        sizes idx (ground arith) in
      let c = chunk_at b off n in
      let p = idx * v.block_size in
      let here = min (b.size - off) n in
      let left = n + (off - b.size) - here in
      let (zero_below, inside, some_byte) =
        turn_within p v.block_size b.size v.size off n size o le pos in
      elim (Bool-cases (left == 0)) [
        | inl done ↦ (
          c ∷ [],
          rw done refl,
          (refl, some_byte, omega arith, ground arith),
          (refl, inside, zero_below, tt),
        )
        | inr more ↦
            let (less, at, fits, sum) =
              turn_next p v.block_size b.size v.size off n size o le pos (ground arith) in
            let (cs, e, chained, all) =
              chunks_cover fuel (idx + 1) 0 left (ground arith) (ground arith) (ground arith)
                (rw next_start fits) in
            let start : (idx + 1) * v.block_size + 0 ≡ p + off + here =
              ap (λ x. x + 0) (next_start idx v.block_size) ∙ ground arith in
            let what_is_left : left ≡ n - here = omega arith in
            (
              c ∷ cs,
              rw (more, e) refl,
              (refl, some_byte, omega arith, rw (← what_is_left, ← start) chained),
              (refl, inside, zero_below, all),
            )
      ]

  -- the list of the parts, each of which begins where the one before it ends
  pub block_list-AreChained :
      (offset n : ℕ)
      → 0 < v.block_size
      → 0 < n
      → offset + n ≤ v.size
      → (cs : List Chunk) × (block_list db v offset n ≡ some cs)
        × AreChained v (offset / v.block_size) offset n cs
        × AreInBlocks db v (offset / v.block_size) cs
  unfolding block_list
  block_list-AreChained offset n bs pos le =
      let at : offset / v.block_size * v.block_size + offset % v.block_size ≡ offset =
        omega arith in
      let (cs, e, chained, all) =
        chunks_cover (n + v.block_size + 2) (offset / v.block_size) (offset % v.block_size) n
          (ground arith) pos (omega arith) (rw at le) in
      (cs, e, subst (λ x. AreChained v (offset / v.block_size) x n cs) at chained, all)

-- Let the blocks of a version have their sizes, and let an access of at least one byte lie within the
-- version. Then the loop ends within its fuel, the parts it returns are, in order, exactly the bytes
-- of the access, each in the block of its index and within that block.
pub block_list-positions :
    (db : Database) (v : Version) (offset n : ℕ)
    → HasBlockSizes db v
    → 0 < v.block_size
    → 0 < n
    → offset + n ≤ v.size
    → (cs : List Chunk) × (block_list db v offset n ≡ some cs)
      × (positions v (offset / v.block_size) cs ≡ range offset n)
      × AreInBlocks db v (offset / v.block_size) cs
block_list-positions db v offset n sizes bs pos le =
    let (cs, e, chained, all) = block_list-AreChained db v sizes offset n bs pos le in
    (cs, e, positions-AreChained v (offset / v.block_size) offset n cs chained, all)
