-- ===== src/BlockList.antt =====
-- `BenjiStore._block_list` of src/benji/benji.py: the parts of blocks that a read or a write of the
-- NBD server touches. `get_block_by_idx` always gives a block, so the branch without one is never
-- taken. The length of a part is negative where an access starts beyond the end of a block; it is
-- kept as a length and what is missing below 0.
pub mod Cover
use be_backup.Prelude.{
  if◌then◌else◌, ◌==◌, ℕ, zero, suc, ◌+◌, ◌-◌, ◌/◌, ◌%◌, min, Option, none, some, List, [], ◌∷◌,
  nat_eq,
}
use be_backup.Database.{Block, Version, Database, get_block_by_idx}

pub record Chunk : Type 0 where
  pub block : Block
  pub offset_in_block : ℕ
  pub length_in_block : ℕ
  pub below_zero : ℕ

-- one turn of the loop: the part in a block
unfoldable pub chunk_at : Block → ℕ → ℕ → Chunk
chunk_at b block_offset n = record {
  block = b;
  offset_in_block = block_offset;
  length_in_block = min (b.size - block_offset) n;
  below_zero = block_offset - b.size;
}

-- the loop, with fuel
unfoldable pub chunks : ℕ → Database → Version → ℕ → ℕ → ℕ → Option (List Chunk)
chunks zero db v block_idx block_offset n = none
chunks (suc fuel) db v block_idx block_offset n =
    let c = chunk_at (get_block_by_idx db v block_idx) block_offset n in
    let left = n + c.below_zero - c.length_in_block in
    let rest = chunks fuel db v (block_idx + 1) 0 left in
    if left == 0 then some (c ∷ []) else elim rest [ none ↦ none | some cs ↦ some (c ∷ cs) ]

-- every turn but the first takes a byte at least, and the first leaves less than a block more
unfoldable pub block_list : Database → Version → ℕ → ℕ → Option (List Chunk)
block_list db v offset n =
    chunks (n + v.block_size + 2) db v (offset / v.block_size) (offset % v.block_size) n
