-- ===== src/Clone/Blocks.antt =====
-- What the blocks of a prepared version are.
use be_backup.Prelude.{
  if◌then◌else◌, ◌==◌, ℕ, ◌+◌, ◌-◌, ◌*◌, min, ◌≡◌, ◌≢◌, true, Option, none, some, List, [], ◌∷◌,
  nat_eq, list_eq, option_eq,
}
use be_backup.Uid.{sparse_block_uid, is_set, block_uid_eq}
use be_backup.Database.{Block, Version, Database, create_sparse_block}
use be_backup.Database.Rows.{find_idx}
use be_backup.Versions.{has_content}
use be_backup.Clone.{clone_block}

-- the indices of the blocks count up from `i`
abbrev pub Consecutive : ℕ → List Block → Type 0
Consecutive i [] = Unit
Consecutive i (b ∷ rest) = (b.idx ≡ i) × Consecutive (i + 1) rest

module _ (v : Version) where
  abbrev pub clone_at : List Block → ℕ → Block
  clone_at old j = clone_block v j (find_idx j old)

module _ (v : Version) (f : ℕ → Block) (idxs : (j : ℕ) → (f j).idx ≡ j) where
  -- the row that an index gets
  abbrev row_at : ℕ → Option Block
  row_at j = if has_content v (f j) then some (record (f j) { version_id = v.id }) else none

-- the block that a lookup returns for a block that was written
abbrev pub stored : Version → Block → Block
stored v b = if has_content v b then b else create_sparse_block v b.idx

-- what a new version has at an index, for its base block there
abbrev pub IsCloned : Version → ℕ → Option Block → Block → Type 0
IsCloned v j old new =
    let size = min v.block_size (v.size - j * v.block_size) in
    (new.size ≡ size)
    × ((b : Block)
        → old ≡ some b
        → b.size ≡ size
        → (new.uid ≡ b.uid)
          × (is_set b.uid ≡ true → (new.checksum ≡ b.checksum) × (new.valid ≡ b.valid)))
    × (((b : Block) → old ≡ some b → b.size ≢ size)
        → (new.uid ≡ sparse_block_uid)
          × (new.checksum ≡ none)
          × (new.valid ≡ (size == v.block_size)))
