-- ===== src/Versions/Blocks.antt =====
-- Writes of block rows, as seen through `get_block_by_idx`: the table is a map from an index to a
-- block, in which a block that is fully sparse has no row.
use be_backup.Prelude.{
  if◌then◌else◌, Bool-cases, Option-cases, ◌==◌, filter, ℕ, ◌≡◌, inl, inr, Bool, not, ◌&&◌, Option,
  none, some, List, [], ◌∷◌, arith, nat_eq,
}
use be_backup.Uid.{Text, BlockUid, is_set, block_uid_eq}
use be_backup.Database.{
  Block, Version, Database, has_key, find_row, create_sparse_block, get_block_by_idx,
}
use be_backup.Database.Rows.{IsKeyed}
use be_backup.Versions.{block_row, delete_row, update_row, set_block}

module _ (vid i : ℕ) where
  find-delete :
      (wid j : ℕ) (rows : List Block)
      → find_row wid j (delete_row vid i rows)
        ≡ (if vid == wid && i == j then none else find_row wid j rows)
  unfolding find_row delete_row filter
  find-delete wid j [] = ground arith
  find-delete wid j (b ∷ rows) = ground (arith, find-delete wid j rows)

  delete-IsKeyed : (rows : List Block) → IsKeyed rows → IsKeyed (delete_row vid i rows)
  unfolding delete_row filter
  delete-IsKeyed [] k = tt
  delete-IsKeyed (b ∷ rows) k = elim (Bool-cases (has_key vid i b)) [
    | inl here ↦ rw here (delete-IsKeyed rows k.1)
    | inr other ↦
        rw other (ground (arith, find-delete b.version_id b.idx rows, k.0), delete-IsKeyed rows k.1)
  ]

module _ (new : Block) where
  find-update :
      (wid j : ℕ) (rows : List Block)
      → find_row wid j (update_row new rows) ≡ (
          if new.version_id == wid && new.idx == j
          then (elim (find_row wid j rows) [ none ↦ none | some b ↦ some new ])
          else find_row wid j rows)
  unfolding find_row update_row
  find-update wid j [] = ground arith
  find-update wid j (b ∷ rows) = ground (arith, find-update wid j rows)

  update-IsKeyed : (rows : List Block) → IsKeyed rows → IsKeyed (update_row new rows)
  unfolding update_row
  update-IsKeyed [] k = tt
  update-IsKeyed (b ∷ rows) k = elim (Bool-cases (has_key new.version_id new.idx b)) [
    | inl here ↦
        rw here
          (ground (arith, find-update new.version_id new.idx rows, k.0), update-IsKeyed rows k.1)
    | inr other ↦
        rw other (ground (arith, find-update b.version_id b.idx rows, k.0), update-IsKeyed rows k.1)
  ]

module _ (db : Database) (v : Version) (i : ℕ) (u : BlockUid) (c : Option Text) (n : ℕ)
    (good : Bool) where
  -- `set_block` keeps the primary key.
  pub set_block-IsKeyed : IsKeyed db.blocks → IsKeyed (set_block db v i u c n good).blocks
  unfolding set_block
  set_block-IsKeyed k = elim (Option-cases (find_row v.id i db.blocks)) [
    | inl absent ↦ elim (Bool-cases (not (is_set u) && n == v.block_size)) [
      | inl sparse ↦ rw (absent, set_block) (rw sparse k)
      | inr full ↦ rw (absent, set_block) (rw full (absent, k))
    ]
    | inr (b, present) ↦ elim (Bool-cases (not (is_set u) && n == v.block_size)) [
      | inl sparse ↦ rw (present, set_block) (rw sparse (delete-IsKeyed v.id i db.blocks k))
      | inr full ↦
          rw (present, set_block) (rw full (update-IsKeyed (block_row v i u c n good) db.blocks k))
    ]
  ]

  -- After `set_block` at an index the lookup of that index in the version returns the new block;
  -- what is fully sparse comes back as a sparse block with no checksum that is valid. Every other
  -- index of the version, and every index of every other version, reads as before.
  pub get_block-set_block :
      (w : Version) (j : ℕ)
      → get_block_by_idx (set_block db v i u c n good) w j ≡ (
          if v.id == w.id && i == j
          then (if not (is_set u) && n == v.block_size
              then create_sparse_block w j
              else block_row v i u c n good)
          else get_block_by_idx db w j)
  unfolding set_block get_block_by_idx find_row
  get_block-set_block w j = ground (
    arith,
    find-delete v.id i w.id j db.blocks,
    find-update (block_row v i u c n good) w.id j db.blocks,
  )
