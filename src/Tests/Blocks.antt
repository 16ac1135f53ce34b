-- ===== src/Tests/Blocks.antt =====
-- Tests of the hints, the UIDs, the table of blocks and the preparation of a version.
use be_backup.Prelude.{
  range, All, Any, any, contains, add, ℕ, zero, suc, ◌<◌, ◌≡◌, refl, sym, ap, inl, inr, true, false,
  some, List, [], ◌∷◌, map, arith, nat_eq, list_eq, option_eq,
}
use be_backup.Errors.{ok}
use be_backup.Uid.{Text, block_uid, uid_to_path, path_to_uid, block_uid_eq}
use be_backup.Uid.Keys.{path_to_uid-uid_to_path}
use be_backup.Hints.{
  Hint, BlockSets, add_range, end_bound, add_blocks, hint_step, hint_loop, blocks_from_hints,
}
use be_backup.Hints.Sets.{
  overlaps, covers, is_read_by, is_hole_in, blocks_from_hints_sets, skipped_block,
}
use be_backup.Database.{
  Block, Database, blocks_count, find_row, create_sparse_block, get_block_by_idx, version_blocks,
}
use be_backup.Database.Rows.{IsKeyed}
use be_backup.Database.Slices.{version_blocks-get_block_by_idx}
use be_backup.Versions.{block_row, set_block, set_block_valid}
use be_backup.Versions.Blocks.{get_block-set_block}
use be_backup.Versions.Validity.{IsSound, set_block_valid-IsSound}
use be_backup.BlockList.Cover.{HasBlockSizes}
use be_backup.Tests.Data.{version_a, archive}

IsKeyed-archive : IsKeyed archive.blocks
unfolding find_row
IsKeyed-archive = (refl, (refl, tt))

abbrev hint_list : List Hint
hint_list =
    record { offset = 0; size = 5; exists = true }
    ∷ record { offset = 5; size = 8; exists = false }
    ∷ []

hint_list_positive : All (λ h. 0 < h.size) hint_list
hint_list_positive = (omega arith, (omega arith, tt))

blocks_from_hints_sets_example :
    (s : BlockSets) × (blocks_from_hints hint_list 4 ≡ ok s)
    × ((i : ℕ) → contains s.read i ≡ any (is_read_by 4 i) hint_list)
    × ((i : ℕ) → contains s.sparse i ≡ any (is_hole_in 4 i) hint_list)
blocks_from_hints_sets_example = blocks_from_hints_sets hint_list 4 (omega arith) hint_list_positive

abbrev hint_sets : BlockSets
hint_sets = record { sparse = 3 ∷ 2 ∷ 1 ∷ []; read = 3 ∷ 1 ∷ 0 ∷ [] }

hint_list_sets : blocks_from_hints hint_list 4 ≡ ok hint_sets
unfolding blocks_from_hints hint_loop hint_step add_blocks add_range end_bound be_backup.Prelude.add
hint_list_sets = refl

skipped_block_example :
    Any (λ h. (h.exists ≡ false) × (covers 4 2 h ≡ true)) hint_list
    × All (λ h. h.exists ≡ true → overlaps 4 2 h ≡ false) hint_list
skipped_block_example =
    skipped_block hint_list 4 2 hint_sets (omega arith) hint_list_positive hint_list_sets refl refl

-- a digest of four characters
abbrev zeros : Text → Text
zeros key = b'0' ∷ b'0' ∷ b'0' ∷ b'0' ∷ []

path_to_uid-uid_to_path_example :
    (path : Text) × (uid_to_path zeros (block_uid 17 255) ≡ ok path)
    × (path_to_uid path ≡ ok (block_uid 17 255))
path_to_uid-uid_to_path_example =
    path_to_uid-uid_to_path zeros 17 255 (λ key. omega arith) (omega arith) (omega arith)

version_blocks-get_block_by_idx_example :
    version_blocks archive version_a
    ≡ map (get_block_by_idx archive version_a) (range 0 (blocks_count version_a))
version_blocks-get_block_by_idx_example =
    version_blocks-get_block_by_idx archive version_a IsKeyed-archive

get_block-set_block_example :
    get_block_by_idx
      (set_block archive version_a 1 (block_uid 1 2) (some (8 ∷ [])) 4 true)
      version_a
      1
    ≡ block_row version_a 1 (block_uid 1 2) (some (8 ∷ [])) 4 true
get_block-set_block_example =
    get_block-set_block archive version_a 1 (block_uid 1 2) (some (8 ∷ [])) 4 true version_a 1

IsSound-archive : IsSound archive
IsSound-archive v b m (inl e) h k = ap (λ (x : Block). x.valid) (sym e)
IsSound-archive v b m (inr (inl e)) h k = ap (λ (x : Block). x.valid) (sym e)
IsSound-archive v b m (inr (inr n)) h k = absurd n

set_block_valid-IsSound_example : IsSound (set_block_valid archive (block_uid 1 1) false).0
set_block_valid-IsSound_example =
    set_block_valid-IsSound archive (block_uid 1 1) false IsSound-archive

HasBlockSizes-archive : HasBlockSizes archive version_a
unfolding get_block_by_idx create_sparse_block find_row
HasBlockSizes-archive zero lt = refl
HasBlockSizes-archive (suc zero) lt = refl
HasBlockSizes-archive (suc (suc zero)) lt = refl
HasBlockSizes-archive (suc (suc (suc j))) lt = absurd (omega arith)
