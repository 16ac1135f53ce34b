-- ===== src/Clone.antt =====
-- `update_version` of src/benji/benji.py: the blocks of a version are prepared from those of a base
-- version, or as sparse blocks.
pub mod Packages
pub mod Blocks
use be_backup.Prelude.{
  if◌then◌else◌, ◌==◌, length, ℕ, zero, suc, ◌+◌, ◌-◌, ◌*◌, min, true, false, Option, none, some,
  List, [], ◌∷◌, ◌++◌, nat_eq, list_eq, option_eq,
}
use be_backup.Errors.{assertion_error, Result, ok, err, ◌>>=◌}
use be_backup.Uid.{sparse_block_uid, block_uid_eq}
use be_backup.Database.{valid, Block, Version, Database}
use be_backup.Versions.{block_row, create_blocks}

-- what the loop takes over from the base version's block, if there is one
unfoldable pub inherited : Version → ℕ → Option Block → Block
inherited v i none = block_row v i sparse_block_uid none v.block_size true
inherited v i (some b) = block_row v i b.uid b.checksum b.size b.valid

-- A block whose size differs from the one that it has in the new version is emptied and marked
-- invalid, so that it is read again.
unfoldable pub clone_block : Version → ℕ → Option Block → Block
clone_block v i old =
    let b = inherited v i old in
    let new_size = min v.block_size (v.size - i * v.block_size) in
    if b.size == new_size then b else block_row v i sparse_block_uid none new_size false

-- next(old_blocks_iter, None) with its assertion
unfoldable pub next_block : ℕ → List Block → Result (Option Block × List Block)
next_block i [] = ok (none, [])
next_block i (b ∷ rest) = if b.idx == i then ok (some b, rest) else err assertion_error

-- a full work package is written, and a new one begun
unfoldable pub push_block :
    Database → Version → ℕ → List Block → Block → Result (Database × List Block)
push_block db v work_package blocks b =
    let blocks' = blocks ++ b ∷ [] in
    if length blocks' == work_package
    then (do db' ← create_blocks db v blocks'; ok (db', []))
    else ok (db, blocks')

-- the loop over the `n` indices from `i` on, with the blocks not yet written
unfoldable pub clone_loop :
    Database → Version → ℕ → List Block → ℕ → ℕ → List Block → Result Database
clone_loop db v work_package old i zero blocks = create_blocks db v blocks
clone_loop db v work_package old i (suc n) blocks = do
  (b, rest) ← next_block i old
  (db', blocks') ← push_block db v work_package blocks (clone_block v i b)
  clone_loop db' v work_package rest (i + 1) n blocks'

abbrev pub blocks_create_work_package : ℕ
blocks_create_work_package = 10000
