-- ===== src/Database.antt =====
-- The rows of src/benji/database.py and the methods of `Version` that read and write blocks. A
-- table is a list of rows; a method takes the database and returns the one that it commits. What an
-- SQL server can fail at (a lost connection) is not modelled.
pub mod Rows
pub mod Slices
use be_backup.Prelude.{
  ltb, leb, if◌then◌else◌, ◌==◌, range, find_first, ℕ, zero, suc, ◌+◌, ◌-◌, ◌/◌, min, Bool, true,
  false, ◌&&◌, Option, none, some, List, [], ◌∷◌, ◌++◌, map, nat_eq, list_eq,
}
use be_backup.Uid.{Text, BlockUid, sparse_block_uid, block_uid_eq}

pub data VersionStatus : Type 0 where
  incomplete valid invalid : VersionStatus

abbrev pub is_valid : VersionStatus → Bool
is_valid VersionStatus.valid = true
is_valid _ = false

abbrev pub is_deep_scrubbable : VersionStatus → Bool
is_deep_scrubbable incomplete = false
is_deep_scrubbable _ = true

abbrev pub is_scrubbable : VersionStatus → Bool
is_scrubbable VersionStatus.valid = true
is_scrubbable _ = false

abbrev pub is_removable : VersionStatus → Bool
is_removable incomplete = false
is_removable _ = true

-- A row of `blocks`, and what `Block.deref` copies of it; a checksum is a hexadecimal digest.
pub record Block : Type 0 where
  pub version_id : ℕ
  pub idx : ℕ
  pub uid : BlockUid
  pub checksum : Option Text
  pub size : ℕ
  pub valid : Bool

pub record Stats : Type 0 where
  pub bytes_read : ℕ
  pub bytes_written : ℕ
  pub bytes_deduplicated : ℕ
  pub bytes_sparse : ℕ

pub record Version : Type 0 where
  pub id : ℕ
  pub uid : Text
  pub volume : Text
  pub snapshot : Text
  pub size : ℕ
  pub block_size : ℕ
  pub storage_id : ℕ
  pub status : VersionStatus
  pub protected : Bool
  pub created_at : ℕ
  pub stats : Option Stats

pub record DeletedBlock : Type 0 where
  pub id : ℕ
  pub storage_id : ℕ
  pub uid : BlockUid
  pub date : ℕ

pub record Database : Type 0 where
  pub versions : List Version
  pub blocks : List Block
  pub deleted_blocks : List DeletedBlock

-- math.ceil(size / block_size); the quotient of floats rounds up as this does below 2 ** 53
unfoldable pub blocks_count : Version → ℕ
blocks_count v = (v.size + v.block_size - 1) / v.block_size

-- Block.version_id == version_id, Block.idx == idx
abbrev pub has_key : ℕ → ℕ → Block → Bool
has_key version_id idx b = b.version_id == version_id && b.idx == idx

-- one_or_none(): the two columns are the primary key
unfoldable pub find_row : ℕ → ℕ → List Block → Option Block
find_row version_id idx rows = find_first (has_key version_id idx) rows

-- _create_sparse_block
unfoldable pub create_sparse_block : Version → ℕ → Block
create_sparse_block v i = record {
  version_id = v.id;
  idx = i;
  uid = sparse_block_uid;
  checksum = none;
  size = v.block_size;
  valid = true;
}

abbrev pub or_else {ℓ} : {A : Type ℓ} → Option A → A → A
or_else none a = a
or_else (some b) a = b

unfoldable pub get_block_by_idx : Database → Version → ℕ → Block
unfolding create_sparse_block
get_block_by_idx db v i = or_else (find_row v.id i db.blocks) (create_sparse_block v i)

-- The query of one slice: the version's rows with start ≤ idx < stop, ordered by idx.
unfoldable pub insert_by_idx : Block → List Block → List Block
insert_by_idx b [] = b ∷ []
insert_by_idx b (c ∷ rows) =
    let rest = insert_by_idx b rows in if leb b.idx c.idx then b ∷ c ∷ rows else c ∷ rest

unfoldable pub order_by_idx : List Block → List Block
order_by_idx [] = []
order_by_idx (b ∷ rows) = insert_by_idx b (order_by_idx rows)

unfoldable pub select_slice : ℕ → ℕ → ℕ → List Block → List Block
select_slice version_id start stop [] = []
select_slice version_id start stop (b ∷ rows) =
    let rest = select_slice version_id start stop rows in
    if b.version_id == version_id && (leb start b.idx && ltb b.idx stop) then b ∷ rest else rest

-- while idx < stop: yield self._create_sparse_block(idx); idx += 1
unfoldable pub sparse_run : Version → ℕ → ℕ → List Block
sparse_run v i n = map (create_sparse_block v) (range i n)

-- the blocks that a slice yields from `idx` on
unfoldable pub fill_slice : Version → ℕ → ℕ → List Block → List Block
fill_slice v i stop [] = sparse_run v i (stop - i)
fill_slice v i stop (b ∷ rows) =
    sparse_run v i (b.idx - i)
    ++ b ∷ fill_slice v (if ltb i b.idx then b.idx + 1 else i + 1) stop rows

-- `Version.blocks`, with the number of rounds as fuel
unfoldable pub slices : Database → Version → ℕ → ℕ → ℕ → List Block
slices db v per_call zero start = []
slices db v per_call (suc rounds) start =
    let stop = min (start + per_call) (blocks_count v) in
    let slice = fill_slice v start stop (order_by_idx (select_slice v.id start stop db.blocks)) in
    let rest = slices db v per_call rounds stop in
    if stop == blocks_count v then slice else slice ++ rest

abbrev pub blocks_per_call : ℕ
blocks_per_call = 10000

unfoldable pub version_blocks : Database → Version → List Block
version_blocks db v = slices db v blocks_per_call (blocks_count v + 1) 0
