-- ===== src/Versions.antt =====
-- The methods of `Version` in src/benji/database.py that change rows.
pub mod Blocks
pub mod Validity
pub mod Removal
use be_backup.Prelude.{
  if◌then◌else◌, ◌==◌, length, any, find_first, filter, contains, ℕ, ◌+◌, Bool, not, ◌&&◌, ◌||◌,
  Option, none, some, List, [], ◌∷◌, ◌++◌, map, nat_eq, list_eq, option_eq,
}
use be_backup.Errors.{key_error, integrity_error, Result, ok, err, ◌>>=◌}
use be_backup.Uid.{Text, BlockUid, block_uid, is_some, is_set, block_uid_eq}
use be_backup.Database.{
  VersionStatus, invalid, Block, Version, DeletedBlock, Database, has_key, find_row, or_else,
}

-- a new row of the table of blocks
abbrev pub block_row : Version → ℕ → BlockUid → Option Text → ℕ → Bool → Block
block_row v i block_uid checksum size is_good = record {
  version_id = v.id;
  idx = i;
  uid = block_uid;
  checksum = checksum;
  size = size;
  valid = is_good;
}

-- Session.delete(block)
unfoldable pub delete_row : ℕ → ℕ → List Block → List Block
delete_row vid i rows = filter (λ b. not (has_key vid i b)) rows

-- an assignment to the row's attributes
unfoldable pub update_row : Block → List Block → List Block
update_row new [] = []
update_row new (b ∷ rows) =
    let rest = update_row new rows in
    if has_key new.version_id new.idx b then new ∷ rest else b ∷ rest

-- `Version.set_block`: a block that is fully sparse has no row
unfoldable pub set_block : Database → Version → ℕ → BlockUid → Option Text → ℕ → Bool → Database
unfolding delete_row update_row
set_block db v i block_uid checksum size is_good =
    let new = block_row v i block_uid checksum size is_good in
    let turns_sparse = not (is_set block_uid) && size == v.block_size in
    elim (find_row v.id i db.blocks) [
      | none ↦ if turns_sparse then db else record db { blocks = new ∷ db.blocks }
      | some b ↦
          if turns_sparse
          then record db { blocks = delete_row v.id i db.blocks }
          else record db { blocks = update_row new db.blocks }
    ]

-- `Version.create_blocks`: rows that are not fully sparse are inserted, with the version's id
unfoldable pub has_content : Version → Block → Bool
has_content v b = is_some b.uid.left || is_some b.uid.right || not (b.size == v.block_size)

-- inserts in order; one that violates the primary key raises
unfoldable pub insert_rows : List Block → List Block → Result (List Block)
insert_rows [] rows = ok rows
insert_rows (b ∷ new) rows =
    if is_some (find_row b.version_id b.idx rows)
    then err integrity_error
    else insert_rows new (rows ++ b ∷ [])

-- the rows that `create_blocks` inserts
unfoldable pub rows_of : Version → List Block → List Block
rows_of v blocks =
    map {A = Block} (λ b. record b { version_id = v.id }) (filter (has_content v) blocks)

unfoldable pub create_blocks : Database → Version → List Block → Result Database
create_blocks db v blocks = do
  rows ← insert_rows (rows_of v blocks) db.blocks
  ok (record db { blocks = rows })

-- `Version.set`
unfoldable pub set_version : Database → Version → Option VersionStatus → Option Bool → Database
set_version db v status protected = record db {
  versions =
      map
        (λ w.
          if w.id == v.id
          then record w {
            status = or_else status w.status;
            protected = or_else protected w.protected;
          }
          else w)
        db.versions;
}

-- the UIDs of the versions with a row whose UID is given; a set
unfoldable pub affected_versions : Database → BlockUid → List Version
affected_versions db block_uid =
    filter (λ v. any (λ b. b.version_id == v.id && b.uid == block_uid) db.blocks) db.versions

-- `Version.set_block_valid`: the new database and the UIDs of the versions affected
unfoldable pub set_block_valid : Database → BlockUid → Bool → Database × List Text
unfolding affected_versions
set_block_valid db block_uid is_good =
    let affected = map (λ v. v.uid) (affected_versions db block_uid) in
    (
      record db {
        blocks =
            map (λ b. if b.uid == block_uid then record b { valid = is_good } else b) db.blocks;
        versions =
            map
              (λ v.
                if not is_good && contains affected v.uid then record v { status = invalid } else v)
              db.versions;
      },
      affected,
    )

-- the deleted blocks that `Version.remove` records, with the next free ids
unfoldable pub deleted_rows : ℕ → ℕ → ℕ → List Block → List DeletedBlock
deleted_rows next storage_id now [] = []
deleted_rows next storage_id now (b ∷ rows) =
    if is_set b.uid
    then (record { id = next; storage_id = storage_id; uid = b.uid; date = now })
      ∷ deleted_rows (next + 1) storage_id now rows
    else deleted_rows next storage_id now rows

-- `Version.remove`: the number of rows that the version had
unfoldable pub remove_version : Database → Version → ℕ → ℕ → Database × ℕ
unfolding deleted_rows
remove_version db v next now =
    let mine = filter (λ b. b.version_id == v.id) db.blocks in
    (
      record {
        versions = filter (λ w. not (w.id == v.id)) db.versions;
        blocks = filter (λ b. not (b.version_id == v.id)) db.blocks;
        deleted_blocks = deleted_rows next v.storage_id now mine ++ db.deleted_blocks;
      },
      length mine,
    )

-- `Version.get_block_by_checksum`: the first valid row of the storage with the checksum
unfoldable pub get_block_by_checksum : Database → Version → Text → Option Block
get_block_by_checksum db v checksum =
    find_first
      (λ b.
        b.checksum == some checksum
        && (b.valid && any (λ w. w.id == b.version_id && w.storage_id == v.storage_id) db.versions))
      db.blocks

-- `Version.get_by_uid`
unfoldable pub get_by_uid : Database → Text → Result Version
get_by_uid db uid = elim (find_first (λ v. v.uid == uid) db.versions) [
  | none ↦ err key_error
  | some v ↦ ok v
]
