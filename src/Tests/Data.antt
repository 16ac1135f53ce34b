-- ===== src/Tests/Data.antt =====
-- The database of the tests: a version of ten bytes in blocks of four, of which the second is not
-- stored, and a version that has no rows yet.
use be_backup.Prelude.{true, false, none, some, [], ◌∷◌}
use be_backup.Uid.{block_uid}
use be_backup.Database.{VersionStatus, incomplete, Block, Version, DeletedBlock, Database}
use be_backup.Locking.{Owner}

abbrev pub version_a : Version
version_a = record {
  id = 1;
  uid = b'a' ∷ [];
  volume = [];
  snapshot = [];
  size = 10;
  block_size = 4;
  storage_id = 1;
  status = VersionStatus.valid;
  protected = false;
  created_at = 0;
  stats = none;
}

abbrev pub version_b : Version
version_b = record version_a { id = 2; uid = b'b' ∷ []; status = incomplete }

abbrev pub row_0 : Block
row_0 = record {
  version_id = 1;
  idx = 0;
  uid = block_uid 1 1;
  checksum = some (7 ∷ []);
  size = 4;
  valid = true;
}

abbrev pub row_2 : Block
row_2 = record row_0 { idx = 2; uid = block_uid 1 3; size = 2 }

-- deleted, and for the second still in use
abbrev pub deleted_1 : DeletedBlock
deleted_1 = record { id = 1; storage_id = 1; uid = block_uid 9 1; date = 0 }

abbrev pub deleted_2 : DeletedBlock
deleted_2 = record { id = 2; storage_id = 1; uid = block_uid 1 1; date = 0 }

abbrev pub archive : Database
archive = record {
  versions = version_a ∷ version_b ∷ [];
  blocks = row_0 ∷ row_2 ∷ [];
  deleted_blocks = deleted_1 ∷ deleted_2 ∷ [];
}

abbrev pub process_1 : Owner
process_1 = record { host = b'h' ∷ []; process_id = b'1' ∷ [] }

abbrev pub process_2 : Owner
process_2 = record { host = b'h' ∷ []; process_id = b'2' ∷ [] }
