-- ===== src/NbdStore/Device.antt =====
-- The device that a version and its copied blocks present.
use be_backup.Prelude.{
  length, take, replicate, contains, ℕ, ◌+◌, ◌*◌, ◌≤◌, ◌<◌, ◌≡◌, true, false, Option, none, some,
  List, nat_eq, list_eq, option_eq,
}
use be_backup.Errors.{Result, ok}
use be_backup.Uid.{Text, BlockUid, block_uid, is_set, block_uid_eq}
use be_backup.Database.{Block, Version, Database, get_block_by_idx}
use be_backup.Transforms.{Bytes}
use be_backup.Io.Slices.{slice}
use be_backup.Storage.File.{read_file}
use be_backup.NbdStore.{BlockStore, find_copy}

module _ (path : BlockUid → Result Text) (fetch : Block → Result Bytes) (cow_id : ℕ)
    (v : Version) where
  -- A copied block has its own UID, of the copy on write version with the id, and its file begins
  -- with the data of the block; the data of any other block are zeros or those of the storage.
  abbrev pub IsShownBy : BlockStore → Bytes → Block → Option Block → Type 0
  IsShownBy s bytes b none =
      (is_set b.uid ≡ false → replicate b.size 0 ≡ bytes)
      × (is_set b.uid ≡ true → fetch b ≡ ok bytes)
  IsShownBy s bytes b (some c) =
      (c.uid ≡ block_uid cow_id (b.idx + 1))
      × (contains s.block_present c.uid ≡ true)
      × ((file : Bytes) × ((name : Text) × (path c.uid ≡ ok name)
            × (read_file name s.files ≡ ok file)
            × (take b.size file ≡ bytes)
            × (b.size ≤ length file)))

  -- the block at an index shows these data of a device
  unfoldable pub IsShown : Database → List (ℕ × Block) → BlockStore → Bytes → ℕ → Type 0
  IsShown db cow s dev i =
      let b = get_block_by_idx db v i in
      IsShownBy s (slice (i * v.block_size) b.size dev) b (find_copy i cow)

  -- every block of the version shows its part of the device
  abbrev pub Shows : Database → List (ℕ × Block) → BlockStore → Bytes → Type 0
  Shows db cow s dev =
      (length dev ≡ v.size) × ((i : ℕ) → i * v.block_size < v.size → IsShown db cow s dev i)
