-- ===== src/Io.antt =====
-- `IO` of src/benji/io/file.py: a file that blocks are read from and written to. The calls of the
-- file system do not fail but for what the module tests; the queues are those of Restore and Backup.
pub mod Slices
pub mod Parts
use be_backup.Prelude.{
  leb, if◌then◌else◌, ◌==◌, length, take, drop, replicate, ℕ, zero, suc, ◌-◌, ◌*◌, Bool, Option,
  none, some, [], ◌∷◌, ◌++◌, nat_eq, list_eq, option_eq,
}
use be_backup.Errors.{file_exists_error, os_error, eof_error, Result, err, ok, ◌>>◌, require}
use be_backup.Database.{Block}
use be_backup.Transforms.{Bytes}

-- seek and write: a gap before the data is zeros
unfoldable pub write_at : ℕ → Bytes → Bytes → Bytes
write_at zero bytes d = bytes ++ drop (length bytes) d
write_at (suc offset) bytes [] = 0 ∷ write_at offset bytes []
write_at (suc offset) bytes (x ∷ d) = x ∷ write_at offset bytes d

-- _read; an empty read is the end of the file
unfoldable pub file_read : ℕ → Block → Bytes → Result Bytes
file_read block_size b d = elim (take b.size (drop (b.idx * block_size) d)) [
  | [] ↦ err eof_error
  | x ∷ xs ↦ ok (x ∷ xs)
]

-- _write; no bytes leave the file as it is
unfoldable pub file_write : ℕ → Block → Bytes → Bytes → Bytes
file_write block_size b [] d = d
file_write block_size b (x ∷ xs) d = write_at (b.idx * block_size) (x ∷ xs) d

-- open_w, of the file at the path if there is one; a new one cannot be made of no bytes
unfoldable pub open_w : ℕ → Bool → Option Bytes → Result Bytes
open_w size force (some d) = do
  require force file_exists_error
  require (leb size (length d)) os_error
  ok d
open_w size force none = if size == 0 then err os_error else ok (replicate (size - 1) 0 ++ 0 ∷ [])
