-- ===== src/Storage/File.antt =====
-- `Storage` of src/benji/storage/file.py: an object is a file under the storage's directory. The
-- calls of the file system do not fail but for a file that is not there.
use be_backup.Prelude.{if◌then◌else◌, ◌==◌, length, filter, ℕ, not, List, [], ◌∷◌, list_eq, nat_eq}
use be_backup.Errors.{file_not_found_error, Result, ok, err, ◌>>=◌}
use be_backup.Uid.{Text}
use be_backup.Transforms.{Bytes}
use be_backup.Storage.{Backend}

abbrev pub Files : Type 0
Files = List (Text × Bytes)

unfoldable pub read_file : Text → Files → Result Bytes
read_file key [] = err file_not_found_error
read_file key ((k, bytes) ∷ files) =
    let rest = read_file key files in if k == key then ok bytes else rest

-- open(filename, 'wb'): the file is made, or its content is replaced
unfoldable pub write_file : Text → Bytes → Files → Files
write_file key bytes [] = (key, bytes) ∷ []
write_file key bytes ((k, old) ∷ files) =
    let rest = write_file key bytes files in
    if k == key then (key, bytes) ∷ files else (k, old) ∷ rest

unfoldable pub rm_file : Text → Files → Result (Unit {0}) × Files
rm_file key files = elim (read_file key files) [
  | err e ↦ (err e, files)
  | ok bytes ↦ (ok tt, filter (λ f. not (f.0 == key)) files)
]

unfoldable pub file_length : Text → Files → Result ℕ
file_length key files = do bytes ← read_file key files; ok (length bytes)

unfoldable pub file_storage : Backend Files
file_storage = record {
  read_object = read_file;
  read_object_length = file_length;
  write_object = λ key bytes files. (ok tt, write_file key bytes files);
  rm_object = rm_file;
}
