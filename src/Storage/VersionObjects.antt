-- ===== src/Storage/VersionObjects.antt =====
-- `write_version`, `read_version` and `rm_version` of `StorageBase` in src/benji/storage/base.py:
-- the objects that keep the metadata of versions, under the keys of `VersionUid` of
-- src/benji/database.py. UTF-8 is an argument.
use be_backup.Prelude.{
  if◌then◌else◌, ◌==◌, length, Bool, true, false, Option, none, some, List, [], ◌∷◌, ◌++◌, list_eq,
  option_eq, nat_eq,
}
use be_backup.Errors.{
  value_error, file_exists_error, Result, err, ok, ◌>>=◌, ◌>>◌, require, is_file_not_found,
}
use be_backup.Uid.{Text, to_path}
use be_backup.Transforms.{Bytes, Element, encapsulate, decapsulate}
use be_backup.Storage.{Backend, StorageConfig, meta_suffix, build_metadata, decode_metadata}
use be_backup.Storage.Operations.{pass_not_found, proceed, write_both, check_write}

-- 'versions/'
abbrev pub versions_prefix : Text
versions_prefix = b'v' ∷ b'e' ∷ b'r' ∷ b's' ∷ b'i' ∷ b'o' ∷ b'n' ∷ b's' ∷ b'/' ∷ []

unfoldable pub version_to_path : (Text → Text) → Text → Text
version_to_path md5 uid = to_path md5 versions_prefix uid

unfoldable pub decapsulate_version : StorageConfig → Bytes → Option (List Element) → Result Bytes
decapsulate_version c bytes none = ok bytes
decapsulate_version c bytes (some elements) = decapsulate c.configured elements bytes

module _ {S : Type 0} (b : Backend S) (c : StorageConfig) where
  -- `if not overwrite: …`
  unfoldable pub check_overwrite : Bool → Text → S → Result (Unit {0})
  check_overwrite true key s = ok tt
  check_overwrite false key s = elim (b.read_object key s) [
    | ok bytes ↦ err file_exists_error
    | err e ↦ if is_file_not_found e then ok tt else err e
  ]

  unfoldable pub write_version : (Text → Bytes) → Text → Text → Bool → S → Result (Unit {0}) × S
  write_version encode uid text overwrite s =
      let key = version_to_path c.md5 uid in
      let data_bytes = encode text in
      let (bytes, elements) = encapsulate c.active_transforms data_bytes in
      let metadata = build_metadata c (length data_bytes) (length bytes) none elements in
      elim (check_overwrite overwrite key s) [
        | err e ↦ (err e, s)
        | ok u ↦
            proceed (write_both b key (key ++ meta_suffix) bytes (c.dumps metadata) s)
              (λ s'. (
                if c.consistency_check_writes
                    then check_write b c key (key ++ meta_suffix) bytes s'
                    else ok tt,
                s',
              ))
              (λ e s'. (err e, s'))
      ]

  unfoldable pub read_version : (Bytes → Result Text) → Text → S → Result Text
  read_version decode uid s =
      let key = version_to_path c.md5 uid in
      do
        bytes ← b.read_object key s
        metadata_json ← b.read_object (key ++ meta_suffix) s
        m ← decode_metadata c metadata_json (length bytes)
        plain ← decapsulate_version c bytes m.transforms
        require (some (length plain) == m.metadata_size) value_error
        decode plain

  -- the exception of the first removal is raised after the second one was tried
  unfoldable pub rm_version : Text → S → Result (Unit {0}) × S
  rm_version uid s =
      let key = version_to_path c.md5 uid in
      let (first, s') = b.rm_object key s in
      let (second, s'') = pass_not_found (b.rm_object (key ++ meta_suffix) s') in
      (second >> first, s'')
