-- ===== src/Storage/VersionTrip.antt =====
-- What `write_version` wrote to a file storage, `read_version` reads.
use be_backup.Prelude.{
  Bool-cases, ==_refl, length, All, ◌≡◌, refl, ◌∙◌, ◌⊎◌, inl, inr, Bool, true, false, none, some,
  List, [], ◌∷◌, ◌++◌, arith, list_eq, option_eq, nat_eq,
}
use be_backup.Errors.{file_not_found_error, file_exists_error, Result, err, ok}
use be_backup.Uid.{Text}
use be_backup.Transforms.{Bytes, Transform, Element, encapsulate, decapsulate}
use be_backup.Transforms.Lossless.{IsLossless, IsConfigured, decapsulate-encapsulate}
use be_backup.Storage.{
  Metadata, StorageConfig, meta_suffix, truthy, build_metadata, decode_metadata,
}
use be_backup.Storage.Operations.{write_both, check_write}
use be_backup.Storage.File.{Files, read_file, write_file, file_storage}
use be_backup.Storage.RoundTrip.{bare_metadata, decode-build, written, read_data, read_meta}
use be_backup.Storage.VersionObjects.{
  version_to_path, decapsulate_version, check_overwrite, write_version, read_version,
}

decapsulate_version_lem :
    (c : StorageConfig) (elements : List Element) (out bytes : Bytes)
    → decapsulate c.configured elements out ≡ ok bytes
    → decapsulate_version c out (truthy elements) ≡ ok bytes
unfolding decapsulate_version decapsulate
decapsulate_version_lem c [] out bytes e = e
decapsulate_version_lem c (x ∷ xs) out bytes e = e

-- the metadata that is written for a version
abbrev pub version_metadata : StorageConfig → Bytes → Metadata
version_metadata c bytes =
    let (out, elements) = encapsulate c.active_transforms bytes in
    build_metadata c (length bytes) (length out) none elements

module _ (c : StorageConfig) (encode : Text → Bytes) (uid text : Text) (overwrite : Bool)
    (out json : Bytes) (files : Files) where
  write_version_lem :
      (m : Metadata)
      → check_overwrite file_storage c overwrite (version_to_path c.md5 uid) files ≡ ok tt
      → (encapsulate c.active_transforms (encode text)).0 ≡ out
      → c.dumps (version_metadata c (encode text)) ≡ json
      → decode_metadata c json (length out) ≡ ok m
      → write_version file_storage c encode uid text overwrite files
        ≡ (ok tt, written (version_to_path c.md5 uid) out json files)
  unfolding write_version write_both check_write file_storage decode_metadata write_file
  write_version_lem m free is_out is_json decoded = elim (Bool-cases c.consistency_check_writes) [
    | inl t ↦
        rw (write_version, free, is_json, is_out, t, read_data, read_meta, decoded, ==_refl out)
    | inr f ↦ rw (write_version, free, is_json, is_out, f)
  ]

  read_version_lem :
      (decode : Bytes → Result Text) (plain : Bytes) (m : Metadata) (files' : Files)
      → read_file (version_to_path c.md5 uid) files' ≡ ok out
      → read_file (version_to_path c.md5 uid ++ meta_suffix) files' ≡ ok json
      → decode_metadata c json (length out) ≡ ok m
      → decapsulate_version c out m.transforms ≡ ok plain
      → m.metadata_size ≡ some (length plain)
      → read_version file_storage c decode uid files' ≡ decode plain
  unfolding read_version file_storage
  read_version_lem decode plain m files' at_key at_meta decoded is_plain size =
      rw (at_key, at_meta, decoded, is_plain, size, ==_refl (length plain))

may_write :
    (c : StorageConfig) (uid : Text) (overwrite : Bool) (files : Files)
    → (overwrite ≡ true) ⊎ (read_file (version_to_path c.md5 uid) files ≡ err file_not_found_error)
    → check_overwrite file_storage c overwrite (version_to_path c.md5 uid) files ≡ ok tt
unfolding check_overwrite file_storage
may_write c uid true files why = refl
may_write c uid false files (inl e) = absurd (ground arith)
may_write c uid false files (inr e) = rw (check_overwrite, e)

refused :
    (c : StorageConfig) (encode : Text → Bytes) (uid text : Text) (out : Bytes) (files : Files)
    → read_file (version_to_path c.md5 uid) files ≡ ok out
    → write_version file_storage c encode uid text false files ≡ (err file_exists_error, files)
unfolding write_version check_overwrite file_storage
refused c encode uid text out files e = rw (write_version, check_overwrite, e)

-- Let the active transforms be lossless and configured, the JSON text of the metadata be read as that
-- metadata, the current version of the metadata be supported, and the text be read back from its
-- bytes. If there is no object for the version, or it may be overwritten, writing the version to a
-- file storage raises nothing and reading it gives the text; writing anything for the version after
-- that without overwriting raises that it exists, and changes nothing.
pub write_version-read_version :
    (c : StorageConfig) (ts : List Transform) (encode : Text → Bytes) (decode : Bytes → Result Text)
    (uid text other : Text) (overwrite : Bool) (files : Files)
    → c.active_transforms ≡ some ts
    → All IsLossless ts
    → All (IsConfigured c.configured) ts
    → c.loads (c.dumps (version_metadata c (encode text))) ≡ ok (version_metadata c (encode text))
    → c.is_supported c.current_version ≡ true
    → decode (encode text) ≡ ok text
    → (overwrite ≡ true) ⊎ (read_file (version_to_path c.md5 uid) files ≡ err file_not_found_error)
    → (let (w, files') = write_version file_storage c encode uid text overwrite files in
        (w ≡ ok tt)
        × (read_version file_storage c decode uid files' ≡ ok text)
        × (write_version file_storage c encode uid other false files'
            ≡ (err file_exists_error, files')))
unfolding bare_metadata
write_version-read_version c ts encode decode uid text other overwrite files active lossless known
      json supported utf why =
    let key = version_to_path c.md5 uid in
    let bytes = encode text in
    let (out, elements) = encapsulate c.active_transforms bytes in
    let plain : decapsulate c.configured elements out ≡ ok bytes =
      rw active (decapsulate-encapsulate c.configured ts bytes lossless known) in
    let m = bare_metadata c (length bytes) (length out) none elements in
    let json_out = c.dumps (version_metadata c bytes) in
    let decoded = decode-build c (length bytes) (length out) none elements json supported in
    let files' = written key out json_out files in
    let at_key = read_data key out json_out files in
    let done =
      write_version_lem c encode uid text overwrite out json_out files m
        (may_write c uid overwrite files why) refl refl decoded in
    let back =
      read_version_lem c encode uid text overwrite out json_out files decode bytes m files' at_key
        (read_meta key out json_out files) decoded
        (decapsulate_version_lem c elements out bytes plain) refl in
    rw done (refl, back ∙ utf, refused c encode uid other out files' at_key)
