-- ===== src/Storage/Operations.antt =====
-- `_write`, `_check_write`, `_read` and `_rm_block` of `StorageBase` in src/benji/storage/base.py,
-- for the synchronous calls `write_block`, `read_block` and `rm_block`, and `check_block_metadata`.
use be_backup.Prelude.{
  if◌then◌else◌, ◌==◌, length, ℕ, Bool, true, false, ◌||◌, Option, none, some, List, ◌++◌, list_eq,
  option_eq, nat_eq,
}
use be_backup.Errors.{
  Exception, invalid_block_exception, block_not_found_error, value_error, Result, ok, err, ◌>>=◌,
  ◌>>◌, require, wrap, is_file_not_found, is_key_or_value_error,
}
use be_backup.Uid.{Text, BlockUid, is_some, uid_to_path}
use be_backup.Database.{Block}
use be_backup.Transforms.{Bytes, Element, encapsulate, decapsulate}
use be_backup.Storage.{
  Backend, Metadata, StorageConfig, meta_suffix, build_metadata, decode_metadata,
}

module _ {S : Type 0} where
  -- except FileNotFoundError: pass
  abbrev pub pass_not_found : Result (Unit {0}) × S → Result (Unit {0}) × S
  pass_not_found (ok u, s) = (ok u, s)
  pass_not_found (err e, s) = (if is_file_not_found e then ok tt else err e, s)

  -- go on with the state if nothing was raised, or else with the exception
  abbrev pub proceed :
      Result (Unit {0}) × S
      → (S → Result (Unit {0}) × S)
      → (Exception → S → Result (Unit {0}) × S)
      → Result (Unit {0}) × S
  proceed (ok u, s) next fail = next s
  proceed (err e, s) next fail = fail e s

  -- except: …, raise
  unfoldable pub reraise : Exception → Result (Unit {0}) × S → Result (Unit {0}) × S
  reraise e (ok u, s) = (err e, s)
  reraise e (err e', s) = (err e', s)

unfoldable pub decapsulate_read :
    StorageConfig → Option Bytes → Option (List Element) → Result (Option Bytes)
decapsulate_read c none elements = ok none
decapsulate_read c (some bytes) none = ok (some bytes)
decapsulate_read c (some bytes) (some elements) = do
  bytes' ← decapsulate c.configured elements bytes
  ok (some bytes')

module _ {S : Type 0} (b : Backend S) where
  -- the two calls of rm_object in the handler of _write: the second is not made if the first raises
  unfoldable pub rm_both : Text → Text → S → Result (Unit {0}) × S
  rm_both key metadata_key s =
      proceed (b.rm_object key s) (λ s'. b.rm_object metadata_key s') (λ e s'. (err e, s'))

  unfoldable pub write_both : Text → Text → Bytes → Bytes → S → Result (Unit {0}) × S
  write_both key metadata_key bytes metadata_json s =
      let undo : Exception → S → Result (Unit {0}) × S =
        λ e s'. reraise e (pass_not_found (rm_both key metadata_key s')) in
      proceed (b.write_object key bytes s)
        (λ s'. proceed (b.write_object metadata_key metadata_json s') (λ s''. (ok tt, s'')) undo)
        undo

  unfoldable pub check_write : StorageConfig → Text → Text → Bytes → S → Result (Unit {0})
  check_write c key metadata_key data_expected s = do
    data_actual ← b.read_object key s
    metadata_actual ← b.read_object metadata_key s
    m ← decode_metadata c metadata_actual (length data_actual)
    require (data_expected == data_actual) value_error

  unfoldable pub write_block : StorageConfig → Block → Bytes → S → Result (Unit {0}) × S
  write_block c block bytes s =
      let (bytes', elements) = encapsulate c.active_transforms bytes in
      let metadata = build_metadata c block.size (length bytes') block.checksum elements in
      elim (uid_to_path c.md5 block.uid) [
        | err e ↦ (err e, s)
        | ok key ↦
            proceed (write_both key (key ++ meta_suffix) bytes' (c.dumps metadata) s)
              (λ s'. (
                if c.consistency_check_writes
                    then wrap is_key_or_value_error invalid_block_exception
                        (check_write c key (key ++ meta_suffix) bytes' s')
                    else ok tt,
                s',
              ))
              (λ e s'. (err e, s'))
      ]

  -- the object, or only its length, and the metadata
  unfoldable pub read_objects : Text → Bool → S → Result (Option Bytes × (ℕ × Bytes))
  read_objects key true s = do
    data_length ← b.read_object_length key s
    metadata_json ← b.read_object (key ++ meta_suffix) s
    ok (none, (data_length, metadata_json))
  read_objects key false s = do
    bytes ← b.read_object key s
    metadata_json ← b.read_object (key ++ meta_suffix) s
    ok (some bytes, (length bytes, metadata_json))

  unfoldable pub read_block : StorageConfig → Block → Bool → S → Result (Option Bytes × Metadata)
  read_block c block metadata_only s = do
    key ← uid_to_path c.md5 block.uid
    found ← wrap is_file_not_found invalid_block_exception (read_objects key metadata_only s)
    m ← wrap is_key_or_value_error invalid_block_exception (decode_metadata c found.1.1 found.1.0)
    require (is_some m.metadata_checksum) invalid_block_exception
    bytes ← decapsulate_read c found.0 m.transforms
    ok (bytes, m)

  -- the second removal is tried whatever the first did; its exception replaces that of the first
  unfoldable pub rm_block : StorageConfig → BlockUid → S → Result (Unit {0}) × S
  rm_block c uid s = elim (uid_to_path c.md5 uid) [
    | err e ↦ (err e, s)
    | ok key ↦
        let (first, s') = b.rm_object key s in
        let (second, s'') = pass_not_found (b.rm_object (key ++ meta_suffix) s') in
        (second >> wrap is_file_not_found block_not_found_error first, s'')
  ]

-- check_block_metadata; `if data_length and …`
unfoldable pub check_block_metadata : Block → Option ℕ → Metadata → Result (Unit {0})
check_block_metadata block data_length m = do
  require (m.metadata_size == some block.size) value_error
  require (data_length == none || data_length == some 0 || data_length == some block.size)
      value_error
  require (block.checksum == m.metadata_checksum) value_error
