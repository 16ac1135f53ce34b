-- ===== src/Tests/Objects.antt =====
-- Tests of the objects of a file storage, with a transform that puts a byte before the others.
use be_backup.Prelude.{
  ◌==◌, list_eqb, list_eqb_iff, length, take, Has, ◌≡◌, refl, ◌≢◌, inl, inr, true, false, none,
  some, List, [], ◌∷◌, arith, nat_eq, list_eq, option_eq,
}
use be_backup.Errors.{value_error, file_exists_error, os_error, err, ok}
use be_backup.Uid.{Text, BlockUid, block_uid_eq}
use be_backup.Transforms.{Bytes, Transform, encapsulate, get_by_name, decapsulate}
use be_backup.Transforms.Lossless.{IsLossless, IsConfigured, decapsulate-encapsulate}
use be_backup.Storage.{
  Backend, Metadata, StorageConfig, meta_suffix, traverse, calculate_digest, add_digest,
  verify_digest, build_metadata,
}
use be_backup.Storage.Operations.{write_both, write_block, read_block, check_block_metadata}
use be_backup.Storage.File.{Files, read_file, file_storage}
use be_backup.Storage.RoundTrip.{metadata_of, write_block-read_block}
use be_backup.Storage.Failures.{IsGone, IsBackend, write_both_failed, file_storage-IsBackend}
use be_backup.Storage.Digest.{verify_digest-add_digest}
use be_backup.Storage.Listing.{list_blocks, IsListed, list_blocks-IsListed}
use be_backup.Storage.VersionObjects.{write_version, read_version}
use be_backup.Storage.VersionTrip.{version_metadata, write_version-read_version}
use be_backup.Tests.Data.{row_0}

abbrev unmark : Bytes → Bytes
unmark [] = []
unmark (b ∷ bs) = bs

abbrev marker : Transform
marker = record {
  transform_name = b'm' ∷ [];
  transform_module = b'p' ∷ [];
  encapsulate_with = λ bytes. some (0 ∷ bytes, []);
  decapsulate_with = λ bytes m. ok (unmark bytes);
}

IsLossless-marker : IsLossless marker
IsLossless-marker bytes out m e = ground arith

IsConfigured-marker : IsConfigured (marker ∷ []) marker
unfolding get_by_name be_backup.Prelude.list_eqb
IsConfigured-marker = refl

decapsulate-encapsulate_example :
    (let (out, elements) = encapsulate (some (marker ∷ [])) (4 ∷ []) in
      decapsulate (marker ∷ []) elements out ≡ ok (4 ∷ []))
decapsulate-encapsulate_example =
    decapsulate-encapsulate (marker ∷ []) (marker ∷ []) (4 ∷ []) (IsLossless-marker, tt)
      (IsConfigured-marker, tt)

abbrev block_bytes : Bytes
block_bytes = 1 ∷ 2 ∷ 3 ∷ 4 ∷ []

abbrev plain_config : StorageConfig
plain_config = record {
  active_transforms = some (marker ∷ []);
  configured = marker ∷ [];
  dict_hmac = some (λ t. take 4 t);
  dumps = λ m. b'{' ∷ b'}' ∷ [];
  loads = λ bytes. err value_error;
  current_version = b'2' ∷ [];
  is_supported = λ v. v == b'2' ∷ [];
  md5 = λ key. b'0' ∷ b'0' ∷ b'0' ∷ b'0' ∷ [];
  timestamp = [];
  consistency_check_writes = true;
}

-- the JSON library, for the one text that is written
abbrev config : StorageConfig
config = record plain_config { loads = λ bytes. ok (metadata_of plain_config row_0 block_bytes) }

config_supported : config.is_supported config.current_version ≡ true
unfolding be_backup.Prelude.list_eqb
config_supported = refl

config_loads :
    config.loads (config.dumps (metadata_of config row_0 block_bytes))
    ≡ ok (metadata_of config row_0 block_bytes)
unfolding build_metadata
config_loads = refl

write_block-read_block_example :
    (let (w, files') = write_block file_storage config row_0 block_bytes [] in
      (w ≡ ok tt)
      × ((m : Metadata) × (read_block file_storage config row_0 false files'
            ≡ ok (some block_bytes, m))
          × (read_block file_storage config row_0 true files' ≡ ok (none, m))
          × (check_block_metadata row_0 (some (length block_bytes)) m ≡ ok tt)))
write_block-read_block_example =
    write_block-read_block config (marker ∷ []) row_0 1 1 7 [] block_bytes [] refl
      (IsLossless-marker, tt) (IsConfigured-marker, tt) config_loads config_supported refl refl refl

-- a file storage whose disk is full: no object can be written
abbrev full_disk : Backend Files
full_disk = record file_storage { write_object = λ key bytes files. (err os_error, files) }

full_disk-IsBackend : IsBackend full_disk
full_disk-IsBackend =
    let laws = file_storage-IsBackend in
    record { rm_gone = laws.rm_gone; rm_reads = laws.rm_reads; rm_keeps = laws.rm_keeps }

write_both_failed_example :
    (let (w, s') =
        write_both full_disk (1 ∷ []) (2 ∷ []) (3 ∷ []) (4 ∷ []) (((1 ∷ []), (9 ∷ [])) ∷ []) in
      (w ≡ err os_error) × IsGone full_disk (1 ∷ []) s')
write_both_failed_example =
    write_both_failed full_disk full_disk-IsBackend (1 ∷ []) (2 ∷ []) (3 ∷ []) (4 ∷ [])
      (((1 ∷ []), (9 ∷ [])) ∷ []) os_error (inl refl)

abbrev version_text : Text
version_text = b'{' ∷ b'1' ∷ b'}' ∷ []

-- the JSON library, for the one text that is written for the version
abbrev version_config : StorageConfig
version_config = record plain_config {
  loads = λ bytes. ok (version_metadata plain_config version_text);
}

version_loads :
    version_config.loads (version_config.dumps (version_metadata version_config version_text))
    ≡ ok (version_metadata version_config version_text)
unfolding build_metadata
version_loads = refl

version_supported : version_config.is_supported version_config.current_version ≡ true
unfolding be_backup.Prelude.list_eqb
version_supported = refl

write_version-read_version_example :
    (let (w, files') =
        write_version file_storage version_config (λ t. t) (b'v' ∷ []) version_text false [] in
      (w ≡ ok tt)
      × (read_version file_storage version_config ok (b'v' ∷ []) files' ≡ ok version_text)
      × (write_version file_storage version_config (λ t. t) (b'v' ∷ []) [] false files'
          ≡ (err file_exists_error, files')))
unfolding read_file
write_version-read_version_example =
    write_version-read_version version_config (marker ∷ []) (λ t. t) ok (b'v' ∷ []) version_text []
      false [] refl (IsLossless-marker, tt) (IsConfigured-marker, tt) version_loads
      version_supported refl (inr refl)

list_blocks-IsListed_example :
    (us : List BlockUid) × (list_blocks ((b'x' ∷ []) ∷ meta_suffix ∷ []) ≡ ok us)
    × ((u : BlockUid) → Has u us → IsListed ((b'x' ∷ []) ∷ meta_suffix ∷ []) u)
    × ((u : BlockUid) → IsListed ((b'x' ∷ []) ∷ meta_suffix ∷ []) u → Has u us)
list_blocks-IsListed_example = list_blocks-IsListed ((b'x' ∷ []) ∷ meta_suffix ∷ [])

abbrev no_metadata : Metadata
no_metadata = record {
  created = none;
  metadata_version = none;
  modified = none;
  object_size = none;
  metadata_size = none;
  metadata_checksum = none;
  transforms = none;
  hmac = none;
}

abbrev forged : Metadata
forged = record no_metadata { metadata_checksum = some (b'f' ∷ []) }

digests_differ :
    calculate_digest (λ t. t) (record forged { hmac = none })
    ≢ calculate_digest (λ t. t) (record no_metadata { hmac = none })
unfolding calculate_digest traverse be_backup.Prelude.list_eqb
digests_differ e =
    let no : false ≡ true = (list_eqb_iff (traverse forged) (traverse no_metadata)).1 e in
    absurd (ground arith)

verify_digest-add_digest_example :
    (let signed = add_digest (some (λ t. t)) (record no_metadata { hmac = none }) in
      (verify_digest (some (λ t. t)) signed ≡ ok (record no_metadata { hmac = none }))
      × (verify_digest (some (λ t. t)) (record forged { hmac = signed.hmac }) ≡ err value_error)
      × (verify_digest (some (λ t. t)) (record forged { hmac = none }) ≡ err value_error))
verify_digest-add_digest_example =
    verify_digest-add_digest (λ t. t) no_metadata forged digests_differ
