-- ===== src/Storage/RoundTrip.antt =====
-- What `write_block` wrote to a file storage, `read_block` reads.
use be_backup.Prelude.{
  if◌then◌else◌, Bool-cases, ◌==◌, ==_refl, list_eqb, list_eqb_iff, length, All, ℕ, ◌≡◌, refl, sym,
  ap, inl, inr, true, false, Option, none, some, List, [], ◌∷◌, ◌++◌, arith, list_eq, nat_eq,
  option_eq,
}
use be_backup.Errors.{ok, ◌>>=◌}
use be_backup.Uid.{
  Text, block_uid, is_some, format_16x, uid_to_key, to_path, blocks_prefix, uid_to_path,
}
use be_backup.Database.{Block}
use be_backup.Transforms.{Bytes, Transform, Element, encapsulate, decapsulate}
use be_backup.Transforms.Lossless.{IsLossless, IsConfigured, decapsulate-encapsulate}
use be_backup.Storage.{
  Metadata, StorageConfig, meta_suffix, hash_name, truthy, truthy_text, calculate_digest,
  add_digest, verify_hmac, verify_digest, build_metadata, version_of, decode_metadata,
}
use be_backup.Storage.Operations.{
  decapsulate_read, write_both, check_write, write_block, read_objects, read_block,
  check_block_metadata,
}
use be_backup.Storage.File.{Files, read_file, write_file, file_length, file_storage}

-- the metadata that a reader gets
unfoldable pub bare_metadata : StorageConfig → ℕ → ℕ → Option Text → List Element → Metadata
bare_metadata c size object_size checksum elements = record {
  created = some c.timestamp;
  metadata_version = some c.current_version;
  modified = some c.timestamp;
  object_size = some object_size;
  metadata_size = some size;
  metadata_checksum = truthy_text checksum;
  transforms = truthy elements;
  hmac = none;
}

pub verify-add_digest :
    (h : Option (Text → Text)) (m : Metadata)
    → verify_digest h (add_digest h (record m { hmac = none })) ≡ ok (record m { hmac = none })
unfolding verify_digest add_digest verify_hmac
verify-add_digest none m = refl
verify-add_digest (some hmac_of) m =
    rw (==_refl hash_name, ==_refl (calculate_digest hmac_of (record m { hmac = none })))

verify-build :
    (c : StorageConfig) (size n : ℕ) (checksum : Option Text) (elements : List Element)
    → verify_digest c.dict_hmac (build_metadata c size n checksum elements)
      ≡ ok (bare_metadata c size n checksum elements)
unfolding build_metadata bare_metadata
verify-build c size n checksum elements =
    verify-add_digest c.dict_hmac (bare_metadata c size n checksum elements)

module _ (c : StorageConfig) where
  pub decode-build :
      (size n : ℕ) (checksum : Option Text) (elements : List Element)
      → (let m = build_metadata c size n checksum elements in c.loads (c.dumps m) ≡ ok m)
      → c.is_supported c.current_version ≡ true
      → decode_metadata c (c.dumps (build_metadata c size n checksum elements)) n
        ≡ ok (bare_metadata c size n checksum elements)
  unfolding decode_metadata bare_metadata version_of
  decode-build size n checksum elements json supported =
      rw (json, verify-build, supported, ==_refl n)

pub read-write_file :
    (k key : Text) (bytes : Bytes) (files : Files)
    → read_file k (write_file key bytes files) ≡ (if key == k then ok bytes else read_file k files)
unfolding read_file write_file
read-write_file k key bytes [] = refl
read-write_file k key bytes ((n, old) ∷ files) = ground (
  arith,
  read-write_file k key bytes files,
  list_eqb_iff n key,
  list_eqb_iff n k,
  list_eqb_iff key k,
)

-- a text is not its own beginning
append-differs : (key : Text) (n : ℕ) (rest : Text) → (key ++ n ∷ rest == key) ≡ false
unfolding be_backup.Prelude.list_eqb
append-differs [] n rest = refl
append-differs (x ∷ key) n rest = rw (==_refl x, append-differs key n rest)

module _ (key : Text) (out json : Bytes) (files : Files) where
  abbrev pub written : Files
  written = write_file (key ++ meta_suffix) json (write_file key out files)

  pub read_data : read_file key written ≡ ok out
  read_data = rw (read-write_file, append-differs, read-write_file, ==_refl key)

  pub read_meta : read_file (key ++ meta_suffix) written ≡ ok json
  read_meta = rw (read-write_file, ==_refl (key ++ meta_suffix))

abbrev uid_path : (Text → Text) → ℕ → ℕ → Text
uid_path md5 l r = to_path md5 blocks_prefix (format_16x l ++ b'-' ∷ format_16x r)

uid_to_path_lem :
    (md5 : Text → Text) (l r : ℕ) → uid_to_path md5 (block_uid l r) ≡ ok (uid_path md5 l r)
unfolding uid_to_path uid_to_key
uid_to_path_lem md5 l r = refl

pub decapsulate_read_lem :
    (c : StorageConfig) (elements : List Element) (out bytes : Bytes)
    → decapsulate c.configured elements out ≡ ok bytes
    → decapsulate_read c (some out) (truthy elements) ≡ ok (some bytes)
unfolding decapsulate_read decapsulate
decapsulate_read_lem c [] out bytes e = ap (λ r. r >>= λ b. ok (some b)) e
decapsulate_read_lem c (x ∷ xs) out bytes e = ap (λ r. r >>= λ b. ok (some b)) e

module _ (c : StorageConfig) (block : Block) (key : Text) (out json : Bytes) (files : Files) where
  -- both objects are written, and the check of them reads them back
  write_lem :
      (bytes : Bytes) (m : Metadata)
      → uid_to_path c.md5 block.uid ≡ ok key
      → (let (out', elements) = encapsulate c.active_transforms bytes in
          (out' ≡ out)
          × (c.dumps (build_metadata c block.size (length out') block.checksum elements) ≡ json))
      → decode_metadata c json (length out) ≡ ok m
      → write_block file_storage c block bytes files ≡ (ok tt, written key out json files)
  unfolding write_block write_both check_write file_storage decode_metadata write_file
  write_lem bytes m path (is_out, is_json) decoded = elim (Bool-cases c.consistency_check_writes) [
    | inl t ↦ rw (write_block, path, is_json, is_out, t, read_data, read_meta, decoded, ==_refl out)
    | inr f ↦ rw (write_block, path, is_json, is_out, f)
  ]

  read_full :
      (bytes : Bytes) (m : Metadata) (files' : Files)
      → uid_to_path c.md5 block.uid ≡ ok key
      → read_file key files' ≡ ok out
      → read_file (key ++ meta_suffix) files' ≡ ok json
      → decode_metadata c json (length out) ≡ ok m
      → is_some m.metadata_checksum ≡ true
      → decapsulate_read c (some out) m.transforms ≡ ok (some bytes)
      → (read_block file_storage c block false files' ≡ ok (some bytes, m))
        × (read_block file_storage c block true files' ≡ ok (none, m))
  unfolding read_block read_objects file_storage file_length decapsulate_read
  read_full bytes m files' path at_key at_meta decoded has plain =
      (rw (path, at_key, at_meta, decoded, has, plain), rw (path, at_key, at_meta, decoded, has))

pub check_lem :
    (block : Block) (m : Metadata) (n : ℕ)
    → n ≡ block.size
    → m.metadata_size ≡ some n
    → block.checksum ≡ m.metadata_checksum
    → check_block_metadata block (some n) m ≡ ok tt
unfolding check_block_metadata
check_lem block m n size recorded sum =
    rw (recorded, size, sum, ==_refl block.size, ==_refl m.metadata_checksum)
      (elim (Bool-cases (block.size == 0)) [ inl t ↦ rw t | inr f ↦ rw f ])

-- the metadata that is written for a block
abbrev pub metadata_of : StorageConfig → Block → Bytes → Metadata
metadata_of c block bytes =
    let (out, elements) = encapsulate c.active_transforms bytes in
    build_metadata c block.size (length out) block.checksum elements

module _ (c : StorageConfig) (ts : List Transform) (block : Block) (l r : ℕ) (x : ℕ) (sum : Text)
    (bytes : Bytes) (files : Files) where
  -- Let the UID of the block be set and its checksum not empty, the active transforms lossless and
  -- configured, the JSON text of the metadata be read as that metadata, and the current version of
  -- the metadata be supported. Then writing a block to a file storage raises nothing, the check of
  -- the written objects included, and reading it gives the bytes, and metadata that agrees with a
  -- row of the table whose size is the number of bytes; reading only the metadata gives that
  -- metadata.
  pub write_block-read_block :
      c.active_transforms ≡ some ts
      → All IsLossless ts
      → All (IsConfigured c.configured) ts
      → c.loads (c.dumps (metadata_of c block bytes)) ≡ ok (metadata_of c block bytes)
      → c.is_supported c.current_version ≡ true
      → block.uid ≡ block_uid l r
      → block.checksum ≡ some (x ∷ sum)
      → block.size ≡ length bytes
      → (let (w, files') = write_block file_storage c block bytes files in
          (w ≡ ok tt)
          × ((m : Metadata) × (read_block file_storage c block false files' ≡ ok (some bytes, m))
              × (read_block file_storage c block true files' ≡ ok (none, m))
              × (check_block_metadata block (some (length bytes)) m ≡ ok tt)))
  unfolding bare_metadata
  write_block-read_block active lossless known json supported uid checksum size =
      let key = uid_path c.md5 l r in
      let path : uid_to_path c.md5 block.uid ≡ ok key = rw (uid, uid_to_path_lem) in
      let (out, elements) = encapsulate c.active_transforms bytes in
      let plain : decapsulate c.configured elements out ≡ ok bytes =
        rw active (decapsulate-encapsulate c.configured ts bytes lossless known) in
      let m = bare_metadata c block.size (length out) block.checksum elements in
      let json_out = c.dumps (build_metadata c block.size (length out) block.checksum elements) in
      let decoded = decode-build c block.size (length out) block.checksum elements json supported in
      let done = write_lem c block key out json_out files bytes m path (refl, refl) decoded in
      let (full, brief) =
        read_full c block key out json_out files bytes m (written key out json_out files) path
          (read_data key out json_out files) (read_meta key out json_out files) decoded
          (rw checksum refl) (decapsulate_read_lem c elements out bytes plain) in
      rw done (
        refl,
        (
          m,
          full,
          brief,
          check_lem block m (length bytes) (sym size) (ap some size) (rw checksum refl),
        ),
      )
