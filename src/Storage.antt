-- ===== src/Storage.antt =====
-- `StorageBase` of src/benji/storage/base.py: the objects of the blocks and their metadata, and
-- `DictHMAC` of src/benji/storage/dicthmac.py. The operations on the objects of a storage are an
-- interface, which the storage of files fills. JSON, the test of the version of the metadata, the
-- HMAC of a text and MD5 are functions of the configuration. The queues of the asynchronous calls
-- and the throttling are not modelled.
pub mod Operations
pub mod File
pub mod RoundTrip
pub mod Digest
pub mod Failures
pub mod Listing
pub mod VersionObjects
pub mod VersionTrip
use be_backup.Prelude.{
  ltb, if◌then◌else◌, ◌==◌, ℕ, zero, suc, ◌+◌, ◌/◌, ◌%◌, Bool, true, false, ◌&&◌, ◌||◌, Option,
  none, some, List, [], ◌∷◌, ◌++◌, list_eq, option_eq, nat_eq,
}
use be_backup.Errors.{key_error, value_error, Result, err, ok, ◌>>=◌, ◌>>◌, require}
use be_backup.Uid.{Text, is_some}
use be_backup.Transforms.{Bytes, Materials, Transform, Element}

pub record Backend (S : Type 0) : Type 0 where
  pub read_object : Text → S → Result Bytes
  pub read_object_length : Text → S → Result ℕ
  pub write_object : Text → Bytes → S → Result (Unit {0}) × S
  pub rm_object : Text → S → Result (Unit {0}) × S

pub record Hmac : Type 0 where
  pub algorithm : Option Text
  pub digest : Option Text

-- the metadata of an object; a key that is not there is none
pub record Metadata : Type 0 where
  pub created : Option Text
  pub metadata_version : Option Text
  pub modified : Option Text
  pub object_size : Option ℕ
  pub metadata_size : Option ℕ
  pub metadata_checksum : Option Text
  pub transforms : Option (List Element)
  pub hmac : Option Hmac

pub record StorageConfig : Type 0 where
  pub active_transforms : Option (List Transform)
  pub configured : List Transform
  pub dict_hmac : Option (Text → Text)
  pub dumps : Metadata → Bytes
  pub loads : Bytes → Result Metadata
  pub current_version : Text
  pub is_supported : Text → Bool
  pub md5 : Text → Text
  pub timestamp : Text
  pub consistency_check_writes : Bool

-- '.meta', 'sha256'
abbrev pub meta_suffix : Text
meta_suffix = b'.' ∷ b'm' ∷ b'e' ∷ b't' ∷ b'a' ∷ []

abbrev pub hash_name : Text
hash_name = b's' ∷ b'h' ∷ b'a' ∷ b'2' ∷ b'5' ∷ b'6' ∷ []

-- `if checksum:`, `if transforms_metadata:`
abbrev pub truthy {ℓ} : {A : Type ℓ} → List A → Option (List A)
truthy [] = none
truthy (x ∷ xs) = some (x ∷ xs)

abbrev pub truthy_text : Option Text → Option Text
truthy_text none = none
truthy_text (some t) = truthy t

-- str of a number: its decimal digits, the last ones first taken, with fuel
unfoldable pub decimal_digits : ℕ → ℕ → Text
decimal_digits zero n = []
decimal_digits (suc fuel) n =
    let before = decimal_digits fuel (n / 10) in
    if ltb n 10 then (b'0' + n) ∷ [] else before ++ (b'0' + n % 10) ∷ []

abbrev pub str_number : ℕ → Text
str_number n = decimal_digits (n + 1) n

-- sorted(cursor.keys()): texts are ordered by their code points
unfoldable pub text_leb : Text → Text → Bool
text_leb [] t = true
text_leb (x ∷ s) [] = false
text_leb (x ∷ s) (y ∷ t) = ltb x y || x == y && text_leb s t

unfoldable pub insert_sorted : Text × Text → Materials → Materials
insert_sorted p [] = p ∷ []
insert_sorted p (q ∷ qs) =
    let rest = insert_sorted p qs in if text_leb p.0 q.0 then p ∷ q ∷ qs else q ∷ rest

unfoldable pub sort_materials : Materials → Materials
sort_materials [] = []
sort_materials (p ∷ ps) = insert_sorted p (sort_materials ps)

unfoldable pub traverse_materials : Materials → Text
traverse_materials [] = []
traverse_materials ((key, value) ∷ ps) = key ++ (value ++ traverse_materials ps)

-- the keys of an element in their order: materials, module, name
unfoldable pub traverse_elements : List Element → Text
traverse_elements [] = []
traverse_elements (e ∷ es) =
    (b'm' ∷ b'a' ∷ b't' ∷ b'e' ∷ b'r' ∷ b'i' ∷ b'a' ∷ b'l' ∷ b's' ∷ [])
    ++ (traverse_materials (sort_materials e.materials)
        ++ ((b'm' ∷ b'o' ∷ b'd' ∷ b'u' ∷ b'l' ∷ b'e' ∷ [])
            ++ (e.module_name
                ++ ((b'n' ∷ b'a' ∷ b'm' ∷ b'e' ∷ []) ++ (e.name ++ traverse_elements es)))))

-- a key and what is written for its value, if the key is there
abbrev pub traverse_key {ℓ} : {A : Type ℓ} → Text → (A → Text) → Option A → Text
traverse_key key write none = []
traverse_key key write (some a) = key ++ write a

-- what `_calculate_digest` passes to the HMAC, of metadata without the key `hmac`
unfoldable pub traverse : Metadata → Text
traverse m =
    traverse_key (b'c' ∷ b'h' ∷ b'e' ∷ b'c' ∷ b'k' ∷ b's' ∷ b'u' ∷ b'm' ∷ []) (λ t. t)
      m.metadata_checksum
    ++ (traverse_key (b'c' ∷ b'r' ∷ b'e' ∷ b'a' ∷ b't' ∷ b'e' ∷ b'd' ∷ []) (λ t. t) m.created
        ++ (traverse_key
              (b'm' ∷ b'e' ∷ b't' ∷ b'a' ∷ b'd' ∷ b'a' ∷ b't' ∷ b'a' ∷ b'_' ∷ b'v' ∷ b'e' ∷ b'r'
                ∷ b's' ∷ b'i' ∷ b'o' ∷ b'n' ∷ [])
              (λ t. t) m.metadata_version
            ++ (traverse_key (b'm' ∷ b'o' ∷ b'd' ∷ b'i' ∷ b'f' ∷ b'i' ∷ b'e' ∷ b'd' ∷ []) (λ t. t)
                  m.modified
                ++ (traverse_key
                      (b'o' ∷ b'b' ∷ b'j' ∷ b'e' ∷ b'c' ∷ b't' ∷ b'_' ∷ b's' ∷ b'i' ∷ b'z' ∷ b'e'
                        ∷ [])
                      str_number m.object_size
                    ++ (traverse_key (b's' ∷ b'i' ∷ b'z' ∷ b'e' ∷ []) str_number m.metadata_size
                        ++ traverse_key
                            (b't' ∷ b'r' ∷ b'a' ∷ b'n' ∷ b's' ∷ b'f' ∷ b'o' ∷ b'r' ∷ b'm' ∷ b's'
                              ∷ [])
                            traverse_elements m.transforms)))))

unfoldable pub calculate_digest : (Text → Text) → Metadata → Text
calculate_digest hmac_of m = hmac_of (traverse m)

-- DictHMAC.add_digest and verify_digest; the digest is taken without the key `hmac`
unfoldable pub add_digest : Option (Text → Text) → Metadata → Metadata
add_digest none m = m
add_digest (some hmac_of) m = record m {
  hmac = some (record { algorithm = some hash_name; digest = some (calculate_digest hmac_of m) });
}

unfoldable pub verify_hmac : (Text → Text) → Metadata → Option Hmac → Result Metadata
verify_hmac hmac_of m none = err value_error
verify_hmac hmac_of m (some h) =
    let bare : Metadata = record m { hmac = none } in
    do
      require (is_some h.algorithm && is_some h.digest) value_error
      require (h.algorithm == some hash_name) value_error
      require (some (calculate_digest hmac_of bare) == h.digest) value_error
      ok bare

unfoldable pub verify_digest : Option (Text → Text) → Metadata → Result Metadata
verify_digest none m = ok m
verify_digest (some hmac_of) m = verify_hmac hmac_of m m.hmac

unfoldable pub build_metadata : StorageConfig → ℕ → ℕ → Option Text → List Element → Metadata
build_metadata c size object_size checksum elements = add_digest c.dict_hmac (record {
  created = some c.timestamp;
  metadata_version = some c.current_version;
  modified = some c.timestamp;
  object_size = some object_size;
  metadata_size = some size;
  metadata_checksum = truthy_text checksum;
  transforms = truthy elements;
  hmac = none;
})

unfoldable pub version_of : Option Text → Result Text
version_of none = err key_error
version_of (some v) = ok v

unfoldable pub decode_metadata : StorageConfig → Bytes → ℕ → Result Metadata
decode_metadata c metadata_json data_length = do
  loaded ← c.loads metadata_json
  m ← verify_digest c.dict_hmac loaded
  v ← version_of m.metadata_version
  require (c.is_supported v) value_error
  require
      (is_some m.created && is_some m.modified && is_some m.object_size && is_some m.metadata_size)
      key_error
  require (some data_length == m.object_size) value_error
  ok m
