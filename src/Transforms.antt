-- ===== src/Transforms.antt =====
-- The transforms of the data of a block: `TransformBase` of src/benji/transform/base.py, the lookup
-- of src/benji/transform/factory.py, and `_encapsulate` and `_decapsulate` of `StorageBase` in
-- src/benji/storage/base.py. Bytes are lists of numbers, the materials a JSON object of texts.
pub mod Lossless
use be_backup.Prelude.{if◌then◌else◌, ◌==◌, ℕ, Option, none, some, List, [], ◌∷◌, nat_eq, list_eq}
use be_backup.Errors.{configuration_error, Result, ok, err, ◌>>=◌, ◌>>◌, require}
use be_backup.Uid.{Text}

abbrev pub Bytes : Type 0
Bytes = List ℕ

abbrev pub Materials : Type 0
Materials = List (Text × Text)

-- a configured transform; encapsulate gives nothing where it returns (None, None)
pub record Transform : Type 0 where
  pub transform_name : Text
  pub transform_module : Text
  pub encapsulate_with : Bytes → Option (Bytes × Materials)
  pub decapsulate_with : Bytes → Materials → Result Bytes

-- an element of the list under the metadata key `transforms`
pub record Element : Type 0 where
  pub name : Text
  pub module_name : Text
  pub materials : Materials

-- `if data_encapsulated:`, which an empty text of bytes does not pass
abbrev pub encapsulated : Option (Bytes × Materials) → Option (Bytes × Materials)
encapsulated none = none
encapsulated (some ([], m)) = none
encapsulated (some (b ∷ bs, m)) = some (b ∷ bs, m)

unfoldable pub encapsulate_loop : List Transform → Bytes → Bytes × List Element
encapsulate_loop [] bytes = (bytes, [])
encapsulate_loop (t ∷ ts) bytes = elim (encapsulated (t.encapsulate_with bytes)) [
  | none ↦ encapsulate_loop ts bytes
  | some (bytes', materials) ↦
      let (out, elements) = encapsulate_loop ts bytes' in
      (
        out,
        record { name = t.transform_name; module_name = t.transform_module; materials = materials }
            ∷ elements,
      )
]

unfoldable pub encapsulate : Option (List Transform) → Bytes → Bytes × List Element
encapsulate none bytes = (bytes, [])
encapsulate (some ts) bytes = encapsulate_loop ts bytes

-- TransformFactory.get_by_name
unfoldable pub get_by_name : Text → List Transform → Result Transform
get_by_name name [] = err configuration_error
get_by_name name (t ∷ ts) =
    let rest = get_by_name name ts in if t.transform_name == name then ok t else rest

-- the last element first; get_by_name has raised where the source raises IOError
unfoldable pub decapsulate : List Transform → List Element → Bytes → Result Bytes
decapsulate configured [] bytes = ok bytes
decapsulate configured (e ∷ es) bytes = do
  bytes' ← decapsulate configured es bytes
  t ← get_by_name e.name configured
  require (e.module_name == t.transform_module) configuration_error
  t.decapsulate_with bytes' e.materials
