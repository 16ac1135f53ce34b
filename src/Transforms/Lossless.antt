-- ===== src/Transforms/Lossless.antt =====
-- What was encapsulated is decapsulated to the same bytes.
use be_backup.Prelude.{
  ==_refl, All, ◌≡◌, refl, ◌⊎◌, inl, inr, Option, none, some, List, [], ◌∷◌, list_eq, nat_eq,
}
use be_backup.Errors.{ok}
use be_backup.Transforms.{
  Bytes, Materials, Transform, encapsulated, encapsulate_loop, encapsulate, get_by_name,
  decapsulate,
}

-- decapsulate undoes what encapsulate returned
abbrev pub IsLossless : Transform → Type 0
IsLossless t =
    (bytes out : Bytes) (m : Materials)
    → t.encapsulate_with bytes ≡ some (out, m)
    → t.decapsulate_with out m ≡ ok bytes

-- the transform is the configured one of its name
abbrev pub IsConfigured : List Transform → Transform → Type 0
IsConfigured configured t = get_by_name t.transform_name configured ≡ ok t

encapsulated_cases :
    (o : Option (Bytes × Materials))
    → (encapsulated o ≡ none)
      ⊎ ((out : Bytes) × (m : Materials) × (encapsulated o ≡ some (out, m)) × (o ≡ some (out, m)))
encapsulated_cases none = inl refl
encapsulated_cases (some ([], m)) = inl refl
encapsulated_cases (some (b ∷ bs, m)) = inr (b ∷ bs, m, refl, refl)

pub decapsulate-encapsulate_loop :
    (configured ts : List Transform) (bytes : Bytes)
    → All IsLossless ts
    → All (IsConfigured configured) ts
    → (let (out, elements) = encapsulate_loop ts bytes in
        decapsulate configured elements out ≡ ok bytes)
unfolding encapsulate_loop decapsulate
decapsulate-encapsulate_loop configured [] bytes l c = refl
decapsulate-encapsulate_loop configured (t ∷ ts) bytes (l, ls) (c, cs) =
    elim (encapsulated_cases (t.encapsulate_with bytes)) [
      | inl e ↦ rw (e, encapsulate_loop) (decapsulate-encapsulate_loop configured ts bytes ls cs)
      | inr (out, m, e, same) ↦
          rw
            (
              e,
              encapsulate_loop,
              decapsulate-encapsulate_loop configured ts out ls cs,
              c,
              ==_refl t.transform_module,
            )
            (l bytes out m same)
    ]

-- If each active transform restores what it encapsulated and is the configured one of its name,
-- decapsulating the encapsulated bytes with the elements written for them gives the bytes.
pub decapsulate-encapsulate :
    (configured ts : List Transform) (bytes : Bytes)
    → All IsLossless ts
    → All (IsConfigured configured) ts
    → (let (out, elements) = encapsulate (some ts) bytes in
        decapsulate configured elements out ≡ ok bytes)
unfolding encapsulate
decapsulate-encapsulate = decapsulate-encapsulate_loop
