-- ===== src/History.antt =====
-- `BlockUidHistory` of src/benji/blockuidhistory.py: which blocks of which storages a scrub has seen.
-- A dictionary is an association list; the bit field of sparsebitfield is an argument.
use be_backup.Prelude.{
  if◌then◌else◌, Bool-cases, ◌==◌, eq_of_==, ℕ, ◌≡◌, refl, ap, ◌∙◌, inl, inr, Bool, false, ◌&&◌,
  ◌||◌, Option, none, some, List, [], ◌∷◌, arith, nat_eq, list_eq, option_eq,
}
use be_backup.Errors.{assertion_error, Result, err, ok}
use be_backup.Uid.{BlockUid, block_uid, block_uid_eq}
use be_backup.Database.{or_else}

pub record BitField (F : Type 0) : Type 0 where
  pub empty : F
  pub add_bit : ℕ → F → F
  pub has_bit : ℕ → F → Bool

-- what is documented of it: a set of numbers
pub record IsBitField {F : Type 0} (b : BitField F) : Type 0 where
  pub has_bit-empty : (i : ℕ) → b.has_bit i b.empty ≡ false
  pub has_bit-add_bit : (i j : ℕ) (f : F) → b.has_bit i (b.add_bit j f) ≡ (j == i || b.has_bit i f)

module _ {V : Type 0} where
  unfoldable pub get_key : ℕ → List (ℕ × V) → Option V
  get_key k [] = none
  get_key k ((j, v) ∷ d) = if j == k then some v else get_key k d

  unfoldable pub put_key : ℕ → V → List (ℕ × V) → List (ℕ × V)
  put_key k v [] = (k, v) ∷ []
  put_key k v ((j, w) ∷ d) =
      let rest = put_key k v d in if j == k then (k, v) ∷ d else (j, w) ∷ rest

  pub get-put_key :
      (k j : ℕ) (v : V) (d : List (ℕ × V))
      → get_key k (put_key j v d) ≡ (if j == k then some v else get_key k d)
  unfolding get_key put_key
  get-put_key k j v [] = refl
  get-put_key k j v ((i, w) ∷ d) = ground (arith, get-put_key k j v d)

module _ {F : Type 0} (b : BitField F) where
  abbrev pub History : Type 0
  History = List (ℕ × List (ℕ × F))

  unfoldable pub add_bits : ℕ → Option ℕ → Option ℕ → History → Result History
  add_bits storage_id (some l) (some r) history =
      let of_storage = or_else (get_key storage_id history) [] in
      let field = or_else (get_key l of_storage) b.empty in
      ok (put_key storage_id (put_key l (b.add_bit r field) of_storage) history)
  add_bits storage_id _ _ history = err assertion_error

  -- `add`
  unfoldable pub add_block : ℕ → BlockUid → History → Result History
  add_block storage_id u history = add_bits storage_id u.left u.right history

  -- `seen`
  unfoldable pub seen_in : Option (List (ℕ × F)) → ℕ → ℕ → Bool
  seen_in none l r = false
  seen_in (some of_storage) l r = elim (get_key l of_storage) [
    | none ↦ false
    | some field ↦ b.has_bit r field
  ]

  unfoldable pub seen_bits : ℕ → Option ℕ → Option ℕ → History → Bool
  seen_bits storage_id (some l) (some r) history = seen_in (get_key storage_id history) l r
  seen_bits storage_id _ _ history = false

  unfoldable pub seen : ℕ → BlockUid → History → Bool
  seen storage_id u history = seen_bits storage_id u.left u.right history

  module _ (laws : IsBitField b) where
    field_bit :
        (l r q : ℕ) (o : Option F)
        → b.has_bit q (b.add_bit r (or_else o b.empty))
          ≡ (r == q || elim o [ none ↦ false | some field ↦ b.has_bit q field ])
    field_bit l r q none = rw (laws.has_bit-add_bit, laws.has_bit-empty)
    field_bit l r q (some field) = rw laws.has_bit-add_bit

    in_storage :
        (l r k q : ℕ) (d : List (ℕ × F))
        → seen_in (some (put_key l (b.add_bit r (or_else (get_key l d) b.empty)) d)) k q
          ≡ (l == k && r == q || seen_in (some d) k q)
    unfolding seen_in
    in_storage l r k q d = elim (Bool-cases (l == k)) [
      | inl t ↦
          let same : l ≡ k = eq_of_== l k t in
          rw (seen_in, get-put_key, t, same) (field_bit k r q (get_key k d))
      | inr f ↦ rw (seen_in, get-put_key, f)
    ]

    in_new :
        (k q : ℕ) (o : Option (List (ℕ × F))) → seen_in (some (or_else o [])) k q ≡ seen_in o k q
    unfolding seen_in get_key
    in_new k q none = refl
    in_new k q (some d) = refl

    -- Let the bit field be a set of numbers. Adding a block whose UID is set raises nothing;
    -- afterwards exactly that block of that storage has been seen besides the blocks that had been
    -- seen before.
    pub seen-add_block :
        (s l r : ℕ) (history : History)
        → (after : History) × (add_block s (block_uid l r) history ≡ ok after)
          × ((t k q : ℕ)
              → seen t (block_uid k q) after
                ≡ (s == t && (l == k && r == q) || seen t (block_uid k q) history))
    unfolding add_block add_bits seen seen_bits
    seen-add_block s l r history =
        let of_storage = or_else (get_key s history) [] in
        let field = or_else (get_key l of_storage) b.empty in
        (
          put_key s (put_key l (b.add_bit r field) of_storage) history,
          refl,
          λ t k q. elim (Bool-cases (s == t)) [
            | inl e ↦
                let same : s ≡ t = eq_of_== s t e in
                rw (get-put_key, e)
                  (in_storage l r k q of_storage
                    ∙ ap (λ x. l == k && r == q || x)
                        (in_new k q (get_key s history)
                          ∙ ap (λ x. seen_in (get_key x history) k q) same))
            | inr f ↦ rw (get-put_key, f)
          ],
        )
