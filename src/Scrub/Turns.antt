-- ===== src/Scrub/Turns.antt =====
-- What a turn of the loop of `deep_scrub` of src/benji/benji.py does.
use be_backup.Prelude.{
  Bool-cases, ◌==◌, length, ℕ, ◌≡◌, refl, sym, ap, subst, ◌∙◌, ◌⊎◌, inl, inr, Bool, true, false,
  ◌&&◌, ◌||◌, Option, none, some, arith, nat_eq, list_eq, option_eq,
}
use be_backup.Errors.{invalid_block_exception, value_error, Result, err, ok, is_ok}
use be_backup.Uid.{Text, BlockUid, is_some, is_set, block_uid_eq}
use be_backup.Database.{Block, Version}
use be_backup.Transforms.{Bytes}
use be_backup.Storage.{Metadata}
use be_backup.Storage.Operations.{check_block_metadata}
use be_backup.History.{BitField, History, add_bits, add_block}
use be_backup.Versions.{set_block_valid}
use be_backup.Scrub.{
  remember, ScrubState, mark_invalid, mark_metadata, note_seen, pass_block, compare_source,
  deep_entry,
}

pub check_block_metadata-cases :
    (b : Block) (n : Option ℕ) (m : Metadata)
    → (check_block_metadata b n m ≡ ok tt) ⊎ (check_block_metadata b n m ≡ err value_error)
unfolding check_block_metadata
check_block_metadata-cases b n m = elim (Bool-cases (m.metadata_size == some b.size)) [
  | inr f ↦ inr (rw f refl)
  | inl t ↦ elim (Bool-cases (n == none || n == some 0 || n == some b.size)) [
    | inr f ↦ inr (rw (t, f) refl)
    | inl u ↦ elim (Bool-cases (b.checksum == m.metadata_checksum)) [
      | inr f ↦ inr (rw (t, u, f) refl)
      | inl w ↦ inl (rw (t, u, w) refl)
    ]
  ]
]

-- the source can be read
abbrev pub IsReadableSource : Option (Block → Result Bytes) → Block → Type 0
IsReadableSource source b =
    (read_source : Block → Result Bytes)
    → source ≡ some read_source
    → (bytes : Bytes) × (read_source b ≡ ok bytes)

module _ {F : Type 0} (field : BitField F) where
  -- a block that is marked, and a state in which the marks are as found
  abbrev pub Marked : Bool → ScrubState field → Block → ScrubState field → Type 0
  Marked good st b st' =
      ((st'.db ≡ st.db) × (good ≡ true)) ⊎ (st'.db ≡ (set_block_valid st.db b.uid good).0)

module _ {F : Type 0} (field : BitField F) where
  add_bits_lem :
      (s : ℕ) (l r : Option ℕ) (h : History field)
      → (is_some l && is_some r) ≡ true
      → (h' : History field) × (add_bits field s l r h ≡ ok h')
  unfolding add_bits
  add_bits_lem s (some l) (some r) h set = (_, refl)
  add_bits_lem s none r h set = absurd (ground arith)
  add_bits_lem s (some l) none h set = absurd (ground arith)

  remember_lem :
      (s : ℕ) (u : BlockUid) (h : Option (History field))
      → is_set u ≡ true
      → (h' : Option (History field)) × (remember field s u h ≡ ok h')
  unfolding remember add_block
  remember_lem s u none set = (none, refl)
  remember_lem s u (some h) set =
      let (h', e) = add_bits_lem s u.left u.right h set in
      (some h', rw (remember, add_block, e) refl)

  pub note_seen_lem :
      (v : Version) (st : ScrubState field) (b : Block)
      → is_set b.uid ≡ true
      → (h : Option (History field)) × (note_seen field v st b ≡ (ok tt, record st { history = h }))
  unfolding note_seen
  note_seen_lem v st b set =
      let (h, e) = remember_lem v.storage_id b.uid st.history set in (h, rw (note_seen, e) refl)

module _ (hash : Bytes → Text) (read : Block → Result (Bytes × Metadata)) where
  -- the object is there, its metadata fit the block, its data have the block's checksum
  abbrev pub is_intact_object : Block → Result (Bytes × Metadata) → Bool
  is_intact_object b (err e) = false
  is_intact_object b (ok (bytes, m)) =
      is_ok (check_block_metadata b (some (length bytes)) m) && some (hash bytes) == b.checksum

  abbrev pub is_intact : Block → Bool
  is_intact b = is_intact_object b (read b)

  -- the storage answers, with data or with the exception for a block that is not right
  abbrev pub Answers : Block → Type 0
  Answers b = (read b ≡ err invalid_block_exception) ⊎ ((x : Bytes × Metadata) × (read b ≡ ok x))

  -- the source, if there is one, has the same data
  abbrev pub is_same_data : Option (Block → Result Bytes) → Block → Result (Bytes × Metadata) → Bool
  is_same_data none b r = true
  is_same_data (some read_source) b (err e) = false
  is_same_data (some read_source) b (ok (bytes, m)) = elim (read_source b) [
    | err e ↦ false
    | ok source_bytes ↦ source_bytes == bytes
  ]

  abbrev pub is_right : Option (Block → Result Bytes) → Block → Bool
  is_right source b = is_intact b && is_same_data source b (read b)

  module _ {F : Type 0} (field : BitField F) (source : Option (Block → Result Bytes)) where
    -- a turn goes on, finds whether the block is right, and marks it by whether it is intact
    abbrev IsTurn :
        Bool → Bool → ScrubState field → Block → Result (Unit {0}) × ScrubState field → Type 0
    IsTurn intact right st b turn =
        (turn.0 ≡ ok tt) × (turn.1.good ≡ (st.good && right)) × Marked field intact st b turn.1

    pass_block_lem :
        (v : Version) (st : ScrubState field) (b : Block)
        → is_set b.uid ≡ true
        → IsTurn true true st b (pass_block field v st b)
    unfolding pass_block
    pass_block_lem v st b set = elim (Bool-cases b.valid) [
      | inl t ↦
          let (h, e) = note_seen_lem field v st b set in
          subst (IsTurn true true st b) (sym (ap (λ x. note_seen field v x b) (rw t refl) ∙ e))
            (refl, ground arith, inl (refl, refl))
      | inr f ↦
          let (h, e) =
            note_seen_lem field v (record st { db = (set_block_valid st.db b.uid true).0 }) b set in
          subst (IsTurn true true st b) (sym (ap (λ x. note_seen field v x b) (rw f refl) ∙ e))
            (refl, ground arith, inr refl)
    ]

    compare_source_lem :
        (v : Version) (st : ScrubState field) (b : Block) (bytes : Bytes) (m : Metadata)
        (o : Option (Block → Result Bytes))
        → is_set b.uid ≡ true
        → ((f : Block → Result Bytes) → o ≡ some f → (x : Bytes) × (f b ≡ ok x))
        → IsTurn true (is_same_data o b (ok (bytes, m))) st b (compare_source field o v st b bytes)
    unfolding compare_source
    compare_source_lem v st b bytes m none set readable = pass_block_lem v st b set
    compare_source_lem v st b bytes m (some f) set readable =
        let (x, e) = readable f refl in
        let other : ScrubState field = record st { good = false; source_mismatch = true } in
        elim (Bool-cases (x == bytes)) [
          | inl t ↦ rw (compare_source, e, t) (pass_block_lem v st b set)
          | inr f ↦
              let (a, g, d) = pass_block_lem v other b set in
              rw (compare_source, e, f) (a, ground arith, d)
        ]

    pub deep_entry_lem :
        (v : Version) (st : ScrubState field) (b : Block) (r : Result (Bytes × Metadata))
        → is_set b.uid ≡ true
        → ((r ≡ err invalid_block_exception) ⊎ ((x : Bytes × Metadata) × (r ≡ ok x)))
        → IsReadableSource source b
        → IsTurn
            (is_intact_object b r)
            (is_intact_object b r && is_same_data source b r)
            st
            b
            (deep_entry field hash source v st b r)
    unfolding deep_entry mark_invalid mark_metadata
    deep_entry_lem v st b r set (inl e) readable = rw e (refl, ground arith, inr refl)
    deep_entry_lem v st b r set (inr ((bytes, m), e)) readable =
        elim (check_block_metadata-cases b (some (length bytes)) m) [
          | inr wrong ↦ rw (e, deep_entry, wrong) (refl, ground arith, inr refl)
          | inl fits ↦ elim (Bool-cases (some (hash bytes) == b.checksum)) [
            | inr f ↦ rw (e, deep_entry, fits, f) (refl, ground arith, inr refl)
            | inl t ↦
                rw (e, deep_entry, fits, t) (compare_source_lem v st b bytes m source set readable)
          ]
        ]
