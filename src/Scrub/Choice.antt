-- ===== src/Scrub/Choice.antt =====
-- Which blocks `_scrub_prepare` of src/benji/benji.py submits, for a part of the blocks as well.
use be_backup.Prelude.{
  ltb, Bool-cases, ◌==◌, Has, ℕ, ◌+◌, ◌≤◌, ◌≡◌, refl, sym, ap, subst, ◌∙◌, ◌↔◌, ◌⊎◌, inl, inr, Bool,
  true, false, not, ◌&&◌, Option, none, some, List, [], ◌∷◌, arith, nat_eq,
}
use be_backup.Uid.{BlockUid, is_set}
use be_backup.Database.{Block, Version}
use be_backup.History.{BitField, History, seen}
use be_backup.Clone.Blocks.{Consecutive}
use be_backup.Scrub.{was_seen, scrub_prepare}

module _ {F : Type 0} (field : BitField F) (storage_id : ℕ) (uid : BlockUid) where
  was_seen-seen :
      (history : Option (History field)) (h : History field)
      → history ≡ some h
      → was_seen field storage_id uid history ≡ seen field storage_id uid h
  unfolding was_seen
  was_seen-seen none h e = absurd (ground arith)
  was_seen-seen (some k) h e =
      let same : k ≡ h = ap (λ (o : Option (History field)). elim o [ none ↦ h | some j ↦ j ]) e in
      ap (λ j. seen field storage_id uid j) same

  not_seen :
      (history : Option (History field))
      → ((h : History field) → history ≡ some h → seen field storage_id uid h ≡ false)
      → was_seen field storage_id uid history ≡ false
  unfolding was_seen
  not_seen none f = refl
  not_seen (some h) f = f h refl

module _ {F : Type 0} (field : BitField F) (dice : ℕ → ℕ) (percentage : ℕ) (v : Version)
    (history : Option (History field)) where
  -- a block with data that no version on the storage had before, and that is the first one, or that
  -- the percentage or the number drawn for it takes in
  abbrev pub IsChosen : Block → Type 0
  IsChosen b =
      (is_set b.uid ≡ true)
      × ((h : History field) → history ≡ some h → seen field v.storage_id b.uid h ≡ false)
      × ((b.idx ≡ 0) ⊎ ((100 ≤ percentage) ⊎ (dice b.idx ≤ percentage)))

  abbrev left_out : ℕ → Bool
  left_out i = not (i == 0) && (ltb percentage 100 && ltb percentage (dice i))

  drawn : (i : ℕ) → (left_out i ≡ false) ↔ ((i ≡ 0) ⊎ ((100 ≤ percentage) ⊎ (dice i ≤ percentage)))
  drawn i = ground arith

  submitted_later :
      (i : ℕ) (b x : Block) (bs : List Block)
      → Has b (scrub_prepare field dice percentage v history (i + 1) bs)
      → Has b (scrub_prepare field dice percentage v history i (x ∷ bs))
  unfolding scrub_prepare
  submitted_later i b x bs m = elim (Bool-cases (is_set x.uid)) [
    | inr unset ↦ rw (scrub_prepare, unset) m
    | inl set ↦ elim (Bool-cases (was_seen field v.storage_id x.uid history)) [
      | inl old ↦ rw (scrub_prepare, set, old) m
      | inr new ↦ elim (Bool-cases (left_out i)) [
        | inl out ↦ rw (scrub_prepare, set, new, out) m
        | inr taken ↦ rw (scrub_prepare, set, new, taken) (inr m)
      ]
    ]
  ]

  submitted_IsChosen :
      (i : ℕ) (b : Block) (bs : List Block)
      → Consecutive i bs
      → Has b (scrub_prepare field dice percentage v history i bs)
      → Has b bs × IsChosen b
  unfolding scrub_prepare
  submitted_IsChosen i b [] c m = absurd m
  submitted_IsChosen i b (x ∷ bs) (at, c) m =
      let rest : Has b (scrub_prepare field dice percentage v history (i + 1) bs)
          → Has b (x ∷ bs) × IsChosen b =
        λ m'. let (h, chosen) = submitted_IsChosen (i + 1) b bs c m' in (inr h, chosen) in
      elim (Bool-cases (is_set x.uid)) [
        | inr unset ↦ rest (rw (scrub_prepare, unset) at m)
        | inl set ↦ elim (Bool-cases (was_seen field v.storage_id x.uid history)) [
          | inl old ↦ rest (rw (scrub_prepare, set, old) at m)
          | inr new ↦ elim (Bool-cases (left_out i)) [
            | inl out ↦ rest (rw (scrub_prepare, set, new, out) at m)
            | inr taken ↦
                let chosen : IsChosen x = (
                  set,
                  λ h e. sym (was_seen-seen field v.storage_id x.uid history h e) ∙ new,
                  (drawn x.idx).0 (ap left_out at ∙ taken),
                ) in
                elim (rw (scrub_prepare, set, new, taken) at m) [
                  | inl e ↦ (inl e, subst IsChosen e chosen)
                  | inr later ↦ rest later
                ]
          ]
        ]
      ]

  chosen_submitted :
      (i : ℕ) (b : Block) (bs : List Block)
      → Consecutive i bs
      → Has b bs
      → IsChosen b
      → Has b (scrub_prepare field dice percentage v history i bs)
  unfolding scrub_prepare
  chosen_submitted i b [] c m chosen = absurd m
  chosen_submitted i b (x ∷ bs) (at, c) (inr m) chosen =
      submitted_later i b x bs (chosen_submitted (i + 1) b bs c m chosen)
  chosen_submitted i b (x ∷ bs) (at, c) (inl e) chosen =
      let (set, unseen, taken) = subst IsChosen (sym e) chosen in
      let new = not_seen field v.storage_id x.uid history unseen in
      let inside = sym (ap left_out at) ∙ (drawn x.idx).1 taken in
      rw (scrub_prepare, set, new, inside) (inl e)

  -- Let the indices of the blocks of a version count up from 0. Then a scrub submits a block exactly
  -- if it is one of them, has a UID, was not seen before on the storage of the version, in case there
  -- is a history, and is the first one, or the percentage is at least 100, or the number that was
  -- drawn for the block is not above the percentage.
  pub scrub_prepare-IsChosen :
      (b : Block) (bs : List Block)
      → Consecutive 0 bs
      → Has b (scrub_prepare field dice percentage v history 0 bs) ↔ (Has b bs × IsChosen b)
  scrub_prepare-IsChosen b bs c =
      (submitted_IsChosen 0 b bs c, λ m. chosen_submitted 0 b bs c m.0 m.1)
