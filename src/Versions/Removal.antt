-- ===== src/Versions/Removal.antt =====
-- Removal of a version: its UIDs are handed to the cleanup.
use be_backup.Prelude.{
  if◌then◌else◌, Bool-cases, ◌==◌, filter, Has, Has-filter, filter-Has, append-Has, ℕ, ◌+◌, ◌≡◌,
  refl, ap, ◌∙◌, ◌≢◌, ◌↔◌, inl, inr, true, not, none, List, [], ◌∷◌, arith, nat_eq, list_eq,
}
use be_backup.Uid.{BlockUid, is_set, block_uid_eq}
use be_backup.Database.{Block, Version, DeletedBlock, Database, find_row}
use be_backup.Versions.{deleted_rows, remove_version}

deleted_rows-Has :
    (u : BlockUid) (next storage_id now : ℕ) (rows : List Block) (b : Block)
    → Has b rows
    → is_set b.uid ≡ true
    → b.uid ≡ u
    → (d : DeletedBlock) × Has d (deleted_rows next storage_id now rows)
      × (d.uid ≡ u)
      × (d.storage_id ≡ storage_id)
      × (d.date ≡ now)
unfolding deleted_rows
deleted_rows-Has u next sid now [] b m s e = absurd m
deleted_rows-Has u next sid now (c ∷ rows) b m s e = elim (Bool-cases (is_set c.uid)) [
  | inl full ↦
      rw full
        (elim m
          as (λ m'.
            (d : DeletedBlock) × Has d (
              (record { id = next; storage_id = sid; uid = c.uid; date = now })
              ∷ deleted_rows (next + 1) sid now rows)
            × (d.uid ≡ u)
            × (d.storage_id ≡ sid)
            × (d.date ≡ now)) [
              | inl here ↦ (
                record { id = next; storage_id = sid; uid = c.uid; date = now },
                inl refl,
                ap (λ (x : Block). x.uid) here ∙ e,
                refl,
                refl,
              )
              | inr there ↦
                  let (d, h, p, q, r) = deleted_rows-Has u (next + 1) sid now rows b there s e in
                  (d, inr h, p, q, r)
            ])
  | inr sparse ↦ rw sparse (deleted_rows-Has u next sid now rows b (ground arith) s e)
]

module _ (db : Database) (v : Version) (next now : ℕ) where
  find-others :
      (w j : ℕ) (rows : List Block)
      → find_row w j (filter (λ b. not (b.version_id == v.id)) rows)
        ≡ (if w == v.id then none else find_row w j rows)
  unfolding find_row filter
  find-others w j [] = ground arith
  find-others w j (b ∷ rows) = ground (arith, find-others w j rows)

  -- `remove` deletes the version's row and all its block rows, and no row of another version.
  -- Each UID that one of the version's rows has is then among the deleted blocks, with the version's
  -- storage and the time of the removal, and what was among them before still is.
  pub remove_version_rows :
      ((w : Version)
        → Has w (remove_version db v next now).0.versions ↔ (Has w db.versions × (w.id ≢ v.id)))
      × ((w j : ℕ)
          → find_row w j (remove_version db v next now).0.blocks
            ≡ (if w == v.id then none else find_row w j db.blocks))
      × ((b : Block)
          → Has b db.blocks
          → b.version_id ≡ v.id
          → is_set b.uid ≡ true
          → (d : DeletedBlock) × Has d (remove_version db v next now).0.deleted_blocks
            × (d.uid ≡ b.uid)
            × (d.storage_id ≡ v.storage_id)
            × (d.date ≡ now))
      × ((d : DeletedBlock)
          → Has d db.deleted_blocks
          → Has d (remove_version db v next now).0.deleted_blocks)
  unfolding remove_version
  remove_version_rows =
      let mine = filter (λ (b : Block). b.version_id == v.id) db.blocks in
      (
        λ w. (
          λ h.
              let (old, t) = Has-filter (λ x. not (x.id == v.id)) w db.versions h in
              (old, ground arith),
          λ h. filter-Has (λ x. not (x.id == v.id)) w db.versions h.0 (ground arith),
        ),
        λ w j. find-others w j db.blocks,
        λ b h own full.
            let (d, m, p, q, r) =
              deleted_rows-Has b.uid next v.storage_id now mine b
                (filter-Has (λ c. c.version_id == v.id) b db.blocks h (ground arith)) full refl in
            (
              d,
              append-Has d (deleted_rows next v.storage_id now mine) db.deleted_blocks (inl m),
              p,
              q,
              r,
            ),
        λ d h. append-Has d (deleted_rows next v.storage_id now mine) db.deleted_blocks (inr h),
      )
