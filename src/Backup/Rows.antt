-- ===== src/Backup/Rows.antt =====
-- Rows of the table of blocks under `set_block` and `get_block_by_checksum`.
use be_backup.Prelude.{
  Bool-cases, Option-cases, ◌==◌, option_eqb_iff, All, any, All-filter, Has, find_first-Has, ℕ, ◌≡◌,
  inl, inr, Bool, true, false, not, ◌&&◌, Option, some, List, [], ◌∷◌, arith, nat_eq, list_eq,
  option_eq,
}
use be_backup.Uid.{Text, BlockUid, is_set, block_uid_eq}
use be_backup.Database.{Block, Version, Database, has_key, find_row}
use be_backup.Versions.{block_row, delete_row, update_row, set_block, get_block_by_checksum}

module _ {κ} (P : Block → Type κ) where
  All-delete : (vid i : ℕ) (rows : List Block) → All P rows → All P (delete_row vid i rows)
  unfolding delete_row
  All-delete vid i rows a = All-filter (λ b. not (has_key vid i b)) rows (λ b p q. p) a

  All-update : (new : Block) (rows : List Block) → P new → All P rows → All P (update_row new rows)
  unfolding update_row
  All-update new [] p a = tt
  All-update new (b ∷ rows) p a = elim (Bool-cases (has_key new.version_id new.idx b)) [
    | inl same ↦ rw same (p, All-update new rows p a.1)
    | inr other ↦ rw other (a.0, All-update new rows p a.1)
  ]

  pub All-set_block :
      (db : Database) (v : Version) (i : ℕ) (u : BlockUid) (c : Option Text) (n : ℕ) (good : Bool)
      → ((not (is_set u) && n == v.block_size) ≡ false → P (block_row v i u c n good))
      → All P db.blocks
      → All P (set_block db v i u c n good).blocks
  unfolding set_block
  All-set_block db v i u c n good new a = elim (Option-cases (find_row v.id i db.blocks)) [
    | inl absent ↦ elim (Bool-cases (not (is_set u) && n == v.block_size)) [
      | inl sparse ↦ rw (absent, set_block) (rw sparse a)
      | inr full ↦ rw (absent, set_block) (rw full (new full, a))
    ]
    | inr (b, present) ↦ elim (Bool-cases (not (is_set u) && n == v.block_size)) [
      | inl sparse ↦ rw (present, set_block) (rw sparse (All-delete v.id i db.blocks a))
      | inr full ↦
          rw (present, set_block)
            (rw full (All-update (block_row v i u c n good) db.blocks (new full) a))
    ]
  ]

pub versions-set_block :
    (db : Database) (v : Version) (i : ℕ) (u : BlockUid) (c : Option Text) (n : ℕ) (good : Bool)
    → (set_block db v i u c n good).versions ≡ db.versions
unfolding set_block
versions-set_block db v i u c n good = ground arith

-- the row belongs to a version of the same storage
abbrev pub in_storage : List Version → Version → Block → Bool
in_storage versions v b = any (λ w. w.id == b.version_id && w.storage_id == v.storage_id) versions

pub get_block_by_checksum-Has :
    (db : Database) (v : Version) (c : Text) (e : Block)
    → get_block_by_checksum db v c ≡ some e
    → Has e db.blocks
      × (e.checksum ≡ some c)
      × (e.valid ≡ true)
      × (in_storage db.versions v e ≡ true)
unfolding get_block_by_checksum
get_block_by_checksum-Has db v c e found =
    let (m, q) =
      find_first-Has (λ b. b.checksum == some c && (b.valid && in_storage db.versions v b))
        db.blocks e found in
    (m, ground (arith, option_eqb_iff e.checksum (some c)), ground arith, ground arith)
