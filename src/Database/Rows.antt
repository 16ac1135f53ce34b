-- ===== src/Database/Rows.antt =====
-- Rows of the table of blocks by their primary key.
use be_backup.Prelude.{
  ltb, leb, if◌then◌else◌, Bool-cases, Option-cases, ◌==◌, find_first, find_first-Has, ℕ, ◌+◌, ◌≤◌,
  ◌<◌, ◌≡◌, refl, inl, inr, ◌&&◌, Option, none, some, List, [], ◌∷◌, arith, nat_eq,
}
use be_backup.Database.{
  Block, Version, Database, has_key, find_row, create_sparse_block, get_block_by_idx, insert_by_idx,
  order_by_idx, select_slice,
}

-- No two rows share a version and an index: the primary key.
abbrev pub IsKeyed : List Block → Type 0
IsKeyed [] = Unit
IsKeyed (b ∷ rows) = (find_row b.version_id b.idx rows ≡ none) × IsKeyed rows

-- the first row with an index, in the rows of one version
unfoldable pub find_idx : ℕ → List Block → Option Block
find_idx i rows = find_first (λ b. b.idx == i) rows

pub find_idx-insert :
    (i : ℕ) (b : Block) (rows : List Block)
    → find_idx i (insert_by_idx b rows) ≡ (if b.idx == i then some b else find_idx i rows)
unfolding find_idx insert_by_idx
find_idx-insert i b [] = refl
find_idx-insert i b (c ∷ rows) = ground (arith, find_idx-insert i b rows)

pub find_idx-order : (i : ℕ) (rows : List Block) → find_idx i (order_by_idx rows) ≡ find_idx i rows
unfolding order_by_idx find_idx
find_idx-order i [] = refl
find_idx-order i (b ∷ rows) =
    ground (arith, find_idx-insert i b (order_by_idx rows), find_idx-order i rows)

pub find_idx-select :
    (vid start stop i : ℕ) (rows : List Block)
    → find_idx i (select_slice vid start stop rows)
      ≡ (if leb start i && ltb i stop then find_row vid i rows else none)
unfolding find_idx select_slice find_row
find_idx-select vid start stop i [] = ground arith
find_idx-select vid start stop i (b ∷ rows) = ground (arith, find_idx-select vid start stop i rows)

-- Rows in ascending order of their indices, from `lo` on and below `hi`.
abbrev pub Ascending : ℕ → ℕ → List Block → Type 0
Ascending lo hi [] = Unit
Ascending lo hi (b ∷ rows) = (lo ≤ b.idx) × (b.idx < hi) × Ascending (b.idx + 1) hi rows

insert-Ascending :
    (lo hi : ℕ) (b : Block) (rows : List Block)
    → lo ≤ b.idx
    → b.idx < hi
    → find_idx b.idx rows ≡ none
    → Ascending lo hi rows
    → Ascending lo hi (insert_by_idx b rows)
unfolding find_idx insert_by_idx
insert-Ascending lo hi b [] p q f a = (p, q, tt)
insert-Ascending lo hi b (c ∷ rows) p q f a = elim (Bool-cases (leb b.idx c.idx)) [
  | inl le ↦ rw le (p, q, (ground arith, a.1, a.2))
  | inr gt ↦
      rw (gt) (a.0, a.1, insert-Ascending (c.idx + 1) hi b rows (ground arith) q (ground arith) a.2)
]

pub slice-Ascending :
    (vid start stop : ℕ) (rows : List Block)
    → IsKeyed rows
    → Ascending start stop (order_by_idx (select_slice vid start stop rows))
unfolding order_by_idx select_slice
slice-Ascending vid start stop [] k = tt
slice-Ascending vid start stop (b ∷ rows) k =
    elim (Bool-cases (b.version_id == vid && (leb start b.idx && ltb b.idx stop))) [
      | inl here ↦ rw here (
          insert-Ascending start stop b (order_by_idx (select_slice vid start stop rows))
            (ground arith) (ground arith)
            (ground (
              arith,
              find_idx-order b.idx (select_slice vid start stop rows),
              find_idx-select vid start stop b.idx rows,
            ))
            (slice-Ascending vid start stop rows k.1))
      | inr other ↦ rw other (slice-Ascending vid start stop rows k.1)
    ]

pub get_block-idx : (db : Database) (v : Version) (i : ℕ) → (get_block_by_idx db v i).idx ≡ i
unfolding get_block_by_idx create_sparse_block find_row
get_block-idx db v i = elim (Option-cases (find_row v.id i db.blocks)) [
  | inl absent ↦ rw (absent) refl
  | inr (r, present) ↦
      let (m, q) = find_first-Has (has_key v.id i) db.blocks r present in
      rw (present) (ground arith)
]
