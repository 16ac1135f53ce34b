-- ===== src/Database/Slices.antt =====
-- `Version.blocks` yields, for every index below the count, what `get_block_by_idx` returns.
use mathlib.Core.List.{map-append}
use native.Mathlib.Nat.{zero-add, add-zero}
use be_backup.Prelude.{
  ltb, if◌then◌else◌, Bool-cases, ◌==◌, eq_of_==, range, All, ℕ, zero, suc, ◌+◌, ◌-◌, ◌≤◌, ◌<◌, min,
  ◌≡◌, refl, ap, ◌∙◌, inl, inr, none, List, [], ◌∷◌, ◌++◌, map, arith, nat_eq,
}
use be_backup.Database.{
  Block, Version, Database, blocks_count, create_sparse_block, or_else, get_block_by_idx,
  order_by_idx, select_slice, sparse_run, fill_slice, slices, blocks_per_call, version_blocks,
}
use be_backup.Database.Rows.{
  IsKeyed, find_idx, find_idx-order, find_idx-select, Ascending, slice-Ascending,
}

pub range_append : (start n m : ℕ) → range start n ++ range (start + n) m ≡ range start (n + m)
unfolding range
range_append start zero m = rw (zero-add, add-zero)
range_append start (suc n) m =
    let e : suc n + m ≡ suc (n + m) = omega arith in
    let f : start + suc n ≡ start + 1 + n = omega arith in
    rw (e, f) (ap (◌∷◌ start) (range_append (start + 1) n m))

pub map-range_ext {ℓ} :
    {A : Type ℓ} (f g : ℕ → A) (lo n : ℕ)
    → ((j : ℕ) → lo ≤ j → j < lo + n → f j ≡ g j)
    → map f (range lo n) ≡ map g (range lo n)
unfolding range
map-range_ext f g lo zero h = refl
map-range_ext f g lo (suc n) h = cc (
  h lo (omega arith) (omega arith),
  map-range_ext f g (lo + 1) n (λ j p q. h j (omega arith) (omega arith)),
)

pub All-range {κ} :
    (P : Block → Type κ) (f : ℕ → Block) (lo n : ℕ)
    → ((i : ℕ) → i < lo + n → P (f i))
    → All P (map f (range lo n))
unfolding range
All-range P f lo zero h = tt
All-range P f lo (suc n) h =
    (h lo (omega arith), All-range P f (lo + 1) n (λ i lt. h i (omega arith)))

find_below :
    (lo hi j : ℕ) (rows : List Block) → Ascending lo hi rows → j < lo → find_idx j rows ≡ none
unfolding find_idx
find_below lo hi j [] a h = refl
find_below lo hi j (b ∷ rows) a h = ground (arith, find_below (b.idx + 1) hi j rows a.2)

module _ (v : Version) where
  -- the block at an index, from the rows of a slice
  abbrev pick : List Block → ℕ → Block
  pick rows i = or_else (find_idx i rows) (create_sparse_block v i)

  sparse_run_lem :
      (rows : List Block) (i n : ℕ)
      → ((j : ℕ) → i ≤ j → j < i + n → find_idx j rows ≡ none)
      → sparse_run v i n ≡ map (pick rows) (range i n)
  unfolding sparse_run
  sparse_run_lem rows i n h =
      map-range_ext (create_sparse_block v) (pick rows) i n (λ j p q. rw (h j p q))

  -- the blocks of a slice whose first row is `b`
  first_row :
      (i stop : ℕ) (b : Block) (rows : List Block)
      → i ≤ b.idx
      → b.idx < stop
      → Ascending (b.idx + 1) stop rows
      → map (pick (b ∷ rows)) (range i (stop - i))
        ≡ sparse_run v i (b.idx - i) ++ b ∷ map (pick rows) (range (b.idx + 1) (stop - (b.idx + 1)))
  unfolding range find_idx
  first_row i stop b rows p q a =
      let m = stop - (b.idx + 1) in
      let e : stop - i ≡ b.idx - i + suc m = omega arith in
      let f : i + (b.idx - i) ≡ b.idx = omega arith in
      let here : pick (b ∷ rows) b.idx ≡ b = ground arith in
      rw (e, ← range_append i (b.idx - i) (suc m), f, map-append)
        (cc (
          sparse_run_lem (b ∷ rows) i (b.idx - i)
              (λ j r s. ground (arith, find_below (b.idx + 1) stop j rows a)),
          here,
          map-range_ext (pick (b ∷ rows)) (pick rows) (b.idx + 1) m (λ j r s. ground arith),
        ))

  fill_slice_lem :
      (i stop : ℕ) (rows : List Block)
      → i ≤ stop
      → Ascending i stop rows
      → fill_slice v i stop rows ≡ map (pick rows) (range i (stop - i))
  unfolding fill_slice
  fill_slice_lem i stop [] le a = sparse_run_lem [] i (stop - i) (λ j p q. unfold find_idx in refl)
  fill_slice_lem i stop (b ∷ rows) le a =
      let next : (if ltb i b.idx then b.idx + 1 else i + 1) ≡ b.idx + 1 = ground arith in
      rw (
        next,
        first_row i stop b rows a.0 a.1 a.2,
        fill_slice_lem (b.idx + 1) stop rows (omega arith) a.2,
      )

module _ (db : Database) (v : Version) (keyed : IsKeyed db.blocks) where
  slice_lem :
      (start stop : ℕ)
      → start ≤ stop
      → fill_slice v start stop (order_by_idx (select_slice v.id start stop db.blocks))
        ≡ map (get_block_by_idx db v) (range start (stop - start))
  unfolding get_block_by_idx
  slice_lem start stop le =
      let rows = select_slice v.id start stop db.blocks in
      fill_slice_lem v start stop (order_by_idx rows) le
        (slice-Ascending v.id start stop db.blocks keyed)
      ∙ map-range_ext (pick v (order_by_idx rows)) (get_block_by_idx db v) start (stop - start)
          (λ j p q.
            ground (arith, find_idx-order j rows, find_idx-select v.id start stop j db.blocks))

  slices_lem :
      (per_call rounds start : ℕ)
      → 0 < per_call
      → start ≤ blocks_count v
      → blocks_count v - start < rounds
      → slices db v per_call rounds start
        ≡ map (get_block_by_idx db v) (range start (blocks_count v - start))
  unfolding slices
  slices_lem per_call zero start p le f = absurd (omega arith)
  slices_lem per_call (suc rounds) start p le f =
      let stop = min (start + per_call) (blocks_count v) in
      elim (Bool-cases (stop == blocks_count v)) [
        | inl last ↦
            let e : stop ≡ blocks_count v = eq_of_== stop (blocks_count v) last in
            rw last (
              slice_lem start stop (omega arith)
              ∙ ap (λ k. map (get_block_by_idx db v) (range start (k - start))) e)
        | inr more ↦
            let e : blocks_count v - start ≡ stop - start + (blocks_count v - stop) = omega arith in
            let g : start + (stop - start) ≡ stop = omega arith in
            rw
              (
                more,
                slice_lem start stop (omega arith),
                e,
                ← range_append start (stop - start) (blocks_count v - stop),
                g,
                map-append,
              )
              (rw (slices_lem per_call rounds stop p (omega arith) (ground arith)))
      ]

  -- The iterator over a version's blocks, which queries windows of rows and makes up the sparse
  -- blocks between them, yields exactly one block for each index below the count, in order, and
  -- each is the block that a lookup of its index returns. The primary key is what it relies on.
  pub version_blocks-get_block_by_idx :
      version_blocks db v ≡ map (get_block_by_idx db v) (range 0 (blocks_count v))
  unfolding version_blocks
  version_blocks-get_block_by_idx =
      slices_lem blocks_per_call (blocks_count v + 1) 0 (omega arith) (omega arith) (omega arith)
      ∙ ap (λ k. map (get_block_by_idx db v) (range 0 k)) (omega arith)
