-- ===== src/Hints/Sets.antt =====
-- What `_blocks_from_hints` puts into its two sets, against a description by byte ranges.
use be_backup.Prelude.{
  ltb, leb, Bool-cases, ◌==◌, All, Any, any, contains, add, contains-add, ℕ, zero, suc, ◌+◌, ◌-◌,
  ◌*◌, ◌/◌, ◌%◌, ◌≤◌, ◌<◌, ◌≡◌, refl, sym, ◌∙◌, inl, inr, Bool, true, false, not, ◌&&◌, ◌||◌, List,
  [], ◌∷◌, arith, nat_eq,
}
use be_backup.Errors.{ok}
use be_backup.Hints.{
  Hint, BlockSets, add_range, end_bound, add_blocks, hint_step, hint_loop, blocks_from_hints,
}

-- A byte of block `i` lies within the hint.
unfoldable pub overlaps : ℕ → ℕ → Hint → Bool
overlaps bs i h = ltb h.offset (i * bs + bs) && ltb (i * bs) (h.offset + h.size)

-- Every byte of block `i` lies within the hint.
unfoldable pub covers : ℕ → ℕ → Hint → Bool
covers bs i h = leb h.offset (i * bs) && leb (i * bs + bs) (h.offset + h.size)

contains-add_range :
    (start n i : ℕ) (s : List ℕ)
    → contains (add_range start n s) i ≡ (leb start i && ltb i (start + n) || contains s i)
unfolding add_range
contains-add_range start zero i s = ground arith
contains-add_range start (suc n) i s =
    ground (arith, contains-add_range (start + 1) n i (add start s), contains-add i start s)

-- the quotient, between its multiples
div_bounds : (a bs : ℕ) → 0 < bs → (a / bs * bs ≤ a) × (a < a / bs * bs + bs)
div_bounds a bs p = (omega arith, omega arith)

mul_le : (a b c : ℕ) → a ≤ b → a * c ≤ b * c
mul_le a b c h = grind arith

leb-div : (a bs i : ℕ) → 0 < bs → leb (a / bs) i ≡ ltb a (i * bs + bs)
leb-div a bs i p =
    ground (arith, div_bounds a bs p, mul_le (a / bs) i bs, mul_le (i + 1) (a / bs) bs)

ltb-div : (a bs i : ℕ) → 0 < bs → ltb i (a / bs + 1) ≡ leb (i * bs) a
ltb-div a bs i p = ground (arith, div_bounds a bs p, mul_le i (a / bs) bs, mul_le (a / bs + 1) i bs)

div_mono : (a b bs : ℕ) → 0 < bs → a ≤ b → a / bs ≤ b / bs
div_mono a b bs p h =
    ground (arith, div_bounds a bs p, div_bounds b bs p, mul_le (b / bs + 1) (a / bs) bs)

-- the blocks of a hint that is not empty are those that it overlaps
range_overlaps :
    (bs i : ℕ) (h : Hint)
    → 0 < bs
    → 0 < h.size
    → (leb (h.offset / bs) i && ltb i (h.offset / bs + (end_bound h bs - h.offset / bs)))
      ≡ overlaps bs i h
unfolding overlaps end_bound
range_overlaps bs i h p q = ground (
  arith,
  leb-div h.offset bs i p,
  ltb-div (h.offset + h.size - 1) bs i p,
  div_mono h.offset (h.offset + h.size - 1) bs p,
)

mod-pos : (a bs : ℕ) → 0 < bs → a / bs * bs + a % bs ≡ a
mod-pos a bs p = omega arith

-- a block that `a` cuts in two
edge :
    (a bs i : ℕ)
    → 0 < bs
    → (ltb 0 (a % bs) && a / bs == i) ≡ (ltb (i * bs) a && ltb a (i * bs + bs))
edge a bs i p =
    ground (
      arith,
      div_bounds a bs p,
      mod-pos a bs p,
      mul_le (i + 1) (a / bs) bs,
      mul_le (a / bs + 1) i bs,
    )

-- the last block of a range that ends inside a block
last_block : (a bs : ℕ) → 0 < bs → 0 < a % bs → (a - 1) / bs ≡ a / bs
last_block a bs p q = ground (
  arith,
  div_bounds a bs p,
  mod-pos a bs p,
  div_bounds (a - 1) bs p,
  mul_le ((a - 1) / bs + 1) (a / bs) bs,
  mul_le (a / bs + 1) ((a - 1) / bs) bs,
)

-- The block is to be read: its data is there, or a hole covers only a part of it.
unfoldable pub is_read_by : ℕ → ℕ → Hint → Bool
unfolding overlaps covers
is_read_by bs i h = overlaps bs i h && (h.exists || not (covers bs i h))

-- A hole covers a part of the block.
unfoldable pub is_hole_in : ℕ → ℕ → Hint → Bool
unfolding overlaps
is_hole_in bs i h = overlaps bs i h && not h.exists

contains-add_blocks :
    (bs i : ℕ) (h : Hint) (s : List ℕ)
    → 0 < bs
    → 0 < h.size
    → contains (add_blocks bs h s) i ≡ (overlaps bs i h || contains s i)
unfolding add_blocks
contains-add_blocks bs i h s p q = rw contains-add_range (rw (range_overlaps bs i h p q))

module _ (bs i : ℕ) (p : 0 < bs) where
  read-hint_step :
      (h : Hint) (s : BlockSets)
      → 0 < h.size
      → contains (hint_step bs s h).read i ≡ (is_read_by bs i h || contains s.read i)
  unfolding hint_step is_read_by end_bound
  read-hint_step h s q = ground (
    arith,
    contains-add_blocks bs i h s.read p q,
    contains-add i (h.offset / bs) s.read,
    contains-add i ((h.offset + h.size - 1) / bs) s.read,
    contains-add i ((h.offset + h.size - 1) / bs) (add (h.offset / bs) s.read),
    edge h.offset bs i p,
    edge (h.offset + h.size) bs i p,
    last_block (h.offset + h.size) bs p,
  )

  sparse-hint_step :
      (h : Hint) (s : BlockSets)
      → 0 < h.size
      → contains (hint_step bs s h).sparse i ≡ (is_hole_in bs i h || contains s.sparse i)
  unfolding hint_step is_hole_in
  sparse-hint_step h s q = ground (arith, contains-add_blocks bs i h s.sparse p q)

  hint_loop_sets :
      (hs : List Hint) (s : BlockSets)
      → All (λ h. 0 < h.size) hs
      → (contains (hint_loop bs s hs).read i ≡ (any (is_read_by bs i) hs || contains s.read i))
        × (contains (hint_loop bs s hs).sparse i
            ≡ (any (is_hole_in bs i) hs || contains s.sparse i))
  unfolding hint_loop
  hint_loop_sets [] s q = (refl, refl)
  hint_loop_sets (h ∷ hs) s q = ground (
    arith,
    hint_loop_sets hs (hint_step bs s h) q.1,
    read-hint_step h s q.0,
    sparse-hint_step h s q.0,
  )

-- For a positive block size and hints that are not empty the function raises nothing; a block is
-- in the set to read exactly when some hint overlaps it that holds data or is a hole which leaves
-- a part of it out, and in the set of sparse blocks exactly when some hole overlaps it.
pub blocks_from_hints_sets :
    (hints : List Hint) (bs : ℕ)
    → 0 < bs
    → All (λ h. 0 < h.size) hints
    → (s : BlockSets) × (blocks_from_hints hints bs ≡ ok s)
      × ((i : ℕ) → contains s.read i ≡ any (is_read_by bs i) hints)
      × ((i : ℕ) → contains s.sparse i ≡ any (is_hole_in bs i) hints)
unfolding blocks_from_hints hint_loop
blocks_from_hints_sets [] bs p q = (record { sparse = []; read = [] }, refl, λ i. refl, λ i. refl)
blocks_from_hints_sets (h ∷ hs) bs p q =
    let empty : BlockSets = record { sparse = []; read = [] } in
    (
      hint_loop bs empty (h ∷ hs),
      ground arith,
      λ i. ground (arith, hint_loop_sets bs i p (h ∷ hs) empty q),
      λ i. ground (arith, hint_loop_sets bs i p (h ∷ hs) empty q),
    )

module _ (bs i : ℕ) where
  no_data :
      (hints : List Hint)
      → any (is_read_by bs i) hints ≡ false
      → All (λ h. h.exists ≡ true → overlaps bs i h ≡ false) hints
  unfolding is_read_by
  no_data [] f = tt
  no_data (h ∷ hs) f = (λ e. ground arith, no_data hs (ground arith))

  whole_hole :
      (hints : List Hint)
      → any (is_hole_in bs i) hints ≡ true
      → any (is_read_by bs i) hints ≡ false
      → Any (λ h. (h.exists ≡ false) × (covers bs i h ≡ true)) hints
  unfolding is_read_by is_hole_in
  whole_hole [] t f = absurd (ground arith)
  whole_hole (h ∷ hs) t f = elim (Bool-cases (is_hole_in bs i h)) [
    | inl hole ↦ inl (ground arith, ground arith)
    | inr other ↦ inr (whole_hole hs (ground arith) (ground arith))
  ]

-- A block that a backup skips as sparse, since it is in the sparse set and not in the set to read,
-- lies within one hole whole, and no hint that holds data overlaps it.
pub skipped_block :
    (hints : List Hint) (bs i : ℕ) (s : BlockSets)
    → 0 < bs
    → All (λ h. 0 < h.size) hints
    → blocks_from_hints hints bs ≡ ok s
    → contains s.sparse i ≡ true
    → contains s.read i ≡ false
    → Any (λ h. (h.exists ≡ false) × (covers bs i h ≡ true)) hints
      × All (λ h. h.exists ≡ true → overlaps bs i h ≡ false) hints
skipped_block hints bs i s p q e hole unread =
    let (s', e', r, w) = blocks_from_hints_sets hints bs p q in
    let same : s' ≡ s = cc in
    let t : any (is_hole_in bs i) hints ≡ true = sym (w i) ∙ rw same hole in
    let f : any (is_read_by bs i) hints ≡ false = sym (r i) ∙ rw same unread in
    (whole_hole bs i hints t f, no_data bs i hints f)
