-- ===== src/Hints.antt =====
-- Which blocks a backup reads and which it takes for sparse, from the hints of a snapshot
-- difference: `hints_from_rbd_diff` of src/benji/utils.py and `_blocks_from_hints` of
-- src/benji/benji.py. A set of block indices is a list without repetitions.
pub mod Sets
use be_backup.Prelude.{
  ltb, if◌then◌else◌, ◌==◌, add, ℕ, zero, suc, ◌+◌, ◌-◌, ◌/◌, ◌%◌, Bool, not, ◌||◌, List, [], ◌∷◌,
  map, nat_eq, list_eq,
}
use be_backup.Errors.{zero_division_error, Result, ok, err}

pub record Hint : Type 0 where
  pub offset : ℕ
  pub size : ℕ
  pub exists : Bool

-- A value of the key `exists` in the JSON of `rbd diff`: a text or a Boolean.
pub data Flag : Type 0 where
  text : List ℕ → Flag
  flag : Bool → Flag

pub record DiffEntry : Type 0 where
  pub offset : ℕ
  pub size : ℕ
  pub exists : Flag

-- not (v == 'false' or not v)
unfoldable pub truth : Flag → Bool
truth (text t) = not (t == (b'f' ∷ b'a' ∷ b'l' ∷ b's' ∷ b'e' ∷ []) || t == [])
truth (flag b) = b

unfoldable pub hints_from_rbd_diff : List DiffEntry → List Hint
unfolding truth
hints_from_rbd_diff =
    map (λ l. record { offset = l.offset; size = l.size; exists = truth l.exists })

pub record BlockSets : Type 0 where
  pub sparse : List ℕ
  pub read : List ℕ

-- for i in range(start, start + n): s.add(i)
unfoldable pub add_range : ℕ → ℕ → List ℕ → List ℕ
add_range start zero s = s
add_range start (suc n) s = add_range (start + 1) n (add start s)

-- end_block + 1, where end_block is (offset + length - 1) // block_size, so -1 at 0
unfoldable pub end_bound : Hint → ℕ → ℕ
end_bound h block_size =
    if h.offset + h.size == 0 then 0 else (h.offset + h.size - 1) / block_size + 1

unfoldable pub add_blocks : ℕ → Hint → List ℕ → List ℕ
add_blocks block_size h s =
    let start_block = h.offset / block_size in
    add_range start_block (end_bound h block_size - start_block) s

-- the body of the loop over the hints
unfoldable pub hint_step : ℕ → BlockSets → Hint → BlockSets
hint_step block_size s h =
    let start_block = h.offset / block_size in
    let end_block = end_bound h block_size - 1 in
    let with_start = if ltb 0 (h.offset % block_size) then add start_block s.read else s.read in
    let with_end =
      if ltb 0 ((h.offset + h.size) % block_size) then add end_block with_start else with_start in
    if h.exists
    then record s { read = add_blocks block_size h s.read }
    else record { sparse = add_blocks block_size h s.sparse; read = with_end }

unfoldable pub hint_loop : ℕ → BlockSets → List Hint → BlockSets
hint_loop block_size s [] = s
hint_loop block_size s (h ∷ hs) = hint_loop block_size (hint_step block_size s h) hs

-- a division by a block size of zero raises
unfoldable pub blocks_from_hints : List Hint → ℕ → Result BlockSets
blocks_from_hints [] block_size = ok (record { sparse = []; read = [] })
blocks_from_hints (h ∷ hs) block_size =
    if block_size == 0
    then err zero_division_error
    else ok (hint_loop block_size (record { sparse = []; read = [] }) (h ∷ hs))
