-- ===== src/Io/Slices.antt =====
-- The bytes of a block in a file, and what a write of another block leaves of them.
use native.Mathlib.Nat.{zero-add}
use be_backup.Prelude.{
  leb, Bool-cases, length, take, drop, length-append, length-drop, ℕ, zero, suc, ◌+◌, ◌*◌, ◌≤◌, min,
  ◌≡◌, refl, sym, ap, ◌∙◌, ◌⊎◌, inl, inr, [], ◌∷◌, ◌++◌, arith, nat_eq, list_eq, option_eq,
}
use be_backup.Transforms.{Bytes}
use be_backup.Io.{write_at}

-- the bytes from an offset on
abbrev pub slice : ℕ → ℕ → Bytes → Bytes
slice offset n d = take n (drop offset d)

take-overwrite : (x rest : Bytes) → take (length x) (x ++ rest) ≡ x
take-overwrite [] rest = refl
take-overwrite (c ∷ x) rest = ap (◌∷◌ c) (take-overwrite x rest)

drop-overwrite :
    (o : ℕ) (x d : Bytes)
    → length x ≤ o
    → length x ≤ length d
    → drop o (x ++ drop (length x) d) ≡ drop o d
drop-overwrite o [] d le fits = refl
drop-overwrite zero (c ∷ x) d le fits = absurd (omega arith)
drop-overwrite (suc o) (c ∷ x) [] le fits = absurd (omega arith)
drop-overwrite (suc o) (c ∷ x) (e ∷ d) le fits = drop-overwrite o x d (omega arith) (omega arith)

-- what is written is there
pub slice-write_at : (o : ℕ) (x d : Bytes) → slice o (length x) (write_at o x d) ≡ x
unfolding write_at
slice-write_at zero x d = take-overwrite x (drop (length x) d)
slice-write_at (suc o) x [] = slice-write_at o x []
slice-write_at (suc o) x (c ∷ d) = slice-write_at o x d

pub length-write_at :
    (o : ℕ) (x d : Bytes) → o + length x ≤ length d → length (write_at o x d) ≡ length d
unfolding write_at
length-write_at zero x d le =
    omega (arith, length-append x (drop (length x) d), length-drop (length x) d)
length-write_at (suc o) x [] le = absurd (omega arith)
length-write_at (suc o) x (c ∷ d) le = ap suc (length-write_at o x d (omega arith))

drop_after :
    (o o' : ℕ) (x d : Bytes)
    → o + length x ≤ o'
    → o + length x ≤ length d
    → drop o' (write_at o x d) ≡ drop o' d
unfolding write_at
drop_after zero o' x d le fits = drop-overwrite o' x d (omega arith) (omega arith)
drop_after (suc o) o' x [] le fits = absurd (omega arith)
drop_after (suc o) zero x (c ∷ d) le fits = absurd (omega arith)
drop_after (suc o) (suc o') x (c ∷ d) le fits = drop_after o o' x d (omega arith) (omega arith)

slice_before :
    (o o' n : ℕ) (x d : Bytes)
    → o' + n ≤ o
    → o + length x ≤ length d
    → slice o' n (write_at o x d) ≡ slice o' n d
unfolding write_at
slice_before o zero zero x d le fits = refl
slice_before zero zero (suc n) x d le fits = absurd (omega arith)
slice_before zero (suc o') n x d le fits = absurd (omega arith)
slice_before (suc o) o' n x [] le fits = absurd (omega arith)
slice_before (suc o) zero (suc n) x (c ∷ d) le fits =
    ap (◌∷◌ c) (slice_before o zero n x d (omega arith) (omega arith))
slice_before (suc o) (suc o') n x (c ∷ d) le fits =
    slice_before o o' n x d (omega arith) (omega arith)

-- a write elsewhere leaves the slice
pub slice-write_at_other :
    (o o' n : ℕ) (x d : Bytes)
    → (o' + n ≤ o) ⊎ (o + length x ≤ o')
    → o + length x ≤ length d
    → slice o' n (write_at o x d) ≡ slice o' n d
slice-write_at_other o o' n x d (inl before) fits = slice_before o o' n x d before fits
slice-write_at_other o o' n x d (inr after) fits = ap (take n) (drop_after o o' x d after fits)

-- the data of the block at an index of a device
abbrev pub block_of : ℕ → Bytes → ℕ → Bytes
block_of bs dev i = slice (i * bs) bs dev

pub take-none : (n : ℕ) → take {A = ℕ} n [] ≡ []
take-none zero = refl
take-none (suc n) = refl

pub take-add : (m n : ℕ) (d : Bytes) → take (m + n) d ≡ take m d ++ take n (drop m d)
take-add zero n d = rw zero-add refl
take-add (suc m) n [] = let e : suc m + n ≡ suc (m + n) = omega arith in rw (e, take-none n) refl
take-add (suc m) n (x ∷ d) =
    let e : suc m + n ≡ suc (m + n) = omega arith in rw e (ap (◌∷◌ x) (take-add m n d))

pub take-all : (n : ℕ) (d : Bytes) → length d ≤ n → take n d ≡ d
take-all zero [] le = refl
take-all zero (x ∷ d) le = absurd (omega arith)
take-all (suc n) [] le = refl
take-all (suc n) (x ∷ d) le = ap (◌∷◌ x) (take-all n d (omega arith))

pub take_short : (k n : ℕ) (d : Bytes) → k ≡ min n (length d) → take k d ≡ take n d
take_short k n d e = elim (Bool-cases (leb n (length d))) [
  | inl within ↦ ap (λ x. take x d) (ground arith)
  | inr beyond ↦ take-all k d (ground arith) ∙ sym (take-all n d (ground arith))
]
