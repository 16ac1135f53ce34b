-- ===== src/Io/Parts.antt =====
-- Writes and slices of the parts of a file.
use be_backup.Prelude.{
  length, take, drop, length-drop, ℕ, zero, suc, ◌+◌, ◌-◌, ◌≤◌, ◌≡◌, refl, sym, ap, ◌∙◌, [], ◌∷◌,
  ◌++◌, arith, nat_eq, list_eq, option_eq,
}
use be_backup.Transforms.{Bytes}
use be_backup.Io.{write_at}
use be_backup.Io.Slices.{slice, take-none, take-add}

take-over :
    (n : ℕ) (x d : Bytes)
    → length x ≤ n
    → length x ≤ length d
    → take n (x ++ drop (length x) d) ≡ x ++ drop (length x) (take n d)
take-over n [] d le fits = refl
take-over zero (c ∷ x) d le fits = absurd (omega arith)
take-over (suc n) (c ∷ x) [] le fits = absurd (omega arith)
take-over (suc n) (c ∷ x) (e ∷ d) le fits = ap (◌∷◌ c) (take-over n x d (omega arith) (omega arith))

-- a write within the first bytes
pub take-write_at :
    (n o : ℕ) (x d : Bytes)
    → o + length x ≤ n
    → o + length x ≤ length d
    → take n (write_at o x d) ≡ write_at o x (take n d)
unfolding write_at
take-write_at n zero x d le fits = take-over n x d (omega arith) (omega arith)
take-write_at zero (suc o) x d le fits = absurd (omega arith)
take-write_at (suc n) (suc o) x [] le fits = absurd (omega arith)
take-write_at (suc n) (suc o) x (c ∷ d) le fits =
    ap (◌∷◌ c) (take-write_at n o x d (omega arith) (omega arith))

-- a write beyond the first bytes
pub drop-write_at :
    (m o : ℕ) (x d : Bytes) → m ≤ length d → drop m (write_at (m + o) x d) ≡ write_at o x (drop m d)
unfolding write_at
drop-write_at zero o x d le = ap (λ k. write_at k x d) (omega arith)
drop-write_at (suc m) o x [] le = absurd (omega arith)
drop-write_at (suc m) o x (c ∷ d) le =
    let e : suc m + o ≡ suc (m + o) = omega arith in rw e (drop-write_at m o x d (omega arith))

over_over :
    (x y d : Bytes)
    → length x + length y ≤ length d
    → write_at (length x) y (x ++ drop (length x) d) ≡ (x ++ y) ++ drop (length (x ++ y)) d
unfolding write_at
over_over [] y d fits = refl
over_over (c ∷ x) y [] fits = absurd (omega arith)
over_over (c ∷ x) y (e ∷ d) fits = ap (◌∷◌ c) (over_over x y d (omega arith))

-- two writes, one after the other
pub write_at-append :
    (o : ℕ) (x y d : Bytes)
    → o + length x + length y ≤ length d
    → write_at (o + length x) y (write_at o x d) ≡ write_at o (x ++ y) d
unfolding write_at
write_at-append zero x y d fits =
    let e : 0 + length x ≡ length x = omega arith in rw e (over_over x y d (omega arith))
write_at-append (suc o) x y [] fits = absurd (omega arith)
write_at-append (suc o) x y (c ∷ d) fits =
    let e : suc o + length x ≡ suc (o + length x) = omega arith in
    rw e (ap (◌∷◌ c) (write_at-append o x y d (omega arith)))

drop-none : (n : ℕ) → drop {A = ℕ} n [] ≡ []
drop-none zero = refl
drop-none (suc n) = refl

drop-drop : (m n : ℕ) (d : Bytes) → drop m (drop n d) ≡ drop (n + m) d
drop-drop m zero d = ap (λ k. drop k d) (omega arith)
drop-drop m (suc n) [] = drop-none m ∙ sym (drop-none (suc n + m))
drop-drop m (suc n) (x ∷ d) =
    let e : suc n + m ≡ suc (n + m) = omega arith in rw e (drop-drop m n d)

take-take : (n m : ℕ) (d : Bytes) → n ≤ m → take n (take m d) ≡ take n d
take-take zero m d le = refl
take-take (suc n) zero d le = absurd (omega arith)
take-take (suc n) (suc m) [] le = refl
take-take (suc n) (suc m) (x ∷ d) le = ap (◌∷◌ x) (take-take n m d (omega arith))

drop-take : (n m : ℕ) (d : Bytes) → drop n (take (n + m) d) ≡ take m (drop n d)
drop-take zero m d = ap (λ k. take k d) (omega arith)
drop-take (suc n) m [] = ap (drop (suc n)) (take-none (suc n + m)) ∙ sym (take-none m)
drop-take (suc n) m (x ∷ d) =
    let e : suc n + m ≡ suc (n + m) = omega arith in rw e (drop-take n m d)

-- a part of a block is a part of the file
pub slice-block :
    (s bs o n : ℕ) (d : Bytes) → o + n ≤ bs → slice o n (slice s bs d) ≡ slice (s + o) n d
slice-block s bs o n d le =
    let e : bs ≡ o + (bs - o) = omega arith in
    ap (λ k. take n (drop o (take k (drop s d)))) e
    ∙ (ap (take n) (drop-take o (bs - o) (drop s d))
        ∙ (take-take n (bs - o) (drop o (drop s d)) (omega arith) ∙ ap (take n) (drop-drop o s d)))

-- one part after the other
pub slice-append : (s n m : ℕ) (d : Bytes) → slice s n d ++ slice (s + n) m d ≡ slice s (n + m) d
slice-append s n m d =
    ap (λ x. slice s n d ++ take m x) (sym (drop-drop n s d)) ∙ sym (take-add n m (drop s d))

-- the block in which a write lies
pub block-write_at :
    (s bs o : ℕ) (x d : Bytes)
    → o + length x ≤ bs
    → s + o + length x ≤ length d
    → slice s bs (write_at (s + o) x d) ≡ write_at o x (slice s bs d)
block-write_at s bs o x d le fits =
    ap (take bs) (drop-write_at s o x d (omega arith))
    ∙ take-write_at bs o x (drop s d) le (omega (arith, length-drop s d))

pub write_at-none : (o : ℕ) (d : Bytes) → o ≤ length d → write_at o [] d ≡ d
unfolding write_at
write_at-none zero d le = refl
write_at-none (suc o) [] le = absurd (omega arith)
write_at-none (suc o) (x ∷ d) le = ap (◌∷◌ x) (write_at-none o d (omega arith))
