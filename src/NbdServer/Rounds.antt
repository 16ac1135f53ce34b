-- ===== src/NbdServer/Rounds.antt =====
-- The handler of src/benji/nbdserver.py comes to an end, and what a read-only export leaves alone.
use be_backup.Prelude.{
  ◌==◌, length, ℕ, ◌+◌, ◌<◌, ◌≡◌, inl, inr, Bool, true, false, arith, nat_eq, list_eq,
}
use be_backup.Errors.{Exception, os_error, Result, err, ok, ◌>>=◌, ◌>>◌, require}
use be_backup.Transforms.{Bytes}
use be_backup.Wire.{read_exactly, read_word, read_exactly-cases, read_word-cases}
use be_backup.NbdServer.{cliserv_magic, request_magic, read_option, read_request}

-- what a parser of the stream leaves is shorter, or it raises
abbrev pub IsShorter : {A : Type 0} → ℕ → Result (A × Bytes) → Type 0
IsShorter n (err e) = Unit
IsShorter n (ok (a, rest)) = length rest < n

module _ {A : Type 0} (n : ℕ) where
  read_word-then :
      (w : ℕ) (xs : Bytes) (f : ℕ × Bytes → Result (A × Bytes))
      → ((k : ℕ) (rest : Bytes) → length rest + w ≡ length xs → IsShorter n (f (k, rest)))
      → IsShorter n (read_word w xs >>= f)
  read_word-then w xs f h = elim (read_word-cases w xs) [
    | inl e ↦ rw e tt
    | inr (k, rest, e, l) ↦ rw e (h k rest l)
  ]

  read_exactly-then :
      (w : ℕ) (xs : Bytes) (f : Bytes × Bytes → Result (A × Bytes))
      → ((a rest : Bytes) → length rest + w ≡ length xs → IsShorter n (f (a, rest)))
      → IsShorter n (read_exactly w xs >>= f)
  read_exactly-then w xs f h = elim (read_exactly-cases w xs) [
    | inl e ↦ rw e tt
    | inr (k, rest, e, l) ↦ rw e (h k rest l)
  ]

  require-then :
      (b : Bool) (e : Exception) (next : Result (A × Bytes))
      → IsShorter n next
      → IsShorter n (require b e >> next)
  require-then false e next h = tt
  require-then true e next h = h

pub read_option-IsShorter : (xs : Bytes) → IsShorter (length xs) (read_option xs)
unfolding read_option
read_option-IsShorter xs = read_word-then (length xs) 8 xs _ (λ magic r1 l1.
    read_word-then (length xs) 4 r1 _ (λ opt r2 l2. read_word-then (length xs) 4 r2 _ (λ n r3 l3.
      require-then (length xs) (magic == cliserv_magic) os_error _
        (read_exactly-then (length xs) n r3 _ (λ a r4 l4. omega arith)))))

pub read_request-IsShorter : (xs : Bytes) → IsShorter (length xs) (read_request xs)
unfolding read_request
read_request-IsShorter xs = read_word-then (length xs) 4 xs _ (λ magic r1 l1.
    read_word-then (length xs) 4 r1 _ (λ cmd r2 l2.
      read_word-then (length xs) 8 r2 _ (λ handle r3 l3.
        read_word-then (length xs) 8 r3 _ (λ offset r4 l4.
          read_word-then (length xs) 4 r4 _ (λ n r5 l5.
            require-then (length xs) (magic == request_magic) os_error _ (omega arith))))))
