-- ===== src/Restore/Writes.antt =====
-- The writes of a restore to its target, in whatever order they are completed.
use be_backup.Prelude.{
  ltb, Bool-cases, ◌==◌, eq_of_==, length, All, Has, All-Has, All-of-Has, ℕ, ◌+◌, ◌*◌, ◌≤◌, ◌<◌,
  ◌≡◌, refl, ap, subst, ◌∙◌, ◌≢◌, ◌↔◌, ◌⊎◌, inl, inr, List, [], ◌∷◌, arith, nat_eq, list_eq,
  option_eq,
}
use be_backup.Uid.{block_uid_eq}
use be_backup.Database.{Block}
use be_backup.Transforms.{Bytes}
use be_backup.Io.{file_write}
use be_backup.Io.Slices.{slice, slice-write_at, length-write_at, slice-write_at_other}
use be_backup.Restore.{write_all}

-- an executor completes the submitted jobs, each of them, in some order
abbrev pub IsReordering : {A : Type 0} → (List A → List A) → Type 0
IsReordering {A} f = (x : A) (xs : List A) → Has x (f xs) ↔ Has x xs

pub reordered-All :
    {A : Type 0} (P : A → Type 0) (f : List A → List A) (xs : List A)
    → IsReordering f
    → All P xs
    → All P (f xs)
reordered-All P f xs r a = All-of-Has P (f xs) (λ x m. All-Has P x xs ((r x xs).0 m) a)

pub mul_le_next : (i j bs : ℕ) → i < j → i * bs + bs ≤ j * bs
mul_le_next i j bs lt = grind arith

apart_blocks :
    (i j bs n m : ℕ) → i ≢ j → n ≤ bs → m ≤ bs → (i * bs + n ≤ j * bs) ⊎ (j * bs + m ≤ i * bs)
apart_blocks i j bs n m d p q = elim (Bool-cases (ltb i j)) [
  | inl less ↦ inl (grind (arith, mul_le_next i j bs))
  | inr more ↦ inr (grind (arith, mul_le_next j i bs))
]

-- one write, at the block's place and elsewhere
module _ (bs : ℕ) (b : Block) where
  slice_written : (x d : Bytes) → slice (b.idx * bs) (length x) (file_write bs b x d) ≡ x
  unfolding file_write
  slice_written [] d = refl
  slice_written (c ∷ x) d = slice-write_at (b.idx * bs) (c ∷ x) d

  length-file_write :
      (x d : Bytes) → b.idx * bs + length x ≤ length d → length (file_write bs b x d) ≡ length d
  unfolding file_write
  length-file_write [] d fits = refl
  length-file_write (c ∷ x) d fits = length-write_at (b.idx * bs) (c ∷ x) d fits

  slice_elsewhere :
      (i n : ℕ) (x d : Bytes)
      → b.idx * bs + length x ≤ length d
      → i ≢ b.idx
      → n ≤ bs
      → length x ≤ bs
      → slice (i * bs) n (file_write bs b x d) ≡ slice (i * bs) n d
  unfolding file_write
  slice_elsewhere i n [] d fits differs p q = refl
  slice_elsewhere i n (c ∷ x) d fits differs p q =
      slice-write_at_other (b.idx * bs) (i * bs) n (c ∷ x) d
        (apart_blocks i b.idx bs n (length (c ∷ x)) differs p q) fits

module _ (bs : ℕ) (image : ℕ → Bytes) where
  -- the job writes the data of its block
  abbrev pub IsOfImage : ℕ → Block × Bytes → Type 0
  IsOfImage n (b, bytes) =
      (bytes ≡ image b.idx) × (length (image b.idx) ≤ bs) × (b.idx * bs + length (image b.idx) ≤ n)

  unfoldable pub IsDone : ℕ → Bytes → Type 0
  IsDone i d = slice (i * bs) (length (image i)) d ≡ image i

  file_write-IsDone :
      (i : ℕ) (b : Block) (d : Bytes)
      → length (image i) ≤ bs
      → IsOfImage (length d) (b, image b.idx)
      → IsDone i d
      → IsDone i (file_write bs b (image b.idx) d)
  unfolding IsDone
  file_write-IsDone i b d small (same, small', fits) done = elim (Bool-cases (i == b.idx)) [
    | inl here ↦ rw (eq_of_== i b.idx here) (slice_written bs b (image b.idx) d)
    | inr there ↦
        slice_elsewhere bs b i (length (image i)) (image b.idx) d fits (λ e. ground arith) small
          small'
        ∙ done
  ]

  pub length-write_all :
      (jobs : List (Block × Bytes)) (d : Bytes)
      → All (IsOfImage (length d)) jobs
      → length (write_all bs jobs d) ≡ length d
  unfolding write_all
  length-write_all [] d a = refl
  length-write_all ((b, bytes) ∷ jobs) d a =
      let same : length (file_write bs b bytes d) ≡ length d =
        length-file_write bs b bytes d (rw (a.0.0) a.0.2) in
      length-write_all jobs (file_write bs b bytes d) (rw same a.1) ∙ same

  pub write_all_lem :
      (i : ℕ) (jobs : List (Block × Bytes)) (d : Bytes)
      → length (image i) ≤ bs
      → All (IsOfImage (length d)) jobs
      → IsDone i d ⊎ ((b : Block) × Has (b, image b.idx) jobs × (b.idx ≡ i))
      → IsDone i (write_all bs jobs d)
  unfolding write_all IsDone
  write_all_lem i [] d small a (inl done) = done
  write_all_lem i [] d small a (inr (b, m, e)) = absurd m
  write_all_lem i ((b, bytes) ∷ jobs) d small a case_ =
      let same : length (file_write bs b bytes d) ≡ length d =
        length-file_write bs b bytes d (rw (a.0.0) a.0.2) in
      write_all_lem i jobs (file_write bs b bytes d) small (rw same a.1) (elim case_ [
        | inl done ↦ inl (rw (a.0.0) (file_write-IsDone i b d small (refl, a.0.1, a.0.2) done))
        | inr (c, inl e, at) ↦ inl (
            let at_i : b.idx ≡ i = ap (λ (p : Block × Bytes). p.0.idx) e ∙ at in
            rw (a.0.0) (
              subst (λ k. IsDone k (file_write bs b (image b.idx) d)) at_i
                (slice_written bs b (image b.idx) d)))
        | inr (c, inr m, at) ↦ inr (c, m, at)
      ])
