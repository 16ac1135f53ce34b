-- ===== src/Backup/Queue.antt =====
-- The first loop of a backup, and the whole of it: which blocks are read, turned sparse or kept.
use be_backup.Prelude.{
  Bool-cases, ◌==◌, eq_of_==, length, length-replicate, All, contains, ℕ, ◌+◌, ◌≡◌, refl, sym, ap,
  subst, ◌∙◌, ◌≢◌, ◌⊎◌, inl, inr, Bool, true, false, not, ◌||◌, Option, none, some, List, [], ◌∷◌,
  map, arith, nat_eq, list_eq, option_eq,
}
use be_backup.Errors.{ok}
use be_backup.Uid.{sparse_block_uid, is_set, block_uid_eq}
use be_backup.Database.{Block, Database, create_sparse_block}
use be_backup.Transforms.{Bytes}
use be_backup.Hints.{BlockSets}
use be_backup.Backup.{queue_block, queue_blocks, Stage, reading, finished, zeros}
use be_backup.Backup.Steps.{World}
use be_backup.Backup.Invariant.{content, IsFree, IsSound, Holds, IsDue, Keeps, row_set}
use be_backup.Backup.Turns.{IsRead}
use be_backup.Backup.Content.{AreApart}
use be_backup.Versions.{set_block}

abbrev pub idxs : List Block → List ℕ
idxs = map (λ b. b.idx)

-- block.idx in read_blocks or not block.valid
abbrev pub must_read : BlockSets → Block → Bool
must_read sets b = contains sets.read b.idx || not b.valid

module _ {S : Type 0} (w : World S) (image : ℕ → Bytes) (Known : Bytes → Type 0) (sets : BlockSets)
    (s : S) where
  -- A block that is to be read can be; one that is to turn sparse is zeros in the source, and if it
  -- is sparse already it has no checksum; any other block holds the data of the source.
  abbrev pub IsPlanned : Database → Block → Type 0
  IsPlanned db b =
      (must_read sets b ≡ true → IsRead w image b × IsFree w db.blocks b.idx)
      × (must_read sets b ≡ false
          → contains sets.sparse b.idx ≡ true
          → (image b.idx ≡ zeros b.size)
            × (is_set b.uid ≡ false → (b.checksum ≡ none) × Holds w image db s b.idx))
      × (must_read sets b ≡ false → contains sets.sparse b.idx ≡ false → Holds w image db s b.idx)

  IsPlanned-Keeps :
      (i : ℕ) (db db' : Database)
      → Keeps w image i db s db' s
      → (b : Block) → b.idx ≢ i
      → IsPlanned db b
      → IsPlanned db' b
  IsPlanned-Keeps i db db' keep b d (to_read, to_sparse, kept) = (
    λ t. ((to_read t).0, keep b reading d (to_read t).1),
    λ t c. (
      (to_sparse t c).0,
      λ u. (((to_sparse t c).1 u).0, keep b finished d ((to_sparse t c).1 u).1),
    ),
    λ t c. keep b finished d (kept t c),
  )

  -- the effect of one block on the database, with the block to read
  abbrev Queued : Database → Block → Database → Option Block → Type 0
  Queued db b db' job =
      IsSound w Known db' s
      × Keeps w image b.idx db s db' s
      × (((job ≡ some b) × (must_read sets b ≡ true) × IsRead w image b × IsFree w db'.blocks b.idx)
          ⊎ ((job ≡ none) × Holds w image db' s b.idx))

  sparse-Queued :
      (db : Database) (b : Block)
      → IsSound w Known db s
      → image b.idx ≡ zeros b.size
      → Queued db b (set_block db w.version b.idx sparse_block_uid none b.size true) none
  sparse-Queued db b sound is_zeros =
      let size : b.size ≡ length (image b.idx) = rw is_zeros (sym (length-replicate b.size 0)) in
      let (sound', holds, keep) =
        row_set w image Known db s sound b.idx sparse_block_uid none b.size
          (λ m d free e. ground arith) (λ full c q r t. absurd (ground arith))
          (elim (Bool-cases (b.size == w.version.block_size)) [
            | inl whole ↦
                let same : b.size ≡ w.version.block_size =
                  eq_of_== b.size w.version.block_size whole in
                rw whole (
                  unfold create_sparse_block content in
                  (
                    refl,
                    sym same ∙ size,
                    ap (λ n. some (zeros n)) (sym same) ∙ ap some (sym is_zeros),
                    λ e. absurd (ground arith),
                  ))
            | inr part ↦
                rw part (
                  unfold content in
                  (refl, size, ap some (sym is_zeros), λ e. absurd (ground arith)))
          ]) in
      (sound', keep, inr (refl, holds))

  queue_block_lem :
      (db : Database) (b : Block) (n : ℕ)
      → IsSound w Known db s
      → IsPlanned db b
      → (db' : Database) × ((n' : ℕ) × ((job : Option Block) × (queue_block w.version sets b db n
              ≡ ok (db', n', job))
            × Queued db b db' job))
  unfolding queue_block
  queue_block_lem db b n sound (to_read, to_sparse, kept) = elim (Bool-cases (must_read sets b)) [
    | inl t ↦ (
      db,
      (
        n,
        (some b, rw t refl, (sound, λ c k d due. due, inl (refl, t, (to_read t).0, (to_read t).1))),
      ),
    )
    | inr f ↦ elim (Bool-cases (contains sets.sparse b.idx)) [
      | inr other ↦
          (db, (n, (none, rw (f, other) refl, (sound, λ c k d due. due, inr (refl, kept f other)))))
      | inl turns ↦
          let (is_zeros, empty) = to_sparse f turns in
          elim (Bool-cases (is_set b.uid)) [
            | inl set ↦ (
              set_block db w.version b.idx sparse_block_uid none b.size true,
              (n + b.size, (none, rw (f, turns, set) refl, sparse-Queued db b sound is_zeros)),
            )
            | inr unset ↦
                let (bare, holds) = empty unset in
                (
                  db,
                  (
                    n + b.size,
                    (
                      none,
                      rw (f, turns, unset, bare) refl,
                      (sound, λ c k d due. due, inr (refl, holds)),
                    ),
                  ),
                )
          ]
    ]
  ]

  All-planned :
      (i : ℕ) (db db' : Database) (bs : List Block)
      → Keeps w image i db s db' s
      → contains (idxs bs) i ≡ false
      → All (IsPlanned db) bs
      → All (IsPlanned db') bs
  All-planned i db db' [] keep c a = tt
  All-planned i db db' (b ∷ bs) keep c a = (
    IsPlanned-Keeps i db db' keep b (λ e. ground arith) a.0,
    All-planned i db db' bs keep (ground arith) a.1,
  )

  -- what the loop over some blocks leaves
  abbrev Looped : Database → List Block → Database → List Block → Type 0
  Looped db bs db' jobs =
      IsSound w Known db' s
      × AreApart (idxs jobs)
      × All (λ b. IsRead w image b × IsFree w db'.blocks b.idx) jobs
      × ((i : ℕ)
          → contains (idxs bs) i ≡ true
          → contains (idxs jobs) i ≡ false
          → Holds w image db' s i)
      × ((i : ℕ) → contains (idxs jobs) i ≡ true → contains (idxs bs) i ≡ true)
      × ((c : Block) (t : Stage)
          → contains (idxs bs) c.idx ≡ false
          → IsDue w image db s c t
          → IsDue w image db' s c t)

  read-Looped :
      (db db1 db' : Database) (b : Block) (bs jobs : List Block)
      → contains (idxs bs) b.idx ≡ false
      → Keeps w image b.idx db s db1 s
      → IsRead w image b
      → IsFree w db1.blocks b.idx
      → Looped db1 bs db' jobs
      → Looped db (b ∷ bs) db' (b ∷ jobs)
  read-Looped db db1 db' b bs jobs new step from free (sound, apart, reads, others, within, keep) =
      (
        sound,
        (
          elim (Bool-cases (contains (idxs jobs) b.idx)) [
            | inl again ↦ absurd (ground (arith, within b.idx again))
            | inr once ↦ once
          ],
          apart,
        ),
        ((from, keep b reading new free), reads),
        λ i c d. others i (ground arith) (ground arith),
        λ i c. ground (arith, within i),
        λ c t d due. keep c t (ground arith) (step c t (λ e. ground arith) due),
      )

  kept-Looped :
      (db db1 db' : Database) (b : Block) (bs jobs : List Block)
      → contains (idxs bs) b.idx ≡ false
      → Keeps w image b.idx db s db1 s
      → Holds w image db1 s b.idx
      → Looped db1 bs db' jobs
      → Looped db (b ∷ bs) db' jobs
  kept-Looped db db1 db' b bs jobs new step holds (sound, apart, reads, others, within, keep) = (
    sound,
    apart,
    reads,
    λ i c d. elim (Bool-cases (i == b.idx)) [
      | inl here ↦
          subst (Holds w image db' s) (sym (eq_of_== i b.idx here)) (keep b finished new holds)
      | inr there ↦ others i (ground arith) d
    ],
    λ i c. ground (arith, within i),
    λ c t d due. keep c t (ground arith) (step c t (λ e. ground arith) due),
  )

  pub queue_blocks_lem :
      (bs : List Block) (db : Database) (n : ℕ)
      → AreApart (idxs bs)
      → All (IsPlanned db) bs
      → IsSound w Known db s
      → (db' : Database) × ((n' : ℕ) × ((jobs : List Block) × (queue_blocks w.version sets bs db n
              ≡ ok (db', n', jobs))
            × Looped db bs db' jobs))
  unfolding queue_blocks
  queue_blocks_lem [] db n apart a sound = (
    db,
    (
      n,
      (
        [],
        refl,
        (
          sound,
          tt,
          tt,
          λ i c. absurd (ground arith),
          λ i c. absurd (ground arith),
          λ c t d due. due,
        ),
      ),
    ),
  )
  queue_blocks_lem (b ∷ bs) db n apart a sound =
      let (db1, (n1, (job, e, (sound1, keep, outcome)))) = queue_block_lem db b n sound a.0 in
      let (db2, (n2, (jobs, e2, done))) =
        queue_blocks_lem bs db1 n1 apart.1 (All-planned b.idx db db1 bs keep apart.0 a.1) sound1 in
      elim outcome [
        | inr (none_job, holds) ↦ (
          db2,
          (
            n2,
            (
              jobs,
              rw (e, e2, none_job) refl,
              kept-Looped db db1 db2 b bs jobs apart.0 keep holds done,
            ),
          ),
        )
        | inl (some_job, t, from, free) ↦ (
          db2,
          (
            n2,
            (
              b ∷ jobs,
              rw (e, e2, some_job) refl,
              read-Looped db db1 db2 b bs jobs apart.0 keep from free done,
            ),
          ),
        )
      ]
