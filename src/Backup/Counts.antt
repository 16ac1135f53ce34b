-- ===== src/Backup/Counts.antt =====
-- The counts of the jobs of a backup, and how many steps it makes.
use be_backup.Prelude.{
  Bool-cases, Option-cases, ◌==◌, length, ℕ, suc, ◌+◌, ◌*◌, ◌≤◌, ◌<◌, ◌≡◌, refl, ap, subst, ◌∙◌,
  inl, inr, ◌&&◌, List, [], ◌∷◌, ◌++◌, arith, nat_eq, list_eq, option_eq,
}
use be_backup.Uid.{block_uid_eq}
use be_backup.Database.{Block}
use be_backup.Transforms.{Bytes}
use be_backup.Versions.{get_block_by_checksum}
use be_backup.Backup.{
  Stage, reading, queued, written, finished, Job, Progress, zeros, store_read, handle_read,
  row_written, handle_written,
}
use be_backup.Backup.Steps.{
  World, Turn, read_done, write_done, row_done, Step, turn, Reach, no_step, then_step, submitted,
}
use be_backup.Backup.Content.{AreFinished}

-- the parts of a job that are left
abbrev pub parts_left : Stage → ℕ
parts_left reading = 3
parts_left (queued new bytes) = 2
parts_left (written new) = 1
parts_left finished = 0

-- the reads and the writes that are not completed
abbrev pub reads_left : Stage → ℕ
reads_left reading = 1
reads_left _ = 0

abbrev pub writes_left : Stage → ℕ
writes_left (queued new bytes) = 1
writes_left (written new) = 1
writes_left _ = 0

abbrev pub sum_of : (Stage → ℕ) → List Job → ℕ
sum_of f [] = 0
sum_of f (j ∷ jobs) = f j.stage + sum_of f jobs

pub sum-middle :
    (f : Stage → ℕ) (j : Job) (xs ys : List Job)
    → sum_of f (xs ++ j ∷ ys) ≡ f j.stage + sum_of f (xs ++ ys)
sum-middle f j [] ys = refl
sum-middle f j (x ∷ xs) ys = ground (arith, sum-middle f j xs ys)

pub sum-submitted : (blocks : List Block) → sum_of reads_left (submitted blocks) ≡ length blocks
sum-submitted [] = refl
sum-submitted (b ∷ bs) = ground (arith, sum-submitted bs)

pub writes-submitted : (blocks : List Block) → sum_of writes_left (submitted blocks) ≡ 0
writes-submitted [] = refl
writes-submitted (b ∷ bs) = ground (arith, writes-submitted bs)

-- what one step of a job does to the counts
abbrev Counts : {S : Type 0} → Progress S → Stage → Progress S → Stage → Type 0
Counts p s q t =
    (q.done_read_jobs + reads_left t ≡ p.done_read_jobs + reads_left s)
    × (q.write_jobs + (p.done_write_jobs + writes_left s)
        ≡ p.write_jobs + (q.done_write_jobs + writes_left t))
    × (parts_left t < parts_left s)

module _ {S : Type 0} (w : World S) where
  handle_read-Counts :
      (p : Progress S) (b : Block) (bytes : Bytes)
      → (let (q, t) = handle_read w.hash w.version p b bytes in Counts p reading q t)
  unfolding handle_read store_read
  handle_read-Counts p b bytes =
      elim (Bool-cases
        (w.hash bytes == w.hash (zeros w.version.block_size) && b.size == w.version.block_size)) [
          | inl sparse ↦ rw sparse (ground arith, ground arith, ground arith)
          | inr full ↦
              rw full (elim (Option-cases (get_block_by_checksum p.db w.version (w.hash bytes))) [
                | inl none_known ↦ rw none_known (ground arith, ground arith, ground arith)
                | inr (e, found) ↦ rw found (elim (Bool-cases (e.size == b.size)) [
                  | inl same ↦ rw same (ground arith, ground arith, ground arith)
                  | inr differs ↦ rw differs (ground arith, ground arith, ground arith)
                ])
              ])
        ]

  pub Turn-Counts : {p q : Progress S} {j k : Job} → Turn w p j q k → Counts p j.stage q k.stage
  Turn-Counts (read_done p q b bytes s from e) =
      subst (λ r. Counts p reading r.0 r.1) e (handle_read-Counts p b bytes)
  Turn-Counts (write_done p b new bytes store done) = (ground arith, ground arith, ground arith)
  Turn-Counts (row_done p q b new e) =
      unfold handle_written in
      elim (Bool-cases (new.version_id == w.version.id)) [
        | inl mine ↦
            let same : row_written w.version p new ≡ q = ground arith in
            subst (λ r. Counts p (written new) r finished) same
              (ground arith, ground arith, ground arith)
        | inr other ↦ absurd (ground arith)
      ]

  -- the counts of the jobs agree with what is left of them
  abbrev pub Counted : Progress S → List Job → ℕ → Type 0
  Counted p jobs n =
      (p.done_read_jobs + sum_of reads_left jobs ≡ n)
      × (p.write_jobs ≡ p.done_write_jobs + sum_of writes_left jobs)

  Step-Counted :
      {p q : Progress S} {js ks : List Job} (n : ℕ)
      → Step w p js q ks
      → Counted p js n
      → Counted q ks n
  Step-Counted n (turn p q j k xs ys t) c =
      let (reads, writes, less) = Turn-Counts t in
      (
        ground (arith, sum-middle reads_left j xs ys, sum-middle reads_left k xs ys),
        ground (arith, sum-middle writes_left j xs ys, sum-middle writes_left k xs ys),
      )

  pub Reach-Counted :
      {p : Progress S} {js : List Job} {q : Progress S} {ks : List Job} (n : ℕ)
      → Counted p js n
      → Reach w p js q ks
      → Counted q ks n
  Reach-Counted n c no_step = c
  Reach-Counted n c (then_step r st) = Step-Counted n st (Reach-Counted n c r)

  -- A run makes at most three steps for each job.
  abbrev pub steps :
      {p : Progress S} {js : List Job} {q : Progress S} {ks : List Job} → Reach w p js q ks → ℕ
  steps no_step = 0
  steps (then_step r st) = suc (steps r)

pub parts-submitted :
    (blocks : List Block) → sum_of parts_left (submitted blocks) ≡ 3 * length blocks
parts-submitted [] = refl
parts-submitted (b ∷ bs) = ground (arith, parts-submitted bs)

module _ {S : Type 0} (w : World S) where
  pub steps_bound :
      {p : Progress S} {js : List Job} {q : Progress S} {ks : List Job} (r : Reach w p js q ks)
      → steps w r + sum_of parts_left ks ≤ sum_of parts_left js
  steps_bound no_step = omega arith
  steps_bound (then_step r (turn q q' j k xs ys t)) =
      let (reads, writes, less) = Turn-Counts w t in
      ground (arith, steps_bound r, sum-middle parts_left j xs ys, sum-middle parts_left k xs ys)

  pub prepend :
      {p : Progress S} {js : List Job} {q : Progress S} {ks : List Job} {r : Progress S}
      {ls : List Job}
      → Step w p js q ks
      → Reach w q ks r ls
      → Reach w p js r ls
  prepend st no_step = then_step no_step st
  prepend st (then_step run last) = then_step (prepend st run) last

pub none_left :
    (f : Stage → ℕ) → f finished ≡ 0 → (jobs : List Job) → AreFinished jobs → sum_of f jobs ≡ 0
none_left f e [] d = refl
none_left f e (j ∷ jobs) d =
    let now : f j.stage ≡ 0 = ap f d.0 ∙ e in ground (arith, none_left f e jobs d.1)
