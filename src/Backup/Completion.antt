-- ===== src/Backup/Completion.antt =====
-- A backup ends: no job is stuck, and in the end the counts of the jobs agree.
use be_backup.Prelude.{
  Bool-cases, ◌==◌, ==_refl, length, contains, ℕ, zero, suc, ◌*◌, ◌≤◌, ◌<◌, ◌≡◌, refl, ap, subst,
  ◌⊎◌, inl, inr, Bool, true, false, none, some, List, [], ◌∷◌, ◌++◌, map, arith, nat_eq, list_eq,
  option_eq,
}
use be_backup.Errors.{Result, ok, ◌>>=◌}
use be_backup.Uid.{is_set, block_uid_eq}
use be_backup.Database.{VersionStatus, Block, Database, blocks_count}
use be_backup.Transforms.{Bytes}
use be_backup.Versions.{set_version}
use be_backup.Backup.{
  Stage, reading, queued, written, finished, Job, Progress, handle_read, row_written,
  handle_written, set_stats, finish,
}
use be_backup.Backup.Steps.{
  World, Turn, read_done, write_done, row_done, Step, turn, Reach, no_step, submitted,
}
use be_backup.Backup.Invariant.{KeepsBlocks, IsSound, Holds, IsDue}
use be_backup.Backup.Turns.{IsRead, IsDistinctive}
use be_backup.Backup.Content.{
  All-middle, AreFinished, IsJob, IsUnderway, AreToRead, submitted-IsUnderway, Step-IsUnderway,
  Reach-IsUnderway,
}
use be_backup.Backup.Counts.{
  parts_left, reads_left, writes_left, sum_of, sum-middle, sum-submitted, writes-submitted,
  Turn-Counts, Reach-Counted, steps, parts-submitted, steps_bound, prepend, none_left,
}

abbrev is_finished : Stage → Bool
is_finished finished = true
is_finished _ = false

finished_of : (s : Stage) → is_finished s ≡ true → s ≡ finished
finished_of finished e = refl
finished_of reading e = absurd (ground arith)
finished_of (queued new bytes) e = absurd (ground arith)
finished_of (written new) e = absurd (ground arith)

-- a job that is not finished, if there is one
pick_job :
    (jobs : List Job)
    → AreFinished jobs
      ⊎ ((xs : List Job) × ((j : Job) × ((ys : List Job) × (jobs ≡ xs ++ j ∷ ys)
              × (is_finished j.stage ≡ false))))
pick_job [] = inl tt
pick_job (j ∷ jobs) = elim (Bool-cases (is_finished j.stage)) [
  | inr due ↦ inr ([], (j, (jobs, refl, due)))
  | inl done ↦ elim (pick_job jobs) [
    | inl all ↦ inl (finished_of j.stage done, all)
    | inr (xs, (k, (ys, e, due))) ↦ inr (j ∷ xs, (k, (ys, ap (◌∷◌ j) e, due)))
  ]
]

-- The storage writes every block that it is given.
abbrev pub NeverFails : {S : Type 0} → World S → Type 0
NeverFails {S} w =
    (b : Block) (bytes : Bytes) (s : S)
    → is_set b.uid ≡ true
    → (s' : S) × (w.write b bytes s ≡ (ok tt, s'))

module _ {S : Type 0} (w : World S) (image : ℕ → Bytes) (Known : Bytes → Type 0)
    (distinctive : IsDistinctive w image Known) (keeps : KeepsBlocks w) (works : NeverFails w) where
  next_part :
      (p : Progress S) (b : Block) (s : Stage)
      → is_finished s ≡ false
      → IsSound w Known p.db p.store
      → IsRead w image b
      → IsDue w image p.db p.store b s
      → (q : Progress S) × ((k : Job) × Turn w p (record { block = b; stage = s }) q k)
  next_part p b reading due sound from free =
      let r = handle_read w.hash w.version p b (image b.idx) in
      (r.0, (record { block = b; stage = r.1 }, read_done p r.0 b (image b.idx) r.1 from.2 refl))
  next_part p b (queued new bytes) due sound from (free, is_image, is_new) =
      let (s', done) = works new bytes p.store (rw is_new refl) in
      (
        record p { store = s' },
        (record { block = b; stage = written new }, write_done p b new bytes s' done),
      )
  next_part p b (written new) due sound from (l, is_new) =
      let mine : (new.version_id == w.version.id) ≡ true =
        rw (is_new, from.0) (==_refl w.version.id) in
      let e : handle_written w.version p new ≡ ok (row_written w.version p new) =
        unfold handle_written in rw mine refl in
      (
        row_written w.version p new,
        (record { block = b; stage = finished }, row_done p (row_written w.version p new) b new e),
      )
  next_part p b finished due sound from holds = absurd (ground arith)

  -- a run that is not at its end goes on
  goes_on :
      (q : Progress S) (xs ys : List Job) (j : Job)
      → is_finished j.stage ≡ false
      → IsUnderway w image Known q (xs ++ j ∷ ys)
      → (r : Progress S) × ((ls : List Job) × Step w q (xs ++ j ∷ ys) r ls
          × IsUnderway w image Known r ls
          × (sum_of parts_left ls < sum_of parts_left (xs ++ j ∷ ys)))
  goes_on q xs ys j due u =
      let (from, reached) = All-middle (IsJob w image Known q) j xs ys u.2 in
      let (r, (k, t)) = next_part q j.block j.stage due u.0 from reached in
      let (reads, writes, less) = Turn-Counts w t in
      let st = turn q r j k xs ys t in
      (
        r,
        (
          xs ++ k ∷ ys,
          st,
          Step-IsUnderway w image Known distinctive keeps st u,
          ground (arith, sum-middle parts_left j xs ys, sum-middle parts_left k xs ys),
        ),
      )

  completes :
      (n : ℕ) (q : Progress S) (ks : List Job)
      → sum_of parts_left ks ≤ n
      → IsUnderway w image Known q ks
      → (r : Progress S) × ((ls : List Job) × Reach w q ks r ls × AreFinished ls)
  completes zero q ks le u = elim (pick_job ks) [
    | inl all ↦ (q, (ks, no_step, all))
    | inr (xs, (j, (ys, e, due))) ↦
        let (r, (ls, st, u', less)) =
          goes_on q xs ys j due (subst (IsUnderway w image Known q) e u) in
        absurd (ground arith)
  ]
  completes (suc n) q ks le u = elim (pick_job ks) [
    | inl all ↦ (q, (ks, no_step, all))
    | inr (xs, (j, (ys, e, due))) ↦
        let (r, (ls, st, u', less)) =
          goes_on q xs ys j due (subst (IsUnderway w image Known q) e u) in
        let (r', (ls', run, all)) = completes n r ls (ground arith) u' in
        (r', (ls', prepend w (rw e st) run, all))
  ]

  -- Let a backup start as in the theorem on its content, and let the storage write every block. Then
  -- no run is stuck: it has made at most three steps for each block to read, and from wherever it
  -- is it can go on until all jobs are done.
  pub backup_completes :
      (p q : Progress S) (blocks : List Block) (jobs : List Job)
      → IsSound w Known p.db p.store
      → AreToRead w image Known p blocks
      → ((i : ℕ)
          → i < blocks_count w.version
          → contains (map (λ b. b.idx) blocks) i ≡ false
          → Holds w image p.db p.store i)
      → (run : Reach w p (submitted blocks) q jobs)
      → (steps w run ≤ 3 * length blocks)
        × ((r : Progress S) × ((ls : List Job) × Reach w q jobs r ls × AreFinished ls))
  backup_completes p q blocks jobs sound reads rest run =
      let start = submitted-IsUnderway w image Known p blocks sound reads rest in
      let u = Reach-IsUnderway w image Known distinctive keeps start run in
      (
        ground (arith, steps_bound w run, parts-submitted blocks),
        completes (sum_of parts_left jobs) q jobs (omega arith) u,
      )

-- When a backup starts with no jobs counted, whatever order its jobs complete in, the counts agree
-- once all are done: `finish` raises nothing of its own, it marks the version valid, and only then
-- has its metadata written.
pub finish_when_finished :
    {S : Type 0} (w : World S) (metadata_backup : Database → S → Result S) (p q : Progress S)
    (blocks : List Block) (jobs : List Job)
    → p.done_read_jobs ≡ 0
    → p.write_jobs ≡ 0
    → p.done_write_jobs ≡ 0
    → Reach w p (submitted blocks) q jobs
    → AreFinished jobs
    → finish metadata_backup w.version (length blocks) q ≡ (
        let db = set_version q.db w.version (some VersionStatus.valid) none in
        metadata_backup db q.store >>= λ s. ok (set_stats db w.version q.stats, s))
unfolding finish
finish_when_finished w metadata_backup p q blocks jobs r0 w0 d0 run done =
    let (reads, writes) =
      Reach-Counted w (length blocks)
        (ground (arith, sum-submitted blocks), ground (arith, writes-submitted blocks)) run in
    let all_read : (length blocks == q.done_read_jobs) ≡ true =
      ground (arith, none_left reads_left refl jobs done) in
    let all_written : (q.write_jobs == q.done_write_jobs) ≡ true =
      ground (arith, none_left writes_left refl jobs done) in
    rw (all_read, all_written) refl
