-- ===== src/Backup/Turns.antt =====
-- One step of one job of a backup keeps what the rows, the storage and the other jobs satisfy.
use be_backup.Prelude.{
  Bool-cases, Option-cases, ◌==◌, ==_refl, eq_of_==, length, All-Has, ℕ, ◌+◌, ◌≡◌, refl, sym, ap,
  subst, ◌∙◌, ◌≢◌, inl, inr, true, ◌&&◌, none, some, arith, nat_eq, list_eq, option_eq,
}
use be_backup.Errors.{ok}
use be_backup.Uid.{sparse_block_uid, block_uid, block_uid_eq}
use be_backup.Database.{is_valid, Block, Stats, create_sparse_block}
use be_backup.Versions.{set_block, get_block_by_checksum}
use be_backup.Transforms.{Bytes}
use be_backup.Backup.{
  Stage, finished, Job, Progress, zeros, new_block, store_read, handle_read, row_written,
  handle_written,
}
use be_backup.Backup.Steps.{World, Turn, read_done, write_done, row_done}
use be_backup.Backup.Rows.{get_block_by_checksum-Has}
use be_backup.Backup.Invariant.{
  content, IsFree, KeepsBlocks, IsStored, IsSound, Holds, IsDue, Keeps, row_set, block_written,
}

-- The block is one of the version's, of the size of its data, and the source gives these data.
abbrev pub IsRead : {S : Type 0} → World S → (ℕ → Bytes) → Block → Type 0
IsRead w image b =
    (b.version_id ≡ w.version.id)
    × (b.size ≡ length (image b.idx))
    × (w.source b ≡ ok (image b.idx))

-- No two of the known data have one checksum; zeros and the data of the source are known.
abbrev pub IsDistinctive : {S : Type 0} → World S → (ℕ → Bytes) → (Bytes → Type 0) → Type 0
IsDistinctive w image Known =
    ((x y : Bytes) → Known x → Known y → w.hash x ≡ w.hash y → x ≡ y)
    × Known (zeros w.version.block_size)
    × ((i : ℕ) → Known (image i))

module _ {S : Type 0} (w : World S) (image : ℕ → Bytes) (Known : Bytes → Type 0) where
  -- a step from `p` leaves the job of the block at the stage
  abbrev pub Outcome : Progress S → Block → Progress S → Stage → Type 0
  Outcome p b q t =
      IsSound w Known q.db q.store
      × IsDue w image q.db q.store b t
      × Keeps w image b.idx p.db p.store q.db q.store

  module _ (distinctive : IsDistinctive w image Known) (p : Progress S) (b : Block)
      (sound : IsSound w Known p.db p.store) (from : IsRead w image b) where
    sparse_turn :
        w.hash (image b.idx) ≡ w.hash (zeros w.version.block_size)
        → b.size ≡ w.version.block_size
        → (let db' = set_block p.db w.version b.idx sparse_block_uid none b.size true in
            IsSound w Known db' p.store
            × Holds w image db' p.store b.idx
            × Keeps w image b.idx p.db p.store db' p.store)
    sparse_turn same size =
        let is_zeros : image b.idx ≡ zeros w.version.block_size =
          distinctive.0 (image b.idx) (zeros w.version.block_size) (distinctive.2 b.idx)
            distinctive.1 same in
        let sparse : (b.size == w.version.block_size) ≡ true =
          rw size (==_refl w.version.block_size) in
        row_set w image Known p.db p.store sound b.idx sparse_block_uid none b.size
          (λ m d free e. ground arith) (λ full. absurd (ground arith))
          (rw (sparse) (
            unfold create_sparse_block content in
            (refl, sym size ∙ from.1, ap some (sym is_zeros), λ e. absurd (ground arith))))

    known_turn :
        (e : Block)
        → get_block_by_checksum p.db w.version (w.hash (image b.idx)) ≡ some e
        → e.size ≡ b.size
        → (let db' = set_block p.db w.version b.idx e.uid e.checksum e.size true in
            IsSound w Known db' p.store
            × Holds w image db' p.store b.idx
            × Keeps w image b.idx p.db p.store db' p.store)
    known_turn e found size =
        let (has, sum, is_valid, inside) =
          get_block_by_checksum-Has p.db w.version (w.hash (image b.idx)) e found in
        let stored = All-Has (IsStored w Known p.db.versions p.store) e p.db.blocks has sound.1 in
        let (set, (bytes, l, h, n, known)) = stored (w.hash (image b.idx)) sum is_valid inside in
        let is_image : bytes ≡ image b.idx =
          distinctive.0 bytes (image b.idx) known (distinctive.2 b.idx) h in
        row_set w image Known p.db p.store sound b.idx e.uid e.checksum e.size
          (λ m d free. All-Has (λ r. r.uid ≢ block_uid w.version.id (m + 1)) e p.db.blocks has free)
          (λ full c q r t. stored c q is_valid inside)
          (rw set
            (unfold content in (refl, size ∙ from.1, rw set (l ∙ ap some is_image), λ q. sum)))

    row_turn :
        (let new = new_block w.version b (w.hash (image b.idx)) in
          w.load p.store new.uid ≡ some (image b.idx)
          → (let db' = set_block p.db w.version new.idx new.uid new.checksum new.size true in
              IsSound w Known db' p.store
              × Holds w image db' p.store b.idx
              × Keeps w image b.idx p.db p.store db' p.store))
    row_turn l =
        row_set w image Known p.db p.store sound b.idx (block_uid w.version.id (b.idx + 1))
          (some (w.hash (image b.idx))) b.size (λ m d free e. ground arith)
          (λ full c q r t. (refl, (image b.idx, l, ground arith, sym from.1, distinctive.2 b.idx)))
          (unfold content in (refl, from.1, l, λ q. refl))

    read_turn :
        IsFree w p.db.blocks b.idx
        → (let (q, t) = store_read w.hash w.version p b (image b.idx) in Outcome p b q t)
    unfolding store_read
    read_turn free =
        let sum = w.hash (image b.idx) in
        elim (Bool-cases
          (sum == w.hash (zeros w.version.block_size) && b.size == w.version.block_size)) [
            | inl sparse ↦ rw sparse (
                sparse_turn (eq_of_== sum (w.hash (zeros w.version.block_size)) (ground arith))
                  (ground arith))
            | inr full ↦ elim (Option-cases (get_block_by_checksum p.db w.version sum)) [
              | inl none_known ↦ rw (full, none_known) (sound, (free, refl, refl), λ k t d due. due)
              | inr (e, found) ↦ elim (Bool-cases (e.size == b.size)) [
                | inl same ↦ rw (full, found, same) (known_turn e found (ground arith))
                | inr differs ↦
                    rw (full, found, differs) (sound, (free, refl, refl), λ k t d due. due)
              ]
            ]
          ]

  module _ (distinctive : IsDistinctive w image Known) (keeps : KeepsBlocks w) where
    handle_read_turn :
        (p : Progress S) (b : Block)
        → IsSound w Known p.db p.store
        → IsRead w image b
        → IsFree w p.db.blocks b.idx
        → (let (q, t) = handle_read w.hash w.version p b (image b.idx) in Outcome p b q t)
    unfolding handle_read
    handle_read_turn p b sound from free =
        let read_more : Stats = record p.stats {
          bytes_read = p.stats.bytes_read + length (image b.idx);
        } in
        read_turn distinctive (record p { stats = read_more }) b sound from free

    handle_written_turn :
        (p : Progress S) (b : Block)
        → IsSound w Known p.db p.store
        → IsRead w image b
        → (let new = new_block w.version b (w.hash (image b.idx)) in
            w.load p.store new.uid ≡ some (image b.idx)
            → (q : Progress S) × (handle_written w.version p new ≡ ok q) × Outcome p b q finished)
    unfolding handle_written
    handle_written_turn p b sound from l =
        let mine : (b.version_id == w.version.id) ≡ true = rw (from.0) (==_refl w.version.id) in
        (
          row_written w.version p (new_block w.version b (w.hash (image b.idx))),
          rw mine refl,
          row_turn distinctive p b sound from l,
        )

    pub Turn-Outcome :
        {p q : Progress S} {j k : Job}
        → Turn w p j q k
        → IsSound w Known p.db p.store
        → IsRead w image j.block
        → IsDue w image p.db p.store j.block j.stage
        → (k.block ≡ j.block) × Outcome p j.block q k.stage
    Turn-Outcome (read_done p q b bytes s is_bytes e) sound from free =
        let is_image : image b.idx ≡ bytes = ground arith in
        let all : handle_read w.hash w.version p b (image b.idx) ≡ (q, s) = rw is_image e in
        (refl, subst (λ r. Outcome p b r.0 r.1) all (handle_read_turn p b sound from free))
    Turn-Outcome (write_done p b new bytes store done) sound from (free, is_image, is_new) =
        let (s, l, k) =
          block_written w image Known p.db p.store sound b.idx new bytes store keeps
            (ap (λ (x : Block). x.uid) is_new) free done in
        (refl, (s, (l ∙ ap some is_image, is_new), k))
    Turn-Outcome (row_done p q b new e) sound from (l, is_new) =
        let l' = rw is_new at l in
        let (q', e', out) = handle_written_turn p b sound from l' in
        let same : q' ≡ q = ground arith in (refl, subst (λ r. Outcome p b r finished) same out)
