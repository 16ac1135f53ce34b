-- ===== src/Scrub/Outcomes.antt =====
-- What a deep scrub of src/benji/benji.py under its lock answers, and what it leaves.
use be_backup.Prelude.{
  if◌then◌else◌, Bool-cases, Option-cases, ◌==◌, range, All, Has, find_first-Has, All-of-Has,
  Has-map, ℕ, ◌≡◌, refl, sym, ap, subst, ◌∙◌, inl, inr, Bool, true, false, ◌&&◌, Option, none, some,
  List, [], ◌∷◌, arith, nat_eq, list_eq,
}
use be_backup.Errors.{scrubbing_error, Result, err, ok}
use be_backup.Uid.{Text, sparse_block_uid, is_set}
use be_backup.Database.{
  VersionStatus, invalid, is_deep_scrubbable, Block, Version, Database, blocks_count, has_key,
  find_row, create_sparse_block, get_block_by_idx, version_blocks,
}
use be_backup.Database.Rows.{IsKeyed}
use be_backup.Database.Slices.{version_blocks-get_block_by_idx}
use be_backup.Versions.{set_version, get_by_uid}
use be_backup.Transforms.{Bytes}
use be_backup.Storage.{Metadata}
use be_backup.History.{BitField, History}
use be_backup.Locking.{Owner, Lock, version_lock}
use be_backup.Locking.Table.{HasKeys, holder}
use be_backup.Locking.Free.{with_lock_free}
use be_backup.Restore.Writes.{IsReordering}
use be_backup.Scrub.{
  scrub_prepare, ScrubState, deep_verdict, deep_checks, deep_scrub_version, locked_scrub,
}
use be_backup.Scrub.Marks.{HasRow, AllStatus}
use be_backup.Scrub.Turns.{IsReadableSource, Answers}
use be_backup.Scrub.Selection.{scrub_prepare-Has}
use be_backup.Scrub.Verdicts.{IsChecked, all_right, all_intact, deep_loop_lem}

-- a block of the version that has data has a row
pub get_block-HasRow :
    (db : Database) (v : Version) (i : ℕ)
    → is_set (get_block_by_idx db v i).uid ≡ true
    → HasRow v db (get_block_by_idx db v i).uid
unfolding get_block_by_idx create_sparse_block find_row
get_block-HasRow db v i set = elim (Option-cases (find_row v.id i db.blocks)) [
  | inl absent ↦ absurd (let no : is_set sparse_block_uid ≡ true = rw absent at set in ground arith)
  | inr (r, present) ↦
      let (m, q) = find_first-Has (has_key v.id i) db.blocks r present in
      rw present (r, m, ground arith, refl)
]

-- the version's row after the status is set
set_version-AllStatus :
    (db : Database) (v : Version) (s : VersionStatus)
    → AllStatus v s (set_version db v (some s) none)
unfolding set_version
set_version-AllStatus db v s w' m own = let (w, h, e) = Has-map _ w' db.versions m in ground arith

pub locked_scrub_lem :
    (me : Owner) (now : ℕ) (uid reason : Text) (outcome : Result (Unit {0}) × Database)
    (db : Database) (locks : List Lock)
    → HasKeys locks
    → holder (version_lock uid) locks ≡ none
    → (after : List Lock) × (locked_scrub me now uid reason outcome db locks ≡ (outcome, after))
      × ((n : Text) → holder n after ≡ holder n locks)
unfolding locked_scrub
locked_scrub_lem me now uid reason outcome db locks keys free =
    let (after, e, k, same) =
      with_lock_free me now false (version_lock uid) reason locks keys free (ok outcome) in
    let answer : Result (Result (Unit {0}) × Database) × List Lock
        → (Result (Unit {0}) × Database) × List Lock =
      λ x. elim x.0 [ err e ↦ ((err e, db), x.1) | ok o ↦ (o, x.1) ] in
    (after, ap answer e, same)

module _ (hash : Bytes → Text) (read : Block → Result (Bytes × Metadata))
    (open_source : Version → Result (Option (Block → Result Bytes))) {F : Type 0}
    (field : BitField F) (order : List Block → List Block) (dice : ℕ → ℕ) (percentage : ℕ)
    (v : Version) (db : Database) (history : Option (History field)) where
  -- the blocks in the order in which their reads are completed
  abbrev pub checked : List Block
  checked = order (scrub_prepare field dice percentage v history 0 (version_blocks db v))

  -- what is asked of the storage and the source, for the blocks that have data
  abbrev pub AnswersAll : Option (Block → Result Bytes) → Type 0
  AnswersAll source =
      (b : Block)
      → Has b (version_blocks db v)
      → is_set b.uid ≡ true
      → Answers hash read b × IsReadableSource source b

  checked-IsChecked :
      (source : Option (Block → Result Bytes))
      → IsKeyed db.blocks
      → IsReordering order
      → AnswersAll source
      → All (IsChecked hash read source v db) checked
  checked-IsChecked source keyed reordering answers =
      let prepared = scrub_prepare field dice percentage v history 0 (version_blocks db v) in
      All-of-Has (IsChecked hash read source v db) checked (λ b m.
        let (h, t) =
          (scrub_prepare-Has field dice v history percentage 0 b (version_blocks db v)).0
            ((reordering b prepared).0 m) in
        let (a, r) = answers b h (ground arith) in
        let (i, n, e) =
          Has-map (get_block_by_idx db v) b (range 0 (blocks_count v))
            (rw (version_blocks-get_block_by_idx db v keyed) at h) in
        (ground arith, rw (← e) (get_block-HasRow db v i (rw e (ground arith))), a, r))

  deep_verdict_lem :
      (st : ScrubState field) (good : Bool)
      → st.good ≡ good
      → (deep_verdict field percentage v st).0 ≡ (if good then ok tt else err scrubbing_error)
        × ((good && percentage == 100) ≡ false → (deep_verdict field percentage v st).1 ≡ st.db)
        × (good ≡ true
            → percentage ≡ 100
            → AllStatus v VersionStatus.valid (deep_verdict field percentage v st).1)
  unfolding deep_verdict
  deep_verdict_lem st good e = elim (Bool-cases good) [
    | inl t ↦ (
      rw (deep_verdict, e, t) refl,
      λ f.
          let part : (percentage == 100) ≡ false = ground arith in
          rw (deep_verdict, e, t, part) refl,
      λ u full.
          let p : (percentage == 100) ≡ true = ground arith in
          rw (deep_verdict, e, t, p) (set_version-AllStatus st.db v VersionStatus.valid),
    )
    | inr f ↦ (
      rw (deep_verdict, e, f) refl,
      λ g. rw (deep_verdict, e, f) refl,
      λ u full. absurd (ground arith),
    )
  ]

  -- what the scrub leaves, and its answer
  abbrev pub IsVerdict : Option (Block → Result Bytes) → Result (Unit {0}) × Database → Type 0
  IsVerdict source (r, db') =
      let right = all_right hash read source checked in
      let intact = all_intact hash read source checked in
      (r ≡ (if right then ok tt else err scrubbing_error))
      × (intact ≡ false → AllStatus v invalid db')
      × (intact ≡ true → (right && percentage == 100) ≡ false → db'.versions ≡ db.versions)
      × (right ≡ true → percentage ≡ 100 → AllStatus v VersionStatus.valid db')

  right-intact :
      (source : Option (Block → Result Bytes)) (bs : List Block)
      → all_intact hash read source bs ≡ false
      → all_right hash read source bs ≡ false
  right-intact source [] f = absurd (ground arith)
  right-intact source (b ∷ bs) f = ground (arith, right-intact source bs)

  deep_checks_lem :
      (source : Option (Block → Result Bytes))
      → open_source v ≡ ok source
      → IsKeyed db.blocks
      → IsReordering order
      → AnswersAll source
      → IsVerdict source
          (deep_checks field hash open_source read order dice percentage v db history)
  unfolding deep_checks
  deep_checks_lem source opened keyed reordering answers =
      let st : ScrubState field = record {
        db = db;
        good = true;
        source_mismatch = false;
        affected = [];
        history = history;
      } in
      let (st', run, g, kept, gone) =
        deep_loop_lem hash read source field v st checked
          (checked-IsChecked source keyed reordering answers) in
      let right = all_right hash read source checked in
      let (r, same, done) = deep_verdict_lem st' right g in
      let answer : Result (Unit {0}) × ScrubState field → Result (Unit {0}) × Database =
        λ x. elim x.0 [ err e ↦ (err e, x.1.db) | ok u ↦ deep_verdict field percentage v x.1 ] in
      rw (deep_checks, opened)
        (subst (λ x. IsVerdict source (answer x)) (sym run)
          (
            r,
            λ f. rw (same (ground (arith, right-intact source checked f))) (gone (inl f)),
            λ t part. ap (λ d. d.versions) (same part) ∙ kept t,
            done,
          ))

  -- Let the version be in the database and not incomplete, its lock be free and no two locks or
  -- rows have one key; let the source open if there is one, and for each block of the version that
  -- has data, let the storage answer with data or with the exception for an invalid block, and let
  -- the source be readable. Then a deep scrub returns exactly if every block that it checks is
  -- there, fits its metadata, has its checksum and is the same in the source; otherwise it raises a
  -- scrubbing error. If a checked block is not there, or does not fit its metadata or its checksum,
  -- the version is invalid afterwards. If all are intact, no version's row is changed, unless the
  -- scrub is of all blocks and finds them right: then the version is valid afterwards. Either way,
  -- every lock has afterwards the holder that it had.
  pub deep_scrub_outcomes :
      (me : Owner) (now : ℕ) (uid reason : Text) (locks : List Lock)
      (source : Option (Block → Result Bytes))
      → HasKeys locks
      → holder (version_lock uid) locks ≡ none
      → get_by_uid db uid ≡ ok v
      → is_deep_scrubbable v.status ≡ true
      → open_source v ≡ ok source
      → IsKeyed db.blocks
      → IsReordering order
      → AnswersAll source
      → (outcome : Result (Unit {0}) × Database) × (after : List Lock) × (locked_scrub me now uid
            reason
            (deep_scrub_version field hash open_source read order dice percentage uid db history)
            db
            locks
          ≡ (outcome, after))
        × IsVerdict source outcome
        × ((n : Text) → holder n after ≡ holder n locks)
  unfolding deep_scrub_version
  deep_scrub_outcomes me now uid reason locks source keys free found scrubbable opened keyed
        reordering answers =
      let outcome = deep_checks field hash open_source read order dice percentage v db history in
      let (after, e, same) = locked_scrub_lem me now uid reason outcome db locks keys free in
      (
        outcome,
        after,
        rw (deep_scrub_version, found, scrubbable) e,
        deep_checks_lem source opened keyed reordering answers,
        same,
      )
