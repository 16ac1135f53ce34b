-- ===== src/Scrub/Results.antt =====
-- What a scrub of the metadata in src/benji/benji.py under its lock answers, and what it leaves.
use be_backup.Prelude.{
  if◌then◌else◌, Bool-cases, ◌==◌, range, All, contains, Has, find_first-Has, All-of-Has, Has-map,
  ℕ, ◌≡◌, refl, sym, subst, inl, inr, Bool, true, false, Option, none, List, [], arith, nat_eq,
  list_eq,
}
use be_backup.Errors.{scrubbing_error, Result, err, ok}
use be_backup.Uid.{Text, is_set, block_uid_eq}
use be_backup.Database.{
  invalid, is_scrubbable, Block, Version, Database, blocks_count, get_block_by_idx, version_blocks,
}
use be_backup.Database.Rows.{IsKeyed}
use be_backup.Database.Slices.{version_blocks-get_block_by_idx}
use be_backup.Storage.{Metadata}
use be_backup.History.{BitField, History}
use be_backup.Versions.{get_by_uid}
use be_backup.Locking.{Owner, Lock, version_lock}
use be_backup.Locking.Table.{HasKeys, holder}
use be_backup.Restore.Writes.{IsReordering}
use be_backup.Remove.Protected.{get_by_uid_cases}
use be_backup.Scrub.{
  scrub_prepare, ScrubState, scrub_verdict, scrub_checks, scrub_version, locked_scrub,
}
use be_backup.Scrub.Marks.{AllStatus}
use be_backup.Scrub.Selection.{scrub_prepare-Has}
use be_backup.Scrub.Outcomes.{get_block-HasRow, locked_scrub_lem}
use be_backup.Scrub.Shallow.{IsListed, all_fit, MetadataAnswers, IsScrubbed, scrub_loop_lem}

module _ (read : Block → Result Metadata) {F : Type 0} (field : BitField F)
    (order : List Block → List Block) (dice : ℕ → ℕ) (percentage : ℕ) (v : Version) (db : Database)
    (history : Option (History field)) where
  -- the blocks in the order in which their reads are completed
  abbrev pub scrubbed_blocks : List Block
  scrubbed_blocks = order (scrub_prepare field dice percentage v history 0 (version_blocks db v))

  abbrev pub AnswersMetadata : Type 0
  AnswersMetadata =
      (b : Block) → Has b (version_blocks db v) → is_set b.uid ≡ true → MetadataAnswers read b

  blocks-IsScrubbed :
      IsKeyed db.blocks
      → IsReordering order
      → AnswersMetadata
      → All (IsScrubbed read v db) scrubbed_blocks
  blocks-IsScrubbed keyed reordering answers =
      let prepared = scrub_prepare field dice percentage v history 0 (version_blocks db v) in
      All-of-Has (IsScrubbed read v db) scrubbed_blocks (λ b m.
        let (h, t) =
          (scrub_prepare-Has field dice v history percentage 0 b (version_blocks db v)).0
            ((reordering b prepared).0 m) in
        let (i, n, e) =
          Has-map (get_block_by_idx db v) b (range 0 (blocks_count v))
            (rw (version_blocks-get_block_by_idx db v keyed) at h) in
        (
          ground arith,
          rw (← e) (get_block-HasRow db v i (rw e (ground arith))),
          answers b h (ground arith),
        ))

  abbrev pub IsShallowVerdict : Result (Unit {0}) × Database → Type 0
  IsShallowVerdict (r, db') =
      let fit = all_fit read scrubbed_blocks in
      (r ≡ (if fit then ok tt else err scrubbing_error))
      × (fit ≡ true → db' ≡ db)
      × (fit ≡ false → AllStatus v invalid db')

  scrub_verdict_lem :
      (st : ScrubState field) (fit : Bool)
      → st.good ≡ fit
      → (fit ≡ true → st.db ≡ db)
      → (fit ≡ false → AllStatus v invalid st.db × (contains st.affected v.uid ≡ true))
      → ((scrub_verdict field v st).0 ≡ (if fit then ok tt else err scrubbing_error))
        × (fit ≡ true → (scrub_verdict field v st).1 ≡ db)
        × (fit ≡ false → AllStatus v invalid (scrub_verdict field v st).1)
  unfolding scrub_verdict
  scrub_verdict_lem st fit e same gone = elim (Bool-cases fit) [
    | inl t ↦ (
      rw (scrub_verdict, e, t) refl,
      λ u. rw (scrub_verdict, e, t) (same t),
      λ u. absurd (ground arith),
    )
    | inr f ↦
        let (all, c) = gone f in
        (
          rw (scrub_verdict, e, f, c) refl,
          λ u. absurd (ground arith),
          λ u. rw (scrub_verdict, e, f) all,
        )
  ]

  scrub_checks_lem :
      IsListed v db
      → IsKeyed db.blocks
      → IsReordering order
      → AnswersMetadata
      → IsShallowVerdict (scrub_checks field read order dice percentage v db history)
  unfolding scrub_checks
  scrub_checks_lem listed keyed reordering answers =
      let st : ScrubState field = record {
        db = db;
        good = true;
        source_mismatch = false;
        affected = [];
        history = history;
      } in
      let (st', run, g, kept, gone) =
        scrub_loop_lem read field v st scrubbed_blocks (blocks-IsScrubbed keyed reordering answers)
          listed in
      let answer : Result (Unit {0}) × ScrubState field → Result (Unit {0}) × Database =
        λ x. elim x.0 [ err e ↦ (err e, x.1.db) | ok u ↦ scrub_verdict field v x.1 ] in
      subst (λ x. IsShallowVerdict (answer x)) (sym run)
        (scrub_verdict_lem st' (all_fit read scrubbed_blocks) g kept (λ f. gone (inl f)))

  -- Let the version be in the database and valid, its lock be free and no two locks or rows have one
  -- key, and let the storage answer for each block of the version that has data, with metadata or
  -- with the exception for an invalid block. Then a scrub returns exactly if every block that it
  -- checks is there and fits its metadata, and has then left the database as it was; otherwise it
  -- raises a scrubbing error, and the version is invalid afterwards. Either way, every lock has
  -- afterwards the holder that it had.
  pub scrub_outcomes :
      (me : Owner) (now : ℕ) (uid reason : Text) (locks : List Lock)
      → HasKeys locks
      → holder (version_lock uid) locks ≡ none
      → get_by_uid db uid ≡ ok v
      → is_scrubbable v.status ≡ true
      → IsKeyed db.blocks
      → IsReordering order
      → AnswersMetadata
      → (outcome : Result (Unit {0}) × Database) × (after : List Lock) × (locked_scrub me now uid
            reason
            (scrub_version field read order dice percentage uid db history)
            db
            locks
          ≡ (outcome, after))
        × IsShallowVerdict outcome
        × ((n : Text) → holder n after ≡ holder n locks)
  unfolding scrub_version
  scrub_outcomes me now uid reason locks keys free found scrubbable keyed reordering answers =
      let outcome = scrub_checks field read order dice percentage v db history in
      let (after, e, same) = locked_scrub_lem me now uid reason outcome db locks keys free in
      let here =
        (find_first-Has (λ w. w.uid == uid) db.versions v (get_by_uid_cases db uid v found)).0 in
      (
        outcome,
        after,
        rw (scrub_version, found, scrubbable) e,
        scrub_checks_lem (v, here, refl, refl) keyed reordering answers,
        same,
      )
