-- ===== src/Scrub.antt =====
-- `_scrub_prepare`, `scrub` and `deep_scrub` of src/benji/benji.py. The order in which the reads
-- are completed, the dice of a partial scrub, the storage and the source are parameters; as many
-- reads are completed as were submitted.
pub mod Marks
pub mod Turns
pub mod Selection
pub mod Choice
pub mod Verdicts
pub mod Outcomes
pub mod Shallow
pub mod Results
use be_backup.Prelude.{
  ltb, if◌then◌else◌, ◌==◌, length, contains, ℕ, ◌+◌, Bool, true, false, not, ◌&&◌, Option, none,
  some, List, [], ◌∷◌, ◌++◌, nat_eq, list_eq, option_eq,
}
use be_backup.Errors.{
  Exception, scrubbing_error, invalid_block_exception, value_error, Result, err, ok,
  is_key_or_value_error,
}
use be_backup.Uid.{Text, BlockUid, is_set, block_uid_eq}
use be_backup.Database.{
  VersionStatus, is_deep_scrubbable, is_scrubbable, Block, Version, Database, version_blocks,
}
use be_backup.Versions.{set_version, set_block_valid, get_by_uid}
use be_backup.Locking.{Owner, Lock, version_lock, with_lock}
use be_backup.Transforms.{Bytes}
use be_backup.Storage.{Metadata}
use be_backup.Storage.Operations.{check_block_metadata}
use be_backup.History.{BitField, History, add_block, seen}

abbrev pub is_invalid_block : Exception → Bool
is_invalid_block invalid_block_exception = true
is_invalid_block _ = false

module _ {F : Type 0} (field : BitField F) where
  -- history and history.seen(…)
  unfoldable pub was_seen : ℕ → BlockUid → Option (History field) → Bool
  was_seen storage_id u none = false
  was_seen storage_id u (some h) = seen field storage_id u h

  -- if history: history.add(…)
  unfoldable pub remember : ℕ → BlockUid → Option (History field) → Result (Option (History field))
  remember storage_id u none = ok none
  remember storage_id u (some h) = elim (add_block field storage_id u h) [
    | err e ↦ err e
    | ok after ↦ ok (some after)
  ]

  -- `_scrub_prepare`: the blocks whose reads are submitted; `dice` has the number drawn for each
  unfoldable pub scrub_prepare :
      (ℕ → ℕ) → ℕ → Version → Option (History field) → ℕ → List Block → List Block
  scrub_prepare dice percentage v history i [] = []
  scrub_prepare dice percentage v history i (b ∷ bs) =
      let rest = scrub_prepare dice percentage v history (i + 1) bs in
      if not (is_set b.uid)
      then rest
      else if was_seen v.storage_id b.uid history
      then rest
      else if not (i == 0) && (ltb percentage 100 && ltb percentage (dice i))
      then rest
      else b ∷ rest

  -- what the loops over the completed reads keep
  pub record ScrubState : Type 0 where
    pub db : Database
    pub good : Bool
    pub source_mismatch : Bool
    pub affected : List Text
    pub history : Option (History field)

  -- a block is marked invalid, and the versions that have it are noted
  unfoldable pub mark_invalid : ScrubState → Block → ScrubState
  mark_invalid st b =
      let (db', uids) = set_block_valid st.db b.uid false in
      record st { db = db'; good = false; affected = st.affected ++ uids }

  -- the deep scrub does not note them when the metadata are wrong
  unfoldable pub mark_metadata : ScrubState → Block → ScrubState
  mark_metadata st b = record st { db = (set_block_valid st.db b.uid false).0; good = false }

  -- history.add at the end of a turn
  unfoldable pub note_seen : Version → ScrubState → Block → Result (Unit {0}) × ScrubState
  note_seen v st b = elim (remember v.storage_id b.uid st.history) [
    | err e ↦ (err e, st)
    | ok h ↦ (ok tt, record st { history = h })
  ]

  -- a block that passed: it is marked valid if it was not
  unfoldable pub pass_block : Version → ScrubState → Block → Result (Unit {0}) × ScrubState
  unfolding note_seen
  pass_block v st b =
      note_seen v (if b.valid then st else record st { db = (set_block_valid st.db b.uid true).0 })
        b

  -- if source: …
  unfoldable pub compare_source :
      Option (Block → Result Bytes)
      → Version
      → ScrubState
      → Block
      → Bytes
      → Result (Unit {0}) × ScrubState
  unfolding pass_block
  compare_source none v st b bytes = pass_block v st b
  compare_source (some read) v st b bytes = elim (read b) [
    | err e ↦ (err e, st)
    | ok source_bytes ↦
        if source_bytes == bytes
        then pass_block v st b
        else pass_block v (record st { good = false; source_mismatch = true }) b
  ]

  -- a turn of the loop of `deep_scrub`, with the entry that the storage completed
  unfoldable pub deep_entry :
      (Bytes → Text)
      → Option (Block → Result Bytes)
      → Version
      → ScrubState
      → Block
      → Result (Bytes × Metadata)
      → Result (Unit {0}) × ScrubState
  unfolding mark_invalid mark_metadata compare_source
  deep_entry hash source v st b (err e) =
      if is_invalid_block e then (ok tt, mark_invalid st b) else (err e, st)
  deep_entry hash source v st b (ok (bytes, m)) =
      elim (check_block_metadata b (some (length bytes)) m) [
        | err e ↦ if is_key_or_value_error e then (ok tt, mark_metadata st b) else (err e, st)
        | ok u ↦
            if some (hash bytes) == b.checksum
            then compare_source source v st b bytes
            else (ok tt, mark_invalid st b)
      ]

  unfoldable pub deep_loop :
      (Bytes → Text)
      → Option (Block → Result Bytes)
      → (Block → Result (Bytes × Metadata))
      → Version
      → ScrubState
      → List Block
      → Result (Unit {0}) × ScrubState
  deep_loop hash source read v st [] = (ok tt, st)
  deep_loop hash source read v st (b ∷ bs) =
      let (r, st') = deep_entry hash source v st b (read b) in
      let rest = deep_loop hash source read v st' bs in
      elim r [ err e ↦ (err e, st') | ok u ↦ rest ]

  -- after the loop of `deep_scrub`
  unfoldable pub deep_verdict : ℕ → Version → ScrubState → Result (Unit {0}) × Database
  deep_verdict percentage v st =
      if st.good
      then (
        ok tt,
        if percentage == 100 then set_version st.db v (some VersionStatus.valid) none else st.db,
      )
      else (err scrubbing_error, st.db)

  -- a turn of the loop of `scrub`, which reads only the metadata
  unfoldable pub scrub_entry :
      Version → ScrubState → Block → Result Metadata → Result (Unit {0}) × ScrubState
  unfolding mark_invalid note_seen
  scrub_entry v st b (err e) =
      if is_invalid_block e then (ok tt, mark_invalid st b) else (err e, st)
  scrub_entry v st b (ok m) = elim (check_block_metadata b none m) [
    | err e ↦ if is_key_or_value_error e then (ok tt, mark_invalid st b) else (err e, st)
    | ok u ↦ note_seen v st b
  ]

  unfoldable pub scrub_loop :
      (Block → Result Metadata) → Version → ScrubState → List Block → Result (Unit {0}) × ScrubState
  scrub_loop read v st [] = (ok tt, st)
  scrub_loop read v st (b ∷ bs) =
      let (r, st') = scrub_entry v st b (read b) in
      let rest = scrub_loop read v st' bs in elim r [ err e ↦ (err e, st') | ok u ↦ rest ]

  -- affected_version_uids.remove raises if the version is not among them
  unfoldable pub scrub_verdict : Version → ScrubState → Result (Unit {0}) × Database
  scrub_verdict v st =
      if st.good
      then (ok tt, st.db)
      else (err (if contains st.affected v.uid then scrubbing_error else value_error), st.db)

  -- `deep_scrub` once the version is found: the reads, the loop, the version's status. What it leaves
  -- is given whether or not it raises.
  unfoldable pub deep_checks :
      (Bytes → Text)
      → (Version → Result (Option (Block → Result Bytes)))
      → (Block → Result (Bytes × Metadata))
      → (List Block → List Block)
      → (ℕ → ℕ)
      → ℕ
      → Version
      → Database
      → Option (History field)
      → Result (Unit {0}) × Database
  unfolding deep_verdict
  deep_checks hash open_source read order dice percentage v db history = elim (open_source v) [
    | err e ↦ (err e, db)
    | ok source ↦
        let st : ScrubState = record {
          db = db;
          good = true;
          source_mismatch = false;
          affected = [];
          history = history;
        } in
        let blocks = scrub_prepare dice percentage v history 0 (version_blocks db v) in
        let (r, st') = deep_loop hash source read v st (order blocks) in
        elim r [ err e ↦ (err e, st'.db) | ok u ↦ deep_verdict percentage v st' ]
  ]

  unfoldable pub deep_scrub_version :
      (Bytes → Text)
      → (Version → Result (Option (Block → Result Bytes)))
      → (Block → Result (Bytes × Metadata))
      → (List Block → List Block)
      → (ℕ → ℕ)
      → ℕ
      → Text
      → Database
      → Option (History field)
      → Result (Unit {0}) × Database
  unfolding deep_checks
  deep_scrub_version hash open_source read order dice percentage uid db history =
      elim (get_by_uid db uid) [
        | err e ↦ (err e, db)
        | ok v ↦
            if is_deep_scrubbable v.status
            then deep_checks hash open_source read order dice percentage v db history
            else (err scrubbing_error, db)
      ]

  -- `scrub`, in the same way
  unfoldable pub scrub_checks :
      (Block → Result Metadata)
      → (List Block → List Block)
      → (ℕ → ℕ)
      → ℕ
      → Version
      → Database
      → Option (History field)
      → Result (Unit {0}) × Database
  unfolding scrub_verdict
  scrub_checks read order dice percentage v db history =
      let st : ScrubState = record {
        db = db;
        good = true;
        source_mismatch = false;
        affected = [];
        history = history;
      } in
      let blocks = scrub_prepare dice percentage v history 0 (version_blocks db v) in
      let (r, st') = scrub_loop read v st (order blocks) in
      elim r [ err e ↦ (err e, st'.db) | ok u ↦ scrub_verdict v st' ]

  unfoldable pub scrub_version :
      (Block → Result Metadata)
      → (List Block → List Block)
      → (ℕ → ℕ)
      → ℕ
      → Text
      → Database
      → Option (History field)
      → Result (Unit {0}) × Database
  unfolding scrub_checks
  scrub_version read order dice percentage uid db history = elim (get_by_uid db uid) [
    | err e ↦ (err e, db)
    | ok v ↦
        if is_scrubbable v.status
        then scrub_checks read order dice percentage v db history
        else (err scrubbing_error, db)
  ]

-- The lock round a scrub; `outcome` is what the scrub returns or raises, and what it leaves. It is
-- released when the scrub is done, whether or not that raises.
unfoldable pub locked_scrub :
    Owner
    → ℕ
    → Text
    → Text
    → Result (Unit {0}) × Database
    → Database
    → List Lock
    → (Result (Unit {0}) × Database) × List Lock
locked_scrub me now uid reason outcome db locks =
    let (r, after) =
      with_lock me now false true (version_lock uid) reason (λ l. (ok outcome, l)) locks in
    elim r [ err e ↦ ((err e, db), after) | ok o ↦ (o, after) ]
