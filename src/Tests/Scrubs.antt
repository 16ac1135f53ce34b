-- ===== src/Tests/Scrubs.antt =====
-- A deep scrub of a version of two blocks, of which the object of the second is gone.
use be_backup.Prelude.{
  list_eqb, Has, ℕ, ◌≡◌, refl, ◌↔◌, ◌⊎◌, inl, inr, true, Option, none, some, List, [], ◌∷◌, arith,
  nat_eq, list_eq, option_eq,
}
use be_backup.Errors.{invalid_block_exception, Result, err, ok}
use be_backup.Versions.{get_by_uid}
use be_backup.Uid.{Text, BlockUid, block_uid, block_uid_eq}
use be_backup.Database.{VersionStatus, Block, Version, Database, find_row}
use be_backup.Transforms.{Bytes}
use be_backup.Storage.{Metadata}
use be_backup.Locking.{Lock}
use be_backup.Locking.Table.{holder}
use be_backup.Scrub.{scrub_prepare, deep_scrub_version, scrub_version, locked_scrub}
use be_backup.Scrub.Choice.{IsChosen, scrub_prepare-IsChosen}
use be_backup.Clone.Blocks.{Consecutive}
use be_backup.Scrub.Results.{IsShallowVerdict, scrub_outcomes}
use be_backup.Scrub.Outcomes.{IsVerdict, deep_scrub_outcomes}
use be_backup.Tests.Data.{process_1}
use be_backup.Tests.Runs.{version_c, find_object}
use be_backup.Tests.Policies.{bit_list}

abbrev version_d : Version
version_d = record version_c { status = VersionStatus.valid }

abbrev row_of : ℕ → BlockUid → Block
row_of i u = record {
  version_id = 3;
  idx = i;
  uid = u;
  checksum = some (1 ∷ 2 ∷ []);
  size = 2;
  valid = true;
}

abbrev scrubbed : Database
scrubbed = record {
  versions = version_d ∷ [];
  blocks = row_of 0 (block_uid 3 1) ∷ row_of 1 (block_uid 3 2) ∷ [];
  deleted_blocks = [];
}

abbrev answer_of : Block → Option Bytes → Result (Bytes × Metadata)
answer_of b none = err invalid_block_exception
answer_of b (some bytes) = ok (
  bytes,
  record {
    created = none;
    metadata_version = none;
    modified = none;
    object_size = none;
    metadata_size = some b.size;
    metadata_checksum = b.checksum;
    transforms = none;
    hmac = none;
  },
)

abbrev stored : Block → Result (Bytes × Metadata)
stored b = answer_of b (find_object ((block_uid 3 1, 1 ∷ 2 ∷ []) ∷ []) b.uid)

answer_of-Answers :
    (b : Block) (o : Option Bytes)
    → (answer_of b o ≡ err invalid_block_exception)
      ⊎ ((x : Bytes × Metadata) × (answer_of b o ≡ ok x))
answer_of-Answers b none = inl refl
answer_of-Answers b (some bytes) = inr (_, refl)

abbrev no_source : Option (Block → Result Bytes)
no_source = none

deep_scrub_outcomes_example :
    (outcome : Result (Unit {0}) × Database) × (after : List Lock) × (locked_scrub process_1 7
        (b'c' ∷ [])
        []
        (deep_scrub_version bit_list
          (λ bytes. bytes)
          (λ v. ok no_source)
          stored
          (λ bs. bs)
          (λ i. 50)
          100
          (b'c' ∷ [])
          scrubbed
          (some []))
        scrubbed
        []
      ≡ (outcome, after))
    × IsVerdict
        (λ bytes. bytes)
        stored
        (λ v. ok no_source)
        bit_list
        (λ bs. bs)
        (λ i. 50)
        100
        version_d
        scrubbed
        (some [])
        no_source
        outcome
    × ((n : Text) → holder n after ≡ holder n [])
unfolding holder get_by_uid list_eqb find_row
deep_scrub_outcomes_example =
    deep_scrub_outcomes (λ bytes. bytes) stored (λ v. ok no_source) bit_list (λ bs. bs) (λ i. 50)
      100 version_d scrubbed (some []) process_1 7 (b'c' ∷ []) [] [] no_source tt refl refl refl
      refl (refl, (refl, tt)) (λ x xs. (λ m. m, λ m. m))
      (λ b m set. (answer_of-Answers b _, λ f e. absurd (ground arith)))

Consecutive-scrubbed : Consecutive 0 scrubbed.blocks
Consecutive-scrubbed = (refl, (refl, tt))

-- half of the blocks, and 50 is drawn for each
scrub_prepare-IsChosen_example :
    Has
      (row_of 1 (block_uid 3 2))
      (scrub_prepare bit_list (λ i. 50) 50 version_d (some []) 0 scrubbed.blocks)
    ↔ (Has (row_of 1 (block_uid 3 2)) scrubbed.blocks
        × IsChosen bit_list (λ i. 50) 50 version_d (some []) (row_of 1 (block_uid 3 2)))
scrub_prepare-IsChosen_example =
    scrub_prepare-IsChosen bit_list (λ i. 50) 50 version_d (some []) (row_of 1 (block_uid 3 2))
      scrubbed.blocks Consecutive-scrubbed

abbrev metadata_of : Block → Result (Bytes × Metadata) → Result Metadata
metadata_of b (err e) = err e
metadata_of b (ok (bytes, m)) = ok m

abbrev stored_metadata : Block → Result Metadata
stored_metadata b = metadata_of b (stored b)

metadata_of-MetadataAnswers :
    (b : Block) (o : Option Bytes)
    → (metadata_of b (answer_of b o) ≡ err invalid_block_exception)
      ⊎ ((m : Metadata) × (metadata_of b (answer_of b o) ≡ ok m))
metadata_of-MetadataAnswers b none = inl refl
metadata_of-MetadataAnswers b (some bytes) = inr (_, refl)

scrub_outcomes_example :
    (outcome : Result (Unit {0}) × Database) × (after : List Lock) × (locked_scrub process_1 7
        (b'c' ∷ [])
        []
        (scrub_version bit_list stored_metadata
          (λ bs. bs)
          (λ i. 50)
          100
          (b'c' ∷ [])
          scrubbed
          (some []))
        scrubbed
        []
      ≡ (outcome, after))
    × IsShallowVerdict stored_metadata bit_list
        (λ bs. bs)
        (λ i. 50)
        100
        version_d
        scrubbed
        (some [])
        outcome
    × ((n : Text) → holder n after ≡ holder n [])
unfolding holder get_by_uid list_eqb find_row
scrub_outcomes_example =
    scrub_outcomes stored_metadata bit_list (λ bs. bs) (λ i. 50) 100 version_d scrubbed (some [])
      process_1 7 (b'c' ∷ []) [] [] tt refl refl refl (refl, (refl, tt)) (λ x xs. (λ m. m, λ m. m))
      (λ b m set. metadata_of-MetadataAnswers b _)
