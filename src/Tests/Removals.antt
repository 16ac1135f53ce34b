-- ===== src/Tests/Removals.antt =====
-- Tests of the removal of a version and of the cleanup.
use be_backup.Prelude.{
  if◌then◌else◌, ◌==◌, any, filter, Has, ℕ, ◌≡◌, refl, ◌≢◌, ◌↔◌, inl, true, false, none, List, [],
  ◌∷◌, nat_eq, list_eq, option_eq,
}
use be_backup.Uid.{BlockUid, block_uid, is_set, block_uid_eq}
use be_backup.Database.{Block, Version, DeletedBlock, find_row}
use be_backup.Versions.{remove_version}
use be_backup.Versions.Removal.{remove_version_rows}
use be_backup.Cleanup.{Scope, is_selected, is_referenced, cleanup}
use be_backup.Cleanup.Ends.{is_due}
use be_backup.Cleanup.Survivors.{cleanup_keeps, cleanup_removes, cleanup_ends}
use be_backup.Tests.Data.{version_a, archive}

remove_version_rows_example :
    ((w : Version)
      → Has w (remove_version archive version_a 3 100).0.versions
        ↔ (Has w archive.versions × (w.id ≢ version_a.id)))
    × ((w j : ℕ)
        → find_row w j (remove_version archive version_a 3 100).0.blocks
          ≡ (if w == version_a.id then none else find_row w j archive.blocks))
    × ((b : Block)
        → Has b archive.blocks
        → b.version_id ≡ version_a.id
        → is_set b.uid ≡ true
        → (d : DeletedBlock) × Has d (remove_version archive version_a 3 100).0.deleted_blocks
          × (d.uid ≡ b.uid)
          × (d.storage_id ≡ version_a.storage_id)
          × (d.date ≡ 100))
    × ((d : DeletedBlock)
        → Has d archive.deleted_blocks
        → Has d (remove_version archive version_a 3 100).0.deleted_blocks)
remove_version_rows_example = remove_version_rows archive version_a 3 100

abbrev scope : Scope
scope = record { now = 5000; dt = 3600; storage_id = none }

abbrev objects : List (ℕ × BlockUid)
objects = (1, block_uid 1 1) ∷ (1, block_uid 1 3) ∷ (1, block_uid 9 1) ∷ []

in_use : is_referenced archive (block_uid 1 1) ≡ true
unfolding is_referenced
in_use = refl

not_in_use : is_referenced archive (block_uid 9 1) ≡ false
unfolding is_referenced
not_in_use = refl

due : any (is_due scope 1 (block_uid 9 1)) archive.deleted_blocks ≡ true
unfolding is_selected
due = refl

cleanup_keeps_example : Has (1, block_uid 1 1) (cleanup scope archive objects).1
cleanup_keeps_example =
    cleanup_keeps scope archive objects 1 (block_uid 1 1) (inl refl) (inl in_use)

cleanup_removes_example : ¬ Has (1, block_uid 9 1) (cleanup scope archive objects).1
cleanup_removes_example =
    cleanup_removes scope archive objects 1 (block_uid 9 1) (λ e. refl, (λ e. refl, tt)) not_in_use
      due

cleanup_ends_example :
    filter (is_selected scope) (cleanup scope archive objects).0.deleted_blocks ≡ []
cleanup_ends_example = cleanup_ends scope archive objects
