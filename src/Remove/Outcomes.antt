-- ===== src/Remove/Outcomes.antt =====
-- When `rm` removes a version, and what it does to the locks.
use be_backup.Prelude.{
  leb, if◌then◌else◌, Bool-cases, ℕ, ◌+◌, ◌*◌, ◌≡◌, ap, ◌∙◌, inl, inr, Bool, not, ◌&&◌, ◌||◌, none,
  List, arith, nat_eq, list_eq, option_eq,
}
use be_backup.Errors.{permission_error, err, ok}
use be_backup.Uid.{Text}
use be_backup.Database.{is_removable, Version, Database}
use be_backup.Versions.{remove_version, get_by_uid}
use be_backup.Locking.Free.{with_lock_free}
use be_backup.Locking.{Owner, Lock, version_lock}
use be_backup.Locking.Table.{HasKeys, holder}
use be_backup.Remove.{
  RemoveRequest, age_days, is_above, check_removal, rm_version_object, rm_locked, removing_version,
  rm,
}

-- not protected, and forced or old enough and in a removable status: so many days have gone by since
-- it was created, and it was not created later than now
unfoldable pub may_remove : ℕ → RemoveRequest → Version → Bool
may_remove now req v =
    not v.protected
    && (req.force
        || leb (v.created_at + 86400 * req.disallow_rm_when_younger_than_days) now
          && is_removable v.status)

old_enough :
    (now n : ℕ) (v : Version)
    → not (is_above n (age_days now v)) ≡ leb (v.created_at + 86400 * n) now
unfolding age_days
old_enough now n v = elim (Bool-cases (leb v.created_at now)) [
  | inl t ↦ rw (age_days, t) (ground arith)
  | inr f ↦ rw (age_days, f) (ground arith)
]

check_removal_lem :
    (now : ℕ) (req : RemoveRequest) (v : Version)
    → check_removal now req v ≡ (if may_remove now req v then ok tt else err permission_error)
unfolding check_removal may_remove
check_removal_lem now req v =
    ground (arith, old_enough now req.disallow_rm_when_younger_than_days v)

rm_locked_lem :
    (now next : ℕ) (req : RemoveRequest) (db : Database) (objects : List (ℕ × Text)) (v : Version)
    → get_by_uid db req.version_uid ≡ ok v
    → rm_locked now next req db objects ≡ (
        if may_remove now req v
        then ok (
          (remove_version db v next now).0,
          if req.keep_metadata_backup then objects else rm_version_object v objects,
        )
        else err permission_error)
unfolding rm_locked
rm_locked_lem now next req db objects v found =
    rw (rm_locked, found, check_removal_lem)
      (elim (Bool-cases (may_remove now req v)) [ inl t ↦ rw t | inr f ↦ rw f ])

-- Let the version be in the database, its lock be free, and no two locks have one name. Then `rm`
-- removes it, with the object of its metadata unless that is to be kept, if it is not protected and
-- the removal is forced or the version is old enough and its status allows it; and in every other
-- case it raises a permission error. Either way, every lock has afterwards the holder that it had.
pub rm_outcomes :
    (me : Owner) (now next : ℕ) (req : RemoveRequest) (db : Database) (objects : List (ℕ × Text))
    (locks : List Lock) (v : Version)
    → HasKeys locks
    → holder (version_lock req.version_uid) locks ≡ none
    → get_by_uid db req.version_uid ≡ ok v
    → (after : List Lock) × (rm me now next req db objects locks ≡ (
      (if may_remove now req v
          then ok (
            (remove_version db v next now).0,
            if req.keep_metadata_backup then objects else rm_version_object v objects,
          )
          else err permission_error),
      after,
    ))
      × HasKeys after
      × ((n : Text) → holder n after ≡ holder n locks)
unfolding rm
rm_outcomes me now next req db objects locks v k free found =
    let (after, e, k', same) =
      with_lock_free me now req.override_lock (version_lock req.version_uid) removing_version locks
        k free (rm_locked now next req db objects) in
    (after, e ∙ ap (λ r. (r, after)) (rm_locked_lem now next req db objects v found), k', same)
