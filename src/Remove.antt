-- ===== src/Remove.antt =====
-- `Benji.rm` and `Benji.protect` of src/benji/benji.py. The objects of versions in the storages are
-- pairs of a storage and the UID of a version; that the object is not there is caught. Times are in
-- seconds.
pub mod Outcomes
pub mod Protected
use be_backup.Prelude.{
  ltb, leb, if◌then◌else◌, ◌==◌, filter, ℕ, ◌-◌, ◌/◌, Bool, true, not, ◌&&◌, ◌||◌, none, some, List,
  [], ◌∷◌, nat_eq, list_eq,
}
use be_backup.Errors.{permission_error, Result, ok, ◌>>=◌, ◌>>◌, require}
use be_backup.Uid.{Text}
use be_backup.Database.{is_removable, Version, Database}
use be_backup.Versions.{set_version, remove_version, get_by_uid}
use be_backup.Locking.{Owner, Lock, version_lock, with_lock}

pub record RemoveRequest : Type 0 where
  pub version_uid : Text
  pub force : Bool
  pub disallow_rm_when_younger_than_days : ℕ
  pub keep_metadata_backup : Bool
  pub override_lock : Bool

-- The integers, over the native ℕ: pos n is n, and negsuc n is - n - 1.
pub data ℤ : Type 0 where
  pos negsuc : ℕ → ℤ

-- (datetime.now() - version.created_at).days, which is rounded down: -1 for a version that is up to
-- a day ahead of the clock
unfoldable pub age_days : ℕ → Version → ℤ
age_days now v =
    if leb v.created_at now
    then pos ((now - v.created_at) / 86400)
    else negsuc ((v.created_at - now - 1) / 86400)

-- n > days
abbrev pub is_above : ℕ → ℤ → Bool
is_above n (pos days) = ltb days n
is_above n (negsuc days) = true

-- the checks, without a forced removal and with one
unfoldable pub check_removal : ℕ → RemoveRequest → Version → Result (Unit {0})
check_removal now req v = do
  require (not v.protected) permission_error
  require (req.force || not (is_above req.disallow_rm_when_younger_than_days (age_days now v)))
      permission_error
  require (req.force || is_removable v.status) permission_error

-- storage.rm_version, with the FileNotFoundError caught
unfoldable pub rm_version_object : Version → List (ℕ × Text) → List (ℕ × Text)
rm_version_object v objects = filter (λ o. not (o.0 == v.storage_id && o.1 == v.uid)) objects

-- the body under the lock; `next` is the next id of a deleted block
unfoldable pub rm_locked :
    ℕ → ℕ → RemoveRequest → Database → List (ℕ × Text) → Result (Database × List (ℕ × Text))
rm_locked now next req db objects = do
  v ← get_by_uid db req.version_uid
  check_removal now req v
  ok (
    (remove_version db v next now).0,
    if req.keep_metadata_backup then objects else rm_version_object v objects,
  )

-- `Benji.protect`
unfoldable pub protect : Database → Text → Bool → Result Database
protect db version_uid protected = do
  v ← get_by_uid db version_uid
  ok (set_version db v none (some protected))

-- 'Removing version'
abbrev pub removing_version : Text
removing_version =
    b'R' ∷ b'e' ∷ b'm' ∷ b'o' ∷ b'v' ∷ b'i' ∷ b'n' ∷ b'g' ∷ b' ' ∷ b'v' ∷ b'e' ∷ b'r' ∷ b's' ∷ b'i'
    ∷ b'o' ∷ b'n' ∷ []

unfoldable pub rm :
    Owner
    → ℕ
    → ℕ
    → RemoveRequest
    → Database
    → List (ℕ × Text)
    → List Lock
    → Result (Database × List (ℕ × Text)) × List Lock
rm me now next req db objects locks =
    with_lock me now req.override_lock true (version_lock req.version_uid) removing_version
      (λ l. (rm_locked now next req db objects, l)) locks
