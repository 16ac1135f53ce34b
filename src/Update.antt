-- ===== src/Update.antt =====
-- `Benji.update_version` of src/benji/benji.py: its checks, its locks, the prepared blocks, and what
-- its handlers do when one of these raises. The size and the block size are assigned to the
-- version's row, and reach the database with the first commit, which is that of a lock.
pub mod Handlers
pub mod Success
use be_backup.Prelude.{
  if◌then◌else◌, ◌==◌, ℕ, Bool, false, not, ◌||◌, Option, none, some, List, [], map, nat_eq,
  list_eq, option_eq,
}
use be_backup.Errors.{usage_error, internal_error, Result, ok, err, ◌>>=◌, ◌>>◌, require}
use be_backup.Uid.{Text, is_some, block_uid_eq}
use be_backup.Database.{is_valid, Block, Version, Database, blocks_count, or_else, version_blocks}
use be_backup.Versions.{get_by_uid}
use be_backup.Locking.{Owner, Lock, lock, is_locked, unlock, version_lock}
use be_backup.Clone.{clone_loop}

-- The database and its table of locks.
pub record System : Type 0 where
  pub db : Database
  pub locks : List Lock

-- The arguments of the method that say what to base the version on.
pub record Request : Type 0 where
  pub block_size : Option ℕ
  pub size : Option ℕ
  pub base_version_uid : Option Text
  pub base_version_locking : Bool

-- What the checks find: the blocks to start from, the new size and the new block size.
pub record Plan : Type 0 where
  pub old_blocks : List Block
  pub new_size : ℕ
  pub new_block_size : ℕ

unfoldable pub plan_from_base : System → Version → Request → Text → Result Plan
plan_from_base sys v req base = do
  require (req.base_version_locking || is_locked (version_lock base) sys.locks) internal_error
  old ← get_by_uid sys.db base
  require (is_valid old.status) usage_error
  require (not (is_some req.block_size) || req.block_size == some old.block_size) usage_error
  require (old.storage_id == v.storage_id) usage_error
  ok (record {
    old_blocks = version_blocks sys.db old;
    new_size = or_else req.size old.size;
    new_block_size = old.block_size;
  })

unfoldable pub plan_sparse : Option ℕ → Option ℕ → Result Plan
plan_sparse none block_size = err internal_error
plan_sparse (some n) none = err internal_error
plan_sparse (some n) (some bs) = ok (record { old_blocks = []; new_size = n; new_block_size = bs })

unfoldable pub make_plan : System → Version → Request → Result Plan
make_plan sys v req = elim req.base_version_uid [
  | none ↦ plan_sparse req.size req.block_size
  | some base ↦ plan_from_base sys v req base
]

-- the row after the assignments to its size and block size
unfoldable pub resize : Version → Database → Database
resize v db = record db {
  versions =
      map {A = Version}
        (λ w. if w.id == v.id then record w { size = v.size; block_size = v.block_size } else w)
        db.versions;
}

-- takes a lock; the transaction also writes the version's new sizes
unfoldable pub take_lock : Owner → ℕ → Version → Text → Text → System → Result System
take_lock me now v name reason sys = do
  locks ← lock me now false name reason sys.locks
  ok (record { db = resize v sys.db; locks = locks })

-- `if Locking.is_version_locked(uid): Locking.unlock_version(uid)`, then `r`
unfoldable pub unlock_if_locked {ℓ} :
    {A : Type ℓ} → Owner → Text → Result A → System → Result A × System
unlock_if_locked me name r sys =
    if is_locked name sys.locks
    then (elim (unlock me name sys.locks) [
      | ok locks ↦ (r, record sys { locks = locks })
      | err e ↦ (err e, sys)
    ])
    else (r, sys)

-- the name of the lock on the base version, if the method takes it
unfoldable pub base_lock : Request → Option Text
base_lock req = elim req.base_version_uid [
  | none ↦ none
  | some base ↦ if req.base_version_locking then some (version_lock base) else none
]

unfoldable pub take_base_lock : Owner → ℕ → Version → Request → System → Result System
take_base_lock me now v req sys = elim (base_lock req) [
  | none ↦ ok sys
  | some name ↦ take_lock me now v name [] sys
]

unfoldable pub release_base_lock {ℓ} :
    {A : Type ℓ} → Owner → Request → Result A × System → Result A × System
release_base_lock me req (r, sys) = elim (base_lock req) [
  | none ↦ (r, sys)
  | some name ↦ unlock_if_locked me name r sys
]

-- the blocks, once both locks are held: a failure undoes what was not yet committed
unfoldable pub write_clones : Version → Plan → ℕ → System → Result Version × System
write_clones v plan work_package sys =
    elim (clone_loop sys.db v work_package plan.old_blocks 0 (blocks_count v) []) [
      | ok db ↦ (ok v, record sys { db = db })
      | err e ↦ (err e, sys)
    ]

-- except: unlock the version if it is locked, and raise again
unfoldable pub on_error : Owner → Version → Result Version × System → Result Version × System
on_error me v (ok w, sys) = (ok w, sys)
on_error me v (err e, sys) = unlock_if_locked me (version_lock v.uid) (err e) sys

-- the body of the `try` once the base version is locked, if it is to be
unfoldable pub prepare_locked : Owner → ℕ → ℕ → Version → Plan → System → Result Version × System
prepare_locked me now work_package v plan sys =
    elim (take_lock me now v (version_lock v.uid) [] sys) [
      | err e ↦ (err e, sys)
      | ok sys2 ↦ write_clones v plan work_package sys2
    ]

-- the body of the `try`
unfoldable pub prepare : Owner → ℕ → ℕ → Version → Plan → Request → System → Result Version × System
prepare me now work_package v plan req sys = elim (take_base_lock me now v req sys) [
  | err e ↦ (err e, sys)
  | ok sys1 ↦ prepare_locked me now work_package v plan sys1
]

unfoldable pub update_version : Owner → ℕ → ℕ → Version → Request → System → Result Version × System
update_version me now work_package v req sys = elim (make_plan sys v req) [
  | err e ↦ (err e, sys)
  | ok plan ↦
      let w : Version = record v { size = plan.new_size; block_size = plan.new_block_size } in
      release_base_lock me req (on_error me w (prepare me now work_package w plan req sys))
]
