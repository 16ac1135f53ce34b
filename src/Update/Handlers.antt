-- ===== src/Update/Handlers.antt =====
-- The locks of `update_version`, on every way out of it.
use be_backup.Prelude.{
  Option-cases, ℕ, ◌≡◌, ◌≢◌, inl, inr, true, false, none, some, List, [], arith, nat_eq, list_eq,
  option_eq,
}
use be_backup.Errors.{Exception, already_locked, internal_error, Result, ok, err}
use be_backup.Uid.{Text, is_some, block_uid_eq}
use be_backup.Database.{Version}
use be_backup.Locking.{Owner, Lock, is_locked, unlock, version_lock, owner_eq}
use be_backup.Locking.Table.{HasKeys, holder, TakenBy, lock_outcomes, FreedFrom, unlock_outcomes}
use be_backup.Update.{
  System, Request, Plan, make_plan, resize, take_lock, unlock_if_locked, base_lock, take_base_lock,
  release_base_lock, on_error, prepare, update_version,
}

module _ (me : Owner) (name : Text) (sys : System) (k : HasKeys sys.locks) where
  locked-holder : is_locked name sys.locks ≡ is_some (holder name sys.locks)
  unfolding is_locked holder
  locked-holder = ground arith

  -- the handlers' release, by the holder, by another process, and of a lock that is free
  pub release_mine :
      {A : Type 0} (r : Result A)
      → holder name sys.locks ≡ some me
      → (after : List Lock) × (unlock_if_locked me name r sys ≡ (r, record sys { locks = after }))
        × FreedFrom me name sys.locks k after
  unfolding unlock_if_locked
  release_mine r h =
      let (after, e, f) = (unlock_outcomes me name sys.locks k).0 h in
      (after, ground (arith, locked-holder), f)

  release_other :
      {A : Type 0} (r : Result A) (o : Owner)
      → holder name sys.locks ≡ some o
      → o ≢ me
      → unlock_if_locked me name r sys ≡ (err internal_error, sys)
  unfolding unlock_if_locked
  release_other r o h d =
      let e : unlock me name sys.locks ≡ err internal_error =
        (unlock_outcomes me name sys.locks k).1 (λ h'. ground arith) in
      ground (arith, locked-holder)

  pub release_free :
      {A : Type 0} (r : Result A)
      → holder name sys.locks ≡ none
      → unlock_if_locked me name r sys ≡ (r, sys)
  unfolding unlock_if_locked
  release_free r h = ground (arith, locked-holder)

  take_other :
      (now : ℕ) (v : Version) (reason : Text) (o : Owner)
      → holder name sys.locks ≡ some o
      → o ≢ me
      → take_lock me now v name reason sys ≡ err already_locked
  unfolding take_lock
  take_other now v reason o h d = rw ((lock_outcomes me now name reason sys.locks k false).1 o h d)

  pub take_free :
      (now : ℕ) (v : Version) (reason : Text)
      → holder name sys.locks ≡ none
      → (after : List Lock) × (take_lock me now v name reason sys
          ≡ ok (record { db = resize v sys.db; locks = after }))
        × TakenBy me now name reason sys.locks k after
  unfolding take_lock
  take_free now v reason h =
      let (after, e, t) =
        (lock_outcomes me now name reason sys.locks k false).2 (λ h'. ground arith) (inl h) in
      (after, rw e, t)

-- what the handler for errors leaves, when the caller does not hold the version's lock
on_error_other :
    (me : Owner) (w : Version) (sys : System) (e : Exception)
    → HasKeys sys.locks
    → holder (version_lock w.uid) sys.locks ≢ some me
    → (e' : Exception) × (on_error me w (err e, sys) ≡ (err e', sys))
unfolding on_error
on_error_other me w sys e k d = elim (Option-cases (holder (version_lock w.uid) sys.locks)) [
  | inl free ↦ (e, release_free me (version_lock w.uid) sys k (err e) free)
  | inr (o, h) ↦ (
    internal_error,
    release_other me (version_lock w.uid) sys k (err e) o h (λ m. d (rw (← m) h)),
  )
]

-- the version's row with the sizes of the plan
abbrev pub planned : Version → Plan → Version
planned v plan = record v { size = plan.new_size; block_size = plan.new_block_size }

base_lock-some :
    (req : Request) (base : Text)
    → req.base_version_uid ≡ some base
    → req.base_version_locking ≡ true
    → base_lock req ≡ some (version_lock base)
unfolding base_lock
base_lock-some req base b l = ground arith

-- When no two locks have one name, the plan is made, and another process holds the lock on the base
-- version, which is to be locked, the caller gets an internal error, and
-- not the error which says that the version is locked: the last handler releases a lock which is
-- not the caller's, and that raises. Nothing is changed. The caller does not hold the version's lock.
pub update_version_base_locked :
    (me : Owner) (now work_package : ℕ) (v : Version) (req : Request) (sys : System) (plan : Plan)
    (base : Text) (o : Owner)
    → HasKeys sys.locks
    → make_plan sys v req ≡ ok plan
    → req.base_version_uid ≡ some base
    → req.base_version_locking ≡ true
    → holder (version_lock base) sys.locks ≡ some o
    → o ≢ me
    → holder (version_lock v.uid) sys.locks ≢ some me
    → update_version me now work_package v req sys ≡ (err internal_error, sys)
unfolding update_version prepare take_base_lock release_base_lock
update_version_base_locked me now work_package v req sys plan base o k made based locking h d
      other =
    let w = planned v plan in
    let name = version_lock base in
    let bl : base_lock req ≡ some name = base_lock-some req base based locking in
    let (e', x) = on_error_other me w sys already_locked k other in
    let y : unlock_if_locked {A = Version} me name (err e') sys ≡ (err internal_error, sys) =
      release_other me name sys k (err e') o h d in
    let z : take_lock me now w name [] sys ≡ err already_locked =
      take_other me name sys k now w [] o h d in
    let p : prepare me now work_package w plan req sys ≡ (err already_locked, sys) = ground arith in
    let q : release_base_lock me req (err e', sys) ≡ (err internal_error, sys) = ground arith in
    rw (made, update_version) (rw p (rw x q))
