-- ===== src/Tests/Locks.antt =====
-- Tests of the locks and of the preparation of a version under them.
use be_backup.Prelude.{
  list_eqb, list_eqb_iff, ◌≡◌, refl, ap, ◌∙◌, ◌≢◌, inl, true, false, none, some, List, [], ◌∷◌,
  arith, nat_eq, list_eq, option_eq,
}
use be_backup.Errors.{Exception, internal_error, err, ok}
use be_backup.Uid.{Text, block_uid_eq}
use be_backup.Database.{Database, or_else, version_blocks}
use be_backup.Locking.{
  owner_eqb_iff, Lock, find_lock, own_lock, merge_lock, lock, version_lock, owner_eq,
}
use be_backup.Locking.Table.{HasKeys, holder}
use be_backup.Locking.Exclusion.{Processes, acquire, Reach, here, next, nobody, mutual_exclusion}
use be_backup.Update.{
  System, Request, Plan, plan_from_base, make_plan, resize, base_lock, update_version,
}
use be_backup.Update.Handlers.{planned, update_version_base_locked}
use be_backup.Update.Success.{Held, cloned, update_version_outcomes}
use be_backup.Tests.Data.{version_a, version_b, archive, process_1, process_2}

abbrev lock_1 : Lock
lock_1 = record { lock_name = b'x' ∷ []; owner = process_1; reason = []; date = 0 }

HasKeys-lock_1 : HasKeys (lock_1 ∷ [])
unfolding find_lock
HasKeys-lock_1 = (refl, tt)

abbrev taken : Processes
taken = record { locks = lock_1 ∷ []; held = (process_1, b'x' ∷ []) ∷ [] }

taken_reached : Reach nobody taken
unfolding lock be_backup.Locking.own_lock be_backup.Locking.find_lock be_backup.Locking.merge_lock
taken_reached = next here (acquire process_1 0 (b'x' ∷ []) [] (lock_1 ∷ []) refl)

mutual_exclusion_example : process_1 ≡ process_1
mutual_exclusion_example =
    mutual_exclusion taken process_1 process_1 (b'x' ∷ []) taken_reached (inl refl) (inl refl)

abbrev base_name : Text
base_name = version_lock (b'a' ∷ [])

abbrev base_locked : System
base_locked = record {
  db = archive;
  locks = record { lock_name = base_name; owner = process_2; reason = []; date = 0 } ∷ [];
}

HasKeys-base_locked : HasKeys base_locked.locks
unfolding find_lock
HasKeys-base_locked = (refl, tt)

base_held : holder base_name base_locked.locks ≡ some process_2
unfolding holder find_lock be_backup.Prelude.list_eqb
base_held = refl

version_b_free : holder (version_lock version_b.uid) base_locked.locks ≢ some process_1
unfolding holder find_lock be_backup.Prelude.list_eqb
version_b_free e = absurd (ground arith)

abbrev no_locks : System
no_locks = record { db = archive; locks = [] }

abbrev request : Request
request = record {
  block_size = none;
  size = some 6;
  base_version_uid = some (b'a' ∷ []);
  base_version_locking = true;
}

abbrev plan_a : Plan
plan_a = record { old_blocks = version_blocks archive version_a; new_size = 6; new_block_size = 4 }

plan_made :
    (locks : List Lock)
    → make_plan (record { db = archive; locks = locks }) version_b request ≡ ok plan_a
unfolding make_plan plan_from_base be_backup.Versions.get_by_uid be_backup.Prelude.list_eqb
plan_made locks = refl

others_differ : process_2 ≢ process_1
unfolding be_backup.Prelude.list_eqb
others_differ e =
    let same : false ≡ true = (owner_eqb_iff process_2 process_1).1 e in absurd (ground arith)

update_version_base_locked_example :
    update_version process_1 0 2 version_b request base_locked ≡ (err internal_error, base_locked)
update_version_base_locked_example =
    update_version_base_locked process_1 0 2 version_b request base_locked plan_a (b'a' ∷ [])
      process_2 HasKeys-base_locked (plan_made base_locked.locks) refl refl base_held others_differ
      version_b_free

injective : {A : Type 0} {a b : A} → some a ≡ some b → a ≡ b
injective {a = a} e = ap (λ o. or_else o a) e

base_differs : base_name ≢ version_lock version_b.uid
unfolding be_backup.Prelude.list_eqb
base_differs e =
    let same : false ≡ true = (list_eqb_iff base_name (version_lock version_b.uid)).1 e in
    absurd (ground arith)

base_free :
    (name : Text)
    → base_lock request ≡ some name
    → (holder name no_locks.locks ≡ none) × (name ≢ version_lock version_b.uid)
unfolding base_lock holder find_lock be_backup.Prelude.list_eqb
base_free name e = (refl, λ same. base_differs (injective e ∙ same))

update_version_outcomes_example :
    ((db' : Database)
      → cloned 2 (planned version_b plan_a) plan_a no_locks ≡ ok db'
      → (l : List Lock) × (update_version process_1 0 2 version_b request no_locks
          ≡ (ok (planned version_b plan_a), record { db = db'; locks = l }))
        × Held process_1 true (version_lock version_b.uid) no_locks.locks l)
    × ((x : Exception)
        → cloned 2 (planned version_b plan_a) plan_a no_locks ≡ err x
        → (l : List Lock) × (update_version process_1 0 2 version_b request no_locks
            ≡ (err x, record { db = resize (planned version_b plan_a) no_locks.db; locks = l }))
          × Held process_1 false (version_lock version_b.uid) no_locks.locks l)
unfolding holder find_lock
update_version_outcomes_example =
    update_version_outcomes process_1 0 2 version_b request no_locks plan_a tt (plan_made []) refl
      base_free
