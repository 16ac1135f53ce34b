-- ===== src/Locking.antt =====
-- `_Locking` of src/benji/database.py: locks are rows of a table whose primary key is the lock's
-- name. Each method is one transaction: it returns the new table, or raises and leaves the table.
pub mod Table
pub mod Free
pub mod Exclusion
use be_backup.Prelude.{
  if◌then◌else◌, Comparable, ◌==◌, list_eqb_iff, find_first, filter, ℕ, ◌≡◌, ◌↔◌, Bool, true, not,
  ◌&&◌, Option, List, [], ◌∷◌, arith, nat_eq, list_eq,
}
use be_backup.Errors.{already_locked, internal_error, Result, ok, err}
use be_backup.Uid.{Text, is_some}

-- A process: the host and the text of `_process_id`.
pub record Owner : Type 0 where
  pub host : Text
  pub process_id : Text

abbrev pub owner_eqb : Owner → Owner → Bool
owner_eqb a b = a.host == b.host && a.process_id == b.process_id

pub owner_eqb_iff : (a b : Owner) → (owner_eqb a b ≡ true) ↔ (a ≡ b)
owner_eqb_iff a b =
    ground (arith, list_eqb_iff a.host b.host, list_eqb_iff a.process_id b.process_id)

instance abbrev pub owner_eq : Comparable Owner
owner_eq = record { same = owner_eqb; same_iff = owner_eqb_iff }

pub record Lock : Type 0 where
  pub lock_name : Text
  pub owner : Owner
  pub reason : Text
  pub date : ℕ

-- the row with a name; at most one, by the primary key
unfoldable pub find_lock : Text → List Lock → Option Lock
find_lock name locks = find_first (λ l. l.lock_name == name) locks

-- Lock.host == host, Lock.lock_name == name, Lock.process_id == process_id
unfoldable pub own_lock : Owner → Text → List Lock → Option Lock
own_lock me name locks = find_first (λ l. l.owner == me && l.lock_name == name) locks

-- Session.merge: overwrites the row with the same primary key, or adds one
unfoldable pub merge_lock : Lock → List Lock → List Lock
merge_lock new [] = new ∷ []
merge_lock new (l ∷ locks) =
    let rest = merge_lock new locks in
    if l.lock_name == new.lock_name then new ∷ locks else l ∷ rest

unfoldable pub lock : Owner → ℕ → Bool → Text → Text → List Lock → Result (List Lock)
lock me now override name reason locks =
    let new : Lock = record { lock_name = name; owner = me; reason = reason; date = now } in
    if is_some (own_lock me name locks)
    then err internal_error
    else if override
    then ok (merge_lock new locks)
    else if is_some (find_lock name locks)
    then err already_locked
    else ok (new ∷ locks)

unfoldable pub is_locked : Text → List Lock → Bool
is_locked name locks = is_some (find_lock name locks)

-- an assignment to the row's reason
unfoldable pub set_reason : Owner → Text → Text → List Lock → List Lock
set_reason me name reason [] = []
set_reason me name reason (l ∷ locks) =
    let rest = set_reason me name reason locks in
    if l.owner == me && l.lock_name == name then (record l { reason = reason }) ∷ rest else l ∷ rest

unfoldable pub update_lock : Owner → Text → Text → List Lock → Result (List Lock)
update_lock me name reason locks =
    if is_some (own_lock me name locks)
    then ok (set_reason me name reason locks)
    else err internal_error

unfoldable pub unlock : Owner → Text → List Lock → Result (List Lock)
unlock me name locks =
    if is_some (own_lock me name locks)
    then ok (filter (λ l. not (l.owner == me && l.lock_name == name)) locks)
    else err internal_error

unfoldable pub unlock_all : Owner → List Lock → List Lock
unlock_all me locks = filter (λ l. not (l.owner == me)) locks

-- 'Version {}'
abbrev pub version_lock : Text → Text
version_lock uid = b'V' ∷ b'e' ∷ b'r' ∷ b's' ∷ b'i' ∷ b'o' ∷ b'n' ∷ b' ' ∷ uid

-- `with_lock` round a body that takes the table and returns it, whether or not it raises. The lock
-- is released after the body, on either way out, unless `release` is false and the body returns.
unfoldable pub with_lock {ℓ} :
    {A : Type ℓ}
    → Owner
    → ℕ
    → Bool
    → Bool
    → Text
    → Text
    → (List Lock → Result A × List Lock)
    → List Lock
    → Result A × List Lock
with_lock me now override release name reason body locks =
    elim (lock me now override name reason locks) [
      | err e ↦ (err e, locks)
      | ok locked ↦
          let (r, after) = body locked in
          let undone = unlock me name after in
          elim r [
            | err e ↦ elim undone [ ok l ↦ (err e, l) | err e' ↦ (err e', after) ]
            | ok a ↦
                if release
                then (elim undone [ ok l ↦ (ok a, l) | err e' ↦ (err e', after) ])
                else (ok a, after)
          ]
    ]
