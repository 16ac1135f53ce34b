-- ===== src/Locking/Table.antt =====
-- What a lock operation does to the table, read as a map from lock names to owners.
use be_backup.Prelude.{
  if◌then◌else◌, Bool-cases, ◌==◌, eq_of_==, option_eqb_iff, list_eqb_iff, filter, ℕ, ◌≡◌, refl,
  ◌≢◌, ◌⊎◌, inl, inr, Bool, true, false, not, ◌&&◌, Option, none, some, List, [], ◌∷◌, arith,
  nat_eq, list_eq, option_eq,
}
use be_backup.Errors.{already_locked, internal_error, ok, err}
use be_backup.Uid.{Text, is_some}
use be_backup.Locking.{
  Owner, owner_eqb_iff, Lock, find_lock, own_lock, merge_lock, lock, unlock, unlock_all, owner_eq,
}

-- The primary key of the table: no two rows with one name.
abbrev pub HasKeys : List Lock → Type 0
HasKeys [] = Unit
HasKeys (l ∷ locks) = (find_lock l.lock_name locks ≡ none) × HasKeys locks

-- the owner that the table names for a lock
unfoldable pub holder : Text → List Lock → Option Owner
unfolding find_lock
holder name locks = elim (find_lock name locks) [ none ↦ none | some l ↦ some l.owner ]

module _ (me : Owner) (name : Text) where
  own_none : (locks : List Lock) → find_lock name locks ≡ none → own_lock me name locks ≡ none
  unfolding own_lock find_lock
  own_none [] h = refl
  own_none (l ∷ locks) h = ground (arith, own_none locks)

  own-holder :
      (locks : List Lock)
      → HasKeys locks
      → is_some (own_lock me name locks) ≡ (holder name locks == some me)
  unfolding own_lock holder
  own-holder [] k = refl
  own-holder (l ∷ locks) k =
      ground (arith, own-holder locks k.1, own_none locks, list_eqb_iff l.lock_name name)

  find-filter :
      (n : Text) (locks : List Lock)
      → HasKeys locks
      → find_lock n (filter (λ l. not (l.owner == me && l.lock_name == name)) locks)
        ≡ (if name == n && holder name locks == some me then none else find_lock n locks)
  unfolding find_lock holder filter
  find-filter n [] k = ground arith
  find-filter n (l ∷ locks) k = ground (
    arith,
    find-filter n locks k.1,
    list_eqb_iff l.lock_name name,
    list_eqb_iff l.lock_name n,
    list_eqb_iff name n,
    owner_eqb_iff l.owner me,
  )

find-merge :
    (new : Lock) (n : Text) (locks : List Lock)
    → find_lock n (merge_lock new locks)
      ≡ (if new.lock_name == n then some new else find_lock n locks)
unfolding find_lock merge_lock
find-merge new n [] = refl
find-merge new n (l ∷ locks) = ground (
  arith,
  find-merge new n locks,
  list_eqb_iff l.lock_name new.lock_name,
  list_eqb_iff l.lock_name n,
  list_eqb_iff new.lock_name n,
)

filter-HasKeys :
    (me : Owner) (name : Text) (locks : List Lock)
    → HasKeys locks
    → HasKeys (filter (λ l. not (l.owner == me && l.lock_name == name)) locks)
unfolding filter
filter-HasKeys me name [] k = tt
filter-HasKeys me name (l ∷ locks) k = elim (Bool-cases (l.owner == me && l.lock_name == name)) [
  | inl here ↦ rw here (filter-HasKeys me name locks k.1)
  | inr other ↦ rw other (
    ground (arith, find-filter me name l.lock_name locks k.1, k.0),
    filter-HasKeys me name locks k.1,
  )
]

merge-HasKeys : (new : Lock) (locks : List Lock) → HasKeys locks → HasKeys (merge_lock new locks)
unfolding merge_lock find_lock
merge-HasKeys new [] k = (refl, tt)
merge-HasKeys new (l ∷ locks) k = elim (Bool-cases (l.lock_name == new.lock_name)) [
  | inl here ↦ rw here (rw (← eq_of_== l.lock_name new.lock_name here) k.0, k.1)
  | inr other ↦ rw other (
    ground (
      arith,
      find-merge new l.lock_name locks,
      k.0,
      list_eqb_iff l.lock_name new.lock_name,
      list_eqb_iff new.lock_name l.lock_name,
    ),
    merge-HasKeys new locks k.1,
  )
]

module _ (me : Owner) (now : ℕ) (name reason : Text) (locks : List Lock) (k : HasKeys locks) where
  abbrev pub fresh : Lock
  fresh = record { lock_name = name; owner = me; reason = reason; date = now }

  abbrev pub TakenBy : List Lock → Type 0
  TakenBy after =
      HasKeys after
      × ((n : Text) → holder n after ≡ (if name == n then some me else holder n locks))

  taken_new : holder name locks ≡ none → TakenBy (fresh ∷ locks)
  unfolding holder find_lock
  taken_new h = ((ground arith, k), λ n. ground arith)

  taken_merge : TakenBy (merge_lock fresh locks)
  unfolding holder
  taken_merge = (merge-HasKeys fresh locks k, λ n. ground (arith, find-merge fresh n locks))

  taken :
      (override : Bool)
      → holder name locks ≢ some me
      → (holder name locks ≡ none) ⊎ (override ≡ true)
      → (after : List Lock) × (lock me now override name reason locks ≡ ok after) × TakenBy after
  unfolding lock holder
  taken true d c = (
    merge_lock fresh locks,
    ground (arith, own-holder me name locks k, option_eqb_iff (holder name locks) (some me)),
    taken_merge,
  )
  taken false d (inl free) =
      (fresh ∷ locks, ground (arith, own-holder me name locks k), taken_new free)
  taken false d (inr never) = absurd (ground arith)

  -- In a table with at most one row for a name, `lock` refuses a second acquisition by the holder
  -- as an internal error, with or without override; it refuses a lock that another process holds as
  -- already locked, unless it overrides; and in every other case it returns a table that still has
  -- at most one row for a name, in which the caller holds the lock and every other lock has the
  -- holder that it had.
  pub lock_outcomes :
      (override : Bool)
      → (holder name locks ≡ some me → lock me now override name reason locks ≡ err internal_error)
        × ((o : Owner)
            → holder name locks ≡ some o
            → o ≢ me
            → lock me now false name reason locks ≡ err already_locked)
        × (holder name locks ≢ some me
            → (holder name locks ≡ none) ⊎ (override ≡ true)
            → (after : List Lock) × (lock me now override name reason locks ≡ ok after)
              × TakenBy after)
  unfolding lock holder
  lock_outcomes override = (
    λ h. ground (arith, own-holder me name locks k, owner_eqb_iff me me),
    λ o h d. ground (arith, own-holder me name locks k, owner_eqb_iff o me),
    λ d c. taken override d c,
  )

module _ (me : Owner) (name : Text) (locks : List Lock) (k : HasKeys locks) where
  abbrev pub FreedFrom : List Lock → Type 0
  FreedFrom after =
      HasKeys after × ((n : Text) → holder n after ≡ (if name == n then none else holder n locks))

  freed :
      holder name locks ≡ some me
      → FreedFrom (filter (λ l. not (l.owner == me && l.lock_name == name)) locks)
  unfolding holder
  freed h = (
    filter-HasKeys me name locks k,
    λ n.
        ground (arith, find-filter me name n locks k, option_eqb_iff (holder name locks) (some me)),
  )

  -- In a table with at most one row for a name, `unlock` by the holder returns a table that still
  -- has at most one row for a name, in which the lock is free and every other lock has the holder
  -- that it had; by anyone else it is refused as an internal error.
  pub unlock_outcomes :
      (holder name locks ≡ some me
        → (after : List Lock) × (unlock me name locks ≡ ok after) × FreedFrom after)
      × (holder name locks ≢ some me → unlock me name locks ≡ err internal_error)
  unfolding unlock
  unlock_outcomes = (
    λ h. (
      filter (λ l. not (l.owner == me && l.lock_name == name)) locks,
      ground (arith, own-holder me name locks k, option_eqb_iff (holder name locks) (some me)),
      freed h,
    ),
    λ h. ground (arith, own-holder me name locks k, option_eqb_iff (holder name locks) (some me)),
  )

module _ (me : Owner) where
  find-unlock_all :
      (n : Text) (locks : List Lock)
      → HasKeys locks
      → find_lock n (unlock_all me locks)
        ≡ (if holder n locks == some me then none else find_lock n locks)
  unfolding find_lock unlock_all holder filter
  find-unlock_all n [] k = ground arith
  find-unlock_all n (l ∷ locks) k =
      ground
        (arith, find-unlock_all n locks k.1, list_eqb_iff l.lock_name n, owner_eqb_iff l.owner me)

  pub unlock_all-HasKeys : (locks : List Lock) → HasKeys locks → HasKeys (unlock_all me locks)
  unfolding unlock_all filter
  unlock_all-HasKeys [] k = tt
  unlock_all-HasKeys (l ∷ locks) k = elim (Bool-cases (l.owner == me)) [
    | inl mine ↦ rw mine (unlock_all-HasKeys locks k.1)
    | inr other ↦
        rw other
          (ground (arith, find-unlock_all l.lock_name locks k.1, k.0), unlock_all-HasKeys locks k.1)
  ]

  pub holder-unlock_all :
      (n : Text) (locks : List Lock)
      → HasKeys locks
      → holder n (unlock_all me locks)
        ≡ (if holder n locks == some me then none else holder n locks)
  unfolding holder
  holder-unlock_all n locks k = ground (arith, find-unlock_all n locks k)
