-- ===== src/Locking/Free.antt =====
-- The locks after a round under one of them, of src/benji/database.py.
use be_backup.Prelude.{
  if◌then◌else◌, Bool-cases, ◌==◌, ==_refl, eq_of_==, ℕ, ◌≡◌, sym, ap, ◌∙◌, inl, inr, Bool, true,
  none, some, List, arith, nat_eq, list_eq, option_eq,
}
use be_backup.Errors.{Result}
use be_backup.Uid.{Text}
use be_backup.Clone.Packages.{Result-cases}
use be_backup.Locking.{Owner, Lock, with_lock}
use be_backup.Locking.Table.{HasKeys, holder, lock_outcomes, unlock_outcomes}

module _ (me : Owner) (now : ℕ) (override : Bool) (name reason : Text) (locks : List Lock)
    (k : HasKeys locks) (free : holder name locks ≡ none) where
  given_back :
      (n : Text) (freed taken : List Lock)
      → holder n freed ≡ (if name == n then none else holder n taken)
      → holder n taken ≡ (if name == n then some me else holder n locks)
      → holder n freed ≡ holder n locks
  given_back n freed taken h2 h1 = elim (Bool-cases (name == n)) [
    | inl t ↦
        let here : name ≡ n = eq_of_== name n t in
        let gone : holder n freed ≡ none = h2 ∙ rw t in
        gone ∙ sym (ap (λ x. holder x locks) (sym here) ∙ free)
    | inr f ↦ h2 ∙ (rw f (h1 ∙ rw f))
  ]

  -- a body that leaves the locks alone, under a lock that is free
  pub with_lock_free :
      {A : Type 0} (r : Result A)
      → (after : List Lock) × (with_lock me now override true name reason (λ l. (r, l)) locks
          ≡ (r, after))
        × HasKeys after
        × ((n : Text) → holder n after ≡ holder n locks)
  unfolding with_lock
  with_lock_free r =
      let (again, other, take_it) = lock_outcomes me now name reason locks k override in
      let (taken, t, (k1, h1)) = take_it (λ e. ground arith) (inl free) in
      let mine : holder name taken ≡ some me = rw (h1, ==_refl name) in
      let (freed, u, (k2, h2)) = (unlock_outcomes me name taken k1).0 mine in
      (
        freed,
        elim (Result-cases r) [
          | inl (a, e) ↦ rw (t, with_lock, e, u)
          | inr (x, e) ↦ rw (t, with_lock, e, u)
        ],
        k2,
        λ n. given_back n freed taken (h2 n) (h1 n),
      )
