-- ===== src/Locking/Exclusion.antt =====
-- Mutual exclusion between the processes that use the table of locks, in every interleaving of
-- their calls. A process takes itself to hold a lock from a call of `lock` that returned until its
-- call of `unlock` or `unlock_all`. No call overrides a lock.
use be_backup.Prelude.{
  Bool-cases, Option-cases, ◌==◌, eq_of_==, option_eqb_iff, list_eqb_iff, All, filter, All-imp,
  All-filter, Has, All-Has, ℕ, ◌≡◌, inl, inr, false, not, ◌&&◌, none, some, List, [], ◌∷◌, arith,
  nat_eq, list_eq, option_eq,
}
use be_backup.Errors.{ok}
use be_backup.Uid.{Text}
use be_backup.Locking.{Owner, owner_eqb_iff, Lock, lock, unlock, unlock_all, owner_eq}
use be_backup.Locking.Table.{
  HasKeys, holder, TakenBy, lock_outcomes, FreedFrom, unlock_outcomes, unlock_all-HasKeys,
  holder-unlock_all,
}

pub record Processes : Type 0 where
  pub locks : List Lock
  pub held : List (Owner × Text)

-- One transaction of one process; a call that raises changes nothing and is no step.
pub data Step (s : Processes) : Processes → Type 0 where
  acquire :
      (p : Owner) (now : ℕ) (name reason : Text) (after : List Lock)
      → lock p now false name reason s.locks ≡ ok after
      → Step s (record { locks = after; held = (p, name) ∷ s.held })
  release :
      (p : Owner) (name : Text) (after : List Lock)
      → unlock p name s.locks ≡ ok after
      → Step s (record { locks = after; held = filter (λ h. not (h.0 == p && h.1 == name)) s.held })
  finish :
      (p : Owner)
      → Step s (record { locks = unlock_all p s.locks; held = filter (λ h. not (h.0 == p)) s.held })

pub data Reach (s : Processes) : Processes → Type 0 where
  here : Reach s s
  next : {t u : Processes} → Reach s t → Step t u → Reach s u

-- Every lock that a process takes itself to hold is in the table under its name.
pub record IsBacked (s : Processes) : Type 0 where
  pub keys : HasKeys s.locks
  pub rows : All (λ h. holder h.1 s.locks ≡ some h.0) s.held

module _ (p : Owner) (now : ℕ) (name reason : Text) (locks after : List Lock) where
  lock-ok :
      (k : HasKeys locks)
      → lock p now false name reason locks ≡ ok after
      → (holder name locks ≡ none) × TakenBy p now name reason locks k after
  lock-ok k e =
      let (again, other, free) = lock_outcomes p now name reason locks k false in
      elim (Option-cases (holder name locks)) [
        | inl none_yet ↦
            let (after', e', t) = free (λ h. ground arith) (inl none_yet) in
            let same : after' ≡ after = cc in (none_yet, rw same at t)
        | inr (o, h) ↦ elim (Bool-cases (o == p)) [
          | inl mine ↦
              let m : o ≡ p = eq_of_== o p mine in absurd (ground (arith, again (rw (← m) h)))
          | inr theirs ↦ absurd (ground (arith, other o h (λ m. ground (arith, owner_eqb_iff o p))))
        ]
      ]

module _ (p : Owner) (name : Text) (locks after : List Lock) where
  unlock-ok :
      (k : HasKeys locks)
      → unlock p name locks ≡ ok after
      → (holder name locks ≡ some p) × FreedFrom p name locks k after
  unlock-ok k e =
      let (mine, other) = unlock_outcomes p name locks k in
      elim (Bool-cases (holder name locks == some p)) [
        | inl yes_mine ↦
            let h : holder name locks ≡ some p = eq_of_== (holder name locks) (some p) yes_mine in
            let (after', e', t) = mine h in let same : after' ≡ after = cc in (h, rw same at t)
        | inr not_mine ↦ absurd (
            ground
              (arith, other (λ h. ground (arith, option_eqb_iff (holder name locks) (some p)))))
      ]

Step-IsBacked : {s t : Processes} → Step s t → IsBacked s → IsBacked t
Step-IsBacked {s} (acquire p now name reason after e) b =
    let (free, t) = lock-ok p now name reason s.locks after b.keys e in
    record {
      keys = t.0;
      rows = (
        ground (arith, t.1 name, list_eqb_iff name name),
        All-imp s.held (λ h r. ground (arith, t.1 h.1, list_eqb_iff name h.1)) b.rows,
      );
    }
Step-IsBacked {s} (release p name after e) b =
    let (mine, t) = unlock-ok p name s.locks after b.keys e in
    record {
      keys = t.0;
      rows =
          All-filter (λ h. not (h.0 == p && h.1 == name)) s.held
            (λ h r keep.
              ground
                (arith, t.1 h.1, list_eqb_iff name h.1, list_eqb_iff h.1 name, owner_eqb_iff h.0 p))
            b.rows;
    }
Step-IsBacked {s} (finish p) b = record {
  keys = unlock_all-HasKeys p s.locks b.keys;
  rows =
      All-filter (λ h. not (h.0 == p)) s.held
        (λ h r keep. ground (arith, holder-unlock_all p h.1 s.locks b.keys, owner_eqb_iff h.0 p))
        b.rows;
}

Reach-IsBacked : {s t : Processes} → IsBacked s → Reach s t → IsBacked t
Reach-IsBacked b here = b
Reach-IsBacked b (next r st) = Step-IsBacked st (Reach-IsBacked b r)

abbrev pub nobody : Processes
nobody = record { locks = []; held = [] }

-- From the empty table, after any interleaving of the processes' calls of `lock` without override,
-- `unlock` and `unlock_all`: two processes that both take themselves to hold one lock are the same
-- process.
pub mutual_exclusion :
    (s : Processes) (p q : Owner) (name : Text)
    → Reach nobody s
    → Has (p, name) s.held
    → Has (q, name) s.held
    → p ≡ q
mutual_exclusion s p q name r hp hq =
    let start : IsBacked nobody = record { keys = tt; rows = tt } in
    let b = Reach-IsBacked start r in
    let Row : Owner × Text → Type 0 = λ h. holder h.1 s.locks ≡ some h.0 in
    let ep : holder name s.locks ≡ some p = All-Has Row (p, name) s.held hp b.rows in
    let eq : holder name s.locks ≡ some q = All-Has Row (q, name) s.held hq b.rows in cc
