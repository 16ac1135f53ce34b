-- ===== src/Update/Success.antt =====
-- `update_version` when neither lock is taken: which locks are held after it, and the blocks.
use be_backup.Prelude.{
  if◌then◌else◌, Option-cases, ◌==◌, list_eqb_iff, ℕ, ◌≡◌, refl, ap, ◌∙◌, ◌≢◌, inl, inr, Bool, true,
  false, ◌&&◌, none, some, List, [], ◌∷◌, map, arith, nat_eq, list_eq, option_eq,
}
use be_backup.Errors.{Exception, Result, ok, err}
use be_backup.Uid.{Text, block_uid_eq}
use be_backup.Database.{Version, Database, blocks_count}
use be_backup.Locking.{Owner, Lock, version_lock, owner_eq}
use be_backup.Locking.Table.{HasKeys, holder}
use be_backup.Clone.{clone_loop}
use be_backup.Update.{
  System, Request, Plan, make_plan, resize, base_lock, take_base_lock, release_base_lock,
  write_clones, on_error, prepare_locked, prepare, update_version,
}
use be_backup.Update.Handlers.{release_mine, take_free, planned}

-- The locks are as before, but that `me` holds `name` if `taken`.
abbrev pub Held : Owner → Bool → Text → List Lock → List Lock → Type 0
Held me taken name before after =
    HasKeys after
    × ((n : Text) → holder n after ≡ (if taken && name == n then some me else holder n before))

resize_idem : (w : Version) (db : Database) → resize w (resize w db) ≡ resize w db
unfolding resize
resize_idem w db = ap (λ vs. record db { versions = vs }) (go db.versions)
  where
    go :
        (vs : List Version)
        → map {A = Version}
            (λ x. if x.id == w.id then record x { size = w.size; block_size = w.block_size } else x)
            (map {A = Version}
              (λ x.
                if x.id == w.id then record x { size = w.size; block_size = w.block_size } else x)
              vs)
          ≡ map {A = Version}
              (λ x.
                if x.id == w.id then record x { size = w.size; block_size = w.block_size } else x)
              vs
    go [] = refl
    go (x ∷ vs) = ground (arith, go vs)

-- the loop over the blocks, on the database that the lock's transaction leaves
abbrev pub cloned : ℕ → Version → Plan → System → Result Database
cloned work_package w plan sys =
    clone_loop (resize w sys.db) w work_package plan.old_blocks 0 (blocks_count w) []

module _ (me : Owner) (now work_package : ℕ) (w : Version) (plan : Plan) where
  module _ (sys : System) (k : HasKeys sys.locks)
      (free : holder (version_lock w.uid) sys.locks ≡ none) where
    core_ok :
        (db' : Database)
        → cloned work_package w plan sys ≡ ok db'
        → (l : List Lock) × (on_error me w (prepare_locked me now work_package w plan sys)
            ≡ (ok w, record { db = db'; locks = l }))
          × Held me true (version_lock w.uid) sys.locks l
    unfolding prepare_locked write_clones on_error
    core_ok db' e =
        let (l, t, held) = take_free me (version_lock w.uid) sys k now w [] free in
        (l, ground arith, held)

    core_err :
        (x : Exception)
        → cloned work_package w plan sys ≡ err x
        → (l : List Lock) × (on_error me w (prepare_locked me now work_package w plan sys)
            ≡ (err x, record { db = resize w sys.db; locks = l }))
          × Held me false (version_lock w.uid) sys.locks l
    unfolding prepare_locked write_clones on_error
    core_err x e =
        let (l, t, held) = take_free me (version_lock w.uid) sys k now w [] free in
        let sys2 : System = record { db = resize w sys.db; locks = l } in
        let mine : holder (version_lock w.uid) l ≡ some me = ground (
          arith,
          held.1 (version_lock w.uid),
          list_eqb_iff (version_lock w.uid) (version_lock w.uid),
        ) in
        let (l', u, freed) =
          release_mine me (version_lock w.uid) sys2 held.0 {A = Version} (err x) mine in
        let p : prepare_locked me now work_package w plan sys ≡ (err x, sys2) = ground arith in
        (
          l',
          rw p u,
          (freed.0, λ n. ground (arith, freed.1 n, held.1 n, list_eqb_iff (version_lock w.uid) n)),
        )

  module _ (req : Request) (sys : System) (k : HasKeys sys.locks)
      (free : holder (version_lock w.uid) sys.locks ≡ none)
      (base_free : (name : Text)
        → base_lock req ≡ some name
        → (holder name sys.locks ≡ none) × (name ≢ version_lock w.uid)) where
    -- the base version's lock is taken, and given back at the end
    base_taken :
        (sys1 : System) × (take_base_lock me now w req sys ≡ ok sys1)
        × (resize w sys1.db ≡ resize w sys.db)
        × HasKeys sys1.locks
        × (holder (version_lock w.uid) sys1.locks ≡ none)
        × ((taken : Bool) (r : Result Version) (db' : Database) (l : List Lock)
            → Held me taken (version_lock w.uid) sys1.locks l
            → (l' : List Lock) × (release_base_lock me req (r, record { db = db'; locks = l })
                ≡ (r, record { db = db'; locks = l' }))
              × Held me taken (version_lock w.uid) sys.locks l')
    unfolding take_base_lock release_base_lock
    base_taken = elim (Option-cases (base_lock req)) [
      | inl no_base ↦ (sys, ground arith, refl, k, free, λ taken r db' l h. (l, ground arith, h))
      | inr (name, based) ↦
          let (name_free, other) = base_free name based in
          let (l1, t, held) = take_free me name sys k now w [] name_free in
          (
            record { db = resize w sys.db; locks = l1 },
            ground arith,
            resize_idem w sys.db,
            held.0,
            ground (arith, held.1 (version_lock w.uid), list_eqb_iff name (version_lock w.uid)),
            λ taken r db' l h.
                let sys2 : System = record { db = db'; locks = l } in
                let mine : holder name l ≡ some me = ground (
                  arith,
                  h.1 name,
                  held.1 name,
                  list_eqb_iff name name,
                  list_eqb_iff (version_lock w.uid) name,
                ) in
                let (l', u, freed) = release_mine me name sys2 h.0 r mine in
                (
                  l',
                  ground arith,
                  (
                    freed.0,
                    λ n. ground (
                      arith,
                      freed.1 n,
                      h.1 n,
                      held.1 n,
                      list_eqb_iff name n,
                      list_eqb_iff (version_lock w.uid) n,
                    ),
                  ),
                ),
          )
    ]

module _ (me : Owner) (now work_package : ℕ) (v : Version) (req : Request) (sys : System)
    (plan : Plan) (k : HasKeys sys.locks) (made : make_plan sys v req ≡ ok plan)
    (free : holder (version_lock v.uid) sys.locks ≡ none)
    (base_free : (name : Text)
      → base_lock req ≡ some name
      → (holder name sys.locks ≡ none) × (name ≢ version_lock v.uid)) where
  -- When no two locks have one name, the plan is made, and neither the version nor the base version
  -- to be locked is locked, the outcome of `update_version` is that of the loop over the blocks. If
  -- the loop returns, so does the method, with the new sizes and the loop's database; the caller
  -- then holds the lock on the version. If it raises, so does the method, with the same error; of
  -- the database only the new sizes are kept, and the lock on the version is given back. In both
  -- cases the lock on the base version is given back, and every other lock has the holder that it
  -- had.
  pub update_version_outcomes :
      ((db' : Database)
        → cloned work_package (planned v plan) plan sys ≡ ok db'
        → (l : List Lock) × (update_version me now work_package v req sys
            ≡ (ok (planned v plan), record { db = db'; locks = l }))
          × Held me true (version_lock v.uid) sys.locks l)
      × ((x : Exception)
          → cloned work_package (planned v plan) plan sys ≡ err x
          → (l : List Lock) × (update_version me now work_package v req sys
              ≡ (err x, record { db = resize (planned v plan) sys.db; locks = l }))
            × Held me false (version_lock v.uid) sys.locks l)
  unfolding update_version prepare
  update_version_outcomes =
      let w = planned v plan in
      let (sys1, t, same, k1, free1, back) =
        base_taken me now work_package w plan req sys k free base_free in
      (
        λ db' e.
            let (l, c, held) = core_ok me now work_package w plan sys1 k1 free1 db' (rw same e) in
            let (l', u, held') = back true (ok w) db' l held in
            let p : prepare me now work_package w plan req sys
                ≡ prepare_locked me now work_package w plan sys1 =
              rw (t, prepare) in
            (l', rw (made, update_version) (rw p (rw c u)), held'),
        λ x e.
            let (l, c, held) = core_err me now work_package w plan sys1 k1 free1 x (rw same e) in
            let (l', u, held') = back false (err x) (resize w sys1.db) l held in
            let p : prepare me now work_package w plan req sys
                ≡ prepare_locked me now work_package w plan sys1 =
              rw (t, prepare) in
            (
              l',
              rw (made, update_version)
                  (rw p (rw c (u ∙ ap (λ d. (err x, record { db = d; locks = l' })) same))),
              held',
            ),
      )
