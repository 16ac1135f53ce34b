-- ===== src/Cleanup/Survivors.antt =====
-- `Benji.cleanup` and `Benji.clean` of src/benji/benji.py: the objects that they leave.
use be_backup.Prelude.{
  Bool-cases, ◌==◌, length, any, filter, contains, Has, Has-filter, filter-Has, ℕ, ◌+◌, ◌≡◌, refl,
  sym, ap, ◌∙◌, ◌⊎◌, inl, inr, Bool, true, false, not, ◌&&◌, List, [], ◌∷◌, arith, nat_eq, list_eq,
}
use be_backup.Uid.{BlockUid, uid_eqb_iff, block_uid_eq}
use be_backup.Database.{Database}
use be_backup.Cleanup.{
  Scope, is_selected, is_referenced, HitList, get_unused_block_uids, object_eqb, rm_uids, rm_hits,
  rm_all, cleanup,
}
use be_backup.Cleanup.Rounds.{names}
use be_backup.Cleanup.Objects.{filter-filter, filter_ext}
use be_backup.Cleanup.Ends.{is_due, named, rounds_named, rounds_end, InOneStorage, rounds_due}

filter_all : {A : Type 0} (p : A → Bool) → ((x : A) → p x ≡ true) → (xs : List A) → filter p xs ≡ xs
unfolding filter
filter_all p h [] = refl
filter_all p h (x ∷ xs) = rw (h x, filter_all p h xs)

rm_uids_lem :
    (s : ℕ) (uids : List BlockUid) (objects : List (ℕ × BlockUid))
    → rm_uids s uids objects ≡ filter (λ o. not (o.0 == s && contains uids o.1)) objects
unfolding rm_uids
rm_uids_lem s [] objects =
    sym (filter_all (λ o. not (o.0 == s && false)) (λ o. ground arith) objects)
rm_uids_lem s (u ∷ uids) objects =
    let here : ℕ × BlockUid → Bool = λ o. not (object_eqb (s, u) o) in
    let rest : ℕ × BlockUid → Bool = λ o. not (o.0 == s && contains uids o.1) in
    rm_uids_lem s uids (filter here objects)
    ∙ (filter-filter rest here objects
        ∙ filter_ext (λ o. here o && rest o) (λ o. not (o.0 == s && contains (u ∷ uids) o.1))
            (λ o. ground (arith, uid_eqb_iff u o.1, uid_eqb_iff o.1 u)) objects)

rm_hits_lem :
    (hits : HitList) (objects : List (ℕ × BlockUid))
    → rm_hits hits objects ≡ filter (λ o. not (names o.0 o.1 hits)) objects
unfolding rm_hits
rm_hits_lem [] objects = sym (filter_all (λ o. true) (λ o. refl) objects)
rm_hits_lem ((s, uids) ∷ hits) objects =
    let here : ℕ × BlockUid → Bool = λ o. not (o.0 == s && contains uids o.1) in
    let rest : ℕ × BlockUid → Bool = λ o. not (names o.0 o.1 hits) in
    ap (rm_hits hits) (rm_uids_lem s uids objects)
    ∙ (rm_hits_lem hits (filter here objects)
        ∙ (filter-filter rest here objects
            ∙ filter_ext (λ o. here o && rest o) (λ o. not (names o.0 o.1 ((s, uids) ∷ hits)))
                (λ o. ground arith) objects))

rm_all_lem :
    (hits : List HitList) (objects : List (ℕ × BlockUid))
    → rm_all hits objects ≡ filter (λ o. not (named o.0 o.1 hits)) objects
unfolding rm_all
rm_all_lem [] objects = sym (filter_all (λ o. true) (λ o. refl) objects)
rm_all_lem (h ∷ hits) objects =
    let here : ℕ × BlockUid → Bool = λ o. not (names o.0 o.1 h) in
    let rest : ℕ × BlockUid → Bool = λ o. not (named o.0 o.1 hits) in
    ap (rm_all hits) (rm_hits_lem h objects)
    ∙ (rm_all_lem hits (filter here objects)
        ∙ (filter-filter rest here objects
            ∙ filter_ext (λ o. here o && rest o) (λ o. not (named o.0 o.1 (h ∷ hits)))
                (λ o. ground arith) objects))

module _ (q : Scope) (db : Database) (objects : List (ℕ × BlockUid)) (s : ℕ) (u : BlockUid) where
  -- An object stays in its storage if a row of the table of blocks has its UID, or if no row of the
  -- table of deleted blocks that the query selects is about it.
  pub cleanup_keeps :
      Has (s, u) objects
      → (is_referenced db u ≡ true) ⊎ (any (is_due q s u) db.deleted_blocks ≡ false)
      → Has (s, u) (cleanup q db objects).1
  unfolding cleanup
  cleanup_keeps m why =
      let hits = (get_unused_block_uids (length db.deleted_blocks + 1) q db).1 in
      let spared : named s u hits ≡ false = elim (Bool-cases (named s u hits)) [
        | inl t ↦
            absurd
              (let gone = rounds_named q s u (length db.deleted_blocks + 1) db t in ground arith)
        | inr f ↦ f
      ] in
      rw rm_all_lem (filter-Has (λ o. not (named o.0 o.1 hits)) (s, u) objects m (ground arith))

  -- If no row of the table of blocks has the UID, a row of the table of deleted blocks that the
  -- query selects has the storage and the UID, and all rows with the UID have that storage, the
  -- object is gone.
  pub cleanup_removes :
      InOneStorage s u db.deleted_blocks
      → is_referenced db u ≡ false
      → any (is_due q s u) db.deleted_blocks ≡ true
      → ¬ Has (s, u) (cleanup q db objects).1
  unfolding cleanup
  cleanup_removes one free due left =
      let fuel = length db.deleted_blocks + 1 in
      let hits = (get_unused_block_uids fuel q db).1 in
      let hit = rounds_due q s u fuel db (ground arith) one free due in
      let kept =
        Has-filter (λ o. not (named o.0 o.1 hits)) (s, u) objects (rw rm_all_lem at left) in
      ground arith

-- The rounds end within the fuel, and when they have ended, the query selects no row any more.
pub cleanup_ends :
    (q : Scope) (db : Database) (objects : List (ℕ × BlockUid))
    → filter (is_selected q) (cleanup q db objects).0.deleted_blocks ≡ []
unfolding cleanup
cleanup_ends q db objects = rounds_end q (length db.deleted_blocks + 1) db (ground arith)
