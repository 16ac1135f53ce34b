-- ===== src/Cleanup/Ends.antt =====
-- `Benji.cleanup` and `Benji.clean` of src/benji/benji.py: which objects go, which stay, and that
-- the rounds end.
use be_backup.Prelude.{
  Bool-cases, ◌==◌, ==_refl, length, All, any, filter, All-filter, Has, All-Has, any-Has,
  Has-filter, filter-Has, ℕ, zero, suc, ◌<◌, ◌≡◌, refl, sym, subst, ◌∙◌, ◌⊎◌, inl, inr, Bool, true,
  false, not, ◌&&◌, ◌||◌, List, [], ◌∷◌, arith, nat_eq, list_eq,
}
use be_backup.Uid.{BlockUid, uid_eqb_iff, block_uid_eq}
use be_backup.Database.{DeletedBlock, Database}
use be_backup.Cleanup.{
  Scope, is_selected, delete_candidates, is_referenced, HitList, cleanup_round, yield_hits,
  get_unused_block_uids,
}
use be_backup.Cleanup.Rounds.{names}
use be_backup.Cleanup.Objects.{
  length-filter_lt, cleanup_round_rows, cleanup_round-is_referenced, cleanup_round-names,
  Has-delete_candidates, delete_candidates_none,
}

-- a row that the query selects, for an object
abbrev pub is_due : Scope → ℕ → BlockUid → DeletedBlock → Bool
is_due q s u d = is_selected q d && (d.storage_id == s && d.uid == u)

-- all hits of all rounds
abbrev pub named : ℕ → BlockUid → List HitList → Bool
named s u hits = any (names s u) hits

any_witness :
    {A : Type 0} (p : A → Bool) (xs : List A) → any p xs ≡ true → (a : A) × Has a xs × (p a ≡ true)
any_witness p [] t = absurd (ground arith)
any_witness p (x ∷ xs) t = elim (Bool-cases (p x)) [
  | inl e ↦ (x, inl refl, e)
  | inr e ↦ let (a, m, h) = any_witness p xs (ground arith) in (a, inr m, h)
]

any_less :
    {A : Type 0} (p f : A → Bool) (xs : List A) → any p (filter f xs) ≡ true → any p xs ≡ true
any_less p f xs t =
    let (a, m, h) = any_witness p (filter f xs) t in any-Has p a xs (Has-filter f a xs m).0 h

abbrev pub round_of : Scope → Database → Database × HitList
round_of q db = cleanup_round db (delete_candidates q db.deleted_blocks)

List-cases : {A : Type 0} (xs : List A) → (xs ≡ []) ⊎ ((a : A) × (rest : List A) × (xs ≡ a ∷ rest))
List-cases [] = inl refl
List-cases (x ∷ xs) = inr (x, xs, refl)

yield_hits_lem :
    (s : ℕ) (u : BlockUid) (hits : HitList) (rest : List HitList)
    → named s u (yield_hits hits rest) ≡ (names s u hits || named s u rest)
yield_hits_lem s u [] rest = refl
yield_hits_lem s u (h ∷ hs) rest = refl

-- the rounds are at their end, or they are one round and the rest
rounds_cases :
    (q : Scope) (fuel : ℕ) (db : Database)
    → (delete_candidates q db.deleted_blocks ≡ []
        × (get_unused_block_uids (suc fuel) q db ≡ (db, [])))
      ⊎ (((c : DeletedBlock) × Has c (delete_candidates q db.deleted_blocks))
          × (get_unused_block_uids (suc fuel) q db ≡ (
              let rest = get_unused_block_uids fuel q (round_of q db).0 in
              (rest.0, yield_hits (round_of q db).1 rest.1))))
unfolding get_unused_block_uids
rounds_cases q fuel db = elim (List-cases (delete_candidates q db.deleted_blocks)) [
  | inl e ↦ inl (e, rw (e, get_unused_block_uids))
  | inr (c, cs, e) ↦
      let rest = get_unused_block_uids fuel q (round_of q db).0 in
      let after : Database × List HitList = (rest.0, yield_hits (round_of q db).1 rest.1) in
      inr (
        (c, rw e (inl refl)),
        subst (λ l. elim l [ [] ↦ (db, []) | d ∷ ds ↦ after ] ≡ after) (sym e) refl,
      )
]

-- a name that a round yields is that of a row that the query selects, which no block refers to
round_named :
    (q : Scope) (db : Database) (s : ℕ) (u : BlockUid)
    → names s u (cleanup_round db (delete_candidates q db.deleted_blocks)).1 ≡ true
    → (is_referenced db u ≡ false) × (any (is_due q s u) db.deleted_blocks ≡ true)
round_named q db s u t =
    let cs = delete_candidates q db.deleted_blocks in
    let (c, m, h) =
      any_witness (λ c. c.storage_id == s && (c.uid == u && not (is_referenced db u))) cs
        (sym (cleanup_round-names db cs s u) ∙ t) in
    let (n, e) = Has-delete_candidates q db.deleted_blocks c m in
    (ground arith, any-Has (is_due q s u) c db.deleted_blocks n (ground arith))

module _ (q : Scope) (s : ℕ) (u : BlockUid) where
  pub rounds_named :
      (fuel : ℕ) (db : Database)
      → named s u (get_unused_block_uids fuel q db).1 ≡ true
      → (is_referenced db u ≡ false) × (any (is_due q s u) db.deleted_blocks ≡ true)
  unfolding get_unused_block_uids
  rounds_named zero db t = absurd (ground arith)
  rounds_named (suc fuel) db t = elim (rounds_cases q fuel db) [
    | inl (e, same) ↦ absurd (let none_named = rw same at t in ground arith)
    | inr (c, next) ↦
        let db' = (round_of q db).0 in
        let both =
          sym (yield_hits_lem s u (round_of q db).1 (get_unused_block_uids fuel q db').1)
          ∙ (rw next at t) in
        elim (Bool-cases (names s u (round_of q db).1)) [
          | inl now ↦ round_named q db s u now
          | inr later ↦
              let (free, due) = rounds_named fuel db' (ground arith) in
              (
                sym (cleanup_round-is_referenced db (delete_candidates q db.deleted_blocks) u)
                    ∙ free,
                any_less (is_due q s u)
                    (λ d. not (any (λ c. c.uid == d.uid) (delete_candidates q db.deleted_blocks)))
                    db.deleted_blocks (rw cleanup_round_rows at due),
              )
        ]
  ]

  rounds_stay :
      (fuel : ℕ) (db : Database)
      → is_referenced db u ≡ true
      → named s u (get_unused_block_uids fuel q db).1 ≡ false
  rounds_stay fuel db held = elim (Bool-cases (named s u (get_unused_block_uids fuel q db).1)) [
    | inl t ↦ absurd (let gone = rounds_named fuel db t in ground arith)
    | inr f ↦ f
  ]

module _ (q : Scope) where
  -- a round makes the table shorter
  round_shorter :
      (db : Database) (c : DeletedBlock)
      → Has c (delete_candidates q db.deleted_blocks)
      → length (round_of q db).0.deleted_blocks < length db.deleted_blocks
  round_shorter db c m =
      let cs = delete_candidates q db.deleted_blocks in
      let here = any-Has (λ d. d.uid == c.uid) c cs m (==_refl c.uid) in
      rw cleanup_round_rows (
        length-filter_lt (λ d. not (any (λ c. c.uid == d.uid) cs)) db.deleted_blocks c
          (Has-delete_candidates q db.deleted_blocks c m).0 (ground arith))

  pub rounds_end :
      (fuel : ℕ) (db : Database)
      → length db.deleted_blocks < fuel
      → filter (is_selected q) (get_unused_block_uids fuel q db).0.deleted_blocks ≡ []
  rounds_end zero db lt = absurd (ground arith)
  rounds_end (suc fuel) db lt = elim (rounds_cases q fuel db) [
    | inl (e, same) ↦ rw same (delete_candidates_none q db.deleted_blocks e)
    | inr ((c, m), next) ↦
        let shorter = round_shorter db c m in
        rw next (rounds_end fuel (round_of q db).0 (ground arith))
  ]

-- the storage and the UID of a deleted block are a key: one UID, one storage
abbrev pub InOneStorage : ℕ → BlockUid → List DeletedBlock → Type 0
InOneStorage s u rows = All (λ d. d.uid ≡ u → d.storage_id ≡ s) rows

module _ (q : Scope) (s : ℕ) (u : BlockUid) where
  -- a selected row without a reference is named in this round, or it stays for the rest
  round_due :
      (db : Database)
      → InOneStorage s u db.deleted_blocks
      → is_referenced db u ≡ false
      → any (is_due q s u) db.deleted_blocks ≡ true
      → names s u (round_of q db).1 ≡ false
      → any (is_due q s u) (round_of q db).0.deleted_blocks ≡ true
  round_due db one free due not_yet =
      let cs = delete_candidates q db.deleted_blocks in
      let (d, m, h) = any_witness (is_due q s u) db.deleted_blocks due in
      let none_now : any (λ c. c.uid == d.uid) cs ≡ false =
        elim (Bool-cases (any (λ c. c.uid == d.uid) cs)) [
          | inl t ↦ absurd (
              let (c, n, same) = any_witness (λ c. c.uid == d.uid) cs t in
              let here = Has-delete_candidates q db.deleted_blocks c n in
              let is_u : c.uid ≡ u = ground (arith, uid_eqb_iff c.uid d.uid, uid_eqb_iff d.uid u) in
              let at_s =
                All-Has (λ d. d.uid ≡ u → d.storage_id ≡ s) c db.deleted_blocks here.0 one is_u in
              let hit =
                any-Has (λ c. c.storage_id == s && (c.uid == u && not (is_referenced db u))) c cs n
                  (ground (arith, uid_eqb_iff c.uid u)) in
              ground (arith, cleanup_round-names db cs s u))
          | inr f ↦ f
        ] in
      rw cleanup_round_rows (
        any-Has (is_due q s u) d
          (filter (λ d. not (any (λ c. c.uid == d.uid) cs)) db.deleted_blocks)
          (filter-Has (λ d. not (any (λ c. c.uid == d.uid) cs)) d db.deleted_blocks m
            (ground arith))
          h)

  pub rounds_due :
      (fuel : ℕ) (db : Database)
      → length db.deleted_blocks < fuel
      → InOneStorage s u db.deleted_blocks
      → is_referenced db u ≡ false
      → any (is_due q s u) db.deleted_blocks ≡ true
      → named s u (get_unused_block_uids fuel q db).1 ≡ true
  rounds_due zero db lt one free due = absurd (ground arith)
  rounds_due (suc fuel) db lt one free due = elim (rounds_cases q fuel db) [
    | inl (e, same) ↦ absurd (
        let (d, m, h) = any_witness (is_due q s u) db.deleted_blocks due in
        let left = filter-Has (is_selected q) d db.deleted_blocks m (ground arith) in
        rw (delete_candidates_none q db.deleted_blocks e) at left)
    | inr ((c, m), next) ↦
        let db' = (round_of q db).0 in
        let shorter = round_shorter q db c m in
        rw (next, yield_hits_lem)
          (elim (Bool-cases (names s u (round_of q db).1)) [
            | inl now ↦ ground arith
            | inr later ↦
                let rest =
                  rounds_due fuel db' (ground arith)
                    (rw cleanup_round_rows (
                      All-filter
                        (λ d.
                          not (any (λ c. c.uid == d.uid) (delete_candidates q db.deleted_blocks)))
                        db.deleted_blocks (λ d f kept. f) one))
                    (cleanup_round-is_referenced db (delete_candidates q db.deleted_blocks) u
                      ∙ free)
                    (round_due db one free due later) in
                ground arith
          ])
  ]
