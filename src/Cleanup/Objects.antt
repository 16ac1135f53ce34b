-- ===== src/Cleanup/Objects.antt =====
-- The rows that a round of the cleanup takes away, and the candidates it has.
use be_backup.Prelude.{
  Option-cases, ◌==◌, length, take, any, filter, contains, Has, Has-filter, ℕ, zero, suc, ◌≤◌, ◌<◌,
  ◌≡◌, refl, ap, ◌∙◌, inl, inr, Bool, true, false, not, ◌&&◌, ◌||◌, List, [], ◌∷◌, arith, nat_eq,
  list_eq,
}
use be_backup.Uid.{BlockUid, block_uid_eq}
use be_backup.Database.{DeletedBlock, Database}
use be_backup.Cleanup.{
  Scope, given, is_selected, delete_candidates, is_referenced, HitList, classify, delete_uids,
  delete_hits, cleanup_round,
}
use be_backup.Cleanup.Rounds.{names, mentions, classify_lem}

module _ {A : Type 0} (p q : A → Bool) where
  pub filter-filter : (xs : List A) → filter p (filter q xs) ≡ filter (λ x. q x && p x) xs
  unfolding filter
  filter-filter [] = refl
  filter-filter (x ∷ xs) = ground (arith, filter-filter xs)

  pub filter_ext : ((x : A) → p x ≡ q x) → (xs : List A) → filter p xs ≡ filter q xs
  unfolding filter
  filter_ext f [] = refl
  filter_ext f (x ∷ xs) = ground (arith, filter_ext f xs, f x)

module _ {A : Type 0} (p : A → Bool) where
  length-filter : (xs : List A) → length (filter p xs) ≤ length xs
  unfolding filter
  length-filter [] = ground arith
  length-filter (x ∷ xs) = ground (arith, length-filter xs)

  -- a list loses an element to a filter that it does not pass
  pub length-filter_lt :
      (xs : List A) (x : A) → Has x xs → p x ≡ false → length (filter p xs) < length xs
  unfolding filter
  length-filter_lt [] x m h = absurd m
  length-filter_lt (y ∷ xs) x (inl e) h = ground (arith, length-filter xs)
  length-filter_lt (y ∷ xs) x (inr m) h = ground (arith, length-filter_lt xs x m h)

pub Has-take : {A : Type 0} (n : ℕ) (a : A) (xs : List A) → Has a (take n xs) → Has a xs
Has-take zero a xs m = absurd m
Has-take (suc n) a [] m = absurd m
Has-take (suc n) a (x ∷ xs) (inl e) = inl e
Has-take (suc n) a (x ∷ xs) (inr m) = inr (Has-take n a xs m)

pub take_none : {A : Type 0} (n : ℕ) (xs : List A) → take (suc n) xs ≡ [] → xs ≡ []
take_none n [] h = refl
take_none n (x ∷ xs) h = absurd (ground arith)

delete_hits_lem :
    (hits : HitList) (rows : List DeletedBlock)
    → delete_hits hits rows ≡ filter (λ d. not (mentions d.uid hits)) rows
unfolding delete_hits delete_uids filter
delete_hits_lem [] [] = refl
delete_hits_lem [] (d ∷ rows) = ap (λ r. d ∷ r) (delete_hits_lem [] rows)
delete_hits_lem ((s, uids) ∷ hits) rows =
    delete_hits_lem hits (delete_uids uids rows)
    ∙ (filter-filter (λ d. not (mentions d.uid hits)) (λ d. not (contains uids d.uid)) rows
        ∙ filter_ext (λ d. not (contains uids d.uid) && not (mentions d.uid hits))
            (λ d. not (contains uids d.uid || mentions d.uid hits)) (λ d. ground arith) rows)

any_split :
    (db : Database) (w : BlockUid) (cs : List DeletedBlock)
    → (any (λ c. c.uid == w && is_referenced db w) cs
        || any (λ c. c.uid == w && not (is_referenced db w)) cs)
      ≡ any (λ c. c.uid == w) cs
any_split db w [] = refl
any_split db w (c ∷ cs) = ground (arith, any_split db w cs)

-- a round takes away exactly the rows with the UID of a candidate
pub cleanup_round_rows :
    (db : Database) (cs : List DeletedBlock)
    → (cleanup_round db cs).0.deleted_blocks
      ≡ filter (λ d. not (any (λ c. c.uid == d.uid) cs)) db.deleted_blocks
unfolding cleanup_round delete_uids
cleanup_round_rows db cs =
    let found = classify db cs [] [] in
    delete_hits_lem found.1 (delete_uids found.0 db.deleted_blocks)
    ∙ (filter-filter (λ d. not (mentions d.uid found.1)) (λ d. not (contains found.0 d.uid))
          db.deleted_blocks
        ∙ filter_ext (λ d. not (contains found.0 d.uid) && not (mentions d.uid found.1))
            (λ d. not (any (λ c. c.uid == d.uid) cs))
            (λ d.
              let (p, q, r) = classify_lem db d.uid cs [] [] in
              ground (arith, p, q, any_split db d.uid cs))
            db.deleted_blocks)

pub cleanup_round-is_referenced :
    (db : Database) (cs : List DeletedBlock) (u : BlockUid)
    → is_referenced (cleanup_round db cs).0 u ≡ is_referenced db u
unfolding cleanup_round is_referenced
cleanup_round-is_referenced db cs u = refl

pub cleanup_round-names :
    (db : Database) (cs : List DeletedBlock) (s : ℕ) (u : BlockUid)
    → names s u (cleanup_round db cs).1
      ≡ any (λ c. c.storage_id == s && (c.uid == u && not (is_referenced db u))) cs
unfolding cleanup_round
cleanup_round-names db cs s u = let (p, q, r) = classify_lem db u cs [] [] in r s ∙ ground arith

module _ (q : Scope) (rows : List DeletedBlock) where
  pub Has-delete_candidates :
      (c : DeletedBlock) → Has c (delete_candidates q rows) → Has c rows × (is_selected q c ≡ true)
  unfolding delete_candidates
  Has-delete_candidates c m = elim (Option-cases (given q.storage_id)) [
    | inl e ↦
        Has-filter (is_selected q) c rows
          (Has-take 250 c (filter (is_selected q) rows) (rw (e, delete_candidates) at m))
    | inr (n, e) ↦ Has-filter (is_selected q) c rows (rw (e, delete_candidates) at m)
  ]

  pub delete_candidates_none : delete_candidates q rows ≡ [] → filter (is_selected q) rows ≡ []
  unfolding delete_candidates
  delete_candidates_none h = elim (Option-cases (given q.storage_id)) [
    | inl e ↦ take_none 249 (filter (is_selected q) rows) (rw (e, delete_candidates) at h)
    | inr (n, e) ↦ rw (e, delete_candidates) at h
  ]
