-- ===== src/Cleanup/Rounds.antt =====
-- The rounds of the cleanup: what is yielded, and that they end.
use be_backup.Prelude.{
  if◌then◌else◌, ◌==◌, any, contains, add, contains-add, ℕ, ◌≡◌, refl, ◌∙◌, Bool, not, ◌&&◌, ◌||◌,
  List, [], ◌∷◌, arith, nat_eq, list_eq,
}
use be_backup.Uid.{BlockUid, uid_eqb_iff, block_uid_eq}
use be_backup.Database.{DeletedBlock, Database}
use be_backup.Cleanup.{is_referenced, HitList, add_hit, classify}

-- the hits name the UID for the storage; for some storage
abbrev pub names : ℕ → BlockUid → HitList → Bool
names s u hits = any (λ p. p.0 == s && contains p.1 u) hits

abbrev pub mentions : BlockUid → HitList → Bool
mentions u hits = any (λ p. contains p.1 u) hits

pub names-add_hit :
    (s t : ℕ) (u w : BlockUid) (hits : HitList)
    → names t w (add_hit s u hits) ≡ (s == t && u == w || names t w hits)
unfolding add_hit
names-add_hit s t u w [] = ground (arith, uid_eqb_iff u w, uid_eqb_iff w u)
names-add_hit s t u w ((r, uids) ∷ hits) =
    ground
      (arith, names-add_hit s t u w hits, contains-add w u uids, uid_eqb_iff u w, uid_eqb_iff w u)

mentions-add_hit :
    (s : ℕ) (u w : BlockUid) (hits : HitList)
    → mentions w (add_hit s u hits) ≡ (u == w || mentions w hits)
unfolding add_hit
mentions-add_hit s u w [] = ground (arith, uid_eqb_iff u w, uid_eqb_iff w u)
mentions-add_hit s u w ((r, uids) ∷ hits) =
    ground
      (arith, mentions-add_hit s u w hits, contains-add w u uids, uid_eqb_iff u w, uid_eqb_iff w u)

module _ (db : Database) (w : BlockUid) where
  pub classify_lem :
      (cs : List DeletedBlock) (fps : List BlockUid) (hits : HitList)
      → (contains (classify db cs fps hits).0 w
          ≡ (any (λ c. c.uid == w && is_referenced db w) cs || contains fps w))
        × (mentions w (classify db cs fps hits).1
            ≡ (any (λ c. c.uid == w && not (is_referenced db w)) cs || mentions w hits))
        × ((t : ℕ)
            → names t w (classify db cs fps hits).1 ≡ (
                any (λ c. c.storage_id == t && (c.uid == w && not (is_referenced db w))) cs
                || names t w hits))
  unfolding classify
  classify_lem [] fps hits = (refl, refl, λ t. refl)
  classify_lem (c ∷ cs) fps hits =
      let found = is_referenced db c.uid in
      let fps' = if found then add c.uid fps else fps in
      let hits' = if found then hits else add_hit c.storage_id c.uid hits in
      let (p, q, r) = classify_lem cs fps' hits' in
      (
        p ∙ ground (arith, contains-add w c.uid fps, uid_eqb_iff c.uid w, uid_eqb_iff w c.uid),
        q ∙ ground (arith, mentions-add_hit c.storage_id c.uid w hits, uid_eqb_iff c.uid w),
        λ t. r t ∙ ground (arith, names-add_hit c.storage_id t c.uid w hits, uid_eqb_iff c.uid w),
      )
