-- ===== src/Scrub/Verdicts.antt =====
-- What a deep scrub of src/benji/benji.py finds, and what it makes of the version.
use be_backup.Prelude.{
  Bool-cases, All, All-imp, ◌≡◌, refl, sym, subst, ◌∙◌, ◌⊎◌, inl, inr, Bool, true, false, ◌&&◌,
  Option, List, [], ◌∷◌, arith, nat_eq, list_eq, option_eq,
}
use be_backup.Errors.{Result, err, ok}
use be_backup.Uid.{Text, BlockUid, is_set, block_uid_eq}
use be_backup.Database.{invalid, Block, Version, Database}
use be_backup.Transforms.{Bytes}
use be_backup.Storage.{Metadata}
use be_backup.History.{BitField}
use be_backup.Scrub.{ScrubState, deep_entry, deep_loop}
use be_backup.Scrub.Marks.{
  HasRow, AllStatus, set_block_valid-HasRow, set_block_valid-AllStatus, mark-AllStatus,
  mark_valid_versions,
}
use be_backup.Scrub.Turns.{IsReadableSource, Marked, is_intact, Answers, is_right, deep_entry_lem}

module _ {F : Type 0} (field : BitField F) where
  Marked-HasRow :
      (v : Version) (intact : Bool) (st st' : ScrubState field) (b : Block) (u : BlockUid)
      → Marked field intact st b st'
      → HasRow v st.db u
      → HasRow v st'.db u
  Marked-HasRow v intact st st' b u (inl (e, t)) h = rw e h
  Marked-HasRow v intact st st' b u (inr e) h =
      rw e (set_block_valid-HasRow st.db b.uid intact v u h)

  -- versions stay while the blocks are intact; the version's are invalid from the first that is not
  Marked-versions :
      (v : Version) (intact : Bool) (st st' : ScrubState field) (b : Block)
      → Marked field intact st b st'
      → HasRow v st.db b.uid
      → (intact ≡ true → st'.db.versions ≡ st.db.versions)
        × ((intact ≡ false) ⊎ AllStatus v invalid st.db → AllStatus v invalid st'.db)
  Marked-versions v intact st st' b (inl (e, t)) h =
      (λ u. rw e refl, λ o. elim o [ inl f ↦ absurd (ground arith) | inr a ↦ rw e a ])
  Marked-versions v intact st st' b (inr e) h = (
    λ t. rw (e, t) (mark_valid_versions st.db b.uid),
    λ o. elim o [
      | inl f ↦ rw (e, f) (mark-AllStatus v st.db b.uid h)
      | inr a ↦ rw e (set_block_valid-AllStatus st.db b.uid intact v a)
    ],
  )

module _ (hash : Bytes → Text) (read : Block → Result (Bytes × Metadata))
    (source : Option (Block → Result Bytes)) where
  -- what is asked of a block whose read was submitted
  abbrev pub IsChecked : Version → Database → Block → Type 0
  IsChecked v db b =
      (is_set b.uid ≡ true) × HasRow v db b.uid × Answers hash read b × IsReadableSource source b

  abbrev pub all_right : List Block → Bool
  all_right [] = true
  all_right (b ∷ bs) = is_right hash read source b && all_right bs

  abbrev pub all_intact : List Block → Bool
  all_intact [] = true
  all_intact (b ∷ bs) = is_intact hash read b && all_intact bs

  module _ {F : Type 0} (field : BitField F) where
    pub deep_loop_lem :
        (v : Version) (st : ScrubState field) (bs : List Block)
        → All (IsChecked v st.db) bs
        → (st' : ScrubState field) × (deep_loop field hash source read v st bs ≡ (ok tt, st'))
          × (st'.good ≡ (st.good && all_right bs))
          × (all_intact bs ≡ true → st'.db.versions ≡ st.db.versions)
          × ((all_intact bs ≡ false) ⊎ AllStatus v invalid st.db → AllStatus v invalid st'.db)
    unfolding deep_loop
    deep_loop_lem v st [] a = (
      st,
      refl,
      ground arith,
      λ t. refl,
      λ o. elim o [ inl f ↦ absurd (ground arith) | inr i ↦ i ],
    )
    deep_loop_lem v st (b ∷ bs) a =
        let (set, row, answers, readable) = a.0 in
        let turn = deep_entry field hash source v st b (read b) in
        let (r, g, marked) =
          deep_entry_lem hash read field source v st b (read b) set answers readable in
        let rest_checked =
          All-imp {Q = IsChecked v turn.1.db} bs
            (λ c x. (
              x.0,
              Marked-HasRow field v (is_intact hash read b) st turn.1 b c.uid marked x.1,
              x.2,
              x.3,
            ))
            a.1 in
        let (st', e, g', kept, gone) = deep_loop_lem v turn.1 bs rest_checked in
        let (k, i) = Marked-versions field v (is_intact hash read b) st turn.1 b marked row in
        let out : Result (Unit {0}) → Result (Unit {0}) × ScrubState field = λ x. elim x [
          | err e ↦ (err e, turn.1)
          | ok u ↦ deep_loop field hash source read v turn.1 bs
        ] in
        (
          st',
          subst (λ x. out x ≡ (ok tt, st')) (sym r) e,
          ground arith,
          λ t. kept (ground arith) ∙ k (ground arith),
          λ o. elim o [
            | inr before ↦ gone (inr (i (inr before)))
            | inl f ↦ elim (Bool-cases (is_intact hash read b)) [
              | inl t ↦ gone (inl (ground arith))
              | inr n ↦ gone (inr (i (inl n)))
            ]
          ],
        )
