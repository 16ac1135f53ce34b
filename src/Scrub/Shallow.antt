-- ===== src/Scrub/Shallow.antt =====
-- What a scrub of the metadata in src/benji/benji.py finds, and what it makes of the version.
use be_backup.Prelude.{
  if◌then◌else◌, Bool-cases, All, contains, contains-append, All-imp, Has, map-Has, ◌≡◌, refl, sym,
  subst, ◌∙◌, ◌⊎◌, inl, inr, Bool, true, false, not, ◌&&◌, none, List, [], ◌∷◌, ◌++◌, arith, nat_eq,
  list_eq, option_eq,
}
use be_backup.Errors.{invalid_block_exception, Result, err, ok, is_ok}
use be_backup.Uid.{BlockUid, is_set, block_uid_eq}
use be_backup.Database.{invalid, Block, Version, Database}
use be_backup.Storage.{Metadata}
use be_backup.Storage.Operations.{check_block_metadata}
use be_backup.History.{BitField}
use be_backup.Versions.{set_block_valid}
use be_backup.Versions.Validity.{set_block_valid_rows}
use be_backup.Scrub.{ScrubState, mark_invalid, scrub_entry, scrub_loop}
use be_backup.Scrub.Marks.{HasRow, AllStatus, set_block_valid-HasRow, mark-AllStatus}
use be_backup.Scrub.Turns.{check_block_metadata-cases, note_seen_lem}

-- the version has a row, whatever its status is by now
abbrev pub IsListed : Version → Database → Type 0
IsListed v db = (w : Version) × Has w db.versions × (w.id ≡ v.id) × (w.uid ≡ v.uid)

set_block_valid-IsListed :
    (v : Version) (db : Database) (u : BlockUid) (good : Bool)
    → IsListed v db
    → IsListed v (set_block_valid db u good).0
set_block_valid-IsListed v db u good (w, m, same_id, same_uid) =
    let change : Version → Version = λ x. record x {
      status =
          if not good && contains (set_block_valid db u good).1 x.uid then invalid else x.status;
    } in
    (
      change w,
      subst (λ l. Has (change w) l) (sym (set_block_valid_rows db u good).1)
          (map-Has change w db.versions m),
      same_id,
      same_uid,
    )

module _ (read : Block → Result Metadata) where
  -- the object is there, and its metadata fit the block
  abbrev pub is_fit_object : Block → Result Metadata → Bool
  is_fit_object b (err e) = false
  is_fit_object b (ok m) = is_ok (check_block_metadata b none m)

  abbrev pub is_fit : Block → Bool
  is_fit b = is_fit_object b (read b)

  abbrev pub all_fit : List Block → Bool
  all_fit [] = true
  all_fit (b ∷ bs) = is_fit b && all_fit bs

  abbrev pub MetadataAnswers : Block → Type 0
  MetadataAnswers b = (read b ≡ err invalid_block_exception) ⊎ ((m : Metadata) × (read b ≡ ok m))

  -- what is asked of a block whose read was submitted
  abbrev pub IsScrubbed : Version → Database → Block → Type 0
  IsScrubbed v db b = (is_set b.uid ≡ true) × HasRow v db b.uid × MetadataAnswers b

  module _ {F : Type 0} (field : BitField F) (v : Version) where
    -- a block that fits changes no row; another one is marked, and its versions are noted
    abbrev IsPass : Bool → ScrubState field → Block → Result (Unit {0}) × ScrubState field → Type 0
    IsPass fit st b turn =
        (turn.0 ≡ ok tt)
        × (turn.1.good ≡ (st.good && fit))
        × (((fit ≡ true) × (turn.1.db ≡ st.db) × (turn.1.affected ≡ st.affected))
            ⊎ ((fit ≡ false)
                × (turn.1.db ≡ (set_block_valid st.db b.uid false).0)
                × (turn.1.affected ≡ st.affected ++ (set_block_valid st.db b.uid false).1)))

    scrub_entry_lem :
        (st : ScrubState field) (b : Block) (r : Result Metadata)
        → is_set b.uid ≡ true
        → ((r ≡ err invalid_block_exception) ⊎ ((m : Metadata) × (r ≡ ok m)))
        → IsPass (is_fit_object b r) st b (scrub_entry field v st b r)
    unfolding scrub_entry mark_invalid
    scrub_entry_lem st b r set (inl e) = rw e (refl, ground arith, inr (refl, refl, refl))
    scrub_entry_lem st b r set (inr (m, e)) = elim (check_block_metadata-cases b none m) [
      | inr wrong ↦ rw (e, scrub_entry, wrong) (refl, ground arith, inr (refl, refl, refl))
      | inl fits ↦
          let (h, e') = note_seen_lem field v st b set in
          rw (e, scrub_entry, fits)
            (subst (IsPass true st b) (sym e') (refl, ground arith, inl (refl, refl, refl)))
    ]

    pass_keeps :
        (fit : Bool) (st : ScrubState field) (b : Block)
        (turn : Result (Unit {0}) × ScrubState field)
        → IsPass fit st b turn
        → ((u : BlockUid) → HasRow v st.db u → HasRow v turn.1.db u)
          × (IsListed v st.db → IsListed v turn.1.db)
    pass_keeps fit st b turn (r, g, inl (t, e, a)) = (λ u h. rw e h, λ h. rw e h)
    pass_keeps fit st b turn (r, g, inr (f, e, a)) = (
      λ u h. rw e (set_block_valid-HasRow st.db b.uid false v u h),
      λ h. rw e (set_block_valid-IsListed v st.db b.uid false h),
    )

    -- the version is invalid and noted
    abbrev IsCondemned : ScrubState field → Type 0
    IsCondemned st = AllStatus v invalid st.db × (contains st.affected v.uid ≡ true)

    noted :
        (db : Database) (u : BlockUid)
        → HasRow v db u
        → IsListed v db
        → contains (set_block_valid db u false).1 v.uid ≡ true
    noted db u (b, hb, own, same) (w, hw, same_id, same_uid) =
        let listed = (set_block_valid_rows db u false).2 w b hw hb (own ∙ sym same_id) same in
        subst (λ t. contains (set_block_valid db u false).1 t ≡ true) same_uid listed

    pass_condemns :
        (fit : Bool) (st : ScrubState field) (b : Block)
        (turn : Result (Unit {0}) × ScrubState field)
        → IsPass fit st b turn
        → HasRow v st.db b.uid
        → IsListed v st.db
        → (fit ≡ false) ⊎ IsCondemned st
        → IsCondemned turn.1
    pass_condemns fit st b turn (r, g, inl (t, e, a)) row listed (inl f) = absurd (ground arith)
    pass_condemns fit st b turn (r, g, inl (t, e, a)) row listed (inr (all, c)) = (rw e all, rw a c)
    pass_condemns fit st b turn (r, g, inr (f, e, a)) row listed before =
        let uids = (set_block_valid st.db b.uid false).1 in
        let found = noted st.db b.uid row listed in
        (
          rw e (mark-AllStatus v st.db b.uid row),
          rw (a, contains-append v.uid st.affected uids) (ground arith),
        )

    pub scrub_loop_lem :
        (st : ScrubState field) (bs : List Block)
        → All (IsScrubbed v st.db) bs
        → IsListed v st.db
        → (st' : ScrubState field) × (scrub_loop field read v st bs ≡ (ok tt, st'))
          × (st'.good ≡ (st.good && all_fit bs))
          × (all_fit bs ≡ true → st'.db ≡ st.db)
          × ((all_fit bs ≡ false) ⊎ IsCondemned st → IsCondemned st')
    unfolding scrub_loop
    scrub_loop_lem st [] a listed = (
      st,
      refl,
      ground arith,
      λ t. refl,
      λ o. elim o [ inl f ↦ absurd (ground arith) | inr c ↦ c ],
    )
    scrub_loop_lem st (b ∷ bs) a listed =
        let (set, row, answers) = a.0 in
        let turn = scrub_entry field v st b (read b) in
        let pass = scrub_entry_lem st b (read b) set answers in
        let (rows, stays) = pass_keeps (is_fit b) st b turn pass in
        let rest_scrubbed =
          All-imp {Q = IsScrubbed v turn.1.db} bs (λ c x. (x.0, rows c.uid x.1, x.2)) a.1 in
        let (st', e, g, kept, gone) = scrub_loop_lem turn.1 bs rest_scrubbed (stays listed) in
        let condemns = pass_condemns (is_fit b) st b turn pass row listed in
        let out : Result (Unit {0}) → Result (Unit {0}) × ScrubState field =
          λ x. elim x [ err e ↦ (err e, turn.1) | ok u ↦ scrub_loop field read v turn.1 bs ] in
        let (r, g1, db1) = pass in
        (
          st',
          subst (λ x. out x ≡ (ok tt, st')) (sym r) e,
          ground arith,
          λ t.
              kept (ground arith)
              ∙ elim db1 [ inl (y, same, z) ↦ same | inr (n, z, y) ↦ absurd (ground arith) ],
          λ o. elim o [
            | inr before ↦ gone (inr (condemns (inr before)))
            | inl f ↦ elim (Bool-cases (is_fit b)) [
              | inl t ↦ gone (inl (ground arith))
              | inr n ↦ gone (inr (condemns (inl n)))
            ]
          ],
        )
