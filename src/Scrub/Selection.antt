-- ===== src/Scrub/Selection.antt =====
-- Which blocks `_scrub_prepare` of src/benji/benji.py submits.
use be_backup.Prelude.{
  ltb, Bool-cases, ◌==◌, Has, ℕ, ◌+◌, ◌≡◌, subst, inl, inr, Bool, true, false, not, ◌&&◌, Option,
  List, [], ◌∷◌, arith, nat_eq,
}
use be_backup.Uid.{is_set}
use be_backup.Database.{Block, Version}
use be_backup.History.{BitField, History}
use be_backup.Scrub.{was_seen, scrub_prepare}

module _ {F : Type 0} (field : BitField F) (v : Version) (history : Option (History field)) where
  -- a block with data that the scrub has not seen
  abbrev pub is_candidate : Block → Bool
  is_candidate b = is_set b.uid && not (was_seen field v.storage_id b.uid history)

module _ {F : Type 0} (field : BitField F) (dice : ℕ → ℕ) (v : Version)
    (history : Option (History field)) where
  scrub_prepare_less :
      (percentage i : ℕ) (b : Block) (bs : List Block)
      → Has b (scrub_prepare field dice percentage v history i bs)
      → Has b bs × (is_candidate field v history b ≡ true)
  unfolding scrub_prepare
  scrub_prepare_less percentage i b [] m = absurd m
  scrub_prepare_less percentage i b (x ∷ bs) m =
      let rest = scrub_prepare_less percentage (i + 1) b bs in
      elim (Bool-cases (is_set x.uid)) [
        | inr unset ↦ let (h, t) = rest (rw (scrub_prepare, unset) at m) in (inr h, t)
        | inl set ↦ elim (Bool-cases (was_seen field v.storage_id x.uid history)) [
          | inl old ↦ let (h, t) = rest (rw (scrub_prepare, set, old) at m) in (inr h, t)
          | inr new ↦
              elim (Bool-cases (not (i == 0) && (ltb percentage 100 && ltb percentage (dice i)))) [
                | inl left_out ↦
                    let (h, t) = rest (rw (scrub_prepare, set, new, left_out) at m) in (inr h, t)
                | inr taken ↦ elim (rw (scrub_prepare, set, new, taken) at m) [
                  | inl e ↦
                      (inl e, subst (λ c. is_candidate field v history c ≡ true) e (ground arith))
                  | inr later ↦ let (h, t) = rest later in (inr h, t)
                ]
              ]
        ]
      ]

  other :
      (b x : Block) (bs : List Block)
      → Has b (x ∷ bs)
      → is_candidate field v history b ≡ true
      → is_candidate field v history x ≡ false
      → Has b bs
  other b x bs (inl e) t f = absurd (
      let u : is_candidate field v history b ≡ false =
        subst (λ c. is_candidate field v history c ≡ false) e f in
      ground arith)
  other b x bs (inr m) t f = m

  all_of :
      (i : ℕ) (b : Block) (bs : List Block)
      → Has b bs
      → is_candidate field v history b ≡ true
      → Has b (scrub_prepare field dice 100 v history i bs)
  unfolding scrub_prepare
  all_of i b [] m t = absurd m
  all_of i b (x ∷ bs) m t =
      let rest = λ (f : is_candidate field v history x ≡ false).
        all_of (i + 1) b bs (other b x bs m t f) t in
      elim (Bool-cases (is_set x.uid)) [
        | inr unset ↦ rw (scrub_prepare, unset) (rest (ground arith))
        | inl set ↦ elim (Bool-cases (was_seen field v.storage_id x.uid history)) [
          | inl old ↦ rw (scrub_prepare, set, old) (rest (ground arith))
          | inr new ↦
              let taken : (not (i == 0) && (ltb 100 100 && ltb 100 (dice i))) ≡ false =
                ground arith in
              rw (scrub_prepare, set, new, taken)
                (elim m [ inl e ↦ inl e | inr later ↦ inr (all_of (i + 1) b bs later t) ])
        ]
      ]

  -- A scrub of all blocks submits exactly the blocks that have data and that it has not seen in
  -- another version on the storage; one of a part of them submits no others.
  pub scrub_prepare-Has :
      (percentage i : ℕ) (b : Block) (bs : List Block)
      → (Has b (scrub_prepare field dice percentage v history i bs)
          → Has b bs × (is_candidate field v history b ≡ true))
        × (percentage ≡ 100
            → Has b bs × (is_candidate field v history b ≡ true)
            → Has b (scrub_prepare field dice percentage v history i bs))
  scrub_prepare-Has percentage i b bs =
      (scrub_prepare_less percentage i b bs, λ e m. rw e (all_of i b bs m.0 m.1))
