-- ===== src/Retention/Counts.antt =====
-- How many versions that pass a test the lists of `RetentionFilter.filter` of
-- src/benji/retentionfilter.py have.
use be_backup.Prelude.{
  leb, if◌then◌else◌, Bool-cases, ◌==◌, drop, Has, ℕ, zero, suc, ◌+◌, ◌≤◌, ◌<◌, ◌≡◌, refl, ap, ◌∙◌,
  inl, inr, Bool, true, false, ◌&&◌, Option, List, [], ◌∷◌, ◌++◌, arith, nat_eq, list_eq,
}
use be_backup.Retention.{
  Category, latest, rank, same_category, Rules, Place, place_of, latest_count, Buckets, append_to,
  all_but_last, only_last, of_category, of_categories, insert_youngest_first, youngest_first,
  sort_out, retention_filter,
}
use be_backup.Retention.Periods.{place-cases, sort_out_ignored, sort_out_too_old, sort_out_period}
use be_backup.Retention.Spec.{IsOrdered}

abbrev pub bit : Bool → ℕ
bit true = 1
bit false = 0

-- how many elements pass a test
abbrev pub count : {A : Type 0} → (A → Bool) → List A → ℕ
count p [] = 0
count p (a ∷ as_) = bit (p a) + count p as_

-- how many versions of the buckets, whose category has at least some rank, pass a test
abbrev total : {A : Type 0} → (A → Bool) → ℕ → Buckets A → ℕ
total p lo [] = 0
total p lo (((d, n), as_) ∷ bs) = (if leb lo (rank d) then count p as_ else 0) + total p lo bs

module _ {A : Type 0} (p : A → Bool) where
  count-append : (as_ bs : List A) → count p (as_ ++ bs) ≡ count p as_ + count p bs
  count-append [] bs = omega arith
  count-append (a ∷ as_) bs = omega (arith, count-append as_ bs)

  pub count-Has : (a : A) (as_ : List A) → Has a as_ → p a ≡ true → 0 < count p as_
  count-Has a [] m e = absurd m
  count-Has a (b ∷ as_) (inl same) e =
      let here : bit (p b) ≡ 1 = ap (λ x. bit (p x)) same ∙ ap bit e in omega arith
  count-Has a (b ∷ as_) (inr m) e = omega (arith, count-Has a as_ m e)

  count-drop : (n : ℕ) (as_ : List A) → count p (drop n as_) ≤ count p as_
  count-drop zero as_ = omega arith
  count-drop (suc n) [] = omega arith
  count-drop (suc n) (a ∷ as_) = omega (arith, count-drop n as_)

  module _ (date : A → ℕ) where
    count-insert :
        (a : A) (bs : List A) → count p (insert_youngest_first date a bs) ≡ bit (p a) + count p bs
    unfolding insert_youngest_first
    count-insert a [] = refl
    count-insert a (b ∷ bs) = elim (Bool-cases (leb (date b) (date a))) [
      | inl e ↦ rw e refl
      | inr e ↦ rw e (omega (arith, count-insert a bs))
    ]

    pub count-sort : (as_ : List A) → count p (youngest_first date as_) ≡ count p as_
    unfolding youngest_first
    count-sort [] = refl
    count-sort (a ∷ as_) = omega (arith, count-insert a (youngest_first date as_), count-sort as_)

  count-parts : (as_ : List A) → count p (all_but_last as_) + count p (only_last as_) ≡ count p as_
  unfolding all_but_last only_last
  count-parts [] = refl
  count-parts (a ∷ []) = omega arith
  count-parts (a ∷ b ∷ as_) = omega (arith, count-parts (b ∷ as_))

  total-append_to :
      (c : Category) (n : ℕ) (a : A) (bs : Buckets A)
      → total p 0 (append_to c n a bs) ≡ bit (p a) + total p 0 bs
  unfolding append_to
  total-append_to c n a [] = ground arith
  total-append_to c n a (((d, m), as_) ∷ bs) = elim (Bool-cases (same_category c d && n == m)) [
    | inl e ↦ rw e (ground (arith, count-append as_ (a ∷ [])))
    | inr e ↦ rw e (ground (arith, total-append_to c n a bs))
  ]

  total-sort_out :
      (place : A → Place) (as_ dismissed : List A) (bs : Buckets A)
      → count p (sort_out place as_ dismissed bs).0 + total p 0 (sort_out place as_ dismissed bs).1
        ≤ count p as_ + (count p dismissed + total p 0 bs)
  unfolding sort_out
  total-sort_out place [] dismissed bs = omega arith
  total-sort_out place (a ∷ as_) dismissed bs = elim (place-cases (place a)) [
    | inl e ↦
        rw (sort_out_ignored place a as_ dismissed bs e)
          (omega (arith, total-sort_out place as_ dismissed bs))
    | inr (inl e) ↦ rw (sort_out_too_old place a as_ dismissed bs e) (
        omega (
          arith,
          total-sort_out place as_ (dismissed ++ a ∷ []) bs,
          count-append dismissed (a ∷ []),
        ))
    | inr (inr (c, n, e)) ↦ rw (sort_out_period place a as_ dismissed bs c n e) (
        omega (
          arith,
          total-sort_out place as_ dismissed (append_to c n a bs),
          total-append_to c n a bs,
        ))
  ]

  total-lower : (lo hi : ℕ) (bs : Buckets A) → lo ≤ hi → total p hi bs ≤ total p lo bs
  total-lower lo hi [] le = omega arith
  total-lower lo hi (((d, n), as_) ∷ bs) le = ground (arith, total-lower lo hi bs le)

  total-of_category :
      (lo : ℕ) (c : Category) (bs : Buckets A)
      → lo ≤ rank c
      → count p (of_category all_but_last c bs)
          + count p (of_category only_last c bs)
          + total p (rank c + 1) bs
        ≤ total p lo bs
  unfolding of_category
  total-of_category lo c [] le = omega arith
  total-of_category lo c (((d, n), as_) ∷ bs) le = elim (Bool-cases (same_category c d)) [
    | inl e ↦ rw e (
        ground (
          arith,
          total-of_category lo c bs le,
          count-parts as_,
          count-append (all_but_last as_) (of_category all_but_last c bs),
          count-append (only_last as_) (of_category only_last c bs),
        ))
    | inr e ↦ rw e (ground (arith, total-of_category lo c bs le))
  ]

  total-of_categories :
      (lo : ℕ) (rules : Rules) (bs : Buckets A)
      → IsOrdered lo rules
      → count p (of_categories all_but_last rules bs) + count p (of_categories only_last rules bs)
        ≤ total p lo bs
  unfolding of_categories
  total-of_categories lo [] bs o = omega arith
  total-of_categories lo ((c, n) ∷ rules) bs (le, o) =
      let rest = total-of_categories (rank c + 1) rules bs o in
      elim (Bool-cases (same_category c latest)) [
        | inl e ↦ rw e (omega (arith, rest, total-lower lo (rank c + 1) bs (omega arith)))
        | inr e ↦ rw e (
            omega (
              arith,
              rest,
              total-of_category lo c bs le,
              count-append (of_category all_but_last c bs) (of_categories all_but_last rules bs),
              count-append (of_category only_last c bs) (of_categories only_last rules bs),
            ))
      ]

  -- with the rules in order, no version is both dismissed and kept for a period
  pub count-retention_filter :
      (date : A → ℕ) (times : A → Option (Category → ℕ)) (rules : Rules) (versions : List A)
      → IsOrdered 0 rules
      → count p (retention_filter date times rules versions).0
          + count p (retention_filter date times rules versions).1
        ≤ count p versions
  unfolding retention_filter
  count-retention_filter date times rules versions o =
      let sorted = youngest_first date versions in
      let considered = drop (latest_count rules) sorted in
      let place : A → Place = λ a. place_of rules (times a) in
      let (dismissed, buckets) = sort_out place considered [] [] in
      omega (
        arith,
        count-append dismissed (of_categories all_but_last rules buckets),
        total-of_categories 0 rules buckets o,
        total-sort_out place considered [] [],
        count-drop (latest_count rules) sorted,
        count-sort date versions,
      )
