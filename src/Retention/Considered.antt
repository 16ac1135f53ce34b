-- ===== src/Retention/Considered.antt =====
-- What is dismissed, and what remains, is what was considered.
use be_backup.Prelude.{
  leb, Bool-cases, ◌==◌, drop, All, All-imp, Has, All-Has, ℕ, zero, suc, ◌+◌, ◌≤◌, ◌<◌, ◌≡◌, refl,
  ap, ◌∙◌, inl, inr, ◌&&◌, Option, List, [], ◌∷◌, ◌++◌, arith, nat_eq, list_eq,
}
use be_backup.Retention.{
  Category, latest, rank, same_category, Rules, Place, place_of, latest_count, Buckets, append_to,
  all_but_last, only_last, of_category, of_categories, youngest_first, sort_out, retention_filter,
}
use be_backup.Retention.Spec.{IsOrdered}
use be_backup.Retention.Counts.{count, count-Has, count-sort}
use be_backup.Retention.Periods.{
  place-cases, sort_out_ignored, sort_out_too_old, sort_out_period, Descending, sort-Descending,
  sort-All, drop-All,
}

All-Has_self : {A : Type 0} (as_ : List A) → All (λ a. Has a as_) as_
All-Has_self [] = tt
All-Has_self (a ∷ as_) = (inl refl, All-imp as_ (λ b m. inr m) (All-Has_self as_))

All-both :
    {A : Type 0} (P Q : A → Type 0) (as_ : List A)
    → All P as_
    → All Q as_
    → All (λ a. P a × Q a) as_
All-both P Q [] h k = tt
All-both P Q (a ∷ as_) h k = ((h.0, k.0), All-both P Q as_ h.1 k.1)

module _ {A : Type 0} (P : A → Type 0) where
  All-append : (as_ bs : List A) → All P as_ → All P bs → All P (as_ ++ bs)
  All-append [] bs h k = k
  All-append (a ∷ as_) bs h k = (h.0, All-append as_ bs h.1 k)

  append_to-All :
      (c : Category) (n : ℕ) (a : A) (bs : Buckets A)
      → P a
      → All (λ b. All P b.1) bs
      → All (λ b. All P b.1) (append_to c n a bs)
  unfolding append_to
  append_to-All c n a [] p h = ((p, tt), tt)
  append_to-All c n a (((d, m), as_) ∷ bs) p (h, hs) =
      elim (Bool-cases (same_category c d && n == m)) [
        | inl e ↦ rw e (All-append as_ (a ∷ []) h (p, tt), hs)
        | inr e ↦ rw e (h, append_to-All c n a bs p hs)
      ]

  sort_out-All :
      (place : A → Place) (as_ dismissed : List A) (bs : Buckets A)
      → All P as_
      → All P dismissed
      → All (λ b. All P b.1) bs
      → All P (sort_out place as_ dismissed bs).0
        × All (λ b. All P b.1) (sort_out place as_ dismissed bs).1
  unfolding sort_out
  sort_out-All place [] dismissed bs h d k = (d, k)
  sort_out-All place (a ∷ as_) dismissed bs (p, h) d k = elim (place-cases (place a)) [
    | inl e ↦
        rw (sort_out_ignored place a as_ dismissed bs e) (sort_out-All place as_ dismissed bs h d k)
    | inr (inl e) ↦ rw (sort_out_too_old place a as_ dismissed bs e) (
        sort_out-All place as_ (dismissed ++ a ∷ []) bs h (All-append dismissed (a ∷ []) d (p, tt))
          k)
    | inr (inr (c, n, e)) ↦
        rw (sort_out_period place a as_ dismissed bs c n e)
          (sort_out-All place as_ dismissed (append_to c n a bs) h d (append_to-All c n a bs p k))
  ]

  module _ (part : List A → List A) (shrinks : (as_ : List A) → All P as_ → All P (part as_)) where
    of_category-All :
        (c : Category) (bs : Buckets A) → All (λ b. All P b.1) bs → All P (of_category part c bs)
    unfolding of_category
    of_category-All c [] h = tt
    of_category-All c (((d, n), as_) ∷ bs) (h, hs) = elim (Bool-cases (same_category c d)) [
      | inl e ↦
          rw e (
            All-append (part as_) (of_category part c bs) (shrinks as_ h) (of_category-All c bs hs))
      | inr e ↦ rw e (of_category-All c bs hs)
    ]

    of_categories-All :
        (cs : Rules) (bs : Buckets A) → All (λ b. All P b.1) bs → All P (of_categories part cs bs)
    unfolding of_categories
    of_categories-All [] bs h = tt
    of_categories-All ((c, n) ∷ cs) bs h = elim (Bool-cases (same_category c latest)) [
      | inl e ↦ rw e (of_categories-All cs bs h)
      | inr e ↦ rw e (
          All-append (of_category part c bs) (of_categories part cs bs) (of_category-All c bs h)
            (of_categories-All cs bs h))
    ]

  all_but_last-All : (as_ : List A) → All P as_ → All P (all_but_last as_)
  unfolding all_but_last
  all_but_last-All [] h = tt
  all_but_last-All (a ∷ []) h = tt
  all_but_last-All (a ∷ b ∷ as_) h = (h.0, all_but_last-All (b ∷ as_) h.1)

  only_last-All : (as_ : List A) → All P as_ → All P (only_last as_)
  unfolding only_last
  only_last-All [] h = tt
  only_last-All (a ∷ []) h = h
  only_last-All (a ∷ b ∷ as_) h = only_last-All (b ∷ as_) h.1

-- every version that is dismissed or remains was considered, and was given
considered_lem :
    {A : Type 0} (date : A → ℕ) (times : A → Option (Category → ℕ)) (rules : Rules)
    (versions : List A)
    → (let (dismissed, remaining) = retention_filter date times rules versions in
        All
          (λ v. Has v (drop (latest_count rules) (youngest_first date versions)) × Has v versions)
          (dismissed ++ remaining))
unfolding retention_filter
considered_lem {A = A} date times rules versions =
    let considered = drop (latest_count rules) (youngest_first date versions) in
    let P : A → Type 0 = λ v. Has v considered × Has v versions in
    let given =
      drop-All date (λ v. Has v versions) (latest_count rules) (youngest_first date versions)
        (sort-All date (λ v. Has v versions) versions (All-Has_self versions)) in
    let both =
      All-both (λ v. Has v considered) (λ v. Has v versions) considered (All-Has_self considered)
        given in
    let place : A → Place = λ a. place_of rules (times a) in
    let (old, buckets) = sort_out-All P place considered [] [] both tt tt in
    let found = (sort_out place considered [] []).1 in
    All-append P ((sort_out place considered [] []).0 ++ of_categories all_but_last rules found)
      (of_categories only_last rules found)
      (All-append P (sort_out place considered [] []).0 (of_categories all_but_last rules found) old
        (of_categories-All P all_but_last (all_but_last-All P) rules found buckets))
      (of_categories-All P only_last (only_last-All P) rules found buckets)

ranks_from : (lo : ℕ) (rules : Rules) → IsOrdered lo rules → All (λ r. lo ≤ rank r.0) rules
ranks_from lo [] o = tt
ranks_from lo ((c, n) ∷ rules) (le, o) =
    (le, All-imp rules (λ r h. omega (arith, h, le)) (ranks_from (rank c + 1) rules o))

-- rules in order have one rule for the latest
latest_count-Has :
    (n : ℕ) (rules : Rules) → IsOrdered 0 rules → Has (latest, n) rules → latest_count rules ≡ n
unfolding latest_count
latest_count-Has n [] o m = absurd m
latest_count-Has n ((c, k) ∷ rules) o (inl same) = ap (λ r. latest_count (r ∷ rules)) same ∙ refl
latest_count-Has n ((c, k) ∷ rules) o (inr m) =
    let later =
      All-Has (λ r. rank c + 1 ≤ rank r.0) (latest, n) rules m
        (ranks_from (rank c + 1) rules o.1) in
    absurd (let no : rank c + 1 ≤ 0 = later in omega arith)

module _ {A : Type 0} (date : A → ℕ) (v : A) where
  count-later :
      (n : ℕ) (as_ : List A)
      → Descending date as_
      → Has v (drop n as_)
      → n < count (λ w. leb (date v) (date w)) as_
  count-later zero as_ d m = count-Has (λ w. leb (date v) (date w)) v as_ m (ground arith)
  count-later (suc n) [] d m = absurd m
  count-later (suc n) (a ∷ as_) (h, d) m =
      let le : date v ≤ date a =
        All-Has (λ b. date b ≤ date a) v (drop n as_) m
          (drop-All date (λ b. date b ≤ date a) n as_ h) in
      let seen_before = count-later n as_ d m in ground arith

-- a given version, not younger than as many others as the rule for the latest keeps
abbrev pub HasLater : {A : Type 0} → (A → ℕ) → Rules → List A → A → Type 0
HasLater date rules versions v =
    Has v versions
    × ((n : ℕ) → Has (latest, n) rules → n < count (λ w. leb (date v) (date w)) versions)

-- With rules in the order of the categories, every version that is dismissed, and every one that
-- remains for a period, is one of the given versions, and if there is a rule for the n latest, at
-- least n others of the given versions are not older.
pub retention_filter-considered :
    {A : Type 0} (date : A → ℕ) (times : A → Option (Category → ℕ)) (rules : Rules)
    (versions : List A)
    → IsOrdered 0 rules
    → (let (dismissed, remaining) = retention_filter date times rules versions in
        All (HasLater date rules versions) (dismissed ++ remaining))
retention_filter-considered date times rules versions o =
    let (dismissed, remaining) = retention_filter date times rules versions in
    let sorted = youngest_first date versions in
    All-imp (dismissed ++ remaining)
      (λ v (considered, given). (
        given,
        λ n m.
            let enough =
              count-later date v (latest_count rules) sorted (sort-Descending date versions)
                considered in
            omega (
              arith,
              enough,
              count-sort (λ w. leb (date v) (date w)) date versions,
              latest_count-Has n rules o m,
            ),
      ))
      (considered_lem date times rules versions)
