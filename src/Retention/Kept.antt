-- ===== src/Retention/Kept.antt =====
-- `RetentionFilter.filter` of src/benji/retentionfilter.py: why a version may be dismissed.
use be_backup.Prelude.{
  Bool-cases, ◌==◌, ==_refl, drop, All, All-imp, Has, All-Has, Has-append, append-Has, ℕ, ◌+◌, ◌≤◌,
  ◌<◌, ◌≡◌, refl, subst, ◌≢◌, ◌⊎◌, inl, inr, Bool, Option, List, [], ◌∷◌, ◌++◌, arith, nat_eq,
  list_eq,
}
use be_backup.Retention.{
  Category, latest, same_category, Rules, Place, too_old, place_of, latest_count, Buckets,
  all_but_last, only_last, of_category, of_categories, youngest_first, sort_out, retention_filter,
}
use be_backup.Retention.Spec.{IsOrdered}
use be_backup.Retention.Counts.{count, count-Has, count-retention_filter}
use be_backup.Retention.Considered.{HasLater, retention_filter-considered}
use be_backup.Retention.Periods.{
  sort-Descending, drop-Descending, StandsFor, BucketIsSound, sort_out-Sound, of_category-StandsFor,
}

max_date : {A : Type 0} (date : A → ℕ) (as_ : List A) → (h : ℕ) × All (λ a. date a ≤ h) as_
max_date date [] = (0, tt)
max_date date (a ∷ as_) =
    let (h, all) = max_date date as_ in
    (h + date a, (ground arith, All-imp as_ (λ b f. ground arith) all))

module _ {A : Type 0} (date : A → ℕ) (times : A → Option (Category → ℕ)) (rules : Rules) where
  abbrev place : A → Place
  place a = place_of rules (times a)

  of_categories-StandsFor :
      (cs : Rules) (v : A) (l : ℕ) (bs : Buckets A)
      → All (BucketIsSound date place l) bs
      → Has v (of_categories all_but_last cs bs)
      → (w : A) × Has w (of_categories only_last cs bs) × StandsFor date place v w
  unfolding of_categories
  of_categories-StandsFor [] v l bs all m = absurd m
  of_categories-StandsFor ((c, n) ∷ cs) v l bs all m = elim (Bool-cases (same_category c latest)) [
    | inl e ↦ rw e (of_categories-StandsFor cs v l bs all (rw (e, of_categories) at m))
    | inr e ↦
        rw e
          (elim (Has-append v (of_category all_but_last c bs) (of_categories all_but_last cs bs)
            (rw (e, of_categories) at m)) [
              | inl mine ↦
                  let (w, h, stands) = of_category-StandsFor date place c v l bs all mine in
                  (
                    w,
                    append-Has w (of_category only_last c bs) (of_categories only_last cs bs)
                        (inl h),
                    stands,
                  )
              | inr other ↦
                  let (w, h, stands) = of_categories-StandsFor cs v l bs all other in
                  (
                    w,
                    append-Has w (of_category only_last c bs) (of_categories only_last cs bs)
                        (inr h),
                    stands,
                  )
            ])
  ]

  -- the part of it that does not say that the version remains
  stands_for_lem :
      (versions : List A) (v : A)
      → Has v (retention_filter date times rules versions).0
      → (place_of rules (times v) ≡ too_old)
        ⊎ ((w : A) × Has w (retention_filter date times rules versions).1
            × StandsFor date (λ a. place_of rules (times a)) v w)
  unfolding retention_filter
  stands_for_lem versions v m =
      let considered = drop (latest_count rules) (youngest_first date versions) in
      let (h, below) = max_date date considered in
      let (l, sound, old) =
        sort_out-Sound date place considered [] [] h
          (drop-Descending date (latest_count rules) (youngest_first date versions)
            (sort-Descending date versions))
          below tt tt in
      let (dismissed, buckets) = sort_out place considered [] [] in
      elim (Has-append v dismissed (of_categories all_but_last rules buckets) m) [
        | inl t ↦ inl (All-Has (λ a. place a ≡ too_old) v dismissed t old)
        | inr t ↦ inr (of_categories-StandsFor rules v l buckets sound t)
      ]

-- no two versions have the same number
abbrev pub AreDistinct : {A : Type 0} (id : A → ℕ) → List A → Type 0
AreDistinct id [] = Unit
AreDistinct id (a ∷ as_) = All (λ b. id b ≢ id a) as_ × AreDistinct id as_

module _ {A : Type 0} (id : A → ℕ) (k : ℕ) where
  count-absent : (as_ : List A) → All (λ b. id b ≢ k) as_ → count (λ x. id x == k) as_ ≡ 0
  count-absent [] h = refl
  count-absent (a ∷ as_) (h, hs) = ground (arith, count-absent as_ hs)

  count-distinct : (as_ : List A) → AreDistinct id as_ → count (λ x. id x == k) as_ ≤ 1
  count-distinct [] d = omega arith
  count-distinct (a ∷ as_) (h, d) = elim (Bool-cases (id a == k)) [
    | inl e ↦
        let absent : All (λ b. id b ≢ k) as_ =
          All-imp as_ (λ b differs. subst (λ j. id b ≢ j) (ground arith) differs) h in
        rw e (omega (arith, count-absent as_ absent))
    | inr e ↦ rw e (omega (arith, count-distinct as_ d))
  ]

-- With rules in the order of the categories, and versions that are told apart by a number, a
-- version is dismissed only if it is too old for every category, or if another version stands for
-- it: one of the given versions that remains for a period and is not dismissed, which is in the same
-- period of the same category and is not younger.
pub retention_filter-StandsFor :
    {A : Type 0} (id date : A → ℕ) (times : A → Option (Category → ℕ)) (rules : Rules)
    (versions : List A) (v : A)
    → IsOrdered 0 rules
    → AreDistinct id versions
    → Has v (retention_filter date times rules versions).0
    → (place_of rules (times v) ≡ too_old)
      ⊎ ((w : A) × Has w (retention_filter date times rules versions).1
          × Has w versions
          × ((x : A) → Has x (retention_filter date times rules versions).0 → id x ≢ id w)
          × StandsFor date (λ a. place_of rules (times a)) v w)
retention_filter-StandsFor {A = A} id date times rules versions v o distinct m =
    let (dismissed, remaining) = retention_filter date times rules versions in
    elim (stands_for_lem date times rules versions v m) [
      | inl old ↦ inl old
      | inr (w, remains, stands) ↦
          let same_id : A → Bool = λ x. id x == id w in
          let given =
            All-Has (HasLater date rules versions) w (dismissed ++ remaining)
              (append-Has w dismissed remaining (inr remains))
              (retention_filter-considered date times rules versions o) in
          inr (
            w,
            remains,
            given.0,
            λ x gone same.
                let twice : 1 < 1 = omega (
                  arith,
                  count-Has same_id w remaining remains (==_refl (id w)),
                  count-Has same_id x dismissed gone (ground arith),
                  count-retention_filter same_id date times rules versions o,
                  count-distinct id (id w) versions distinct,
                ) in
                omega arith,
            stands,
          )
    ]
