-- ===== src/Retention/Periods.antt =====
-- In each period the oldest version remains.
use be_backup.Prelude.{
  leb, Bool-cases, ◌==◌, drop, All, All-imp, Has, All-Has, Has-append, append-Has, ℕ, zero, suc,
  ◌≤◌, ◌≡◌, refl, ◌⊎◌, inl, inr, true, ◌&&◌, List, [], ◌∷◌, ◌++◌, arith, nat_eq, list_eq,
}
use be_backup.Retention.{
  Category, same_category, Place, ignored, too_old, period, Buckets, append_to, all_but_last,
  only_last, of_category, insert_youngest_first, youngest_first, sort_out,
}

pub place-cases :
    (p : Place) → (p ≡ ignored) ⊎ ((p ≡ too_old) ⊎ ((c : Category) × (n : ℕ) × (p ≡ period c n)))
place-cases ignored = inl refl
place-cases too_old = inr (inl refl)
place-cases (period c n) = inr (inr (c, n, refl))

module _ {A : Type 0} (place : A → Place) (a : A) (as_ dismissed : List A) (bs : Buckets A) where
  pub sort_out_ignored :
      place a ≡ ignored → sort_out place (a ∷ as_) dismissed bs ≡ sort_out place as_ dismissed bs
  unfolding sort_out
  sort_out_ignored e = rw (e, sort_out)

  pub sort_out_too_old :
      place a ≡ too_old
      → sort_out place (a ∷ as_) dismissed bs ≡ sort_out place as_ (dismissed ++ a ∷ []) bs
  unfolding sort_out
  sort_out_too_old e = rw (e, sort_out)

  pub sort_out_period :
      (c : Category) (n : ℕ)
      → place a ≡ period c n
      → sort_out place (a ∷ as_) dismissed bs ≡ sort_out place as_ dismissed (append_to c n a bs)
  unfolding sort_out
  sort_out_period c n e = rw (e, sort_out)

module _ {A : Type 0} (date : A → ℕ) where
  -- the youngest first
  abbrev pub Descending : List A → Type 0
  Descending [] = Unit
  Descending (a ∷ as_) = All (λ b. date b ≤ date a) as_ × Descending as_

  pub insert-All :
      (P : A → Type 0) (a : A) (bs : List A)
      → P a
      → All P bs
      → All P (insert_youngest_first date a bs)
  unfolding insert_youngest_first
  insert-All P a [] p h = (p, tt)
  insert-All P a (b ∷ bs) p h = elim (Bool-cases (leb (date b) (date a))) [
    | inl e ↦ rw e (p, h)
    | inr e ↦ rw e (h.0, insert-All P a bs p h.1)
  ]

  insert-Descending :
      (a : A) (bs : List A) → Descending bs → Descending (insert_youngest_first date a bs)
  unfolding insert_youngest_first
  insert-Descending a [] d = (tt, tt)
  insert-Descending a (b ∷ bs) (h, d) = elim (Bool-cases (leb (date b) (date a))) [
    | inl e ↦
        let le : date b ≤ date a = ground arith in
        rw e ((le, All-imp bs (λ c f. ground arith) h), (h, d))
    | inr e ↦
        rw e (insert-All (λ c. date c ≤ date b) a bs (ground arith) h, insert-Descending a bs d)
  ]

  pub sort-Descending : (as_ : List A) → Descending (youngest_first date as_)
  unfolding youngest_first
  sort-Descending [] = tt
  sort-Descending (a ∷ as_) = insert-Descending a (youngest_first date as_) (sort-Descending as_)

  pub sort-All : (P : A → Type 0) (as_ : List A) → All P as_ → All P (youngest_first date as_)
  unfolding youngest_first
  sort-All P [] h = tt
  sort-All P (a ∷ as_) h = insert-All P a (youngest_first date as_) h.0 (sort-All P as_ h.1)

  pub drop-Descending : (n : ℕ) (as_ : List A) → Descending as_ → Descending (drop n as_)
  drop-Descending zero as_ d = d
  drop-Descending (suc n) [] d = d
  drop-Descending (suc n) (a ∷ as_) d = drop-Descending n as_ d.1

  pub drop-All : (P : A → Type 0) (n : ℕ) (as_ : List A) → All P as_ → All P (drop n as_)
  drop-All P zero as_ h = h
  drop-All P (suc n) [] h = h
  drop-All P (suc n) (a ∷ as_) h = drop-All P n as_ h.1

  module _ (place : A → Place) where
    -- a version that remains for another: of the same period, and not younger
    abbrev pub StandsFor : A → A → Type 0
    StandsFor v w =
        ((c : Category) × (n : ℕ) × (place v ≡ period c n) × (place w ≡ period c n))
        × (date w ≤ date v)

    -- the versions of a bucket are of its period and not older than a date, and its last is the
    -- oldest
    abbrev pub BucketIsSound : ℕ → (Category × ℕ) × List A → Type 0
    BucketIsSound h ((c, n), as_) =
        All (λ v. (place v ≡ period c n) × (h ≤ date v)) as_
        × ((w : A) × Has w (only_last as_) × Has w as_ × All (λ v. date w ≤ date v) as_)

    last-append : (a : A) (as_ : List A) → only_last (as_ ++ a ∷ []) ≡ a ∷ []
    unfolding only_last
    last-append a [] = refl
    last-append a (b ∷ []) = refl
    last-append a (b ∷ c ∷ as_) = last-append a (c ∷ as_)

    append-All : (P : A → Type 0) (a : A) (as_ : List A) → All P as_ → P a → All P (as_ ++ a ∷ [])
    append-All P a [] h p = (p, tt)
    append-All P a (b ∷ as_) h p = (h.0, append-All P a as_ h.1 p)

    same_category_iff : (c d : Category) → same_category c d ≡ true → c ≡ d
    same_category_iff c d e = ground arith

    lower-Sound :
        (h l : ℕ) (b : (Category × ℕ) × List A) → l ≤ h → BucketIsSound h b → BucketIsSound l b
    lower-Sound h l ((c, n), as_) le (f, last) = (All-imp as_ (λ v g. (g.0, ground arith)) f, last)

    lower-All :
        (h l : ℕ) (bs : Buckets A) → l ≤ h → All (BucketIsSound h) bs → All (BucketIsSound l) bs
    lower-All h l bs le = All-imp bs (λ b. lower-Sound h l b le)

    append_to-Sound :
        (c : Category) (n h : ℕ) (a : A) (bs : Buckets A)
        → place a ≡ period c n
        → date a ≤ h
        → All (BucketIsSound h) bs
        → All (BucketIsSound (date a)) (append_to c n a bs)
    unfolding append_to only_last
    append_to-Sound c n h a [] p le all =
        ((((p, ground arith), tt), (a, inl refl, inl refl, (ground arith, tt))), tt)
    append_to-Sound c n h a (((d, m), as_) ∷ bs) p le (s, all) =
        elim (Bool-cases (same_category c d && n == m)) [
          | inl e ↦
              let cd = same_category_iff c d (ground arith) in
              let nm : n ≡ m = ground arith in
              let here : place a ≡ period d m = cc in
              rw e (
                (
                  append-All (λ v. (place v ≡ period d m) × (date a ≤ date v)) a as_
                      (All-imp as_ (λ v f. (f.0, ground arith)) s.0) (here, ground arith),
                  (
                    a,
                    rw last-append (inl refl),
                    append-Has a as_ (a ∷ []) (inr (inl refl)),
                    append-All (λ v. date a ≤ date v) a as_ (All-imp as_ (λ v f. ground arith) s.0)
                        (ground arith),
                  ),
                ),
                lower-All h (date a) bs le all,
              )
          | inr e ↦
              rw e (lower-Sound h (date a) ((d, m), as_) le s, append_to-Sound c n h a bs p le all)
        ]

    pub sort_out-Sound :
        (as_ dismissed : List A) (bs : Buckets A) (h : ℕ)
        → Descending as_
        → All (λ a. date a ≤ h) as_
        → All (BucketIsSound h) bs
        → All (λ a. place a ≡ too_old) dismissed
        → (l : ℕ) × All (BucketIsSound l) (sort_out place as_ dismissed bs).1
          × All (λ a. place a ≡ too_old) (sort_out place as_ dismissed bs).0
    unfolding sort_out
    sort_out-Sound [] dismissed bs h d le all old = (h, all, old)
    sort_out-Sound (a ∷ as_) dismissed bs h (f, d) (le, les) all old =
        elim (place-cases (place a)) [
          | inl e ↦
              rw (sort_out_ignored place a as_ dismissed bs e)
                (sort_out-Sound as_ dismissed bs h d les all old)
          | inr (inl e) ↦ rw (sort_out_too_old place a as_ dismissed bs e) (
              sort_out-Sound as_ (dismissed ++ a ∷ []) bs h d les all
                (append-All (λ v. place v ≡ too_old) a dismissed old e))
          | inr (inr (c, n, e)) ↦ rw (sort_out_period place a as_ dismissed bs c n e) (
              sort_out-Sound as_ dismissed (append_to c n a bs) (date a) d f
                (append_to-Sound c n h a bs e le all) old)
        ]

    pub all_but_last-Has : (v : A) (as_ : List A) → Has v (all_but_last as_) → Has v as_
    unfolding all_but_last
    all_but_last-Has v [] m = m
    all_but_last-Has v (a ∷ []) m = absurd m
    all_but_last-Has v (a ∷ b ∷ as_) (inl e) = inl e
    all_but_last-Has v (a ∷ b ∷ as_) (inr m) = inr (all_but_last-Has v (b ∷ as_) m)

    pub of_category-StandsFor :
        (c : Category) (v : A) (l : ℕ) (bs : Buckets A)
        → All (BucketIsSound l) bs
        → Has v (of_category all_but_last c bs)
        → (w : A) × Has w (of_category only_last c bs) × StandsFor v w
    unfolding of_category
    of_category-StandsFor c v l [] all m = absurd m
    of_category-StandsFor c v l (((d, n), as_) ∷ bs) ((f, (w, ends, inside, oldest)), all) m =
        elim (Bool-cases (same_category c d)) [
          | inl e ↦
              rw e
                (elim (Has-append v (all_but_last as_) (of_category all_but_last c bs)
                  (rw (e, of_category) at m)) [
                    | inl mine ↦
                        let at_v =
                          All-Has (λ v. (place v ≡ period d n) × (l ≤ date v)) v as_
                            (all_but_last-Has v as_ mine) f in
                        let at_w =
                          All-Has (λ v. (place v ≡ period d n) × (l ≤ date v)) w as_ inside f in
                        let older =
                          All-Has (λ v. date w ≤ date v) v as_ (all_but_last-Has v as_ mine)
                            oldest in
                        (
                          w,
                          append-Has w (only_last as_) (of_category only_last c bs) (inl ends),
                          ((d, n, at_v.0, at_w.0), older),
                        )
                    | inr other ↦
                        let (x, h, stands) = of_category-StandsFor c v l bs all other in
                        (
                          x,
                          append-Has x (only_last as_) (of_category only_last c bs) (inr h),
                          stands,
                        )
                  ])
          | inr e ↦ rw e (of_category-StandsFor c v l bs all (rw (e, of_category) at m))
        ]
