-- ===== src/Retention.antt =====
-- `RetentionFilter` of src/benji/retentionfilter.py: the rules, and which versions they dismiss. The
-- counts of hours, days, weeks, months and years between a version and the reference time, which
-- `_Timedelta` takes from datetime and dateutil, are an argument; there are none where it raises,
-- since the version is younger than the reference time.
pub mod Periods
pub mod Parse
pub mod Elements
pub mod Spec
pub mod Counts
pub mod Considered
pub mod Kept
use be_backup.Prelude.{
  leb, if◌then◌else◌, ◌==◌, drop, ℕ, Bool, not, ◌&&◌, Option, none, some, List, [], ◌∷◌, ◌++◌,
  nat_eq, list_eq,
}

pub data Category : Type 0 where
  latest hours days weeks months years : Category

-- the position in `_valid_categories`
abbrev pub rank : Category → ℕ
rank latest = 0
rank hours = 1
rank days = 2
rank weeks = 3
rank months = 4
rank years = 5

abbrev pub same_category : Category → Category → Bool
same_category c d = rank c == rank d

-- rules in the order of `_valid_categories`
abbrev pub Rules : Type 0
Rules = List (Category × ℕ)

-- where the loop puts a version: it is left alone, it is too old, or it is in a period
pub data Place : Type 0 where
  ignored too_old : Place
  period : Category → ℕ → Place

-- the first category, but latest, whose count the version does not exceed
unfoldable pub place_in : Rules → (Category → ℕ) → Place
place_in [] counts = too_old
place_in ((c, n) ∷ rules) counts =
    let rest = place_in rules counts in
    if not (same_category c latest) && leb (counts c) n then period c (counts c) else rest

unfoldable pub place_of : Rules → Option (Category → ℕ) → Place
place_of rules none = ignored
place_of rules (some counts) = place_in rules counts

-- rules['latest'], 0 without such a rule
unfoldable pub latest_count : Rules → ℕ
latest_count [] = 0
latest_count ((c, n) ∷ rules) = if same_category c latest then n else latest_count rules

-- versions_by_category: a list for each category and count, in the order of their first version
abbrev pub Buckets : Type 0 → Type 0
Buckets A = List ((Category × ℕ) × List A)

module _ {A : Type 0} where
  unfoldable pub append_to : Category → ℕ → A → Buckets A → Buckets A
  append_to c n a [] = ((c, n), a ∷ []) ∷ []
  append_to c n a (((d, m), as_) ∷ buckets) =
      let rest = append_to c n a buckets in
      if same_category c d && n == m
      then ((d, m), as_ ++ a ∷ []) ∷ buckets
      else ((d, m), as_) ∷ rest

  -- v[:-1] and v[-1:]
  unfoldable pub all_but_last : List A → List A
  all_but_last [] = []
  all_but_last (a ∷ []) = []
  all_but_last (a ∷ b ∷ as_) = a ∷ all_but_last (b ∷ as_)

  unfoldable pub only_last : List A → List A
  only_last [] = []
  only_last (a ∷ []) = a ∷ []
  only_last (a ∷ b ∷ as_) = only_last (b ∷ as_)

  -- `for timecount in versions_by_category[category]`
  unfoldable pub of_category : (List A → List A) → Category → Buckets A → List A
  of_category part c [] = []
  of_category part c (((d, n), as_) ∷ buckets) =
      let rest = of_category part c buckets in if same_category c d then part as_ ++ rest else rest

  -- `for category in categories`
  unfoldable pub of_categories : (List A → List A) → Rules → Buckets A → List A
  of_categories part [] buckets = []
  of_categories part ((c, n) ∷ rules) buckets =
      let rest = of_categories part rules buckets in
      if same_category c latest then rest else of_category part c buckets ++ rest

  module _ (date : A → ℕ) where
    -- versions.sort(key=date, reverse=True): the youngest first, equal dates in the order they had
    unfoldable pub insert_youngest_first : A → List A → List A
    insert_youngest_first a [] = a ∷ []
    insert_youngest_first a (b ∷ bs) =
        let rest = insert_youngest_first a bs in
        if leb (date b) (date a) then a ∷ b ∷ bs else b ∷ rest

    unfoldable pub youngest_first : List A → List A
    youngest_first [] = []
    youngest_first (a ∷ as_) = insert_youngest_first a (youngest_first as_)

  -- the loop over the versions: those too old, and the buckets
  unfoldable pub sort_out : (A → Place) → List A → List A → Buckets A → List A × Buckets A
  sort_out place [] dismissed buckets = (dismissed, buckets)
  sort_out place (a ∷ as_) dismissed buckets = elim (place a) [
    | ignored ↦ sort_out place as_ dismissed buckets
    | too_old ↦ sort_out place as_ (dismissed ++ a ∷ []) buckets
    | period c n ↦ sort_out place as_ dismissed (append_to c n a buckets)
  ]

  -- `_filter`: the versions dismissed, and those of the periods that remain
  unfoldable pub retention_filter :
      (A → ℕ) → (A → Option (Category → ℕ)) → Rules → List A → List A × List A
  retention_filter date times rules versions =
      let considered = drop (latest_count rules) (youngest_first date versions) in
      let (dismissed, buckets) = sort_out (λ a. place_of rules (times a)) considered [] [] in
      (dismissed ++ of_categories all_but_last rules buckets, of_categories only_last rules buckets)
