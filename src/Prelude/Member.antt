-- ===== src/Prelude/Member.antt =====
-- Membership tests and predicates on lists; Python's `set` is a list without repetitions.
use Prim.Native.Nat.{ℕ, zero, suc, ◌+◌}
use mathlib.Core.Logic.{◌⊎◌, inl, inr}
use mathlib.Core.Option.{Option, none, some}
use mathlib.Core.Path.{◌≡◌, refl, sym, ap, subst}
use mathlib.Core.Bool.{Bool, true, false, ◌&&◌, ◌||◌}
use mathlib.Core.List.{List, [], ◌∷◌, ◌++◌, map}
use native.Mathlib.Omega.{arith}
use be_backup.Prelude.Tests.{ltb, leb, if◌then◌else◌, Bool-cases, Comparable, ◌==◌, nat_eq}
use be_backup.Prelude.Lists.{range}

abbrev pub All {ℓ κ} : {A : Type ℓ} → (A → Type κ) → List A → Type κ
All P [] = Unit
All P (x ∷ xs) = P x × All P xs

abbrev pub Any {ℓ} : {A : Type ℓ} → (A → Type 0) → List A → Type 0
Any P [] = ⊥
Any P (x ∷ xs) = P x ⊎ Any P xs

module _ {ℓ} {A : Type ℓ} where
  abbrev pub any : (A → Bool) → List A → Bool
  any p [] = false
  any p (x ∷ xs) = p x || any p xs

  -- the first element that passes the test
  abbrev pub find_first : (A → Bool) → List A → Option A
  find_first p [] = none
  find_first p (x ∷ xs) = if p x then some x else find_first p xs

  unfoldable pub filter : (A → Bool) → List A → List A
  filter p [] = []
  filter p (x ∷ xs) = let rest = filter p xs in if p x then x ∷ rest else rest

module _ {ℓ} {A : Type ℓ} ⦃e : Comparable A⦄ where
  abbrev pub contains : List A → A → Bool
  contains [] a = false
  contains (x ∷ xs) a = a == x || contains xs a

  -- s.add(a)
  unfoldable pub add : A → List A → List A
  add a s = if contains s a then s else a ∷ s

  pub contains-add : (a b : A) (s : List A) → contains (add b s) a ≡ (a == b || contains s a)
  unfolding add
  contains-add a b s = ground (arith, e.same_iff a b)

  pub contains-append :
      (a : A) (xs ys : List A) → contains (xs ++ ys) a ≡ (contains xs a || contains ys a)
  contains-append a [] ys = refl
  contains-append a (x ∷ xs) ys = ground (arith, contains-append a xs ys)

pub contains-range :
    (start n i : ℕ) → contains (range start n) i ≡ (leb start i && ltb i (start + n))
unfolding range
contains-range start zero i = ground arith
contains-range start (suc n) i = ground (arith, contains-range (start + 1) n i)

module _ {ℓ κ μ} {A : Type ℓ} {P : A → Type κ} {Q : A → Type μ} where
  pub All-imp : (xs : List A) → ((x : A) → P x → Q x) → All P xs → All Q xs
  All-imp [] f a = tt
  All-imp (x ∷ xs) f a = (f x a.0, All-imp xs f a.1)

  pub All-filter :
      (p : A → Bool) (xs : List A)
      → ((x : A) → P x → p x ≡ true → Q x)
      → All P xs
      → All Q (filter p xs)
  unfolding filter
  All-filter p [] f a = tt
  All-filter p (x ∷ xs) f a = elim (Bool-cases (p x)) [
    | inl keep ↦ rw keep (f x a.0 keep, All-filter p xs f a.1)
    | inr drop_it ↦ rw drop_it (All-filter p xs f a.1)
  ]

-- membership, with the place where the element stands
abbrev pub Has : {A : Type 0} → A → List A → Type 0
Has a [] = ⊥
Has a (x ∷ xs) = (x ≡ a) ⊎ Has a xs

module _ {A : Type 0} where
  pub All-Has {κ} : (P : A → Type κ) (a : A) (xs : List A) → Has a xs → All P xs → P a
  All-Has P a [] m h = absurd m
  All-Has P a (x ∷ xs) (inl e) h = subst P e h.0
  All-Has P a (x ∷ xs) (inr m) h = All-Has P a xs m h.1

  pub any-Has : (p : A → Bool) (a : A) (xs : List A) → Has a xs → p a ≡ true → any p xs ≡ true
  any-Has p a [] m t = absurd m
  any-Has p a (x ∷ xs) m t = ground (arith, any-Has p a xs)

  pub Has-filter :
      (p : A → Bool) (a : A) (xs : List A) → Has a (filter p xs) → Has a xs × (p a ≡ true)
  unfolding filter
  Has-filter p a [] m = absurd m
  Has-filter p a (x ∷ xs) m = ground (arith, Has-filter p a xs)

  pub filter-Has :
      (p : A → Bool) (a : A) (xs : List A) → Has a xs → p a ≡ true → Has a (filter p xs)
  unfolding filter
  filter-Has p a [] m t = m
  filter-Has p a (x ∷ xs) m t = ground (arith, filter-Has p a xs)

  pub Has-append : (a : A) (xs ys : List A) → Has a (xs ++ ys) → Has a xs ⊎ Has a ys
  Has-append a [] ys m = inr m
  Has-append a (x ∷ xs) ys m = ground (arith, Has-append a xs ys)

  pub append-Has : (a : A) (xs ys : List A) → Has a xs ⊎ Has a ys → Has a (xs ++ ys)
  append-Has a [] ys m = ground arith
  append-Has a (x ∷ xs) ys m = ground (arith, append-Has a xs ys)

  pub Has-contains : ⦃e : Comparable A⦄ (a : A) (xs : List A) → Has a xs → contains xs a ≡ true
  Has-contains ⦃e⦄ a [] m = absurd m
  Has-contains ⦃e⦄ a (x ∷ xs) m = ground (arith, e.same_iff a x, Has-contains a xs)

  pub contains-Has : ⦃e : Comparable A⦄ (a : A) (xs : List A) → contains xs a ≡ true → Has a xs
  contains-Has a [] t = absurd (ground arith)
  contains-Has ⦃e⦄ a (x ∷ xs) t = elim (Bool-cases (a == x)) [
    | inl same ↦ inl (sym ((e.same_iff a x).0 same))
    | inr other ↦ inr (contains-Has a xs (ground arith))
  ]

pub find_first-Has :
    {A : Type 0} (p : A → Bool) (xs : List A) (a : A)
    → find_first p xs ≡ some a
    → Has a xs × (p a ≡ true)
find_first-Has p [] a e = absurd (ground arith)
find_first-Has p (x ∷ xs) a e = elim (Bool-cases (p x)) [
  | inl t ↦ (inl (ground arith), ground arith)
  | inr f ↦ let (m, q) = find_first-Has p xs a (rw f at e) in (inr m, q)
]

pub All-of-Has {κ} :
    {A : Type 0} (P : A → Type κ) (xs : List A) → ((x : A) → Has x xs → P x) → All P xs
All-of-Has P [] h = tt
All-of-Has P (x ∷ xs) h = (h x (inl refl), All-of-Has P xs (λ y m. h y (inr m)))

module _ {A B : Type 0} (f : A → B) where
  pub Has-map : (b : B) (xs : List A) → Has b (map f xs) → (a : A) × Has a xs × (f a ≡ b)
  Has-map b [] m = absurd m
  Has-map b (x ∷ xs) (inl e) = (x, inl refl, e)
  Has-map b (x ∷ xs) (inr m) = let (a, h, e) = Has-map b xs m in (a, inr h, e)

  pub map-Has : (a : A) (xs : List A) → Has a xs → Has (f a) (map f xs)
  map-Has a [] m = m
  map-Has a (x ∷ xs) (inl e) = inl (ap f e)
  map-Has a (x ∷ xs) (inr m) = inr (map-Has a xs m)
