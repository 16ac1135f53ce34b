-- ===== src/Prelude/Tests.antt =====
-- Boolean tests: the orders of the native numbers, one `==` for every type with an instance of
-- `Comparable` (Python's `__eq__`), and the conditional.
use Prim.Native.Nat.{ℕ, compare, Ordering, ◌≤◌, ◌<◌}
use mathlib.Core.Path.{◌≡◌, refl}
use mathlib.Core.Logic.{◌↔◌, ◌⊎◌, inl, inr}
use mathlib.Core.Bool.{Bool, true, false, ◌&&◌}
use mathlib.Core.Option.{Option, none, some}
use mathlib.Core.List.{List, [], ◌∷◌}
use native.Mathlib.Omega.{arith}

abbrev pub ltb : ℕ → ℕ → Bool
ltb a b = elim (compare a b) [ Ordering.lt ↦ true | _ ↦ false ]

abbrev pub leb : ℕ → ℕ → Bool
leb a b = elim (compare a b) [ Ordering.gt ↦ false | _ ↦ true ]

abbrev pub eqb : ℕ → ℕ → Bool
eqb a b = elim (compare a b) [ Ordering.eq ↦ true | _ ↦ false ]

infix 1 if◌then◌else◌
abbrev pub if◌then◌else◌ {ℓ} : {A : Type ℓ} → Bool → A → A → A
if true then x else y = x
if false then x else y = y

pub ltb→lt : (a b : ℕ) → ltb a b ≡ true → a < b
ltb→lt a b h = ground arith

pub leb→le : (a b : ℕ) → leb a b ≡ true → a ≤ b
leb→le a b h = ground arith

pub eqb_iff : (a b : ℕ) → (eqb a b ≡ true) ↔ (a ≡ b)
eqb_iff a b = ground arith

pub Bool-cases : (b : Bool) → (b ≡ true) ⊎ (b ≡ false)
Bool-cases true = inl refl
Bool-cases false = inr refl

pub Option-cases {ℓ} : {A : Type ℓ} (o : Option A) → (o ≡ none) ⊎ ((a : A) × (o ≡ some a))
Option-cases none = inl refl
Option-cases (some a) = inr (a, refl)

pub record Comparable {ℓ} (A : Type ℓ) : Type ℓ where
  pub same : A → A → Bool
  pub same_iff : (a b : A) → (same a b ≡ true) ↔ (a ≡ b)

infix 50 ◌==◌
abbrev pub ◌==◌ {ℓ} : {A : Type ℓ} ⦃e : Comparable A⦄ → A → A → Bool
◌==◌ ⦃e⦄ = e.same

instance abbrev pub nat_eq : Comparable ℕ
nat_eq = record { same = eqb; same_iff = eqb_iff }

abbrev pub bool_eqb : Bool → Bool → Bool
bool_eqb true b = b
bool_eqb false true = false
bool_eqb false false = true

pub bool_eqb_iff : (a b : Bool) → (bool_eqb a b ≡ true) ↔ (a ≡ b)
bool_eqb_iff a b = ground arith

instance abbrev pub bool_eq : Comparable Bool
bool_eq = record { same = bool_eqb; same_iff = bool_eqb_iff }

module _ {ℓ} {A : Type ℓ} ⦃e : Comparable A⦄ where
  pub ==_refl : (a : A) → (a == a) ≡ true
  ==_refl a = (e.same_iff a a).1 refl

  pub eq_of_== : (a b : A) → (a == b) ≡ true → a ≡ b
  eq_of_== a b = (e.same_iff a b).0

  abbrev pub option_eqb : Option A → Option A → Bool
  option_eqb none none = true
  option_eqb (some a) (some b) = a == b
  option_eqb _ _ = false

  pub option_eqb_iff : (a b : Option A) → (option_eqb a b ≡ true) ↔ (a ≡ b)
  option_eqb_iff none none = ground arith
  option_eqb_iff none (some b) = ground arith
  option_eqb_iff (some a) none = ground arith
  option_eqb_iff (some a) (some b) = ground (arith, e.same_iff a b)

  instance abbrev pub option_eq : Comparable (Option A)
  option_eq = record { same = option_eqb; same_iff = option_eqb_iff }

  unfoldable pub list_eqb : List A → List A → Bool
  list_eqb [] [] = true
  list_eqb (a ∷ as_) (b ∷ bs) = a == b && list_eqb as_ bs
  list_eqb _ _ = false

  pub list_eqb_iff : (a b : List A) → (list_eqb a b ≡ true) ↔ (a ≡ b)
  unfolding list_eqb
  list_eqb_iff [] [] = ground arith
  list_eqb_iff [] (y ∷ b) = ground arith
  list_eqb_iff (x ∷ a) [] = ground arith
  list_eqb_iff (x ∷ a) (y ∷ b) = ground (arith, e.same_iff x y, list_eqb_iff a b)

  instance abbrev pub list_eq : Comparable (List A)
  list_eq = record { same = list_eqb; same_iff = list_eqb_iff }
