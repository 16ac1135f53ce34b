-- ===== src/Retention/Elements.antt =====
-- An element of a specification of src/benji/retentionfilter.py: a name and a number.
use mathlib.Core.List.{append-nil}
use be_backup.Prelude.{
  if◌then◌else◌, Bool-cases, ◌==◌, eq_of_==, list_eqb, length, All, ℕ, suc, ◌+◌, ◌-◌, ◌*◌, ◌^◌, ◌<◌,
  ◌≡◌, refl, sym, ap, ◌∙◌, ◌⊎◌, inl, inr, Bool, true, false, not, ◌&&◌, Option, none, some, [], ◌∷◌,
  ◌++◌, arith, nat_eq, list_eq,
}
use be_backup.Uid.{Text}
use be_backup.Retention.Parse.{span, is_letter, is_digit, decimal, at_end, match_element}

-- the number that decimal figures stand for
abbrev pub value_of : Text → ℕ
value_of [] = 0
value_of (x ∷ s) = (x - b'0') * 10 ^ length s + value_of s

-- a name, the decimal figures of a number, and at most a newline
abbrev pub IsElement : Text → Text → ℕ → Type 0
IsElement token name n =
    (figures : Text) × ((token ≡ name ++ figures) ⊎ (token ≡ name ++ (figures ++ 10 ∷ [])))
    × All (λ x. is_digit x ≡ true) figures
    × (0 < length figures)
    × (n ≡ value_of figures)

span-append : (p : ℕ → Bool) (s : Text) → s ≡ (span p s).0 ++ (span p s).1
unfolding span
span-append p [] = refl
span-append p (x ∷ s) = elim (Bool-cases (p x)) [
  | inl t ↦ rw t (ap (λ y. x ∷ y) (span-append p s))
  | inr f ↦ rw f refl
]

span-All : (p : ℕ → Bool) (s : Text) → All (λ x. p x ≡ true) (span p s).0
unfolding span
span-All p [] = tt
span-All p (x ∷ s) = elim (Bool-cases (p x)) [ inl t ↦ rw t (t, span-All p s) | inr f ↦ rw f tt ]

distribute : (n d p v : ℕ) → (10 * n + d) * p + v ≡ n * (10 * p) + (d * p + v)
distribute n d p v = grind arith

calc : (n d k v : ℕ) → (10 * n + d) * 10 ^ k + v ≡ n * 10 ^ suc k + (d * 10 ^ k + v)
calc n d k v =
    let power : 10 * 10 ^ k ≡ 10 ^ suc k = omega arith in
    distribute n d (10 ^ k) v ∙ ap (λ q. n * q + (d * 10 ^ k + v)) power

decimal-value_of : (n : ℕ) (s : Text) → decimal n s ≡ n * 10 ^ length s + value_of s
unfolding decimal
decimal-value_of n [] = omega arith
decimal-value_of n (x ∷ s) =
    decimal-value_of (10 * n + (x - b'0')) s ∙ calc n (x - b'0') (length s) (value_of s)

some_length : (s : Text) → (s == []) ≡ false → 0 < length s
unfolding list_eqb
some_length [] e = absurd (ground arith)
some_length (x ∷ s) e = omega arith

module _ (letters figures rest token name : Text) (n : ℕ) where
  full_match :
      (not (letters == []) && not (figures == []) && at_end rest) ≡ true
      → ◌≡◌ {A = Option (Text × ℕ)} (some (letters, decimal 0 figures)) (some (name, n))
      → token ≡ letters ++ (figures ++ rest)
      → All (λ x. is_digit x ≡ true) figures
      → IsElement token name n
  full_match t got parts are_digits =
      let named : letters ≡ name =
        ap (λ (o : Option (Text × ℕ)). elim o [ none ↦ name | some p ↦ p.0 ]) got in
      let valued : decimal 0 figures ≡ n =
        ap (λ (o : Option (Text × ℕ)). elim o [ none ↦ n | some p ↦ p.1 ]) got in
      let known : token ≡ name ++ (figures ++ rest) =
        parts ∙ ap (λ x. x ++ (figures ++ rest)) named in
      (
        figures,
        (elim (Bool-cases (rest == [])) [
          | inl nothing ↦ inl (
              known
              ∙ ap (λ x. name ++ (figures ++ x)) (eq_of_== rest [] nothing)
              ∙ ap (λ x. name ++ x) (append-nil figures))
          | inr some_rest ↦
              let newline : (rest == 10 ∷ []) ≡ true = ground arith in
              inr (known ∙ ap (λ x. name ++ (figures ++ x)) (eq_of_== rest (10 ∷ []) newline))
        ]),
        are_digits,
        some_length figures (ground arith),
        sym valued ∙ decimal-value_of 0 figures ∙ omega arith,
      )

  -- what matches the pattern is a name and a number
  matched_parts :
      ◌≡◌ {A = Option (Text × ℕ)}
        (if not (letters == []) && not (figures == []) && at_end rest
          then some (letters, decimal 0 figures)
          else none)
        (some (name, n))
      → token ≡ letters ++ (figures ++ rest)
      → All (λ x. is_digit x ≡ true) figures
      → IsElement token name n
  matched_parts e parts are_digits =
      elim (Bool-cases (not (letters == []) && not (figures == []) && at_end rest)) [
        | inr f ↦
            absurd (
              let no : ◌≡◌ {A = Option (Text × ℕ)} none (some (name, n)) = rw f at e in
              ground arith)
        | inl t ↦ full_match t (rw t at e) parts are_digits
      ]

pub match_element-IsElement :
    (token name : Text) (n : ℕ) → match_element token ≡ some (name, n) → IsElement token name n
unfolding match_element
match_element-IsElement token name n e =
    let (letters, after) = span is_letter token in
    let (figures, rest) = span is_digit after in
    matched_parts letters figures rest token name n e
      (span-append is_letter token ∙ ap (λ x. letters ++ x) (span-append is_digit after))
      (span-All is_digit after)
