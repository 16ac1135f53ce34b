-- ===== src/Retention/Spec.antt =====
-- The rules that `_parse_rules` returns.
use be_backup.Prelude.{
  Bool-cases, Option-cases, ◌==◌, ==_refl, eq_of_==, All, find_first, All-imp, Has, ℕ, ◌+◌, ◌≤◌,
  ◌<◌, ◌≡◌, refl, sym, ap, subst, ◌∙◌, inl, inr, Bool, true, Option, none, some, List, [], ◌∷◌,
  arith, nat_eq, list_eq,
}
use be_backup.Errors.{usage_error, value_error, err, ok}
use be_backup.Uid.{Text}
use be_backup.Retention.{
  Category, latest, hours, days, weeks, months, years, rank, same_category, Rules,
}
use be_backup.Clone.Packages.{Result-cases}
use be_backup.Retention.Elements.{IsElement, match_element-IsElement}
use be_backup.Retention.Parse.{
  split_on, match_element, name_of, valid_categories, category_of, rule_for, add_rule, rules_loop,
  in_order, parse_rules,
}

-- in the order of the categories from a rank on, so none twice
abbrev pub IsOrdered : ℕ → Rules → Type 0
IsOrdered lo [] = Unit
IsOrdered lo ((c, n) ∷ rules) = (lo ≤ rank c) × IsOrdered (rank c + 1) rules

abbrev pub IsPositive : Rules → Type 0
IsPositive rules = All (λ r. 0 < r.1) rules

abbrev FromRank : ℕ → List Category → Type 0
FromRank lo [] = Unit
FromRank lo (c ∷ cs) = (lo ≤ rank c) × FromRank (rank c + 1) cs

lower-FromRank : (lo hi : ℕ) (cs : List Category) → lo ≤ hi → FromRank hi cs → FromRank lo cs
lower-FromRank lo hi [] le f = tt
lower-FromRank lo hi (c ∷ cs) le (p, f) = (ground arith, f)

module _ (c : Category) (cs : List Category) (rules : Rules) where
  in_order-none : rule_for c rules ≡ none → in_order (c ∷ cs) rules ≡ in_order cs rules
  unfolding in_order
  in_order-none e = rw (e, in_order)

  in_order-some :
      (n : ℕ) → rule_for c rules ≡ some n → in_order (c ∷ cs) rules ≡ (c, n) ∷ in_order cs rules
  unfolding in_order
  in_order-some n e = rw (e, in_order)

in_order-IsOrdered :
    (lo : ℕ) (cs : List Category) (rules : Rules)
    → FromRank lo cs
    → IsOrdered lo (in_order cs rules)
unfolding in_order
in_order-IsOrdered lo [] rules f = tt
in_order-IsOrdered lo (c ∷ cs) rules (p, f) = elim (Option-cases (rule_for c rules)) [
  | inl e ↦
      rw (in_order-none c cs rules e)
        (in_order-IsOrdered lo cs rules (lower-FromRank lo (rank c + 1) cs (ground arith) f))
  | inr (n, e) ↦ rw (in_order-some c cs rules n e) (p, in_order-IsOrdered (rank c + 1) cs rules f)
]

rule_for-IsPositive :
    (c : Category) (n : ℕ) (rules : Rules) → IsPositive rules → rule_for c rules ≡ some n → 0 < n
unfolding rule_for
rule_for-IsPositive c n [] p e = absurd (ground arith)
rule_for-IsPositive c n ((d, m) ∷ rules) (p, ps) e = elim (Bool-cases (same_category c d)) [
  | inl t ↦ ground arith
  | inr t ↦ rule_for-IsPositive c n rules ps (rw (t, rule_for) at e)
]

in_order-IsPositive :
    (cs : List Category) (rules : Rules) → IsPositive rules → IsPositive (in_order cs rules)
unfolding in_order
in_order-IsPositive [] rules p = tt
in_order-IsPositive (c ∷ cs) rules p = elim (Option-cases (rule_for c rules)) [
  | inl e ↦ rw (in_order-none c cs rules e) (in_order-IsPositive cs rules p)
  | inr (n, e) ↦
      rw (in_order-some c cs rules n e)
        (rule_for-IsPositive c n rules p e, in_order-IsPositive cs rules p)
]

in_order-Has :
    (c : Category) (n : ℕ) (cs : List Category) (rules : Rules)
    → Has c cs
    → rule_for c rules ≡ some n
    → Has (c, n) (in_order cs rules)
unfolding in_order
in_order-Has c n [] rules m e = absurd m
in_order-Has c n (d ∷ cs) rules (inl same) e =
    let here : rule_for d rules ≡ some n = ap (λ x. rule_for x rules) same ∙ e in
    rw (in_order-some d cs rules n here) (inl (ap (λ (x : Category). (x, n)) same))
in_order-Has c n (d ∷ cs) rules (inr m) e = elim (Option-cases (rule_for d rules)) [
  | inl f ↦ rw (in_order-none d cs rules f) (in_order-Has c n cs rules m e)
  | inr (k, f) ↦ rw (in_order-some d cs rules k f) (inr (in_order-Has c n cs rules m e))
]

every_category : (c : Category) → Has c valid_categories
every_category latest = inl refl
every_category hours = inr (inl refl)
every_category days = inr (inr (inl refl))
every_category weeks = inr (inr (inr (inl refl)))
every_category months = inr (inr (inr (inr (inl refl))))
every_category years = inr (inr (inr (inr (inr (inl refl)))))

-- the rule that an element of the specification stands for
abbrev pub IsRule : Rules → Text → Type 0
IsRule rules token = (c : Category) × (n : ℕ) × IsElement token (name_of c) n × Has (c, n) rules

-- the same, in the dictionary
abbrev IsFound : Rules → Text → Type 0
IsFound rules token =
    (c : Category) × (n : ℕ) × (match_element token ≡ some (name_of c, n))
    × (rule_for c rules ≡ some n)

find_first-passes :
    {A : Type 0} (p : A → Bool) (xs : List A) (a : A) → find_first p xs ≡ some a → p a ≡ true
find_first-passes p [] a e = absurd (ground arith)
find_first-passes p (x ∷ xs) a e = elim (Bool-cases (p x)) [
  | inl t ↦ let same : some x ≡ some a = rw t at e in ground arith
  | inr t ↦ find_first-passes p xs a (rw t at e)
]

category_of-name : (name : Text) (c : Category) → category_of name ≡ some c → name_of c ≡ name
unfolding category_of
category_of-name name c e =
    eq_of_== (name_of c) name (find_first-passes (λ c. name_of c == name) valid_categories c e)

add_rule_ok :
    (o : Option (Text × ℕ)) (rules after : Rules)
    → add_rule o rules ≡ ok after
    → (c : Category) × (n : ℕ) × (o ≡ some (name_of c, n))
      × (rule_for c rules ≡ none)
      × (0 < n)
      × (after ≡ (c, n) ∷ rules)
unfolding add_rule
add_rule_ok none rules after e = absurd (ground arith)
add_rule_ok (some (name, n)) rules after e = elim (Option-cases (category_of name)) [
  | inl f ↦ absurd (let no : err value_error ≡ ok after = rw (f, add_rule) at e in ground arith)
  | inr (c, f) ↦
      let named = category_of-name name c f in
      elim (Option-cases (rule_for c rules)) [
        | inr (k, g) ↦
            absurd (let no : err value_error ≡ ok after = rw (f, add_rule, g) at e in ground arith)
        | inl g ↦ elim (Bool-cases (n == 0)) [
          | inl z ↦
              absurd
                (let no : err usage_error ≡ ok after = rw (f, add_rule, g, z) at e in ground arith)
          | inr z ↦
              let yes : ok ((c, n) ∷ rules) ≡ ok after = rw (f, add_rule, g, z) at e in
              (c, n, ap (λ t. some (t, n)) (sym named), g, ground arith, cc)
        ]
      ]
]

kept_first :
    (c : Category) (n : ℕ) (rules after : Rules)
    → after ≡ (c, n) ∷ rules
    → rule_for c after ≡ some n
unfolding rule_for
kept_first c n rules after e = ap (rule_for c) e ∙ rw (==_refl (rank c))

kept_other :
    (c : Category) (n : ℕ) (rules after : Rules)
    → after ≡ (c, n) ∷ rules
    → rule_for c rules ≡ none
    → (d : Category) (m : ℕ) → rule_for d rules ≡ some m
    → rule_for d after ≡ some m
unfolding rule_for
kept_other c n rules after e fresh d m g =
    ap (rule_for d) e ∙ elim (Bool-cases (same_category d c)) [
      | inl t ↦
          let same : d ≡ c = ground arith in
          absurd (
            let both : none ≡ some m = sym fresh ∙ (ap (λ x. rule_for x rules) (sym same) ∙ g) in
            ground arith)
      | inr t ↦ rw t g
    ]

rules_loop_ok :
    (tokens : List Text) (rules after : Rules)
    → rules_loop tokens rules ≡ ok after
    → IsPositive rules
    → IsPositive after
      × All (IsFound after) tokens
      × ((c : Category) (n : ℕ) → rule_for c rules ≡ some n → rule_for c after ≡ some n)
unfolding rules_loop
rules_loop_ok [] rules after e p =
    let same : rules ≡ after = cc in (subst IsPositive same p, tt, λ c n f. rw (← same) f)
rules_loop_ok (token ∷ tokens) rules after e p = elim (Bool-cases (token == [])) [
  | inl empty ↦
      absurd (let no : err value_error ≡ ok after = rw (empty, rules_loop) at e in ground arith)
  | inr full ↦ elim (Result-cases (add_rule (match_element token) rules)) [
    | inl (rules', f) ↦
        let (c, n, matched, fresh, positive, grown) =
          add_rule_ok (match_element token) rules rules' f in
        let next : rules_loop tokens rules' ≡ ok after = rw (full, rules_loop, f) at e in
        let (ps, found, keeps) = rules_loop_ok tokens rules' after next (rw grown (positive, p)) in
        (
          ps,
          ((c, n, matched, keeps c n (kept_first c n rules rules' grown)), found),
          λ d m g. keeps d m (kept_other c n rules rules' grown fresh d m g),
        )
    | inr (x, f) ↦
        absurd (let no : err x ≡ ok after = rw (full, rules_loop, f) at e in ground arith)
  ]
]

-- If `_parse_rules` returns, its rules are in the order of the categories, none twice, their counts
-- are positive, and every element between the commas of the specification is one of them: the name
-- of its category followed by at least one decimal figure, and by nothing else but perhaps a
-- newline; the count is the number that the figures stand for.
pub parse_rules-IsRule :
    (spec : Text) (rules : Rules)
    → parse_rules spec ≡ ok rules
    → IsOrdered 0 rules × IsPositive rules × All (IsRule rules) (split_on b',' spec)
unfolding parse_rules
parse_rules-IsRule spec rules e = elim (Result-cases (rules_loop (split_on b',' spec) [])) [
  | inl (dict, f) ↦
      let same : in_order valid_categories dict ≡ rules =
        (let done : ok (in_order valid_categories dict) ≡ ok rules = rw (f, parse_rules) at e in
          cc) in
      let (p, found, keeps) = rules_loop_ok (split_on b',' spec) [] dict f tt in
      rw (← same) (
        in_order-IsOrdered 0 valid_categories dict (
          omega arith,
          (omega arith, (omega arith, (omega arith, (omega arith, (omega arith, tt))))),
        ),
        in_order-IsPositive valid_categories dict p,
        All-imp (split_on b',' spec)
            (λ token (c, n, matched, g). (
              c,
              n,
              match_element-IsElement token (name_of c) n matched,
              in_order-Has c n valid_categories dict (every_category c) g,
            ))
            found,
      )
  | inr (x, f) ↦ absurd (let no : err x ≡ ok rules = rw (f, parse_rules) at e in ground arith)
]
