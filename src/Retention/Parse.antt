-- ===== src/Retention/Parse.antt =====
-- `RetentionFilter._parse_rules` of src/benji/retentionfilter.py: a text of elements such as days7,
-- with commas between them.
use be_backup.Prelude.{
  leb, if◌then◌else◌, ◌==◌, find_first, ℕ, ◌+◌, ◌-◌, ◌*◌, Bool, not, ◌&&◌, ◌||◌, Option, none, some,
  List, [], ◌∷◌, nat_eq, list_eq,
}
use be_backup.Errors.{usage_error, value_error, Result, err, ok, ◌>>=◌, ◌>>◌, require}
use be_backup.Uid.{Text, is_some}
use be_backup.Retention.{Category, latest, hours, days, weeks, months, years, same_category, Rules}

-- str.split with one character
unfoldable pub split_on : ℕ → Text → List Text
split_on c [] = [] ∷ []
split_on c (x ∷ s) =
    let rest = split_on c s in
    if x == c then [] ∷ rest else elim rest [ [] ↦ (x ∷ []) ∷ [] | t ∷ ts ↦ (x ∷ t) ∷ ts ]

-- the longest beginning of characters that pass a test, and the rest
unfoldable pub span : (ℕ → Bool) → Text → Text × Text
span p [] = ([], [])
span p (x ∷ s) = let rest = span p s in if p x then (x ∷ rest.0, rest.1) else ([], x ∷ s)

abbrev pub is_letter : ℕ → Bool
is_letter x = leb b'a' x && leb x b'z'

abbrev pub is_digit : ℕ → Bool
is_digit x = leb b'0' x && leb x b'9'

-- int of a text of digits
unfoldable pub decimal : ℕ → Text → ℕ
decimal n [] = n
decimal n (x ∷ s) = decimal (10 * n + (x - b'0')) s

-- `$` also matches before a newline at the end
abbrev pub at_end : Text → Bool
at_end s = s == [] || s == 10 ∷ []

-- re.search('^([a-z]+)([0-9]+)$', token)
unfoldable pub match_element : Text → Option (Text × ℕ)
match_element token =
    let (letters, after) = span is_letter token in
    let (figures, rest) = span is_digit after in
    if not (letters == []) && not (figures == []) && at_end rest
    then some (letters, decimal 0 figures)
    else none

abbrev pub name_of : Category → Text
name_of latest = b'l' ∷ b'a' ∷ b't' ∷ b'e' ∷ b's' ∷ b't' ∷ []
name_of hours = b'h' ∷ b'o' ∷ b'u' ∷ b'r' ∷ b's' ∷ []
name_of days = b'd' ∷ b'a' ∷ b'y' ∷ b's' ∷ []
name_of weeks = b'w' ∷ b'e' ∷ b'e' ∷ b'k' ∷ b's' ∷ []
name_of months = b'm' ∷ b'o' ∷ b'n' ∷ b't' ∷ b'h' ∷ b's' ∷ []
name_of years = b'y' ∷ b'e' ∷ b'a' ∷ b'r' ∷ b's' ∷ []

abbrev pub valid_categories : List Category
valid_categories = latest ∷ hours ∷ days ∷ weeks ∷ months ∷ years ∷ []

unfoldable pub category_of : Text → Option Category
category_of name = find_first (λ c. name_of c == name) valid_categories

unfoldable pub rule_for : Category → Rules → Option ℕ
rule_for c [] = none
rule_for c ((d, n) ∷ rules) = if same_category c d then some n else rule_for c rules

-- what the loop does with a match
unfoldable pub add_rule : Option (Text × ℕ) → Rules → Result Rules
add_rule none rules = err value_error
add_rule (some (name, n)) rules = elim (category_of name) [
  | none ↦ err value_error
  | some c ↦ do
    require (not (is_some (rule_for c rules))) value_error
    require (not (n == 0)) usage_error
    ok ((c, n) ∷ rules)
]

-- the loop over the tokens; an empty token has no match, and raises the same exception
unfoldable pub rules_loop : List Text → Rules → Result Rules
rules_loop [] rules = ok rules
rules_loop (token ∷ tokens) rules = do
  require (not (token == [])) value_error
  rules' ← add_rule (match_element token) rules
  rules_loop tokens rules'

-- the rules in the order of `_valid_categories`
unfoldable pub in_order : List Category → Rules → Rules
in_order [] rules = []
in_order (c ∷ cs) rules = elim (rule_for c rules) [
  | none ↦ in_order cs rules
  | some n ↦ (c, n) ∷ in_order cs rules
]

unfoldable pub parse_rules : Text → Result Rules
parse_rules spec = do
  rules ← rules_loop (split_on b',' spec) []
  ok (in_order valid_categories rules)
