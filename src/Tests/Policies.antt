-- ===== src/Tests/Policies.antt =====
-- Tests of the retention filter, on versions that are their dates, and of the removal of a version.
use be_backup.Prelude.{
  leb, if◌then◌else◌, ◌==◌, list_eqb, All, contains, add, contains-add, Has, ℕ, ◌-◌, ◌/◌, ◌≡◌, refl,
  ◌∙◌, ◌≢◌, ◌⊎◌, inl, inr, true, false, ◌&&◌, ◌||◌, Option, none, some, List, [], ◌∷◌, ◌++◌, arith,
  nat_eq, list_eq, option_eq,
}
use be_backup.Retention.{
  Category, latest, days, Rules, too_old, place_in, place_of, latest_count, append_to, all_but_last,
  of_category, of_categories, insert_youngest_first, youngest_first, sort_out, retention_filter,
}
use be_backup.Retention.Periods.{StandsFor}
use be_backup.Retention.Kept.{AreDistinct, retention_filter-StandsFor}
use be_backup.Retention.Considered.{HasLater, retention_filter-considered}
use be_backup.Retention.Parse.{
  split_on, span, decimal, match_element, category_of, rule_for, add_rule, rules_loop, in_order,
  parse_rules,
}
use be_backup.Retention.Spec.{IsOrdered, IsPositive, IsRule, parse_rules-IsRule}
use be_backup.Errors.{permission_error, err, ok}
use be_backup.Uid.{Text, block_uid, block_uid_eq}
use be_backup.Database.{Database}
use be_backup.Versions.{remove_version, get_by_uid}
use be_backup.Locking.{Lock, find_lock}
use be_backup.Locking.Table.{HasKeys, holder}
use be_backup.Remove.{RemoveRequest, rm_version_object, protect, rm}
use be_backup.History.{BitField, IsBitField, History, add_block, seen, seen-add_block}
use be_backup.Remove.Outcomes.{may_remove, rm_outcomes}
use be_backup.Remove.Protected.{rm-protect}
use be_backup.Tests.Data.{version_a, archive, process_1}

abbrev rules : Rules
rules = (latest, 1) ∷ (days, 3) ∷ []

-- ten ticks are a day, and the reference time is 100
abbrev counts_of : ℕ → Option (Category → ℕ)
counts_of t = if leb t 100 then some (λ c. (100 - t) / 10) else none

abbrev dates : List ℕ
dates = 20 ∷ 81 ∷ 84 ∷ 99 ∷ []

dismissed_dates : (retention_filter (λ t. t) counts_of rules dates).0 ≡ 20 ∷ 84 ∷ []
unfolding retention_filter youngest_first insert_youngest_first sort_out of_categories of_category
    append_to place_of place_in latest_count all_but_last
dismissed_dates = refl

rules-IsOrdered : IsOrdered 0 rules
rules-IsOrdered = (omega arith, (omega arith, tt))

dates-AreDistinct : AreDistinct (λ t. t) dates
dates-AreDistinct = (
  (λ e. absurd (ground arith), (λ e. absurd (ground arith), (λ e. absurd (ground arith), tt))),
  (
    (λ e. absurd (ground arith), (λ e. absurd (ground arith), tt)),
    ((λ e. absurd (ground arith), tt), (tt, tt)),
  ),
)

retention_filter-StandsFor_example :
    (place_of rules (counts_of 84) ≡ too_old)
    ⊎ ((w : ℕ) × Has w (retention_filter (λ t. t) counts_of rules dates).1
        × Has w dates
        × ((x : ℕ) → Has x (retention_filter (λ t. t) counts_of rules dates).0 → x ≢ w)
        × StandsFor (λ t. t) (λ a. place_of rules (counts_of a)) 84 w)
retention_filter-StandsFor_example =
    retention_filter-StandsFor (λ t. t) (λ t. t) counts_of rules dates 84 rules-IsOrdered
      dates-AreDistinct (rw dismissed_dates (inr (inl refl)))

retention_filter-considered_example :
    (let (dismissed, remaining) = retention_filter (λ t. t) counts_of rules dates in
      All (HasLater (λ t. t) rules dates) (dismissed ++ remaining))
retention_filter-considered_example =
    retention_filter-considered (λ t. t) counts_of rules dates rules-IsOrdered

-- days3,latest1
abbrev spec : Text
spec = b'd' ∷ b'a' ∷ b'y' ∷ b's' ∷ b'3' ∷ b',' ∷ b'l' ∷ b'a' ∷ b't' ∷ b'e' ∷ b's' ∷ b't' ∷ b'1' ∷ []

spec_parsed : parse_rules spec ≡ ok rules
unfolding parse_rules rules_loop split_on add_rule match_element span decimal category_of rule_for
    in_order be_backup.Prelude.list_eqb
spec_parsed = refl

parse_rules-IsRule_example :
    IsOrdered 0 rules × IsPositive rules × All (IsRule rules) (split_on b',' spec)
parse_rules-IsRule_example = parse_rules-IsRule spec rules spec_parsed

abbrev removal : RemoveRequest
removal = record {
  version_uid = b'a' ∷ [];
  force = false;
  disallow_rm_when_younger_than_days = 6;
  keep_metadata_backup = false;
  override_lock = false;
}

abbrev week : ℕ
week = 604800

a_found : get_by_uid archive removal.version_uid ≡ ok version_a
unfolding get_by_uid be_backup.Prelude.list_eqb
a_found = refl

rm_outcomes_example :
    (after : List Lock) × (rm process_1 week 3 removal archive [] [] ≡ (
      (if may_remove week removal version_a
          then ok (
            (remove_version archive version_a 3 week).0,
            if removal.keep_metadata_backup then [] else rm_version_object version_a [],
          )
          else err permission_error),
      after,
    ))
    × HasKeys after
    × ((n : Text) → holder n after ≡ holder n [])
unfolding holder be_backup.Locking.find_lock
rm_outcomes_example = rm_outcomes process_1 week 3 removal archive [] [] version_a tt refl a_found

rm-protect_example :
    (protected_db : Database) × (protect archive removal.version_uid true ≡ ok protected_db)
    × (after : List Lock) × (rm process_1 week 3 removal protected_db [] []
        ≡ (err permission_error, after))
    × HasKeys after
    × ((n : Text) → holder n after ≡ holder n [])
unfolding holder be_backup.Locking.find_lock
rm-protect_example = rm-protect process_1 week 3 removal archive [] [] version_a tt refl a_found

abbrev pub bit_list : BitField (List ℕ)
bit_list = record { empty = []; add_bit = add; has_bit = λ i f. contains f i }

bit_list-IsBitField : IsBitField bit_list
bit_list-IsBitField = record {
  has_bit-empty = λ i. refl;
  has_bit-add_bit = λ i j f. contains-add i j f ∙ ground arith;
}

seen-add_block_example :
    (after : History bit_list) × (add_block bit_list 1 (block_uid 5 6) [] ≡ ok after)
    × ((t k q : ℕ)
        → seen bit_list t (block_uid k q) after
          ≡ (1 == t && (5 == k && 6 == q) || seen bit_list t (block_uid k q) []))
seen-add_block_example = seen-add_block bit_list bit_list-IsBitField 1 5 6 []
