-- ===== src/Uid/Digits.antt =====
-- Hexadecimal digits: what is printed is read back.
use mathlib.Core.List.{append_assoc}
use native.Mathlib.Nat.{pow-suc}
use be_backup.Prelude.{
  length, length-append, ℕ, zero, suc, ◌+◌, ◌*◌, ◌/◌, ◌%◌, ◌^◌, ◌<◌, ◌≡◌, refl, ap, ◌∙◌, some, [],
  ◌∷◌, ◌++◌, arith, nat_eq,
}
use be_backup.Uid.{Text, digit, low_digits, digit_value, parse_digits, block_uid_eq}

digit_value-digit : (d : ℕ) → d < 16 → digit_value (digit d) ≡ some d
unfolding digit_value digit
digit_value-digit d h = ground arith

parse_digits-digit :
    (m d : ℕ) (rest : Text)
    → d < 16
    → parse_digits m (digit d ∷ rest) ≡ parse_digits (m * 16 + d) rest
unfolding parse_digits
parse_digits-digit m d rest h = rw (digit_value-digit d h, parse_digits)

pub length-low_digits : (w n : ℕ) → length (low_digits w n) ≡ w
unfolding low_digits
length-low_digits zero n = refl
length-low_digits (suc w) n = omega (
  arith,
  length-append (low_digits w (n / 16)) (digit (n % 16) ∷ []),
  length-low_digits w (n / 16),
)

pub parse-low_digits :
    (w m n : ℕ) (rest : Text)
    → n < 16 ^ w
    → parse_digits m (low_digits w n ++ rest) ≡ parse_digits (m * 16 ^ w + n) rest
unfolding low_digits
parse-low_digits zero m n rest h = ap (λ k. parse_digits k rest) (omega arith)
parse-low_digits (suc w) m n rest h =
    let p : 16 ^ suc w ≡ 16 ^ w * 16 = pow-suc 16 w in
    let low : n / 16 < 16 ^ w = omega (arith, p) in
    rw append_assoc (
      parse-low_digits w m (n / 16) (digit (n % 16) ∷ rest) low
      ∙ parse_digits-digit (m * 16 ^ w + n / 16) (n % 16) rest (omega arith)
      ∙ ap (λ k. parse_digits k rest) (rw p (grind arith)))
