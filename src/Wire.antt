-- ===== src/Wire.antt =====
-- Numbers in network order, as struct packs and unpacks them for src/benji/nbdserver.py, and reads
-- from a stream that ends.
use be_backup.Prelude.{
  length, length-append, ℕ, zero, suc, ◌+◌, ◌*◌, ◌/◌, ◌%◌, ◌^◌, ◌<◌, ◌≡◌, refl, ap, ◌∙◌, ◌⊎◌, inl,
  inr, [], ◌∷◌, ◌++◌, arith, nat_eq, list_eq,
}
use be_backup.Errors.{eof_error, Result, err, ok}
use be_backup.Transforms.{Bytes}

-- struct.pack: a number of w bytes, the most significant first
unfoldable pub pack_be : ℕ → ℕ → Bytes
pack_be zero n = []
pack_be (suc w) n = pack_be w (n / 256) ++ n % 256 ∷ []

-- struct.unpack
unfoldable pub unpack_from : ℕ → Bytes → ℕ
unpack_from acc [] = acc
unpack_from acc (b ∷ bytes) = unpack_from (acc * 256 + b) bytes

-- reader.readexactly: a stream that is too short raises
unfoldable pub read_exactly : ℕ → Bytes → Result (Bytes × Bytes)
read_exactly zero xs = ok ([], xs)
read_exactly (suc n) [] = err eof_error
read_exactly (suc n) (x ∷ xs) = elim (read_exactly n xs) [
  | err e ↦ err e
  | ok (a, rest) ↦ ok (x ∷ a, rest)
]

unfoldable pub read_word : ℕ → Bytes → Result (ℕ × Bytes)
read_word w xs = elim (read_exactly w xs) [
  | err e ↦ err e
  | ok (a, rest) ↦ ok (unpack_from 0 a, rest)
]

unpack-append :
    (acc : ℕ) (xs : Bytes) (b : ℕ) → unpack_from acc (xs ++ b ∷ []) ≡ unpack_from acc xs * 256 + b
unfolding unpack_from
unpack-append acc [] b = refl
unpack-append acc (x ∷ xs) b = unpack-append (acc * 256 + x) xs b

unpack-pack_be : (w n : ℕ) → n < 256 ^ w → unpack_from 0 (pack_be w n) ≡ n
unfolding unpack_from pack_be
unpack-pack_be zero n lt = omega arith
unpack-pack_be (suc w) n lt =
    unpack-append 0 (pack_be w (n / 256)) (n % 256)
    ∙ ap (λ k. k * 256 + n % 256)
        (unpack-pack_be w (n / 256)
          (let p : 256 ^ suc w ≡ 256 ^ w * 256 = grind arith in omega arith))
    ∙ omega arith

length-pack_be : (w n : ℕ) → length (pack_be w n) ≡ w
unfolding pack_be
length-pack_be zero n = refl
length-pack_be (suc w) n =
    length-append (pack_be w (n / 256)) (n % 256 ∷ [])
    ∙ rw (length-pack_be w (n / 256)) (omega arith)

pub read_exactly-append : (a rest : Bytes) → read_exactly (length a) (a ++ rest) ≡ ok (a, rest)
unfolding read_exactly
read_exactly-append [] rest = refl
read_exactly-append (x ∷ a) rest = rw (read_exactly, read_exactly-append a rest) refl

-- a number of w bytes that was packed is read
pub read_word-pack_be :
    (w n : ℕ) (rest : Bytes) → n < 256 ^ w → read_word w (pack_be w n ++ rest) ≡ ok (n, rest)
unfolding read_word
read_word-pack_be w n rest lt =
    let e = read_exactly-append (pack_be w n) rest in
    let e' : read_exactly w (pack_be w n ++ rest) ≡ ok (pack_be w n, rest) =
      rw (length-pack_be w n) at e in
    rw (read_word, e', unpack-pack_be w n lt) refl

-- a read raises, or the rest is shorter by what was asked for
pub read_exactly-cases :
    (n : ℕ) (xs : Bytes)
    → (read_exactly n xs ≡ err eof_error)
      ⊎ ((a : Bytes) × (rest : Bytes) × (read_exactly n xs ≡ ok (a, rest))
          × (length rest + n ≡ length xs))
unfolding read_exactly
read_exactly-cases zero xs = inr ([], xs, refl, omega arith)
read_exactly-cases (suc n) [] = inl refl
read_exactly-cases (suc n) (x ∷ xs) = elim (read_exactly-cases n xs) [
  | inl e ↦ inl (rw (read_exactly, e) refl)
  | inr (a, rest, e, l) ↦ inr (x ∷ a, rest, rw (read_exactly, e) refl, omega arith)
]

pub read_word-cases :
    (w : ℕ) (xs : Bytes)
    → (read_word w xs ≡ err eof_error)
      ⊎ ((n : ℕ) × (rest : Bytes) × (read_word w xs ≡ ok (n, rest)) × (length rest + w ≡ length xs))
unfolding read_word
read_word-cases w xs = elim (read_exactly-cases w xs) [
  | inl e ↦ inl (rw (read_word, e) refl)
  | inr (a, rest, e, l) ↦ inr (unpack_from 0 a, rest, rw (read_word, e) refl, l)
]

pub length-packed : (w n : ℕ) (rest : Bytes) → length (pack_be w n ++ rest) ≡ w + length rest
length-packed w n rest =
    length-append (pack_be w n) rest ∙ ap (λ k. k + length rest) (length-pack_be w n)
