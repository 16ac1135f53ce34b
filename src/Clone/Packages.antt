-- ===== src/Clone/Packages.antt =====
-- The work packages do not change what is written.
use mathlib.Core.List.{append_assoc, map-append, append-nil}
use be_backup.Prelude.{
  Bool-cases, ◌==◌, length, filter, ℕ, zero, suc, ◌+◌, ◌≡◌, refl, sym, ap, ◌∙◌, ◌⊎◌, inl, inr, Bool,
  List, [], ◌∷◌, ◌++◌, arith, nat_eq, list_eq, option_eq,
}
use be_backup.Errors.{Exception, Result, ok, err, ◌>>=◌}
use be_backup.Uid.{block_uid_eq}
use be_backup.Database.{Block, Version, Database}
use be_backup.Versions.{has_content, insert_rows, rows_of, create_blocks}
use be_backup.Clone.{clone_block, next_block, push_block, clone_loop}

filter-append {ℓ} :
    {A : Type ℓ} (p : A → Bool) (xs ys : List A) → filter p (xs ++ ys) ≡ filter p xs ++ filter p ys
unfolding filter
filter-append p [] ys = refl
filter-append p (x ∷ xs) ys = ground (arith, filter-append p xs ys)

insert_rows-append :
    (new more rows : List Block)
    → insert_rows (new ++ more) rows ≡ (insert_rows new rows >>= insert_rows more)
unfolding insert_rows
insert_rows-append [] more rows = refl
insert_rows-append (b ∷ new) more rows =
    ground (arith, insert_rows-append new more (rows ++ b ∷ []))

pub Result-cases {ℓ} :
    {A : Type ℓ} (r : Result A) → ((a : A) × (r ≡ ok a)) ⊎ ((e : Exception) × (r ≡ err e))
Result-cases (ok a) = inl (a, refl)
Result-cases (err e) = inr (e, refl)

create_blocks-append :
    (db : Database) (v : Version) (xs ys : List Block)
    → create_blocks db v (xs ++ ys) ≡ (create_blocks db v xs >>= λ db'. create_blocks db' v ys)
unfolding create_blocks rows_of
create_blocks-append db v xs ys =
    rw (filter-append (has_content v) xs ys, map-append)
      (ground (arith, insert_rows-append (rows_of v xs) (rows_of v ys) db.blocks))

-- all blocks that the loop prepares
unfoldable pub clones : Version → List Block → ℕ → ℕ → Result (List Block)
clones v old i zero = ok []
clones v old i (suc n) = do
  (b, rest) ← next_block i old
  more ← clones v rest (i + 1) n
  ok (clone_block v i b ∷ more)

module _ (v : Version) (work_package : ℕ) where
  -- Whatever the size of a work package, the loop writes the prepared blocks as one call of
  -- `create_blocks` would, or fails as it would.
  pub clone_loop-create_blocks :
      (db : Database) (old : List Block) (i n : ℕ) (blocks cs : List Block)
      → clones v old i n ≡ ok cs
      → clone_loop db v work_package old i n blocks ≡ create_blocks db v (blocks ++ cs)
  unfolding clone_loop clones push_block
  clone_loop-create_blocks db old i zero blocks cs e = let c : cs ≡ [] = cc in rw (c, append-nil)
  clone_loop-create_blocks db old i (suc n) blocks cs e = elim (Result-cases (next_block i old)) [
    | inr (x, failed) ↦ absurd (ground arith)
    | inl ((b, rest), found) ↦ elim (Result-cases (clones v rest (i + 1) n)) [
      | inr (x, failed) ↦ absurd (ground arith)
      | inl (more, prepared) ↦
          let x = clone_block v i b in
          let c : cs ≡ x ∷ more = ground arith in
          let split : blocks ++ x ∷ more ≡ (blocks ++ x ∷ []) ++ more =
            sym (append_assoc blocks (x ∷ []) more) in
          rw (found, c)
            (elim (Bool-cases (length (blocks ++ x ∷ []) == work_package)) [
              | inr room ↦ rw room (
                  clone_loop-create_blocks db rest (i + 1) n (blocks ++ x ∷ []) more prepared
                  ∙ ap (create_blocks db v) (sym split))
              | inl full ↦
                  rw (full, split, create_blocks-append db v (blocks ++ x ∷ []) more)
                    (elim (Result-cases (create_blocks db v (blocks ++ x ∷ []))) [
                      | inr (e', refused) ↦ rw refused
                      | inl (db', written) ↦
                          rw written (clone_loop-create_blocks db' rest (i + 1) n [] more prepared)
                    ])
            ])
    ]
  ]
