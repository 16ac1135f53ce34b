-- ===== src/Storage/Failures.antt =====
-- What a file storage holds after `_rm_block`, and after a `_write` that failed.
use be_backup.Prelude.{
  if◌then◌else◌, Bool-cases, ◌==◌, ==_refl, list_eqb_iff, filter, ◌≡◌, refl, ◌∙◌, ◌⊎◌, inl, inr,
  not, [], ◌∷◌, arith, list_eq, nat_eq,
}
use be_backup.Errors.{Exception, file_not_found_error, Result, ok, err}
use be_backup.Uid.{Text}
use be_backup.Transforms.{Bytes}
use be_backup.Storage.{Backend}
use be_backup.Storage.Operations.{pass_not_found, proceed, reraise, rm_both, write_both}
use be_backup.Storage.File.{Files, read_file, rm_file, file_storage}

-- a removal that is done, or the exception that there is no such object
abbrev pub IsGone : {S : Type 0} → Backend S → Text → S → Type 0
IsGone b key s = b.read_object key s ≡ err file_not_found_error

-- what is relied on of a backend that may fail to write
pub record IsBackend {S : Type 0} (b : Backend S) : Type 0 where
  pub rm_gone :
      (key : Text) (s : S)
      → ((b.rm_object key s).0 ≡ ok tt) ⊎ ((b.rm_object key s).0 ≡ err file_not_found_error)
  pub rm_reads : (key : Text) (s : S) → IsGone b key (b.rm_object key s).1
  pub rm_keeps : (key k : Text) (s : S) → IsGone b k s → IsGone b k (b.rm_object key s).1

module _ {S : Type 0} (m : Result (Unit {0}) × S) where
  proceed_ok :
      (next : S → Result (Unit {0}) × S) (fail : Exception → S → Result (Unit {0}) × S)
      → m.0 ≡ ok tt
      → proceed m next fail ≡ next m.1
  proceed_ok next fail e = rw e

  proceed_err :
      (next : S → Result (Unit {0}) × S) (fail : Exception → S → Result (Unit {0}) × S)
      (e : Exception)
      → m.0 ≡ err e
      → proceed m next fail ≡ fail e m.1
  proceed_err next fail e h = rw h

module _ {S : Type 0} (b : Backend S) (laws : IsBackend b) where
  undo_lem :
      (key metadata_key : Text) (e : Exception) (s : S)
      → (let (w, s') = reraise e (pass_not_found (rm_both b key metadata_key s)) in
          (w ≡ err e) × IsGone b key s')
  unfolding reraise rm_both
  undo_lem key metadata_key e s =
      let second = laws.rm_gone metadata_key (b.rm_object key s).1 in
      let gone = laws.rm_reads key s in
      let still = laws.rm_keeps metadata_key key (b.rm_object key s).1 gone in
      elim (laws.rm_gone key s) [
        | inl t ↦ elim second [
          | inl u ↦ rw (proceed_ok, t, u) (refl, still)
          | inr u ↦ rw (proceed_ok, t, u) (refl, still)
        ]
        | inr f ↦ rw (proceed_err, f) (refl, gone)
      ]

  -- Let removing an object from the storage either be done or say that it is not there, and make
  -- none appear. If writing one of the two objects of a block raises an exception, it is that
  -- exception that the caller sees, and the data of the block is not in the storage afterwards.
  pub write_both_failed :
      (key metadata_key : Text) (bytes metadata_json : Bytes) (s : S) (e : Exception)
      → ((b.write_object key bytes s).0 ≡ err e)
        ⊎ (((b.write_object key bytes s).0 ≡ ok tt)
            × ((b.write_object metadata_key metadata_json (b.write_object key bytes s).1).0
                ≡ err e))
      → (let (w, s') = write_both b key metadata_key bytes metadata_json s in
          (w ≡ err e) × IsGone b key s')
  unfolding write_both
  write_both_failed key metadata_key bytes metadata_json s e (inl x) =
      rw (write_both, x) (undo_lem key metadata_key e (b.write_object key bytes s).1)
  write_both_failed key metadata_key bytes metadata_json s e (inr (x, y)) =
      rw (write_both, x, y)
        (undo_lem key metadata_key e
          (b.write_object metadata_key metadata_json (b.write_object key bytes s).1).1)

read-filter :
    (k key : Text) (files : Files)
    → read_file k (filter (λ f. not (f.0 == key)) files)
      ≡ (if key == k then err file_not_found_error else read_file k files)
unfolding read_file filter
read-filter k key [] = ground arith
read-filter k key ((n, bytes) ∷ files) =
    ground
      (arith, read-filter k key files, list_eqb_iff n key, list_eqb_iff n k, list_eqb_iff key k)

read_file_err :
    (k : Text) (files : Files)
    → ((bytes : Bytes) × (read_file k files ≡ ok bytes))
      ⊎ (read_file k files ≡ err file_not_found_error)
unfolding read_file
read_file_err k [] = inr refl
read_file_err k ((n, bytes) ∷ files) = elim (Bool-cases (n == k)) [
  | inl e ↦ inl (bytes, rw e)
  | inr e ↦ rw e (read_file_err k files)
]

rm_file_cases :
    (key : Text) (files : Files)
    → (rm_file key files ≡ (ok tt, filter (λ f. not (f.0 == key)) files))
      ⊎ ((rm_file key files ≡ (err file_not_found_error, files))
          × (read_file key files ≡ err file_not_found_error))
unfolding rm_file
rm_file_cases key files = elim (read_file_err key files) [
  | inl (bytes, e) ↦ inl (rw (rm_file, e))
  | inr e ↦ inr (rw (rm_file, e), e)
]

file_gone :
    (key : Text) (files : Files)
    → ((rm_file key files).0 ≡ ok tt) ⊎ ((rm_file key files).0 ≡ err file_not_found_error)
file_gone key files = elim (rm_file_cases key files) [
  | inl e ↦ inl (rw e)
  | inr (e, missing) ↦ inr (rw e)
]

read-rm_file :
    (k key : Text) (files : Files)
    → read_file k (rm_file key files).1
      ≡ (if key == k then err file_not_found_error else read_file k files)
read-rm_file k key files = elim (rm_file_cases key files) [
  | inl e ↦ rw e (read-filter k key files)
  | inr (e, missing) ↦ rw e (ground (arith, list_eqb_iff key k))
]

-- A file storage has these properties.
pub file_storage-IsBackend : IsBackend file_storage
unfolding file_storage
file_storage-IsBackend = record {
  rm_gone = file_gone;
  rm_reads = λ key files. rw (read-rm_file key key files, ==_refl key);
  rm_keeps = λ key k files gone. read-rm_file k key files ∙ ground arith;
}
