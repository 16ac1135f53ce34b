-- ===== src/Backup/Invariant.antt =====
-- What the rows, the storage and the jobs of a backup satisfy, and that a change of one row or one
-- block of the storage keeps it.
use be_backup.Prelude.{
  if◌then◌else◌, Option-cases, ◌==◌, ==_refl, length, All, All-imp, All-Has, find_first-Has, ℕ, ◌+◌,
  ◌≡◌, refl, ◌∙◌, ◌≢◌, inl, inr, true, false, not, ◌&&◌, Option, some, List, [], ◌∷◌, arith, nat_eq,
  list_eq, option_eq,
}
use be_backup.Errors.{ok}
use be_backup.Uid.{Text, BlockUid, block_uid, is_set, block_uid_eq}
use be_backup.Database.{
  Block, Version, Database, has_key, find_row, create_sparse_block, get_block_by_idx,
}
use be_backup.Database.Rows.{IsKeyed}
use be_backup.Versions.{block_row, set_block}
use be_backup.Versions.Blocks.{set_block-IsKeyed, get_block-set_block}
use be_backup.Transforms.{Bytes}
use be_backup.Backup.{Stage, reading, queued, written, finished, zeros, new_block}
use be_backup.Backup.Steps.{World}
use be_backup.Backup.Rows.{All-set_block, versions-set_block, in_storage}

-- the data that a block names: its object's, or zeros for a sparse block
unfoldable pub content : {S : Type 0} → World S → S → Block → Option Bytes
content w s b = if is_set b.uid then w.load s b.uid else some (zeros b.size)

-- The block is valid and names the data, with its size and its checksum.
abbrev pub IsGood : {S : Type 0} → World S → S → Bytes → Block → Type 0
IsGood w s bytes r =
    (r.valid ≡ true)
    × (r.size ≡ length bytes)
    × (content w s r ≡ some bytes)
    × (is_set r.uid ≡ true → r.checksum ≡ some (w.hash bytes))

-- No row has the UID that a new block at the index would get.
abbrev pub IsFree : {S : Type 0} → World S → List Block → ℕ → Type 0
IsFree w rows i = All (λ r. r.uid ≢ block_uid w.version.id (i + 1)) rows

-- What the storage writes it gives back, and the other blocks stay.
abbrev pub KeepsBlocks : {S : Type 0} → World S → Type 0
KeepsBlocks {S} w =
    (b : Block) (bytes : Bytes) (s s' : S) (u : BlockUid)
    → is_set b.uid ≡ true
    → w.write b bytes s ≡ (ok tt, s')
    → w.load s' u ≡ (if b.uid == u then some bytes else w.load s u)

module _ {S : Type 0} (w : World S) (Known : Bytes → Type 0) where
  -- A valid row with a checksum, in the version's storage, names known data of that checksum.
  abbrev pub IsStored : List Version → S → Block → Type 0
  IsStored vs s r =
      (c : Text)
      → r.checksum ≡ some c
      → r.valid ≡ true
      → in_storage vs w.version r ≡ true
      → (is_set r.uid ≡ true)
        × ((bytes : Bytes) × (w.load s r.uid ≡ some bytes)
            × (w.hash bytes ≡ c)
            × (length bytes ≡ r.size)
            × Known bytes)

  abbrev pub IsSound : Database → S → Type 0
  IsSound db s = IsKeyed db.blocks × All (IsStored db.versions s) db.blocks

All-zip {ℓ κ μ} :
    {A : Type ℓ} (P : A → Type κ) (Q : A → Type μ) (xs : List A)
    → All P xs
    → All Q xs
    → All (λ x. P x × Q x) xs
All-zip P Q [] p q = tt
All-zip P Q (x ∷ xs) p q = ((p.0, q.0), All-zip P Q xs p.1 q.1)

All-find {κ} :
    (P : Block → Type κ) (vid i : ℕ) (rows : List Block) (r : Block)
    → find_row vid i rows ≡ some r
    → All P rows
    → P r
unfolding find_row
All-find P vid i rows r e a = All-Has P r rows (find_first-Has (has_key vid i) rows r e).0 a

-- the block at an index is a row or a sparse block
All-get_block {κ} :
    (P : Block → Type κ) (db : Database) (v : Version) (i : ℕ)
    → All P db.blocks
    → P (create_sparse_block v i)
    → P (get_block_by_idx db v i)
unfolding get_block_by_idx
All-get_block P db v i a p = elim (Option-cases (find_row v.id i db.blocks)) [
  | inl absent ↦ rw (absent) p
  | inr (r, present) ↦ rw (present) (All-find P v.id i db.blocks r present a)
]

new_uid_differs : (vid i j : ℕ) → i ≢ j → (block_uid vid (i + 1) == block_uid vid (j + 1)) ≡ false
new_uid_differs vid i j d = ground arith

module _ {S : Type 0} (w : World S) (image : ℕ → Bytes) where
  -- the block at the index holds the data of the source
  abbrev pub Holds : Database → S → ℕ → Type 0
  Holds db s i = IsGood w s (image i) (get_block_by_idx db w.version i)

  -- what a job has reached
  abbrev pub IsDue : Database → S → Block → Stage → Type 0
  IsDue db s b reading = IsFree w db.blocks b.idx
  IsDue db s b (queued new bytes) =
      IsFree w db.blocks b.idx
      × (bytes ≡ image b.idx)
      × (new ≡ new_block w.version b (w.hash (image b.idx)))
  IsDue db s b (written new) =
      (w.load s new.uid ≡ some (image b.idx)) × (new ≡ new_block w.version b (w.hash (image b.idx)))
  IsDue db s b finished = Holds db s b.idx

  -- what holds of the jobs of the blocks at other indices
  abbrev pub Keeps : ℕ → Database → S → Database → S → Type 0
  Keeps i db s db' s' = (b : Block) (t : Stage) → b.idx ≢ i → IsDue db s b t → IsDue db' s' b t

  module _ (Known : Bytes → Type 0) (db : Database) (s : S) (sound : IsSound w Known db s) where
    -- a row is set
    module _ (i : ℕ) (u : BlockUid) (c : Option Text) (n : ℕ) where
      abbrev new_db : Database
      new_db = set_block db w.version i u c n true

      module _
          (other : (m : ℕ)
            → m ≢ i
            → IsFree w db.blocks m
            → u ≢ block_uid w.version.id (m + 1)) where
        set_block-IsFree : (m : ℕ) → m ≢ i → IsFree w db.blocks m → IsFree w new_db.blocks m
        set_block-IsFree m d free =
            All-set_block (λ r. r.uid ≢ block_uid w.version.id (m + 1)) db w.version i u c n true
              (λ e. other m d free) free

        set_block-Keeps : Keeps i db s new_db s
        set_block-Keeps b reading d due = set_block-IsFree b.idx d due
        set_block-Keeps b (queued new bytes) d due = (set_block-IsFree b.idx d due.0, due.1, due.2)
        set_block-Keeps b (written new) d due = due
        set_block-Keeps b finished d due =
            let elsewhere : (w.version.id == w.version.id && i == b.idx) ≡ false = ground arith in
            rw (get_block-set_block db w.version i u c n true w.version b.idx, elsewhere) due

        pub row_set :
            ((not (is_set u) && n == w.version.block_size) ≡ false
              → IsStored w Known db.versions s (block_row w.version i u c n true))
            → IsGood w s (image i) (
                if not (is_set u) && n == w.version.block_size
                then create_sparse_block w.version i
                else block_row w.version i u c n true)
            → IsSound w Known new_db s × Holds new_db s i × Keeps i db s new_db s
        row_set stored good =
            let same : new_db.versions ≡ db.versions =
              versions-set_block db w.version i u c n true in
            let here : (w.version.id == w.version.id && i == i) ≡ true = ground arith in
            (
              (
                set_block-IsKeyed db w.version i u c n true sound.0,
                rw same (
                    All-set_block (IsStored w Known db.versions s) db w.version i u c n true stored
                      sound.1),
              ),
              rw (get_block-set_block db w.version i u c n true w.version i, here) good,
              set_block-Keeps,
            )

    -- a new block is written to the storage
    module _ (i : ℕ) (new : Block) (bytes : Bytes) (s' : S) (keeps : KeepsBlocks w)
        (uid : new.uid ≡ block_uid w.version.id (i + 1)) (free : IsFree w db.blocks i)
        (done : w.write new bytes s ≡ (ok tt, s')) where
      load_other : (u : BlockUid) → u ≢ block_uid w.version.id (i + 1) → w.load s' u ≡ w.load s u
      load_other u d =
          let differs : (new.uid == u) ≡ false = rw uid (ground arith) in
          rw (keeps new bytes s s' u (rw uid refl) done, differs)

      load_new : w.load s' new.uid ≡ some bytes
      load_new = rw (keeps new bytes s s' new.uid (rw uid refl) done, ==_refl new.uid)

      content_other :
          (r : Block) → r.uid ≢ block_uid w.version.id (i + 1) → content w s' r ≡ content w s r
      unfolding content
      content_other r d = rw (load_other r.uid d)

      write-IsStored :
          (r : Block)
          → (r.uid ≢ block_uid w.version.id (i + 1)) × IsStored w Known db.versions s r
          → IsStored w Known db.versions s' r
      write-IsStored r (d, stored) c p q t =
          let (set, (bytes', l, h, n, known)) = stored c p q t in
          (set, (bytes', load_other r.uid d ∙ l, h, n, known))

      write-Keeps : Keeps i db s db s'
      write-Keeps b reading d due = due
      write-Keeps b (queued new' bytes') d due = due
      write-Keeps b (written new') d (l, e) =
          (load_other new'.uid (rw e (λ same. ground arith)) ∙ l, e)
      write-Keeps b finished d due =
          let r = get_block_by_idx db w.version b.idx in
          let differs : r.uid ≢ block_uid w.version.id (i + 1) =
            All-get_block (λ r. r.uid ≢ block_uid w.version.id (i + 1)) db w.version b.idx free
              (unfold create_sparse_block in λ e. ground arith) in
          (due.0, due.1, content_other r differs ∙ due.2, due.3)

      pub block_written :
          IsSound w Known db s' × (w.load s' new.uid ≡ some bytes) × Keeps i db s db s'
      block_written =
          let both =
            All-zip (λ r. r.uid ≢ block_uid w.version.id (i + 1)) (IsStored w Known db.versions s)
              db.blocks free sound.1 in
          ((sound.0, All-imp db.blocks write-IsStored both), load_new, write-Keeps)
