-- ===== src/NbdStore/Chunks.antt =====
-- A write to one block changes the device as a write to a file would.
use be_backup.Prelude.{
  ltb, Bool-cases, Option-cases, ◌==◌, ==_refl, eq_of_==, length, take, drop, replicate,
  length-replicate, length-take, length-drop, contains, add, contains-add, ℕ, ◌+◌, ◌*◌, ◌≤◌, ◌<◌,
  ◌≡◌, refl, sym, ap, subst, ◌∙◌, ◌≢◌, inl, inr, true, false, Option, none, some, List, [], ◌∷◌,
  arith, nat_eq, list_eq, option_eq,
}
use be_backup.Errors.{Result, ok}
use be_backup.Uid.{Text, BlockUid, block_uid, is_set, block_uid_eq}
use be_backup.Database.{Block, Version, Database, get_block_by_idx}
use be_backup.Database.Rows.{get_block-idx}
use be_backup.Transforms.{Bytes}
use be_backup.Io.{write_at}
use be_backup.Io.Slices.{slice, length-write_at, slice-write_at_other, take-all}
use be_backup.Io.Parts.{take-write_at, block-write_at}
use be_backup.Storage.File.{write_file}
use be_backup.Storage.RoundTrip.{read-write_file}
use be_backup.BlockList.{Chunk}
use be_backup.BlockList.Cover.{HasBlockSizes}
use be_backup.NbdStore.{
  BlockStore, update_bytes, store_write, store_update, find_copy, copied_data, write_chunk,
}
use be_backup.NbdStore.Device.{IsShownBy, IsShown, Shows}
use be_backup.NbdStore.Reads.{slice-zeros}

-- Each UID of a copied block has a file name, and no two have the same.
abbrev pub HasNames : (BlockUid → Result Text) → Version → Type 0
HasNames path v =
    ((i : ℕ)
      → i * v.block_size < v.size
      → (name : Text) × (path (block_uid v.id (i + 1)) ≡ ok name))
    × ((i j : ℕ) (name : Text)
        → i * v.block_size < v.size
        → j * v.block_size < v.size
        → path (block_uid v.id (i + 1)) ≡ ok name
        → path (block_uid v.id (j + 1)) ≡ ok name
        → i ≡ j)

update_bytes_lem : (o : ℕ) (x old : Bytes) → 0 < length x → update_bytes o x old ≡ write_at o x old
unfolding update_bytes
update_bytes_lem o [] old pos = absurd (omega arith)
update_bytes_lem o (c ∷ x) old pos = refl

length-update :
    (o : ℕ) (x old : Bytes)
    → 0 < length x
    → o + length x ≤ length old
    → length (update_bytes o x old) ≡ length old
length-update o x old pos le = ap length (update_bytes_lem o x old pos) ∙ length-write_at o x old le

store_write_lem :
    (path : BlockUid → Result Text) (uid : BlockUid) (name : Text) (bytes : Bytes) (s : BlockStore)
    → path uid ≡ ok name
    → store_write path uid bytes s
      ≡ ok (record {
        files = write_file name bytes s.files;
        block_present = add uid s.block_present;
      })
unfolding store_write
store_write_lem path uid name bytes s own = rw own refl

next_block_start : (i j bs : ℕ) → i < j → i * bs + bs ≤ j * bs
next_block_start i j bs lt = grind arith

module _ (path : BlockUid → Result Text) (fetch : Block → Result Bytes) (v : Version)
    (names : HasNames path v) (db : Database) (sizes : HasBlockSizes db v) (dev : Bytes) (i : ℕ)
    (o : ℕ) (x : Bytes) (pos : 0 < length x)
    (inside : o + length x ≤ (get_block_by_idx db v i).size) (len : length dev ≡ v.size)
    (starts : i * v.block_size < v.size) where
  abbrev b : Block
  b = get_block_by_idx db v i

  -- the device after the write
  abbrev dev' : Bytes
  dev' = write_at (i * v.block_size + o) x dev

  fits : i * v.block_size + b.size ≤ length dev
  fits = omega (arith, sizes i starts)

  length-dev' : length dev' ≡ v.size
  length-dev' = length-write_at (i * v.block_size + o) x dev (omega (arith, fits)) ∙ len

  -- the block's own part of the device
  own_part :
      slice (i * v.block_size) b.size dev' ≡ write_at o x (slice (i * v.block_size) b.size dev)
  own_part = block-write_at (i * v.block_size) b.size o x dev inside (omega (arith, fits))

  other_part :
      (j : ℕ)
      → j ≢ i
      → j * v.block_size < v.size
      → (let n = (get_block_by_idx db v j).size in
          slice (j * v.block_size) n dev' ≡ slice (j * v.block_size) n dev)
  other_part j d starts' =
      let n = (get_block_by_idx db v j).size in
      slice-write_at_other (i * v.block_size + o) (j * v.block_size) n x dev
        (elim (Bool-cases (ltb j i)) [
          | inl before ↦
              inl (omega (arith, sizes j starts', next_block_start j i v.block_size (ground arith)))
          | inr after ↦
              inr (omega (arith, sizes i starts, next_block_start i j v.block_size (ground arith)))
        ])
        (omega (arith, fits))

  -- a file that begins with the block, after the update
  updated_file :
      (file bytes : Bytes)
      → take b.size file ≡ bytes
      → b.size ≤ length file
      → (take b.size (update_bytes o x file) ≡ write_at o x bytes)
        × (b.size ≤ length (update_bytes o x file))
  updated_file file bytes begins long = (
    ap (take b.size) (update_bytes_lem o x file pos)
        ∙ (take-write_at b.size o x file inside (omega arith) ∙ ap (write_at o x) begins),
    omega (arith, length-update o x file pos (omega arith)),
  )

  abbrev own_uid : BlockUid
  own_uid = block_uid v.id (i + 1)

  -- a store with a new file for the block, which keeps the other blocks
  abbrev HasFile : BlockStore → Bytes → BlockStore → Type 0
  HasFile s file s' =
      ((name : Text) × (path own_uid ≡ ok name) × (s'.files ≡ write_file name file s.files))
      × ((u : BlockUid) → contains s.block_present u ≡ true → contains s'.block_present u ≡ true)

  other_shown :
      (s s' : BlockStore) (file bytes : Bytes) (c : Block) (copy : Option Block)
      → HasFile s file s'
      → c.idx ≢ i
      → c.idx * v.block_size < v.size
      → IsShownBy path fetch v.id v s bytes c copy
      → IsShownBy path fetch v.id v s' bytes c copy
  other_shown s s' file bytes c none has d lt shown = shown
  other_shown s s' file bytes c (some copy) ((name, own, files), keeps) d lt
        (uid, present, (f, (nm, at, holds, begins, long))) =
      let at' : path (block_uid v.id (c.idx + 1)) ≡ ok nm = rw (← uid) at in
      let differs : (name == nm) ≡ false = elim (Bool-cases (name == nm)) [
        | inr other ↦ other
        | inl same ↦
            absurd (d (names.1 c.idx i nm lt starts at' (rw (← eq_of_== name nm same) own)))
      ] in
      (
        uid,
        keeps copy.uid present,
        (f, (nm, at, rw (files, read-write_file, differs) holds, begins, long)),
      )

  own_shown :
      (s s' : BlockStore) (file bytes : Bytes) (copy : Block)
      → HasFile s (update_bytes o x file) s'
      → copy.uid ≡ own_uid
      → contains s'.block_present copy.uid ≡ true
      → take b.size file ≡ bytes
      → b.size ≤ length file
      → IsShownBy path fetch v.id v s' (write_at o x bytes) b (some copy)
  own_shown s s' file bytes copy ((name, own, files), keeps) uid present begins long =
      let (begins', long') = updated_file file bytes begins long in
      (
        uid ∙ ap (λ j. block_uid v.id (j + 1)) (sym (get_block-idx db v i)),
        present,
        (
          update_bytes o x file,
          (name, rw uid own, rw (files, read-write_file, ==_refl name) refl, begins', long'),
        ),
      )

  -- all blocks after the write, of which this one has a copy
  file-Shows :
      (cow cow' : List (ℕ × Block)) (s s' : BlockStore) (file : Bytes) (copy : Block)
      → HasFile s (update_bytes o x file) s'
      → copy.uid ≡ own_uid
      → contains s'.block_present copy.uid ≡ true
      → take b.size file ≡ slice (i * v.block_size) b.size dev
      → b.size ≤ length file
      → find_copy i cow' ≡ some copy
      → ((j : ℕ) → j ≢ i → find_copy j cow' ≡ find_copy j cow)
      → Shows path fetch v.id v db cow s dev
      → Shows path fetch v.id v db cow' s' dev'
  unfolding IsShown
  file-Shows cow cow' s s' file copy has uid present begins long copied others shows = (
    length-dev',
    λ j lt. elim (Bool-cases (j == i)) [
      | inl here ↦
          let same : j ≡ i = eq_of_== j i here in
          subst (λ k. IsShown path fetch v.id v db cow' s' dev' k) (sym same)
            (rw (copied, own_part)
              (own_shown s s' file (slice (i * v.block_size) b.size dev) copy has uid present begins
                long))
      | inr there ↦
          let d : j ≢ i = λ e. ground arith in
          rw (others j d, other_part j d lt)
            (other_shown s s' (update_bytes o x file)
              (slice (j * v.block_size) (get_block_by_idx db v j).size dev)
              (get_block_by_idx db v j) (find_copy j cow) has
              (λ e. d (sym (get_block-idx db v j) ∙ e)) (rw (get_block-idx db v j) lt)
              (shows.1 j lt))
    ],
  )

  old_data :
      (s : BlockStore) (bytes : Bytes)
      → IsShownBy path fetch v.id v s bytes b none
      → length bytes ≡ b.size
      → (old : Bytes) × (copied_data fetch v b ≡ ok old)
        × (take b.size old ≡ bytes)
        × (b.size ≤ length old)
  unfolding copied_data
  old_data s bytes (zeros_if, data_if) size = elim (Bool-cases (is_set b.uid)) [
    | inl set ↦ (bytes, rw set (data_if set), take-all b.size bytes (omega arith), omega arith)
    | inr unset ↦
        let small : b.size ≤ v.block_size = omega (arith, sizes i starts) in
        (
          replicate v.block_size 0,
          rw unset refl,
          slice-zeros 0 b.size v.block_size (omega (arith, small)) ∙ zeros_if unset,
          omega (arith, length-replicate {A = ℕ} v.block_size 0),
        )
  ]

  -- a chunk of a block that has a copy
  copied_chunk :
      (k : Chunk) (cow : List (ℕ × Block)) (s : BlockStore) (copy : Block)
      → k.block.idx ≡ i
      → k.offset_in_block ≡ o
      → find_copy i cow ≡ some copy
      → Shows path fetch v.id v db cow s dev
      → (s' : BlockStore) × (write_chunk path fetch v k x (cow, s) ≡ ok (cow, s'))
        × Shows path fetch v.id v db cow s' dev'
  unfolding write_chunk store_update IsShown
  copied_chunk k cow s copy at_i at_o copied shows =
      let shown = rw copied at (shows.1 i starts) in
      let (uid, present, (file, (nm, at, holds, begins, long))) = shown in
      let own : copy.uid ≡ own_uid =
        uid ∙ ap (λ j. block_uid v.id (j + 1)) (get_block-idx db v i) in
      let s' : BlockStore = record s { files = write_file nm (update_bytes o x file) s.files } in
      (
        s',
        rw (write_chunk, at_i, copied) (rw (at, holds, at_o) refl),
        file-Shows cow cow s s' file copy ((nm, rw (← own) at, refl), λ u p. p) own present begins
            long copied (λ j d. refl) shows,
      )

  written_copy :
      (k : Chunk) (cow : List (ℕ × Block)) (s : BlockStore) (old : Bytes) (name : Text)
      → k.block.idx ≡ i
      → k.offset_in_block ≡ o
      → find_copy i cow ≡ none
      → copied_data fetch v k.block ≡ ok old
      → path own_uid ≡ ok name
      → write_chunk path fetch v k x (cow, s)
        ≡ ok (
          (i, record k.block { uid = own_uid; checksum = none }) ∷ cow,
          record {
            files = write_file name (update_bytes o x old) s.files;
            block_present = add own_uid s.block_present;
          },
        )
  unfolding write_chunk
  written_copy k cow s old name at_i at_o free got own =
      rw (write_chunk, at_i, free)
        (rw (got, at_i, at_o, store_write_lem path own_uid name (update_bytes o x old) s own) refl)

  -- a chunk of a block that is copied first
  new_chunk :
      (k : Chunk) (cow : List (ℕ × Block)) (s : BlockStore)
      → k.block ≡ b
      → k.offset_in_block ≡ o
      → find_copy i cow ≡ none
      → Shows path fetch v.id v db cow s dev
      → (cow' : List (ℕ × Block)) × ((s' : BlockStore) × (write_chunk path fetch v k x (cow, s)
            ≡ ok (cow', s'))
          × Shows path fetch v.id v db cow' s' dev')
  unfolding write_chunk IsShown
  new_chunk k cow s is_block at_o free shows =
      let shown = rw free at (shows.1 i starts) in
      let part = slice (i * v.block_size) b.size dev in
      let size : length part ≡ b.size = omega (
        arith,
        fits,
        length-take b.size (drop (i * v.block_size) dev),
        length-drop (i * v.block_size) dev,
      ) in
      let (old, got, begins, long) = old_data s part shown size in
      let (name, own) = names.0 i starts in
      let at_i : k.block.idx ≡ i = ap (λ (c : Block). c.idx) is_block ∙ get_block-idx db v i in
      let got_k : copied_data fetch v k.block ≡ ok old = ap (copied_data fetch v) is_block ∙ got in
      let copy : Block = record k.block { uid = own_uid; checksum = none } in
      let s' : BlockStore = record {
        files = write_file name (update_bytes o x old) s.files;
        block_present = add own_uid s.block_present;
      } in
      (
        (i, copy) ∷ cow,
        (
          s',
          written_copy k cow s old name at_i at_o free got_k own,
          file-Shows cow ((i, copy) ∷ cow) s s' old copy
              ((name, own, refl), λ u p. ground (arith, contains-add u own_uid s.block_present))
              refl (ground (arith, contains-add own_uid own_uid s.block_present)) begins long
              (unfold find_copy in rw (==_refl i) refl) (λ j d. unfold find_copy in ground arith)
              shows,
        ),
      )

  -- a chunk, with the bytes for it
  pub chunk_written :
      (k : Chunk) (cow : List (ℕ × Block)) (s : BlockStore)
      → k.block ≡ b
      → k.offset_in_block ≡ o
      → Shows path fetch v.id v db cow s dev
      → (cow' : List (ℕ × Block)) × ((s' : BlockStore) × (write_chunk path fetch v k x (cow, s)
            ≡ ok (cow', s'))
          × Shows path fetch v.id v db cow' s' dev')
  chunk_written k cow s is_block at_o shows = elim (Option-cases (find_copy i cow)) [
    | inl free ↦ new_chunk k cow s is_block at_o free shows
    | inr (copy, copied) ↦
        let at_i : k.block.idx ≡ i = ap (λ (c : Block). c.idx) is_block ∙ get_block-idx db v i in
        let (s', e, shown) = copied_chunk k cow s copy at_i at_o copied shows in
        (cow, (s', e, shown))
  ]
