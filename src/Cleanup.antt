-- ===== src/Cleanup.antt =====
-- The cleanup of deleted blocks: `DeletedBlock.get_unused_block_uids` of src/benji/database.py and
-- `Benji.cleanup` and `Benji.clean` of src/benji/benji.py. The objects of the storages are the pairs
-- of a storage and a UID that it holds data for. A storage raises nothing but that a block is not
-- there; the log of the UIDs for which it does is not modelled.
pub mod Rounds
pub mod Objects
pub mod Ends
pub mod Survivors
use be_backup.Prelude.{
  ltb, if◌then◌else◌, ◌==◌, length, take, any, filter, contains, add, ℕ, zero, suc, ◌+◌, Bool, not,
  ◌&&◌, Option, none, some, List, [], ◌∷◌, nat_eq, list_eq,
}
use be_backup.Uid.{BlockUid, block_uid_eq}
use be_backup.Database.{DeletedBlock, Database}

-- The arguments: the time, the minimal age of a deleted block, and the storage, if one is given.
pub record Scope : Type 0 where
  pub now : ℕ
  pub dt : ℕ
  pub storage_id : Option ℕ

-- `if storage_id:`, which the number 0 does not pass
abbrev pub given : Option ℕ → Option ℕ
given none = none
given (some n) = if n == 0 then none else some n

-- the condition of the query, and the rows that it returns
unfoldable pub is_selected : Scope → DeletedBlock → Bool
is_selected q d = elim (given q.storage_id) [
  | none ↦ ltb (d.date + q.dt) q.now
  | some n ↦ d.storage_id == n
]

unfoldable pub delete_candidates : Scope → List DeletedBlock → List DeletedBlock
delete_candidates q rows =
    let selected = filter (is_selected q) rows in
    elim (given q.storage_id) [ none ↦ take 250 selected | some n ↦ selected ]

-- the query for one row of the table of blocks with the UID
unfoldable pub is_referenced : Database → BlockUid → Bool
is_referenced db u = any (λ b. b.uid == u) db.blocks

-- a dictionary from storages to sets of UIDs
abbrev pub HitList : Type 0
HitList = List (ℕ × List BlockUid)

unfoldable pub add_hit : ℕ → BlockUid → HitList → HitList
add_hit storage_id u [] = (storage_id, u ∷ []) ∷ []
add_hit storage_id u ((s, uids) ∷ hits) =
    let rest = add_hit storage_id u hits in
    if s == storage_id then (s, add u uids) ∷ hits else (s, uids) ∷ rest

-- the loop over the candidates: false positives, and hits
unfoldable pub classify :
    Database → List DeletedBlock → List BlockUid → HitList → List BlockUid × HitList
classify db [] false_positives hit_list = (false_positives, hit_list)
classify db (c ∷ cs) false_positives hit_list =
    let found = is_referenced db c.uid in
    classify db cs (if found then add c.uid false_positives else false_positives)
      (if found then hit_list else add_hit c.storage_id c.uid hit_list)

unfoldable pub delete_uids : List BlockUid → List DeletedBlock → List DeletedBlock
delete_uids uids rows = filter (λ d. not (contains uids d.uid)) rows

-- for uids in hit_list.values(): delete the rows of these
unfoldable pub delete_hits : HitList → List DeletedBlock → List DeletedBlock
delete_hits [] rows = rows
delete_hits ((s, uids) ∷ hits) rows = delete_hits hits (delete_uids uids rows)

-- one round of the `while`: the rows left, and the hits
unfoldable pub cleanup_round : Database → List DeletedBlock → Database × HitList
cleanup_round db candidates =
    let (false_positives, hit_list) = classify db candidates [] [] in
    (
      record db {
        deleted_blocks = delete_hits hit_list (delete_uids false_positives db.deleted_blocks);
      },
      hit_list,
    )

-- if hit_list: …, yield hit_list
abbrev pub yield_hits : HitList → List HitList → List HitList
yield_hits [] rest = rest
yield_hits (h ∷ hs) rest = (h ∷ hs) ∷ rest

-- the rounds, with fuel: the database after them, and the hits that were yielded
unfoldable pub get_unused_block_uids : ℕ → Scope → Database → Database × List HitList
get_unused_block_uids zero q db = (db, [])
get_unused_block_uids (suc fuel) q db =
    let candidates = delete_candidates q db.deleted_blocks in
    let step = cleanup_round db candidates in
    let rest = get_unused_block_uids fuel q step.0 in
    elim candidates [ [] ↦ (db, []) | c ∷ cs ↦ (rest.0, yield_hits step.1 rest.1) ]

abbrev pub object_eqb : ℕ × BlockUid → ℕ × BlockUid → Bool
object_eqb (s, u) (t, w) = s == t && u == w

-- storage.rm_block for every UID of a hit list
unfoldable pub rm_uids : ℕ → List BlockUid → List (ℕ × BlockUid) → List (ℕ × BlockUid)
rm_uids s [] objects = objects
rm_uids s (u ∷ uids) objects = rm_uids s uids (filter (λ o. not (object_eqb (s, u) o)) objects)

unfoldable pub rm_hits : HitList → List (ℕ × BlockUid) → List (ℕ × BlockUid)
rm_hits [] objects = objects
rm_hits ((s, uids) ∷ hits) objects = rm_hits hits (rm_uids s uids objects)

unfoldable pub rm_all : List HitList → List (ℕ × BlockUid) → List (ℕ × BlockUid)
rm_all [] objects = objects
rm_all (h ∷ hs) objects = rm_all hs (rm_hits h objects)

-- `cleanup` and `clean`: a round takes at least one row away, so the number of rows is fuel enough
unfoldable pub cleanup : Scope → Database → List (ℕ × BlockUid) → Database × List (ℕ × BlockUid)
cleanup q db objects =
    let (db', hits) = get_unused_block_uids (length db.deleted_blocks + 1) q db in
    (db', rm_all hits objects)
