-- ===== src/Backup/Content.antt =====
-- Whatever order the executors complete the jobs of a backup in, the version then holds the data of
-- the source.
use be_backup.Prelude.{
  Bool-cases, ◌==◌, eq_of_==, All, contains, ℕ, ◌<◌, ◌≡◌, refl, sym, ap, subst, ◌≢◌, inl, inr, true,
  false, ◌||◌, List, [], ◌∷◌, ◌++◌, map, arith, nat_eq, list_eq, option_eq,
}
use be_backup.Uid.{block_uid_eq}
use be_backup.Database.{Block, blocks_count, create_sparse_block}
use be_backup.Transforms.{Bytes}
use be_backup.Backup.{finished, Job, Progress}
use be_backup.Backup.Steps.{World, Step, turn, Reach, no_step, then_step, submitted}
use be_backup.Backup.Invariant.{IsFree, KeepsBlocks, IsSound, Holds, IsDue}
use be_backup.Backup.Turns.{IsRead, IsDistinctive, Turn-Outcome}

abbrev pub indices : List Job → List ℕ
indices = map (λ j. j.block.idx)

-- no two of the numbers are the same
abbrev pub AreApart : List ℕ → Type 0
AreApart [] = Unit
AreApart (i ∷ is) = (contains is i ≡ false) × AreApart is

contains-middle :
    (i : ℕ) (j : Job) (xs ys : List Job)
    → contains (indices (xs ++ j ∷ ys)) i
      ≡ (contains (indices xs) i || (i == j.block.idx || contains (indices ys) i))
contains-middle i j [] ys = refl
contains-middle i j (x ∷ xs) ys = ground (arith, contains-middle i j xs ys)

indices-replace :
    (j k : Job) (xs ys : List Job)
    → k.block ≡ j.block
    → indices (xs ++ k ∷ ys) ≡ indices (xs ++ j ∷ ys)
indices-replace j k [] ys e = ap (λ b. b.idx ∷ indices ys) e
indices-replace j k (x ∷ xs) ys e = ap (◌∷◌ x.block.idx) (indices-replace j k xs ys e)

module _ (P Q : Job → Type 0) (j k : Job)
    (other : (x : Job) → x.block.idx ≢ j.block.idx → P x → Q x) where
  All-others : (xs : List Job) → contains (indices xs) j.block.idx ≡ false → All P xs → All Q xs
  All-others [] c a = tt
  All-others (x ∷ xs) c a = (other x (λ e. ground arith) a.0, All-others xs (ground arith) a.1)

  -- one job is replaced, and the others have other indices
  All-replace :
      (xs ys : List Job)
      → AreApart (indices (xs ++ j ∷ ys))
      → Q k
      → All P (xs ++ j ∷ ys)
      → All Q (xs ++ k ∷ ys)
  All-replace [] ys apart q a = (q, All-others ys apart.0 a.1)
  All-replace (x ∷ xs) ys apart q a = (
    other x (λ e. ground (arith, contains-middle x.block.idx j xs ys)) a.0,
    All-replace xs ys apart.1 q a.1,
  )

pub All-middle : (P : Job → Type 0) (j : Job) (xs ys : List Job) → All P (xs ++ j ∷ ys) → P j
All-middle P j [] ys a = a.0
All-middle P j (x ∷ xs) ys a = All-middle P j xs ys a.1

-- every job is done
abbrev pub AreFinished : List Job → Type 0
AreFinished = All (λ j. j.stage ≡ finished)

module _ {S : Type 0} (w : World S) (image : ℕ → Bytes) (Known : Bytes → Type 0) where
  abbrev pub IsJob : Progress S → Job → Type 0
  IsJob p j = IsRead w image j.block × IsDue w image p.db p.store j.block j.stage

  -- the invariant of a backup with its jobs
  abbrev pub IsUnderway : Progress S → List Job → Type 0
  IsUnderway p jobs =
      IsSound w Known p.db p.store
      × AreApart (indices jobs)
      × All (IsJob p) jobs
      × ((i : ℕ)
          → i < blocks_count w.version
          → contains (indices jobs) i ≡ false
          → Holds w image p.db p.store i)

  -- The blocks to read are different, each is one of the version's, with the size of its data, the
  -- source gives these data, and no row has the UID that it would get.
  abbrev pub AreToRead : Progress S → List Block → Type 0
  AreToRead p blocks =
      AreApart (map (λ b. b.idx) blocks)
      × All (λ b. IsRead w image b × IsFree w p.db.blocks b.idx) blocks

  indices-submitted : (blocks : List Block) → indices (submitted blocks) ≡ map (λ b. b.idx) blocks
  indices-submitted [] = refl
  indices-submitted (b ∷ bs) = ap (◌∷◌ b.idx) (indices-submitted bs)

  All-submitted :
      (p : Progress S) (blocks : List Block)
      → All (λ b. IsRead w image b × IsFree w p.db.blocks b.idx) blocks
      → All (IsJob p) (submitted blocks)
  All-submitted p [] a = tt
  All-submitted p (b ∷ bs) a = (a.0, All-submitted p bs a.1)

  finished-Holds :
      (q : Progress S) (jobs : List Job) (i : ℕ)
      → AreFinished jobs
      → All (IsJob q) jobs
      → contains (indices jobs) i ≡ true
      → Holds w image q.db q.store i
  finished-Holds q [] i done all c = absurd (ground arith)
  finished-Holds q (j ∷ jobs) i done all c = elim (Bool-cases (i == j.block.idx)) [
    | inl here ↦
        let at : j.block.idx ≡ i = sym (eq_of_== i j.block.idx here) in
        let due = subst (IsDue w image q.db q.store j.block) done.0 all.0.1 in
        subst (Holds w image q.db q.store) at due
    | inr there ↦ finished-Holds q jobs i done.1 all.1 (ground arith)
  ]

  pub submitted-IsUnderway :
      (p : Progress S) (blocks : List Block)
      → IsSound w Known p.db p.store
      → AreToRead p blocks
      → ((i : ℕ)
          → i < blocks_count w.version
          → contains (map (λ b. b.idx) blocks) i ≡ false
          → Holds w image p.db p.store i)
      → IsUnderway p (submitted blocks)
  submitted-IsUnderway p blocks sound (apart, reads) rest = (
    sound,
    rw (indices-submitted blocks) apart,
    All-submitted p blocks reads,
    rw (indices-submitted blocks) rest,
  )

  module _ (distinctive : IsDistinctive w image Known) (keeps : KeepsBlocks w) where
    pub Step-IsUnderway :
        {p q : Progress S} {js ks : List Job} → Step w p js q ks → IsUnderway p js → IsUnderway q ks
    unfolding create_sparse_block
    Step-IsUnderway (turn p q j k xs ys t) (sound, apart, all, rest) =
        let (from, due) = All-middle (IsJob p) j xs ys all in
        let (same, (sound', due', keep)) =
          Turn-Outcome w image Known distinctive keeps t sound from due in
        let is_job : IsJob q k = rw same (from, due') in
        (
          sound',
          rw (indices-replace j k xs ys same) apart,
          All-replace (IsJob p) (IsJob q) j k (λ x d a. (a.0, keep x.block x.stage d a.1)) xs ys
              apart is_job all,
          λ i lt c.
              let c' = rw (indices-replace j k xs ys same) at c in
              keep (create_sparse_block w.version i) finished
                (λ e. ground (arith, contains-middle i j xs ys)) (rest i lt c'),
        )

    pub Reach-IsUnderway :
        {p : Progress S} {js : List Job} {q : Progress S} {ks : List Job}
        → IsUnderway p js
        → Reach w p js q ks
        → IsUnderway q ks
    Reach-IsUnderway u no_step = u
    Reach-IsUnderway u (then_step r st) = Step-IsUnderway st (Reach-IsUnderway u r)

    -- Let a backup start with sound rows and with blocks to read whose data the source gives, and let
    -- every other block of the version already hold the data of the source. Whatever order the
    -- executors complete reads and writes in, once all jobs are done every block of the version is
    -- valid, has its size and checksum, and names the data of the source. No two of the known data
    -- share a checksum, and the storage gives back what it wrote.
    pub backup_content :
        (p q : Progress S) (blocks : List Block) (jobs : List Job)
        → IsSound w Known p.db p.store
        → AreToRead p blocks
        → ((i : ℕ)
            → i < blocks_count w.version
            → contains (map (λ b. b.idx) blocks) i ≡ false
            → Holds w image p.db p.store i)
        → Reach w p (submitted blocks) q jobs
        → AreFinished jobs
        → (i : ℕ) → i < blocks_count w.version
        → Holds w image q.db q.store i
    backup_content p q blocks jobs sound reads rest r done i lt =
        let start = submitted-IsUnderway p blocks sound reads rest in
        let (sound', apart', all, others) = Reach-IsUnderway start r in
        elim (Bool-cases (contains (indices jobs) i)) [
          | inl mine ↦ finished-Holds q jobs i done all mine
          | inr other ↦ others i lt other
        ]
