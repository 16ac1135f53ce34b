-- ===== src/Backup/Steps.antt =====
-- The executors of a backup as steps: the read of any submitted block completes, any queued block is
-- written to the storage, and the row of any written block is set.
use be_backup.Prelude.{◌≡◌, Option, List, ◌∷◌, ◌++◌, map, nat_eq, list_eq, option_eq}
use be_backup.Errors.{Result, ok}
use be_backup.Uid.{Text, BlockUid}
use be_backup.Database.{Block, Version}
use be_backup.Transforms.{Bytes}
use be_backup.Backup.{
  Stage, reading, queued, written, finished, Job, Progress, handle_read, handle_written,
}

-- What a backup runs with: the version, the hash of a block's data, the source, and the storage's
-- operations on blocks.
pub record World (S : Type 0) : Type 0 where
  pub version : Version
  pub hash : Bytes → Text
  pub source : Block → Result Bytes
  pub write : Block → Bytes → S → Result (Unit {0}) × S
  pub load : S → BlockUid → Option Bytes

abbrev job : Block → Stage → Job
job b s = record { block = b; stage = s }

-- what completing one job's next part does
pub data Turn {S : Type 0} (w : World S) : Progress S → Job → Progress S → Job → Type 0 where
  read_done :
      (p q : Progress S) (b : Block) (bytes : Bytes) (s : Stage)
      → w.source b ≡ ok bytes
      → handle_read w.hash w.version p b bytes ≡ (q, s)
      → Turn w p (job b reading) q (job b s)
  write_done :
      (p : Progress S) (b new : Block) (bytes : Bytes) (store : S)
      → w.write new bytes p.store ≡ (ok tt, store)
      → Turn w p (job b (queued new bytes)) (record p { store = store }) (job b (written new))
  row_done :
      (p q : Progress S) (b new : Block)
      → handle_written w.version p new ≡ ok q
      → Turn w p (job b (written new)) q (job b finished)

pub data Step {S : Type 0} (w : World S)
    : Progress S → List Job → Progress S → List Job → Type 0 where
  turn :
      (p q : Progress S) (j k : Job) (before after : List Job)
      → Turn w p j q k
      → Step w p (before ++ j ∷ after) q (before ++ k ∷ after)

pub data Reach {S : Type 0} (w : World S) (p : Progress S) (jobs : List Job)
    : Progress S → List Job → Type 0 where
  no_step : Reach w p jobs p jobs
  then_step :
      {q r : Progress S} {js ks : List Job}
      → Reach w p jobs q js
      → Step w q js r ks
      → Reach w p jobs r ks

-- the jobs of the blocks that the first loop submits
abbrev pub submitted : List Block → List Job
submitted = map (λ b. job b reading)
