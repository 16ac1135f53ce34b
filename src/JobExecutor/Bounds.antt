-- ===== src/JobExecutor/Bounds.antt =====
-- The semaphore of an executor bounds its jobs.
use be_backup.Prelude.{
  Option-cases, ℕ, ◌+◌, ◌*◌, ◌≤◌, ◌≡◌, refl, inl, inr, Bool, true, false, Option, none, some, List,
  [], ◌∷◌, arith, nat_eq, list_eq, option_eq,
}
use be_backup.Errors.{Result, err, ok}
use be_backup.JobExecutor.{
  Executor, queue_limit, new_executor, acquire, release, submit, start, end_job, collect,
  collect_cancelled, cancel, Event, submitted, started, ended, collected, collected_cancelled,
  cancelled_one, step, run,
}

-- every permit that is out belongs to a future
abbrev pub IsBalanced : ℕ → Executor → Type 0
IsBalanced w e =
    (e.workers ≡ w)
    × (e.running ≤ w)
    × (e.blocking_submit ≡ true → e.permits + e.waiting + e.running ≤ queue_limit w)
    × (e.blocking_submit ≡ false → e.permits + e.running + e.completed ≡ queue_limit w)

-- what an event leaves if it can happen
abbrev pub Leaves : ℕ → Bool → Option (Result Executor) → Type 0
Leaves w b none = Unit
Leaves w b (some (err x)) = ⊥
Leaves w b (some (ok e)) = IsBalanced w e × (e.blocking_submit ≡ b)

step-IsBalanced :
    (w : ℕ) (x : Event) (e : Executor) → IsBalanced w e → Leaves w e.blocking_submit (step x e)
unfolding step submit start end_job collect collect_cancelled cancel acquire release
step-IsBalanced w submitted e b = ground arith
step-IsBalanced w started e b = ground arith
step-IsBalanced w ended e b = ground arith
step-IsBalanced w collected e b = ground arith
step-IsBalanced w collected_cancelled e b = ground arith
step-IsBalanced w cancelled_one e b = ground arith

run-IsBalanced :
    (w : ℕ) (xs : List Event) (e : Executor)
    → IsBalanced w e
    → Leaves w e.blocking_submit (run xs e)
unfolding run
run-IsBalanced w [] e b = (b, refl)
run-IsBalanced w (x ∷ xs) e b = elim (Option-cases (step x e)) [
  | inl never ↦ rw (run, never) tt
  | inr (err failed, happens) ↦ absurd (rw happens at (step-IsBalanced w x e b))
  | inr (ok e', happens) ↦
      let (b', same) = rw happens at (step-IsBalanced w x e b) in
      rw (run, happens, ← same) (run-IsBalanced w xs e' b')
]

-- Whatever submissions, completions, collections and cancellations happen, and in whatever order,
-- no release raises; at most `workers` functions run at a time; of an executor that blocks on
-- submission at most 2 * workers + 1 jobs are submitted and neither finished nor cancelled; and of
-- the other kind at most as many run or have a result that is not collected.
pub executor_bounds :
    (workers : ℕ) (blocking : Bool) (events : List Event) (r : Result Executor)
    → run events (new_executor workers blocking) ≡ some r
    → (e : Executor) × (r ≡ ok e)
      × (e.running ≤ workers)
      × (blocking ≡ true → e.waiting + e.running ≤ 2 * workers + 1)
      × (blocking ≡ false → e.running + e.completed ≤ 2 * workers + 1)
unfolding new_executor
executor_bounds workers blocking events (err failed) happens =
    let start : IsBalanced workers (new_executor workers blocking) =
      (refl, ground arith, λ b. ground arith, λ b. ground arith) in
    absurd (rw happens at (run-IsBalanced workers events (new_executor workers blocking) start))
executor_bounds workers blocking events (ok e) happens =
    let start : IsBalanced workers (new_executor workers blocking) =
      (refl, ground arith, λ b. ground arith, λ b. ground arith) in
    let (b, same) =
      rw happens at (run-IsBalanced workers events (new_executor workers blocking) start) in
    (e, refl, b.1, λ t. ground arith, λ t. ground arith)
