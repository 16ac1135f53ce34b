-- ===== src/JobExecutor.antt =====
-- `JobExecutor` of src/benji/jobexecutor.py: its futures by how far they are, and its semaphore. A
-- call that would block until another step has been made does not happen, and is nothing here.
pub mod Bounds
use be_backup.Prelude.{
  ltb, leb, if◌then◌else◌, ◌==◌, ℕ, ◌+◌, ◌-◌, ◌*◌, Bool, ◌||◌, Option, none, some, List, [], ◌∷◌,
  nat_eq, list_eq, option_eq,
}
use be_backup.Errors.{value_error, Result, err, ok}

-- The futures that wait for a worker or, in its thread, for the semaphore; those whose function runs;
-- those with a result; and those that are cancelled.
pub record Executor : Type 0 where
  pub workers : ℕ
  pub blocking_submit : Bool
  pub permits : ℕ
  pub waiting : ℕ
  pub running : ℕ
  pub completed : ℕ
  pub cancelled : ℕ

abbrev pub queue_limit : ℕ → ℕ
queue_limit workers = 2 * workers + 1

-- __init__
unfoldable pub new_executor : ℕ → Bool → Executor
new_executor workers blocking = record {
  workers = workers;
  blocking_submit = blocking;
  permits = queue_limit workers;
  waiting = 0;
  running = 0;
  completed = 0;
  cancelled = 0;
}

-- self._semaphore.acquire(): with no permit it blocks
unfoldable pub acquire : Executor → Option Executor
acquire e = if e.permits == 0 then none else some (record e { permits = e.permits - 1 })

-- self._semaphore.release(), of a BoundedSemaphore: more permits than at first are an error
unfoldable pub release : Executor → Result Executor
release e =
    if ltb e.permits (queue_limit e.workers)
    then ok (record e { permits = e.permits + 1 })
    else err value_error

abbrev pub on_some : (Executor → Executor) → Option Executor → Option Executor
on_some f none = none
on_some f (some e) = some (f e)

abbrev pub on_ok : (Executor → Executor) → Result Executor → Result Executor
on_ok f (err x) = err x
on_ok f (ok e) = ok (f e)

abbrev add_waiting : Executor → Executor
add_waiting e = record e { waiting = e.waiting + 1 }

-- submit
unfoldable pub submit : Executor → Option Executor
unfolding acquire
submit e = if e.blocking_submit then on_some add_waiting (acquire e) else some (add_waiting e)

abbrev set_running : Executor → Executor
set_running e = record e { waiting = e.waiting - 1; running = e.running + 1 }

-- a worker calls the function of a waiting future: `execute_with_acquire` acquires first
unfoldable pub start : Executor → Option Executor
unfolding acquire
start e =
    if e.waiting == 0 || leb e.workers e.running
    then none
    else if e.blocking_submit
    then some (set_running e)
    else on_some set_running (acquire e)

abbrev set_completed : Executor → Executor
set_completed e = record e { running = e.running - 1; completed = e.completed + 1 }

-- the function returns or raises: `execute_with_release` releases in any case
unfoldable pub end_job : Executor → Option (Result Executor)
unfolding release
end_job e =
    if e.running == 0
    then none
    else if e.blocking_submit
    then some (on_ok set_completed (release e))
    else some (ok (set_completed e))

-- one turn of `get_completed`, for a future with a result and for a cancelled one
unfoldable pub collect : Executor → Option (Result Executor)
unfolding release
collect e =
    let e' : Executor = record e { completed = e.completed - 1 } in
    if e.completed == 0 then none else if e.blocking_submit then some (ok e') else some (release e')

unfoldable pub collect_cancelled : Executor → Option Executor
collect_cancelled e =
    if e.cancelled == 0 then none else some (record e { cancelled = e.cancelled - 1 })

-- future.cancel() of `shutdown`, which a future that runs or has a result ignores
unfoldable pub cancel : Executor → Option Executor
cancel e =
    if e.waiting == 0
    then none
    else some (record e { waiting = e.waiting - 1; cancelled = e.cancelled + 1 })

pub data Event : Type 0 where
  submitted started ended collected collected_cancelled cancelled_one : Event

abbrev fine : Option Executor → Option (Result Executor)
fine none = none
fine (some e) = some (ok e)

unfoldable pub step : Event → Executor → Option (Result Executor)
unfolding submit start end_job collect collect_cancelled cancel
step submitted e = fine (submit e)
step started e = fine (start e)
step ended e = end_job e
step collected e = collect e
step collected_cancelled e = fine (collect_cancelled e)
step cancelled_one e = fine (cancel e)

-- the events of a run, of which each can happen; an exception ends it
unfoldable pub run : List Event → Executor → Option (Result Executor)
run [] e = some (ok e)
run (x ∷ xs) e = elim (step x e) [
  | none ↦ none
  | some (err failed) ↦ some (err failed)
  | some (ok e') ↦ run xs e'
]
