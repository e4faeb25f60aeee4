-- ===== src/Rpc/Practice/Executor.antt =====
-- examples/rpc/practice.rs: `LocalExecutor`, a thread that runs the jobs of a queue one at a time. Each
-- job's caller waits for its result.
use forwardr.Base.{ℕ, ◌==◌, if◌then◌else◌}

-- `stopped`: the loop of the thread has ended, by `Shutdown` or by a job's panic.
pub data Status : Type 0 where
  idle running stopped : Status

-- What a call comes to. `blocked`: it waits for a result that cannot come.
pub data Outcome (R : Type 0) : Type 0 where
  done : R → Outcome R
  panicked blocked out_of_fuel : Outcome R

-- The executors, by name, and what the jobs work on.
pub record World (S : Type 0) : Type 0 where
  pub status : ℕ → Status
  pub store : S

abbrev pub Job : Type 0 → Type 0 → Type 0
Job S R = World S → Outcome R × World S

module _ {S : Type 0} where
  abbrev pub set_status : ℕ → Status → World S → World S
  set_status t st w = record w { status = λ u. if u == t then st else w.status u }

  -- The end of a job: a panic unwinds the thread, which drops the queue and the result's sender.
  abbrev pub settle : {R : Type 0} → ℕ → Outcome R × World S → Outcome R × World S
  settle t (done r, w) = (done r, set_status t idle w)
  settle t (panicked, w) = (panicked, set_status t stopped w)
  settle t (blocked, w) = (blocked, w)
  settle t (out_of_fuel, w) = (out_of_fuel, w)

  -- `execute_sync`. A stopped thread has dropped its queue, so the send fails, and `expect` panics. A
  -- running thread waits, through the calls of its job, for this one, which is queued behind it.
  unfoldable pub execute_sync : {R : Type 0} → ℕ → Job S R → Job S R
  execute_sync t job w = elim (w.status t) [
    | idle ↦ settle t (job (set_status t running w))
    | running ↦ (blocked, w)
    | stopped ↦ (panicked, w)
  ]

  -- `execute_async` and the `await` of its result: the job drives its future to the end on the
  -- thread, in a runtime of its own.
  unfoldable pub execute_async : {R : Type 0} → ℕ → Job S R → Job S R
  execute_async t future w = elim (w.status t) [
    | idle ↦ settle t (future (set_status t running w))
    | running ↦ (blocked, w)
    | stopped ↦ (panicked, w)
  ]

  -- `shutdown`, while no job runs: the loop ends. What it returns is ignored.
  unfoldable pub shutdown : ℕ → World S → World S
  shutdown t w = set_status t stopped w
