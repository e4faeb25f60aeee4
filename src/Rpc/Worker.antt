-- ===== src/Rpc/Worker.antt =====
-- examples/rpc/worker.rs: a worker, which runs the tasks of its queue one after the other, and the manager of
-- all workers. What tasks work on is a store.
use forwardr.Base.{
  ℕ, zero, suc, ◌+◌, ◌≡◌, refl, ap, ◌∙◌, Option, none, some, List, [], ◌∷◌, ◌++◌, total, arith,
}

-- A task, poll by poll: each poll does something; the last is ready, or panics.
pub data Task (S : Type 0) : Type 0 where
  finish panic : (S → S) → Task S
  wait : (S → S) → Task S → Task S

-- What a poll comes to, with the panic caught: `Ok(())` or `Err` when it is over.
pub data Polled (S : Type 0) : Type 0 where
  poll_pending : Task S → Polled S
  ready_ok ready_err : Polled S

-- `reports` counts the lines `task panic`.
pub record Worker (S : Type 0) : Type 0 where
  pub queue : List (Task S)
  pub current : Option (Task S)
  pub store : S
  pub reports : ℕ

add_zero : (n : ℕ) → 0 + n ≡ n
add_zero n = omega arith

add_suc : (m n : ℕ) → suc m + n ≡ suc (m + n)
add_suc m n = omega arith

add_assoc : (m n k : ℕ) → m + n + k ≡ m + (n + k)
add_assoc m n k = omega arith

same : (n : ℕ) → n ≡ n + 0
same n = omega arith

module _ {S : Type 0} where
  -- `catch_unwind` of one poll.
  unfoldable pub poll_caught : Task S → S → Polled S × S
  poll_caught (finish f) s = (ready_ok, f s)
  poll_caught (panic f) s = (ready_err, f s)
  poll_caught (wait f task) s = (poll_pending task, f s)

  -- What the loop makes of it: the line is printed if the result is `Ok`.
  unfoldable pub after_poll : Worker S → Polled S × S → Worker S
  after_poll w (poll_pending task, s) = record w { current = some task; store = s }
  after_poll w (ready_ok, s) = record w { current = none; store = s; reports = w.reports + 1 }
  after_poll w (ready_err, s) = record w { current = none; store = s }

  -- One turn: the next task is received, or the current one is polled.
  unfoldable pub receive_task : List (Task S) → Worker S → Worker S
  receive_task [] w = w
  receive_task (task ∷ queue) w = record w { queue = queue; current = some task }

  unfoldable pub worker_turn : Option (Task S) → Worker S → Worker S
  unfolding receive_task poll_caught after_poll
  worker_turn none w = receive_task w.queue w
  worker_turn (some task) w = after_poll w (poll_caught task w.store)

  unfoldable pub worker_run : ℕ → Worker S → Worker S
  unfolding worker_turn
  worker_run zero w = w
  worker_run (suc turns) w = worker_run turns (worker_turn w.current w)

  -- `WorkerGuard::send_task`, and what it does to an idle worker's queue.
  abbrev pub send_task : Task S → Worker S → Worker S
  send_task task w = record w { queue = w.queue ++ (task ∷ []) }

  -- What a task does to the store, the turns that it takes, and whether its result is `Ok`.
  abbrev pub effect : Task S → S → S
  effect (finish f) s = f s
  effect (panic f) s = f s
  effect (wait f task) s = effect task (f s)

  abbrev pub polls : Task S → ℕ
  polls (finish f) = suc zero
  polls (panic f) = suc zero
  polls (wait f task) = suc (polls task)

  abbrev pub is_ok : Task S → ℕ
  is_ok (finish f) = 1
  is_ok (panic f) = 0
  is_ok (wait f task) = is_ok task

  abbrev pub effects : List (Task S) → S → S
  effects [] s = s
  effects (task ∷ tasks) s = effects tasks (effect task s)

  -- The turns for a queue: a task is received, and polled.
  abbrev pub turns : List (Task S) → ℕ
  turns [] = 0
  turns (task ∷ tasks) = suc (polls task) + turns tasks

  abbrev pub worker : List (Task S) → Option (Task S) → S → ℕ → Worker S
  worker queue current s reports = record {
    queue = queue;
    current = current;
    store = s;
    reports = reports;
  }

  worker_run-add : (m n : ℕ) (w : Worker S) → worker_run (m + n) w ≡ worker_run n (worker_run m w)
  unfolding worker_run
  worker_run-add zero n w = rw (add_zero n) refl
  worker_run-add (suc m) n w = rw (add_suc m n) (worker_run-add m n (worker_turn w.current w))

  idle_stays :
      (n : ℕ) (s : S) (reports : ℕ)
      → worker_run n (worker [] none s reports) ≡ worker [] none s reports
  unfolding worker_run worker_turn receive_task
  idle_stays zero s reports = refl
  idle_stays (suc n) s reports = idle_stays n s reports

  task_runs :
      (task : Task S) (queue : List (Task S)) (s : S) (reports : ℕ)
      → worker_run (polls task) (worker queue (some task) s reports)
        ≡ worker queue none (effect task s) (reports + is_ok task)
  unfolding worker_run worker_turn poll_caught after_poll
  task_runs (finish f) queue s reports = refl
  task_runs (panic f) queue s reports = ap (worker queue none (f s)) (same reports)
  task_runs (wait f task) queue s reports = task_runs task queue (f s) reports

  received_runs :
      (task : Task S) (queue : List (Task S)) (s : S) (reports : ℕ)
      → worker_run (suc (polls task)) (worker (task ∷ queue) none s reports)
        ≡ worker queue none (effect task s) (reports + is_ok task)
  unfolding worker_run worker_turn receive_task
  received_runs task queue s reports = task_runs task queue s reports

  -- A worker with a queue of tasks to which nothing is added runs each to its end, in their order and
  -- whichever of them panic, in as many turns as they have polls and one more for each; and it writes
  -- the line `task panic` for just those that do not panic.
  pub worker_run-effects :
      (queue : List (Task S)) (s : S) (reports more : ℕ)
      → worker_run (turns queue + more) (worker queue none s reports)
        ≡ worker [] none (effects queue s) (reports + total is_ok queue)
  worker_run-effects [] s reports more =
      ap (λ n. worker_run n (worker [] none s reports)) (add_zero more)
      ∙ idle_stays more s reports
      ∙ ap (worker [] none s) (same reports)
  worker_run-effects (task ∷ queue) s reports more =
      ap (λ n. worker_run n (worker (task ∷ queue) none s reports))
        (add_assoc (suc (polls task)) (turns queue) more)
      ∙ worker_run-add (suc (polls task)) (turns queue + more)
          (worker (task ∷ queue) none s reports)
      ∙ ap (worker_run (turns queue + more)) (received_runs task queue s reports)
      ∙ worker_run-effects queue (effect task s) (reports + is_ok task) more
      ∙ ap (worker [] none (effects queue (effect task s)))
          (add_assoc reports (is_ok task) (total is_ok queue))
