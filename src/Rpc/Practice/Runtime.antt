-- ===== src/Rpc/Practice/Runtime.antt =====
-- examples/rpc/practice.rs: `ForwardPlan`, `ForwardRuntime` and `Registry`. Names are numbers: only
-- whether two are equal matters. A call's arguments and its handler are one job, run where it arrives.
use forwardr.Base.{
  ℕ, zero, suc, ◌+◌, Bool, false, ◌||◌, ◌==◌, leb, if◌then◌else◌, none, some, List, [], ◌∷◌, length,
  get_elem?,
}
use forwardr.Rpc.Practice.Executor.{
  panicked, out_of_fuel, World, Job, execute_sync, execute_async, shutdown,
}

pub data Step : Type 0 where
  rpc : ℕ → Step
  thread : ℕ → Step

pub data Location : Type 0 where
  client : Location
  at_rpc : ℕ → Location
  at_thread : ℕ → Location

-- The keys of its two maps.
pub record Registry : Type 0 where
  pub rpc_sites : List ℕ
  pub threads : List ℕ

pub record ForwardRuntime : Type 0 where
  pub location : Location
  pub registry : Registry

abbrev pub has_key : ℕ → List ℕ → Bool
has_key k [] = false
has_key k (j ∷ js) = k == j || has_key k js

-- The tests `matches!(self.location, …)`.
abbrev pub is_at_rpc : Location → ℕ → Bool
is_at_rpc (at_rpc current) server_name = current == server_name
is_at_rpc _ server_name = false

abbrev pub is_at_thread : Location → ℕ → Bool
is_at_thread (at_thread current) thread_name = current == thread_name
is_at_thread _ thread_name = false

abbrev pub moved : ForwardRuntime → Location → ForwardRuntime
moved rt location = record rt { location = location }

module _ {S R : Type 0} where
  -- `clone_for_rpc`, and what is done with the runtime that it returns.
  abbrev pub on_clone_for_rpc : ForwardRuntime → ℕ → (ForwardRuntime → Job S R) → Job S R
  on_clone_for_rpc rt server go w =
      if has_key server rt.registry.rpc_sites
      then go (moved rt (at_rpc server)) w
      else (panicked, w)

  -- The `match` of the cursors on a step: what is done with the rest of the call, `next`.
  unfoldable pub sync_step : ForwardRuntime → Step → (ForwardRuntime → Job S R) → Job S R
  unfolding execute_sync
  sync_step rt (rpc server_name) next w =
      if is_at_rpc rt.location server_name
      then next rt w
      else on_clone_for_rpc rt server_name next w
  sync_step rt (thread thread_name) next w =
      if is_at_thread rt.location thread_name
      then next rt w
      else if has_key thread_name rt.registry.threads
      then execute_sync thread_name (next (moved rt (at_thread thread_name))) w
      else (panicked, w)

  unfoldable pub async_step : ForwardRuntime → Step → (ForwardRuntime → Job S R) → Job S R
  unfolding execute_async
  async_step rt (rpc server_name) next w =
      if is_at_rpc rt.location server_name
      then next rt w
      else on_clone_for_rpc rt server_name next w
  async_step rt (thread thread_name) next w =
      if is_at_thread rt.location thread_name
      then next rt w
      else if has_key thread_name rt.registry.threads
      then execute_async thread_name (next (moved rt (at_thread thread_name))) w
      else (panicked, w)

  -- `exec_sync_cursor`, with fuel for the rounds; `plan[index]` panics where the index is out of range.
  unfoldable pub exec_sync_cursor : ℕ → ForwardRuntime → List Step → ℕ → Job S R → Job S R
  unfolding sync_step
  exec_sync_cursor zero rt plan index handler = λ w. (out_of_fuel, w)
  exec_sync_cursor (suc fuel) rt plan index handler =
      if leb (length plan) index then handler else elim (get_elem? plan index) [
        | none ↦ λ w. (panicked, w)
        | some step ↦ sync_step rt step (λ rt'. exec_sync_cursor fuel rt' plan (index + 1) handler)
      ]

  -- `exec_async_cursor`, and the `await` of the future that it returns.
  unfoldable pub exec_async_cursor : ℕ → ForwardRuntime → List Step → ℕ → Job S R → Job S R
  unfolding async_step
  exec_async_cursor zero rt plan index handler = λ w. (out_of_fuel, w)
  exec_async_cursor (suc fuel) rt plan index handler =
      if leb (length plan) index then handler else elim (get_elem? plan index) [
        | none ↦ λ w. (panicked, w)
        | some step ↦
            async_step rt step (λ rt'. exec_async_cursor fuel rt' plan (index + 1) handler)
      ]

  -- `ForwardRuntime::execute_sync` and `execute_async`.
  unfoldable pub runtime_execute_sync : ForwardRuntime → List Step → Job S R → Job S R
  unfolding exec_sync_cursor
  runtime_execute_sync rt plan handler = exec_sync_cursor (suc (length plan)) rt plan 0 handler

  unfoldable pub runtime_execute_async : ForwardRuntime → List Step → Job S R → Job S R
  unfolding exec_async_cursor
  runtime_execute_async rt plan handler = exec_async_cursor (suc (length plan)) rt plan 0 handler

module _ {S : Type 0} where
  -- `Registry::shutdown`, behind `ForwardRuntime::shutdown`.
  unfoldable pub shutdown_all : List ℕ → World S → World S
  unfolding shutdown
  shutdown_all [] w = w
  shutdown_all (t ∷ ts) w = shutdown_all ts (shutdown t w)
