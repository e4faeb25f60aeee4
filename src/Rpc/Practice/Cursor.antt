-- ===== src/Rpc/Practice/Cursor.antt =====
-- What the two cursors come to: the steps of the plan, one after the other.
use forwardr.Base.{
  ℕ, zero, suc, ◌+◌, ◌<◌, ◌≡◌, refl, true, false, leb, if◌then◌else◌, some, List, [], ◌∷◌, length,
  get_elem?, drop, arith,
}
use mathlib.Core.Path.{fun_ext}
use forwardr.Rpc.Practice.Executor.{panicked, Job, execute_sync, execute_async}
use forwardr.Rpc.Practice.Runtime.{
  Step, rpc, thread, at_rpc, at_thread, ForwardRuntime, has_key, is_at_rpc, is_at_thread, moved,
  sync_step, async_step, exec_sync_cursor, exec_async_cursor, runtime_execute_sync,
  runtime_execute_async,
}

module _ {A : Type 0} where
  past_end : (xs : List A) (i : ℕ) → drop i xs ≡ [] → leb (length xs) i ≡ true
  past_end [] i e = ground arith
  past_end (x ∷ xs) zero e = cc
  past_end (x ∷ xs) (suc i) e = ground (arith, past_end xs i e)

  get_elem?-at :
      (xs : List A) (i : ℕ) {y : A} {ys : List A}
      → drop i xs ≡ y ∷ ys
      → (leb (length xs) i ≡ false) × (get_elem? xs i ≡ some y) × (drop (i + 1) xs ≡ ys)
  get_elem?-at [] zero e = cc
  get_elem?-at [] (suc i) e = cc
  get_elem?-at (x ∷ xs) zero e = ground arith
  get_elem?-at (x ∷ xs) (suc i) e = ground (arith, get_elem?-at xs i e)

module _ {S R : Type 0} where
  -- The plan as a plain recursion over its steps: a step to where the call is does nothing, one to a
  -- known server moves the call there, one to a registered thread runs the rest of the call on it,
  -- and any other step panics.
  unfoldable pub exec_steps : ForwardRuntime → List Step → Job S R → Job S R
  unfolding execute_sync
  exec_steps rt [] handler = handler
  exec_steps rt (rpc s ∷ plan) handler =
      let rest : ForwardRuntime → Job S R = λ rt'. exec_steps rt' plan handler in
      λ w.
        if is_at_rpc rt.location s
        then rest rt w
        else if has_key s rt.registry.rpc_sites
        then rest (moved rt (at_rpc s)) w
        else (panicked, w)
  exec_steps rt (thread t ∷ plan) handler =
      let rest : ForwardRuntime → Job S R = λ rt'. exec_steps rt' plan handler in
      λ w.
        if is_at_thread rt.location t
        then rest rt w
        else if has_key t rt.registry.threads
        then execute_sync t (rest (moved rt (at_thread t))) w
        else (panicked, w)

  sync_step-exec_steps :
      (rt : ForwardRuntime) (s : Step) (plan : List Step) (handler : Job S R)
      → sync_step rt s (λ rt'. exec_steps rt' plan handler) ≡ exec_steps rt (s ∷ plan) handler
  unfolding sync_step exec_steps
  sync_step-exec_steps rt (rpc s) plan handler = refl
  sync_step-exec_steps rt (thread t) plan handler = refl

  async_step-exec_steps :
      (rt : ForwardRuntime) (s : Step) (plan : List Step) (handler : Job S R)
      → async_step rt s (λ rt'. exec_steps rt' plan handler) ≡ exec_steps rt (s ∷ plan) handler
  unfolding async_step execute_async exec_steps execute_sync
  async_step-exec_steps rt (rpc s) plan handler = refl
  async_step-exec_steps rt (thread t) plan handler = refl

  exec_sync-exec_steps :
      (fuel : ℕ) (rt : ForwardRuntime) (plan : List Step) (index : ℕ) (rest : List Step)
      (handler : Job S R)
      → drop index plan ≡ rest
      → length rest < fuel
      → exec_sync_cursor fuel rt plan index handler ≡ exec_steps rt rest handler
  unfolding exec_sync_cursor
  exec_sync-exec_steps zero rt plan index rest handler e lt = absurd (omega arith)
  exec_sync-exec_steps (suc fuel) rt plan index [] handler e lt =
      rw (past_end plan index e) (unfold exec_steps in refl)
  exec_sync-exec_steps (suc fuel) rt plan index (s ∷ rest) handler e lt =
      let (within, here, later) = get_elem?-at plan index e in
      rw
        (
          within,
          here,
          fun_ext (λ rt'.
              exec_sync-exec_steps fuel rt' plan (index + 1) rest handler later (omega arith)),
        )
        (sync_step-exec_steps rt s rest handler)

  exec_async-exec_steps :
      (fuel : ℕ) (rt : ForwardRuntime) (plan : List Step) (index : ℕ) (rest : List Step)
      (handler : Job S R)
      → drop index plan ≡ rest
      → length rest < fuel
      → exec_async_cursor fuel rt plan index handler ≡ exec_steps rt rest handler
  unfolding exec_async_cursor
  exec_async-exec_steps zero rt plan index rest handler e lt = absurd (omega arith)
  exec_async-exec_steps (suc fuel) rt plan index [] handler e lt =
      rw (past_end plan index e) (unfold exec_steps in refl)
  exec_async-exec_steps (suc fuel) rt plan index (s ∷ rest) handler e lt =
      let (within, here, later) = get_elem?-at plan index e in
      rw
        (
          within,
          here,
          fun_ext (λ rt'.
              exec_async-exec_steps fuel rt' plan (index + 1) rest handler later (omega arith)),
        )
        (async_step-exec_steps rt s rest handler)

  -- Whatever the plan, both cursors do what the plain recursion `exec_steps` over its steps does, which has
  -- neither an index nor fuel: they never meet an index out of range, nor the end of their fuel.
  pub cursors-exec_steps :
      (rt : ForwardRuntime) (plan : List Step) (handler : Job S R)
      → (runtime_execute_sync rt plan handler ≡ exec_steps rt plan handler)
        × (runtime_execute_async rt plan handler ≡ exec_steps rt plan handler)
  unfolding runtime_execute_sync runtime_execute_async
  cursors-exec_steps rt plan handler = (
    exec_sync-exec_steps (suc (length plan)) rt plan 0 plan handler refl (omega arith),
    exec_async-exec_steps (suc (length plan)) rt plan 0 plan handler refl (omega arith),
  )
