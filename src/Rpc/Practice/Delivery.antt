-- ===== src/Rpc/Practice/Delivery.antt =====
-- Which plans bring a call to its handler and back, and which do not.
use forwardr.Base.{
  ℕ, ◌≡◌, refl, ◌∙◌, ap, true, ◌==◌, if◌then◌else◌, List, [], ◌∷◌, inl, inr, Bool-cases, arith,
}
use mathlib.Core.Path.{fun_ext}
use forwardr.Rpc.Practice.Executor.{
  Status, idle, running, Outcome, done, World, Job, set_status, settle, execute_sync,
}
use forwardr.Rpc.Practice.Runtime.{
  Step, rpc, thread, Location, at_rpc, at_thread, ForwardRuntime, Registry, has_key, is_at_rpc,
  is_at_thread, moved, runtime_execute_sync, runtime_execute_async,
}
use forwardr.Rpc.Practice.Cursor.{exec_steps, cursors-exec_steps}

-- Every server of the plan is known, every thread registered and idle, and none comes twice.
abbrev pub Open : Registry → (ℕ → Status) → List Step → Type 0
Open g st [] = Unit
Open g st (rpc s ∷ plan) = (has_key s g.rpc_sites ≡ true) × Open g st plan
Open g st (thread t ∷ plan) =
    (has_key t g.threads ≡ true)
    × (st t ≡ idle)
    × Open g (λ u. if u == t then running else st u) plan

Open-weaken :
    (g : Registry) (plan : List Step) (st st' : ℕ → Status)
    → ((u : ℕ) → st' u ≡ idle → st u ≡ idle)
    → Open g st' plan
    → Open g st plan
Open-weaken g [] st st' h o = tt
Open-weaken g (rpc s ∷ plan) st st' h o = (o.0, Open-weaken g plan st st' h o.1)
Open-weaken g (thread t ∷ plan) st st' h o =
    (o.0, h t o.1, Open-weaken g plan _ _ (λ u e. ground (arith, h u)) o.2)

pub Open-rest :
    (g : Registry) (st : ℕ → Status) (t : ℕ) (plan : List Step)
    → Open g st (thread t ∷ plan)
    → Open g st plan
Open-rest g st t plan o = Open-weaken g plan _ _ (λ u q. ground arith) o.2

pub at_rpc_of : (l : Location) (s : ℕ) → is_at_rpc l s ≡ true → l ≡ at_rpc s
at_rpc_of l s e = ground arith

pub at_thread_of : (l : Location) (t : ℕ) → is_at_thread l t ≡ true → l ≡ at_thread t
at_thread_of l t e = ground arith

-- A handler that works on the store alone.
abbrev pub on_store : {S R : Type 0} → (S → Outcome R × S) → Job S R
on_store f w = let (out, s) = f w.store in (out, record w { store = s })

module _ {S R : Type 0} where
  -- A job run on an idle thread leaves every thread as the job does, and that one idle.
  settle-idle :
      (t : ℕ) (w : World S) (r : R) (s : S)
      → w.status t ≡ idle
      → settle t (done r, record (set_status t running w) { store = s })
        ≡ (done r, record w { store = s })
  settle-idle t w r s e =
      ap (λ f. (done r, record { status = f; store = s }))
        (fun_ext λ u. ground (arith, ap w.status))

  execute_sync-idle :
      (t : ℕ) (job : Job S R) (w : World S)
      → w.status t ≡ idle
      → execute_sync t job w ≡ settle t (job (set_status t running w))
  unfolding execute_sync
  execute_sync-idle t job w e = rw (e, execute_sync) refl

  -- A step to a known server, and one to a registered thread that is idle: what holds of the rest of
  -- the call holds of the whole.
  pub rpc_step :
      (P : Outcome R × World S → Type 0) (rt : ForwardRuntime) (server : ℕ) (plan : List Step)
      (handler : Job S R) (w : World S)
      → has_key server rt.registry.rpc_sites ≡ true
      → (rt.location ≡ at_rpc server → P (exec_steps rt plan handler w))
      → P (exec_steps (moved rt (at_rpc server)) plan handler w)
      → P (exec_steps rt (rpc server ∷ plan) handler w)
  unfolding exec_steps
  rpc_step P rt server plan handler w known stay go =
      elim (Bool-cases (is_at_rpc rt.location server)) [
        | inl here ↦ rw here (stay (at_rpc_of rt.location server here))
        | inr away ↦ rw (away, known) go
      ]

  pub thread_step :
      (P : Outcome R × World S → Type 0) (rt : ForwardRuntime) (t : ℕ) (plan : List Step)
      (handler : Job S R) (w : World S)
      → has_key t rt.registry.threads ≡ true
      → w.status t ≡ idle
      → (rt.location ≡ at_thread t → P (exec_steps rt plan handler w))
      → P (settle t (exec_steps (moved rt (at_thread t)) plan handler (set_status t running w)))
      → P (exec_steps rt (thread t ∷ plan) handler w)
  unfolding exec_steps
  thread_step P rt t plan handler w known free stay hop =
      elim (Bool-cases (is_at_thread rt.location t)) [
        | inl here ↦ rw here (stay (at_thread_of rt.location t here))
        | inr away ↦
            rw
              (
                away,
                known,
                execute_sync-idle t (exec_steps (moved rt (at_thread t)) plan handler) w free,
              )
              hop
      ]

  pub delivers-steps :
      (rt : ForwardRuntime) (plan : List Step) (f : S → Outcome R × S) (w : World S) (r : R) (s : S)
      → Open rt.registry w.status plan
      → f w.store ≡ (done r, s)
      → exec_steps rt plan (on_store f) w ≡ (done r, record w { store = s })
  unfolding exec_steps
  delivers-steps rt [] f w r s o e = rw e refl
  delivers-steps rt (rpc server ∷ plan) f w r s o e =
      rpc_step (λ q. q ≡ (done r, record w { store = s })) rt server plan _ w o.0
        (λ _. delivers-steps rt plan f w r s o.1 e)
        (delivers-steps (moved rt (at_rpc server)) plan f w r s o.1 e)
  delivers-steps rt (thread t ∷ plan) f w r s o e =
      let open_rest = Open-rest rt.registry w.status t plan o in
      thread_step (λ q. q ≡ (done r, record w { store = s })) rt t plan _ w o.0 o.1
        (λ _. delivers-steps rt plan f w r s open_rest e)
        (ap (settle t)
            (delivers-steps (moved rt (at_thread t)) plan f (set_status t running w) r s o.2 e)
          ∙ settle-idle t w r s o.1)

  -- Where every server of the plan is known, and its threads are registered, idle and all different,
  -- a handler that succeeds on the store is reached and its result comes back, whatever the route: the
  -- store is as the handler leaves it, and every thread is as it was.
  pub execute-delivers :
      (rt : ForwardRuntime) (plan : List Step) (f : S → Outcome R × S) (w : World S) (r : R) (s : S)
      → Open rt.registry w.status plan
      → f w.store ≡ (done r, s)
      → (runtime_execute_sync rt plan (on_store f) w ≡ (done r, record w { store = s }))
        × (runtime_execute_async rt plan (on_store f) w ≡ (done r, record w { store = s }))
  execute-delivers rt plan f w r s o e =
      let (synced, awaited) = cursors-exec_steps rt plan (on_store f) in
      let arrives = delivers-steps rt plan f w r s o e in
      (ap (λ j. j w) synced ∙ arrives, ap (λ j. j w) awaited ∙ arrives)
