-- ===== src/Rpc/Practice/Failure.antt =====
-- The calls that do not come back, and those that stop a thread.
use forwardr.Base.{ℕ, ◌≡◌, refl, ap, ◌∙◌, true, false, List, [], ◌∷◌, ◌++◌, arith}
use mathlib.Core.Path.{fun_ext}
use forwardr.Rpc.Practice.Executor.{
  idle, running, stopped, Outcome, done, panicked, blocked, out_of_fuel, World, Job, set_status,
  settle, execute_sync,
}
use forwardr.Rpc.Practice.Runtime.{
  Step, rpc, thread, Location, at_rpc, at_thread, ForwardRuntime, has_key, is_at_rpc, is_at_thread,
  moved, runtime_execute_sync, runtime_execute_async,
}
use forwardr.Rpc.Practice.Cursor.{exec_steps, cursors-exec_steps}
use forwardr.Rpc.Practice.Delivery.{Open, Open-rest, rpc_step, thread_step}

-- Where a call is after a plan.
abbrev pub end_at : Location → List Step → Location
end_at l [] = l
end_at l (rpc s ∷ plan) = end_at (at_rpc s) plan
end_at l (thread t ∷ plan) = end_at (at_thread t) plan

not_there : (l : Location) (t : ℕ) → l ≡ at_thread t → is_at_thread l t ≡ false → ⊥
not_there l t e away = ground arith

still_running :
    {S : Type 0} (u t : ℕ) (w : World S)
    → w.status u ≡ idle
    → w.status t ≡ running
    → (set_status u running w).status t ≡ running
still_running u t w free busy = ground (arith, ap w.status)

module _ {S R : Type 0} where
  settle-blocked : (t : ℕ) (q : Outcome R × World S) → q.0 ≡ blocked → (settle t q).0 ≡ blocked
  settle-blocked t (done r, w) e = cc
  settle-blocked t (panicked, w) e = cc
  settle-blocked t (blocked, w) e = refl
  settle-blocked t (out_of_fuel, w) e = cc

  running_blocks :
      (rt : ForwardRuntime) (t : ℕ) (rest : List Step) (handler : Job S R) (w : World S)
      → has_key t rt.registry.threads ≡ true
      → w.status t ≡ running
      → is_at_thread rt.location t ≡ false
      → (exec_steps rt (thread t ∷ rest) handler w).0 ≡ blocked
  unfolding exec_steps execute_sync
  running_blocks rt t rest handler w known busy away = rw (away, known, busy, execute_sync) refl

  hop_steps :
      (P : Outcome R × World S → Type 0) (rt : ForwardRuntime) (t : ℕ) (plan : List Step)
      (handler : Job S R) (w : World S)
      → has_key t rt.registry.threads ≡ true
      → w.status t ≡ idle
      → is_at_thread rt.location t ≡ false
      → P (settle t (exec_steps (moved rt (at_thread t)) plan handler (set_status t running w)))
      → P (exec_steps rt (thread t ∷ plan) handler w)
  hop_steps P rt t plan handler w known free away h =
      thread_step P rt t plan handler w known free (λ e. absurd (not_there rt.location t e away)) h

  stopped_steps :
      (rt : ForwardRuntime) (t : ℕ) (plan : List Step) (handler : Job S R) (w : World S)
      → has_key t rt.registry.threads ≡ true
      → w.status t ≡ stopped
      → is_at_thread rt.location t ≡ false
      → (exec_steps rt (thread t ∷ plan) handler w).0 ≡ panicked
  unfolding exec_steps
  stopped_steps rt t plan handler w known ended away = rw (away, known, ended, execute_sync) refl

  unknown_panics :
      (rt : ForwardRuntime) (s : ℕ) (rest : List Step) (handler : Job S R) (w : World S)
      → is_at_rpc rt.location s ≡ false
      → has_key s rt.registry.rpc_sites ≡ false
      → exec_steps rt (rpc s ∷ rest) handler w ≡ (panicked, w)
  unfolding exec_steps
  unknown_panics rt s rest handler w away unknown = rw (away, unknown) refl

  blocks-steps :
      (rt : ForwardRuntime) (plan rest : List Step) (t : ℕ) (handler : Job S R) (w : World S)
      → Open rt.registry w.status plan
      → has_key t rt.registry.threads ≡ true
      → w.status t ≡ running
      → is_at_thread (end_at rt.location plan) t ≡ false
      → (exec_steps rt (plan ++ (thread t ∷ rest)) handler w).0 ≡ blocked
  blocks-steps rt [] rest t handler w o known busy away =
      running_blocks rt t rest handler w known busy away
  blocks-steps rt (rpc s ∷ plan) rest t handler w o known busy away =
      rpc_step (λ q. q.0 ≡ blocked) rt s _ _ w o.0
        (λ e. blocks-steps rt plan rest t handler w o.1 known busy (rw e away))
        (blocks-steps (moved rt (at_rpc s)) plan rest t handler w o.1 known busy away)
  blocks-steps rt (thread u ∷ plan) rest t handler w o known busy away =
      thread_step (λ q. q.0 ≡ blocked) rt u _ _ w o.0 o.1
        (λ e.
          blocks-steps rt plan rest t handler w (Open-rest rt.registry w.status u plan o) known busy
            (rw e away))
        (settle-blocked u _ (
          blocks-steps (moved rt (at_thread u)) plan rest t handler (set_status u running w) o.2
            known (still_running u t w o.1 busy) away))

  -- A plan that leaves a thread and comes back to it never returns, in either cursor: the thread runs the
  -- first hop's job, which waits for the second hop's, which is queued behind it. The way between is
  -- any plan over known servers and other idle threads that does not end on that thread.
  pub execute-blocks :
      (rt : ForwardRuntime) (between rest : List Step) (t : ℕ) (handler : Job S R) (w : World S)
      → Open rt.registry w.status (thread t ∷ between)
      → is_at_thread rt.location t ≡ false
      → is_at_thread (end_at (at_thread t) between) t ≡ false
      → ((runtime_execute_sync rt (thread t ∷ (between ++ (thread t ∷ rest))) handler w).0
          ≡ blocked)
        × ((runtime_execute_async rt (thread t ∷ (between ++ (thread t ∷ rest))) handler w).0
            ≡ blocked)
  execute-blocks rt between rest t handler w o outside left =
      let plan = thread t ∷ (between ++ (thread t ∷ rest)) in
      let (synced, awaited) = cursors-exec_steps rt plan handler in
      let waits : (exec_steps rt plan handler w).0 ≡ blocked =
        hop_steps (λ q. q.0 ≡ blocked) rt t _ handler w o.0 o.1 outside
          (settle-blocked t _ (
            blocks-steps (moved rt (at_thread t)) between rest t handler (set_status t running w)
              o.2 o.0 (ground arith) left)) in
      (ap (λ j. (j w).0) synced ∙ waits, ap (λ j. (j w).0) awaited ∙ waits)

  -- A server that is not known: past a hop to an idle thread, the panic ends that thread's loop, and
  -- every later call that hops to the thread first panics too.
  pub panic-stops :
      (rt : ForwardRuntime) (t s : ℕ) (rest : List Step) (handler : Job S R) (w : World S)
      → has_key t rt.registry.threads ≡ true
      → w.status t ≡ idle
      → is_at_thread rt.location t ≡ false
      → has_key s rt.registry.rpc_sites ≡ false
      → let (out, w') = runtime_execute_sync rt (thread t ∷ rpc s ∷ rest) handler w in
        (out ≡ panicked)
        × (w' ≡ set_status t stopped w)
        × ((rest' : List Step) (handler' : Job S R)
            → (runtime_execute_sync rt (thread t ∷ rest') handler' w').0 ≡ panicked)
  panic-stops rt t s rest handler w known free outside unknown =
      let plan = thread t ∷ rpc s ∷ rest in
      let fails : runtime_execute_sync rt plan handler w ≡ (panicked, set_status t stopped w) =
        ap (λ j. j w) ((cursors-exec_steps rt plan handler).0)
        ∙ hop_steps (λ q. q ≡ (panicked, set_status t stopped w)) rt t (rpc s ∷ rest) handler w
            known free outside
            (ap (settle t) (
                unknown_panics (moved rt (at_thread t)) s rest handler (set_status t running w) refl
                  unknown)
              ∙ ap (λ f. (panicked, record { status = f; store = w.store }))
                  (fun_ext λ u. ground arith)) in
      (
        ap (λ q. q.0) fails,
        ap (λ q. q.1) fails,
        λ rest' handler'. rw fails (
            ap (λ j. (j (set_status t stopped w)).0) ((cursors-exec_steps rt _ handler').0)
            ∙ stopped_steps rt t rest' handler' (set_status t stopped w) known (ground arith)
                outside),
      )
