-- ===== src/Rpc/Practice/Service.antt =====
-- The proxy's calls, from the client through the runtime to the service and back.
use forwardr.Base.{ℕ, ◌≡◌, refl, ap, ◌∙◌, true, false, ◌==◌, if◌then◌else◌, [], ◌∷◌}
use forwardr.Base.Int.{ℤ, ◌+ℤ◌}
use forwardr.Base.Dict.{insert}
use forwardr.Rpc.Practice.Executor.{
  Outcome, done, panicked, idle, stopped, running, World, set_status, settle, execute_sync,
}
use forwardr.Rpc.Practice.Runtime.{rpc, thread, has_key, shutdown_all}
use forwardr.Rpc.Practice.Cursor.{exec_steps, cursors-exec_steps}
use forwardr.Rpc.Practice.Delivery.{on_store, delivers-steps}
use forwardr.Rpc.Practice.Scores.{entry_or-insert}
use forwardr.Rpc.Practice.Players.{
  PlayerOpsImpl, entry_or, entry_of, fits_i32, fetch_profile, update_score_async,
}
use forwardr.Rpc.Practice.Proxy.{
  cluster_alpha, worker_io, worker_async, new_registry, bootstrap, fetch_plan, update_plan,
  proxy_fetch_profile, proxy_update_score, proxy_shutdown,
}

module _ {R : Type 0} (f : PlayerOpsImpl → Outcome R × PlayerOpsImpl) (t : ℕ)
    (w : World PlayerOpsImpl) (known : has_key t new_registry.threads ≡ true) where
  by_thread :
      w.status t ≡ idle
      → exec_steps bootstrap (rpc cluster_alpha ∷ thread t ∷ []) (on_store f) w
        ≡ settle t (on_store f (set_status t running w))
  unfolding exec_steps execute_sync
  by_thread e = rw (known, e, execute_sync) refl

  by_stopped :
      w.status t ≡ stopped
      → exec_steps bootstrap (rpc cluster_alpha ∷ thread t ∷ []) (on_store f) w ≡ (panicked, w)
  unfolding exec_steps execute_sync
  by_stopped e = rw (known, e, execute_sync) refl

module _ (w : World PlayerOpsImpl) where
  fetch_run :
      (j : ℕ)
      → proxy_fetch_profile bootstrap j w
        ≡ exec_steps bootstrap fetch_plan (on_store (fetch_profile j)) w
  unfolding proxy_fetch_profile
  fetch_run j = ap (λ g. g w) ((cursors-exec_steps bootstrap fetch_plan _).0)

  update_run :
      (j : ℕ) (d : ℤ)
      → proxy_update_score bootstrap j d w
        ≡ exec_steps bootstrap update_plan (on_store (update_score_async j d)) w
  unfolding proxy_update_score
  update_run j d = ap (λ g. g w) ((cursors-exec_steps bootstrap update_plan _).1)

module _ (ops : PlayerOpsImpl) (sound : ops.poisoned ≡ false) (k : ℕ) (d : ℤ) where
  abbrev after_update : PlayerOpsImpl
  after_update = record ops {
    store = insert k (record (entry_of k ops) { score = (entry_of k ops).score +ℤ d }) ops.store;
  }

  update_fits :
      fits_i32 ((entry_of k ops).score +ℤ d) ≡ true
      → update_score_async k d ops ≡ (done ((entry_of k ops).score +ℤ d), after_update)
  unfolding update_score_async
  update_fits fits = rw (sound, fits) refl

  update_over :
      fits_i32 ((entry_of k ops).score +ℤ d) ≡ false
      → update_score_async k d ops
        ≡ (panicked, record { store = insert k (entry_of k ops) ops.store; poisoned = true })
  unfolding update_score_async
  update_over over = rw (sound, over) refl

  fetch_after :
      (j : ℕ)
      → fetch_profile j after_update ≡ (
        done (
            if j == k
            then record (entry_of k ops) { score = (entry_of k ops).score +ℤ d }
            else entry_or "Unknown" j ops.store),
        after_update,
      )
  unfolding fetch_profile
  fetch_after j = rw sound (
      ap (λ p. (done p, record after_update { poisoned = false }))
        (entry_or-insert "Unknown" j k _ ops.store))

module _ (ops : PlayerOpsImpl) (bad : ops.poisoned ≡ true) (j : ℕ) where
  fetch_poisoned : fetch_profile j ops ≡ (panicked, ops)
  unfolding fetch_profile
  fetch_poisoned = rw (bad, fetch_profile) refl

module _ (w : World PlayerOpsImpl) where
  -- Once the runtime is shut down, every call of the proxy panics, and changes nothing.
  pub shutdown-panics :
      (j : ℕ) (d : ℤ)
      → let w' = proxy_shutdown bootstrap w in
        (proxy_fetch_profile bootstrap j w' ≡ (panicked, w'))
        × (proxy_update_score bootstrap j d w' ≡ (panicked, w'))
  unfolding proxy_shutdown
  shutdown-panics j d =
      let w' = shutdown_all (worker_io ∷ worker_async ∷ []) w in
      (
        fetch_run w' j ∙ by_stopped (fetch_profile j) worker_io w' refl refl,
        update_run w' j d ∙ by_stopped (update_score_async j d) worker_async w' refl refl,
      )

  module _ (io : w.status worker_io ≡ idle) (at_work : w.status worker_async ≡ idle)
      (sound : w.store.poisoned ≡ false) (k : ℕ) (d : ℤ) where
    -- An update whose sum fits an `i32` gives the new score; a fetch after it gives that player with the
    -- new score, and any other player as before.
    pub update-fetch :
        fits_i32 ((entry_of k w.store).score +ℤ d) ≡ true
        → (w' : World PlayerOpsImpl) × (proxy_update_score bootstrap k d w
            ≡ (done ((entry_of k w.store).score +ℤ d), w'))
          × ((j : ℕ)
              → proxy_fetch_profile bootstrap j w' ≡ (
                done (
                    if j == k
                    then record (entry_of k w.store) { score = (entry_of k w.store).score +ℤ d }
                    else entry_or "Unknown" j w.store.store),
                w',
              ))
    update-fetch fits =
        let ops = after_update w.store sound k d in
        (
          record w { store = ops },
          update_run w k d
              ∙ delivers-steps bootstrap update_plan _ w _ ops (refl, (refl, at_work, tt))
                  (update_fits w.store sound k d fits),
          λ j.
              fetch_run (record w { store = ops }) j
              ∙ delivers-steps bootstrap fetch_plan _ (record w { store = ops }) _ ops
                  (refl, (refl, io, tt)) (fetch_after w.store sound k d j),
        )

    -- An update whose sum does not fit an `i32` panics with the lock held, and with it goes the service:
    -- every later call of the proxy panics.
    pub overflow-panics :
        fits_i32 ((entry_of k w.store).score +ℤ d) ≡ false
        → let (out, w') = proxy_update_score bootstrap k d w in
          (out ≡ panicked)
          × ((j : ℕ) → (proxy_fetch_profile bootstrap j w').0 ≡ panicked)
          × ((j : ℕ) (e : ℤ) → (proxy_update_score bootstrap j e w').0 ≡ panicked)
    overflow-panics over =
        let bad : PlayerOpsImpl = record {
          store = insert k (entry_of k w.store) w.store.store;
          poisoned = true;
        } in
        let after =
          set_status worker_async stopped
            (record (set_status worker_async running w) { store = bad }) in
        let fails : proxy_update_score bootstrap k d w ≡ (panicked, after) =
          update_run w k d
          ∙ by_thread (update_score_async k d) worker_async w refl at_work
          ∙ ap
              (λ q.
                settle worker_async
                  (q.0, record (set_status worker_async running w) { store = q.1 }))
              (update_over w.store sound k d over) in
        (
          ap (λ q. q.0) fails,
          λ j. rw fails (
              ap (λ q. q.0)
                (fetch_run after j
                  ∙ by_thread (fetch_profile j) worker_io after refl io
                  ∙ ap
                      (λ q.
                        settle worker_io
                          (q.0, record (set_status worker_io running after) { store = q.1 }))
                      (fetch_poisoned bad refl j))),
          λ j e. rw fails (
              ap (λ q. q.0)
                (update_run after j e
                  ∙ by_stopped (update_score_async j e) worker_async after refl refl)),
        )
