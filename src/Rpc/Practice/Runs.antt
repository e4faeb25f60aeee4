-- ===== src/Rpc/Practice/Runs.antt =====
-- The runtime and the service on concrete calls, and the theorems there.
use forwardr.Base.{ℕ, ◌≡◌, refl, List, [], ◌∷◌}
use forwardr.Base.Int.{ℤ, pos, negsuc, ◌+ℤ◌}
use forwardr.Rpc.Practice.Executor.{done, panicked, blocked, stopped, Job, set_status}
use forwardr.Rpc.Practice.Runtime.{Step, rpc, thread, runtime_execute_sync, runtime_execute_async}
use forwardr.Rpc.Practice.Cursor.{exec_steps, cursors-exec_steps}
use forwardr.Rpc.Practice.Delivery.{on_store, execute-delivers}
use forwardr.Rpc.Practice.Failure.{execute-blocks, panic-stops}
use forwardr.Rpc.Practice.Players.{
  PlayerProfile, PlayerOpsImpl, new_players, entry_or, fetch_profile,
}
use forwardr.Rpc.Practice.Proxy.{
  cluster_alpha, worker_io, bootstrap, new_world, fetch_plan, proxy_update_score,
}

-- The smoke test of the source: 120 and 55 make 175.
alice_update : (proxy_update_score bootstrap 1001 (pos 55) new_world).0 ≡ done (pos 175)
unfolding proxy_update_score ◌+ℤ◌
alice_update = refl

cursors-exec_steps_example :
    (runtime_execute_sync bootstrap fetch_plan (on_store (fetch_profile 1001))
      ≡ exec_steps bootstrap fetch_plan (on_store (fetch_profile 1001)))
    × (runtime_execute_async bootstrap fetch_plan (on_store (fetch_profile 1001))
        ≡ exec_steps bootstrap fetch_plan (on_store (fetch_profile 1001)))
cursors-exec_steps_example = cursors-exec_steps bootstrap fetch_plan (on_store (fetch_profile 1001))

execute-delivers_example :
    (runtime_execute_sync bootstrap fetch_plan (on_store (fetch_profile 1001)) new_world
      ≡ (done (entry_or "Unknown" 1001 new_players.store), new_world))
    × (runtime_execute_async bootstrap fetch_plan (on_store (fetch_profile 1001)) new_world
        ≡ (done (entry_or "Unknown" 1001 new_players.store), new_world))
unfolding fetch_profile
execute-delivers_example =
    execute-delivers bootstrap fetch_plan (fetch_profile 1001) new_world _ new_players
      (refl, (refl, refl, tt)) refl

-- To `worker_io`, then to the server, and back to `worker_io`.
execute-blocks_example :
    ((runtime_execute_sync bootstrap
        (thread worker_io ∷ rpc cluster_alpha ∷ thread worker_io ∷ [])
        (on_store (fetch_profile 1001))
        new_world).0
      ≡ blocked)
    × ((runtime_execute_async bootstrap
          (thread worker_io ∷ rpc cluster_alpha ∷ thread worker_io ∷ [])
          (on_store (fetch_profile 1001))
          new_world).0
        ≡ blocked)
execute-blocks_example =
    execute-blocks bootstrap (rpc cluster_alpha ∷ []) [] worker_io (on_store (fetch_profile 1001))
      new_world (refl, refl, (refl, tt)) refl refl

-- Server 7 is not known.
panic-stops_example :
    let (out, w') =
      runtime_execute_sync bootstrap
        (thread worker_io ∷ rpc 7 ∷ [])
        (on_store (fetch_profile 1001))
        new_world in
    (out ≡ panicked)
    × (w' ≡ set_status worker_io stopped new_world)
    × ((rest : List Step) (handler : Job PlayerOpsImpl PlayerProfile)
        → (runtime_execute_sync bootstrap (thread worker_io ∷ rest) handler w').0 ≡ panicked)
panic-stops_example =
    panic-stops bootstrap worker_io 7 [] (on_store (fetch_profile 1001)) new_world refl refl refl
      refl

abbrev other_way : List (ℕ × ℤ)
other_way = (2002, negsuc 14) ∷ (2002, pos 25) ∷ []
