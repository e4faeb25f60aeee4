-- ===== src/Rpc/Practice/Proxy.antt =====
-- examples/rpc/practice.rs: `ForwardRuntime::bootstrap` and `PlayerProxy`, which sends the service's calls
-- along their plans.
use forwardr.Base.{ℕ, List, [], ◌∷◌}
use forwardr.Base.Int.{ℤ}
use forwardr.Rpc.Practice.Executor.{idle, World, Job}
use forwardr.Rpc.Practice.Runtime.{
  Step, rpc, thread, client, Registry, ForwardRuntime, runtime_execute_sync, runtime_execute_async,
  shutdown_all,
}
use forwardr.Rpc.Practice.Players.{
  PlayerProfile, PlayerOpsImpl, new_players, fetch_profile, update_score_async,
}
use forwardr.Rpc.Practice.Delivery.{on_store}

-- The names of the source, numbered.
abbrev pub cluster_alpha : ℕ
cluster_alpha = 0

abbrev pub worker_io : ℕ
worker_io = 1

abbrev pub worker_async : ℕ
worker_async = 2

-- `Registry::new`, and the threads and the service that it starts with.
abbrev pub new_registry : Registry
new_registry = record { rpc_sites = cluster_alpha ∷ []; threads = worker_io ∷ worker_async ∷ [] }

abbrev pub bootstrap : ForwardRuntime
bootstrap = record { location = client; registry = new_registry }

abbrev pub new_world : World PlayerOpsImpl
new_world = record { status = λ _. idle; store = new_players }

abbrev pub fetch_plan : List Step
fetch_plan = rpc cluster_alpha ∷ thread worker_io ∷ []

abbrev pub update_plan : List Step
update_plan = rpc cluster_alpha ∷ thread worker_async ∷ []

-- `PlayerProxy::fetch_profile`, `update_score` and `shutdown`.
unfoldable pub proxy_fetch_profile : ForwardRuntime → ℕ → Job PlayerOpsImpl PlayerProfile
unfolding runtime_execute_sync fetch_profile
proxy_fetch_profile rt player_id =
    runtime_execute_sync rt fetch_plan (on_store (fetch_profile player_id))

unfoldable pub proxy_update_score : ForwardRuntime → ℕ → ℤ → Job PlayerOpsImpl ℤ
unfolding runtime_execute_async update_score_async
proxy_update_score rt player_id delta =
    runtime_execute_async rt update_plan (on_store (update_score_async player_id delta))

unfoldable pub proxy_shutdown : ForwardRuntime → World PlayerOpsImpl → World PlayerOpsImpl
unfolding shutdown_all
proxy_shutdown rt = shutdown_all rt.registry.threads
