-- ===== src/Rpc/Managers.antt =====
-- examples/rpc/net.rs, `RpcManager`: the clients of a process, by the number of the server; and
-- examples/rpc/worker.rs, `WorkerManager`: its workers. Each is one value for the process.
use forwardr.Base.{
  ℕ, zero, suc, ◌≡◌, ltb, ◌==◌, if◌then◌else◌, Option, none, some, List, [], get_elem?, replicate,
  set, arith,
}
use forwardr.Base.Dict.{Dict, lookup, insert, lookup-insert}
use forwardr.Rpc.Worker.{Task, Worker, worker, send_task}
use mathlib.Core.Option

-- The map is used under its lock: a call is one step.
pub record RpcManager (Client : Type 0) : Type 0 where
  pub clients : Dict Client

module _ {Client : Type 0} where
  unfoldable pub new_rpc_manager : RpcManager Client
  new_rpc_manager = record { clients = [] }

  unfoldable pub insert_client : ℕ → Client → RpcManager Client → RpcManager Client
  insert_client sid client m = record { clients = insert sid client m.clients }

  unfoldable pub get_client : ℕ → RpcManager Client → Option Client
  get_client sid m = lookup sid m.clients

  -- The client that was put in last under a number is the one found there; all others stay.
  pub get_client-insert_client :
      (sid at : ℕ) (client : Client) (m : RpcManager Client)
      → get_client at (insert_client sid client m)
        ≡ (if at == sid then some client else get_client at m)
  unfolding get_client insert_client
  get_client-insert_client sid at client m = lookup-insert at sid client m.clients

pub record WorkerManager (S : Type 0) : Type 0 where
  pub workers : List (Worker S)

module _ {S : Type 0} where
  -- `new` spawns as many idle workers; each works on a store of its own.
  unfoldable pub new_worker_manager : ℕ → S → WorkerManager S
  new_worker_manager num_workers s = record { workers = replicate num_workers (worker [] none s 0) }

  -- `get`: an index out of range panics.
  unfoldable pub get_worker : ℕ → WorkerManager S → Option (Worker S)
  get_worker index m = get_elem? m.workers index

  -- `terminate`
  unfoldable pub terminate : WorkerManager S → WorkerManager S
  terminate m = record { workers = [] }

  -- `get(index).send_task(task)`
  unfoldable pub send_to : ℕ → Task S → WorkerManager S → Option (WorkerManager S)
  unfolding get_worker
  send_to index task m =
      Option.map (λ w. record { workers = set m.workers index (send_task task w) })
        (get_worker index m)

  get_elem?-replicate :
      (n i : ℕ) (w : Worker S) → get_elem? (replicate n w) i ≡ (if ltb i n then some w else none)
  get_elem?-replicate zero i w = ground arith
  get_elem?-replicate (suc n) zero w = ground arith
  get_elem?-replicate (suc n) (suc i) w = ground (arith, get_elem?-replicate n i w)

  -- A manager gives an idle worker at just the indices below the number of its workers.
  pub get_worker-new :
      (num_workers index : ℕ) (s : S)
      → get_worker index (new_worker_manager num_workers s)
        ≡ (if ltb index num_workers then some (worker [] none s 0) else none)
  unfolding get_worker new_worker_manager
  get_worker-new num_workers index s = get_elem?-replicate num_workers index (worker [] none s 0)
