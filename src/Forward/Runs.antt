-- ===== src/Forward/Runs.antt =====
-- Forwarded calls on concrete data, and the theorems there.
use forwardr.Base.{ℕ, ◌+◌, ◌≡◌, refl, none, some}
use forwardr.Forward.Calls.{
  ForwardReturn, ForwardSyncMethod, into_sync, select, call_rpc, call_local,
}
use forwardr.Forward.Hops.{Hop, own, rpc, local, handle_of}
use forwardr.Forward.Async.{
  ready, pending, ◌>>=◌, into_async, ForwardAsyncMethod, async_call_rpc, async_handle_of,
}
use forwardr.Forward.Polls.{async_call_rpc-transparent}
use forwardr.Forward.Transparency.{call_rpc-transparent, call_local-rpc_diverges}

-- A method that adds one, at the server `v`; its thread is `t`, picked by the argument.
abbrev routed : Hop → Hop → ForwardSyncMethod ℕ ℕ ℕ Unit ℕ
routed v t = record {
  server = record { kind = λ _. handle_of v; selector = λ _. tt };
  thread = record { kind = λ _. handle_of t; selector = λ n. n };
  meta = record { name = 0; method = 1 };
  function = λ n. n + 1;
}

call_rpc-transparent_example :
    (r : ForwardReturn ℕ) × (call_rpc 2 (routed rpc local) 4 ≡ some r) × (into_sync r ≡ some 5)
unfolding select
call_rpc-transparent_example =
    call_rpc-transparent (routed rpc local) 4 0 rpc local refl refl (λ e. cc)

call_local-rpc_diverges_example : call_local 9 (routed own rpc) 4 ≡ none
unfolding select
call_local-rpc_diverges_example = call_local-rpc_diverges (routed own rpc) 4 refl 9

-- An async method that adds one after two polls.
abbrev async_routed : Hop → Hop → ForwardAsyncMethod ℕ ℕ ℕ Unit ℕ
async_routed v t = record {
  server_kind = λ _. async_handle_of v;
  server_index = λ _. tt;
  thread_kind = λ _. async_handle_of t;
  thread_index = λ n. n;
  meta = record { name = 0; method = 1 };
  function = λ n. pending (pending (ready (n + 1)));
}

async_call_rpc-transparent_example :
    (async_call_rpc 2 (async_routed rpc local) 4 >>= into_async) ≡ pending (pending (ready 5))
async_call_rpc-transparent_example =
    async_call_rpc-transparent (async_routed rpc local) 4 0 rpc local refl refl (λ e. cc)
