-- ===== src/Forward/Polls.antt =====
-- The polls of an async call that is forwarded.
use forwardr.Base.{ℕ, suc, ◌≡◌, ◌≢◌, refl, ap, ◌∙◌}
use forwardr.Forward.Hops.{Hop, own, default, rpc, local}
use forwardr.Forward.Async.{
  Async, ready, pending, panicked, never, ◌>>=◌, AsyncReturn, into_async, ForwardAsyncMethod,
  async_call_raw, async_call_rpc, async_call_local, async_handle_of,
}

-- A value that is wrapped and then taken out again.
raw-into_async :
    {R : Type 0} (p : Async R) → ((p >>= λ r. ready (AsyncReturn.raw r)) >>= into_async) ≡ p
unfolding ◌>>=◌ into_async
raw-into_async (ready r) = refl
raw-into_async (pending p) = ap pending (raw-into_async p)
raw-into_async panicked = refl
raw-into_async never = refl

module _ {Name Args R Server Thread : Type 0} (m : ForwardAsyncMethod Name Args R Server Thread)
    (args : Args) where
  async_call_local-raw :
      (depth : ℕ) (t : Hop)
      → m.thread_kind (m.thread_index args) ≡ async_handle_of t
      → t ≢ rpc
      → async_call_local (suc depth) m args ≡ async_call_raw m args
  unfolding async_call_local async_handle_of
  async_call_local-raw depth own e n = rw e
  async_call_local-raw depth default e n = rw e
  async_call_local-raw depth rpc e n = absurd (n refl)
  async_call_local-raw depth local e n = rw e

  async_call_rpc-raw :
      (depth : ℕ) (v t : Hop)
      → m.server_kind (m.server_index args) ≡ async_handle_of v
      → m.thread_kind (m.thread_index args) ≡ async_handle_of t
      → t ≢ rpc
      → async_call_rpc (suc (suc depth)) m args ≡ async_call_raw m args
  unfolding async_call_rpc async_handle_of
  async_call_rpc-raw depth own t e f n = rw (e, async_call_local-raw depth t f n) refl
  async_call_rpc-raw depth default t e f n = rw e
  async_call_rpc-raw depth rpc t e f n = rw (e, async_call_local-raw depth t f n) refl
  async_call_rpc-raw depth local t e f n = rw e

  -- Whichever handle of the repository the server's selector picks, and whichever but `RpcForward` the
  -- thread's picks: `call_rpc`, awaited, and then `into_async`, awaited, are the method's future, with
  -- the same polls, panic and value; and calls two deep are enough.
  pub async_call_rpc-transparent :
      (depth : ℕ) (v t : Hop)
      → m.server_kind (m.server_index args) ≡ async_handle_of v
      → m.thread_kind (m.thread_index args) ≡ async_handle_of t
      → t ≢ rpc
      → (async_call_rpc (suc (suc depth)) m args >>= into_async) ≡ m.function args
  unfolding async_call_raw
  async_call_rpc-transparent depth v t e f n =
      ap (λ p. p >>= into_async) (async_call_rpc-raw depth v t e f n)
      ∙ raw-into_async (m.function args)
