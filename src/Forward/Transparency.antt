-- ===== src/Forward/Transparency.antt =====
-- What a forwarded call returns.
use forwardr.Base.{ℕ, zero, suc, ◌≡◌, ◌≢◌, refl, none, some}
use forwardr.Forward.Calls.{
  ForwardReturn, ForwardSyncMethod, into_sync, select, call_raw, call_rpc, call_local,
}
use forwardr.Forward.Hops.{Hop, own, default, rpc, local, handle_of}

module _ {Name Args R Server Thread : Type 0} (m : ForwardSyncMethod Name Args R Server Thread)
    (args : Args) where
  -- On a thread's own side, and through every handle of the repository but `RpcForward`, a local
  -- call returns what the method returns, and at once.
  pub call_local-raw :
      (depth : ℕ) (t : Hop)
      → select m.thread args ≡ handle_of t
      → t ≢ rpc
      → call_local (suc depth) m args ≡ some (call_raw m args)
  unfolding call_local handle_of
  call_local-raw depth own e n = rw e
  call_local-raw depth default e n = rw e
  call_local-raw depth rpc e n = absurd (n refl)
  call_local-raw depth local e n = rw e

  -- Forwarding is transparent: whichever handle of the repository the server's selector picks, and
  -- whichever but `RpcForward` the thread's picks, `call_rpc` and then `into_sync` give the value of
  -- the method, and calls two deep are enough.
  pub call_rpc-transparent :
      (depth : ℕ) (v t : Hop)
      → select m.server args ≡ handle_of v
      → select m.thread args ≡ handle_of t
      → t ≢ rpc
      → (r : ForwardReturn R) × (call_rpc (suc (suc depth)) m args ≡ some r)
        × (into_sync r ≡ some (m.function args))
  unfolding call_rpc handle_of into_sync call_raw
  call_rpc-transparent depth own t e f n =
      (call_raw m args, rw (e, call_local-raw depth t f n), refl)
  call_rpc-transparent depth default t e f n = (call_raw m args, rw e, refl)
  call_rpc-transparent depth rpc t e f n =
      (call_raw m args, rw (e, call_local-raw depth t f n), refl)
  call_rpc-transparent depth local t e f n = (call_raw m args, rw e, refl)

  -- With `RpcForward` for a thread, the local call hands itself to `call_local` again: it returns at
  -- no depth.
  pub call_local-rpc_diverges :
      select m.thread args ≡ handle_of rpc → (depth : ℕ) → call_local depth m args ≡ none
  unfolding call_local handle_of
  call_local-rpc_diverges e zero = refl
  call_local-rpc_diverges e (suc depth) = rw e (call_local-rpc_diverges e depth)
