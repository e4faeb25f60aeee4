-- ===== src/Forward/Async.antt =====
-- forward/src/lib.rs: `ForwardAsyncMethod`, `ForwardReturn::into_async` and the async half of `Forward`; and
-- the async methods of the two handles of examples/test.rs.
use forwardr.Base.{ℕ, zero, suc, Bool, true, false, if◌then◌else◌, Option, none, some}
use forwardr.Forward.Calls.{ForwardMetadata}
use forwardr.Forward.Hops.{Hop, own, default, rpc, local}

-- A future, poll by poll: it is ready, or pending until the poll after, or its poll panics. `never` is one
-- that is always pending.
pub data Async (R : Type 0) : Type 0 where
  ready : R → Async R
  pending : Async R → Async R
  panicked never : Async R

-- `await`, and what is done with the value.
infixl 5 ◌>>=◌
unfoldable pub ◌>>=◌ : {X Y : Type 0} → Async X → (X → Async Y) → Async Y
ready x >>= f = f x
pending p >>= f = pending (p >>= f)
panicked >>= f = panicked
never >>= f = never

-- `ForwardReturn`, whose `oneshot::Receiver` is awaited: its value is `none` if the sender was dropped.
pub data AsyncReturn (R : Type 0) : Type 0 where
  raw : R → AsyncReturn R
  forward : Async (Option R) → AsyncReturn R

unfoldable pub expect_value : {R : Type 0} → Option R → Async R
expect_value none = panicked
expect_value (some value) = ready value

unfoldable pub into_async : {R : Type 0} → AsyncReturn R → Async R
unfolding ◌>>=◌ expect_value
into_async (AsyncReturn.raw value) = ready value
into_async (AsyncReturn.forward receiver) = receiver >>= expect_value

module _ (Name Args R : Type 0) where
  pub record AsyncCalls : Type 0 where
    pub metadata : ForwardMetadata Name
    pub async_call_rpc : Args → Async (AsyncReturn R)
    pub async_call_local : Args → Async (AsyncReturn R)
    pub async_call_raw : Args → Async (AsyncReturn R)

  pub record AsyncHandle : Type 0 where
    pub is_own_side : Bool
    pub forward_async : AsyncCalls → Args → Async (AsyncReturn R)

  -- The server's selector with its kind, the thread's, and the method, which returns a future.
  pub record ForwardAsyncMethod (Server Thread : Type 0) : Type 0 where
    pub server_kind : Server → AsyncHandle
    pub server_index : Args → Server
    pub thread_kind : Thread → AsyncHandle
    pub thread_index : Args → Thread
    pub meta : ForwardMetadata Name
    pub function : Args → Async R

module _ {Name Args R Server Thread : Type 0} where
  unfoldable pub async_call_raw :
      ForwardAsyncMethod Name Args R Server Thread → Args → Async (AsyncReturn R)
  unfolding ◌>>=◌
  async_call_raw m args = m.function args >>= λ r. ready (AsyncReturn.raw r)

  -- The two calls, to a bounded depth: an implementation of `Forward` may call back.
  unfoldable mutual
    unfolding async_call_raw

    pub async_call_rpc :
        ℕ → ForwardAsyncMethod Name Args R Server Thread → Args → Async (AsyncReturn R)
    async_call_rpc zero m args = never
    async_call_rpc (suc depth) m args =
        let calls : AsyncCalls Name Args R = record {
          metadata = m.meta;
          async_call_rpc = async_call_rpc depth m;
          async_call_local = async_call_local depth m;
          async_call_raw = async_call_raw m;
        } in
        let here = async_call_local depth m args in
        let handle = m.server_kind (m.server_index args) in
        if handle.is_own_side then here else handle.forward_async calls args

    pub async_call_local :
        ℕ → ForwardAsyncMethod Name Args R Server Thread → Args → Async (AsyncReturn R)
    async_call_local zero m args = never
    async_call_local (suc depth) m args =
        let calls : AsyncCalls Name Args R = record {
          metadata = m.meta;
          async_call_rpc = async_call_rpc depth m;
          async_call_local = async_call_local depth m;
          async_call_raw = async_call_raw m;
        } in
        let handle = m.thread_kind (m.thread_index args) in
        if handle.is_own_side then async_call_raw m args else handle.forward_async calls args

module _ {Name Args R : Type 0} where
  -- `Forward::forward_async`, where an implementation does not replace it.
  unfoldable pub default_forward_async : AsyncCalls Name Args R → Args → Async (AsyncReturn R)
  default_forward_async calls args = calls.async_call_raw args

  unfoldable pub rpc_forward_async : AsyncCalls Name Args R → Args → Async (AsyncReturn R)
  rpc_forward_async calls args = calls.async_call_local args

  unfoldable pub local_forward_async : AsyncCalls Name Args R → Args → Async (AsyncReturn R)
  local_forward_async calls args = calls.async_call_raw args

  -- The handles of the repository.
  unfoldable pub async_handle_of : Hop → AsyncHandle Name Args R
  unfolding default_forward_async rpc_forward_async local_forward_async
  async_handle_of own = record { is_own_side = true; forward_async = default_forward_async }
  async_handle_of default = record { is_own_side = false; forward_async = default_forward_async }
  async_handle_of rpc = record { is_own_side = false; forward_async = rpc_forward_async }
  async_handle_of local = record { is_own_side = false; forward_async = local_forward_async }
