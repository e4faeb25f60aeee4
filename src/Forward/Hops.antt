-- ===== src/Forward/Hops.antt =====
-- The implementations of `Forward` in the repository: `()` and the trait's default in
-- forward/src/lib.rs, and the two of examples/test.rs.
use forwardr.Base.{true, false, Option, some}
use forwardr.Forward.Calls.{MethodCalls, Handle, ForwardReturn}

-- The handles that a kind of the repository selects.
pub data Hop : Type 0 where
  own default rpc local : Hop

module _ {Name Args R : Type 0} where
  -- `Forward::forward_sync`, where an implementation does not replace it: fall back to the raw call.
  unfoldable pub default_forward_sync : MethodCalls Name Args R → Args → Option (ForwardReturn R)
  default_forward_sync calls args = some (calls.call_raw args)

  -- `impl Forward for ()`: the caller's own side.
  unfoldable pub own_side : Handle Name Args R
  unfolding default_forward_sync
  own_side = record { is_own_side = true; forward_sync = default_forward_sync }

  -- An implementation that replaces nothing.
  unfoldable pub default_handle : Handle Name Args R
  unfolding default_forward_sync
  default_handle = record { is_own_side = false; forward_sync = default_forward_sync }

  -- `RpcForward` of the example: at the server, the call goes on to the thread.
  unfoldable pub rpc_forward : Handle Name Args R
  rpc_forward = record { is_own_side = false; forward_sync = λ calls args. calls.call_local args }

  -- `LocalForward` of the example.
  unfoldable pub local_forward : Handle Name Args R
  local_forward = record {
    is_own_side = false;
    forward_sync = λ calls args. some (calls.call_raw args);
  }

  unfoldable pub handle_of : Hop → Handle Name Args R
  unfolding own_side default_handle rpc_forward local_forward
  handle_of own = own_side
  handle_of default = default_handle
  handle_of rpc = rpc_forward
  handle_of local = local_forward
