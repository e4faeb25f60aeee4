-- ===== src/Forward/Proxy.antt =====
-- forward/src/lib.rs: `ForwardProxy` and the implementations of `Selector`. examples/test.rs: the kinds, and the
-- target with its two methods, as the attribute macro would make its proxy. A string is its bytes.
use forwardr.Base.{ℕ, Option, none, some, List, [], ◌∷◌, ◌++◌}
use forwardr.Forward.Calls.{ForwardReturn, ForwardSyncMethod, into_sync, call_rpc}
use forwardr.Forward.Hops.{Hop, own, rpc, local, handle_of}
use forwardr.Forward.Async.{
  Async, ready, ◌>>=◌, into_async, ForwardAsyncMethod, async_call_rpc, async_handle_of,
}

pub record ForwardProxy (T : Type 0) : Type 0 where
  pub target : T

module _ {T : Type 0} where
  -- `ForwardProxy::new`
  unfoldable pub new_proxy : T → ForwardProxy T
  new_proxy t = record { target = t }

  unfoldable pub as_raw_ref : ForwardProxy T → T
  as_raw_ref p = p.target

-- `Selector` for `()`, for a `u32`, and for a closure.
module _ {Args : Type 0} where
  unfoldable pub unit_selector : Args → Unit {0}
  unit_selector args = tt

  unfoldable pub u32_selector : ℕ → Args → ℕ
  u32_selector n args = n

  unfoldable pub fn_selector : {Index : Type 0} → (Args → Index) → Args → Index
  fn_selector f args = f args

-- `ForwardKind::select` of `()`, `Center`, `Local` and `UserThread`.
unfoldable pub unit_kind : Unit {0} → Hop
unit_kind index = own

unfoldable pub center : Unit {0} → Hop
center index = rpc

unfoldable pub local_kind : Unit {0} → Hop
local_kind index = local

unfoldable pub user_thread : ℕ → Hop
user_thread index = local

-- What becomes of a call's return in a sync caller: `none` if the call does not return, or panics.
unfoldable pub sync_value : {R : Type 0} → Option (ForwardReturn R) → Option R
unfolding into_sync
sync_value none = none
sync_value (some r) = into_sync r

pub record Target : Type 0 where
  pub something : List ℕ

unfoldable pub raw_get_remote_something : Target → List ℕ
raw_get_remote_something t = (114 ∷ 97 ∷ 119 ∷ 32 ∷ []) ++ t.something

unfoldable pub raw_async_get_remote : Target → Async (List ℕ)
raw_async_get_remote t =
    ready ((114 ∷ 97 ∷ 119 ∷ 32 ∷ 97 ∷ 115 ∷ 121 ∷ 110 ∷ 99 ∷ 32 ∷ []) ++ t.something)

-- The names are numbers: that of the proxy, and those of the two methods.
abbrev pub something1234 : ℕ
something1234 = 1234

abbrev pub get_remote_something_name : ℕ
get_remote_something_name = 1

abbrev pub async_get_remote_name : ℕ
async_get_remote_name = 2

-- `impl CrossSomething for Target`
unfoldable pub target_get_remote_something : Target → List ℕ
unfolding raw_get_remote_something
target_get_remote_something t = raw_get_remote_something t

unfoldable pub target_async_get_remote : Target → Async (List ℕ)
unfolding raw_async_get_remote ◌>>=◌
target_async_get_remote t = raw_async_get_remote t >>= ready

-- `impl CrossSomething for ForwardProxy<Target>`, with calls to a bounded depth.
unfoldable pub get_remote_something : ℕ → ForwardProxy Target → Option (List ℕ)
unfolding call_rpc handle_of unit_kind unit_selector as_raw_ref target_get_remote_something
    sync_value
get_remote_something depth self =
    let method : ForwardSyncMethod ℕ (ForwardProxy Target) (List ℕ) (Unit {0}) (Unit {0}) = record {
      server = record { kind = λ i. handle_of (unit_kind i); selector = unit_selector };
      thread = record { kind = λ i. handle_of (unit_kind i); selector = unit_selector };
      meta = record { name = something1234; method = get_remote_something_name };
      function = λ target. target_get_remote_something (as_raw_ref target);
    } in
    sync_value (call_rpc depth method self)

unfoldable pub async_get_remote : ℕ → ForwardProxy Target → Async (List ℕ)
unfolding async_call_rpc async_handle_of unit_kind unit_selector as_raw_ref target_async_get_remote
    ◌>>=◌ into_async
async_get_remote depth self =
    let method : ForwardAsyncMethod ℕ (ForwardProxy Target) (List ℕ) (Unit {0}) (Unit {0}) =
      record {
        server_kind = λ i. async_handle_of (unit_kind i);
        server_index = unit_selector;
        thread_kind = λ i. async_handle_of (unit_kind i);
        thread_index = unit_selector;
        meta = record { name = something1234; method = async_get_remote_name };
        function = λ target. target_async_get_remote (as_raw_ref target);
      } in
    async_call_rpc depth method self >>= into_async
