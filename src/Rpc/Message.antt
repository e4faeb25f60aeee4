-- ===== src/Rpc/Message.antt =====
-- examples/rpc/message.rs: messages, and the byte for a message's type.
use forwardr.Base.{
  ℕ, zero, suc, ◌+◌, ◌%◌, ◌^◌, ◌<◌, ◌≡◌, ◌↔◌, refl, Option, none, some, List, ◌==◌, if◌then◌else◌,
  arith,
}

pub data MessageType : Type 0 where
  client_request client_response server_push heartbeat_request heartbeat_response rpc_request
        rpc_response :
      MessageType

-- `message_type as u8`: the place of the constructor.
unfoldable pub to_u8 : MessageType → ℕ
to_u8 client_request = 0
to_u8 client_response = 1
to_u8 server_push = 2
to_u8 heartbeat_request = 3
to_u8 heartbeat_response = 4
to_u8 rpc_request = 5
to_u8 rpc_response = 6

-- `try_from`; `none` is its `Err`.
unfoldable pub try_from : ℕ → Option MessageType
try_from value =
    if value == 0
    then some client_request
    else if value == 1
    then some client_response
    else if value == 2
    then some server_push
    else if value == 3
    then some heartbeat_request
    else if value == 4
    then some heartbeat_response
    else if value == 5
    then some rpc_request
    else if value == 6
    then some rpc_response
    else none

pub record Message : Type 0 where
  pub id : ℕ
  pub message_type : MessageType
  pub bytes : List ℕ

pub to_u8-byte : (t : MessageType) → to_u8 t < 256
unfolding to_u8
to_u8-byte t = ground arith

pub try_from-to_u8 : (t : MessageType) → try_from (to_u8 t) ≡ some t
unfolding try_from to_u8
try_from-to_u8 = elim [
  | client_request ↦ refl
  | client_response ↦ refl
  | server_push ↦ refl
  | heartbeat_request ↦ refl
  | heartbeat_response ↦ refl
  | rpc_request ↦ refl
  | rpc_response ↦ refl
]

-- `get_mid`: the counter's value, and the counter after it, which wraps around.
abbrev pub get_mid : ℕ → ℕ × ℕ
get_mid counter = (counter, (counter + 1) % 2 ^ 32)

-- The counter after some calls, and the id that the next call returns.
unfoldable pub counter_after : ℕ → ℕ
counter_after zero = 1
counter_after (suc calls) = (get_mid (counter_after calls)).1

unfoldable pub mid_of : ℕ → ℕ
unfolding counter_after
mid_of calls = (get_mid (counter_after calls)).0

counter_after-mod : (calls : ℕ) → counter_after calls ≡ (calls + 1) % 2 ^ 32
unfolding counter_after
counter_after-mod zero = omega arith
counter_after-mod (suc calls) = omega (arith, counter_after-mod calls)

-- Two calls return the same id just if the numbers of calls before them differ by a multiple of 2 ^ 32.
pub mid_of-wraps : (i j : ℕ) → (mid_of i ≡ mid_of j) ↔ (i % 2 ^ 32 ≡ j % 2 ^ 32)
unfolding mid_of
mid_of-wraps i j = (
  λ e. omega (arith, e, counter_after-mod i, counter_after-mod j),
  λ e. omega (arith, e, counter_after-mod i, counter_after-mod j),
)
