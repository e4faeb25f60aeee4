-- ===== src/Rpc/Session.antt =====
-- examples/rpc/net.rs and net/async_impl.rs: the clients of a session, which share a queue, and the two
-- loops of its task, one that sends requests and one that hands out replies. The reply to a request goes
-- into the sender of a channel, a waiter: here a number. Reads and writes are in `Rpc.Wire`.
pub mod Account
pub mod Replies
mod Runs
use forwardr.Base.{
  ℕ, Bool, true, false, if◌then◌else◌, ltb, Option, none, some, List, [], ◌∷◌, ◌++◌, map, length,
}
use forwardr.Base.Dict.{Dict, lookup, insert, remove}
use forwardr.Rpc.Message.{Message}

-- `run_send`: at the head of its loop, in `send_mesage` with the id of the message, or returned.
pub data Phase : Type 0 where
  receiving closed : Phase
  sending : ℕ → Phase

-- What became of a waiter: it was sent bytes, or dropped.
abbrev pub Answer : Type 0
Answer = ℕ × Option (List ℕ)

-- `has_clients`: a clone of the queue's sender is left. `is_alive`: the session's task runs. `asked` and
-- `answers` record the waiters of all calls and what became of them; the program has no such fields.
pub record IoSession : Type 0 where
  pub has_clients : Bool
  pub queue : List (Message × ℕ)
  pub pending : Dict ℕ
  pub phase : Phase
  pub is_alive : Bool
  pub asked : List ℕ
  pub answers : List Answer

-- What may happen next: a call of `RpcClient::send`, the end of the last client, the next turn of
-- `run_send`, the return of `send_mesage`, `true` for `Ok`, and that of `recv_message`.
pub data SessionAction : Type 0 where
  call_send : Message → ℕ → SessionAction
  drop_clients run_send_next : SessionAction
  end_send_mesage : Bool → SessionAction
  end_recv_message : Option Message → SessionAction

-- `IoSession::run`
abbrev pub new_session : IoSession
new_session = record {
  has_clients = true;
  queue = [];
  pending = [];
  phase = receiving;
  is_alive = true;
  asked = [];
  answers = [];
}

abbrev pub queue_bound : ℕ
queue_bound = 1024

abbrev pub dropped : ℕ → Answer
dropped w = (w, none)

-- A sender that a map gives up is dropped.
abbrev pub drop_option : Option ℕ → List Answer → List Answer
drop_option none answers = answers
drop_option (some w) answers = dropped w ∷ answers

-- `try_join!` ends at the first error: both loops, the map and the queue are dropped.
abbrev pub end_session : IoSession → IoSession
end_session s = record s {
  queue = [];
  pending = [];
  phase = closed;
  is_alive = false;
  answers = map (λ r. dropped r.1) s.queue ++ (map (λ e. dropped e.1) s.pending ++ s.answers);
}

-- `RpcClient::send`, up to its `await` of the reply. A full queue lets the caller wait; the queue of a
-- session that has ended gives the request back.
unfoldable pub client_send : Message → ℕ → IoSession → IoSession
client_send message w s =
    if s.has_clients
    then (if s.is_alive
        then (if ltb (length s.queue) queue_bound
            then record s { queue = s.queue ++ ((message, w) ∷ []); asked = w ∷ s.asked }
            else s)
        else record s { asked = w ∷ s.asked; answers = dropped w ∷ s.answers })
    else s

-- One turn of `run_send`, up to `send_mesage`: the waiter is registered first.
unfoldable pub register : List (Message × ℕ) → IoSession → IoSession
register [] s = if s.has_clients then s else record s { phase = closed }
register ((message, w) ∷ rest) s = record s {
  queue = rest;
  pending = insert message.id w s.pending;
  phase = sending message.id;
  answers = drop_option (lookup message.id s.pending) s.answers;
}

unfoldable pub run_send_turn : Phase → IoSession → IoSession
unfolding register
run_send_turn receiving s = register s.queue s
run_send_turn _ s = s

-- The rest of the turn: an error of `send_mesage` gives up the waiter and ends the task.
unfoldable pub run_send_sent : Phase → Bool → IoSession → IoSession
run_send_sent (sending message_id) true s = record s { phase = receiving }
run_send_sent (sending message_id) false s = end_session (record s {
  pending = remove message_id s.pending;
  answers = drop_option (lookup message_id s.pending) s.answers;
})
run_send_sent _ is_ok s = s

abbrev pub send_waiter : Option ℕ → List ℕ → List Answer → List Answer
send_waiter none bytes answers = answers
send_waiter (some w) bytes answers = (w, some bytes) ∷ answers

-- One turn of `run_recv`, while the task runs.
unfoldable pub run_recv_turn : Bool → Option Message → IoSession → IoSession
run_recv_turn false received s = s
run_recv_turn true none s = end_session s
run_recv_turn true (some msg) s = record s {
  pending = remove msg.id s.pending;
  answers = send_waiter (lookup msg.id s.pending) msg.bytes s.answers;
}

unfoldable pub session_step : SessionAction → IoSession → IoSession
unfolding client_send run_send_turn run_send_sent run_recv_turn
session_step (call_send message w) s = client_send message w s
session_step drop_clients s = record s { has_clients = false }
session_step run_send_next s = run_send_turn s.phase s
session_step (end_send_mesage is_ok) s = run_send_sent s.phase is_ok s
session_step (end_recv_message received) s = run_recv_turn s.is_alive received s

-- A history, from its first action on.
unfoldable pub session_run : List SessionAction → IoSession → IoSession
unfolding session_step
session_run [] s = s
session_run (a ∷ actions) s = session_run actions (session_step a s)
