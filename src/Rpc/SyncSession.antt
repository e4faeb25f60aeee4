-- ===== src/Rpc/SyncSession.antt =====
-- examples/rpc/net/sync_impl.rs, `IoSession`: its two loops run on threads of their own, and share the map of
-- pending replies, which lives until both have ended. Requests and replies are as in `Rpc.Session`.
use forwardr.Base.{
  ℕ, ◌≡◌, refl, Bool, true, false, if◌then◌else◌, Option, none, some, List, [], ◌∷◌, ◌++◌, map,
  arith,
}
use forwardr.Base.Dict.{Dict, lookup, insert, remove, lookup-insert}
use forwardr.Rpc.Message.{Message}
use forwardr.Rpc.Session.{
  Phase, receiving, closed, sending, Answer, dropped, drop_option, send_waiter, SessionAction,
  call_send, drop_clients, run_send_next, end_send_mesage, end_recv_message,
}
use forwardr.Rpc.Session.Replies.{next_differs, not-false}

-- `is_reading`: the thread of `run_recv` runs; that of `run_send` runs unless its phase is `closed`.
pub record SyncSession : Type 0 where
  pub has_clients : Bool
  pub queue : List (Message × ℕ)
  pub pending : Dict ℕ
  pub phase : Phase
  pub is_reading : Bool
  pub answers : List Answer

-- `IoSession::run`
abbrev pub new_sync_session : SyncSession
new_sync_session = record {
  has_clients = true;
  queue = [];
  pending = [];
  phase = receiving;
  is_reading = true;
  answers = [];
}

abbrev is_closed : Phase → Bool
is_closed closed = true
is_closed _ = false

-- The map is dropped, with the senders in it, if both threads have ended.
unfoldable pub end_scope : SyncSession → SyncSession
end_scope s =
    if is_closed s.phase
    then (if s.is_reading
        then s
        else record s { pending = []; answers = map (λ e. dropped e.1) s.pending ++ s.answers })
    else s

-- A client puts a request on the queue, which has no bound; the queue of a thread that has ended gives
-- it back.
unfoldable pub sync_client_send : Message → ℕ → SyncSession → SyncSession
sync_client_send message w s =
    if s.has_clients
    then (if is_closed s.phase
        then record s { answers = dropped w ∷ s.answers }
        else record s { queue = s.queue ++ ((message, w) ∷ []) })
    else s

-- One turn of `run_send`, up to `send_mesage`.
unfoldable pub sync_register : List (Message × ℕ) → SyncSession → SyncSession
unfolding end_scope
sync_register [] s = if s.has_clients then s else end_scope (record s { phase = closed })
sync_register ((message, w) ∷ rest) s = record s {
  queue = rest;
  pending = insert message.id w s.pending;
  phase = sending message.id;
  answers = drop_option (lookup message.id s.pending) s.answers;
}

unfoldable pub sync_run_send_turn : Phase → SyncSession → SyncSession
unfolding sync_register
sync_run_send_turn receiving s = sync_register s.queue s
sync_run_send_turn _ s = s

-- The rest of the turn. An error ends this thread: its waiter and the queue are dropped.
unfoldable pub sync_run_send_sent : Phase → Bool → SyncSession → SyncSession
unfolding end_scope
sync_run_send_sent (sending message_id) true s = record s { phase = receiving }
sync_run_send_sent (sending message_id) false s = end_scope (record s {
  queue = [];
  pending = remove message_id s.pending;
  phase = closed;
  answers = map (λ r. dropped r.1) s.queue ++ drop_option (lookup message_id s.pending) s.answers;
})
sync_run_send_sent _ is_ok s = s

-- One turn of `run_recv`, while its thread runs. An error ends this thread.
unfoldable pub sync_run_recv_turn : Bool → Option Message → SyncSession → SyncSession
unfolding end_scope
sync_run_recv_turn false received s = s
sync_run_recv_turn true none s = end_scope (record s { is_reading = false })
sync_run_recv_turn true (some msg) s = record s {
  pending = remove msg.id s.pending;
  answers = send_waiter (lookup msg.id s.pending) msg.bytes s.answers;
}

unfoldable pub sync_step : SessionAction → SyncSession → SyncSession
unfolding sync_client_send sync_run_send_turn sync_run_send_sent sync_run_recv_turn
sync_step (call_send message w) s = sync_client_send message w s
sync_step drop_clients s = record s { has_clients = false }
sync_step run_send_next s = sync_run_send_turn s.phase s
sync_step (end_send_mesage is_ok) s = sync_run_send_sent s.phase is_ok s
sync_step (end_recv_message received) s = sync_run_recv_turn s.is_reading received s

-- A history, from its first action on.
unfoldable pub sync_run : List SessionAction → SyncSession → SyncSession
unfolding sync_step
sync_run [] s = s
sync_run (a ∷ actions) s = sync_run actions (sync_step a s)

-- Whether an action leaves the clients and the writing thread, and does not register the id again.
abbrev pub goes_on : ℕ → SessionAction → SyncSession → Bool
goes_on i (call_send message w) s = true
goes_on i drop_clients s = false
goes_on i run_send_next s = next_differs i s.queue
goes_on i (end_send_mesage is_ok) s = is_ok
goes_on i (end_recv_message received) s = true

abbrev pub GoesOn : ℕ → List SessionAction → SyncSession → Type 0
GoesOn i [] s = Unit
GoesOn i (a ∷ actions) s = (goes_on i a s ≡ true) × GoesOn i actions (sync_step a s)

-- A request whose reply nobody reads.
record Stranded (i w : ℕ) (s : SyncSession) : Type 0 where
  found : lookup i s.pending ≡ some w
  unread : s.is_reading ≡ false
  clients : s.has_clients ≡ true

module _ (i w : ℕ) where
  register-Stranded :
      (queue : List (Message × ℕ)) (s : SyncSession)
      → next_differs i queue ≡ true
      → Stranded i w s
      → Stranded i w (sync_register queue s)
  unfolding sync_register
  register-Stranded [] s n p = ground (arith, p.found, p.unread, p.clients)
  register-Stranded ((message, w') ∷ rest) s n p = record {
    found = ground (arith, p.found, lookup-insert i message.id w' s.pending, not-false _ n);
    unread = p.unread;
    clients = p.clients;
  }

  turn-Stranded :
      (phase : Phase) (s : SyncSession)
      → next_differs i s.queue ≡ true
      → Stranded i w s
      → Stranded i w (sync_run_send_turn phase s)
  unfolding sync_run_send_turn
  turn-Stranded receiving s n p = register-Stranded s.queue s n p
  turn-Stranded closed s n p = p
  turn-Stranded (sending j) s n p = p

  sent-Stranded :
      (phase : Phase) (s : SyncSession)
      → Stranded i w s
      → Stranded i w (sync_run_send_sent phase true s)
  unfolding sync_run_send_sent
  sent-Stranded receiving s p = p
  sent-Stranded closed s p = p
  sent-Stranded (sending j) s p = record { found = p.found; unread = p.unread; clients = p.clients }

  received-Stranded :
      (is_reading : Bool) (received : Option Message) (s : SyncSession)
      → is_reading ≡ false
      → Stranded i w s
      → Stranded i w (sync_run_recv_turn is_reading received s)
  unfolding sync_run_recv_turn
  received-Stranded false received s e p = p
  received-Stranded true received s e p = cc

  step-Stranded :
      (a : SessionAction) (s : SyncSession)
      → goes_on i a s ≡ true
      → Stranded i w s
      → Stranded i w (sync_step a s)
  unfolding sync_step sync_client_send
  step-Stranded (call_send message v) s n p = ground (arith, p.found, p.unread, p.clients)
  step-Stranded drop_clients s n p = cc
  step-Stranded run_send_next s n p = turn-Stranded s.phase s n p
  step-Stranded (end_send_mesage true) s n p = sent-Stranded s.phase s p
  step-Stranded (end_send_mesage false) s n p = cc
  step-Stranded (end_recv_message received) s n p =
      received-Stranded s.is_reading received s p.unread p

  run-Stranded :
      (actions : List SessionAction) (s : SyncSession)
      → GoesOn i actions s
      → Stranded i w s
      → Stranded i w (sync_run actions s)
  unfolding sync_run
  run-Stranded [] s n p = p
  run-Stranded (a ∷ actions) s (n, ns) p =
      run-Stranded actions (sync_step a s) ns (step-Stranded a s n p)

  -- The first error of `recv_message` while the other thread runs: a request that waits stays in the map.
  fail-Stranded :
      (s : SyncSession)
      → s.is_reading ≡ true
      → is_closed s.phase ≡ false
      → s.has_clients ≡ true
      → lookup i s.pending ≡ some w
      → Stranded i w (sync_step (end_recv_message none) s)
  unfolding sync_step sync_run_recv_turn end_scope
  fail-Stranded s r o c f = rw (r, o) (record { found = f; unread = refl; clients = c })

  -- While both threads run, clients are left and a request with the id `i` waits for its reply,
  -- `recv_message` gives an error. The request then waits for ever: after the error, and every history
  -- behind it in which clients are left, no write fails and the id is not registered again, its waiter
  -- is still in the map, and nobody reads.
  pub reader_end-strands :
      (actions : List SessionAction) (s : SyncSession)
      → s.is_reading ≡ true
      → is_closed s.phase ≡ false
      → s.has_clients ≡ true
      → lookup i s.pending ≡ some w
      → GoesOn i actions (sync_step (end_recv_message none) s)
      → let after = sync_run (end_recv_message none ∷ actions) s in
        (lookup i after.pending ≡ some w) × (after.is_reading ≡ false)
  unfolding sync_run
  reader_end-strands actions s r o c f n =
      let stranded = run-Stranded actions _ n (fail-Stranded s r o c f) in
      (stranded.found, stranded.unread)
