-- ===== src/Rpc/Server.antt =====
-- examples/rpc/net.rs, `RpcServer`: what is done with a connection. One message is read, and answered.
use forwardr.Base.{
  ℕ, ◌^◌, ◌<◌, ◌≡◌, refl, ap, Option, none, some, true, List, [], ◌∷◌, ◌++◌, length, arith,
}
use forwardr.Rpc.Message.{Message, rpc_response}
use forwardr.Rpc.Wire.{Stream, ◌>>=◌, send_mesage, recv_message, recv_message-send_mesage}
use forwardr.Rpc.Session.{
  IoSession, SessionAction, run_send_next, end_recv_message, receiving, session_step, session_run,
}
use forwardr.Rpc.Session.Replies.{Keeps, reply-answers}

-- `handle_message`, which dispatches nothing yet.
abbrev pub handle_message : Message → List ℕ
handle_message message = []

abbrev pub response_to : Message → Message
response_to message = record {
  id = message.id;
  message_type = rpc_response;
  bytes = handle_message message;
}

module _ (w : Stream) where
  unfoldable pub respond : Option (Message × List ℕ) → List ℕ
  unfolding send_mesage
  respond none = []
  respond (some (message, _)) = (send_mesage w (response_to message)).0

  -- The task of a connection, on what it reads: what it writes, and nothing where it cannot read.
  unfoldable pub serve : List ℕ → List ℕ
  unfolding recv_message respond
  serve stream = respond (recv_message w stream)

  -- What the reading loop of a session makes of a stream.
  abbrev pub read_reply : List ℕ → SessionAction
  read_reply stream = end_recv_message (recv_message w stream >>= λ q. some q.0)

  serve-response_to :
      (request : Message) (after : List ℕ)
      → request.id < 2 ^ 32
      → length request.bytes < 2 ^ 32
      → serve ((send_mesage w request).0 ++ after) ≡ (send_mesage w (response_to request)).0
  unfolding serve respond
  serve-response_to request after fits short =
      ap respond ((recv_message-send_mesage w request after fits short).1)

  -- From a call to its answer: a request that a client puts on the stream, read by the server with
  -- anything that follows it, and the server's bytes, read by the client with anything that follows, answer
  -- the waiter of the request with the empty result of `handle_message`, under the conditions on the
  -- session of `reply-answers`.
  pub serve-answers :
      (s : IoSession) (request : Message) (waiter : ℕ) (rest : List (Message × ℕ))
      (actions : List SessionAction) (after later : List ℕ)
      → request.id < 2 ^ 32
      → length request.bytes < 2 ^ 32
      → s.is_alive ≡ true
      → s.phase ≡ receiving
      → s.queue ≡ (request, waiter) ∷ rest
      → Keeps request.id actions (session_step run_send_next s)
      → let s' = session_run actions (session_step run_send_next s) in
        let reply = serve ((send_mesage w request).0 ++ after) in
        (session_step (read_reply (reply ++ later)) s').answers
        ≡ (waiter, some (handle_message request)) ∷ s'.answers
  serve-answers s request waiter rest actions after later fits short live e q k =
      rw
        (
          serve-response_to request after fits short,
          (recv_message-send_mesage w (response_to request) later fits (ground arith)).1,
        )
        (reply-answers s request waiter rest actions (response_to request) live e q k refl)
