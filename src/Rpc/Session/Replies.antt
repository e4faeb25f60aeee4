-- ===== src/Rpc/Session/Replies.antt =====
-- Which waiter a reply goes to.
use forwardr.Base.{
  ℕ, ◌≡◌, ap, sym, subst, ◌∙◌, ◌==◌, Bool, true, false, not, none, some, List, [], ◌∷◌, arith,
}
use forwardr.Base.Dict.{lookup, lookup-insert, lookup-remove}
use forwardr.Rpc.Message.{Message}
use forwardr.Rpc.Session.{
  IoSession, SessionAction, call_send, drop_clients, run_send_next, end_send_mesage,
  end_recv_message, Phase, receiving, closed, sending, send_waiter, drop_option, client_send,
  register, run_send_turn, run_send_sent, run_recv_turn, session_step, session_run,
}

-- Whether the next request has another id, or there is none.
abbrev pub next_differs : ℕ → List (Message × ℕ) → Bool
next_differs i [] = true
next_differs i ((message, w) ∷ rest) = not (i == message.id)

-- Whether an action leaves the request `i` as it is: it does not register that id again, is not a reply
-- with that id, and does not end the task.
abbrev pub keeps : ℕ → SessionAction → IoSession → Bool
keeps i (call_send message w) s = true
keeps i drop_clients s = true
keeps i run_send_next s = next_differs i s.queue
keeps i (end_send_mesage is_ok) s = is_ok
keeps i (end_recv_message none) s = false
keeps i (end_recv_message (some msg)) s = not (i == msg.id)

abbrev pub Keeps : ℕ → List SessionAction → IoSession → Type 0
Keeps i [] s = Unit
Keeps i (a ∷ actions) s = (keeps i a s ≡ true) × Keeps i actions (session_step a s)

-- A request that waits for its reply.
record Pending (i w : ℕ) (s : IoSession) : Type 0 where
  found : lookup i s.pending ≡ some w
  live : s.is_alive ≡ true

pub not-false : (b : Bool) → not b ≡ true → b ≡ false
not-false b e = ground arith

module _ (i w : ℕ) where
  register-Pending :
      (queue : List (Message × ℕ)) (s : IoSession)
      → next_differs i queue ≡ true
      → Pending i w s
      → Pending i w (register queue s)
  unfolding register
  register-Pending [] s n p = ground (arith, p.found, p.live)
  register-Pending ((message, w') ∷ rest) s n p = record {
    found = ground (arith, p.found, lookup-insert i message.id w' s.pending, not-false _ n);
    live = p.live;
  }

  turn-Pending :
      (phase : Phase) (s : IoSession)
      → next_differs i s.queue ≡ true
      → Pending i w s
      → Pending i w (run_send_turn phase s)
  unfolding run_send_turn
  turn-Pending receiving s n p = register-Pending s.queue s n p
  turn-Pending closed s n p = p
  turn-Pending (sending j) s n p = p

  sent-Pending :
      (phase : Phase) (s : IoSession) → Pending i w s → Pending i w (run_send_sent phase true s)
  unfolding run_send_sent
  sent-Pending receiving s p = p
  sent-Pending closed s p = p
  sent-Pending (sending j) s p = record { found = p.found; live = p.live }

  received-Pending :
      (live : Bool) (msg : Message) (s : IoSession)
      → (i == msg.id) ≡ false
      → Pending i w s
      → Pending i w (run_recv_turn live (some msg) s)
  unfolding run_recv_turn
  received-Pending false msg s n p = p
  received-Pending true msg s n p = record {
    found = lookup-remove i msg.id s.pending n ∙ p.found;
    live = p.live;
  }

  client_send-Pending :
      (message : Message) (w' : ℕ) (s : IoSession)
      → Pending i w s
      → Pending i w (client_send message w' s)
  unfolding client_send
  client_send-Pending message w' s p = ground (arith, p.found, p.live)

  session_step-Pending :
      (a : SessionAction) (s : IoSession)
      → keeps i a s ≡ true
      → Pending i w s
      → Pending i w (session_step a s)
  unfolding session_step
  session_step-Pending (call_send message w') s k p = client_send-Pending message w' s p
  session_step-Pending drop_clients s k p = record { found = p.found; live = p.live }
  session_step-Pending run_send_next s k p = turn-Pending s.phase s k p
  session_step-Pending (end_send_mesage true) s k p = sent-Pending s.phase s p
  session_step-Pending (end_send_mesage false) s k p = cc
  session_step-Pending (end_recv_message none) s k p = cc
  session_step-Pending (end_recv_message (some msg)) s k p =
      received-Pending s.is_alive msg s (not-false _ k) p

  session_run-Pending :
      (actions : List SessionAction) (s : IoSession)
      → Keeps i actions s
      → Pending i w s
      → Pending i w (session_run actions s)
  unfolding session_run
  session_run-Pending [] s k p = p
  session_run-Pending (a ∷ actions) s k p =
      session_run-Pending actions (session_step a s) k.1 (session_step-Pending a s k.0 p)

-- A reply to a request that waits goes to its waiter.
delivers :
    (w : ℕ) (reply : Message) (s : IoSession)
    → Pending reply.id w s
    → (session_step (end_recv_message (some reply)) s).answers ≡ (w, some reply.bytes) ∷ s.answers
unfolding session_step run_recv_turn
delivers w reply s p =
    ap (λ live. (run_recv_turn live (some reply) s).answers) p.live
    ∙ ap (λ o. send_waiter o reply.bytes s.answers) p.found

module _ (s : IoSession) (request : Message) (w : ℕ) (rest : List (Message × ℕ)) where
  run_send_next-register :
      s.phase ≡ receiving
      → s.queue ≡ (request, w) ∷ rest
      → session_step run_send_next s ≡ register ((request, w) ∷ rest) s
  unfolding session_step run_send_turn
  run_send_next-register e q = ap (λ p. run_send_turn p s) e ∙ ap (λ queue. register queue s) q

  registered-Pending :
      s.is_alive ≡ true
      → s.phase ≡ receiving
      → s.queue ≡ (request, w) ∷ rest
      → Pending request.id w (session_step run_send_next s)
  unfolding register
  registered-Pending live e q =
      subst (Pending request.id w) (sym (run_send_next-register e q)) (record {
        found = ground (arith, lookup-insert request.id request.id w s.pending);
        live = live;
      })

  -- A request at the head of the queue, once taken up, is answered with the bytes of the first reply that
  -- has its id, however many other calls, requests and replies come in between, as long as none of
  -- those requests has the same id and no error ends the task.
  pub reply-answers :
      (actions : List SessionAction) (reply : Message)
      → s.is_alive ≡ true
      → s.phase ≡ receiving
      → s.queue ≡ (request, w) ∷ rest
      → Keeps request.id actions (session_step run_send_next s)
      → reply.id ≡ request.id
      → let s' = session_run actions (session_step run_send_next s) in
        (session_step (end_recv_message (some reply)) s').answers
        ≡ (w, some reply.bytes) ∷ s'.answers
  reply-answers actions reply live e q k same =
      delivers w reply (session_run actions (session_step run_send_next s)) (
        subst (λ i. Pending i w (session_run actions (session_step run_send_next s))) (sym same)
          (session_run-Pending request.id w actions _ k (registered-Pending live e q)))

  -- A request whose id is that of one that still waits drops the earlier one's waiter, unanswered; the
  -- next reply with the id, whichever of the two it is for, goes to the later one's.
  pub reused_id-drops :
      (actions : List SessionAction) (reply : Message) (earlier : ℕ)
      → s.is_alive ≡ true
      → s.phase ≡ receiving
      → s.queue ≡ (request, w) ∷ rest
      → lookup request.id s.pending ≡ some earlier
      → Keeps request.id actions (session_step run_send_next s)
      → reply.id ≡ request.id
      → let s' = session_run actions (session_step run_send_next s) in
        ((session_step run_send_next s).answers ≡ (earlier, none) ∷ s.answers)
        × ((session_step (end_recv_message (some reply)) s').answers
            ≡ (w, some reply.bytes) ∷ s'.answers)
  unfolding register
  reused_id-drops actions reply earlier live e q waits k same = (
    ap (λ t. t.answers) (run_send_next-register e q) ∙ ap (λ o. drop_option o s.answers) waits,
    reply-answers actions reply live e q k same,
  )
