-- ===== src/Rpc/Session/Account.antt =====
-- The account of the waiters of a session: those that wait and those that were answered.
use forwardr.Base.{
  ℕ, ◌+◌, ◌≡◌, refl, ap, ◌==◌, Bool, true, false, if◌then◌else◌, Option, none, some, inl, inr,
  Bool-cases, List, [], ◌∷◌, ◌++◌, map, total, arith,
}
use forwardr.Base.Dict.{lookup, remove, weight, total-insert, total-remove}
use forwardr.Rpc.Message.{Message}
use forwardr.Rpc.Session.{
  IoSession, Answer, SessionAction, call_send, drop_clients, run_send_next, end_send_mesage,
  end_recv_message, Phase, receiving, closed, sending, new_session, dropped, drop_option,
  send_waiter, end_session, client_send, register, run_send_turn, run_send_sent, run_recv_turn,
  session_step, session_run,
}

-- Whether a waiter is `v`, counted.
abbrev pub is_waiter : ℕ → ℕ → ℕ
is_waiter v w = if v == w then 1 else 0

abbrev pub waiting : ℕ → IoSession → ℕ
waiting v s = total (λ r. is_waiter v r.1) s.queue + total (λ e. is_waiter v e.1) s.pending

abbrev pub answered : ℕ → List Answer → ℕ
answered v answers = total (λ a. is_waiter v a.0) answers

-- The calls with the waiter `v` are those that wait and those that were answered.
record Balanced (v : ℕ) (s : IoSession) : Type 0 where
  calls : total (is_waiter v) s.asked ≡ waiting v s + answered v s.answers
  ended : s.is_alive ≡ false → (s.phase ≡ closed) × (s.queue ≡ []) × (s.pending ≡ [])

module _ {A : Type 0} where
  total-append : (f : A → ℕ) (xs ys : List A) → total f (xs ++ ys) ≡ total f xs + total f ys
  total-append f [] ys = omega arith
  total-append f (x ∷ xs) ys = omega (arith, total-append f xs ys)

  answered-dropped :
      (v : ℕ) (f : A → ℕ) (xs : List A)
      → answered v (map (λ x. dropped (f x)) xs) ≡ total (λ x. is_waiter v (f x)) xs
  answered-dropped v f [] = omega arith
  answered-dropped v f (x ∷ xs) = omega (arith, answered-dropped v f xs)

answered-drop_option :
    (v : ℕ) (o : Option ℕ) (answers : List Answer)
    → answered v (drop_option o answers) ≡ weight (is_waiter v) o + answered v answers
answered-drop_option v none answers = omega arith
answered-drop_option v (some w) answers = omega arith

answered-send_waiter :
    (v : ℕ) (o : Option ℕ) (bytes : List ℕ) (answers : List Answer)
    → answered v (send_waiter o bytes answers) ≡ weight (is_waiter v) o + answered v answers
answered-send_waiter v none bytes answers = omega arith
answered-send_waiter v (some w) bytes answers = omega arith

module _ (v : ℕ) where
  end_session-Balanced :
      (s : IoSession)
      → total (is_waiter v) s.asked ≡ waiting v s + answered v s.answers
      → Balanced v (end_session s)
  end_session-Balanced s b = record {
    calls = omega (
      arith,
      b,
      total-append (λ a. is_waiter v a.0) (map (λ r. dropped r.1) s.queue)
          (map (λ e. dropped e.1) s.pending ++ s.answers),
      total-append (λ a. is_waiter v a.0) (map (λ e. dropped e.1) s.pending) s.answers,
      answered-dropped v (λ r. r.1) s.queue,
      answered-dropped v (λ e. e.1) s.pending,
    );
    ended = λ _. (refl, refl, refl);
  }

  client_send-Balanced :
      (message : Message) (w : ℕ) (s : IoSession)
      → Balanced v s
      → Balanced v (client_send message w s)
  unfolding client_send
  client_send-Balanced message w s b =
      ground
        (arith, b.calls, b.ended, total-append (λ r. is_waiter v r.1) s.queue ((message, w) ∷ []))

  register-Balanced :
      (queue : List (Message × ℕ)) (s : IoSession)
      → s.queue ≡ queue
      → s.is_alive ≡ true
      → Balanced v s
      → Balanced v (register queue s)
  unfolding register
  register-Balanced [] s e alive b = ground (arith, b.calls, b.ended)
  register-Balanced ((message, w) ∷ rest) s e alive b = record {
    calls = omega (
      arith,
      b.calls,
      ap (total (λ r. is_waiter v r.1)) e,
      total-insert (is_waiter v) message.id w s.pending,
      answered-drop_option v (lookup message.id s.pending) s.answers,
    );
    ended = λ over. ground (arith, alive, over);
  }

  -- A session that does not run is at no turn of `run_send`.
  alive_unless_closed : (s : IoSession) → Balanced v s → (s.phase ≡ closed → ⊥) → s.is_alive ≡ true
  alive_unless_closed s b unclosed = elim (Bool-cases s.is_alive) [
    | inl live ↦ live
    | inr dead ↦ absurd (unclosed ((b.ended dead).0))
  ]

  run_send_turn-Balanced :
      (p : Phase) (s : IoSession) → s.phase ≡ p → Balanced v s → Balanced v (run_send_turn p s)
  unfolding run_send_turn
  run_send_turn-Balanced receiving s e b =
      register-Balanced s.queue s refl (alive_unless_closed s b (λ c. ground (arith, e, c))) b
  run_send_turn-Balanced closed s e b = b
  run_send_turn-Balanced (sending i) s e b = b

  run_send_sent-Balanced :
      (p : Phase) (is_ok : Bool) (s : IoSession)
      → s.phase ≡ p
      → Balanced v s
      → Balanced v (run_send_sent p is_ok s)
  unfolding run_send_sent
  run_send_sent-Balanced receiving is_ok s e b = b
  run_send_sent-Balanced closed is_ok s e b = b
  run_send_sent-Balanced (sending i) true s e b = record {
    calls = b.calls;
    ended = λ dead. absurd (ground (arith, e, (b.ended dead).0));
  }
  run_send_sent-Balanced (sending i) false s e b =
      end_session-Balanced
        (record s {
          pending = remove i s.pending;
          answers = drop_option (lookup i s.pending) s.answers;
        })
        (omega (
          arith,
          b.calls,
          total-remove (is_waiter v) i s.pending,
          answered-drop_option v (lookup i s.pending) s.answers,
        ))

  run_recv_turn-Balanced :
      (live : Bool) (received : Option Message) (s : IoSession)
      → s.is_alive ≡ live
      → Balanced v s
      → Balanced v (run_recv_turn live received s)
  unfolding run_recv_turn
  run_recv_turn-Balanced false received s e b = b
  run_recv_turn-Balanced true none s e b = end_session-Balanced s b.calls
  run_recv_turn-Balanced true (some msg) s e b = record {
    calls = omega (
      arith,
      b.calls,
      total-remove (is_waiter v) msg.id s.pending,
      answered-send_waiter v (lookup msg.id s.pending) msg.bytes s.answers,
    );
    ended = λ dead. absurd (ground (arith, e, dead));
  }

  session_step-Balanced :
      (a : SessionAction) (s : IoSession) → Balanced v s → Balanced v (session_step a s)
  unfolding session_step
  session_step-Balanced (call_send message w) s b = client_send-Balanced message w s b
  session_step-Balanced drop_clients s b = record { calls = b.calls; ended = b.ended }
  session_step-Balanced run_send_next s b = run_send_turn-Balanced s.phase s refl b
  session_step-Balanced (end_send_mesage is_ok) s b = run_send_sent-Balanced s.phase is_ok s refl b
  session_step-Balanced (end_recv_message received) s b =
      run_recv_turn-Balanced s.is_alive received s refl b

  session_run-Balanced :
      (actions : List SessionAction) (s : IoSession)
      → Balanced v s
      → Balanced v (session_run actions s)
  unfolding session_run
  session_run-Balanced [] s b = b
  session_run-Balanced (a ∷ actions) s b =
      session_run-Balanced actions (session_step a s) (session_step-Balanced a s b)

  new_session-Balanced : Balanced v new_session
  new_session-Balanced = record { calls = omega arith; ended = λ dead. cc }

  -- After any history of a session, whoever waits for a reply and whatever fails: the calls that brought
  -- a waiter are as many as the places where it still waits and the answers that it got.
  pub calls_accounted :
      (actions : List SessionAction)
      → let s = session_run actions new_session in
        total (is_waiter v) s.asked ≡ waiting v s + answered v s.answers
  calls_accounted actions = (session_run-Balanced actions new_session new_session-Balanced).calls

  -- Once the session's task has ended, nobody waits: each call's waiter was sent a reply or dropped.
  pub ended-answered :
      (actions : List SessionAction)
      → (session_run actions new_session).is_alive ≡ false
      → total (is_waiter v) (session_run actions new_session).asked
        ≡ answered v (session_run actions new_session).answers
  ended-answered actions dead =
      let b = session_run-Balanced actions new_session new_session-Balanced in
      let (_, no_queue, no_pending) = b.ended dead in
      omega (
        arith,
        b.calls,
        ap (total (λ r. is_waiter v r.1)) no_queue,
        ap (total (λ e. is_waiter v e.1)) no_pending,
      )
