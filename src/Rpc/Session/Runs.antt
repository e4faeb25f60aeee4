-- ===== src/Rpc/Session/Runs.antt =====
-- A session on concrete histories, and the theorems there.
use forwardr.Base.{ℕ, ◌+◌, ◌≡◌, refl, true, none, some, List, [], ◌∷◌, total}
use forwardr.Rpc.Message.{Message, MessageType}
use forwardr.Rpc.Session.{
  IoSession, SessionAction, call_send, drop_clients, run_send_next, end_send_mesage,
  end_recv_message, new_session, session_step, session_run,
}
use forwardr.Rpc.Session.Account.{is_waiter, waiting, answered, calls_accounted, ended-answered}
use forwardr.Rpc.Session.Replies.{reused_id-drops}

abbrev message : ℕ → List ℕ → Message
message id bytes = record { id = id; message_type = MessageType.rpc_request; bytes = bytes }

-- Three calls; the third has the id of the first.
abbrev three_calls : List SessionAction
three_calls =
    call_send (message 1 []) 10
    ∷ call_send (message 2 []) 20
    ∷ call_send (message 1 []) 30
    ∷ run_send_next
    ∷ end_send_mesage true
    ∷ run_send_next
    ∷ end_send_mesage true
    ∷ []

-- The reply to the second call comes, and then the stream ends.
abbrev cut_short : List SessionAction
cut_short =
    call_send (message 1 []) 10
    ∷ call_send (message 2 []) 20
    ∷ run_send_next
    ∷ end_send_mesage true
    ∷ run_send_next
    ∷ end_send_mesage true
    ∷ end_recv_message (some (message 2 (7 ∷ [])))
    ∷ end_recv_message none
    ∷ call_send (message 3 []) 30
    ∷ []

cut_short-answers :
    (session_run cut_short new_session).answers ≡ (30, none) ∷ (10, none) ∷ (20, some (7 ∷ [])) ∷ []
unfolding session_run
cut_short-answers = refl

calls_accounted_example :
    total (is_waiter 10) (session_run three_calls new_session).asked
    ≡ waiting 10 (session_run three_calls new_session)
      + answered 10 (session_run three_calls new_session).answers
calls_accounted_example = calls_accounted 10 three_calls

ended-answered_example :
    total (is_waiter 10) (session_run cut_short new_session).asked
    ≡ answered 10 (session_run cut_short new_session).answers
unfolding session_run
ended-answered_example = ended-answered 10 cut_short refl

abbrev waiting_session : IoSession
unfolding session_run
waiting_session = session_run three_calls new_session

-- While the request with the waiter 30 is on its way, the reply to the second comes.
abbrev in_between : List SessionAction
in_between = end_send_mesage true ∷ end_recv_message (some (message 2 (8 ∷ []))) ∷ drop_clients ∷ []

reused_id-drops_example :
    let s' = session_run in_between (session_step run_send_next waiting_session) in
    ((session_step run_send_next waiting_session).answers ≡ (10, none) ∷ waiting_session.answers)
    × ((session_step (end_recv_message (some (message 1 (9 ∷ [])))) s').answers
        ≡ (30, some (9 ∷ [])) ∷ s'.answers)
unfolding session_run session_step
reused_id-drops_example =
    reused_id-drops waiting_session (message 1 []) 30 [] in_between (message 1 (9 ∷ [])) 10 refl
      refl refl refl (refl, (refl, (refl, tt))) refl
