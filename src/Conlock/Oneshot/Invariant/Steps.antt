-- ===== src/Conlock/Oneshot/Invariant/Steps.antt =====
-- Every action keeps the invariant of the system, and none faults.
use forwardr.Base.{Bool, List, [], ◌∷◌}
use forwardr.Conlock.Oneshot.Recv.{woken}
use forwardr.Conlock.Oneshot.System.{System, Action, finish, act, run}
use forwardr.Conlock.Oneshot.Invariant.Defs.{Ensures}
pub use forwardr.Conlock.Oneshot.Invariant.Moves.{Inv, Ensures->>=}
use forwardr.Conlock.Oneshot.Invariant.Moves.{
  move_sender-Inv, move_recv-Inv, update_recv-Inv, move_receiver-Inv, finish-Kept, woken-Kept,
}
use forwardr.Conlock.Oneshot.Invariant.Calls.{
  begin_recv-Inv, call_send-Inv, call_drop_sender-Inv, call_poll-Inv, call_drop_receiver-Inv,
  finish_poll-Inv,
}

module _ {A W : Type 0} where
  -- Every action, at every moment.
  pub act-Inv :
      (ww : W → W → Bool) (a : Action A W) (s : System A W) → Inv s → Ensures Inv (act ww a s)
  act-Inv ww (Action.call_send v) s i = call_send-Inv ww v s.mem s.sender s.receiver s.recvs i
  act-Inv ww Action.call_drop_sender s i =
      call_drop_sender-Inv ww s.mem s.sender s.receiver s.recvs i
  act-Inv ww (Action.run_sender sp) s i = move_sender-Inv ww sp s i
  act-Inv ww (Action.call_recv n) s i = begin_recv-Inv ww n s.mem s.sender s.receiver s.recvs i
  act-Inv ww (Action.run_recv n sp) s i = move_recv-Inv ww n sp s i
  act-Inv ww (Action.wake_recv n) s i =
      unfold act in update_recv-Inv s n woken i (λ q. woken-Kept s.mem _ _ _ q)
  act-Inv ww (Action.end_recv n) s i =
      unfold act in update_recv-Inv s n finish i (λ q. finish-Kept s.mem _ _ _ q)
  act-Inv ww (Action.call_poll cx) s i = call_poll-Inv ww cx s.mem s.sender s.receiver s.recvs i
  act-Inv ww (Action.run_receiver sp) s i = move_receiver-Inv ww sp s i
  act-Inv ww Action.end_poll s i = finish_poll-Inv ww s.mem s.sender s.receiver s.recvs i
  act-Inv ww Action.call_drop_receiver s i =
      call_drop_receiver-Inv ww s.mem s.sender s.receiver s.recvs i

  pub run-Inv :
      (ww : W → W → Bool) (h : List (Action A W)) (s : System A W)
      → Inv s
      → Ensures Inv (run ww h s)
  unfolding run
  run-Inv ww [] s i = i
  run-Inv ww (a ∷ h) s i =
      Ensures->>= Inv Inv (act ww a s) _ (act-Inv ww a s i) (λ t. run-Inv ww h t)
