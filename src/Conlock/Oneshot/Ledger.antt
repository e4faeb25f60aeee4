-- ===== src/Conlock/Oneshot/Ledger.antt =====
-- What becomes of the message, by the events of a history.
use forwardr.Base.{
  ℕ, ◌+◌, ◌≤◌, ◌≡◌, subst, Bool, List, [], ◌∷◌, total, get_elem?, inl, inr, Option-cases, arith,
}
use forwardr.Conlock.Oneshot.Inner.{Inner, Event, Outcome, ok, fault, ◌>>=◌}
use forwardr.Conlock.Oneshot.Sender.{
  SenderPc, held, send_load, send_write, send_ready, send_reread, sender_step,
}
use forwardr.Conlock.Oneshot.Recv.{RecvPc, woken, recv_step}
use forwardr.Conlock.Oneshot.Receiver.{ReceiverPc, free, receiver_step}
use forwardr.Conlock.Oneshot.System.{System, Action, channel, update_recv, begin, finish, act, run}
use forwardr.Conlock.Oneshot.Invariant.Defs.{filled}
use forwardr.Conlock.Oneshot.Invariant.Start.{Reachable}
use forwardr.Conlock.Oneshot.Safety.{both_gone_freed}

module _ {A W : Type 0} where
  abbrev pub is_call : Event A W → ℕ
  is_call (Event.called _) = 1
  is_call _ = 0

  abbrev pub is_sent : Event A W → ℕ
  is_sent Event.sent = 1
  is_sent _ = 0

  abbrev pub is_rejected : Event A W → ℕ
  is_rejected (Event.rejected _) = 1
  is_rejected _ = 0

  -- The message has left the channel towards the receiver's side.
  abbrev pub is_taken : Event A W → ℕ
  is_taken (Event.delivered _) = 1
  is_taken (Event.discarded _) = 1
  is_taken _ = 0

module _ {A : Type 0} where
  -- The message is still in the hands of `send`.
  abbrev pub in_hand : SenderPc A → ℕ
  in_hand (send_load _) = 1
  in_hand (send_write _ _) = 1
  in_hand _ = 0

  abbrev pub in_send : SenderPc A → ℕ
  in_send (send_load _) = 1
  in_send (send_write _ _) = 1
  in_send (send_ready _) = 1
  in_send send_reread = 1
  in_send _ = 0

  abbrev pub uncalled : SenderPc A → ℕ
  uncalled held = 1
  uncalled _ = 0

-- `hand`, `sending` and `fresh` are the sender's share.
pub record Balanced {A W : Type 0} (m : Inner A W) (hand sending fresh : ℕ) : Type 0 where
  pub conserved :
      total is_call m.log ≡ hand + filled m.slot + total is_rejected m.log + total is_taken m.log
  pub answered : total is_call m.log ≡ sending + total is_sent m.log + total is_rejected m.log
  pub once : total is_call m.log + fresh ≤ 1

abbrev pub Ledger : {A W : Type 0} → System A W → Type 0
Ledger s = Balanced s.mem (in_hand s.sender) (in_send s.sender) (uncalled s.sender)

-- What holds of the outcome if there is one.
abbrev pub Allows : {X : Type 0} → (X → Type 0) → Outcome X → Type 0
Allows P (ok x) = P x
Allows P (fault _) = Unit

pub Allows->>= :
    {X Y : Type 0} (P : X → Type 0) (Q : Y → Type 0) (x : Outcome X) (f : X → Outcome Y)
    → Allows P x
    → ((a : X) → P a → Allows Q (f a))
    → Allows Q (x >>= f)
Allows->>= P Q (ok a) f h k = k a h
Allows->>= P Q (fault e) f h k = tt

module _ {A W : Type 0} where
  sender_step-Balanced :
      (sp : Bool) (m : Inner A W) (p : SenderPc A)
      → Balanced m (in_hand p) (in_send p) (uncalled p)
      → Allows (λ q. Balanced q.0 (in_hand q.1) (in_send q.1) (uncalled q.1)) (sender_step sp m p)
  unfolding sender_step
  sender_step-Balanced sp m held b = b
  sender_step-Balanced sp m p b = ground arith

  recv_step-Balanced :
      (sp : Bool) (m : Inner A W) (p : RecvPc A) (a b c : ℕ)
      → Balanced m a b c
      → Allows (λ q. Balanced q.0 a b c) (recv_step sp m p)
  unfolding recv_step
  recv_step-Balanced sp m RecvPc.idle a b c h = h
  recv_step-Balanced sp m p a b c h = ground arith

  receiver_step-Balanced :
      (ww : W → W → Bool) (sp : Bool) (m : Inner A W) (p : ReceiverPc A W) (a b c : ℕ)
      → Balanced m a b c
      → Allows (λ q. Balanced q.0 a b c) (receiver_step ww sp m p)
  unfolding receiver_step
  receiver_step-Balanced ww sp m free a b c h = h
  receiver_step-Balanced ww sp m p a b c h = ground arith

  -- The receiver's calls leave the shared record and the sender's thread alone.
  update_recv-Ledger :
      (i : ℕ) (f : RecvPc A → RecvPc A) (s : System A W) → Ledger s → Ledger (update_recv i f s)
  update_recv-Ledger i f s h = elim (Option-cases (get_elem? s.recvs i)) [
    | inl e ↦ rw (e, update_recv) h
    | inr (p, e) ↦ rw (e, update_recv) h
  ]

  act-Ledger :
      (ww : W → W → Bool) (a : Action A W) (s : System A W) → Ledger s → Allows Ledger (act ww a s)
  unfolding act
  act-Ledger ww (Action.call_send v) s h = ground arith
  act-Ledger ww Action.call_drop_sender s h = ground arith
  act-Ledger ww (Action.run_sender sp) s h =
      Allows->>= _ Ledger (sender_step sp s.mem s.sender) _
        (sender_step-Balanced sp s.mem s.sender h) (λ q b. b)
  act-Ledger ww (Action.call_recv i) s h = ground (arith, update_recv-Ledger i begin s h)
  act-Ledger ww (Action.run_recv i sp) s h = elim (Option-cases (get_elem? s.recvs i)) [
    | inl e ↦ rw (e, Allows) h
    | inr (p, e) ↦
        rw (e, Allows)
          (Allows->>= _ Ledger (recv_step sp s.mem p) _ (recv_step-Balanced sp s.mem p _ _ _ h)
            (λ q b. b))
  ]
  act-Ledger ww (Action.wake_recv i) s h = update_recv-Ledger i woken s h
  act-Ledger ww (Action.end_recv i) s h = update_recv-Ledger i finish s h
  act-Ledger ww (Action.call_poll cx) s h = ground arith
  act-Ledger ww (Action.run_receiver sp) s h =
      Allows->>= _ Ledger (receiver_step ww sp s.mem s.receiver) _
        (receiver_step-Balanced ww sp s.mem s.receiver _ _ _ h) (λ q b. b)
  act-Ledger ww Action.end_poll s h = ground arith
  act-Ledger ww Action.call_drop_receiver s h = ground arith

  run-Ledger :
      (ww : W → W → Bool) (h : List (Action A W)) (s : System A W)
      → Ledger s
      → Allows Ledger (run ww h s)
  unfolding run
  run-Ledger ww [] s b = b
  run-Ledger ww (a ∷ h) s b =
      Allows->>= Ledger Ledger (act ww a s) _ (act-Ledger ww a s b) (λ t. run-Ledger ww h t)

  Reachable-Ledger : (ww : W → W → Bool) {s : System A W} → Reachable ww s → Ledger s
  Reachable-Ledger ww (n, h, e) =
      subst (Allows Ledger) e (run-Ledger ww h (channel n) (ground arith))

module _ {A W : Type 0} (will_wake : W → W → Bool) {s : System A W}
    (r : Reachable will_wake s) where
  -- In every reachable state: `send` was called at most once, and the message of that call is in one
  -- place. It is in the hands of `send`, in the data cell, returned by `Err`, or taken by the
  -- receiver's side, where `recv`, `poll` and the drop of the receiver count alike.
  pub message_conserved :
      (total is_call s.mem.log ≤ 1)
      × (total is_call s.mem.log
          ≡ in_hand s.sender
            + filled s.mem.slot
            + total is_rejected s.mem.log
            + total is_taken s.mem.log)
  message_conserved = ground (arith, Reachable-Ledger will_wake r)

  -- Once the sender has left, a call of `send` has had one answer; and if both endpoints have left, a
  -- message answered by `Ok` has been taken, by a call or by the drop of the receiver.
  pub send_answered :
      s.sender ≡ SenderPc.gone
      → s.receiver ≡ ReceiverPc.gone
      → (total is_call s.mem.log ≡ total is_sent s.mem.log + total is_rejected s.mem.log)
        × (total is_taken s.mem.log ≡ total is_sent s.mem.log)
  send_answered e f = ground (arith, Reachable-Ledger will_wake r, both_gone_freed will_wake r e f)
