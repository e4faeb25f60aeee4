-- ===== src/Conlock/Oneshot/Trace.antt =====
-- Where the values come from that a channel hands out.
use forwardr.Base.{
  ℕ, ◌≡◌, subst, ◌⊎◌, inl, inr, Bool, Option, none, some, List, [], ◌∷◌, get_elem?, Option-cases,
  arith,
}
use forwardr.Conlock.Oneshot.Inner.{Inner, Event}
use forwardr.Conlock.Oneshot.Sender.{SenderPc, held, send_load, send_write, sender_step}
use forwardr.Conlock.Oneshot.Recv.{RecvPc, woken, recv_step}
use forwardr.Conlock.Oneshot.Receiver.{ReceiverPc, free, receiver_step}
use forwardr.Conlock.Oneshot.System.{System, Action, channel, update_recv, begin, finish, act, run}
use forwardr.Conlock.Oneshot.Invariant.Start.{Reachable}
use forwardr.Conlock.Oneshot.Ledger.{Allows, Allows->>=}

-- The value that `send` still holds.
module _ {A : Type 0} where
  abbrev hand : SenderPc A → Option A
  hand (send_load x) = some x
  hand (send_write _ x) = some x
  hand _ = none

module _ {A W : Type 0} where
  -- `send` was called with this value.
  abbrev pub IsCalled : A → List (Event A W) → Type 0
  IsCalled x [] = ⊥
  IsCalled x (Event.called y ∷ l) = (x ≡ y) ⊎ IsCalled x l
  IsCalled x (_ ∷ l) = IsCalled x l

  -- Each value that a call returned, or the receiver's drop threw away, had been given to `send`.
  abbrev pub IsTraced : List (Event A W) → Type 0
  IsTraced [] = Unit
  IsTraced (Event.rejected x ∷ l) = IsCalled x l × IsTraced l
  IsTraced (Event.delivered x ∷ l) = IsCalled x l × IsTraced l
  IsTraced (Event.discarded x ∷ l) = IsCalled x l × IsTraced l
  IsTraced (_ ∷ l) = IsTraced l

  abbrev SlotTraced : Option A → List (Event A W) → Type 0
  SlotTraced none l = Unit
  SlotTraced (some x) l = IsCalled x l

  record Traced (m : Inner A W) (o : Option A) : Type 0 where
    logged : IsTraced m.log
    stored : SlotTraced m.slot m.log
    in_hand : SlotTraced o m.log

  abbrev SystemTraced : System A W → Type 0
  SystemTraced s = Traced s.mem (hand s.sender)

  sender_step-Traced :
      (sp : Bool) (m : Inner A W) (p : SenderPc A)
      → Traced m (hand p)
      → Allows (λ q. Traced q.0 (hand q.1)) (sender_step sp m p)
  unfolding sender_step
  sender_step-Traced sp m held t = t
  sender_step-Traced sp m p t = ground arith

  recv_step-Traced :
      (sp : Bool) (m : Inner A W) (p : RecvPc A) (o : Option A)
      → Traced m o
      → Allows (λ q. Traced q.0 o) (recv_step sp m p)
  unfolding recv_step
  recv_step-Traced sp m RecvPc.idle o t = t
  recv_step-Traced sp m p o t = ground arith

  receiver_step-Traced :
      (ww : W → W → Bool) (sp : Bool) (m : Inner A W) (p : ReceiverPc A W) (o : Option A)
      → Traced m o
      → Allows (λ q. Traced q.0 o) (receiver_step ww sp m p)
  unfolding receiver_step
  receiver_step-Traced ww sp m free o t = t
  receiver_step-Traced ww sp m p o t = ground arith

  update_recv-Traced :
      (i : ℕ) (f : RecvPc A → RecvPc A) (s : System A W)
      → SystemTraced s
      → SystemTraced (update_recv i f s)
  update_recv-Traced i f s t = elim (Option-cases (get_elem? s.recvs i)) [
    | inl e ↦ rw (e, update_recv) t
    | inr (p, e) ↦ rw (e, update_recv) t
  ]

  act-Traced :
      (ww : W → W → Bool) (a : Action A W) (s : System A W)
      → SystemTraced s
      → Allows SystemTraced (act ww a s)
  unfolding act
  act-Traced ww (Action.call_send v) s t = ground arith
  act-Traced ww Action.call_drop_sender s t = ground arith
  act-Traced ww (Action.run_sender sp) s t =
      Allows->>= _ SystemTraced (sender_step sp s.mem s.sender) _
        (sender_step-Traced sp s.mem s.sender t) (λ q u. u)
  act-Traced ww (Action.call_recv i) s t = ground (arith, update_recv-Traced i begin s t)
  act-Traced ww (Action.run_recv i sp) s t = elim (Option-cases (get_elem? s.recvs i)) [
    | inl e ↦ rw (e, Allows) t
    | inr (p, e) ↦
        rw (e, Allows)
          (Allows->>= _ SystemTraced (recv_step sp s.mem p) _ (recv_step-Traced sp s.mem p _ t)
            (λ q u. u))
  ]
  act-Traced ww (Action.wake_recv i) s t = update_recv-Traced i woken s t
  act-Traced ww (Action.end_recv i) s t = update_recv-Traced i finish s t
  act-Traced ww (Action.call_poll cx) s t = ground arith
  act-Traced ww (Action.run_receiver sp) s t =
      Allows->>= _ SystemTraced (receiver_step ww sp s.mem s.receiver) _
        (receiver_step-Traced ww sp s.mem s.receiver _ t) (λ q u. u)
  act-Traced ww Action.end_poll s t = ground arith
  act-Traced ww Action.call_drop_receiver s t = ground arith

  run-Traced :
      (ww : W → W → Bool) (h : List (Action A W)) (s : System A W)
      → SystemTraced s
      → Allows SystemTraced (run ww h s)
  unfolding run
  run-Traced ww [] s t = t
  run-Traced ww (a ∷ h) s t =
      Allows->>= SystemTraced SystemTraced (act ww a s) _ (act-Traced ww a s t)
        (λ u. run-Traced ww h u)

  -- In every reachable state, each value that `recv`, `poll` or a failed `send` returned, or that the
  -- drop of the receiver threw away, had before been given to `send`.
  pub values-IsTraced :
      (will_wake : W → W → Bool) {s : System A W} → Reachable will_wake s → IsTraced s.mem.log
  values-IsTraced will_wake (n, h, e) =
      (subst (Allows SystemTraced) e (
        run-Traced will_wake h (channel n)
          (record { logged = tt; stored = tt; in_hand = tt }))).logged
