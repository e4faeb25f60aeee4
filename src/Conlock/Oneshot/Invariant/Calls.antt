-- ===== src/Conlock/Oneshot/Invariant/Calls.antt =====
-- The beginning and the end of each call keep the invariant of the system.
use forwardr.Base.{ℕ, ◌≡◌, refl, inl, inr, Bool, true, List, Bool-cases, arith}
use forwardr.Conlock.Oneshot.Inner.{Inner, Event, record_event}
use forwardr.Conlock.Oneshot.Sender.{SenderPc}
use forwardr.Conlock.Oneshot.Recv.{RecvPc}
use forwardr.Conlock.Oneshot.Receiver.{ReceiverPc, free}
use forwardr.Conlock.Oneshot.System.{Action, all_idle, begin, act}
use forwardr.Conlock.Oneshot.Invariant.Defs.{
  MemView, has, Owned, SenderView, RecvView, Ensures, recv_view,
}
use forwardr.Conlock.Oneshot.Invariant.Threads.{active-all_idle, ReceiverOk-moved}
use forwardr.Conlock.Oneshot.Invariant.Moves.{Inv, update_recv-Inv, begin-Kept}

module _ {A : Type 0} where
  -- An exclusive call may begin: nobody is in `recv`.
  alone-Owned :
      {m : MemView} {sv : SenderView} (rs : List (RecvPc A)) (b : ℕ)
      → all_idle rs ≡ true
      → Owned m sv (recv_view rs) (has 0 0 0 0 0 0)
      → Owned m sv (recv_view rs) (has 0 0 1 0 b 0)
  alone-Owned rs b i o = ground (arith, active-all_idle rs i)

finished-Owned :
    {m : MemView} {sv : SenderView} {r : RecvView}
    → Owned m sv r (has 0 0 1 0 0 0)
    → Owned m sv r (has 0 0 0 0 0 0)
finished-Owned o = ground arith

module _ {A W : Type 0} where
  pub begin_recv-Inv :
      (ww : W → W → Bool) (i : ℕ) (m : Inner A W) (p : SenderPc A) (e : ReceiverPc A W)
      (rs : List (RecvPc A))
      → Inv (record { mem = m; sender = p; receiver = e; recvs = rs })
      → Ensures Inv
          (act ww (Action.call_recv i) (record { mem = m; sender = p; receiver = e; recvs = rs }))
  unfolding act
  begin_recv-Inv ww i m p free rs v = update_recv-Inv _ i begin v (λ q. begin-Kept m _ _ _ q refl)
  begin_recv-Inv ww i m p _ rs v = v

  pub call_send-Inv :
      (ww : W → W → Bool) (a : A) (m : Inner A W) (p : SenderPc A) (e : ReceiverPc A W)
      (rs : List (RecvPc A))
      → Inv (record { mem = m; sender = p; receiver = e; recvs = rs })
      → Ensures Inv
          (act ww (Action.call_send a) (record { mem = m; sender = p; receiver = e; recvs = rs }))
  unfolding act
  call_send-Inv ww a m SenderPc.held e rs v = record {
    owned = v.owned;
    sender_ok = v.sender_ok;
    receiver_ok =
        ReceiverOk-moved {m = m} {m' = record_event (Event.called a) m} e (ground arith)
          v.receiver_ok;
    recvs_ok = v.recvs_ok;
  }
  call_send-Inv ww a m _ e rs v = v

  pub call_drop_sender-Inv :
      (ww : W → W → Bool) (m : Inner A W) (p : SenderPc A) (e : ReceiverPc A W)
      (rs : List (RecvPc A))
      → Inv (record { mem = m; sender = p; receiver = e; recvs = rs })
      → Ensures Inv (
          act ww Action.call_drop_sender (record { mem = m; sender = p; receiver = e; recvs = rs }))
  unfolding act
  call_drop_sender-Inv ww m SenderPc.held e rs v = record {
    owned = v.owned;
    sender_ok = tt;
    receiver_ok = v.receiver_ok;
    recvs_ok = v.recvs_ok;
  }
  call_drop_sender-Inv ww m _ e rs v = v

  pub call_poll-Inv :
      (ww : W → W → Bool) (cx : W) (m : Inner A W) (p : SenderPc A) (e : ReceiverPc A W)
      (rs : List (RecvPc A))
      → Inv (record { mem = m; sender = p; receiver = e; recvs = rs })
      → Ensures Inv
          (act ww (Action.call_poll cx) (record { mem = m; sender = p; receiver = e; recvs = rs }))
  unfolding act
  call_poll-Inv ww cx m p free rs v = elim (Bool-cases (all_idle rs)) [
    | inl i ↦
        rw (i, Ensures)
          (record {
            owned = alone-Owned rs _ i v.owned;
            sender_ok = v.sender_ok;
            receiver_ok = tt;
            recvs_ok = v.recvs_ok;
          })
    | inr i ↦ rw (i, Ensures) v
  ]
  call_poll-Inv ww cx m p _ rs v = v

  pub call_drop_receiver-Inv :
      (ww : W → W → Bool) (m : Inner A W) (p : SenderPc A) (e : ReceiverPc A W)
      (rs : List (RecvPc A))
      → Inv (record { mem = m; sender = p; receiver = e; recvs = rs })
      → Ensures Inv (
          act ww Action.call_drop_receiver
            (record { mem = m; sender = p; receiver = e; recvs = rs }))
  unfolding act
  call_drop_receiver-Inv ww m p free rs v = elim (Bool-cases (all_idle rs)) [
    | inl i ↦
        rw (i, Ensures)
          (record {
            owned = alone-Owned rs _ i v.owned;
            sender_ok = v.sender_ok;
            receiver_ok = tt;
            recvs_ok = v.recvs_ok;
          })
    | inr i ↦ rw (i, Ensures) v
  ]
  call_drop_receiver-Inv ww m p _ rs v = v

  pub finish_poll-Inv :
      (ww : W → W → Bool) (m : Inner A W) (p : SenderPc A) (e : ReceiverPc A W)
      (rs : List (RecvPc A))
      → Inv (record { mem = m; sender = p; receiver = e; recvs = rs })
      → Ensures Inv
          (act ww Action.end_poll (record { mem = m; sender = p; receiver = e; recvs = rs }))
  unfolding act
  finish_poll-Inv ww m p (ReceiverPc.poll_returned x) rs v = record {
    owned = finished-Owned v.owned;
    sender_ok = v.sender_ok;
    receiver_ok = tt;
    recvs_ok = v.recvs_ok;
  }
  finish_poll-Inv ww m p _ rs v = v
