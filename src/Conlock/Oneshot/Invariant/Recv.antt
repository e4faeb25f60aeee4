-- ===== src/Conlock/Oneshot/Invariant/Recv.antt =====
-- A step of a thread in `recv` keeps the invariant, and faults nowhere.
use forwardr.Base.{◌+◌, Bool, true, false, arith}
use forwardr.Conlock.Bit.{with_bit, without_bit}
use forwardr.Conlock.Status.{ready, waiting, fieldless, pending, status_bit}
use forwardr.Conlock.Oneshot.Inner.{Inner}
use forwardr.Conlock.Oneshot.Recv.{
  RecvPc, idle, load, take, take_data, unset_pending, clear_waker, set_waiting, wait, parked,
  reload, returned, recv_step, recv_head,
}
use forwardr.Conlock.Oneshot.Invariant.Exchange.{cas-Ensures}
use forwardr.Conlock.Oneshot.Invariant.Defs.{
  SenderView, RecvView, ReceiverView, RecvBounds, ReceiverBounds, SenderBounds, Owned, RecvOk,
  SenderMoves, ReceiverMoves, Ensures, mem_view, has_message, has_waker, is_active, is_parked,
}

-- The other threads' sums, and the share of the thread at `p`.
abbrev pub joined : {A : Type 0} → RecvView → RecvPc A → RecvView
joined r p = record {
  message = r.message + has_message p;
  waker = r.waker + has_waker p;
  active = r.active + is_active p;
  parked = r.parked + is_parked p;
}

module _ {A W : Type 0} where
  pub record Kept (m : Inner A W) (s : SenderView) (r : RecvView) (e : ReceiverView)
      (q : Inner A W × RecvPc A) : Type 0 where
    pub owned : Owned (mem_view q.0) s (joined r q.1) e
    pub placed : RecvOk q.0.state q.1
    pub sharing : SenderMoves m q.0
    pub moved : ReceiverMoves m q.0

  pub recv_step-Kept :
      (sp : Bool) (m : Inner A W) (p : RecvPc A) (s : SenderView) (r : RecvView) (e : ReceiverView)
      → SenderBounds s
      → RecvBounds r
      → ReceiverBounds e
      → Owned (mem_view m) s (joined r p) e
      → RecvOk m.state p
      → Ensures (Kept m s r e) (recv_step sp m p)
  unfolding recv_step
  recv_step-Kept sp m idle s r e bs br be o k = ground arith
  recv_step-Kept sp m load s r e bs br be o k = ground arith
  recv_step-Kept sp m (take c) s r e bs br be o k =
      cas-Ensures (Kept m s r e) false sp m c (with_bit (without_bit c ready) fieldless)
        (λ _. take_data) recv_head (ground arith) (λ e. ground arith) (ground arith)
  recv_step-Kept sp m take_data s r e bs br be o k = ground arith
  recv_step-Kept sp m (unset_pending c) s r e bs br be o k =
      cas-Ensures (Kept m s r e) false sp m c (without_bit c pending) clear_waker recv_head
        (ground arith) (λ e. ground arith) (ground arith)
  recv_step-Kept sp m (clear_waker c) s r e bs br be o k = ground arith
  recv_step-Kept sp m (set_waiting c) s r e bs br be o k =
      cas-Ensures (Kept m s r e) true sp m c (with_bit c waiting) wait recv_head (ground arith)
        (λ e. ground arith) (ground arith)
  recv_step-Kept sp m (wait c) s r e bs br be o k = ground arith
  recv_step-Kept sp m parked s r e bs br be o k = ground arith
  recv_step-Kept sp m reload s r e bs br be o k = ground arith
  recv_step-Kept sp m (returned x) s r e bs br be o k = ground arith
