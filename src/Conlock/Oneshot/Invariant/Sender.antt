-- ===== src/Conlock/Oneshot/Invariant/Sender.antt =====
-- A step of the sender's thread keeps the invariant, and faults nowhere.
use forwardr.Base.{Bool, true, false, arith}
use forwardr.Conlock.Bit.{with_bit, without_bit}
use forwardr.Conlock.Status.{close, waiting, fieldless, pending, status_bit}
use forwardr.Conlock.Oneshot.Inner.{Inner}
use forwardr.Conlock.Oneshot.Sender.{
  SenderPc, held, send_load, send_write, send_ready, send_reread, send_acquire, send_wake,
  send_wake_all, drop_load, drop_acquire, drop_dealloc, drop_set_dropping, drop_close_dropping,
  drop_close_acquire, drop_wake, drop_close_wake, drop_wake_all, drop_set_closed, gone, sender_step,
  drop_sender_head,
}
use forwardr.Conlock.Oneshot.System.{wakes_all}
use forwardr.Conlock.Oneshot.Invariant.Exchange.{cas-Ensures}
use forwardr.Conlock.Oneshot.Invariant.Defs.{
  RecvView, ReceiverView, RecvBounds, ReceiverBounds, Owned, SenderOk, SenderMoves, Ensures,
  mem_view, sender_view, rouse,
}

module _ {A W : Type 0} where
  pub record Kept (m : Inner A W) (p : SenderPc A) (r : RecvView) (e : ReceiverView)
      (q : Inner A W × SenderPc A) : Type 0 where
    pub owned : Owned (mem_view q.0) (sender_view q.1) (rouse (wakes_all p) r) e
    pub placed : SenderOk q.0 q.1
    pub moved : SenderMoves m q.0

  -- On every access, and whether or not a weak exchange fails.
  pub sender_step-Kept :
      (sp : Bool) (m : Inner A W) (p : SenderPc A) (r : RecvView) (e : ReceiverView)
      → RecvBounds r
      → ReceiverBounds e
      → Owned (mem_view m) (sender_view p) r e
      → SenderOk m p
      → Ensures (Kept m p r e) (sender_step sp m p)
  unfolding sender_step
  sender_step-Kept sp m held r e br be o k = ground arith
  sender_step-Kept sp m (send_load v) r e br be o k = ground arith
  sender_step-Kept sp m (send_write c v) r e br be o k = ground arith
  sender_step-Kept sp m (send_ready c) r e br be o k = ground arith
  sender_step-Kept sp m send_reread r e br be o k = ground arith
  sender_step-Kept sp m send_acquire r e br be o k = ground arith
  sender_step-Kept sp m send_wake r e br be o k = ground arith
  sender_step-Kept sp m send_wake_all r e br be o k = ground arith
  sender_step-Kept sp m drop_load r e br be o k = ground arith
  sender_step-Kept sp m drop_acquire r e br be o k = ground arith
  sender_step-Kept sp m drop_dealloc r e br be o k = ground arith
  sender_step-Kept sp m (drop_set_dropping c) r e br be o k =
      cas-Ensures (Kept m (drop_set_dropping c) r e) false sp m c (with_bit c fieldless) (λ _. gone)
        drop_sender_head (ground arith) (λ e. ground arith) (ground arith)
  sender_step-Kept sp m (drop_close_dropping c) r e br be o k =
      cas-Ensures (Kept m (drop_close_dropping c) r e) false sp m c
        (without_bit (without_bit (with_bit c close) waiting) pending) (λ _. gone) drop_sender_head
        (ground arith) (λ e. ground arith) (ground arith)
  sender_step-Kept sp m (drop_close_acquire c) r e br be o k =
      cas-Ensures (Kept m (drop_close_acquire c) r e) true sp m c
        (without_bit (without_bit (with_bit c close) waiting) pending) drop_wake drop_sender_head
        (ground arith) (λ e. ground arith) (ground arith)
  sender_step-Kept sp m (drop_wake c) r e br be o k = ground arith
  sender_step-Kept sp m (drop_close_wake c) r e br be o k =
      cas-Ensures (Kept m (drop_close_wake c) r e) true sp m c
        (without_bit (with_bit c close) waiting) drop_wake_all drop_sender_head (ground arith)
        (λ e. ground arith) (ground arith)
  sender_step-Kept sp m (drop_wake_all c) r e br be o k = ground arith
  sender_step-Kept sp m (drop_set_closed c) r e br be o k =
      cas-Ensures (Kept m (drop_set_closed c) r e) false sp m c
        (with_bit (with_bit c close) fieldless) (λ _. gone) drop_sender_head (ground arith)
        (λ e. ground arith) (ground arith)
  sender_step-Kept sp m gone r e br be o k = ground arith
