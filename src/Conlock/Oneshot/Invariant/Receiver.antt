-- ===== src/Conlock/Oneshot/Invariant/Receiver.antt =====
-- A step of the thread that has the receiver to itself keeps the invariant, and faults nowhere.
use forwardr.Base.{◌≡◌, Bool, true, false, arith}
use forwardr.Conlock.Bit.{with_bit, without_bit}
use forwardr.Conlock.Status.{ready, close, waiting, fieldless, pending, status_bit}
use forwardr.Conlock.Oneshot.Inner.{Inner}
use forwardr.Conlock.Oneshot.Receiver.{
  ReceiverPc, free, poll_load, poll_take, poll_read, poll_wakeless, poll_update, poll_register,
  poll_write, poll_unset, poll_clear_waker, poll_returned, drop_load, drop_clean, drop_read,
  drop_acquire, drop_dealloc, drop_set_dropping, drop_close_acquire, drop_clear_waker,
  drop_set_closed, gone, receiver_step, poll_head, drop_receiver_head,
}
use forwardr.Conlock.Oneshot.Invariant.Exchange.{cas-Ensures}
use forwardr.Conlock.Oneshot.Invariant.Defs.{
  SenderView, RecvView, RecvBounds, SenderBounds, Owned, ReceiverOk, ReceiverMoves, Ensures,
  mem_view, receiver_view,
}

module _ {A W : Type 0} where
  pub record Kept (m : Inner A W) (p : ReceiverPc A W) (s : SenderView) (r : RecvView)
      (q : Inner A W × ReceiverPc A W) : Type 0 where
    pub owned : Owned (mem_view q.0) s r (receiver_view q.1)
    pub placed : ReceiverOk q.0 q.1
    pub moved : ReceiverMoves m q.0
    pub still : (receiver_view p).busy ≡ 0 → q.0.state ≡ m.state

  pub receiver_step-Kept :
      (will_wake : W → W → Bool) (sp : Bool) (m : Inner A W) (p : ReceiverPc A W) (s : SenderView)
      (r : RecvView)
      → SenderBounds s
      → RecvBounds r
      → Owned (mem_view m) s r (receiver_view p)
      → ReceiverOk m p
      → Ensures (Kept m p s r) (receiver_step will_wake sp m p)
  unfolding receiver_step
  receiver_step-Kept ww sp m free s r bs br o k = ground arith
  receiver_step-Kept ww sp m (poll_load cx) s r bs br o k = ground arith
  receiver_step-Kept ww sp m (poll_take c cx) s r bs br o k =
      cas-Ensures (Kept m (poll_take c cx) s r) false sp m c
        (with_bit (without_bit c ready) fieldless) (λ _. poll_read) (λ c'. poll_head c' cx)
        (ground arith) (λ e. ground arith) (ground arith)
  receiver_step-Kept ww sp m poll_read s r bs br o k = ground arith
  receiver_step-Kept ww sp m (poll_wakeless c cx) s r bs br o k =
      cas-Ensures (Kept m (poll_wakeless c cx) s r) true sp m c (with_bit c fieldless)
        (λ c'. poll_update c' cx) (λ c'. poll_head c' cx) (ground arith) (λ e. ground arith)
        (ground arith)
  receiver_step-Kept ww sp m (poll_update c cx) s r bs br o k = ground arith
  receiver_step-Kept ww sp m (poll_register c cx) s r bs br o k =
      cas-Ensures (Kept m (poll_register c cx) s r) true sp m c
        (with_bit (with_bit (with_bit c waiting) pending) fieldless) (λ c'. poll_write c' cx)
        (λ c'. poll_head c' cx) (ground arith) (λ e. ground arith) (ground arith)
  receiver_step-Kept ww sp m (poll_write c cx) s r bs br o k = ground arith
  receiver_step-Kept ww sp m (poll_unset c cx) s r bs br o k = ground arith
  receiver_step-Kept ww sp m (poll_clear_waker c cx) s r bs br o k = ground arith
  receiver_step-Kept ww sp m (poll_returned x) s r bs br o k = ground arith
  receiver_step-Kept ww sp m drop_load s r bs br o k = ground arith
  receiver_step-Kept ww sp m (drop_clean c) s r bs br o k =
      cas-Ensures (Kept m (drop_clean c) s r) true sp m c (without_bit c ready) drop_read
        drop_receiver_head (ground arith) (λ e. ground arith) (ground arith)
  receiver_step-Kept ww sp m (drop_read c) s r bs br o k = ground arith
  receiver_step-Kept ww sp m drop_acquire s r bs br o k = ground arith
  receiver_step-Kept ww sp m drop_dealloc s r bs br o k = ground arith
  receiver_step-Kept ww sp m (drop_set_dropping c) s r bs br o k =
      cas-Ensures (Kept m (drop_set_dropping c) s r) false sp m c (with_bit c fieldless) (λ _. gone)
        drop_receiver_head (ground arith) (λ e. ground arith) (ground arith)
  receiver_step-Kept ww sp m (drop_close_acquire c) s r bs br o k =
      cas-Ensures (Kept m (drop_close_acquire c) s r) true sp m c
        (without_bit (without_bit (with_bit c close) waiting) pending) drop_clear_waker
        drop_receiver_head (ground arith) (λ e. ground arith) (ground arith)
  receiver_step-Kept ww sp m (drop_clear_waker c) s r bs br o k = ground arith
  receiver_step-Kept ww sp m (drop_set_closed c) s r bs br o k =
      cas-Ensures (Kept m (drop_set_closed c) s r) false sp m c
        (with_bit (with_bit c close) fieldless) (λ _. gone) drop_receiver_head (ground arith)
        (λ e. ground arith) (ground arith)
  receiver_step-Kept ww sp m gone s r bs br o k = ground arith
