-- ===== src/Conlock/Oneshot/Orderings/Receiver.antt =====
-- What each access of the thread that has the receiver makes of who is ordered after the uses of a cell.
use forwardr.Base.{ℕ, ◌≡◌, ◌⊎◌, ◌||◌, Bool, true, false, arith}
use forwardr.Conlock.Bit.{with_bit, without_bit}
use forwardr.Conlock.Status.{ready, close, waiting, fieldless, pending, status_bit}
use forwardr.Conlock.Oneshot.Inner.{Inner}
use forwardr.Conlock.Oneshot.Receiver.{
  ReceiverPc, free, poll_load, poll_take, poll_read, poll_wakeless, poll_update, poll_register,
  poll_write, poll_unset, poll_clear_waker, poll_returned, drop_load, drop_clean, drop_read,
  drop_acquire, drop_dealloc, drop_set_dropping, drop_close_acquire, drop_clear_waker,
  drop_set_closed, gone, receiver_step, poll_head, drop_receiver_head,
}
use forwardr.Conlock.Oneshot.Invariant.Defs.{
  RecvView, SenderView, ReceiverOk, mem_view, filled, known,
}
use forwardr.Conlock.Oneshot.Ledger.{Allows}
use forwardr.Conlock.Oneshot.Orderings.Access.{
  Cell, data_cell, waker_cell, memory, Access, exchange, leave, setup_dataless, set_wakeless,
  set_waiting_pending_wakeless, unset_ready, setup_closed, set_dropping, set_closed_dropping,
  receiver_access,
}
use forwardr.Conlock.Oneshot.Orderings.Sync.{Follows, touches, is_free}
use forwardr.Conlock.Oneshot.Orderings.Cases.{cas-Allows}
use forwardr.Conlock.Oneshot.Orderings.Flags.{
  SenderPart, receiver_part, receiver_flags, threads_know, Knows,
}

-- How the sender's part and its view agree.
pub record PartOk (m : ℕ) (slot : ℕ) (p : SenderPart) (s : SenderView) : Type 0 where
  pub sends_ok : p.sends ≡ true → (s.message ≡ 1) ⊎ (slot ≡ 0)
  pub wakes_ok : p.fences || p.wakes ≡ true → s.waker ≡ 1
  pub frees_ok : p.frees ≡ true → m ≡ 10
  pub left_ok : (p.left ≡ true → s.left ≡ 1) × (p.left ≡ false → s.left ≡ 0)

module _ {A W : Type 0} where
  pub record Steps (y : Cell) (a : Access) (m : Inner A W) (e : ReceiverPc A W) (r : RecvView)
      (p : SenderPart) (q : Inner A W × ReceiverPc A W) : Type 0 where
    pub follows :
        Follows y a
          (receiver_flags y m.state p (receiver_part e))
          (receiver_flags y q.0.state p (receiver_part q.1))
    pub alone : touches y a ≡ true → threads_know y r ≡ 0
    pub live : q.0.freed ≡ false → is_free a ≡ false

  module _ (ww : W → W → Bool) (r : RecvView) (s : SenderView) (p : SenderPart) where
    pub receiver-Steps_data :
        (sp : Bool) (m : Inner A W) (e : ReceiverPc A W)
        → known m.state ≡ true
        → PartOk m.state (filled m.slot) p s
        → ((receiver_part e).frees ≡ true → p.left ≡ true)
        → Knows data_cell (mem_view m) s r (receiver_part e)
        → ReceiverOk m e
        → Allows (Steps data_cell (receiver_access sp m.state e) m e r p) (receiver_step ww sp m e)
    unfolding receiver_step
    receiver-Steps_data sp m (poll_take c cx) k ok_ d o eo =
        cas-Allows (λ b. Steps data_cell (exchange setup_dataless b) m (poll_take c cx) r p) false
          sp m c (with_bit (without_bit c ready) fieldless) (λ _. poll_read) (λ c'. poll_head c' cx)
          (λ eq. ground arith) (ground arith)
    receiver-Steps_data sp m (poll_wakeless c cx) k ok_ d o eo =
        cas-Allows (λ b. Steps data_cell (exchange set_wakeless b) m (poll_wakeless c cx) r p) true
          sp m c (with_bit c fieldless) (λ c'. poll_update c' cx) (λ c'. poll_head c' cx)
          (λ eq. ground arith) (ground arith)
    receiver-Steps_data sp m (poll_register c cx) k ok_ d o eo =
        cas-Allows
          (λ b.
            Steps data_cell (exchange set_waiting_pending_wakeless b) m (poll_register c cx) r p)
          true sp m c (with_bit (with_bit (with_bit c waiting) pending) fieldless)
          (λ c'. poll_write c' cx) (λ c'. poll_head c' cx) (λ eq. ground arith) (ground arith)
    receiver-Steps_data sp m (drop_clean c) k ok_ d o eo =
        cas-Allows (λ b. Steps data_cell (exchange unset_ready b) m (drop_clean c) r p) true sp m c
          (without_bit c ready) drop_read drop_receiver_head (λ eq. ground arith) (ground arith)
    receiver-Steps_data sp m (drop_set_dropping c) k ok_ d o eo =
        cas-Allows (λ b. Steps data_cell (leave set_dropping b) m (drop_set_dropping c) r p) false
          sp m c (with_bit c fieldless) (λ _. gone) drop_receiver_head (λ eq. ground arith)
          (ground arith)
    receiver-Steps_data sp m (drop_close_acquire c) k ok_ d o eo =
        cas-Allows (λ b. Steps data_cell (exchange setup_closed b) m (drop_close_acquire c) r p)
          true sp m c (without_bit (without_bit (with_bit c close) waiting) pending)
          drop_clear_waker drop_receiver_head (λ eq. ground arith) (ground arith)
    receiver-Steps_data sp m (drop_set_closed c) k ok_ d o eo =
        cas-Allows (λ b. Steps data_cell (leave set_closed_dropping b) m (drop_set_closed c) r p)
          false sp m c (with_bit (with_bit c close) fieldless) (λ _. gone) drop_receiver_head
          (λ eq. ground arith) (ground arith)
    receiver-Steps_data sp m free k ok_ d o eo = ground arith
    receiver-Steps_data sp m (poll_load cx) k ok_ d o eo = ground arith
    receiver-Steps_data sp m poll_read k ok_ d o eo = ground arith
    receiver-Steps_data sp m (poll_update c cx) k ok_ d o eo = ground arith
    receiver-Steps_data sp m (poll_write c cx) k ok_ d o eo = ground arith
    receiver-Steps_data sp m (poll_unset c cx) k ok_ d o eo = ground arith
    receiver-Steps_data sp m (poll_clear_waker c cx) k ok_ d o eo = ground arith
    receiver-Steps_data sp m (poll_returned x) k ok_ d o eo = ground arith
    receiver-Steps_data sp m drop_load k ok_ d o eo = ground arith
    receiver-Steps_data sp m (drop_read c) k ok_ d o eo = ground arith
    receiver-Steps_data sp m drop_acquire k ok_ d o eo = ground arith
    receiver-Steps_data sp m drop_dealloc k ok_ d o eo = ground arith
    receiver-Steps_data sp m (drop_clear_waker c) k ok_ d o eo = ground arith
    receiver-Steps_data sp m gone k ok_ d o eo = ground arith

    pub receiver-Steps_waker :
        (sp : Bool) (m : Inner A W) (e : ReceiverPc A W)
        → known m.state ≡ true
        → PartOk m.state (filled m.slot) p s
        → ((receiver_part e).frees ≡ true → p.left ≡ true)
        → Knows waker_cell (mem_view m) s r (receiver_part e)
        → ReceiverOk m e
        → Allows (Steps waker_cell (receiver_access sp m.state e) m e r p) (receiver_step ww sp m e)
    unfolding receiver_step
    receiver-Steps_waker sp m (poll_take c cx) k ok_ d o eo =
        cas-Allows (λ b. Steps waker_cell (exchange setup_dataless b) m (poll_take c cx) r p) false
          sp m c (with_bit (without_bit c ready) fieldless) (λ _. poll_read) (λ c'. poll_head c' cx)
          (λ eq. ground arith) (ground arith)
    receiver-Steps_waker sp m (poll_wakeless c cx) k ok_ d o eo =
        cas-Allows (λ b. Steps waker_cell (exchange set_wakeless b) m (poll_wakeless c cx) r p) true
          sp m c (with_bit c fieldless) (λ c'. poll_update c' cx) (λ c'. poll_head c' cx)
          (λ eq. ground arith) (ground arith)
    receiver-Steps_waker sp m (poll_register c cx) k ok_ d o eo =
        cas-Allows
          (λ b.
            Steps waker_cell (exchange set_waiting_pending_wakeless b) m (poll_register c cx) r p)
          true sp m c (with_bit (with_bit (with_bit c waiting) pending) fieldless)
          (λ c'. poll_write c' cx) (λ c'. poll_head c' cx) (λ eq. ground arith) (ground arith)
    receiver-Steps_waker sp m (drop_clean c) k ok_ d o eo =
        cas-Allows (λ b. Steps waker_cell (exchange unset_ready b) m (drop_clean c) r p) true sp m c
          (without_bit c ready) drop_read drop_receiver_head (λ eq. ground arith) (ground arith)
    receiver-Steps_waker sp m (drop_set_dropping c) k ok_ d o eo =
        cas-Allows (λ b. Steps waker_cell (leave set_dropping b) m (drop_set_dropping c) r p) false
          sp m c (with_bit c fieldless) (λ _. gone) drop_receiver_head (λ eq. ground arith)
          (ground arith)
    receiver-Steps_waker sp m (drop_close_acquire c) k ok_ d o eo =
        cas-Allows (λ b. Steps waker_cell (exchange setup_closed b) m (drop_close_acquire c) r p)
          true sp m c (without_bit (without_bit (with_bit c close) waiting) pending)
          drop_clear_waker drop_receiver_head (λ eq. ground arith) (ground arith)
    receiver-Steps_waker sp m (drop_set_closed c) k ok_ d o eo =
        cas-Allows (λ b. Steps waker_cell (leave set_closed_dropping b) m (drop_set_closed c) r p)
          false sp m c (with_bit (with_bit c close) fieldless) (λ _. gone) drop_receiver_head
          (λ eq. ground arith) (ground arith)
    receiver-Steps_waker sp m free k ok_ d o eo = ground arith
    receiver-Steps_waker sp m (poll_load cx) k ok_ d o eo = ground arith
    receiver-Steps_waker sp m poll_read k ok_ d o eo = ground arith
    receiver-Steps_waker sp m (poll_update c cx) k ok_ d o eo = ground arith
    receiver-Steps_waker sp m (poll_write c cx) k ok_ d o eo = ground arith
    receiver-Steps_waker sp m (poll_unset c cx) k ok_ d o eo = ground arith
    receiver-Steps_waker sp m (poll_clear_waker c cx) k ok_ d o eo = ground arith
    receiver-Steps_waker sp m (poll_returned x) k ok_ d o eo = ground arith
    receiver-Steps_waker sp m drop_load k ok_ d o eo = ground arith
    receiver-Steps_waker sp m (drop_read c) k ok_ d o eo = ground arith
    receiver-Steps_waker sp m drop_acquire k ok_ d o eo = ground arith
    receiver-Steps_waker sp m drop_dealloc k ok_ d o eo = ground arith
    receiver-Steps_waker sp m (drop_clear_waker c) k ok_ d o eo = ground arith
    receiver-Steps_waker sp m gone k ok_ d o eo = ground arith

    pub receiver-Steps_memory :
        (sp : Bool) (m : Inner A W) (e : ReceiverPc A W)
        → known m.state ≡ true
        → PartOk m.state (filled m.slot) p s
        → ((receiver_part e).frees ≡ true → p.left ≡ true)
        → Knows memory (mem_view m) s r (receiver_part e)
        → ReceiverOk m e
        → Allows (Steps memory (receiver_access sp m.state e) m e r p) (receiver_step ww sp m e)
    unfolding receiver_step
    receiver-Steps_memory sp m (poll_take c cx) k ok_ d o eo =
        cas-Allows (λ b. Steps memory (exchange setup_dataless b) m (poll_take c cx) r p) false sp m
          c (with_bit (without_bit c ready) fieldless) (λ _. poll_read) (λ c'. poll_head c' cx)
          (λ eq. ground arith) (ground arith)
    receiver-Steps_memory sp m (poll_wakeless c cx) k ok_ d o eo =
        cas-Allows (λ b. Steps memory (exchange set_wakeless b) m (poll_wakeless c cx) r p) true sp
          m c (with_bit c fieldless) (λ c'. poll_update c' cx) (λ c'. poll_head c' cx)
          (λ eq. ground arith) (ground arith)
    receiver-Steps_memory sp m (poll_register c cx) k ok_ d o eo =
        cas-Allows
          (λ b. Steps memory (exchange set_waiting_pending_wakeless b) m (poll_register c cx) r p)
          true sp m c (with_bit (with_bit (with_bit c waiting) pending) fieldless)
          (λ c'. poll_write c' cx) (λ c'. poll_head c' cx) (λ eq. ground arith) (ground arith)
    receiver-Steps_memory sp m (drop_clean c) k ok_ d o eo =
        cas-Allows (λ b. Steps memory (exchange unset_ready b) m (drop_clean c) r p) true sp m c
          (without_bit c ready) drop_read drop_receiver_head (λ eq. ground arith) (ground arith)
    receiver-Steps_memory sp m (drop_set_dropping c) k ok_ d o eo =
        cas-Allows (λ b. Steps memory (leave set_dropping b) m (drop_set_dropping c) r p) false sp m
          c (with_bit c fieldless) (λ _. gone) drop_receiver_head (λ eq. ground arith)
          (ground arith)
    receiver-Steps_memory sp m (drop_close_acquire c) k ok_ d o eo =
        cas-Allows (λ b. Steps memory (exchange setup_closed b) m (drop_close_acquire c) r p) true
          sp m c (without_bit (without_bit (with_bit c close) waiting) pending) drop_clear_waker
          drop_receiver_head (λ eq. ground arith) (ground arith)
    receiver-Steps_memory sp m (drop_set_closed c) k ok_ d o eo =
        cas-Allows (λ b. Steps memory (leave set_closed_dropping b) m (drop_set_closed c) r p) false
          sp m c (with_bit (with_bit c close) fieldless) (λ _. gone) drop_receiver_head
          (λ eq. ground arith) (ground arith)
    receiver-Steps_memory sp m free k ok_ d o eo = ground arith
    receiver-Steps_memory sp m (poll_load cx) k ok_ d o eo = ground arith
    receiver-Steps_memory sp m poll_read k ok_ d o eo = ground arith
    receiver-Steps_memory sp m (poll_update c cx) k ok_ d o eo = ground arith
    receiver-Steps_memory sp m (poll_write c cx) k ok_ d o eo = ground arith
    receiver-Steps_memory sp m (poll_unset c cx) k ok_ d o eo = ground arith
    receiver-Steps_memory sp m (poll_clear_waker c cx) k ok_ d o eo = ground arith
    receiver-Steps_memory sp m (poll_returned x) k ok_ d o eo = ground arith
    receiver-Steps_memory sp m drop_load k ok_ d o eo = ground arith
    receiver-Steps_memory sp m (drop_read c) k ok_ d o eo = ground arith
    receiver-Steps_memory sp m drop_acquire k ok_ d o eo = ground arith
    receiver-Steps_memory sp m drop_dealloc k ok_ d o eo = ground arith
    receiver-Steps_memory sp m (drop_clear_waker c) k ok_ d o eo = ground arith
    receiver-Steps_memory sp m gone k ok_ d o eo = ground arith
