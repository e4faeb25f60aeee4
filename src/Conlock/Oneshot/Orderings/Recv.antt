-- ===== src/Conlock/Oneshot/Orderings/Recv.antt =====
-- What each access of a thread in `recv` makes of who is ordered after the uses of a cell.
use forwardr.Base.{◌≡◌, ◌==◌, Bool, true, false, arith}
use forwardr.Conlock.Bit.{with_bit, without_bit}
use forwardr.Conlock.Status.{ready, waiting, fieldless, pending, status_bit}
use forwardr.Conlock.Oneshot.Inner.{Inner}
use forwardr.Conlock.Oneshot.Recv
use forwardr.Conlock.Oneshot.Recv.{
  RecvPc, idle, load, take, take_data, clear_waker, wait, parked, reload, returned, recv_step,
  recv_head,
}
use forwardr.Conlock.Oneshot.Invariant.Defs.{
  RecvView, SenderView, RecvOk, filled, mem_view, is_active, known,
}
use forwardr.Conlock.Oneshot.Invariant.Recv.{joined}
use forwardr.Conlock.Oneshot.Ledger.{Allows}
use forwardr.Conlock.Oneshot.Orderings.Access.{
  Cell, data_cell, waker_cell, memory, Access, exchange, setup_dataless, unset_pending, set_waiting,
  recv_access,
}
use forwardr.Conlock.Oneshot.Orderings.Sync.{touches}
use forwardr.Conlock.Oneshot.Orderings.Shared.{Follows}
use forwardr.Conlock.Oneshot.Orderings.Cases.{cas-Allows}
use forwardr.Conlock.Oneshot.Orderings.Receiver.{PartOk}
use forwardr.Conlock.Oneshot.Orderings.Flags.{
  SenderPart, ReceiverPart, sender_flags, thread_knows, threads_know, Knows,
}

module _ {A W : Type 0} where
  -- `r` are the other threads.
  pub record Steps (y : Cell) (a : Access) (m : Inner A W) (t : RecvPc A) (r : RecvView)
      (p : SenderPart) (e : ReceiverPart) (q : Inner A W × RecvPc A) : Type 0 where
    pub follows :
        Follows y a
          (sender_flags y m.state p e)
          (sender_flags y q.0.state p e)
          (thread_knows y t == 1)
          (thread_knows y q.1 == 1)
    pub alone : touches y a ≡ true → threads_know y r ≡ 0

  module _ (r : RecvView) (s : SenderView) (p : SenderPart) (e : ReceiverPart) where
    pub recv-Steps_data :
        (sp : Bool) (m : Inner A W) (t : RecvPc A)
        → known m.state ≡ true
        → PartOk m.state (filled m.slot) p s
        → (is_active t ≡ 1 → (e.view.left ≡ 0) × (e.view.polling ≡ 0))
        → Knows data_cell (mem_view m) s (joined r t) e
        → RecvOk m.state t
        → Allows (Steps data_cell (recv_access sp m.state t) m t r p e) (recv_step sp m t)
    unfolding recv_step
    recv-Steps_data sp m (Recv.take c) k ok_ d o to =
        cas-Allows (λ b. Steps data_cell (exchange setup_dataless b) m (Recv.take c) r p e) false sp
          m c (with_bit (without_bit c ready) fieldless) (λ _. take_data) recv_head
          (λ eq. ground arith) (ground arith)
    recv-Steps_data sp m (Recv.unset_pending c) k ok_ d o to =
        cas-Allows (λ b. Steps data_cell (exchange unset_pending b) m (Recv.unset_pending c) r p e)
          false sp m c (without_bit c pending) clear_waker recv_head (λ eq. ground arith)
          (ground arith)
    recv-Steps_data sp m (Recv.set_waiting c) k ok_ d o to =
        cas-Allows (λ b. Steps data_cell (exchange set_waiting b) m (Recv.set_waiting c) r p e) true
          sp m c (with_bit c waiting) wait recv_head (λ eq. ground arith) (ground arith)
    recv-Steps_data sp m idle k ok_ d o to = ground arith
    recv-Steps_data sp m load k ok_ d o to = ground arith
    recv-Steps_data sp m take_data k ok_ d o to = ground arith
    recv-Steps_data sp m (clear_waker c) k ok_ d o to = ground arith
    recv-Steps_data sp m (wait c) k ok_ d o to = ground arith
    recv-Steps_data sp m parked k ok_ d o to = ground arith
    recv-Steps_data sp m reload k ok_ d o to = ground arith
    recv-Steps_data sp m (returned x) k ok_ d o to = ground arith

    pub recv-Steps_waker :
        (sp : Bool) (m : Inner A W) (t : RecvPc A)
        → known m.state ≡ true
        → PartOk m.state (filled m.slot) p s
        → (is_active t ≡ 1 → (e.view.left ≡ 0) × (e.view.polling ≡ 0))
        → Knows waker_cell (mem_view m) s (joined r t) e
        → RecvOk m.state t
        → Allows (Steps waker_cell (recv_access sp m.state t) m t r p e) (recv_step sp m t)
    unfolding recv_step
    recv-Steps_waker sp m (Recv.take c) k ok_ d o to =
        cas-Allows (λ b. Steps waker_cell (exchange setup_dataless b) m (Recv.take c) r p e) false
          sp m c (with_bit (without_bit c ready) fieldless) (λ _. take_data) recv_head
          (λ eq. ground arith) (ground arith)
    recv-Steps_waker sp m (Recv.unset_pending c) k ok_ d o to =
        cas-Allows (λ b. Steps waker_cell (exchange unset_pending b) m (Recv.unset_pending c) r p e)
          false sp m c (without_bit c pending) clear_waker recv_head (λ eq. ground arith)
          (ground arith)
    recv-Steps_waker sp m (Recv.set_waiting c) k ok_ d o to =
        cas-Allows (λ b. Steps waker_cell (exchange set_waiting b) m (Recv.set_waiting c) r p e)
          true sp m c (with_bit c waiting) wait recv_head (λ eq. ground arith) (ground arith)
    recv-Steps_waker sp m idle k ok_ d o to = ground arith
    recv-Steps_waker sp m load k ok_ d o to = ground arith
    recv-Steps_waker sp m take_data k ok_ d o to = ground arith
    recv-Steps_waker sp m (clear_waker c) k ok_ d o to = ground arith
    recv-Steps_waker sp m (wait c) k ok_ d o to = ground arith
    recv-Steps_waker sp m parked k ok_ d o to = ground arith
    recv-Steps_waker sp m reload k ok_ d o to = ground arith
    recv-Steps_waker sp m (returned x) k ok_ d o to = ground arith

    pub recv-Steps_memory :
        (sp : Bool) (m : Inner A W) (t : RecvPc A)
        → known m.state ≡ true
        → PartOk m.state (filled m.slot) p s
        → (is_active t ≡ 1 → (e.view.left ≡ 0) × (e.view.polling ≡ 0))
        → Knows memory (mem_view m) s (joined r t) e
        → RecvOk m.state t
        → Allows (Steps memory (recv_access sp m.state t) m t r p e) (recv_step sp m t)
    unfolding recv_step
    recv-Steps_memory sp m (Recv.take c) k ok_ d o to =
        cas-Allows (λ b. Steps memory (exchange setup_dataless b) m (Recv.take c) r p e) false sp m
          c (with_bit (without_bit c ready) fieldless) (λ _. take_data) recv_head
          (λ eq. ground arith) (ground arith)
    recv-Steps_memory sp m (Recv.unset_pending c) k ok_ d o to =
        cas-Allows (λ b. Steps memory (exchange unset_pending b) m (Recv.unset_pending c) r p e)
          false sp m c (without_bit c pending) clear_waker recv_head (λ eq. ground arith)
          (ground arith)
    recv-Steps_memory sp m (Recv.set_waiting c) k ok_ d o to =
        cas-Allows (λ b. Steps memory (exchange set_waiting b) m (Recv.set_waiting c) r p e) true sp
          m c (with_bit c waiting) wait recv_head (λ eq. ground arith) (ground arith)
    recv-Steps_memory sp m idle k ok_ d o to = ground arith
    recv-Steps_memory sp m load k ok_ d o to = ground arith
    recv-Steps_memory sp m take_data k ok_ d o to = ground arith
    recv-Steps_memory sp m (clear_waker c) k ok_ d o to = ground arith
    recv-Steps_memory sp m (wait c) k ok_ d o to = ground arith
    recv-Steps_memory sp m parked k ok_ d o to = ground arith
    recv-Steps_memory sp m reload k ok_ d o to = ground arith
    recv-Steps_memory sp m (returned x) k ok_ d o to = ground arith
