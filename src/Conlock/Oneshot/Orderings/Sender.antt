-- ===== src/Conlock/Oneshot/Orderings/Sender.antt =====
-- What each access of the sender's thread makes of who is ordered after the uses of a cell.
use forwardr.Base.{◌≡◌, Bool, true, false, if◌then◌else◌, arith}
use forwardr.Conlock.Status.{ready, close, waiting, fieldless, pending, status_bit, is_closed}
use forwardr.Conlock.Bit.{with_bit, without_bit}
use forwardr.Conlock.Oneshot.Inner.{record_event, Event, Inner}
use forwardr.Conlock.Oneshot.Sender.{
  SenderPc, held, send_load, send_write, send_ready, send_reread, send_acquire, send_wake,
  send_wake_all, drop_load, drop_acquire, drop_dealloc, drop_set_dropping, drop_close_dropping,
  drop_close_acquire, drop_wake, drop_close_wake, drop_wake_all, drop_set_closed, gone, sender_step,
  wake_after_ready, drop_sender_head,
}
use forwardr.Conlock.Oneshot.Invariant.Defs.{RecvView, SenderOk, mem_view, sender_view, known}
use forwardr.Conlock.Oneshot.Ledger.{Allows}
use forwardr.Conlock.Oneshot.Orderings.Access.{
  Cell, data_cell, waker_cell, memory, Access, exchange, leave, setup_ready, setup_closed,
  setup_closed_wake, set_dropping, set_closed_dropping, setup_closed_dropping, sender_access,
}
use forwardr.Conlock.Oneshot.Orderings.Sync.{Follows, touches, is_free}
use forwardr.Conlock.Oneshot.Orderings.Cases.{noted_cas-Allows, cas-Allows}
use forwardr.Conlock.Oneshot.Orderings.Flags.{
  Knows, ReceiverPart, sender_part, sender_flags, threads_know,
}

module _ {A W : Type 0} where
  pub record Steps (y : Cell) (a : Access) (m : Inner A W) (p : SenderPc A) (r : RecvView)
      (e : ReceiverPart) (q : Inner A W × SenderPc A) : Type 0 where
    pub follows :
        Follows y a
          (sender_flags y m.state (sender_part p) e)
          (sender_flags y q.0.state (sender_part q.1) e)
    pub alone : touches y a ≡ true → threads_know y r ≡ 0
    pub live : q.0.freed ≡ false → is_free a ≡ false

  module _ (r : RecvView) (e : ReceiverPart) where
    pub sender-Steps_data :
        (sp : Bool) (m : Inner A W) (p : SenderPc A)
        → known m.state ≡ true
        → (e.frees ≡ true → (m.state ≡ 10) × (e.view.left ≡ 0))
        → ((sender_part p).frees ≡ true → e.view.left ≡ 1)
        → Knows data_cell (mem_view m) (sender_view p) r e
        → SenderOk m p
        → Allows (Steps data_cell (sender_access sp m.state p) m p r e) (sender_step sp m p)
    unfolding sender_step
    sender-Steps_data sp m (send_ready c) k ef d o so =
        noted_cas-Allows (λ b. Steps data_cell (exchange setup_ready b) m (send_ready c) r e) false
          sp m (λ b. if b then record_event Event.sent m else m) c
          (without_bit (without_bit (without_bit (with_bit c ready) waiting) fieldless) pending)
          wake_after_ready (λ c'. if is_closed c' then send_reread else send_ready c')
          (λ eq. ground arith) (ground arith)
    sender-Steps_data sp m (drop_set_dropping c) k ef d o so =
        cas-Allows (λ b. Steps data_cell (leave set_dropping b) m (drop_set_dropping c) r e) false
          sp m c (with_bit c fieldless) (λ _. gone) drop_sender_head (λ eq. ground arith)
          (ground arith)
    sender-Steps_data sp m (drop_close_dropping c) k ef d o so =
        cas-Allows
          (λ b. Steps data_cell (leave setup_closed_dropping b) m (drop_close_dropping c) r e) false
          sp m c (without_bit (without_bit (with_bit c close) waiting) pending) (λ _. gone)
          drop_sender_head (λ eq. ground arith) (ground arith)
    sender-Steps_data sp m (drop_close_acquire c) k ef d o so =
        cas-Allows (λ b. Steps data_cell (exchange setup_closed b) m (drop_close_acquire c) r e)
          true sp m c (without_bit (without_bit (with_bit c close) waiting) pending) drop_wake
          drop_sender_head (λ eq. ground arith) (ground arith)
    sender-Steps_data sp m (drop_close_wake c) k ef d o so =
        cas-Allows (λ b. Steps data_cell (exchange setup_closed_wake b) m (drop_close_wake c) r e)
          true sp m c (without_bit (with_bit c close) waiting) drop_wake_all drop_sender_head
          (λ eq. ground arith) (ground arith)
    sender-Steps_data sp m (drop_set_closed c) k ef d o so =
        cas-Allows (λ b. Steps data_cell (leave set_closed_dropping b) m (drop_set_closed c) r e)
          false sp m c (with_bit (with_bit c close) fieldless) (λ _. gone) drop_sender_head
          (λ eq. ground arith) (ground arith)
    sender-Steps_data sp m held k ef d o so = ground arith
    sender-Steps_data sp m (send_load v) k ef d o so = ground arith
    sender-Steps_data sp m (send_write c v) k ef d o so = ground arith
    sender-Steps_data sp m send_reread k ef d o so = ground arith
    sender-Steps_data sp m send_acquire k ef d o so = ground arith
    sender-Steps_data sp m send_wake k ef d o so = ground arith
    sender-Steps_data sp m send_wake_all k ef d o so = ground arith
    sender-Steps_data sp m drop_load k ef d o so = ground arith
    sender-Steps_data sp m drop_acquire k ef d o so = ground arith
    sender-Steps_data sp m drop_dealloc k ef d o so = ground arith
    sender-Steps_data sp m (drop_wake c) k ef d o so = ground arith
    sender-Steps_data sp m (drop_wake_all c) k ef d o so = ground arith
    sender-Steps_data sp m gone k ef d o so = ground arith

    pub sender-Steps_waker :
        (sp : Bool) (m : Inner A W) (p : SenderPc A)
        → known m.state ≡ true
        → (e.frees ≡ true → (m.state ≡ 10) × (e.view.left ≡ 0))
        → ((sender_part p).frees ≡ true → e.view.left ≡ 1)
        → Knows waker_cell (mem_view m) (sender_view p) r e
        → SenderOk m p
        → Allows (Steps waker_cell (sender_access sp m.state p) m p r e) (sender_step sp m p)
    unfolding sender_step
    sender-Steps_waker sp m (send_ready c) k ef d o so =
        noted_cas-Allows (λ b. Steps waker_cell (exchange setup_ready b) m (send_ready c) r e) false
          sp m (λ b. if b then record_event Event.sent m else m) c
          (without_bit (without_bit (without_bit (with_bit c ready) waiting) fieldless) pending)
          wake_after_ready (λ c'. if is_closed c' then send_reread else send_ready c')
          (λ eq. ground arith) (ground arith)
    sender-Steps_waker sp m (drop_set_dropping c) k ef d o so =
        cas-Allows (λ b. Steps waker_cell (leave set_dropping b) m (drop_set_dropping c) r e) false
          sp m c (with_bit c fieldless) (λ _. gone) drop_sender_head (λ eq. ground arith)
          (ground arith)
    sender-Steps_waker sp m (drop_close_dropping c) k ef d o so =
        cas-Allows
          (λ b. Steps waker_cell (leave setup_closed_dropping b) m (drop_close_dropping c) r e)
          false sp m c (without_bit (without_bit (with_bit c close) waiting) pending) (λ _. gone)
          drop_sender_head (λ eq. ground arith) (ground arith)
    sender-Steps_waker sp m (drop_close_acquire c) k ef d o so =
        cas-Allows (λ b. Steps waker_cell (exchange setup_closed b) m (drop_close_acquire c) r e)
          true sp m c (without_bit (without_bit (with_bit c close) waiting) pending) drop_wake
          drop_sender_head (λ eq. ground arith) (ground arith)
    sender-Steps_waker sp m (drop_close_wake c) k ef d o so =
        cas-Allows (λ b. Steps waker_cell (exchange setup_closed_wake b) m (drop_close_wake c) r e)
          true sp m c (without_bit (with_bit c close) waiting) drop_wake_all drop_sender_head
          (λ eq. ground arith) (ground arith)
    sender-Steps_waker sp m (drop_set_closed c) k ef d o so =
        cas-Allows (λ b. Steps waker_cell (leave set_closed_dropping b) m (drop_set_closed c) r e)
          false sp m c (with_bit (with_bit c close) fieldless) (λ _. gone) drop_sender_head
          (λ eq. ground arith) (ground arith)
    sender-Steps_waker sp m held k ef d o so = ground arith
    sender-Steps_waker sp m (send_load v) k ef d o so = ground arith
    sender-Steps_waker sp m (send_write c v) k ef d o so = ground arith
    sender-Steps_waker sp m send_reread k ef d o so = ground arith
    sender-Steps_waker sp m send_acquire k ef d o so = ground arith
    sender-Steps_waker sp m send_wake k ef d o so = ground arith
    sender-Steps_waker sp m send_wake_all k ef d o so = ground arith
    sender-Steps_waker sp m drop_load k ef d o so = ground arith
    sender-Steps_waker sp m drop_acquire k ef d o so = ground arith
    sender-Steps_waker sp m drop_dealloc k ef d o so = ground arith
    sender-Steps_waker sp m (drop_wake c) k ef d o so = ground arith
    sender-Steps_waker sp m (drop_wake_all c) k ef d o so = ground arith
    sender-Steps_waker sp m gone k ef d o so = ground arith

    pub sender-Steps_memory :
        (sp : Bool) (m : Inner A W) (p : SenderPc A)
        → known m.state ≡ true
        → (e.frees ≡ true → (m.state ≡ 10) × (e.view.left ≡ 0))
        → ((sender_part p).frees ≡ true → e.view.left ≡ 1)
        → Knows memory (mem_view m) (sender_view p) r e
        → SenderOk m p
        → Allows (Steps memory (sender_access sp m.state p) m p r e) (sender_step sp m p)
    unfolding sender_step
    sender-Steps_memory sp m (send_ready c) k ef d o so =
        noted_cas-Allows (λ b. Steps memory (exchange setup_ready b) m (send_ready c) r e) false sp
          m (λ b. if b then record_event Event.sent m else m) c
          (without_bit (without_bit (without_bit (with_bit c ready) waiting) fieldless) pending)
          wake_after_ready (λ c'. if is_closed c' then send_reread else send_ready c')
          (λ eq. ground arith) (ground arith)
    sender-Steps_memory sp m (drop_set_dropping c) k ef d o so =
        cas-Allows (λ b. Steps memory (leave set_dropping b) m (drop_set_dropping c) r e) false sp m
          c (with_bit c fieldless) (λ _. gone) drop_sender_head (λ eq. ground arith) (ground arith)
    sender-Steps_memory sp m (drop_close_dropping c) k ef d o so =
        cas-Allows (λ b. Steps memory (leave setup_closed_dropping b) m (drop_close_dropping c) r e)
          false sp m c (without_bit (without_bit (with_bit c close) waiting) pending) (λ _. gone)
          drop_sender_head (λ eq. ground arith) (ground arith)
    sender-Steps_memory sp m (drop_close_acquire c) k ef d o so =
        cas-Allows (λ b. Steps memory (exchange setup_closed b) m (drop_close_acquire c) r e) true
          sp m c (without_bit (without_bit (with_bit c close) waiting) pending) drop_wake
          drop_sender_head (λ eq. ground arith) (ground arith)
    sender-Steps_memory sp m (drop_close_wake c) k ef d o so =
        cas-Allows (λ b. Steps memory (exchange setup_closed_wake b) m (drop_close_wake c) r e) true
          sp m c (without_bit (with_bit c close) waiting) drop_wake_all drop_sender_head
          (λ eq. ground arith) (ground arith)
    sender-Steps_memory sp m (drop_set_closed c) k ef d o so =
        cas-Allows (λ b. Steps memory (leave set_closed_dropping b) m (drop_set_closed c) r e) false
          sp m c (with_bit (with_bit c close) fieldless) (λ _. gone) drop_sender_head
          (λ eq. ground arith) (ground arith)
    sender-Steps_memory sp m held k ef d o so = ground arith
    sender-Steps_memory sp m (send_load v) k ef d o so = ground arith
    sender-Steps_memory sp m (send_write c v) k ef d o so = ground arith
    sender-Steps_memory sp m send_reread k ef d o so = ground arith
    sender-Steps_memory sp m send_acquire k ef d o so = ground arith
    sender-Steps_memory sp m send_wake k ef d o so = ground arith
    sender-Steps_memory sp m send_wake_all k ef d o so = ground arith
    sender-Steps_memory sp m drop_load k ef d o so = ground arith
    sender-Steps_memory sp m drop_acquire k ef d o so = ground arith
    sender-Steps_memory sp m drop_dealloc k ef d o so = ground arith
    sender-Steps_memory sp m (drop_wake c) k ef d o so = ground arith
    sender-Steps_memory sp m (drop_wake_all c) k ef d o so = ground arith
    sender-Steps_memory sp m gone k ef d o so = ground arith
