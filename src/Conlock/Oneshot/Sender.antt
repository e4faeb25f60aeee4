-- ===== src/Conlock/Oneshot/Sender.antt =====
-- conlock/src/oneshot.rs: `Inner::send` and `Inner::drop_sender`, one shared access at a time.
use forwardr.Base.{ℕ, Bool, if◌then◌else◌}
use forwardr.Conlock.Status.{
  is_closed, is_dropping, is_pending, is_wakeless, is_waiting, try_setup_ready_release,
  try_setup_closed_dropping_release, try_sync_setup_closed_wake, try_sync_setup_closed_acquire,
  try_set_closed_dropping_release, try_set_dropping_release,
}
use forwardr.Conlock.Oneshot.Inner.{
  Outcome, ok, ◌>>=◌, Event, Inner, access, write, read, wake_waker, record_event, dealloc,
  after_cas,
}

-- The next access of the thread that owns the `Sender`, with the locals that are live there:
-- `current` is the copy in `Status`.
pub data SenderPc (A : Type 0) : Type 0 where
  held : SenderPc A  -- no call has been made
  send_load : A → SenderPc A  -- `Status::new` in `send`
  send_write : ℕ → A → SenderPc A
  send_ready : ℕ → SenderPc A  -- `try_setup_ready_release`
  send_reread : SenderPc A  -- the read behind `Err`
  send_acquire : SenderPc A  -- `try_wake_after_ready`: the fence before the waker is read
  send_wake : SenderPc A
  send_wake_all : SenderPc A  -- the futex wake
  drop_load : SenderPc A  -- `Status::new` in `drop_sender`
  drop_acquire : SenderPc A
  drop_dealloc : SenderPc A
  drop_set_dropping : ℕ → SenderPc A
  drop_close_dropping : ℕ → SenderPc A
  drop_close_acquire : ℕ → SenderPc A
  drop_wake : ℕ → SenderPc A
  drop_close_wake : ℕ → SenderPc A
  drop_wake_all : ℕ → SenderPc A
  drop_set_closed : ℕ → SenderPc A
  gone : SenderPc A  -- `drop_sender` has returned

module _ {A : Type 0} where
  -- `try_wake_after_ready`, up to its first access; `send` then returns, and drops the sender.
  unfoldable pub wake_after_ready : ℕ → SenderPc A
  wake_after_ready current =
      if is_pending current
      then if is_wakeless current then drop_load else send_acquire
      else if is_waiting current
      then send_wake_all
      else drop_load

  -- The head of the loop in `drop_sender`, up to the access that follows.
  unfoldable pub drop_sender_head : ℕ → SenderPc A
  drop_sender_head current =
      if is_closed current
      then if is_dropping current then drop_acquire else drop_set_dropping current
      else if is_pending current
      then if is_wakeless current then drop_close_dropping current else drop_close_acquire current
      else if is_waiting current
      then drop_close_wake current
      else drop_set_closed current

module _ {A W : Type 0} where
  -- One access. `spurious` decides whether a weak exchange fails without a reason.
  unfoldable pub sender_step : Bool → Inner A W → SenderPc A → Outcome (Inner A W × SenderPc A)
  unfolding wake_after_ready drop_sender_head try_setup_ready_release
      try_setup_closed_dropping_release try_sync_setup_closed_wake try_sync_setup_closed_acquire
      try_set_closed_dropping_release try_set_dropping_release
  sender_step sp m held = ok (m, held)
  sender_step sp m (send_load v) = access m (
      if is_closed m.state
      then ok (record_event (Event.rejected v) m, drop_load)
      else ok (m, send_write m.state v))
  sender_step sp m (send_write c v) = access m (write v m >>= λ m'. ok (m', send_ready c))
  sender_step sp m (send_ready c) = access m (
      let r = try_setup_ready_release sp m.state c in
      after_cas (if r.done then record_event Event.sent m else m) r wake_after_ready
        (λ c'. if is_closed c' then send_reread else send_ready c'))
  sender_step sp m send_reread =
      access m (read m >>= λ (v, m'). ok (record_event (Event.rejected v) m', drop_load))
  sender_step sp m send_acquire = access m (ok (m, send_wake))
  sender_step sp m send_wake = access m (wake_waker m >>= λ m'. ok (m', drop_load))
  sender_step sp m send_wake_all = access m (ok (m, drop_load))
  sender_step sp m drop_load = access m (ok (m, drop_sender_head m.state))
  sender_step sp m drop_acquire = access m (ok (m, drop_dealloc))
  sender_step sp m drop_dealloc = access m (dealloc m >>= λ m'. ok (m', gone))
  sender_step sp m (drop_set_dropping c) =
      access m (after_cas m (try_set_dropping_release sp m.state c) (λ _. gone) drop_sender_head)
  sender_step sp m (drop_close_dropping c) =
      access m
        (after_cas m (try_setup_closed_dropping_release sp m.state c) (λ _. gone) drop_sender_head)
  sender_step sp m (drop_close_acquire c) =
      access m (after_cas m (try_sync_setup_closed_acquire sp m.state c) drop_wake drop_sender_head)
  sender_step sp m (drop_wake c) = access m (wake_waker m >>= λ m'. ok (m', drop_set_dropping c))
  sender_step sp m (drop_close_wake c) =
      access m
        (after_cas m (try_sync_setup_closed_wake sp m.state c) drop_wake_all drop_sender_head)
  sender_step sp m (drop_wake_all c) = access m (ok (m, drop_set_dropping c))
  sender_step sp m (drop_set_closed c) =
      access m
        (after_cas m (try_set_closed_dropping_release sp m.state c) (λ _. gone) drop_sender_head)
  sender_step sp m gone = ok (m, gone)
