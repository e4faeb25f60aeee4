-- ===== src/Conlock/Oneshot/Receiver.antt =====
-- conlock/src/oneshot.rs: `Inner::poll_recv` and `Inner::drop_receiver`, which want the `Receiver`
-- to themselves.
use forwardr.Base.{ℕ, Bool, not, if◌then◌else◌, Option, none, some}
use forwardr.Conlock.Status.{
  is_ready, is_closed, is_waiting, is_pending, is_dataless, is_dropping, try_setup_dataless_acquire,
  try_sync_set_wakeless_acquire, unset_wakeless_release, try_sync_set_waiting_pending_wakeless,
  try_sync_unset_ready_acquire, try_sync_setup_closed_acquire, try_set_dropping_release,
  try_set_closed_dropping_release,
}
use forwardr.Conlock.Oneshot.Inner.{
  Outcome, ok, ◌>>=◌, Event, Inner, access, read, write_waker, read_waker, drop_waker, record_event,
  dealloc, after_cas,
}

-- `Poll`, from the standard library.
pub data Poll (X : Type 0) : Type 0 where
  ready : X → Poll X
  pending : Poll X

-- `cx.waker()` is the `W` that the calls carry.
pub data ReceiverPc (A W : Type 0) : Type 0 where
  free : ReceiverPc A W  -- no exclusive call in flight
  poll_load : W → ReceiverPc A W
  poll_take : ℕ → W → ReceiverPc A W
  poll_read : ReceiverPc A W
  poll_wakeless : ℕ → W → ReceiverPc A W  -- `try_sync_set_wakeless_acquire`
  poll_update : ℕ → W → ReceiverPc A W
  poll_register : ℕ → W → ReceiverPc A W  -- `try_sync_set_waiting_pending_wakeless`
  poll_write : ℕ → W → ReceiverPc A W
  poll_unset : ℕ → W → ReceiverPc A W  -- `unset_wakeless_release`
  poll_clear_waker : ℕ → W → ReceiverPc A W
  poll_returned : Poll (Option A) → ReceiverPc A W
  drop_load : ReceiverPc A W  -- `Status::new` in `drop_receiver`
  drop_clean : ℕ → ReceiverPc A W  -- `try_sync_unset_ready_acquire`
  drop_read : ℕ → ReceiverPc A W
  drop_acquire : ReceiverPc A W
  drop_dealloc : ReceiverPc A W
  drop_set_dropping : ℕ → ReceiverPc A W
  drop_close_acquire : ℕ → ReceiverPc A W
  drop_clear_waker : ℕ → ReceiverPc A W
  drop_set_closed : ℕ → ReceiverPc A W
  gone : ReceiverPc A W  -- `drop_receiver` has returned

module _ {A W : Type 0} where
  -- The head of the loop in `poll_recv`, up to the access that follows.
  unfoldable pub poll_head : ℕ → W → ReceiverPc A W
  poll_head current cx =
      if is_ready current
      then poll_take current cx
      else if is_closed current
      then poll_returned (Poll.ready none)
      else if is_waiting current
      then poll_wakeless current cx
      else if is_dataless current
      then poll_returned (Poll.ready none)
      else poll_register current cx

  -- `drop_receiver` behind its test for a message.
  unfoldable pub drop_receiver_rest : ℕ → ReceiverPc A W
  drop_receiver_rest current =
      if is_closed current
      then if is_dropping current then drop_acquire else drop_set_dropping current
      else if is_pending current
      then drop_close_acquire current
      else drop_set_closed current

  -- The head of the loop in `drop_receiver`.
  unfoldable pub drop_receiver_head : ℕ → ReceiverPc A W
  unfolding drop_receiver_rest
  drop_receiver_head current =
      if is_ready current then drop_clean current else drop_receiver_rest current

module _ {A W : Type 0} (will_wake : W → W → Bool) where
  -- The stored waker is replaced, and dropped, unless it wakes the same task.
  abbrev update_waker : W → Inner A W → Outcome (Inner A W)
  update_waker cx m = read_waker m >>= λ (w, m').
      if not (will_wake w cx)
      then ok (record_event (Event.dropped w) (record m' { waker = some cx }))
      else ok (record m' { waker = some w })

  unfoldable pub receiver_step :
      Bool → Inner A W → ReceiverPc A W → Outcome (Inner A W × ReceiverPc A W)
  unfolding poll_head drop_receiver_head try_setup_dataless_acquire try_sync_set_wakeless_acquire
      unset_wakeless_release try_sync_set_waiting_pending_wakeless try_sync_unset_ready_acquire
      try_sync_setup_closed_acquire try_set_dropping_release try_set_closed_dropping_release
  receiver_step sp m free = ok (m, free)
  receiver_step sp m (poll_load cx) = access m (ok (m, poll_head m.state cx))
  receiver_step sp m (poll_take c cx) = access m (
      after_cas m (try_setup_dataless_acquire sp m.state c) (λ _. poll_read)
        (λ c'. poll_head c' cx))
  receiver_step sp m poll_read = access m (
      read m >>= λ (v, m').
      ok (record_event (Event.delivered v) m', poll_returned (Poll.ready (some v))))
  receiver_step sp m (poll_wakeless c cx) = access m (
      after_cas m (try_sync_set_wakeless_acquire sp m.state c) (λ c'. poll_update c' cx)
        (λ c'. poll_head c' cx))
  receiver_step sp m (poll_update c cx) =
      access m (update_waker cx m >>= λ m'. ok (m', poll_unset c cx))
  receiver_step sp m (poll_register c cx) = access m (
      after_cas m (try_sync_set_waiting_pending_wakeless sp m.state c) (λ c'. poll_write c' cx)
        (λ c'. poll_head c' cx))
  receiver_step sp m (poll_write c cx) =
      access m (write_waker cx m >>= λ m'. ok (m', poll_unset c cx))
  receiver_step sp m (poll_unset c cx) = access m (
      after_cas m (unset_wakeless_release m.state c) (λ _. poll_returned Poll.pending)
        (λ c'. poll_clear_waker c' cx))
  receiver_step sp m (poll_clear_waker c cx) =
      access m (drop_waker m >>= λ m'. ok (m', poll_head c cx))
  receiver_step sp m (poll_returned r) = ok (m, poll_returned r)
  receiver_step sp m drop_load = access m (ok (m, drop_receiver_head m.state))
  receiver_step sp m (drop_clean c) =
      access m
        (after_cas m (try_sync_unset_ready_acquire sp m.state c) drop_read drop_receiver_head)
  receiver_step sp m (drop_read c) =
      access m
        (read m >>= λ (v, m'). ok (record_event (Event.discarded v) m', drop_receiver_rest c))
  receiver_step sp m drop_acquire = access m (ok (m, drop_dealloc))
  receiver_step sp m drop_dealloc = access m (dealloc m >>= λ m'. ok (m', gone))
  receiver_step sp m (drop_set_dropping c) =
      access m (after_cas m (try_set_dropping_release sp m.state c) (λ _. gone) drop_receiver_head)
  receiver_step sp m (drop_close_acquire c) =
      access m (
        after_cas m (try_sync_setup_closed_acquire sp m.state c) drop_clear_waker
          drop_receiver_head)
  receiver_step sp m (drop_clear_waker c) =
      access m (drop_waker m >>= λ m'. ok (m', drop_set_dropping c))
  receiver_step sp m (drop_set_closed c) =
      access m
        (after_cas m (try_set_closed_dropping_release sp m.state c) (λ _. gone) drop_receiver_head)
  receiver_step sp m gone = ok (m, gone)
