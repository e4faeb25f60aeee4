-- ===== src/Conlock/Oneshot/Orderings/Access.antt =====
-- conlock/src/oneshot.rs: the memory ordering of each atomic access to a channel's word, and the cells
-- that the accesses between them touch.
use forwardr.Base.{ℕ, Bool}
use forwardr.Conlock.Status.{
  try_setup_ready_release, try_setup_dataless_acquire, try_sync_unset_ready_acquire,
  try_setup_closed_dropping_release, try_sync_setup_closed_wake, try_sync_setup_closed_acquire,
  try_set_closed_dropping_release, try_set_dropping_release, try_set_waiting,
  try_sync_set_waiting_pending_wakeless, try_unset_pending_acquire, try_sync_set_wakeless_acquire,
  unset_wakeless_release,
}
use forwardr.Conlock.Oneshot.Sender.{SenderPc}
use forwardr.Conlock.Oneshot.Recv.{RecvPc}
use forwardr.Conlock.Oneshot.Receiver.{ReceiverPc}

-- `Ordering`, from the standard library, as far as the channel uses it.
pub data Order : Type 0 where
  relaxed acquire release : Order

-- The exchanges of `Status`, by their names there.
pub data Exchange : Type 0 where
  setup_ready setup_dataless unset_ready setup_closed_dropping setup_closed_wake setup_closed :
      Exchange
  set_closed_dropping set_dropping set_waiting set_waiting_pending_wakeless : Exchange
  unset_pending set_wakeless unset_wakeless : Exchange

-- The ordering of an exchange that succeeds. One that fails is a relaxed load.
abbrev pub success_order : Exchange → Order
success_order setup_ready = release
success_order setup_dataless = acquire
success_order unset_ready = acquire
success_order setup_closed_dropping = release
success_order setup_closed_wake = relaxed
success_order setup_closed = acquire
success_order set_closed_dropping = release
success_order set_dropping = release
success_order set_waiting = relaxed
success_order set_waiting_pending_wakeless = relaxed
success_order unset_pending = acquire
success_order set_wakeless = acquire
success_order unset_wakeless = release

-- `Status::new`, and `Status::acquire`.
abbrev pub new_order : Order
new_order = relaxed

abbrev pub fence_order : Order
fence_order = acquire

-- What an access may conflict on: the data and waker cells, and the memory itself, which an endpoint
-- uses by being in it and the other one by freeing it.
pub data Cell : Type 0 where
  data_cell waker_cell memory : Cell

pub data Access : Type 0 where
  silent : Access  -- a local step, or the futex
  load : Order → Access
  exchange : Exchange → Bool → Access  -- and whether it succeeds
  leave : Exchange → Bool → Access  -- its success is the last access of the endpoint
  touch : Cell → Access
  free : Access

-- What the threads do next, in the word `w`.
module _ {A : Type 0} (spurious : Bool) (w : ℕ) where
  abbrev pub sender_access : SenderPc A → Access
  sender_access (SenderPc.send_load _) = load new_order
  sender_access (SenderPc.send_write _ _) = touch data_cell
  sender_access (SenderPc.send_ready c) =
      exchange setup_ready (try_setup_ready_release spurious w c).done
  sender_access SenderPc.send_reread = touch data_cell
  sender_access SenderPc.send_acquire = load fence_order
  sender_access SenderPc.send_wake = touch waker_cell
  sender_access SenderPc.drop_load = load new_order
  sender_access SenderPc.drop_acquire = load fence_order
  sender_access SenderPc.drop_dealloc = free
  sender_access (SenderPc.drop_set_dropping c) =
      leave set_dropping (try_set_dropping_release spurious w c).done
  sender_access (SenderPc.drop_close_dropping c) =
      leave setup_closed_dropping (try_setup_closed_dropping_release spurious w c).done
  sender_access (SenderPc.drop_close_acquire c) =
      exchange setup_closed (try_sync_setup_closed_acquire spurious w c).done
  sender_access (SenderPc.drop_wake _) = touch waker_cell
  sender_access (SenderPc.drop_close_wake c) =
      exchange setup_closed_wake (try_sync_setup_closed_wake spurious w c).done
  sender_access (SenderPc.drop_set_closed c) =
      leave set_closed_dropping (try_set_closed_dropping_release spurious w c).done
  sender_access _ = silent

  abbrev pub recv_access : RecvPc A → Access
  recv_access RecvPc.load = load new_order
  recv_access (RecvPc.take c) =
      exchange setup_dataless (try_setup_dataless_acquire spurious w c).done
  recv_access RecvPc.take_data = touch data_cell
  recv_access (RecvPc.unset_pending c) =
      exchange unset_pending (try_unset_pending_acquire spurious w c).done
  recv_access (RecvPc.clear_waker _) = touch waker_cell
  recv_access (RecvPc.set_waiting c) = exchange set_waiting (try_set_waiting spurious w c).done
  recv_access RecvPc.reload = load new_order
  recv_access _ = silent

module _ {A W : Type 0} (spurious : Bool) (w : ℕ) where
  abbrev pub receiver_access : ReceiverPc A W → Access
  receiver_access (ReceiverPc.poll_load _) = load new_order
  receiver_access (ReceiverPc.poll_take c _) =
      exchange setup_dataless (try_setup_dataless_acquire spurious w c).done
  receiver_access ReceiverPc.poll_read = touch data_cell
  receiver_access (ReceiverPc.poll_wakeless c _) =
      exchange set_wakeless (try_sync_set_wakeless_acquire spurious w c).done
  receiver_access (ReceiverPc.poll_update _ _) = touch waker_cell
  receiver_access (ReceiverPc.poll_register c _) =
      exchange set_waiting_pending_wakeless
        (try_sync_set_waiting_pending_wakeless spurious w c).done
  receiver_access (ReceiverPc.poll_write _ _) = touch waker_cell
  receiver_access (ReceiverPc.poll_unset c _) =
      exchange unset_wakeless (unset_wakeless_release w c).done
  receiver_access (ReceiverPc.poll_clear_waker _ _) = touch waker_cell
  receiver_access ReceiverPc.drop_load = load new_order
  receiver_access (ReceiverPc.drop_clean c) =
      exchange unset_ready (try_sync_unset_ready_acquire spurious w c).done
  receiver_access (ReceiverPc.drop_read _) = touch data_cell
  receiver_access ReceiverPc.drop_acquire = load fence_order
  receiver_access ReceiverPc.drop_dealloc = free
  receiver_access (ReceiverPc.drop_set_dropping c) =
      leave set_dropping (try_set_dropping_release spurious w c).done
  receiver_access (ReceiverPc.drop_close_acquire c) =
      exchange setup_closed (try_sync_setup_closed_acquire spurious w c).done
  receiver_access (ReceiverPc.drop_clear_waker _) = touch waker_cell
  receiver_access (ReceiverPc.drop_set_closed c) =
      leave set_closed_dropping (try_set_closed_dropping_release spurious w c).done
  receiver_access _ = silent
