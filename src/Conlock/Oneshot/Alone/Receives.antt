-- ===== src/Conlock/Oneshot/Alone/Receives.antt =====
-- How far a call on the receiver is from its end, in accesses, while no other thread moves.
use forwardr.Base.{ℕ, ◌+◌, ◌-◌, ◌≤◌, ◌≡◌, Bool, true, false, ◌==◌, if◌then◌else◌, arith}
use forwardr.Conlock.Status.{is_ready, is_closed, is_waiting, is_pending, is_dropping, is_dataless}
use forwardr.Conlock.Oneshot.Inner.{Inner}
use forwardr.Conlock.Oneshot.Recv.{RecvPc, recv_step}
use forwardr.Conlock.Oneshot.Receiver.{ReceiverPc, receiver_step}
use forwardr.Conlock.Oneshot.System.{is_idle}
use forwardr.Conlock.Oneshot.Invariant.Defs.{known, RecvOk, ReceiverOk, is_active, receiver_view}
use forwardr.Conlock.Oneshot.Ledger.{Allows}
use forwardr.Conlock.Oneshot.Alone.Sends.{exchange_left}

-- From the heads of the loops, on the word as it is.
abbrev recv_head_left : ℕ → ℕ
recv_head_left w =
    if is_ready w
    then 2
    else if is_closed w
    then 0
    else if is_waiting w
    then if is_pending w then 5 else 1
    else if is_dataless w
    then 0
    else 2

abbrev poll_head_left : ℕ → ℕ
poll_head_left w =
    if is_ready w
    then 2
    else if is_closed w
    then 0
    else if is_waiting w
    then 3
    else if is_dataless w
    then 0
    else 3

abbrev drop_head_left : ℕ → ℕ
drop_head_left w =
    if is_ready w
    then 4
    else if is_closed w
    then if is_dropping w then 2 else 1
    else if is_pending w
    then 3
    else 1

-- Behind the test for a message, on a copy.
abbrev drop_rest_left : ℕ → ℕ → ℕ
drop_rest_left w c =
    if is_closed c
    then if is_dropping c then 2 else exchange_left w c 1 (drop_head_left w)
    else if is_pending c
    then exchange_left w c 3 (drop_head_left w)
    else exchange_left w c 1 (drop_head_left w)

module _ {A : Type 0} where
  abbrev pub recv_left : ℕ → RecvPc A → ℕ
  recv_left w RecvPc.idle = 0
  recv_left w RecvPc.load = 1 + recv_head_left w
  recv_left w (RecvPc.take c) = exchange_left w c 2 (recv_head_left w)
  recv_left w RecvPc.take_data = 1
  recv_left w (RecvPc.unset_pending c) = exchange_left w c 5 (recv_head_left w)
  recv_left w (RecvPc.clear_waker c) = 1 + (if w == c then 1 else 2 + recv_head_left w)
  recv_left w (RecvPc.set_waiting c) = exchange_left w c 2 (recv_head_left w)
  recv_left w (RecvPc.wait c) = if w == c then 1 else 2 + recv_head_left w
  recv_left w RecvPc.parked = 0
  recv_left w RecvPc.reload = 1 + recv_head_left w
  recv_left w (RecvPc.returned _) = 0

module _ {A W : Type 0} where
  abbrev pub receiver_left : ℕ → ReceiverPc A W → ℕ
  receiver_left w (ReceiverPc.poll_load _) = 1 + poll_head_left w
  receiver_left w (ReceiverPc.poll_take c _) = exchange_left w c 2 (poll_head_left w)
  receiver_left w ReceiverPc.poll_read = 1
  receiver_left w (ReceiverPc.poll_wakeless c _) = exchange_left w c 3 (poll_head_left w)
  receiver_left w (ReceiverPc.poll_update c _) = if w == c then 2 else 7
  receiver_left w (ReceiverPc.poll_register c _) = exchange_left w c 3 (poll_head_left w)
  receiver_left w (ReceiverPc.poll_write c _) = if w == c then 2 else 7
  receiver_left w (ReceiverPc.poll_unset c _) = if w == c then 1 else 6
  receiver_left w (ReceiverPc.poll_clear_waker c _) = 5
  receiver_left w ReceiverPc.drop_load = 1 + drop_head_left w
  receiver_left w (ReceiverPc.drop_clean c) = exchange_left w c 4 (drop_head_left w)
  receiver_left w (ReceiverPc.drop_read c) = 1 + drop_rest_left w c
  receiver_left w ReceiverPc.drop_acquire = 2
  receiver_left w ReceiverPc.drop_dealloc = 1
  receiver_left w (ReceiverPc.drop_set_dropping c) = exchange_left w c 1 (drop_head_left w)
  receiver_left w (ReceiverPc.drop_close_acquire c) = exchange_left w c 3 (drop_head_left w)
  receiver_left w (ReceiverPc.drop_clear_waker c) = 1 + exchange_left w c 1 (drop_head_left w)
  receiver_left w (ReceiverPc.drop_set_closed c) = exchange_left w c 1 (drop_head_left w)
  receiver_left w _ = 0

  -- What the call is: none, a poll, or the drop.
  abbrev pub call_kind : ReceiverPc A W → ℕ
  call_kind ReceiverPc.free = 0
  call_kind (ReceiverPc.poll_load _) = 1
  call_kind (ReceiverPc.poll_take _ _) = 1
  call_kind ReceiverPc.poll_read = 1
  call_kind (ReceiverPc.poll_wakeless _ _) = 1
  call_kind (ReceiverPc.poll_update _ _) = 1
  call_kind (ReceiverPc.poll_register _ _) = 1
  call_kind (ReceiverPc.poll_write _ _) = 1
  call_kind (ReceiverPc.poll_unset _ _) = 1
  call_kind (ReceiverPc.poll_clear_waker _ _) = 1
  call_kind (ReceiverPc.poll_returned _) = 1
  call_kind _ = 2

  abbrev pub RecvNearer : ℕ → RecvPc A → Inner A W × RecvPc A → Type 0
  RecvNearer w p q = (recv_left q.0.state q.1 ≤ recv_left w p - 1) × (is_idle q.1 ≡ is_idle p)

  pub recv_step-nearer :
      (m : Inner A W) (p : RecvPc A)
      → known m.state ≡ true
      → RecvOk m.state p
      → (m.state ≡ 28 → is_active p ≡ 0)
      → Allows (RecvNearer m.state p) (recv_step false m p)
  unfolding recv_step
  recv_step-nearer m RecvPc.idle kn k h = ground arith
  recv_step-nearer m p kn k h = ground arith

  abbrev pub ReceiverNearer : ℕ → ReceiverPc A W → Inner A W × ReceiverPc A W → Type 0
  ReceiverNearer w p q =
      (receiver_left q.0.state q.1 ≤ receiver_left w p - 1) × (call_kind q.1 ≡ call_kind p)

  pub receiver_step-nearer :
      (ww : W → W → Bool) (m : Inner A W) (p : ReceiverPc A W)
      → known m.state ≡ true
      → ReceiverOk m p
      → (m.state ≡ 4 → (receiver_view p).busy ≡ 0)
      → (m.state ≡ 28 → (receiver_view p).polling ≡ 1)
      → Allows (ReceiverNearer m.state p) (receiver_step ww false m p)
  unfolding receiver_step
  receiver_step-nearer ww m ReceiverPc.free kn k h g = ground arith
  receiver_step-nearer ww m p kn k h g = ground arith
