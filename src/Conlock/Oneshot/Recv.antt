-- ===== src/Conlock/Oneshot/Recv.antt =====
-- conlock/src/oneshot.rs: `Inner::recv`, which threads that share the `Receiver` may run at once.
use forwardr.Base.{ℕ, Bool, if◌then◌else◌, ◌==◌, Option, none, some}
use forwardr.Conlock.Status.{
  is_ready, is_closed, is_waiting, is_pending, is_dataless, try_setup_dataless_acquire,
  try_unset_pending_acquire, try_set_waiting,
}
use forwardr.Conlock.Oneshot.Inner.{
  Outcome, ok, ◌>>=◌, Event, Inner, access, read, drop_waker, record_event, after_cas,
}

pub data RecvPc (A : Type 0) : Type 0 where
  idle : RecvPc A  -- no call in flight
  load : RecvPc A  -- `Status::new`
  take : ℕ → RecvPc A  -- `try_setup_dataless_acquire`
  take_data : RecvPc A
  unset_pending : ℕ → RecvPc A
  clear_waker : ℕ → RecvPc A
  set_waiting : ℕ → RecvPc A
  wait : ℕ → RecvPc A  -- `atomic_wait::wait` compares the word with the copy
  parked : RecvPc A  -- asleep on the word
  reload : RecvPc A  -- the load behind the wait
  returned : Option A → RecvPc A

module _ {A : Type 0} where
  -- The head of the loop, up to the access that follows.
  unfoldable pub recv_head : ℕ → RecvPc A
  recv_head current =
      if is_ready current
      then take current
      else if is_closed current
      then returned none
      else if is_waiting current
      then if is_pending current then unset_pending current else wait current
      else if is_dataless current
      then returned none
      else set_waiting current

  -- A sleeper that is woken, by `wake_all` or for no reason.
  abbrev pub woken : RecvPc A → RecvPc A
  woken parked = reload
  woken p = p

module _ {A W : Type 0} where
  -- One access. A sleeper does nothing by itself.
  unfoldable pub recv_step : Bool → Inner A W → RecvPc A → Outcome (Inner A W × RecvPc A)
  unfolding recv_head try_setup_dataless_acquire try_unset_pending_acquire try_set_waiting
  recv_step sp m idle = ok (m, idle)
  recv_step sp m load = access m (ok (m, recv_head m.state))
  recv_step sp m (take c) =
      access m (after_cas m (try_setup_dataless_acquire sp m.state c) (λ _. take_data) recv_head)
  recv_step sp m take_data =
      access m (read m >>= λ (v, m'). ok (record_event (Event.delivered v) m', returned (some v)))
  recv_step sp m (unset_pending c) =
      access m (after_cas m (try_unset_pending_acquire sp m.state c) clear_waker recv_head)
  recv_step sp m (clear_waker c) = access m (drop_waker m >>= λ m'. ok (m', wait c))
  recv_step sp m (set_waiting c) =
      access m (after_cas m (try_set_waiting sp m.state c) wait recv_head)
  recv_step sp m (wait c) = access m (ok (m, if m.state == c then parked else reload))
  recv_step sp m parked = ok (m, parked)
  recv_step sp m reload = access m (ok (m, recv_head m.state))
  recv_step sp m (returned r) = ok (m, returned r)
