-- ===== src/Conlock/Oneshot/System.antt =====
-- A channel with the thread that owns its sender and those that share its receiver, interleaved in
-- any order. Rust's borrow rules show as the conditions under which a call may begin: `recv` shares
-- the receiver; `poll` and its drop want it alone.
use forwardr.Base.{
  ℕ, zero, suc, Bool, true, false, if◌then◌else◌, ◌&&◌, none, some, List, [], ◌∷◌, map, get_elem?,
  set,
}
use forwardr.Conlock.Oneshot.Inner.{Outcome, ok, ◌>>=◌, Event, Inner, new, record_event}
use forwardr.Conlock.Oneshot.Sender.{
  SenderPc, held, send_load, send_wake_all, drop_load, drop_wake_all, sender_step,
}
use forwardr.Conlock.Oneshot.Recv.{RecvPc, idle, load, returned, woken, recv_step}
use forwardr.Conlock.Oneshot.Receiver.{ReceiverPc, free, poll_load, poll_returned, receiver_step}

pub record System (A W : Type 0) : Type 0 where
  pub mem : Inner A W
  pub sender : SenderPc A
  pub receiver : ReceiverPc A W
  pub recvs : List (RecvPc A)

-- What a scheduler, or the program that owns the endpoints, may do next.
pub data Action (A W : Type 0) : Type 0 where
  call_send : A → Action A W
  call_drop_sender : Action A W
  run_sender : Bool → Action A W
  call_recv : ℕ → Action A W
  run_recv : ℕ → Bool → Action A W
  wake_recv : ℕ → Action A W  -- a sleeper wakes for no reason
  end_recv : ℕ → Action A W
  call_poll : W → Action A W
  run_receiver : Bool → Action A W
  end_poll : Action A W
  call_drop_receiver : Action A W

module _ {A : Type 0} where
  abbrev pub idle_threads : ℕ → List (RecvPc A)
  idle_threads zero = []
  idle_threads (suc n) = idle ∷ idle_threads n

  -- The accesses that wake every sleeper.
  abbrev pub wakes_all : SenderPc A → Bool
  wakes_all send_wake_all = true
  wakes_all (drop_wake_all _) = true
  wakes_all _ = false

  abbrev pub is_idle : RecvPc A → Bool
  is_idle idle = true
  is_idle _ = false

  abbrev pub all_idle : List (RecvPc A) → Bool
  all_idle [] = true
  all_idle (p ∷ ps) = is_idle p && all_idle ps

  -- `recv` is called, and what it returned is collected.
  abbrev pub begin : RecvPc A → RecvPc A
  begin idle = load
  begin p = p

  abbrev pub finish : RecvPc A → RecvPc A
  finish (returned _) = idle
  finish p = p

module _ {A W : Type 0} where
  -- `channel`, with `n` threads that may call `recv`.
  abbrev pub channel : ℕ → System A W
  channel n = record { mem = new; sender = held; receiver = free; recvs = idle_threads n }

  unfoldable pub begin_send : A → System A W → System A W
  begin_send v s = elim s.sender [
    | held ↦ record s { mem = record_event (Event.called v) s.mem; sender = send_load v }
    | _ ↦ s
  ]

  unfoldable pub begin_drop_sender : System A W → System A W
  begin_drop_sender s = elim s.sender [ held ↦ record s { sender = drop_load } | _ ↦ s ]

  move_sender : Bool → System A W → Outcome (System A W)
  unfolding sender_step
  move_sender sp s = sender_step sp s.mem s.sender >>= λ (m, p). ok (record s {
    mem = m;
    sender = p;
    recvs = if wakes_all s.sender then map woken s.recvs else s.recvs;
  })

  -- What becomes of one sharing thread.
  abbrev pub update_recv : ℕ → (RecvPc A → RecvPc A) → System A W → System A W
  update_recv i f s = elim (get_elem? s.recvs i) [
    | none ↦ s
    | some p ↦ record s { recvs = set s.recvs i (f p) }
  ]

  unfoldable pub begin_recv : ℕ → System A W → System A W
  begin_recv i s = elim s.receiver [ free ↦ update_recv i begin s | _ ↦ s ]

  move_recv : ℕ → Bool → System A W → Outcome (System A W)
  unfolding recv_step
  move_recv i sp s = elim (get_elem? s.recvs i) [
    | none ↦ ok s
    | some p ↦
        recv_step sp s.mem p >>= λ (m, p'). ok (record s { mem = m; recvs = set s.recvs i p' })
  ]

  -- `poll` and `drop` begin where no other call is in flight.
  unfoldable pub begin_alone : ReceiverPc A W → System A W → System A W
  begin_alone p s = elim s.receiver [
    | free ↦ if all_idle s.recvs then record s { receiver = p } else s
    | _ ↦ s
  ]

  unfoldable pub finish_poll : System A W → System A W
  finish_poll s = elim s.receiver [ poll_returned _ ↦ record s { receiver = free } | _ ↦ s ]

module _ {A W : Type 0} (will_wake : W → W → Bool) where
  move_receiver : Bool → System A W → Outcome (System A W)
  unfolding receiver_step
  move_receiver sp s = receiver_step will_wake sp s.mem s.receiver >>= λ (m, p).
      ok (record s { mem = m; receiver = p })

  -- An action that is not possible where it stands changes nothing.
  unfoldable pub act : Action A W → System A W → Outcome (System A W)
  unfolding begin_send begin_drop_sender move_sender begin_recv move_recv begin_alone finish_poll
      move_receiver
  act (call_send v) s = ok (begin_send v s)
  act call_drop_sender s = ok (begin_drop_sender s)
  act (run_sender sp) s = move_sender sp s
  act (call_recv i) s = ok (begin_recv i s)
  act (run_recv i sp) s = move_recv i sp s
  act (wake_recv i) s = ok (update_recv i woken s)
  act (end_recv i) s = ok (update_recv i finish s)
  act (call_poll cx) s = ok (begin_alone (poll_load cx) s)
  act (run_receiver sp) s = move_receiver sp s
  act end_poll s = ok (finish_poll s)
  act call_drop_receiver s = ok (begin_alone ReceiverPc.drop_load s)

  -- A history, from its first action on.
  unfoldable pub run : List (Action A W) → System A W → Outcome (System A W)
  unfolding act
  run [] s = ok s
  run (a ∷ as_) s = act a s >>= run as_
