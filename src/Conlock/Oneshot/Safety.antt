-- ===== src/Conlock/Oneshot/Safety.antt =====
-- What the invariant says about every history of a channel.
use forwardr.Base.{ℕ, ◌+◌, ◌-◌, ◌≤◌, ◌≡◌, Bool, true, List, total, arith}
use forwardr.Conlock.Oneshot.Inner.{Inner, ok}
use forwardr.Conlock.Oneshot.Sender
use forwardr.Conlock.Oneshot.Sender.{SenderPc}
use forwardr.Conlock.Oneshot.Receiver
use forwardr.Conlock.Oneshot.Receiver.{ReceiverPc}
use forwardr.Conlock.Oneshot.System.{System, Action, channel, run}
use forwardr.Conlock.Oneshot.Invariant.Defs.{
  Owned, known, is_parked, has_message, has_waker, recv-RecvBounds, receiver-ReceiverBounds,
  sender_view, receiver_view,
}
use forwardr.Conlock.Oneshot.Invariant.Steps.{Inv}
use forwardr.Conlock.Oneshot.Invariant.Start.{Reachable, Reachable-Inv, run-ok}
use forwardr.Conlock.Oneshot.Invariant.Defs.{
  SenderOk, ReceiverOk, filled, owns, has, MemView, SenderView, RecvView, ReceiverView, RecvBounds,
  ReceiverBounds,
}

module _ {A : Type 0} where
  -- Whose next access is to the data cell, or to the waker cell; freeing the box is apart.
  abbrev pub sender_uses_slot : SenderPc A → ℕ
  sender_uses_slot (SenderPc.send_write _ _) = 1
  sender_uses_slot SenderPc.send_reread = 1
  sender_uses_slot _ = 0

  abbrev pub sender_uses_waker : SenderPc A → ℕ
  sender_uses_waker SenderPc.send_wake = 1
  sender_uses_waker (SenderPc.drop_wake _) = 1
  sender_uses_waker _ = 0

module _ {A W : Type 0} where
  abbrev pub receiver_uses_slot : ReceiverPc A W → ℕ
  receiver_uses_slot ReceiverPc.poll_read = 1
  receiver_uses_slot (ReceiverPc.drop_read _) = 1
  receiver_uses_slot _ = 0

  abbrev pub receiver_uses_waker : ReceiverPc A W → ℕ
  receiver_uses_waker (ReceiverPc.poll_update _ _) = 1
  receiver_uses_waker (ReceiverPc.poll_write _ _) = 1
  receiver_uses_waker (ReceiverPc.poll_clear_waker _ _) = 1
  receiver_uses_waker (ReceiverPc.drop_clear_waker _) = 1
  receiver_uses_waker _ = 0

  abbrev pub slot_users : System A W → ℕ
  slot_users s =
      sender_uses_slot s.sender + total has_message s.recvs + receiver_uses_slot s.receiver

  abbrev pub waker_users : System A W → ℕ
  waker_users s =
      sender_uses_waker s.sender + total has_waker s.recvs + receiver_uses_waker s.receiver

-- Each endpoint's use of a cell is backed by ownership, or by the cell being empty.
sender_slot_owned :
    {A W : Type 0} (m : Inner A W) (p : SenderPc A)
    → SenderOk m p
    → sender_uses_slot p ≤ (sender_view p).message + (1 - filled m.slot)
sender_slot_owned m p k = ground arith

sender_waker_owned : {A : Type 0} (p : SenderPc A) → sender_uses_waker p ≤ (sender_view p).waker
sender_waker_owned p = ground arith

receiver_slot_owned :
    {A W : Type 0} (p : ReceiverPc A W) → receiver_uses_slot p ≤ (receiver_view p).message
receiver_slot_owned p = ground arith

receiver_waker_owned :
    {A W : Type 0} (m : Inner A W) (p : ReceiverPc A W)
    → ReceiverOk m p
    → receiver_uses_waker p ≤ (receiver_view p).waker + (1 - filled m.waker)
receiver_waker_owned m p k = ground arith

module _ {m : MemView} {p : SenderView} {r : RecvView} {e : ReceiverView} (o : Owned m p r e) where
  gone_none_parked : p ≡ owns 0 0 0 1 → RecvBounds r → ReceiverBounds e → r.parked ≡ 0
  gone_none_parked g b c = ground arith

  gone_freed :
      p ≡ owns 0 0 0 1
      → e ≡ has 0 0 1 0 1 1
      → RecvBounds r
      → (m.freed ≡ true) × (m.message ≡ 0) × (m.waker ≡ 0)
  gone_freed g f b = ground arith

module _ {A W : Type 0} {s : System A W} (i : Inv s) where
  slot_le_one : slot_users s ≤ 1
  slot_le_one = ground (
    arith,
    i.owned.messages,
    sender_slot_owned s.mem s.sender i.sender_ok,
    receiver_slot_owned s.receiver,
  )

  waker_le_one : waker_users s ≤ 1
  waker_le_one = ground (
    arith,
    i.owned.wakers,
    sender_waker_owned s.sender,
    receiver_waker_owned s.mem s.receiver i.receiver_ok,
  )

  pub none_parked : s.sender ≡ Sender.gone → total is_parked s.recvs ≡ 0
  none_parked e =
      gone_none_parked i.owned (ground arith) (recv-RecvBounds s.recvs)
        (receiver-ReceiverBounds s.receiver)

  freed_at_end :
      s.sender ≡ Sender.gone
      → s.receiver ≡ Receiver.gone
      → (s.mem.freed ≡ true) × (filled s.mem.slot ≡ 0) × (filled s.mem.waker ≡ 0)
  freed_at_end e f = gone_freed i.owned (ground arith) (ground arith) (recv-RecvBounds s.recvs)

module _ {A W : Type 0} (will_wake : W → W → Bool) where
  -- Any number of threads that share the receiver, in any interleaving with the sender, with weak
  -- exchanges that fail at will: no access faults. So nothing is used after it is freed, no
  -- uninitialised cell is read, no message or waker is overwritten, none is left in a freed box.
  pub history_safe :
      (n : ℕ) (h : List (Action A W)) → (s : System A W) × (run will_wake h (channel n) ≡ ok s)
  history_safe n h = run-ok will_wake n h

  module _ {s : System A W} (r : Reachable will_wake s) where
    i : Inv s
    i = Reachable-Inv will_wake r

    -- The status word is always one of the nine rows of the table.
    pub state_known : known s.mem.state ≡ true
    state_known = i.owned.is_known

    -- Of all threads at most one is about to access the data cell, and at most one the waker cell.
    pub cells_exclusive : (slot_users s ≤ 1) × (waker_users s ≤ 1)
    cells_exclusive = (slot_le_one i, waker_le_one i)

    -- Once the sender is gone, no thread sleeps in `recv`.
    pub sender_gone_none_parked : s.sender ≡ Sender.gone → total is_parked s.recvs ≡ 0
    sender_gone_none_parked e = none_parked i e

    -- Once both endpoints are gone, the box has been freed, with its data cell and waker cell empty.
    pub both_gone_freed :
        s.sender ≡ Sender.gone
        → s.receiver ≡ Receiver.gone
        → (s.mem.freed ≡ true) × (filled s.mem.slot ≡ 0) × (filled s.mem.waker ≡ 0)
    both_gone_freed e f = freed_at_end i e f
