-- ===== src/Conlock/Oneshot/Orderings/Facts.antt =====
-- What the invariant of a channel says to the steps of its threads about a cell.
use forwardr.Base.{ℕ, ◌≡◌, ◌≤◌, ◌+◌, ◌⊎◌, true, false, [], ◌∷◌, total, arith}
use forwardr.Conlock.Oneshot.Inner.{Inner}
use forwardr.Conlock.Oneshot.Sender.{SenderPc}
use forwardr.Conlock.Oneshot.Receiver.{ReceiverPc}
use forwardr.Conlock.Oneshot.System.{System}
use forwardr.Conlock.Oneshot.Invariant.Defs.{
  SenderOk, ReceiverOk, ReceiverView, ReceiverBounds, filled, sender_view, receiver_view, recv_view,
  mem_view, one_if, among, is_active, receiver-ReceiverBounds,
}
use forwardr.Conlock.Oneshot.Invariant.Steps.{Inv}
use forwardr.Conlock.Oneshot.Orderings.Access.{Cell, data_cell, waker_cell, memory}
use forwardr.Conlock.Oneshot.Orderings.Flags.{sender_part, receiver_part, receiver_frees, Knows}
use forwardr.Conlock.Oneshot.Orderings.Receiver.{PartOk}

left_part : {A : Type 0} (p : SenderPc A) → (sender_view p).left ≡ 1 → (sender_part p).left ≡ true
left_part p h = ground arith

-- Of the two, the one that frees is the one that has stayed.
other_left : (w : ℕ) {a b : ℕ} → w ≡ 10 → a + b ≡ one_if (among w (10 ∷ 11 ∷ [])) → a ≡ 0 → b ≡ 1
other_left w h d e = ground arith

apart-idle :
    {n : ℕ} (e : ReceiverView)
    → ReceiverBounds e
    → (e.busy ≡ 0) ⊎ (n ≡ 0)
    → 1 ≤ n
    → (e.left ≡ 0) × (e.polling ≡ 0)
apart-idle e b h n = ground arith

module _ {A W : Type 0} where
  pub sender-PartOk :
      (m : Inner A W) (p : SenderPc A)
      → SenderOk m p
      → PartOk m.state (filled m.slot) (sender_part p) (sender_view p)
  sender-PartOk m p h = ground arith

  pub receiver_frees-state :
      (m : Inner A W) (e : ReceiverPc A W)
      → ReceiverOk m e
      → receiver_frees e ≡ true
      → (m.state ≡ 10) × ((receiver_view e).left ≡ 0)
  receiver_frees-state m e h f = ground arith

  sender_frees-state :
      (m : Inner A W) (p : SenderPc A)
      → SenderOk m p
      → (sender_part p).frees ≡ true
      → (m.state ≡ 10) × ((sender_view p).left ≡ 0)
  sender_frees-state m p h f = ground arith

  poller_waker :
      (m : Inner A W) (e : ReceiverPc A W)
      → ReceiverOk m e
      → (receiver_view e).polling ≡ 1
      → ((receiver_view e).waker ≡ 1) ⊎ (filled m.waker ≡ 0)
  poller_waker m e h p = ground arith

  module _ (s : System A W) (i : Inv s) (live : s.mem.freed ≡ false) where
    pub sender_frees-left :
        (sender_part s.sender).frees ≡ true → (receiver_view s.receiver).left ≡ 1
    sender_frees-left f =
        let t = sender_frees-state s.mem s.sender i.sender_ok f in
        other_left s.mem.state t.0 (i.owned.departed live) t.1

    pub receiver_frees-left : receiver_frees s.receiver ≡ true → (sender_part s.sender).left ≡ true
    receiver_frees-left f =
        let t = receiver_frees-state s.mem s.receiver i.receiver_ok f in
        left_part s.sender (other_left s.mem.state t.0 (omega (arith, i.owned.departed live)) t.1)

    pub system-Knows :
        (y : Cell)
        → Knows y
            (mem_view s.mem)
            (sender_view s.sender)
            (recv_view s.recvs)
            (receiver_part s.receiver)
    system-Knows data_cell = i.owned.messages
    system-Knows waker_cell = (
      i.owned.wakers,
      i.owned.no_poller,
      poller_waker s.mem s.receiver i.receiver_ok,
      i.owned.polled,
    )
    system-Knows memory = i.owned.departed live

  -- A thread is in `recv` only while no exclusive call is.
  pub active-apart :
      (s : System A W)
      → Inv s
      → 1 ≤ total is_active s.recvs
      → ((receiver_view s.receiver).left ≡ 0) × ((receiver_view s.receiver).polling ≡ 0)
  active-apart s i h =
      apart-idle (receiver_view s.receiver) (receiver-ReceiverBounds s.receiver) i.owned.apart h
