-- ===== src/Conlock/Oneshot/Invariant/Defs.antt =====
-- The invariant of a channel: who owns the message, the waker and the memory.
use forwardr.Base.{
  ℕ, ◌+◌, ◌≤◌, ◌≡◌, ◌≢◌, ◌⊎◌, Bool, true, false, ◌||◌, ◌==◌, Option, none, some, List, [], ◌∷◌,
  total,
}
use forwardr.Conlock.Status.{
  is_ready, is_closed, is_waiting, is_pending, is_dataless, is_dropping, is_wakeless,
}
use forwardr.Conlock.Oneshot.Inner.{Inner, Outcome, ok, fault}
use forwardr.Conlock.Oneshot.Sender.{SenderPc}
use forwardr.Conlock.Oneshot.Recv.{RecvPc}
use forwardr.Conlock.Oneshot.Receiver.{ReceiverPc}
use native.Mathlib.Omega.{arith}

abbrev pub among : ℕ → List ℕ → Bool
among w [] = false
among w (v ∷ vs) = w == v || among w vs

-- The words of the table in the source.
abbrev pub known : ℕ → Bool
known w = among w (0 ∷ 1 ∷ 2 ∷ 4 ∷ 8 ∷ 10 ∷ 11 ∷ 20 ∷ 28 ∷ [])

-- Not closed, and no message sent or taken; with the closed words, those before `send` succeeds.
abbrev pub open_word : ℕ → Bool
open_word w = among w (0 ∷ 4 ∷ 20 ∷ 28 ∷ [])

abbrev pub unsent : ℕ → Bool
unsent w = among w (0 ∷ 2 ∷ 4 ∷ 10 ∷ 20 ∷ 28 ∷ [])

abbrev pub one_if : Bool → ℕ
one_if true = 1
one_if false = 0

abbrev pub filled : {X : Type 0} → Option X → ℕ
filled none = 0
filled (some _) = 1

-- What an endpoint owns: the message, the waker, and whether it has left.
pub record SenderView : Type 0 where
  pub message : ℕ
  pub waker : ℕ
  pub waking : ℕ  -- is about to wake the sleepers
  pub left : ℕ

abbrev pub owns : (message waker waking left : ℕ) → SenderView
owns a b c d = record { message = a; waker = b; waking = c; left = d }

abbrev pub sender_view : {A : Type 0} → SenderPc A → SenderView
sender_view (SenderPc.send_ready _) = owns 1 0 0 0
sender_view SenderPc.send_reread = owns 1 0 0 0
sender_view SenderPc.send_acquire = owns 0 1 0 0
sender_view SenderPc.send_wake = owns 0 1 0 0
sender_view SenderPc.send_wake_all = owns 0 0 1 0
sender_view (SenderPc.drop_wake _) = owns 0 1 0 0
sender_view (SenderPc.drop_wake_all _) = owns 0 0 1 0
sender_view SenderPc.gone = owns 0 0 0 1
sender_view _ = owns 0 0 0 0

-- Summed over the threads in `recv`.
pub record RecvView : Type 0 where
  pub message : ℕ
  pub waker : ℕ
  pub active : ℕ
  pub parked : ℕ

abbrev pub has_message : {A : Type 0} → RecvPc A → ℕ
has_message RecvPc.take_data = 1
has_message _ = 0

abbrev pub has_waker : {A : Type 0} → RecvPc A → ℕ
has_waker (RecvPc.clear_waker _) = 1
has_waker _ = 0

abbrev pub is_active : {A : Type 0} → RecvPc A → ℕ
is_active RecvPc.idle = 0
is_active (RecvPc.returned _) = 0
is_active _ = 1

abbrev pub is_parked : {A : Type 0} → RecvPc A → ℕ
is_parked RecvPc.parked = 1
is_parked _ = 0

abbrev pub recv_view : {A : Type 0} → List (RecvPc A) → RecvView
recv_view ps = record {
  message = total has_message ps;
  waker = total has_waker ps;
  active = total is_active ps;
  parked = total is_parked ps;
}

pub record ReceiverView : Type 0 where
  pub message : ℕ
  pub waker : ℕ
  pub busy : ℕ
  pub polling : ℕ  -- holds the waker cell by the word 28
  pub dropping : ℕ
  pub left : ℕ

abbrev pub has : (message waker busy polling dropping left : ℕ) → ReceiverView
has a b c d e f = record { message = a; waker = b; busy = c; polling = d; dropping = e; left = f }

abbrev pub receiver_view : {A W : Type 0} → ReceiverPc A W → ReceiverView
receiver_view ReceiverPc.free = has 0 0 0 0 0 0
receiver_view (ReceiverPc.poll_load _) = has 0 0 1 0 0 0
receiver_view (ReceiverPc.poll_take _ _) = has 0 0 1 0 0 0
receiver_view ReceiverPc.poll_read = has 1 0 1 0 0 0
receiver_view (ReceiverPc.poll_wakeless _ _) = has 0 0 1 0 0 0
receiver_view (ReceiverPc.poll_update _ _) = has 0 1 1 1 0 0
receiver_view (ReceiverPc.poll_register _ _) = has 0 0 1 0 0 0
receiver_view (ReceiverPc.poll_write _ _) = has 0 0 1 1 0 0
receiver_view (ReceiverPc.poll_unset _ _) = has 0 1 1 1 0 0
receiver_view (ReceiverPc.poll_clear_waker _ _) = has 0 1 1 0 0 0
receiver_view (ReceiverPc.poll_returned _) = has 0 0 1 0 0 0
receiver_view (ReceiverPc.drop_read _) = has 1 0 1 0 1 0
receiver_view (ReceiverPc.drop_clear_waker _) = has 0 1 1 0 1 0
receiver_view ReceiverPc.gone = has 0 0 1 0 1 1
receiver_view _ = has 0 0 1 0 1 0

-- The shared record, as the owners see it.
pub record MemView : Type 0 where
  pub state : ℕ
  pub message : ℕ
  pub waker : ℕ
  pub freed : Bool

abbrev pub mem_view : {A W : Type 0} → Inner A W → MemView
mem_view m = record {
  state = m.state;
  message = filled m.slot;
  waker = filled m.waker;
  freed = m.freed;
}

-- The message and the waker have one owner each, the word or a thread, exactly while their cells
-- are initialised. The rest says who may be where under which word.
pub record Owned (m : MemView) (s : SenderView) (r : RecvView) (e : ReceiverView) : Type 0 where
  pub is_known : known m.state ≡ true
  pub messages : m.message ≡ one_if (is_ready m.state) + s.message + r.message + e.message
  pub wakers : m.waker ≡ one_if (m.state == 20) + s.waker + r.waker + e.waker
  pub apart : (e.busy ≡ 0) ⊎ (r.active ≡ 0)
  pub attended : m.state ≡ 4 → 1 ≤ r.active
  pub polled : m.state ≡ 28 → e.polling ≡ 1
  pub final : m.state ≡ 11 → s.left ≡ 1
  pub notified : (r.parked ≡ 0) ⊎ (m.state ≡ 4) ⊎ (s.waking ≡ 1)
  pub no_poller : s.waker ≡ 1 → open_word m.state ≡ true → e.dropping ≡ 1
  pub departed : m.freed ≡ false → s.left + e.left ≡ one_if (among m.state (10 ∷ 11 ∷ []))
  pub released : m.freed ≡ true → (s.left ≡ 1) × (e.left ≡ 1) × (m.state ≡ 10)

-- What the place of the sender's thread says about the word, the cell and its own copy.
abbrev pub SenderOk : {A W : Type 0} → Inner A W → SenderPc A → Type 0
SenderOk m SenderPc.held = (unsent m.state ≡ true) × (m.slot ≡ none)
SenderOk m (SenderPc.send_load _) = (unsent m.state ≡ true) × (m.slot ≡ none)
SenderOk m (SenderPc.send_write c _) =
    (unsent m.state ≡ true) × (m.slot ≡ none) × (is_closed c ≡ false)
SenderOk m (SenderPc.send_ready c) = (unsent m.state ≡ true) × (is_closed c ≡ false)
SenderOk m SenderPc.drop_acquire = m.state ≡ 10
SenderOk m SenderPc.drop_dealloc = m.state ≡ 10
SenderOk m (SenderPc.drop_set_dropping c) = (is_closed c ≡ true) × (is_dropping c ≡ false)
SenderOk m (SenderPc.drop_close_dropping c) =
    (is_closed c ≡ false) × (is_pending c ≡ true) × (is_wakeless c ≡ true)
SenderOk m (SenderPc.drop_close_acquire c) =
    (is_closed c ≡ false) × (is_pending c ≡ true) × (is_wakeless c ≡ false)
SenderOk m (SenderPc.drop_wake c) = (c ≡ 2) × (among m.state (2 ∷ 10 ∷ []) ≡ true)
SenderOk m (SenderPc.drop_close_wake c) =
    (is_closed c ≡ false) × (is_pending c ≡ false) × (is_waiting c ≡ true)
SenderOk m (SenderPc.drop_wake_all c) = c ≡ 2
SenderOk m (SenderPc.drop_set_closed c) =
    (is_closed c ≡ false) × (is_pending c ≡ false) × (is_waiting c ≡ false)
SenderOk m _ = Unit

abbrev pub RecvOk : {A : Type 0} → ℕ → RecvPc A → Type 0
RecvOk w (RecvPc.take c) = is_ready c ≡ true
RecvOk w RecvPc.take_data = among w (8 ∷ 10 ∷ []) ≡ true
RecvOk w (RecvPc.unset_pending c) =
    (is_ready c ≡ false) × (is_closed c ≡ false) × (is_waiting c ≡ true) × (is_pending c ≡ true)
RecvOk w (RecvPc.clear_waker c) = (c ≡ 20) × (w ≢ 20)
RecvOk w (RecvPc.wait c) = (c ≡ 4) ⊎ ((c ≡ 20) × (w ≢ 20))
RecvOk w (RecvPc.set_waiting c) =
    (is_ready c ≡ false) × (is_closed c ≡ false) × (is_waiting c ≡ false) × (is_dataless c ≡ false)
RecvOk w _ = Unit

abbrev pub ReceiverOk : {A W : Type 0} → Inner A W → ReceiverPc A W → Type 0
ReceiverOk m (ReceiverPc.poll_take c _) = is_ready c ≡ true
ReceiverOk m (ReceiverPc.poll_wakeless c _) =
    (is_ready c ≡ false) × (is_closed c ≡ false) × (is_waiting c ≡ true)
ReceiverOk m (ReceiverPc.poll_update c _) = c ≡ 28
ReceiverOk m (ReceiverPc.poll_register c _) =
    (is_ready c ≡ false) × (is_closed c ≡ false) × (is_waiting c ≡ false) × (is_dataless c ≡ false)
ReceiverOk m (ReceiverPc.poll_write c _) = (c ≡ 28) × (m.waker ≡ none)
ReceiverOk m (ReceiverPc.poll_unset c _) = c ≡ 28
ReceiverOk m (ReceiverPc.drop_clean c) = is_ready c ≡ true
ReceiverOk m (ReceiverPc.drop_read c) = (c ≡ 0) ⊎ ((c ≡ 10) × (m.state ≡ 10))
ReceiverOk m ReceiverPc.drop_acquire = m.state ≡ 10
ReceiverOk m ReceiverPc.drop_dealloc = m.state ≡ 10
ReceiverOk m (ReceiverPc.drop_set_dropping c) = (is_closed c ≡ true) × (is_dropping c ≡ false)
ReceiverOk m (ReceiverPc.drop_close_acquire c) =
    (is_ready c ≡ false) × (is_closed c ≡ false) × (is_pending c ≡ true)
ReceiverOk m (ReceiverPc.drop_clear_waker c) = c ≡ 2
ReceiverOk m (ReceiverPc.drop_set_closed c) =
    (is_ready c ≡ false) × (is_closed c ≡ false) × (is_pending c ≡ false)
ReceiverOk m _ = Unit

-- The step did not fault, and what it leaves meets `P`.
abbrev pub Ensures : {X : Type 0} → (X → Type 0) → Outcome X → Type 0
Ensures P (ok x) = P x
Ensures P (fault _) = ⊥

-- What an endpoint relies on while the other one moves.
pub record SenderMoves {A W : Type 0} (m m' : Inner A W) : Type 0 where
  pub taken : among m.state (8 ∷ 10 ∷ []) ≡ true → among m'.state (8 ∷ 10 ∷ []) ≡ true
  pub unarmed : m.state ≢ 20 → m'.state ≢ 20
  pub droppable : m.state ≡ 10 → m'.state ≡ 10
  pub no_waker : m.waker ≡ none → m'.waker ≡ none

pub record ReceiverMoves {A W : Type 0} (m m' : Inner A W) : Type 0 where
  pub unsent_kept : unsent m.state ≡ true → unsent m'.state ≡ true
  pub no_message : m.slot ≡ none → m'.slot ≡ none
  pub droppable : m.state ≡ 10 → m'.state ≡ 10
  pub closing : among m.state (2 ∷ 10 ∷ []) ≡ true → among m'.state (2 ∷ 10 ∷ []) ≡ true

abbrev pub rouse : Bool → RecvView → RecvView
rouse true r = record r { parked = 0 }
rouse false r = r

-- What every view satisfies: who has left owns nothing, and who owns something is active.
pub record SenderBounds (s : SenderView) : Type 0 where
  pub settled : s.left ≡ 1 → (s.message ≡ 0) × (s.waker ≡ 0) × (s.waking ≡ 0)

pub record RecvBounds (r : RecvView) : Type 0 where
  pub message_bound : r.message ≤ r.active
  pub waker_bound : r.waker ≤ r.active
  pub parked_bound : r.parked ≤ r.active

pub record ReceiverBounds (e : ReceiverView) : Type 0 where
  pub settled : e.left ≡ 1 → (e.message ≡ 0) × (e.waker ≡ 0) × (e.busy ≡ 1)
  pub idle : e.busy ≡ 0 → (e.message ≡ 0) × (e.waker ≡ 0) × (e.polling ≡ 0) × (e.left ≡ 0)

pub sender-SenderBounds : {A : Type 0} (p : SenderPc A) → SenderBounds (sender_view p)
sender-SenderBounds p = ground arith

pub receiver-ReceiverBounds : {A W : Type 0} (p : ReceiverPc A W) → ReceiverBounds (receiver_view p)
receiver-ReceiverBounds p = ground arith

pub recv-RecvBounds : {A : Type 0} (ps : List (RecvPc A)) → RecvBounds (recv_view ps)
recv-RecvBounds [] = ground arith
recv-RecvBounds (p ∷ ps) = ground (arith, recv-RecvBounds ps)
