-- ===== src/Conlock/Oneshot/Orderings/Flags.antt =====
-- Who is ordered after all uses of each cell of a channel: the word or the thread that owns what is in it.
use forwardr.Base.{ℕ, zero, ◌≡◌, ◌+◌, ◌⊎◌, [], ◌∷◌, Bool, true, false, not, ◌&&◌, ◌||◌, ◌==◌}
use forwardr.Conlock.Status.{is_ready}
use forwardr.Conlock.Oneshot.Sender.{SenderPc, held, send_load, send_write, send_ready, send_reread}
use forwardr.Conlock.Oneshot.Recv.{RecvPc}
use forwardr.Conlock.Oneshot.Receiver.{ReceiverPc}
use forwardr.Conlock.Oneshot.Invariant.Defs.{
  SenderView, MemView, one_if, among, RecvView, ReceiverView, receiver_view, has_message, has_waker,
  open_word,
}
use forwardr.Conlock.Oneshot.Orderings.Access.{Cell, data_cell, waker_cell, memory}
use forwardr.Conlock.Oneshot.Orderings.Sync.{Flags}

-- Where the sender's thread is, as far as it matters here.
pub record SenderPart : Type 0 where
  pub sends : Bool  -- a call may still be made, or has its message to write or to take back
  pub fences : Bool
  pub wakes : Bool
  pub left : Bool
  pub frees : Bool

abbrev part : (sends fences wakes left frees : Bool) → SenderPart
part a b c d e = record { sends = a; fences = b; wakes = c; left = d; frees = e }

abbrev pub sender_part : {A : Type 0} → SenderPc A → SenderPart
sender_part held = part true false false false false
sender_part (send_load _) = part true false false false false
sender_part (send_write _ _) = part true false false false false
sender_part (send_ready _) = part true false false false false
sender_part send_reread = part true false false false false
sender_part SenderPc.send_acquire = part false true false false false
sender_part SenderPc.send_wake = part false false true false false
sender_part (SenderPc.drop_wake _) = part false false true false false
sender_part SenderPc.gone = part false false false true false
sender_part SenderPc.drop_dealloc = part false false false false true
sender_part _ = part false false false false false

abbrev pub receiver_frees : {A W : Type 0} → ReceiverPc A W → Bool
receiver_frees ReceiverPc.drop_dealloc = true
receiver_frees _ = false

pub record ReceiverPart : Type 0 where
  pub view : ReceiverView
  pub frees : Bool

abbrev pub receiver_part : {A W : Type 0} → ReceiverPc A W → ReceiverPart
receiver_part e = record { view = receiver_view e; frees = receiver_frees e }

abbrev pub thread_knows : {A : Type 0} → Cell → RecvPc A → ℕ
thread_knows data_cell p = has_message p
thread_knows waker_cell p = has_waker p
thread_knows memory p = zero

abbrev pub threads_know : Cell → RecvView → ℕ
threads_know data_cell r = r.message
threads_know waker_cell r = r.waker
threads_know memory r = zero

abbrev word_knows : Cell → ℕ → SenderPart → Bool
word_knows data_cell w p = is_ready w
word_knows waker_cell w p = w == 20 || p.fences
word_knows memory w p = true

-- Until an endpoint has left, nobody has used up the memory.
abbrev both_in : SenderPart → ReceiverPart → Bool
both_in p e = not p.left && e.view.left == 0

abbrev sender_knows : Cell → SenderPart → ReceiverPart → Bool
sender_knows data_cell p e = p.sends
sender_knows waker_cell p e = p.wakes
sender_knows memory p e = both_in p e

-- The waker is the receiver's to begin with, until it drops the channel or the sender takes it.
abbrev side_knows : Cell → ℕ → SenderPart → ReceiverPart → Bool
side_knows data_cell w p e = e.view.message == 1
side_knows waker_cell w p e =
    e.view.waker == 1 || (e.view.polling == 1 || (open_word w && e.view.dropping == 0))
side_knows memory w p e = both_in p e

abbrev pub sender_flags : Cell → ℕ → SenderPart → ReceiverPart → Flags
sender_flags y w p e = record {
  word = word_knows y w p;
  own = sender_knows y p e;
  other = side_knows y w p e;
  own_left = p.left;
  other_left = e.view.left == 1;
  own_frees = p.frees;
  other_frees = e.frees;
}

-- The same from the other end.
abbrev pub receiver_flags : Cell → ℕ → SenderPart → ReceiverPart → Flags
receiver_flags y w p e = record {
  word = word_knows y w p;
  own = side_knows y w p e;
  other = sender_knows y p e;
  own_left = e.view.left == 1;
  other_left = p.left;
  own_frees = e.frees;
  other_frees = p.frees;
}

-- What the steps below use of the invariant, per cell.
abbrev pub Knows : Cell → MemView → SenderView → RecvView → ReceiverPart → Type 0
Knows data_cell m s r e =
    m.message ≡ one_if (is_ready m.state) + s.message + r.message + e.view.message
Knows waker_cell m s r e =
    (m.waker ≡ one_if (m.state == 20) + s.waker + r.waker + e.view.waker)
    × (s.waker ≡ 1 → open_word m.state ≡ true → e.view.dropping ≡ 1)
    × (e.view.polling ≡ 1 → (e.view.waker ≡ 1) ⊎ (m.waker ≡ 0))
    × (m.state ≡ 28 → e.view.polling ≡ 1)
Knows memory m s r e = s.left + e.view.left ≡ one_if (among m.state (10 ∷ 11 ∷ []))
