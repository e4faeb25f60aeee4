-- ===== src/Conlock/Oneshot/Alone/Sends.antt =====
-- How far each thread's call is from its end, in accesses, while no other thread moves.
use forwardr.Base.{ℕ, ◌+◌, ◌-◌, ◌≤◌, ◌≡◌, Bool, true, false, ◌==◌, if◌then◌else◌, arith}
use forwardr.Conlock.Status.{is_closed, is_waiting, is_pending, is_dropping, is_wakeless}
use forwardr.Conlock.Oneshot.Inner.{Inner}
use forwardr.Conlock.Oneshot.Sender.{SenderPc, sender_step}
use forwardr.Conlock.Oneshot.Invariant.Defs.{known, SenderOk}
use forwardr.Conlock.Oneshot.Ledger.{Allows}

-- From the head of the loop in `drop_sender`, on the word as it is.
abbrev sender_head_left : ℕ → ℕ
sender_head_left w =
    if is_closed w
    then if is_dropping w then 2 else 1
    else if is_pending w
    then if is_wakeless w then 1 else 3
    else if is_waiting w
    then 3
    else 1

-- An exchange succeeds on a fresh copy, and goes back to the head on a stale one.
abbrev pub exchange_left : ℕ → ℕ → ℕ → ℕ → ℕ
exchange_left w c fresh head = if w == c then fresh else 1 + head

module _ {A : Type 0} where
  abbrev pub sender_left : ℕ → SenderPc A → ℕ
  sender_left w SenderPc.held = 0
  sender_left w (SenderPc.send_load _) = 8
  sender_left w (SenderPc.send_write _ _) = 7
  sender_left w (SenderPc.send_ready c) = if w == c then 5 else 6
  sender_left w SenderPc.send_reread = 2 + sender_head_left w
  sender_left w SenderPc.send_acquire = 3 + sender_head_left w
  sender_left w SenderPc.send_wake = 2 + sender_head_left w
  sender_left w SenderPc.send_wake_all = 2 + sender_head_left w
  sender_left w SenderPc.drop_load = 1 + sender_head_left w
  sender_left w SenderPc.drop_acquire = 2
  sender_left w SenderPc.drop_dealloc = 1
  sender_left w (SenderPc.drop_set_dropping c) = exchange_left w c 1 (sender_head_left w)
  sender_left w (SenderPc.drop_close_dropping c) = exchange_left w c 1 (sender_head_left w)
  sender_left w (SenderPc.drop_close_acquire c) = exchange_left w c 3 (sender_head_left w)
  sender_left w (SenderPc.drop_wake c) = 1 + exchange_left w c 1 (sender_head_left w)
  sender_left w (SenderPc.drop_close_wake c) = exchange_left w c 3 (sender_head_left w)
  sender_left w (SenderPc.drop_wake_all c) = 1 + exchange_left w c 1 (sender_head_left w)
  sender_left w (SenderPc.drop_set_closed c) = exchange_left w c 1 (sender_head_left w)
  sender_left w SenderPc.gone = 0

  abbrev pub is_held : SenderPc A → Bool
  is_held SenderPc.held = true
  is_held _ = false

module _ {A W : Type 0} where
  abbrev pub SenderNearer : ℕ → SenderPc A → Inner A W × SenderPc A → Type 0
  SenderNearer w p q = (sender_left q.0.state q.1 ≤ sender_left w p - 1) × (is_held q.1 ≡ is_held p)

  pub sender_step-nearer :
      (m : Inner A W) (p : SenderPc A)
      → known m.state ≡ true
      → SenderOk m p
      → Allows (SenderNearer m.state p) (sender_step false m p)
  unfolding sender_step
  sender_step-nearer m SenderPc.held kn k = ground arith
  sender_step-nearer m p kn k = ground arith
