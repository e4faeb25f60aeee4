-- ===== src/Conlock/Oneshot/Table.antt =====
-- conlock/README.md, the table of transfers of the status word: which call may change which word to
-- which. A word is written with READY as its lowest bit: 00101 of the table is 4 + 16.
use forwardr.Base.{ℕ, Bool, false, ◌||◌, ◌&&◌, ◌==◌, List, [], ◌∷◌}
use forwardr.Conlock.Oneshot.Sender.{
  SenderPc, held, send_load, send_write, send_ready, send_reread, send_acquire, send_wake,
  send_wake_all,
}
use forwardr.Conlock.Oneshot.Receiver.{
  ReceiverPc, free, poll_load, poll_take, poll_read, poll_wakeless, poll_update, poll_register,
  poll_write, poll_unset, poll_clear_waker, poll_returned,
}
use forwardr.Conlock.Oneshot.System.{System, Action, run_sender, run_recv, run_receiver}

-- The columns, where those before a drop and at its end are one; `by_none` is for what is no access
-- to the word.
pub data Role : Type 0 where
  by_none by_send by_recv by_await by_drop_sender by_drop_receiver : Role

abbrev pub is_pair : ℕ → ℕ → List (ℕ × ℕ) → Bool
is_pair w v [] = false
is_pair w v ((a, b) ∷ moves) = (w == a && v == b) || is_pair w v moves

-- The rows that one exchange takes, column by column. The last entry is not in the table: `drop_receiver` clears the message
-- before it closes (a comment there says so), where the table goes from 10000 to 01000 at once.
abbrev pub moves : Role → List (ℕ × ℕ)
moves by_none = []
moves by_send = (0, 1) ∷ (4, 1) ∷ (28, 1) ∷ (20, 1) ∷ []
moves by_recv = (0, 4) ∷ (1, 8) ∷ (20, 4) ∷ (11, 10) ∷ []
moves by_await = (0, 28) ∷ (1, 8) ∷ (28, 20) ∷ (20, 28) ∷ (11, 10) ∷ []
moves by_drop_sender = (0, 10) ∷ (1, 11) ∷ (4, 2) ∷ (28, 10) ∷ (20, 2) ∷ (2, 10) ∷ (8, 10) ∷ []
moves by_drop_receiver = (0, 10) ∷ (20, 2) ∷ (2, 10) ∷ (8, 10) ∷ (11, 10) ∷ (1, 0) ∷ []

abbrev pub transfers : Role → ℕ → ℕ → Bool
transfers role w v = v == w || is_pair w v (moves role)

module _ {A : Type 0} where
  abbrev pub sender_role : SenderPc A → Role
  sender_role held = by_send
  sender_role (send_load _) = by_send
  sender_role (send_write _ _) = by_send
  sender_role (send_ready _) = by_send
  sender_role send_reread = by_send
  sender_role send_acquire = by_send
  sender_role send_wake = by_send
  sender_role send_wake_all = by_send
  sender_role _ = by_drop_sender

module _ {A W : Type 0} where
  abbrev pub receiver_role : ReceiverPc A W → Role
  receiver_role free = by_await
  receiver_role (poll_load _) = by_await
  receiver_role (poll_take _ _) = by_await
  receiver_role poll_read = by_await
  receiver_role (poll_wakeless _ _) = by_await
  receiver_role (poll_update _ _) = by_await
  receiver_role (poll_register _ _) = by_await
  receiver_role (poll_write _ _) = by_await
  receiver_role (poll_unset _ _) = by_await
  receiver_role (poll_clear_waker _ _) = by_await
  receiver_role (poll_returned _) = by_await
  receiver_role _ = by_drop_receiver

  -- The call that an action belongs to; the actions that are not accesses change no word.
  abbrev pub role_of : Action A W → System A W → Role
  role_of (run_sender _) s = sender_role s.sender
  role_of (run_recv _ _) s = by_recv
  role_of (run_receiver _) s = receiver_role s.receiver
  role_of _ s = by_none
