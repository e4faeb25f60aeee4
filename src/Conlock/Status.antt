-- ===== src/Conlock/Status.antt =====
-- conlock/src/oneshot.rs: the status bits of a channel, and the compare-and-swaps on them.
use forwardr.Base.{ℕ, Bool, true, false, not, ◌&&◌, ◌==◌, if◌then◌else◌}
use forwardr.Conlock.Bit.{Bit, with_bit, without_bit, is_bit}

-- `BitStatus`, with the masks that its discriminants are.
pub data BitStatus : Type 0 where
  ready close waiting fieldless pending : BitStatus

instance abbrev pub status_bit : Bit BitStatus
status_bit = record {
  bit = elim [ ready ↦ 1 | close ↦ 2 | waiting ↦ 4 | fieldless ↦ 8 | pending ↦ 16 ];
}

-- The queries of `Status`, on its copy `current` of the status word.
abbrev pub is_ready : ℕ → Bool
is_ready current = is_bit current ready

abbrev pub is_closed : ℕ → Bool
is_closed current = is_bit current close

abbrev pub is_waiting : ℕ → Bool
is_waiting current = is_bit current waiting

abbrev pub is_dataless : ℕ → Bool
is_dataless current = is_bit current fieldless

abbrev pub is_dropping : ℕ → Bool
is_dropping current = is_bit current fieldless

abbrev pub is_wakeless : ℕ → Bool
is_wakeless current = is_bit current fieldless

abbrev pub is_pending : ℕ → Bool
is_pending current = is_bit current pending

-- What a compare-and-swap leaves: the shared word, the thread's copy, and whether it succeeded.
pub record Cas : Type 0 where
  pub state : ℕ
  pub current : ℕ
  pub done : Bool

-- The macro `cas!`. A success refreshes the copy where `sync` (the arms with `=`) is set; a failure
-- always does. A weak exchange may also fail when `spurious` says so.
abbrev pub cas : (sync spurious : Bool) → (state current new : ℕ) → Cas
cas sync spurious state current new =
    if not spurious && state == current
    then record { state = new; current = if sync then new else current; done = true }
    else record { state = state; current = state; done = false }

module _ (spurious : Bool) (state current : ℕ) where
  unfoldable pub try_setup_ready_release : Cas
  try_setup_ready_release =
      cas false spurious state current
        (without_bit (without_bit (without_bit (with_bit current ready) waiting) fieldless) pending)

  unfoldable pub try_setup_dataless_acquire : Cas
  try_setup_dataless_acquire =
      cas false spurious state current (with_bit (without_bit current ready) fieldless)

  unfoldable pub try_sync_unset_ready_acquire : Cas
  try_sync_unset_ready_acquire = cas true spurious state current (without_bit current ready)

  unfoldable pub try_setup_closed_dropping_release : Cas
  try_setup_closed_dropping_release =
      cas false spurious state current
        (without_bit (without_bit (with_bit current close) waiting) pending)

  unfoldable pub try_sync_setup_closed_wake : Cas
  try_sync_setup_closed_wake =
      cas true spurious state current (without_bit (with_bit current close) waiting)

  unfoldable pub try_sync_setup_closed_acquire : Cas
  try_sync_setup_closed_acquire =
      cas true spurious state current
        (without_bit (without_bit (with_bit current close) waiting) pending)

  unfoldable pub try_set_closed_dropping_release : Cas
  try_set_closed_dropping_release =
      cas false spurious state current (with_bit (with_bit current close) fieldless)

  unfoldable pub try_set_dropping_release : Cas
  try_set_dropping_release = cas false spurious state current (with_bit current fieldless)

  unfoldable pub try_set_waiting : Cas
  try_set_waiting = cas true spurious state current (with_bit current waiting)

  unfoldable pub try_sync_set_waiting_pending_wakeless : Cas
  try_sync_set_waiting_pending_wakeless =
      cas true spurious state current
        (with_bit (with_bit (with_bit current waiting) pending) fieldless)

  unfoldable pub try_unset_pending_acquire : Cas
  try_unset_pending_acquire = cas false spurious state current (without_bit current pending)

  unfoldable pub try_sync_set_wakeless_acquire : Cas
  try_sync_set_wakeless_acquire = cas true spurious state current (with_bit current fieldless)

-- The one strong exchange.
unfoldable pub unset_wakeless_release : (state current : ℕ) → Cas
unset_wakeless_release state current = cas false false state current (without_bit current fieldless)
