-- ===== src/Conlock/Oneshot/Invariant/Threads.antt =====
-- One thread in `recv` among the others, and what a move by one party leaves of the others' places.
use forwardr.Base.{
  ℕ, ◌≡◌, true, some, List, [], ◌∷◌, map, get_elem?, set, remove_at, total, total-remove_at,
  total-set, All, All-map, arith,
}
use forwardr.Conlock.Oneshot.Inner.{Inner}
use forwardr.Conlock.Oneshot.Sender.{SenderPc}
use forwardr.Conlock.Oneshot.Recv.{RecvPc, woken}
use forwardr.Conlock.Oneshot.Receiver.{ReceiverPc}
use forwardr.Conlock.Oneshot.System.{all_idle}
use forwardr.Conlock.Oneshot.Invariant.Defs.{
  SenderOk, RecvOk, ReceiverOk, SenderMoves, ReceiverMoves, has_message, has_waker, is_active,
  is_parked, recv_view, rouse,
}
use forwardr.Conlock.Oneshot.Invariant.Recv.{joined}

module _ {A : Type 0} where
  pub recv_view-remove_at :
      (ps : List (RecvPc A)) (i : ℕ) {p : RecvPc A}
      → get_elem? ps i ≡ some p
      → recv_view ps ≡ joined (recv_view (remove_at ps i)) p
  recv_view-remove_at ps i e = ground (
    arith,
    total-remove_at has_message ps i e,
    total-remove_at has_waker ps i e,
    total-remove_at is_active ps i e,
    total-remove_at is_parked ps i e,
  )

  pub recv_view-set :
      (ps : List (RecvPc A)) (i : ℕ) (p' : RecvPc A) {p : RecvPc A}
      → get_elem? ps i ≡ some p
      → recv_view (set ps i p') ≡ joined (recv_view (remove_at ps i)) p'
  recv_view-set ps i p' e = ground (
    arith,
    total-set has_message ps i p' e,
    total-set has_waker ps i p' e,
    total-set is_active ps i p' e,
    total-set is_parked ps i p' e,
  )

  -- `wake_all` leaves nobody asleep, and nothing else changes.
  pub recv_view-woken :
      (ps : List (RecvPc A)) → recv_view (map woken ps) ≡ rouse true (recv_view ps)
  recv_view-woken [] = ground arith
  recv_view-woken (p ∷ ps) = ground (arith, recv_view-woken ps)

  RecvOk-woken : (w : ℕ) (p : RecvPc A) → RecvOk w p → RecvOk w (woken p)
  RecvOk-woken w p h = ground arith

  pub All-woken : (w : ℕ) (ps : List (RecvPc A)) → All (RecvOk w) ps → All (RecvOk w) (map woken ps)
  All-woken w [] h = tt
  All-woken w (p ∷ ps) h = (RecvOk-woken w p h.0, All-woken w ps h.1)

  inactive-RecvOk : (w : ℕ) (p : RecvPc A) → is_active p ≡ 0 → RecvOk w p
  inactive-RecvOk w p h = ground arith

  -- Threads that are in no call rely on nothing.
  pub All-inactive : (w : ℕ) (ps : List (RecvPc A)) → total is_active ps ≡ 0 → All (RecvOk w) ps
  All-inactive w [] h = tt
  All-inactive w (p ∷ ps) h = (inactive-RecvOk w p (omega arith), All-inactive w ps (omega arith))

  pub active-all_idle : (ps : List (RecvPc A)) → all_idle ps ≡ true → total is_active ps ≡ 0
  active-all_idle [] h = omega arith
  active-all_idle (p ∷ ps) h = ground (arith, active-all_idle ps)

module _ {A W : Type 0} {m m' : Inner A W} where
  pub SenderOk-moved : (p : SenderPc A) → ReceiverMoves m m' → SenderOk m p → SenderOk m' p
  SenderOk-moved p v k = ground arith

  pub ReceiverOk-moved : (p : ReceiverPc A W) → SenderMoves m m' → ReceiverOk m p → ReceiverOk m' p
  ReceiverOk-moved p v k = ground arith

  RecvOk-moved : (p : RecvPc A) → SenderMoves m m' → RecvOk m.state p → RecvOk m'.state p
  RecvOk-moved p v k = ground arith

  pub All-moved :
      (ps : List (RecvPc A)) → SenderMoves m m' → All (RecvOk m.state) ps → All (RecvOk m'.state) ps
  All-moved ps v = All-map _ _ ps (λ p. RecvOk-moved p v)
