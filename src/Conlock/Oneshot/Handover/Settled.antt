-- ===== src/Conlock/Oneshot/Handover/Settled.antt =====
-- The status word and the data cell once the sender has left.
use forwardr.Base.{
  ℕ, ◌≡◌, refl, sym, ◌⊎◌, inl, inr, true, false, Option, none, some, List, total, arith,
}
use forwardr.Conlock.Oneshot.Inner.{Inner}
use forwardr.Conlock.Oneshot.Sender
use forwardr.Conlock.Oneshot.Receiver.{free}
use forwardr.Conlock.Oneshot.Recv.{RecvPc}
use forwardr.Conlock.Oneshot.System.{System, all_idle}
use forwardr.Conlock.Oneshot.Invariant.Defs.{
  filled, MemView, SenderView, RecvView, ReceiverView, Owned, owns, has, has_message,
  recv-RecvBounds,
}
use forwardr.Conlock.Oneshot.Invariant.Threads.{active-all_idle}
use forwardr.Conlock.Oneshot.Invariant.Steps.{Inv}

-- The word and the data cell once the sender has left, and the receiver has not.
abbrev pub Settled : {A W : Type 0} → Inner A W → Type 0
Settled m =
    (m.freed ≡ false)
    × (((m.state ≡ 11) × (filled m.slot ≡ 1)) ⊎ ((m.state ≡ 10) × (filled m.slot ≡ 0)))

module _ {m : MemView} {p : SenderView} {r : RecvView} {e : ReceiverView} (o : Owned m p r e) where
  settled_view :
      p ≡ owns 0 0 0 1
      → e ≡ has 0 0 0 0 0 0
      → r.message ≡ 0
      → (m.freed ≡ false)
        × (((m.state ≡ 11) × (m.message ≡ 1)) ⊎ ((m.state ≡ 10) × (m.message ≡ 0)))
  settled_view g f n = ground arith

module _ {A : Type 0} where
  some_inside : (o : Option A) → filled o ≡ 1 → (v : A) × (o ≡ some v)
  some_inside none e = cc
  some_inside (some v) e = (v, refl)

  none_inside : (o : Option A) → filled o ≡ 0 → o ≡ none
  none_inside none e = refl
  none_inside (some v) e = cc

module _ {A W : Type 0} where
  abbrev pub word_11 : Inner A W → A → Inner A W
  word_11 m v = record m { state = 11; slot = some v; freed = false }

  abbrev pub word_10 : Inner A W → Inner A W
  word_10 m = record m { state = 10; slot = none; freed = false }

  abbrev pub alone : Inner A W → List (RecvPc A) → System A W
  alone m rs = record { mem = m; sender = Sender.gone; receiver = free; recvs = rs }

  as_word :
      (m : Inner A W) (w : ℕ) (o : Option A)
      → m.freed ≡ false
      → m.state ≡ w
      → m.slot ≡ o
      → m ≡ record m { state = w; slot = o; freed = false }
  as_word m w o f e k = λ i. record m { state = e i; slot = k i; freed = f i }

  pub Settled-cases : (m : Inner A W) → Settled m → ((v : A) × (m ≡ word_11 m v)) ⊎ (m ≡ word_10 m)
  Settled-cases m (f, inl (e, full)) =
      let (v, k) = some_inside m.slot full in inl (v, as_word m 11 (some v) f e k)
  Settled-cases m (f, inr (e, empty)) = inr (as_word m 10 none f e (none_inside m.slot empty))

  settled :
      {s : System A W}
      → Inv s
      → s.sender ≡ Sender.gone
      → s.receiver ≡ free
      → total has_message s.recvs ≡ 0
      → Settled s.mem
  settled {s} i g f n = settled_view i.owned (ground arith) (ground arith) n

  pub quiet_cell :
      {s : System A W}
      → Inv s
      → s.sender ≡ Sender.gone
      → s.receiver ≡ free
      → all_idle s.recvs ≡ true
      → Settled s.mem
  quiet_cell {s} i g f quiet =
      settled i g f
        (omega (arith, (recv-RecvBounds s.recvs).message_bound, active-all_idle s.recvs quiet))

  pub alone_again :
      {s : System A W} → s.sender ≡ Sender.gone → s.receiver ≡ free → alone s.mem s.recvs ≡ s
  alone_again {s} g f =
      λ k. record { mem = s.mem; sender = sym g k; receiver = sym f k; recvs = s.recvs }
