-- ===== src/Conlock/Oneshot/Orderings/Calls.antt =====
-- The clock of a cell stands still where a call begins or ends.
use forwardr.Base.{
  ℕ, Bool, true, false, if◌then◌else◌, ◌≡◌, ◌⊎◌, sym, subst, inl, inr, Option, List, get_elem?,
  Option-cases, arith,
}
use forwardr.Conlock.Oneshot.Inner.{Event, record_event}
use forwardr.Conlock.Oneshot.Sender.{SenderPc, held, send_load, drop_load}
use forwardr.Conlock.Oneshot.Recv.{RecvPc}
use forwardr.Conlock.Oneshot.Receiver
use forwardr.Conlock.Oneshot.Receiver.{ReceiverPc, Poll, free}
use forwardr.Conlock.Oneshot.System.{
  System, begin, update_recv, begin_send, begin_drop_sender, begin_alone, finish_poll, begin_recv,
}
use forwardr.Conlock.Oneshot.Orderings.Access.{Cell, relaxed}
use forwardr.Conlock.Oneshot.Orderings.Clock.{Clock, mark, share}
use forwardr.Conlock.Oneshot.Orderings.Sync.{Flags, Shrinks}
use forwardr.Conlock.Oneshot.Orderings.Perform.{order-Sync}
use forwardr.Conlock.Oneshot.Orderings.Flags.{
  SenderPart, ReceiverPart, thread_knows, sender_flags, sender_part, receiver_part,
}
use forwardr.Conlock.Oneshot.Orderings.Threads.{Threads-update, Threads-share, thread_knows-begin}
use forwardr.Conlock.Oneshot.Orderings.Ordered.{OrderedWhile}

-- A call that begins or ends: nothing is lost but what the endpoint gives up by it.
begin_send-cases :
    {A W : Type 0} (v : A) (s : System A W)
    → (begin_send v s ≡ s)
      ⊎ ((s.sender ≡ held)
          × (begin_send v s
              ≡ record s { mem = record_event (Event.called v) s.mem; sender = send_load v }))
unfolding begin_send
begin_send-cases v s = ground arith

begin_drop_sender-cases :
    {A W : Type 0} (s : System A W)
    → (begin_drop_sender s ≡ s)
      ⊎ ((s.sender ≡ held) × (begin_drop_sender s ≡ record s { sender = drop_load }))
unfolding begin_drop_sender
begin_drop_sender-cases s = ground arith

begin_alone-cases :
    {A W : Type 0} (e : ReceiverPc A W) (s : System A W)
    → (begin_alone e s ≡ s) ⊎ ((s.receiver ≡ free) × (begin_alone e s ≡ record s { receiver = e }))
unfolding begin_alone
begin_alone-cases e s = ground arith

finish_poll-cases :
    {A W : Type 0} (s : System A W)
    → (finish_poll s ≡ s)
      ⊎ ((r : Poll (Option A)) × (s.receiver ≡ Receiver.poll_returned r)
          × (finish_poll s ≡ record s { receiver = free }))
unfolding finish_poll
finish_poll-cases s = ground arith

Shrinks-refl : (f : Flags) → Shrinks f f
Shrinks-refl f = ground arith

module _ (y : Cell) where
  held_drops :
      (A : Type 0) (w : ℕ) (e : ReceiverPart)
      → Shrinks
          (sender_flags y w (sender_part {A = A} held) e)
          (sender_flags y w (sender_part {A = A} drop_load) e)
  held_drops A w e = ground arith

  free_drops :
      (A W : Type 0) (w : ℕ) (p : SenderPart)
      → Shrinks
          (sender_flags y w p (receiver_part {A = A} {W = W} free))
          (sender_flags y w p (receiver_part {A = A} {W = W} Receiver.drop_load))
  free_drops A W w p = ground arith

  free_polls :
      (A : Type 0) {W : Type 0} (cx : W) (w : ℕ) (p : SenderPart)
      → Shrinks
          (sender_flags y w p (receiver_part {A = A} {W = W} free))
          (sender_flags y w p (receiver_part {A = A} {W = W} (Receiver.poll_load cx)))
  free_polls A cx w p = ground arith

  poll_ends :
      {A : Type 0} (W : Type 0) (r : Poll (Option A)) (w : ℕ) (p : SenderPart)
      → Shrinks
          (sender_flags y w p (receiver_part {A = A} {W = W} (Receiver.poll_returned r)))
          (sender_flags y w p (receiver_part {A = A} {W = W} free))
  poll_ends W r w p = ground arith

module _ {A W : Type 0} (y : Cell) where
  -- An endpoint that has given something up, and has gained nothing.
  sender_placed :
      (s : System A W) (k : Clock) (l : List (Event A W)) (p p' : SenderPc A)
      → s.sender ≡ p
      → Shrinks
          (sender_flags y s.mem.state (sender_part p) (receiver_part s.receiver))
          (sender_flags y s.mem.state (sender_part p') (receiver_part s.receiver))
      → OrderedWhile y s k
      → OrderedWhile y (record s { mem = record s.mem { log = l }; sender = p' }) k
  sender_placed s k l p p' e t h live = record {
    ends = order-Sync relaxed _ _ (mark k k.sender) k.side (h live).ends (
        subst
          (λ x.
            Shrinks (sender_flags y s.mem.state (sender_part x) (receiver_part s.receiver))
              (sender_flags y s.mem.state (sender_part p') (receiver_part s.receiver)))
          (sym e) t);
    threads = (h live).threads;
    before = (h live).before;
  }

  receiver_placed :
      (s : System A W) (k : Clock) (e e' : ReceiverPc A W)
      → s.receiver ≡ e
      → Shrinks
          (sender_flags y s.mem.state (sender_part s.sender) (receiver_part e))
          (sender_flags y s.mem.state (sender_part s.sender) (receiver_part e'))
      → OrderedWhile y s k
      → OrderedWhile y (record s { receiver = e' }) k
  receiver_placed s k e e' at t h live = record {
    ends = order-Sync relaxed _ _ (mark k k.sender) k.side (h live).ends (
        subst
          (λ x.
            Shrinks (sender_flags y s.mem.state (sender_part s.sender) (receiver_part x))
              (sender_flags y s.mem.state (sender_part s.sender) (receiver_part e')))
          (sym at) t);
    threads = (h live).threads;
    before = (h live).before;
  }

  pub begin_send-Ordered :
      (v : A) (s : System A W) (k : Clock) → OrderedWhile y s k → OrderedWhile y (begin_send v s) k
  begin_send-Ordered v s k h = elim (begin_send-cases v s) [
    | inl e ↦ rw e h
    | inr (at, e) ↦ rw e (sender_placed s k _ held (send_load v) at (Shrinks-refl _) h)
  ]

  pub begin_drop_sender-Ordered :
      (s : System A W) (k : Clock) → OrderedWhile y s k → OrderedWhile y (begin_drop_sender s) k
  begin_drop_sender-Ordered s k h = elim (begin_drop_sender-cases s) [
    | inl e ↦ rw e h
    | inr (at, e) ↦ rw e (sender_placed s k s.mem.log held drop_load at (held_drops y A _ _) h)
  ]

  pub begin_poll-Ordered :
      (cx : W) (s : System A W) (k : Clock)
      → OrderedWhile y s k
      → OrderedWhile y (begin_alone (Receiver.poll_load cx) s) k
  begin_poll-Ordered cx s k h = elim (begin_alone-cases (Receiver.poll_load cx) s) [
    | inl e ↦ rw e h
    | inr (at, e) ↦
        rw e (receiver_placed s k free (Receiver.poll_load cx) at (free_polls y A cx _ _) h)
  ]

  pub begin_drop_receiver-Ordered :
      (s : System A W) (k : Clock)
      → OrderedWhile y s k
      → OrderedWhile y (begin_alone Receiver.drop_load s) k
  begin_drop_receiver-Ordered s k h = elim (begin_alone-cases Receiver.drop_load s) [
    | inl e ↦ rw e h
    | inr (at, e) ↦ rw e (receiver_placed s k free Receiver.drop_load at (free_drops y A W _ _) h)
  ]

  pub finish_poll-Ordered :
      (s : System A W) (k : Clock) → OrderedWhile y s k → OrderedWhile y (finish_poll s) k
  finish_poll-Ordered s k h = elim (finish_poll-cases s) [
    | inl e ↦ rw e h
    | inr (r, at, e) ↦
        rw e (receiver_placed s k (Receiver.poll_returned r) free at (poll_ends y W r _ _) h)
  ]

  pub update_recv-Ordered :
      (i : ℕ) (g : RecvPc A → RecvPc A) (s : System A W) (k : Clock)
      → ((p : RecvPc A) → thread_knows y (g p) ≡ thread_knows y p)
      → OrderedWhile y s k
      → OrderedWhile y (update_recv i g s) k
  update_recv-Ordered i g s k u h = elim (Option-cases (get_elem? s.recvs i)) [
    | inl e ↦ rw (e, update_recv) h
    | inr (p, e) ↦
        rw (e, update_recv)
          (λ live. record {
            ends = (h live).ends;
            threads = Threads-update y s.recvs i g e u (h live).threads;
            before = (h live).before;
          })
  ]

  share-Ordered :
      (i : ℕ) (s : System A W) (k : Clock) → OrderedWhile y s k → OrderedWhile y s (share i k)
  share-Ordered i s k h live = record {
    ends = (h live).ends;
    threads = Threads-share y s.recvs i k.recvs k.exclusive (h live).threads (h live).before;
    before = (h live).before;
  }

  pub share_if-Ordered :
      (b : Bool) (i : ℕ) (s : System A W) (k : Clock)
      → OrderedWhile y s k
      → OrderedWhile y s (if b then share i k else k)
  share_if-Ordered true i s k h = share-Ordered i s k h
  share_if-Ordered false i s k h = h

  pub begin_recv-Ordered :
      (i : ℕ) (s : System A W) (k : Clock) → OrderedWhile y s k → OrderedWhile y (begin_recv i s) k
  unfolding begin_recv
  begin_recv-Ordered i s k h =
      ground (arith, update_recv-Ordered i begin s k (thread_knows-begin y) h, h)
