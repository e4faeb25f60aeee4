-- ===== src/Conlock/Oneshot/Invariant/Moves.antt =====
-- Each access of a thread keeps the invariant of the system, and none faults.
use forwardr.Base.{
  ℕ, ◌≡◌, refl, sym, subst, inl, inr, Bool, true, false, if◌then◌else◌, some, List, map, get_elem?,
  set, remove_at, All, All-get_elem?, All-set, Option-cases, arith,
}
use forwardr.Conlock.Oneshot.Inner.{Inner, Outcome, ok, fault, ◌>>=◌}
use forwardr.Conlock.Oneshot.Sender.{SenderPc, sender_step}
use forwardr.Conlock.Oneshot.Recv.{RecvPc, recv_step, woken}
use forwardr.Conlock.Oneshot.Receiver.{receiver_step}
use forwardr.Conlock.Oneshot.System.{System, Action, wakes_all, begin, finish, update_recv, act}
use forwardr.Conlock.Oneshot.Invariant.Defs.{
  Owned, SenderView, RecvView, ReceiverView, RecvOk, SenderOk, ReceiverOk, Ensures, mem_view,
  sender_view, recv_view, receiver_view, rouse, sender-SenderBounds, recv-RecvBounds,
  receiver-ReceiverBounds,
}
use forwardr.Conlock.Oneshot.Invariant.Sender
use forwardr.Conlock.Oneshot.Invariant.Sender.{sender_step-Kept}
use forwardr.Conlock.Oneshot.Invariant.Recv
use forwardr.Conlock.Oneshot.Invariant.Recv.{joined, recv_step-Kept}
use forwardr.Conlock.Oneshot.Invariant.Receiver
use forwardr.Conlock.Oneshot.Invariant.Receiver.{receiver_step-Kept}
use forwardr.Conlock.Oneshot.Invariant.Threads.{
  recv_view-remove_at, recv_view-set, recv_view-woken, All-woken, All-inactive, SenderOk-moved,
  ReceiverOk-moved, All-moved,
}

pub record Inv {A W : Type 0} (s : System A W) : Type 0 where
  pub owned :
      Owned (mem_view s.mem) (sender_view s.sender) (recv_view s.recvs) (receiver_view s.receiver)
  pub sender_ok : SenderOk s.mem s.sender
  pub receiver_ok : ReceiverOk s.mem s.receiver
  pub recvs_ok : All (RecvOk s.mem.state) s.recvs

pub Ensures->>= :
    {X Y : Type 0} (P : X → Type 0) (Q : Y → Type 0) (x : Outcome X) (f : X → Outcome Y)
    → Ensures P x
    → ((a : X) → P a → Ensures Q (f a))
    → Ensures Q (x >>= f)
Ensures->>= P Q (ok a) f h k = k a h
Ensures->>= P Q (fault e) f h k = h

module _ {A : Type 0} where
  recv_view-rouse :
      (b : Bool) (ps : List (RecvPc A))
      → recv_view (if b then map woken ps else ps) ≡ rouse b (recv_view ps)
  recv_view-rouse true ps = recv_view-woken ps
  recv_view-rouse false ps = refl

  All-rouse :
      (b : Bool) (w : ℕ) (ps : List (RecvPc A))
      → All (RecvOk w) ps
      → All (RecvOk w) (if b then map woken ps else ps)
  All-rouse true w ps h = All-woken w ps h
  All-rouse false w ps h = h

module _ {A W : Type 0} where
  pub move_sender-Inv :
      (ww : W → W → Bool) (sp : Bool) (s : System A W)
      → Inv s
      → Ensures Inv (act ww (Action.run_sender sp) s)
  unfolding act
  move_sender-Inv ww sp s v =
      Ensures->>= (Sender.Kept m p (recv_view s.recvs) (receiver_view s.receiver)) Inv
        (sender_step sp m p) _
        (sender_step-Kept sp m p _ _ (recv-RecvBounds s.recvs) (receiver-ReceiverBounds s.receiver)
          v.owned v.sender_ok)
        λ q k. record {
          owned =
              subst (λ r. Owned (mem_view q.0) (sender_view q.1) r (receiver_view s.receiver))
                (sym (recv_view-rouse (wakes_all p) s.recvs)) k.owned;
          sender_ok = k.placed;
          receiver_ok = ReceiverOk-moved s.receiver k.moved v.receiver_ok;
          recvs_ok =
              All-rouse (wakes_all p) q.0.state s.recvs (All-moved s.recvs k.moved v.recvs_ok);
        }
    where
      m : Inner A W
      m = s.mem

      p : SenderPc A
      p = s.sender

  -- A thread in `recv` goes from `p` to `p'`, and leaves `m'`.
  recv_moved-Inv :
      (s : System A W) (i : ℕ) {p : RecvPc A} (q : Inner A W × RecvPc A)
      → get_elem? s.recvs i ≡ some p
      → Inv s
      → Recv.Kept s.mem
          (sender_view s.sender)
          (recv_view (remove_at s.recvs i))
          (receiver_view s.receiver)
          q
      → Inv (record s { mem = q.0; recvs = set s.recvs i q.1 })
  recv_moved-Inv s i q at v k = record {
    owned =
        subst (λ r. Owned (mem_view q.0) (sender_view s.sender) r (receiver_view s.receiver))
          (sym (recv_view-set s.recvs i q.1 at)) k.owned;
    sender_ok = SenderOk-moved s.sender k.moved v.sender_ok;
    receiver_ok = ReceiverOk-moved s.receiver k.sharing v.receiver_ok;
    recvs_ok =
        All-set (RecvOk q.0.state) s.recvs i q.1 (All-moved s.recvs k.sharing v.recvs_ok) k.placed;
  }

  Owned-at :
      (s : System A W) (i : ℕ) {p : RecvPc A}
      → get_elem? s.recvs i ≡ some p
      → Inv s
      → Owned
          (mem_view s.mem)
          (sender_view s.sender)
          (joined (recv_view (remove_at s.recvs i)) p)
          (receiver_view s.receiver)
  Owned-at s i at v =
      subst (λ r. Owned (mem_view s.mem) (sender_view s.sender) r (receiver_view s.receiver))
        (recv_view-remove_at s.recvs i at) v.owned

  pub move_recv-Inv :
      (ww : W → W → Bool) (i : ℕ) (sp : Bool) (s : System A W)
      → Inv s
      → Ensures Inv (act ww (Action.run_recv i sp) s)
  unfolding act
  move_recv-Inv ww i sp s v = elim (Option-cases (get_elem? s.recvs i)) [
    | inl e ↦ rw (e, Ensures) v
    | inr (p, e) ↦
        rw (e, Ensures)
          (Ensures->>=
            (Recv.Kept s.mem (sender_view s.sender) (recv_view (remove_at s.recvs i))
              (receiver_view s.receiver))
            Inv (recv_step sp s.mem p) _
            (recv_step-Kept sp s.mem p _ _ _ (sender-SenderBounds s.sender)
              (recv-RecvBounds (remove_at s.recvs i)) (receiver-ReceiverBounds s.receiver)
              (Owned-at s i e v) (All-get_elem? (RecvOk s.mem.state) s.recvs i v.recvs_ok e))
            λ q k. recv_moved-Inv s i q e v k)
  ]

  module _ (m : Inner A W) (sv : SenderView) (r : RecvView) (e : ReceiverView) where
    pub begin-Kept :
        (p : RecvPc A)
        → e.busy ≡ 0
        → Owned (mem_view m) sv (joined r p) e
        → RecvOk m.state p
        → Recv.Kept m sv r e (m, begin p)
    begin-Kept p b o k = ground arith

    pub finish-Kept :
        (p : RecvPc A)
        → Owned (mem_view m) sv (joined r p) e
        → RecvOk m.state p
        → Recv.Kept m sv r e (m, finish p)
    finish-Kept p o k = ground arith

    pub woken-Kept :
        (p : RecvPc A)
        → Owned (mem_view m) sv (joined r p) e
        → RecvOk m.state p
        → Recv.Kept m sv r e (m, woken p)
    woken-Kept p o k = ground arith

  -- A change of one thread's place alone.
  pub update_recv-Inv :
      (s : System A W) (i : ℕ) (f : RecvPc A → RecvPc A)
      → Inv s
      → ((p : RecvPc A)
          → Owned
              (mem_view s.mem)
              (sender_view s.sender)
              (joined (recv_view (remove_at s.recvs i)) p)
              (receiver_view s.receiver)
          → RecvOk s.mem.state p
          → Recv.Kept s.mem
              (sender_view s.sender)
              (recv_view (remove_at s.recvs i))
              (receiver_view s.receiver)
              (s.mem, f p))
      → Inv (update_recv i f s)
  update_recv-Inv s i f v keep = elim (Option-cases (get_elem? s.recvs i)) [
    | inl e ↦ rw (e, update_recv) v
    | inr (p, e) ↦
        rw (e, update_recv)
          (recv_moved-Inv s i (s.mem, f p) e v
            (keep p (Owned-at s i e v) (All-get_elem? (RecvOk s.mem.state) s.recvs i v.recvs_ok e)))
  ]

  -- Under an exclusive call the sharing threads are in no call, and so rely on nothing.
  pub move_receiver-Inv :
      (ww : W → W → Bool) (sp : Bool) (s : System A W)
      → Inv s
      → Ensures Inv (act ww (Action.run_receiver sp) s)
  unfolding act
  move_receiver-Inv ww sp s v =
      Ensures->>= (Receiver.Kept s.mem s.receiver (sender_view s.sender) (recv_view s.recvs)) Inv
        (receiver_step ww sp s.mem s.receiver) _
        (receiver_step-Kept ww sp s.mem s.receiver _ _ (sender-SenderBounds s.sender)
          (recv-RecvBounds s.recvs) v.owned v.receiver_ok)
        λ q k. record {
          owned = k.owned;
          sender_ok = SenderOk-moved s.sender k.moved v.sender_ok;
          receiver_ok = k.placed;
          recvs_ok = elim v.owned.apart [
            | inl b ↦ subst (λ w. All (RecvOk w) s.recvs) (sym (k.still b)) v.recvs_ok
            | inr i ↦ All-inactive q.0.state s.recvs i
          ];
        }
