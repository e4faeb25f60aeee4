-- ===== src/Conlock/Oneshot/Atomic.antt =====
-- The channel as its users see it: a cell that is used once, in one indivisible action at a time.
use forwardr.Base.{
  ℕ, ◌≡◌, ◌≤◌, ◌+◌, ◌≢◌, refl, subst, ◌⊎◌, inl, inr, Bool, true, false, Option, none, some, List,
  [], ◌∷◌, get_elem?, total-remove_at, Option-cases, arith,
}
use forwardr.Conlock.Oneshot.Inner.{Inner, Event}
use forwardr.Conlock.Oneshot.Sender.{
  SenderPc, held, send_load, send_write, send_ready, send_reread, sender_step,
}
use forwardr.Conlock.Oneshot.Recv.{RecvPc, woken, recv_step}
use forwardr.Conlock.Oneshot.Receiver.{ReceiverPc, free, receiver_step}
use forwardr.Conlock.Oneshot.System.{System, Action, update_recv, begin, finish, act}
use forwardr.Conlock.Oneshot.Invariant.Defs.{
  has_message, sender_view, receiver_view, mem_view, Owned, SenderOk, SenderView, RecvView,
  ReceiverView,
}
use forwardr.Conlock.Oneshot.Invariant.Steps.{Inv}
use forwardr.Conlock.Oneshot.Invariant.Start.{Reachable}
use forwardr.Conlock.Oneshot.Along.{filled_bound, Reachable-along}
use forwardr.Conlock.Oneshot.Ledger.{Allows, Allows->>=}

-- Nothing was offered; `send` has its message; the message is in the channel; it is gone.
pub data Cell (A : Type 0) : Type 0 where
  fresh spent : Cell A
  offered stored : A → Cell A

module _ {A : Type 0} where
  abbrev pub store : Cell A → Cell A
  store (offered v) = stored v
  store c = c

  abbrev pub is_offered : Cell A → Bool
  is_offered (offered v) = true
  is_offered _ = false

  abbrev pub content : Cell A → Option A
  content (stored v) = some v
  content _ = none

module _ {A W : Type 0} where
  -- What the cell holds after these events, newest first.
  abbrev pub cell : List (Event A W) → Cell A
  cell [] = fresh
  cell (Event.called v ∷ l) = offered v
  cell (Event.sent ∷ l) = store (cell l)
  cell (Event.rejected v ∷ l) = spent
  cell (Event.delivered v ∷ l) = spent
  cell (Event.discarded v ∷ l) = spent
  cell (_ ∷ l) = cell l

  -- Each event is an action that the cell allows where it happens: a fresh cell is offered a message; a
  -- message that is offered is stored, or handed back; a message that is stored is handed out, or dropped.
  abbrev pub IsAtomic : List (Event A W) → Type 0
  IsAtomic [] = Unit
  IsAtomic (Event.called v ∷ l) = (cell l ≡ fresh) × IsAtomic l
  IsAtomic (Event.sent ∷ l) = (is_offered (cell l) ≡ true) × IsAtomic l
  IsAtomic (Event.rejected v ∷ l) = (cell l ≡ offered v) × IsAtomic l
  IsAtomic (Event.delivered v ∷ l) = (cell l ≡ stored v) × IsAtomic l
  IsAtomic (Event.discarded v ∷ l) = (cell l ≡ stored v) × IsAtomic l
  IsAtomic (_ ∷ l) = IsAtomic l

-- Where the sender's thread is: before `send`, in it with the message in hand, or with the message in the
-- data cell, or past it.
data Place (A : Type 0) : Type 0 where
  before past written : Place A
  in_hand : A → Place A

module _ {A : Type 0} where
  abbrev place : SenderPc A → Place A
  place held = before
  place (send_load v) = in_hand v
  place (send_write c v) = in_hand v
  place (send_ready c) = written
  place send_reread = written
  place _ = past

  abbrev Settles : Option A → Cell A → Type 0
  Settles (some v) c = c ≡ stored v
  Settles none c = (c ≡ fresh) ⊎ (c ≡ spent)

  Settles-content : (o : Option A) (c : Cell A) → Settles o c → o ≡ content c
  Settles-content none c h = ground arith
  Settles-content (some v) c h = ground arith

  abbrev Written : Option A → Cell A → Type 0
  Written (some v) c = c ≡ offered v
  Written none c = ⊥

  abbrev Fits : Place A → Option A → Cell A → Type 0
  Fits before o c = (o ≡ none) × (c ≡ fresh)
  Fits (in_hand v) o c = (o ≡ none) × (c ≡ offered v)
  Fits written o c = Written o c
  Fits past o c = Settles o c

module _ {A W : Type 0} where
  abbrev Refines : Inner A W → Place A → Type 0
  Refines m k = Fits k m.slot (cell m.log) × IsAtomic m.log

  sender_step-Refines :
      (sp : Bool) (m : Inner A W) (p : SenderPc A)
      → SenderOk m p
      → Refines m (place p)
      → Allows (λ q. Refines q.0 (place q.1)) (sender_step sp m p)
  unfolding sender_step
  sender_step-Refines sp m held k r = r
  sender_step-Refines sp m p k r = ground arith

  recv_step-Refines :
      (sp : Bool) (m : Inner A W) (p : RecvPc A) (k : Place A)
      → (has_message p ≡ 1 → k ≢ written)
      → Refines m k
      → Allows (λ q. Refines q.0 k) (recv_step sp m p)
  unfolding recv_step
  recv_step-Refines sp m RecvPc.idle k n r = r
  recv_step-Refines sp m p before n r = ground arith
  recv_step-Refines sp m p past n r = ground arith
  recv_step-Refines sp m p written n r = ground arith
  recv_step-Refines sp m p (in_hand v) n r = ground arith

  receiver_step-Refines :
      (ww : W → W → Bool) (sp : Bool) (m : Inner A W) (e : ReceiverPc A W) (k : Place A)
      → ((receiver_view e).message ≡ 1 → k ≢ written)
      → Refines m k
      → Allows (λ q. Refines q.0 k) (receiver_step ww sp m e)
  unfolding receiver_step
  receiver_step-Refines ww sp m free k n r = r
  receiver_step-Refines ww sp m e before n r = ground arith
  receiver_step-Refines ww sp m e past n r = ground arith
  receiver_step-Refines ww sp m e written n r = ground arith
  receiver_step-Refines ww sp m e (in_hand v) n r = ground arith

-- While the receiver's side owns the message, `send` does not.
message_owner :
    {A W : Type 0} (m : Inner A W) {s : SenderView} {r : RecvView} {e : ReceiverView}
    → Owned (mem_view m) s r e
    → 1 ≤ r.message + e.message
    → s.message ≡ 0
message_owner m o h = ground (arith, filled_bound m.slot)

written_owns : {A : Type 0} (p : SenderPc A) → (sender_view p).message ≡ 0 → place p ≢ written
written_owns p h = ground arith

module _ {A W : Type 0} where
  abbrev SystemRefines : System A W → Type 0
  SystemRefines s = Refines s.mem (place s.sender)

  update_recv-Refines :
      (i : ℕ) (f : RecvPc A → RecvPc A) (s : System A W)
      → SystemRefines s
      → SystemRefines (update_recv i f s)
  update_recv-Refines i f s t = elim (Option-cases (get_elem? s.recvs i)) [
    | inl e ↦ rw (e, update_recv) t
    | inr (p, e) ↦ rw (e, update_recv) t
  ]

  act-Refines :
      (ww : W → W → Bool) (a : Action A W) (s : System A W)
      → Inv s
      → SystemRefines s
      → Allows SystemRefines (act ww a s)
  unfolding act
  act-Refines ww (Action.call_send v) s i t = ground arith
  act-Refines ww Action.call_drop_sender s i t = ground arith
  act-Refines ww (Action.run_sender sp) s i t =
      Allows->>= _ SystemRefines (sender_step sp s.mem s.sender) _
        (sender_step-Refines sp s.mem s.sender i.sender_ok t) (λ q u. u)
  act-Refines ww (Action.call_recv n) s i t = ground (arith, update_recv-Refines n begin s t)
  act-Refines ww (Action.run_recv n sp) s i t = elim (Option-cases (get_elem? s.recvs n)) [
    | inl e ↦ rw (e, Allows) t
    | inr (p, e) ↦
        rw (e, Allows)
          (Allows->>= _ SystemRefines (recv_step sp s.mem p) _
            (recv_step-Refines sp s.mem p (place s.sender)
              (λ h. written_owns s.sender (
                message_owner s.mem i.owned
                  (omega (arith, h, total-remove_at has_message s.recvs n e))))
              t)
            (λ q u. u))
  ]
  act-Refines ww (Action.wake_recv n) s i t = update_recv-Refines n woken s t
  act-Refines ww (Action.end_recv n) s i t = update_recv-Refines n finish s t
  act-Refines ww (Action.call_poll cx) s i t = ground arith
  act-Refines ww (Action.run_receiver sp) s i t =
      Allows->>= _ SystemRefines (receiver_step ww sp s.mem s.receiver) _
        (receiver_step-Refines ww sp s.mem s.receiver (place s.sender)
          (λ h. written_owns s.sender (message_owner s.mem i.owned (omega (arith, h)))) t)
        (λ q u. u)
  act-Refines ww Action.end_poll s i t = ground arith
  act-Refines ww Action.call_drop_receiver s i t = ground arith

module _ {A W : Type 0} (will_wake : W → W → Bool) {s : System A W} where
  Reachable-Refines : Reachable will_wake s → SystemRefines s
  Reachable-Refines =
      Reachable-along will_wake SystemRefines (act-Refines will_wake) (λ n. ((refl, refl), tt))

  -- However the accesses of the threads interleave, what happens to the message is a run of one cell that is
  -- used once, an action at a time: `send` offers a message to a fresh cell, and stores it or takes back
  -- the same; what `recv` or `poll` returns, or the receiver's drop throws away, is the message that is
  -- stored, which is then gone.
  pub log-IsAtomic : Reachable will_wake s → IsAtomic s.mem.log
  log-IsAtomic r = (Reachable-Refines r).1

  -- Once the sender is gone, the data cell holds just what the cell has stored.
  pub slot-content :
      Reachable will_wake s → s.sender ≡ SenderPc.gone → s.mem.slot ≡ content (cell s.mem.log)
  slot-content r g =
      Settles-content s.mem.slot (cell s.mem.log)
        (subst (λ p. Fits (place p) s.mem.slot (cell s.mem.log)) g (Reachable-Refines r).0)
