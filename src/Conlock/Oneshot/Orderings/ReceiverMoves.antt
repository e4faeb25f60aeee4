-- ===== src/Conlock/Oneshot/Orderings/ReceiverMoves.antt =====
-- The clock of a cell where the thread moves that has the receiver to itself.
use forwardr.Base.{◌≡◌, inl, inr, Bool, true, false, Option, none, some, Bool-cases, arith}
use forwardr.Conlock.Oneshot.Inner.{Inner}
use forwardr.Conlock.Oneshot.Receiver.{ReceiverPc, receiver_step}
use forwardr.Conlock.Oneshot.System.{System, Action, act}
use forwardr.Conlock.Oneshot.Invariant.Defs.{recv_view}
use forwardr.Conlock.Oneshot.Invariant.Steps.{Inv}
use forwardr.Conlock.Oneshot.Ledger.{Allows, Allows->>=}
use forwardr.Conlock.Oneshot.Orderings.Access.{
  Exchange, Order, Cell, data_cell, waker_cell, memory, Access, receiver_access,
}
use forwardr.Conlock.Oneshot.Orderings.Clock.{Clock, Mark, mark, perform, set_receiver, tick}
use forwardr.Conlock.Oneshot.Orderings.Sync.{Sync-flip}
use forwardr.Conlock.Oneshot.Orderings.Sync.{Agrees}
use forwardr.Conlock.Oneshot.Orderings.Perform.{Passes, Passes-map, perform-Settled}
use forwardr.Conlock.Oneshot.Orderings.Ordered.{Ordered, OrderedWhile, Allows-map, frozen-Passes}
use forwardr.Conlock.Oneshot.Orderings.Threads.{Threads-moved}
use forwardr.Conlock.Oneshot.Orderings.Flags.{sender_part}
use forwardr.Conlock.Oneshot.Orderings.Receiver
use forwardr.Conlock.Oneshot.Orderings.Receiver.{
  receiver-Steps_data, receiver-Steps_waker, receiver-Steps_memory,
}
use forwardr.Conlock.Oneshot.Orderings.Facts.{sender-PartOk, receiver_frees-left, system-Knows}

by_receiver : Clock → Mark → Clock
by_receiver k t = record k { word = t.word; side = t.own; exclusive = t.own; uses = t.uses }

set_receiver-Passes :
    (P : Clock → Type 0) (k : Clock) (u : Option Mark)
    → Passes (λ t. P (by_receiver k t)) u
    → Passes P (set_receiver k u)
unfolding by_receiver
set_receiver-Passes P k none h = h
set_receiver-Passes P k (some t) h = h

module _ (orders : Exchange → Order) (agrees : Agrees orders) {A W : Type 0} (y : Cell)
    (ww : W → W → Bool) where
  receiver_step-Steps :
      (z : Cell) (sp : Bool) (s : System A W)
      → Inv s
      → s.mem.freed ≡ false
      → Allows
          (Receiver.Steps z
            (receiver_access sp s.mem.state s.receiver)
            s.mem
            s.receiver
            (recv_view s.recvs)
            (sender_part s.sender))
          (receiver_step ww sp s.mem s.receiver)
  receiver_step-Steps data_cell sp s i live =
      receiver-Steps_data ww _ _ _ sp s.mem s.receiver i.owned.is_known
        (sender-PartOk s.mem s.sender i.sender_ok) (receiver_frees-left s i live)
        (system-Knows s i live data_cell) i.receiver_ok
  receiver_step-Steps waker_cell sp s i live =
      receiver-Steps_waker ww _ _ _ sp s.mem s.receiver i.owned.is_known
        (sender-PartOk s.mem s.sender i.sender_ok) (receiver_frees-left s i live)
        (system-Knows s i live waker_cell) i.receiver_ok
  receiver_step-Steps memory sp s i live =
      receiver-Steps_memory ww _ _ _ sp s.mem s.receiver i.owned.is_known
        (sender-PartOk s.mem s.sender i.sender_ok) (receiver_frees-left s i live)
        (system-Knows s i live memory) i.receiver_ok

  receiver_step-frozen :
      (sp : Bool) (m : Inner A W) (e : ReceiverPc A W) (k : Mark)
      → m.freed ≡ true
      → Allows
          (λ q. Passes (λ _. q.0.freed ≡ true) (perform orders y (receiver_access sp m.state e) k))
          (receiver_step ww sp m e)
  unfolding receiver_step
  receiver_step-frozen sp m e k f = ground arith

  after_receiver : System A W → Inner A W × ReceiverPc A W → System A W
  after_receiver s q = record s { mem = q.0; receiver = q.1 }

  receiver_moved-Ordered :
      (s : System A W) (k : Clock) (a : Access) (q : Inner A W × ReceiverPc A W)
      → Ordered y s k
      → Receiver.Steps y a s.mem s.receiver (recv_view s.recvs) (sender_part s.sender) q
      → Passes
          (λ t. OrderedWhile y (after_receiver s q) (by_receiver k t))
          (perform orders y a (mark k k.side))
  unfolding after_receiver by_receiver
  receiver_moved-Ordered s k a q h t =
      Passes-map _ (λ t. OrderedWhile y (after_receiver s q) (by_receiver k t))
        (λ u v f. record {
          ends = Sync-flip _ _ _ _ _ (v.sync (t.live f));
          threads =
              Threads-moved y s.recvs h.threads v.grows
                (elim v.counts [ inl e ↦ inl e | inr e ↦ inr (t.alone e) ]);
          before = omega arith;
        })
        (perform orders y a (mark k k.side))
        (perform-Settled orders agrees y a _ _ _ _ (Sync-flip _ _ _ _ _ h.ends) t.follows)

  abbrev ReceiverPasses : System A W → Clock → Option Mark → Inner A W × ReceiverPc A W → Type 0
  ReceiverPasses s k u q = Passes (λ t. OrderedWhile y (after_receiver s q) (by_receiver k t)) u

  receiver_step-Passes :
      (sp : Bool) (s : System A W) (k : Clock)
      → Inv s
      → OrderedWhile y s k
      → Allows
          (ReceiverPasses s k
            (perform orders y (receiver_access sp s.mem.state s.receiver) (mark k k.side)))
          (receiver_step ww sp s.mem s.receiver)
  unfolding after_receiver by_receiver
  receiver_step-Passes sp s k i h =
      let x = receiver_step ww sp s.mem s.receiver in
      let u = perform orders y (receiver_access sp s.mem.state s.receiver) (mark k k.side) in
      elim (Bool-cases s.mem.freed) [
        | inl frozen ↦
            Allows-map _ _ x
              (λ q. frozen-Passes q.0 (λ t. Ordered y (after_receiver s q) (by_receiver k t)) u)
              (receiver_step-frozen sp s.mem s.receiver (mark k k.side) frozen)
        | inr live ↦
            Allows-map _ _ x (λ q. receiver_moved-Ordered s k _ q (h live))
              (receiver_step-Steps y sp s i live)
      ]

  pub move_receiver-Ordered :
      (sp : Bool) (s : System A W) (k : Clock)
      → Inv s
      → OrderedWhile y s k
      → Allows
          (λ s'. Passes (OrderedWhile y s') (tick orders y (Action.run_receiver sp) s k))
          (act ww (Action.run_receiver sp) s)
  unfolding act tick after_receiver by_receiver
  move_receiver-Ordered sp s k i h =
      Allows->>= _ (λ s'. Passes (OrderedWhile y s') (tick orders y (Action.run_receiver sp) s k))
        (receiver_step ww sp s.mem s.receiver) _ (receiver_step-Passes sp s k i h)
        (λ q. set_receiver-Passes (OrderedWhile y (after_receiver s q)) k _)
