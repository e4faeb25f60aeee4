-- ===== src/Conlock/Oneshot/Orderings/SenderMoves.antt =====
-- The clock of a cell where the sender's thread moves.
use forwardr.Base.{
  ◌≡◌, inl, inr, Bool, true, false, if◌then◌else◌, Option, none, some, map, Bool-cases, arith,
}
use forwardr.Conlock.Oneshot.Inner.{Inner}
use forwardr.Conlock.Oneshot.Sender.{SenderPc, sender_step}
use forwardr.Conlock.Oneshot.Recv.{woken}
use forwardr.Conlock.Oneshot.System.{System, Action, wakes_all, act}
use forwardr.Conlock.Oneshot.Invariant.Defs.{recv_view}
use forwardr.Conlock.Oneshot.Invariant.Steps.{Inv}
use forwardr.Conlock.Oneshot.Ledger.{Allows, Allows->>=}
use forwardr.Conlock.Oneshot.Orderings.Access.{
  Exchange, Order, Cell, data_cell, waker_cell, memory, Access, sender_access,
}
use forwardr.Conlock.Oneshot.Orderings.Clock.{Clock, Mark, mark, perform, set_sender, tick}
use forwardr.Conlock.Oneshot.Orderings.Sync.{Agrees}
use forwardr.Conlock.Oneshot.Orderings.Perform.{Passes, Passes-map, perform-Settled}
use forwardr.Conlock.Oneshot.Orderings.Ordered.{Ordered, OrderedWhile, Allows-map, frozen-Passes}
use forwardr.Conlock.Oneshot.Orderings.Threads.{Threads-rouse, Threads-moved}
use forwardr.Conlock.Oneshot.Orderings.Flags.{receiver_part}
use forwardr.Conlock.Oneshot.Orderings.Sender
use forwardr.Conlock.Oneshot.Orderings.Sender.{
  sender-Steps_data, sender-Steps_waker, sender-Steps_memory,
}
use forwardr.Conlock.Oneshot.Orderings.Facts.{receiver_frees-state, sender_frees-left, system-Knows}

by_sender : Clock → Mark → Clock
by_sender k t = record k { word = t.word; sender = t.own; uses = t.uses }

set_sender-Passes :
    (P : Clock → Type 0) (k : Clock) (u : Option Mark)
    → Passes (λ t. P (by_sender k t)) u
    → Passes P (set_sender k u)
unfolding by_sender
set_sender-Passes P k none h = h
set_sender-Passes P k (some t) h = h

module _ (orders : Exchange → Order) (agrees : Agrees orders) {A W : Type 0} (y : Cell) where
  sender_step-Steps :
      (z : Cell) (sp : Bool) (s : System A W)
      → Inv s
      → s.mem.freed ≡ false
      → Allows
          (Sender.Steps z
            (sender_access sp s.mem.state s.sender)
            s.mem
            s.sender
            (recv_view s.recvs)
            (receiver_part s.receiver))
          (sender_step sp s.mem s.sender)
  sender_step-Steps data_cell sp s i live =
      sender-Steps_data _ _ sp s.mem s.sender i.owned.is_known
        (receiver_frees-state s.mem s.receiver i.receiver_ok) (sender_frees-left s i live)
        (system-Knows s i live data_cell) i.sender_ok
  sender_step-Steps waker_cell sp s i live =
      sender-Steps_waker _ _ sp s.mem s.sender i.owned.is_known
        (receiver_frees-state s.mem s.receiver i.receiver_ok) (sender_frees-left s i live)
        (system-Knows s i live waker_cell) i.sender_ok
  sender_step-Steps memory sp s i live =
      sender-Steps_memory _ _ sp s.mem s.sender i.owned.is_known
        (receiver_frees-state s.mem s.receiver i.receiver_ok) (sender_frees-left s i live)
        (system-Knows s i live memory) i.sender_ok

  -- Where the memory is freed, no step uses anything.
  sender_step-frozen :
      (sp : Bool) (m : Inner A W) (p : SenderPc A) (k : Mark)
      → m.freed ≡ true
      → Allows
          (λ q. Passes (λ _. q.0.freed ≡ true) (perform orders y (sender_access sp m.state p) k))
          (sender_step sp m p)
  unfolding sender_step
  sender_step-frozen sp m p k f = ground arith

  after_sender : System A W → Inner A W × SenderPc A → System A W
  after_sender s q = record s {
    mem = q.0;
    sender = q.1;
    recvs = if wakes_all s.sender then map woken s.recvs else s.recvs;
  }

  sender_moved-Ordered :
      (s : System A W) (k : Clock) (a : Access) (q : Inner A W × SenderPc A)
      → Ordered y s k
      → Sender.Steps y a s.mem s.sender (recv_view s.recvs) (receiver_part s.receiver) q
      → Passes
          (λ t. OrderedWhile y (after_sender s q) (by_sender k t))
          (perform orders y a (mark k k.sender))
  unfolding after_sender by_sender
  sender_moved-Ordered s k a q h t =
      Passes-map _ (λ t. OrderedWhile y (after_sender s q) (by_sender k t))
        (λ u v f. record {
          ends = v.sync (t.live f);
          threads = Threads-rouse y (wakes_all s.sender) s.recvs (
              Threads-moved y s.recvs h.threads (ground arith)
                (elim v.counts [ inl e ↦ inl e | inr e ↦ inr (t.alone e) ]));
          before = h.before;
        })
        (perform orders y a (mark k k.sender))
        (perform-Settled orders agrees y a _ _ _ _ h.ends t.follows)

  abbrev SenderPasses : System A W → Clock → Option Mark → Inner A W × SenderPc A → Type 0
  SenderPasses s k u q = Passes (λ t. OrderedWhile y (after_sender s q) (by_sender k t)) u

  sender_step-Passes :
      (sp : Bool) (s : System A W) (k : Clock)
      → Inv s
      → OrderedWhile y s k
      → Allows
          (SenderPasses s k
            (perform orders y (sender_access sp s.mem.state s.sender) (mark k k.sender)))
          (sender_step sp s.mem s.sender)
  unfolding after_sender by_sender
  sender_step-Passes sp s k i h =
      let x = sender_step sp s.mem s.sender in
      let u = perform orders y (sender_access sp s.mem.state s.sender) (mark k k.sender) in
      elim (Bool-cases s.mem.freed) [
        | inl frozen ↦
            Allows-map _ _ x
              (λ q. frozen-Passes q.0 (λ t. Ordered y (after_sender s q) (by_sender k t)) u)
              (sender_step-frozen sp s.mem s.sender (mark k k.sender) frozen)
        | inr live ↦
            Allows-map _ _ x (λ q. sender_moved-Ordered s k _ q (h live))
              (sender_step-Steps y sp s i live)
      ]

  pub move_sender-Ordered :
      (ww : W → W → Bool) (sp : Bool) (s : System A W) (k : Clock)
      → Inv s
      → OrderedWhile y s k
      → Allows
          (λ s'. Passes (OrderedWhile y s') (tick orders y (Action.run_sender sp) s k))
          (act ww (Action.run_sender sp) s)
  unfolding act tick after_sender by_sender
  move_sender-Ordered ww sp s k i h =
      Allows->>= _ (λ s'. Passes (OrderedWhile y s') (tick orders y (Action.run_sender sp) s k))
        (sender_step sp s.mem s.sender) _ (sender_step-Passes sp s k i h)
        (λ q. set_sender-Passes (OrderedWhile y (after_sender s q)) k _)
