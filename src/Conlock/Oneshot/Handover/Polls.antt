-- ===== src/Conlock/Oneshot/Handover/Polls.antt =====
-- A poll once the sender has left.
use forwardr.Base.{
  ◌≡◌, refl, sym, subst, inl, inr, Bool, true, false, none, some, List, ◌∷◌, replicate,
}
use forwardr.Conlock.Oneshot.Inner.{Inner, Event, ok, record_event}
use forwardr.Conlock.Oneshot.Sender
use forwardr.Conlock.Oneshot.Receiver.{free, poll_load, poll_returned, receiver_step}
use forwardr.Conlock.Oneshot.Receiver
use forwardr.Conlock.Oneshot.Recv.{RecvPc}
use forwardr.Conlock.Oneshot.System.{System, Action, all_idle, act, run}
use forwardr.Conlock.Oneshot.Invariant.Start.{Reachable, Reachable-Inv}
use forwardr.Conlock.Oneshot.Handover.Settled.{
  Settled, Settled-cases, alone, alone_again, quiet_cell, word_10, word_11,
}

module _ {A W : Type 0} (ww : W → W → Bool) (cx : W) where
  abbrev poll_to_end : List (Action A W)
  poll_to_end = Action.call_poll cx ∷ replicate 3 (Action.run_receiver false)

  abbrev Polls : System A W → Type 0
  Polls s =
      (t : System A W) × (run ww poll_to_end s ≡ ok t)
      × (t.receiver ≡ poll_returned (Receiver.ready s.mem.slot))

  poll_ready_cell :
      (m : Inner A W) (v : A) (rs : List (RecvPc A))
      → all_idle rs ≡ true
      → Polls (alone (word_11 m v) rs)
  unfolding run act receiver_step
  poll_ready_cell m v rs quiet = (
    record (alone (record_event (Event.delivered v) (word_10 m)) rs) {
      receiver = poll_returned (Receiver.ready (some v));
    },
    rw quiet refl,
    refl,
  )

  poll_empty_cell :
      (m : Inner A W) (rs : List (RecvPc A)) → all_idle rs ≡ true → Polls (alone (word_10 m) rs)
  unfolding run act receiver_step
  poll_empty_cell m rs quiet = (
    record (alone (word_10 m) rs) { receiver = poll_returned (Receiver.ready none) },
    rw quiet refl,
    refl,
  )

  poll_any_cell :
      (m : Inner A W) (rs : List (RecvPc A)) → all_idle rs ≡ true → Settled m → Polls (alone m rs)
  poll_any_cell m rs quiet h = elim (Settled-cases m h) [
    | inl (v, e) ↦ subst (λ k. Polls (alone k rs)) (sym e) (poll_ready_cell m v rs quiet)
    | inr e ↦ subst (λ k. Polls (alone k rs)) (sym e) (poll_empty_cell m rs quiet)
  ]

  pub poll_after_gone :
      {s : System A W}
      → Reachable ww s
      → s.sender ≡ Sender.gone
      → s.receiver ≡ free
      → all_idle s.recvs ≡ true
      → (t : System A W) × (run ww poll_to_end s ≡ ok t)
        × (t.receiver ≡ poll_returned (Receiver.ready s.mem.slot))
  poll_after_gone {s} r g f quiet =
      subst Polls (alone_again g f)
        (poll_any_cell s.mem s.recvs quiet (quiet_cell (Reachable-Inv ww r) g f quiet))
