-- ===== src/Conlock/Oneshot/Handover.antt =====
-- What a receiving call returns once the sender is gone.
mod Settled
mod Polls
mod Receives
use forwardr.Base.{
  ℕ, ◌≡◌, refl, ap, sym, subst, ◌∙◌, ◌⊎◌, inl, inr, Bool, true, false, Option, none, some, List, [],
  ◌∷◌, get_elem?, replicate, get_elem?-set, set, total, arith,
}
use forwardr.Conlock.Oneshot.Inner.{Inner, Event, ok, ◌>>=◌, record_event}
use forwardr.Conlock.Oneshot.Sender
use forwardr.Conlock.Oneshot.Receiver.{free, poll_load, poll_returned, receiver_step}
use forwardr.Conlock.Oneshot.Receiver
use forwardr.Conlock.Oneshot.Recv.{RecvPc, idle, load, take, take_data, returned, recv_step}
use forwardr.Conlock.Oneshot.System.{System, Action, all_idle, update_recv, act, run}
use forwardr.Conlock.Oneshot.Invariant.Defs.{
  filled, MemView, SenderView, RecvView, ReceiverView, Owned, owns, has, has_message,
  recv-RecvBounds,
}
use forwardr.Conlock.Oneshot.Atomic.{cell, content, slot-content}
use forwardr.Conlock.Oneshot.Invariant.Threads.{active-all_idle}
use forwardr.Conlock.Oneshot.Invariant.Steps.{Inv}
use forwardr.Conlock.Oneshot.Invariant.Start.{Reachable, Reachable-Inv}
use forwardr.Conlock.Oneshot.Handover.Polls.{poll_after_gone}
use forwardr.Conlock.Oneshot.Handover.Receives.{recv_after_gone}

module _ {A W : Type 0} (will_wake : W → W → Bool) where
  -- In a reachable state whose sender is gone and in which no call on the receiver is under way: a poll
  -- ends after three accesses and is ready, and a thread that calls `recv` instead returns after three. Each
  -- gives the message that was sent and not taken since, or `None` if there is none: what the log leaves
  -- in a cell that is used once.
  pub taken_after_gone :
      {s : System A W} (cx : W) (n : ℕ)
      → Reachable will_wake s
      → s.sender ≡ Sender.gone
      → s.receiver ≡ free
      → all_idle s.recvs ≡ true
      → get_elem? s.recvs n ≡ some idle
      → ((t : System A W) × (run will_wake
              (Action.call_poll cx ∷ replicate 3 (Action.run_receiver false))
              s
            ≡ ok t)
          × (t.receiver ≡ poll_returned (Receiver.ready (content (cell s.mem.log)))))
        × ((t : System A W) × (run will_wake
                (Action.call_recv n ∷ replicate 3 (Action.run_recv n false))
                s
              ≡ ok t)
            × (get_elem? t.recvs n ≡ some (returned (content (cell s.mem.log)))))
  taken_after_gone cx n r g f quiet at =
      let same = slot-content will_wake r g in
      let (t, polls, polled) = poll_after_gone will_wake cx r g f quiet in
      let (u, receives, received) = recv_after_gone will_wake n r g f quiet at in
      (
        (t, polls, polled ∙ ap (λ o. poll_returned (Receiver.ready o)) same),
        (u, receives, received ∙ ap (λ o. some (returned o)) same),
      )
