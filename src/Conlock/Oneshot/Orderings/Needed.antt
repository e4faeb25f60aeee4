-- ===== src/Conlock/Oneshot/Orderings/Needed.antt =====
-- What a channel would do if one of its exchanges had a weaker ordering.
use forwardr.Base.{
  ℕ, ◌≡◌, ◌⊎◌, inl, inr, refl, false, if◌then◌else◌, ◌==◌, none, List, [], ◌∷◌, ◌++◌, replicate,
}
use forwardr.Conlock.Oneshot.Inner.{ok}
use forwardr.Conlock.Oneshot.System.{
  Action, call_send, call_drop_sender, run_sender, call_recv, run_recv, call_poll, run_receiver,
  end_poll, call_drop_receiver, channel, act,
}
use forwardr.Conlock.Oneshot.Orderings.Access.{
  Order, relaxed, Exchange, setup_ready, setup_dataless, unset_ready, setup_closed_dropping,
  setup_closed_wake, setup_closed, set_closed_dropping, set_dropping, set_waiting,
  set_waiting_pending_wakeless, unset_pending, set_wakeless, unset_wakeless, success_order, Cell,
  data_cell, waker_cell, memory,
}
use forwardr.Conlock.Oneshot.Orderings.Clock.{start, ordered_run}

-- The exchanges by number, to compare them.
abbrev number : Exchange → ℕ
number setup_ready = 0
number setup_dataless = 1
number unset_ready = 2
number setup_closed_dropping = 3
number setup_closed_wake = 4
number setup_closed = 5
number set_closed_dropping = 6
number set_dropping = 7
number set_waiting = 8
number set_waiting_pending_wakeless = 9
number unset_pending = 10
number set_wakeless = 11
number unset_wakeless = 12

-- The orderings of the source, but that one exchange is relaxed.
abbrev pub weakened : Exchange → Exchange → Order
weakened x z = if number z == number x then relaxed else success_order z

abbrev Step : Type 0
Step = Action ℕ ℕ

abbrev sender_runs : ℕ → List Step
sender_runs n = replicate n (run_sender false)

abbrev receiver_runs : ℕ → List Step
receiver_runs n = replicate n (run_receiver false)

abbrev recv_runs : ℕ → List Step
recv_runs n = replicate n (run_recv 0 false)

-- A message is there; a poll waits with its waker; a poll is about to store it.
abbrev sent : List Step
sent = call_send 7 ∷ sender_runs 3

abbrev waiting_poll : List Step
waiting_poll = call_poll 5 ∷ receiver_runs 4 ++ (end_poll ∷ [])

abbrev starting_poll : List Step
starting_poll = call_poll 5 ∷ receiver_runs 2

-- Some history, with at most one thread in `recv`, runs into a race.
abbrev pub Races : (Exchange → Order) → Type 0
Races orders =
    (y : Cell) × (h : List Step) × (ordered_run orders y ◌==◌ h (channel 1) start ≡ ok none)

-- Each exchange that the source does not declare relaxed, other than `try_sync_set_wakeless_acquire` and
-- `try_unset_pending_acquire`, needs its ordering: with that exchange relaxed, and all others as they are
-- declared, some history of a channel, with at most one thread in `recv`, has a data race.
pub weakened-Races :
    (x : Exchange)
    → (success_order x ≡ relaxed) ⊎ ((x ≡ set_wakeless) ⊎ (x ≡ unset_pending)) ⊎ Races (weakened x)
unfolding ordered_run act
weakened-Races setup_ready = inr (inr (data_cell, sent ++ (call_recv 0 ∷ recv_runs 3), refl))
weakened-Races setup_dataless = inr (inr (data_cell, sent ++ (call_recv 0 ∷ recv_runs 3), refl))
weakened-Races unset_ready =
    inr (inr (data_cell, sent ++ (call_drop_receiver ∷ receiver_runs 3), refl))
weakened-Races setup_closed_dropping = inr (
    inr (
      memory,
      starting_poll
          ++ (call_drop_sender ∷ sender_runs 2)
          ++ receiver_runs 3
          ++ (end_poll ∷ call_drop_receiver ∷ receiver_runs 3),
      refl,
    ))
weakened-Races setup_closed_wake = inl refl
weakened-Races setup_closed =
    inr (inr (waker_cell, waiting_poll ++ (call_drop_sender ∷ sender_runs 3), refl))
weakened-Races set_closed_dropping =
    inr (
      inr
        (memory, call_drop_sender ∷ sender_runs 2 ++ (call_drop_receiver ∷ receiver_runs 3), refl))
weakened-Races set_dropping = inr (
    inr (
      memory,
      waiting_poll ++ (call_drop_sender ∷ sender_runs 4) ++ (call_drop_receiver ∷ receiver_runs 3),
      refl,
    ))
weakened-Races set_waiting = inl refl
weakened-Races set_waiting_pending_wakeless = inl refl
weakened-Races unset_pending = inr (inl (inr refl))
weakened-Races set_wakeless = inr (inl (inl refl))
weakened-Races unset_wakeless =
    inr (inr (waker_cell, waiting_poll ++ (call_send 7 ∷ sender_runs 5), refl))
