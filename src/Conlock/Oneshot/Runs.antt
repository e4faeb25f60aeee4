-- ===== src/Conlock/Oneshot/Runs.antt =====
-- Runs of a channel on concrete histories, and the theorems there.
use forwardr.Base.{
  ℕ, ◌≡◌, ◌≤◌, ◌+◌, refl, Bool, true, false, none, some, Option, replicate, get_elem?, List, [],
  ◌∷◌, ◌++◌, ◌==◌, total,
}
use forwardr.Conlock.Oneshot.Inner.{Event, ok}
use forwardr.Conlock.Oneshot.Sender
use forwardr.Conlock.Oneshot.Recv
use forwardr.Conlock.Oneshot.Receiver
use forwardr.Conlock.Oneshot.System.{
  System, Action, call_send, call_drop_sender, run_sender, call_recv, run_recv, call_poll,
  run_receiver, end_poll, call_drop_receiver, channel, act, run,
}
use forwardr.Conlock.Oneshot.Invariant.Defs.{known, filled, is_parked}
use forwardr.Conlock.Oneshot.Invariant.Start.{Reachable}
use forwardr.Conlock.Oneshot.Safety.{
  slot_users, waker_users, history_safe, state_known, cells_exclusive, both_gone_freed,
}
use forwardr.Conlock.Oneshot.Alone.Returns.{recv_returns}
use forwardr.Conlock.Oneshot.Ledger.{
  is_call, is_sent, is_rejected, is_taken, in_hand, message_conserved, send_answered,
}
use forwardr.Conlock.Oneshot.Table.{Role, transfers}
use forwardr.Conlock.Oneshot.Refinement.{act-refines-table}
use forwardr.Conlock.Oneshot.Atomic.{IsAtomic, log-IsAtomic}
mod Ends
mod Orders

abbrev Step : Type 0
Step = Action ℕ ℕ

abbrev same_task : ℕ → ℕ → Bool
same_task v w = v == w

abbrev times : ℕ → Step → List Step
times ℕ.zero a = []
times (ℕ.suc n) a = a ∷ times n a

-- The receiver is polled; the sender sends 7, wakes the waker and leaves; the next poll takes 7, and
-- the receiver is dropped.
abbrev whole_life : List Step
whole_life =
    call_poll 5 ∷ times 4 (run_receiver false)
    ++ (end_poll ∷ call_send 7 ∷ times 8 (run_sender false))
    ++ (call_poll 5 ∷ times 4 (run_receiver false))
    ++ (end_poll ∷ call_drop_receiver ∷ times 4 (run_receiver false))

abbrev at_end : System ℕ ℕ
at_end = record {
  mem = record {
    state = 10;
    slot = none;
    waker = none;
    freed = true;
    log = Event.delivered 7 ∷ Event.woke 5 ∷ Event.sent ∷ Event.called 7 ∷ [];
  };
  sender = Sender.gone;
  receiver = Receiver.gone;
  recvs = [];
}

whole_life-at_end : run same_task whole_life (channel 0) ≡ ok at_end
unfolding run
whole_life-at_end = refl

at_end-Reachable : Reachable same_task at_end
at_end-Reachable = (0, whole_life, whole_life-at_end)

-- Two threads wait in `recv` when the sender leaves without a message.
abbrev closed_early : List Step
closed_early =
    call_recv 0 ∷ call_recv 1 ∷ times 3 (run_recv 0 false)
    ++ (times 2 (run_recv 1 false) ++ (call_drop_sender ∷ times 4 (run_sender false)))

abbrev waiting_end : System ℕ ℕ
waiting_end = record {
  mem = record { state = 10; slot = none; waker = none; freed = false; log = [] };
  sender = Sender.gone;
  receiver = Receiver.free;
  recvs = Recv.reload ∷ Recv.reload ∷ [];
}

closed_early-end : run same_task closed_early (channel 2) ≡ ok waiting_end
unfolding run
closed_early-end = refl

history_safe_example : (s : System ℕ ℕ) × (run same_task closed_early (channel 2) ≡ ok s)
history_safe_example = history_safe same_task 2 closed_early

state_known_example : known 10 ≡ true
state_known_example = state_known same_task at_end-Reachable

cells_exclusive_example : (slot_users waiting_end ≤ 1) × (waker_users waiting_end ≤ 1)
cells_exclusive_example = cells_exclusive same_task (2, closed_early, closed_early-end)

recv_returns_example :
    (t : System ℕ ℕ) × (run same_task (replicate 8 (run_recv 1 false)) waiting_end ≡ ok t)
    × (v : Option ℕ) × (get_elem? t.recvs 1 ≡ some (Recv.returned v))
recv_returns_example = recv_returns same_task 1 (2, closed_early, closed_early-end) refl refl refl

both_gone_freed_example :
    (at_end.mem.freed ≡ true) × (filled at_end.mem.slot ≡ 0) × (filled at_end.mem.waker ≡ 0)
both_gone_freed_example = both_gone_freed same_task at_end-Reachable refl refl

message_conserved_example :
    (total is_call at_end.mem.log ≤ 1)
    × (total is_call at_end.mem.log
        ≡ in_hand at_end.sender
          + filled at_end.mem.slot
          + total is_rejected at_end.mem.log
          + total is_taken at_end.mem.log)
message_conserved_example = message_conserved same_task at_end-Reachable

send_answered_example :
    (total is_call at_end.mem.log ≡ total is_sent at_end.mem.log + total is_rejected at_end.mem.log)
    × (total is_taken at_end.mem.log ≡ total is_sent at_end.mem.log)
send_answered_example = send_answered same_task at_end-Reachable refl refl

log-IsAtomic_example : IsAtomic at_end.mem.log
log-IsAtomic_example = log-IsAtomic same_task at_end-Reachable

-- A sender about to say that its message is there, and the access that says so.
abbrev written : System ℕ ℕ
written = record {
  mem = record { state = 0; slot = some 7; waker = none; freed = false; log = Event.called 7 ∷ [] };
  sender = Sender.send_ready 0;
  receiver = Receiver.free;
  recvs = [];
}

abbrev announced : System ℕ ℕ
announced = record {
  mem = record {
    state = 1;
    slot = some 7;
    waker = none;
    freed = false;
    log = Event.sent ∷ Event.called 7 ∷ [];
  };
  sender = Sender.drop_load;
  receiver = Receiver.free;
  recvs = [];
}

written-Reachable : Reachable same_task written
unfolding run
written-Reachable = (0, call_send 7 ∷ times 2 (run_sender false), refl)

written-announced : act same_task (run_sender false) written ≡ ok announced
unfolding act
written-announced = refl

act-refines-table_example : transfers Role.by_send 0 1 ≡ true
act-refines-table_example =
    act-refines-table same_task (run_sender false) written-Reachable written-announced
