-- ===== src/Conlock/Oneshot/Runs/Ends.antt =====
-- Runs in which a call ends, at concrete states, and the theorems there.
use forwardr.Base.{ℕ, ◌≡◌, refl, true, false, none, some, List, [], ◌∷◌, ◌++◌, replicate, get_elem?}
use forwardr.Conlock.Oneshot.Inner.{Event, ok}
use forwardr.Conlock.Oneshot.Sender
use forwardr.Conlock.Oneshot.Recv
use forwardr.Conlock.Oneshot.Receiver
use forwardr.Conlock.Oneshot.System.{
  System, call_send, run_sender, call_recv, run_recv, call_poll, run_receiver, end_poll, act, run,
}
use forwardr.Conlock.Oneshot.Invariant.Start.{Reachable}
use forwardr.Conlock.Oneshot.Alone.Receives.{call_kind}
use forwardr.Conlock.Oneshot.Alone.Finish.{
  sender_rests, receiver_rests, recv_rests, called_at, calls_finish,
}
use forwardr.Conlock.Oneshot.Alone.Sends.{is_held}
use forwardr.Conlock.Oneshot.Handover.{taken_after_gone}
use forwardr.Conlock.Oneshot.Wakeup.Stored.{wakes, WakesTask}
use forwardr.Conlock.Oneshot.Wakeup.Pending.{pending_woken}
use forwardr.Conlock.Oneshot.Runs.{Step, same_task, times}

-- The sender has sent 7 and left, next to a thread that could call `recv`.
abbrev sent_early : List Step
sent_early = call_send 7 ∷ times 8 (run_sender false)

abbrev left_behind : System ℕ ℕ
left_behind = record {
  mem = record {
    state = 11;
    slot = some 7;
    waker = none;
    freed = false;
    log = Event.sent ∷ Event.called 7 ∷ [];
  };
  sender = Sender.gone;
  receiver = Receiver.free;
  recvs = Recv.idle ∷ [];
}

left_behind-Reachable : Reachable same_task left_behind
unfolding run
left_behind-Reachable = (1, sent_early, refl)

taken_after_gone_example :
    ((t : System ℕ ℕ) × (run same_task (call_poll 5 ∷ replicate 3 (run_receiver false)) left_behind
        ≡ ok t)
      × (t.receiver ≡ Receiver.poll_returned (Receiver.ready (some 7))))
    × ((t : System ℕ ℕ) × (run same_task (call_recv 0 ∷ replicate 3 (run_recv 0 false)) left_behind
          ≡ ok t)
        × (get_elem? t.recvs 0 ≡ some (Recv.returned (some 7))))
taken_after_gone_example = taken_after_gone same_task 5 0 left_behind-Reachable refl refl refl refl

-- A sender that has sent 7 and has not woken anyone yet, and a thread in `recv` that sleeps.
abbrev asleep : System ℕ ℕ
asleep = record {
  mem = record {
    state = 1;
    slot = some 7;
    waker = none;
    freed = false;
    log = Event.sent ∷ Event.called 7 ∷ [];
  };
  sender = Sender.send_wake_all;
  receiver = Receiver.free;
  recvs = Recv.parked ∷ [];
}

asleep-Reachable : Reachable same_task asleep
unfolding run
asleep-Reachable = (
  1,
  call_recv 0 ∷ times 3 (run_recv 0 false) ++ (call_send 7 ∷ times 3 (run_sender false)),
  refl,
)

calls_finish_example :
    ((t : System ℕ ℕ) × (run same_task (replicate 8 (run_sender false)) asleep ≡ ok t)
      × (sender_rests t.sender ≡ true)
      × (is_held t.sender ≡ false))
    × ((t : System ℕ ℕ) × (run same_task (replicate 8 (run_receiver false)) asleep ≡ ok t)
        × (receiver_rests t.receiver ≡ true)
        × (call_kind t.receiver ≡ 0))
    × ((t : System ℕ ℕ) × (run same_task (replicate 8 (run_recv 0 false)) asleep ≡ ok t)
        × (recv_rests (get_elem? t.recvs 0) ≡ true)
        × (called_at 0 t ≡ called_at 0 asleep))
calls_finish_example = calls_finish same_task asleep-Reachable 0

-- A poll has stored waker 5 and is about to answer; then it has answered.
abbrev registered : System ℕ ℕ
registered = record {
  mem = record { state = 28; slot = none; waker = some 5; freed = false; log = [] };
  sender = Sender.held;
  receiver = Receiver.poll_unset 28 5;
  recvs = [];
}

abbrev answered : System ℕ ℕ
answered = record {
  mem = record { state = 20; slot = none; waker = some 5; freed = false; log = [] };
  sender = Sender.held;
  receiver = Receiver.poll_returned Receiver.pending;
  recvs = [];
}

-- The task sleeps; the sender sends 7, wakes it and leaves.
abbrev sent_late : List Step
sent_late = end_poll ∷ call_send 7 ∷ times 8 (run_sender false)

abbrev woken_up : System ℕ ℕ
woken_up = record {
  mem = record {
    state = 11;
    slot = some 7;
    waker = none;
    freed = false;
    log = Event.woke 5 ∷ Event.sent ∷ Event.called 7 ∷ [];
  };
  sender = Sender.gone;
  receiver = Receiver.free;
  recvs = [];
}

registered-Reachable : Reachable same_task registered
unfolding run
registered-Reachable = (0, call_poll 5 ∷ times 3 (run_receiver false), refl)

registered-answered : act same_task (run_receiver false) registered ≡ ok answered
unfolding act
registered-answered = refl

answered-woken_up : run same_task sent_late answered ≡ ok woken_up
unfolding run
answered-woken_up = refl

pending_woken_example : (w : ℕ) × (wakes woken_up.mem.log ≡ w ∷ []) × WakesTask same_task 5 w
pending_woken_example =
    pending_woken same_task 28 5 false sent_late registered-Reachable refl registered-answered refl
      refl answered-woken_up refl
