-- ===== src/Conlock/Oneshot/Orderings/Races.antt =====
-- Whole histories of a channel with the clock of a cell.
use forwardr.Base.{◌⊎◌, ℕ, ◌≡◌, refl, Bool, Option, none, some, List, [], ◌∷◌, arith}
use forwardr.Conlock.Oneshot.Inner.{◌>>=◌, Outcome, ok, fault}
use forwardr.Conlock.Oneshot.Recv.{woken}
use forwardr.Conlock.Oneshot.System.{System, Action, channel, finish, act}
use forwardr.Conlock.Oneshot.Invariant.Defs.{Ensures}
use forwardr.Conlock.Oneshot.Invariant.Steps.{Inv, act-Inv}
use forwardr.Conlock.Oneshot.Invariant.Start.{channel-Inv}
use forwardr.Conlock.Oneshot.Ledger.{Allows}
use forwardr.Conlock.Oneshot.Orderings.Access.{Exchange, Order, set_wakeless, success_order, Cell}
use forwardr.Conlock.Oneshot.Orderings.Clock.{Clock, start, tick, ordered_run}
use forwardr.Conlock.Oneshot.Orderings.Sync.{Agrees}
use forwardr.Conlock.Oneshot.Orderings.Perform.{Passes}
use forwardr.Conlock.Oneshot.Orderings.Threads.{thread_knows-woken, thread_knows-finish}
use forwardr.Conlock.Oneshot.Orderings.Calls.{
  begin_send-Ordered, begin_drop_sender-Ordered, begin_poll-Ordered, begin_drop_receiver-Ordered,
  finish_poll-Ordered, update_recv-Ordered, share_if-Ordered, begin_recv-Ordered,
}
use forwardr.Conlock.Oneshot.Orderings.Ordered.{OrderedWhile}
use forwardr.Conlock.Oneshot.Orderings.SenderMoves.{move_sender-Ordered}
use forwardr.Conlock.Oneshot.Orderings.ReceiverMoves.{move_receiver-Ordered}
use forwardr.Conlock.Oneshot.Orderings.RecvMoves.{move_recv-Ordered}

-- The history has run to its end, in order.
abbrev Orderly : Outcome (Option Clock) → Type 0
Orderly (ok (some k)) = Unit
Orderly (ok none) = ⊥
Orderly (fault _) = ⊥

goes_on :
    {A W : Type 0} (y : Cell) (f : System A W → Clock → Outcome (Option Clock))
    → ((s : System A W) (k : Clock) → Inv s → OrderedWhile y s k → Orderly (f s k))
    → (x : Outcome (System A W)) (u : Option Clock) → Ensures Inv x
    → Allows (λ s. Passes (OrderedWhile y s) u) x
    → Orderly (x >>= λ s. elim u [ none ↦ ok none | some k ↦ f s k ])
goes_on y f h (ok s) (some k) i p = h s k i p
goes_on y f h (ok s) none i p = p
goes_on y f h (fault e) u i p = i

Orderly-ok : (x : Outcome (Option Clock)) → Orderly x → (k : Clock) × (x ≡ ok (some k))
Orderly-ok (ok (some k)) h = (k, refl)
Orderly-ok (ok none) h = elim h [ ]
Orderly-ok (fault e) h = elim h [ ]

module _ (orders : Exchange → Order) (agrees : Agrees orders) {A W : Type 0} (y : Cell)
    (ww : W → W → Bool) where
  tick-Ordered :
      (a : Action A W) (s : System A W) (k : Clock)
      → Inv s
      → OrderedWhile y s k
      → Allows (λ s'. Passes (OrderedWhile y s') (tick orders y a s k)) (act ww a s)
  unfolding act tick
  tick-Ordered (Action.call_send v) s k i h = begin_send-Ordered y v s k h
  tick-Ordered Action.call_drop_sender s k i h = begin_drop_sender-Ordered y s k h
  tick-Ordered (Action.run_sender sp) s k i h = move_sender-Ordered orders agrees y ww sp s k i h
  tick-Ordered (Action.call_recv n) s k i h =
      begin_recv-Ordered y n s _ (share_if-Ordered y _ n s k h)
  tick-Ordered (Action.run_recv n sp) s k i h = move_recv-Ordered orders agrees y n ww sp s k i h
  tick-Ordered (Action.wake_recv n) s k i h =
      update_recv-Ordered y n woken s k (thread_knows-woken y) h
  tick-Ordered (Action.end_recv n) s k i h =
      update_recv-Ordered y n finish s k (thread_knows-finish y) h
  tick-Ordered (Action.call_poll cx) s k i h = begin_poll-Ordered y cx s k h
  tick-Ordered (Action.run_receiver sp) s k i h =
      move_receiver-Ordered orders agrees y ww sp s k i h
  tick-Ordered Action.end_poll s k i h = finish_poll-Ordered y s k h
  tick-Ordered Action.call_drop_receiver s k i h = begin_drop_receiver-Ordered y s k h

  ordered_run-Orderly :
      (h : List (Action A W)) (s : System A W) (k : Clock)
      → Inv s
      → OrderedWhile y s k
      → Orderly (ordered_run orders y ww h s k)
  unfolding ordered_run
  ordered_run-Orderly [] s k i o = tt
  ordered_run-Orderly (a ∷ h) s k i o =
      goes_on y (ordered_run orders y ww h) (ordered_run-Orderly h) (act ww a s)
        (tick orders y a s k) (act-Inv ww a s i) (tick-Ordered a s k i o)

  channel-Ordered : (n : ℕ) → OrderedWhile y (channel {A = A} {W = W} n) start
  channel-Ordered n live = record {
    ends = ground arith;
    threads = record { behind = λ i. ground arith; knowing = λ i e k. ground arith };
    before = omega arith;
  }

-- With the orderings that the source declares, where that of `try_sync_set_wakeless_acquire` may be any other,
-- no history of a channel, with any number of threads in `recv`, has a data race: each use of the data cell
-- or of the waker cell is ordered after all uses of that cell before it, and the memory is freed only
-- after all of those and the other endpoint's last access. Every history runs to its end.
pub ordered_run-ok :
    {A W : Type 0} (orders : Exchange → Order)
    → ((x : Exchange) → (orders x ≡ success_order x) ⊎ (x ≡ set_wakeless))
    → (will_wake : W → W → Bool) (y : Cell) (n : ℕ) (h : List (Action A W))
    → (k : Clock) × (ordered_run orders y will_wake h (channel n) start ≡ ok (some k))
ordered_run-ok {A} {W} orders agrees ww y n h = Orderly-ok _ (
    ordered_run-Orderly orders agrees y ww h (channel n) start (channel-Inv A W n)
      (channel-Ordered orders agrees y ww n))
