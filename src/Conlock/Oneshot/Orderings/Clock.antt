-- ===== src/Conlock/Oneshot/Orderings/Clock.antt =====
-- Which accesses to a cell happen before which, by the orderings that oneshot.rs declares. Per cell, a
-- clock counts the accesses made, and holds how many of them each thread, and the word, are ordered
-- after. An access of a thread that is not ordered after all earlier ones is a data race.
use forwardr.Base.{
  ℕ, suc, Bool, true, false, if◌then◌else◌, ◌==◌, leb, Option, none, some, List, [], ◌∷◌, get_elem?,
}
use forwardr.Conlock.Oneshot.Inner.{Outcome, ok, ◌>>=◌}
use forwardr.Conlock.Oneshot.Recv.{RecvPc, idle}
use forwardr.Conlock.Oneshot.Receiver.{ReceiverPc}
use forwardr.Conlock.Oneshot.System.{System, Action, act}
use forwardr.Conlock.Oneshot.Orderings.Access.{
  Order, relaxed, acquire, release, Exchange, Cell, data_cell, waker_cell, memory, Access, silent,
  load, exchange, leave, touch, free, sender_access, recv_access, receiver_access,
}

-- What the word and one thread are ordered after, and the accesses made to the cell.
pub record Mark : Type 0 where
  pub word : ℕ
  pub own : ℕ
  pub uses : ℕ

abbrev pub later : ℕ → ℕ → ℕ
later a b = if leb a b then b else a

abbrev pub same_cell : Cell → Cell → Bool
same_cell data_cell data_cell = true
same_cell waker_cell waker_cell = true
same_cell memory memory = true
same_cell _ _ = false

-- Only `acquire` and `release` order anything; an exchange keeps what earlier ones have released.
abbrev pub order : Order → Mark → Mark
order relaxed k = k
order acquire k = record k { own = later k.own k.word }
order release k = record k { word = later k.word k.own }

-- `none` is a race.
abbrev pub use_cell : Mark → Option Mark
use_cell k =
    if leb k.uses k.own then some (record k { own = suc k.uses; uses = suc k.uses }) else none

abbrev pub after_leaving : (Exchange → Order) → Exchange → Option Mark → Option Mark
after_leaving orders x none = none
after_leaving orders x (some k) = some (order (orders x) k)

-- `orders` is the ordering of each exchange that succeeds.
abbrev pub perform : (Exchange → Order) → Cell → Access → Mark → Option Mark
perform orders y silent k = some k
perform orders y (load o) k = some (order o k)
perform orders y (exchange x true) k = some (order (orders x) k)
perform orders y (exchange x false) k = some k
perform orders y (leave x true) k =
    after_leaving orders x (if same_cell y memory then use_cell k else some k)
perform orders y (leave x false) k = some k
perform orders y (touch z) k = if same_cell y z then use_cell k else some k
perform orders y free k = use_cell k

-- `side` is what an exclusive call on the receiver is ordered after: Rust orders it after all that the
-- threads have done that shared the receiver before. `exclusive` is what the exclusive calls are ordered
-- after that have been made: Rust orders each shared call after those before it.
pub record Clock : Type 0 where
  pub word : ℕ
  pub sender : ℕ
  pub side : ℕ
  pub exclusive : ℕ
  pub recvs : ℕ → ℕ
  pub uses : ℕ

abbrev pub start : Clock
start = record { word = 0; sender = 0; side = 0; exclusive = 0; recvs = λ _. 0; uses = 0 }

abbrev pub put : ℕ → ℕ → (ℕ → ℕ) → ℕ → ℕ
put i v f j = if j == i then v else f j

abbrev pub mark : Clock → ℕ → Mark
mark k own = record { word = k.word; own = own; uses = k.uses }

abbrev pub set_sender : Clock → Option Mark → Option Clock
set_sender k none = none
set_sender k (some t) = some (record k { word = t.word; sender = t.own; uses = t.uses })

abbrev pub set_recv : ℕ → Clock → Option Mark → Option Clock
set_recv i k none = none
set_recv i k (some t) = some (record k {
  word = t.word;
  side = later k.side t.own;
  recvs = put i t.own k.recvs;
  uses = t.uses;
})

abbrev pub set_receiver : Clock → Option Mark → Option Clock
set_receiver k none = none
set_receiver k (some t) =
    some (record k { word = t.word; side = t.own; exclusive = t.own; uses = t.uses })

-- A thread that takes a share of the receiver.
abbrev pub share : ℕ → Clock → Clock
share i k = record k { recvs = put i (later (k.recvs i) k.exclusive) k.recvs }

abbrev is_idle : {A : Type 0} → Option (RecvPc A) → Bool
is_idle (some idle) = true
is_idle _ = false

-- Whether a call of `recv` begins on a thread.
abbrev begins : {A W : Type 0} → ℕ → System A W → Bool
begins i s = elim s.receiver [ ReceiverPc.free ↦ is_idle (get_elem? s.recvs i) | _ ↦ false ]

module _ {A W : Type 0} (orders : Exchange → Order) (y : Cell) where
  -- What an action of the channel does to the clock of `y`.
  unfoldable pub tick : Action A W → System A W → Clock → Option Clock
  tick (Action.run_sender sp) s k =
      set_sender k (perform orders y (sender_access sp s.mem.state s.sender) (mark k k.sender))
  tick (Action.run_recv i sp) s k = elim (get_elem? s.recvs i) [
    | none ↦ some k
    | some p ↦ set_recv i k (perform orders y (recv_access sp s.mem.state p) (mark k (k.recvs i)))
  ]
  tick (Action.run_receiver sp) s k =
      set_receiver k (perform orders y (receiver_access sp s.mem.state s.receiver) (mark k k.side))
  tick (Action.call_recv i) s k = some (if begins i s then share i k else k)
  tick _ s k = some k

  -- A history with the clock of `y`, which ends in `none` at the first race.
  unfoldable pub ordered_run :
      (W → W → Bool) → List (Action A W) → System A W → Clock → Outcome (Option Clock)
  unfolding tick
  ordered_run ww [] s k = ok (some k)
  ordered_run ww (a ∷ as_) s k =
      act ww a s >>= λ s'. elim (tick a s k) [ none ↦ ok none | some k' ↦ ordered_run ww as_ s' k' ]
