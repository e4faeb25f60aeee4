-- ===== src/Conlock/Oneshot/Orderings/Ordered.antt =====
-- The clock of a cell along a history of the channel.
use forwardr.Base.{◌≡◌, ◌≤◌, true, false, Option, arith}
use forwardr.Conlock.Oneshot.Inner.{Inner, Outcome, ok, fault}
use forwardr.Conlock.Oneshot.System.{System}
use forwardr.Conlock.Oneshot.Ledger.{Allows}
use forwardr.Conlock.Oneshot.Orderings.Access.{Cell}
use forwardr.Conlock.Oneshot.Orderings.Clock.{Clock, mark}
use forwardr.Conlock.Oneshot.Orderings.Sync.{Sync}
use forwardr.Conlock.Oneshot.Orderings.Perform.{Passes, Passes-map}
use forwardr.Conlock.Oneshot.Orderings.Threads.{Threads}
use forwardr.Conlock.Oneshot.Orderings.Flags.{sender_part, receiver_part, sender_flags}

pub record Ordered {A W : Type 0} (y : Cell) (s : System A W) (k : Clock) : Type 0 where
  pub ends :
      Sync
        (sender_flags y s.mem.state (sender_part s.sender) (receiver_part s.receiver))
        (mark k k.sender)
        k.side
  pub threads : Threads y s.recvs k.recvs k.side k.uses
  pub before : k.exclusive ≤ k.side

-- Once the memory is freed, nobody is left to use anything.
abbrev pub OrderedWhile : {A W : Type 0} → Cell → System A W → Clock → Type 0
OrderedWhile y s k = s.mem.freed ≡ false → Ordered y s k

pub Allows-map :
    {X : Type 0} (P Q : X → Type 0) (x : Outcome X)
    → ((a : X) → P a → Q a)
    → Allows P x
    → Allows Q x
Allows-map P Q (ok a) f h = f a h
Allows-map P Q (fault e) f h = h

-- Nothing is left to be shown where the memory is freed.
pub frozen-Passes :
    {A W X : Type 0} (m : Inner A W) (P : X → Type 0) (u : Option X)
    → Passes (λ _. m.freed ≡ true) u
    → Passes (λ t. m.freed ≡ false → P t) u
frozen-Passes m P u =
    Passes-map _ (λ t. m.freed ≡ false → P t) (λ t f live. ground (arith, f, live)) u
