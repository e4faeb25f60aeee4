-- ===== src/Conlock/Oneshot/Along.antt =====
-- What holds along every history, if each action keeps it in the states that meet the invariant.
use forwardr.Base.{ℕ, ◌≤◌, subst, Bool, Option, none, some, List, [], ◌∷◌, arith}
use forwardr.Conlock.Oneshot.Inner.{Outcome, ok, fault}
use forwardr.Conlock.Oneshot.System.{System, Action, channel, act, run}
use forwardr.Conlock.Oneshot.Invariant.Defs.{Ensures, filled}
use forwardr.Conlock.Oneshot.Invariant.Steps.{Inv, act-Inv}
use forwardr.Conlock.Oneshot.Invariant.Start.{Reachable, channel-Inv}
use forwardr.Conlock.Oneshot.Ledger.{Allows, Allows->>=}

pub filled_bound : {X : Type 0} (o : Option X) → filled o ≤ 1
filled_bound none = omega arith
filled_bound (some x) = omega arith

pub Ensures-Allowed : {X : Type 0} (P : X → Type 0) (x : Outcome X) → Ensures P x → Allows P x
Ensures-Allowed P (ok a) h = h
Ensures-Allowed P (fault e) h = elim h [ ]

pub Allows-× :
    {X : Type 0} (P Q : X → Type 0) (x : Outcome X)
    → Allows P x
    → Allows Q x
    → Allows (λ a. P a × Q a) x
Allows-× P Q (ok a) p q = (p, q)
Allows-× P Q (fault e) p q = tt

module _ {A W : Type 0} (ww : W → W → Bool) (P : System A W → Type 0)
    (keeps : (a : Action A W) (s : System A W) → Inv s → P s → Allows P (act ww a s)) where
  run-along : (h : List (Action A W)) (s : System A W) → Inv s → P s → Allows P (run ww h s)
  unfolding run
  run-along [] s i p = p
  run-along (a ∷ h) s i p =
      Allows->>= (λ t. Inv t × P t) P (act ww a s) _
        (Allows-× Inv P (act ww a s) (Ensures-Allowed Inv (act ww a s) (act-Inv ww a s i))
          (keeps a s i p))
        (λ t (j, q). run-along h t j q)

  pub Reachable-along : ((n : ℕ) → P (channel n)) → {s : System A W} → Reachable ww s → P s
  Reachable-along starts (n, h, e) =
      subst (Allows P) e (run-along h (channel n) (channel-Inv A W n) (starts n))
