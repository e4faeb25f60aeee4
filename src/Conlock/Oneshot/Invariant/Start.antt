-- ===== src/Conlock/Oneshot/Invariant/Start.antt =====
-- A new channel meets the invariant, and so does every state that a history reaches.
use forwardr.Base.{ℕ, zero, suc, ◌≡◌, refl, subst, Bool, List, All, arith}
use forwardr.Conlock.Oneshot.Inner.{Outcome, ok, fault}
use forwardr.Conlock.Oneshot.System.{System, Action, channel, idle_threads, run}
use forwardr.Conlock.Oneshot.Invariant.Defs.{RecvOk, Ensures, recv_view}
use forwardr.Conlock.Oneshot.Invariant.Steps.{Inv, run-Inv}

idle_threads-view :
    (A : Type 0) (n : ℕ)
    → recv_view (idle_threads {A = A} n) ≡ record { message = 0; waker = 0; active = 0; parked = 0 }
idle_threads-view A zero = refl
idle_threads-view A (suc n) = ground (arith, idle_threads-view A n)

idle_threads-RecvOk : (A : Type 0) (n : ℕ) → All (RecvOk 0) (idle_threads {A = A} n)
idle_threads-RecvOk A zero = tt
idle_threads-RecvOk A (suc n) = (tt, idle_threads-RecvOk A n)

pub channel-Inv : (A W : Type 0) (n : ℕ) → Inv (channel {A = A} {W = W} n)
channel-Inv A W n = record {
  owned = ground (arith, idle_threads-view A n);
  sender_ok = (refl, refl);
  receiver_ok = tt;
  recvs_ok = idle_threads-RecvOk A n;
}

Ensures-ok : {X : Type 0} (P : X → Type 0) (x : Outcome X) → Ensures P x → (a : X) × (x ≡ ok a)
Ensures-ok P (ok a) h = (a, refl)
Ensures-ok P (fault e) h = elim h [ ]

-- Some history of a channel, with some number of threads that share its receiver, leads to `s`.
abbrev pub Reachable : {A W : Type 0} → (W → W → Bool) → System A W → Type 0
Reachable {A} {W} will_wake s =
    (n : ℕ) × (h : List (Action A W)) × (run will_wake h (channel n) ≡ ok s)

module _ {A W : Type 0} (will_wake : W → W → Bool) where
  pub run-ok :
      (n : ℕ) (h : List (Action A W)) → (s : System A W) × (run will_wake h (channel n) ≡ ok s)
  run-ok n h = Ensures-ok Inv _ (run-Inv will_wake h (channel n) (channel-Inv A W n))

  pub Reachable-Inv : {s : System A W} → Reachable will_wake s → Inv s
  Reachable-Inv (n, h, e) =
      subst (Ensures Inv) e (run-Inv will_wake h (channel n) (channel-Inv A W n))
