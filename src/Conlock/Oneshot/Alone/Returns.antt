-- ===== src/Conlock/Oneshot/Alone/Returns.antt =====
-- A thread in `recv` once the sender has left.
use mathlib.Core.Option
use forwardr.Base.{
  ℕ, zero, suc, ◌≡◌, ◌≢◌, refl, ap, subst, ◌∙◌, Bool, true, false, Option, none, some, List,
  replicate, get_elem?, total, total-remove_at, Option-cases, inl, inr, arith,
}
use forwardr.Conlock.Oneshot.Inner.{Outcome, ok, fault}
use forwardr.Conlock.Oneshot.Sender
use forwardr.Conlock.Oneshot.Recv.{RecvPc, parked, returned, recv_step}
use forwardr.Conlock.Oneshot.System.{System, Action, is_idle, act, run}
use forwardr.Conlock.Oneshot.Invariant.Defs.{is_parked}
use forwardr.Conlock.Oneshot.Invariant.Steps.{Inv, run-Inv}
use forwardr.Conlock.Oneshot.Invariant.Start.{Reachable, Reachable-Inv}
use forwardr.Conlock.Oneshot.Ledger.{Allows, Allows->>=}
use forwardr.Conlock.Oneshot.Along.{Ensures-Allowed}
use forwardr.Conlock.Oneshot.Safety.{none_parked}
use forwardr.Conlock.Oneshot.Alone.Finish.{recv_rests, called_at, recv_finishes}

module _ {A : Type 0} where
  -- A thread that was called, and has come to rest, sleeps or has returned.
  rests_returned :
      (o : Option (RecvPc A))
      → recv_rests o ≡ true
      → Option.map is_idle o ≡ some false
      → o ≢ some parked
      → (v : Option A) × (o ≡ some (returned v))
  rests_returned none r c n = ground arith
  rests_returned (some (returned v)) r c n = (v, refl)
  rests_returned (some parked) r c n = absurd (n refl)
  rests_returned (some p) r c n = ground arith

Allows-any : {X : Type 0} (x : Outcome X) → Allows (λ a. Unit {0}) x
Allows-any (ok a) = tt
Allows-any (fault e) = tt

-- A list with a sleeper has one.
none_asleep :
    {A : Type 0} (rs : List (RecvPc A)) (n : ℕ)
    → total is_parked rs ≡ 0
    → get_elem? rs n ≢ some parked
none_asleep rs n z e = absurd (omega (arith, z, total-remove_at is_parked rs n e))

module _ {A W : Type 0} (ww : W → W → Bool) (n : ℕ) where
  recv-sender :
      (s : System A W) → Allows (λ t. t.sender ≡ s.sender) (act ww (Action.run_recv n false) s)
  unfolding act
  recv-sender s = elim (Option-cases (get_elem? s.recvs n)) [
    | inl e ↦ rw (e, Allows) refl
    | inr (p, e) ↦
        rw (e, Allows)
          (Allows->>= (λ q. Unit {0}) _ (recv_step false s.mem p) _
            (Allows-any (recv_step false s.mem p)) (λ q u. refl))
  ]

  turns-sender :
      (k : ℕ) (s : System A W)
      → Allows (λ t. t.sender ≡ s.sender) (run ww (replicate k (Action.run_recv n false)) s)
  unfolding run
  turns-sender zero s = refl
  turns-sender (suc k) s =
      Allows->>= (λ t. t.sender ≡ s.sender) _ (act ww (Action.run_recv n false) s) _ (recv-sender s)
        (λ t e.
          subst (λ g. Allows (λ x. x.sender ≡ g) (run ww (replicate k (Action.run_recv n false)) t))
            e (turns-sender k t))

module _ {A W : Type 0} (will_wake : W → W → Bool) where
  -- From every reachable state in which the sender is gone and thread `n` is in a call of `recv`, whatever
  -- the other threads have done: eight accesses of that thread alone, whose weak exchanges fail only for a
  -- reason, bring the call to its return, and it does not sleep.
  pub recv_returns :
      {s : System A W} (n : ℕ) {p : RecvPc A}
      → Reachable will_wake s
      → s.sender ≡ Sender.gone
      → get_elem? s.recvs n ≡ some p
      → is_idle p ≡ false
      → (t : System A W) × (run will_wake (replicate 8 (Action.run_recv n false)) s ≡ ok t)
        × (v : Option A) × (get_elem? t.recvs n ≡ some (returned v))
  recv_returns {s} n r g at called =
      let h = replicate 8 (Action.run_recv n false) in
      let (t, e, rests, same) = recv_finishes will_wake r n in
      let i =
        subst (Allows Inv) e
          (Ensures-Allowed Inv _ (run-Inv will_wake h s (Reachable-Inv will_wake r))) in
      let left = subst (Allows (λ x. x.sender ≡ s.sender)) e (turns-sender will_wake n 8 s) in
      let (v, over) =
        rests_returned (get_elem? t.recvs n) rests
          (same ∙ rw (called_at, at, Option.map) (ap some called))
          (none_asleep t.recvs n (none_parked i (left ∙ g))) in
      (t, e, v, over)
