-- ===== src/Conlock/Oneshot/Invariant/Exchange.antt =====
-- The two ways a compare-and-swap can go, for any property of what it leaves.
use forwardr.Base.{
  ℕ, ◌≡◌, sym, subst, Bool, true, false, ◌==◌, ==_iff, if◌then◌else◌, inl, inr, Bool-cases,
}
use forwardr.Conlock.Status.{cas}
use forwardr.Conlock.Oneshot.Inner.{Inner, Outcome, access, after_cas}
use forwardr.Conlock.Oneshot.Invariant.Defs.{Ensures}

module _ {A W X : Type 0} where
  access-live : (m : Inner A W) (x : Outcome X) → m.freed ≡ false → access m x ≡ x
  access-live m x f = rw f

module _ {A W X : Type 0} (P : Inner A W × X → Type 0) where
  after_cas-Ensures :
      (sync sp : Bool) (m : Inner A W) (c new : ℕ) (won lost : ℕ → X)
      → (m.state ≡ c → P (record m { state = new }, won (if sync then new else c)))
      → P (m, lost m.state)
      → Ensures P (after_cas m (cas sync sp m.state c new) won lost)
  after_cas-Ensures sync true m c new won lost w l = l
  after_cas-Ensures sync false m c new won lost w l = elim (Bool-cases (m.state == c)) [
    | inl e ↦ rw e (w ((==_iff _ _).0 e))
    | inr e ↦ rw e l
  ]

  -- A failure, spurious or not, leaves the shared record as it was, and the copy up to date.
  pub cas-Ensures :
      (sync sp : Bool) (m : Inner A W) (c new : ℕ) (won lost : ℕ → X)
      → m.freed ≡ false
      → (m.state ≡ c → P (record m { state = new }, won (if sync then new else c)))
      → P (m, lost m.state)
      → Ensures P (access m (after_cas m (cas sync sp m.state c new) won lost))
  cas-Ensures sync sp m c new won lost f w l =
      subst (Ensures P) (sym (access-live m (after_cas m (cas sync sp m.state c new) won lost) f))
        (after_cas-Ensures sync sp m c new won lost w l)
