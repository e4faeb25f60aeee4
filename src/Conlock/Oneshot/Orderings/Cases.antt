-- ===== src/Conlock/Oneshot/Orderings/Cases.antt =====
-- The two ways a compare-and-swap can go, for a property of what it leaves and of whether it succeeds.
use forwardr.Base.{ℕ, ◌≡◌, Bool, true, false, ◌==◌, ==_iff, if◌then◌else◌, inl, inr, Bool-cases}
use forwardr.Conlock.Status.{cas}
use forwardr.Conlock.Oneshot.Inner.{Inner, Outcome, access, after_cas}
use forwardr.Conlock.Oneshot.Ledger.{Allows}

access-Allows :
    {A W X : Type 0} (P : X → Type 0) (m : Inner A W) (x : Outcome X)
    → Allows P x
    → Allows P (access m x)
access-Allows P m x h = elim (Bool-cases m.freed) [ inl e ↦ rw e tt | inr e ↦ rw e h ]

module _ {A W X : Type 0} (P : Bool → Inner A W × X → Type 0) where
  -- Where the exchange is recorded when it succeeds.
  after_cas-Allows :
      (sync sp : Bool) (note : Bool → Inner A W) (w c new : ℕ) (won lost : ℕ → X)
      → (w ≡ c → P true (record (note true) { state = new }, won (if sync then new else c)))
      → P false (record (note false) { state = w }, lost w)
      → Allows
          (P (cas sync sp w c new).done)
          (after_cas (note (cas sync sp w c new).done) (cas sync sp w c new) won lost)
  after_cas-Allows sync true note w c new won lost h l = l
  after_cas-Allows sync false note w c new won lost h l = elim (Bool-cases (w == c)) [
    | inl e ↦ rw e (h ((==_iff _ _).0 e))
    | inr e ↦ rw e l
  ]

  pub noted_cas-Allows :
      (sync sp : Bool) (m : Inner A W) (note : Bool → Inner A W) (c new : ℕ) (won lost : ℕ → X)
      → (m.state ≡ c → P true (record (note true) { state = new }, won (if sync then new else c)))
      → P false (record (note false) { state = m.state }, lost m.state)
      → Allows (P (cas sync sp m.state c new).done) (
          access m (
            after_cas (note (cas sync sp m.state c new).done) (cas sync sp m.state c new) won lost))
  noted_cas-Allows sync sp m note c new won lost h l =
      access-Allows (P (cas sync sp m.state c new).done) m _
        (after_cas-Allows sync sp note m.state c new won lost h l)

  pub cas-Allows :
      (sync sp : Bool) (m : Inner A W) (c new : ℕ) (won lost : ℕ → X)
      → (m.state ≡ c → P true (record m { state = new }, won (if sync then new else c)))
      → P false (m, lost m.state)
      → Allows
          (P (cas sync sp m.state c new).done)
          (access m (after_cas m (cas sync sp m.state c new) won lost))
  cas-Allows sync sp m c new won lost h l = noted_cas-Allows sync sp m (λ _. m) c new won lost h l
