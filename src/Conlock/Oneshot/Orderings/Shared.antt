-- ===== src/Conlock/Oneshot/Orderings/Shared.antt =====
-- The same for a thread that shares the receiver, next to both endpoints.
use forwardr.Base.{
  ℕ, ◌≡◌, ◌≤◌, ◌⊎◌, Bool, true, false, ◌||◌, if◌then◌else◌, inl, inr, Bool-cases, subst, sym, arith,
}
use forwardr.Conlock.Oneshot.Orderings.Access.{
  Order, relaxed, acquire, release, Exchange, set_wakeless, success_order, Cell, Access, silent,
  load, exchange, leave, touch, free,
}
use forwardr.Conlock.Oneshot.Orderings.Clock.{Mark, later, same_cell, order, use_cell, perform}
use forwardr.Conlock.Oneshot.Orderings.Sync.{Flags, Agrees, Sync, Shrinks, touches}
use forwardr.Conlock.Oneshot.Orderings.Perform.{Passes, Passes-map, Passes-×, perform-grows}

-- `b` and `c` are whether the thread is ordered after all uses, before and behind its access. Here the
-- sender is `own`, and the receiver's side is `other`.
pub record Acquires (f g : Flags) (b c : Bool) : Type 0 where
  pub word : g.word ≡ true → f.word ≡ true
  pub own : g.own ≡ true → f.own ≡ true
  pub other : g.other ≡ true → f.other ≡ true
  pub own_left : g.own_left ≡ true → f.own_left ≡ true
  pub other_left : g.other_left ≡ false
  pub own_frees : g.own_frees ≡ true → f.own_frees ≡ true
  pub other_frees : g.other_frees ≡ true → f.other_frees ≡ true
  pub thread : c ≡ true → b || f.word ≡ true

pub record Touches (f g : Flags) (b : Bool) : Type 0 where
  pub allowed : b ≡ true
  pub word : g.word ≡ false
  pub own : g.own ≡ false
  pub own_left : g.own_left ≡ true → f.own_left ≡ true
  pub other_left : g.other_left ≡ false
  pub own_frees : g.own_frees ≡ true → f.own_frees ≡ true
  pub other_frees : g.other_frees ≡ true → f.other_frees ≡ true

pub record Keeps (f g : Flags) (b c : Bool) : Type 0 where
  pub flags : Shrinks f g
  pub thread : c ≡ true → b ≡ true

abbrev pub Orders : Order → Flags → Flags → Bool → Bool → Type 0
Orders relaxed f g b c = Keeps f g b c
Orders acquire f g b c = Acquires f g b c
Orders release f g b c = ⊥

-- No thread in `recv` touches the flag that hides the waker.
abbrev Exchanges : Exchange → Flags → Flags → Bool → Bool → Type 0
Exchanges set_wakeless f g b c = ⊥
Exchanges x f g b c = Orders (success_order x) f g b c

declared :
    (x : Exchange) (f g : Flags) (b c : Bool)
    → Exchanges x f g b c
    → Orders (success_order x) f g b c
declared set_wakeless f g b c t = elim t [ ]
declared x f g b c t = t

abbrev pub Follows : Cell → Access → Flags → Flags → Bool → Bool → Type 0
Follows y silent f g b c = Keeps f g b c
Follows y (load o) f g b c = Orders o f g b c
Follows y (exchange x true) f g b c = Exchanges x f g b c
Follows y (exchange x false) f g b c = Keeps f g b c
Follows y (touch z) f g b c = if same_cell y z then Touches f g b else Keeps f g b c
Follows y (leave _ _) f g b c = ⊥
Follows y free f g b c = ⊥

-- What the sender is ordered after, and the receiver's side.
pub record Ends : Type 0 where
  pub sender : ℕ
  pub side : ℕ

abbrev at_sender : Mark → Ends → Mark
at_sender k n = record k { own = n.sender }

-- The thread knows no more than its side does.
pub record SharedSync (f : Flags) (b : Bool) (k : Mark) (n : Ends) : Type 0 where
  pub ends : Sync f (at_sender k n) n.side
  pub joined : k.own ≤ n.side
  pub in_thread : b ≡ true → k.uses ≤ k.own

abbrev pub join : Mark → Ends → Ends
join k n = record n { side = later n.side k.own }

order-Sync :
    (o : Order) (f g : Flags) (b c : Bool) (k : Mark) (n : Ends)
    → SharedSync f b k n
    → Orders o f g b c
    → SharedSync g c (order o k) (join (order o k) n)
order-Sync relaxed f g b c k n h t = ground arith
order-Sync acquire f g b c k n h t = ground arith
order-Sync release f g b c k n h t = elim t [ ]

Touches-Sync :
    (f g : Flags) (b c : Bool) (k : Mark) (n : Ends)
    → SharedSync f b k n
    → Touches f g b
    → Passes (λ t. SharedSync g c t (join t n)) (use_cell k)
Touches-Sync f g b c k n h t = ground arith

pub record Settled (touched : Bool) (g : Flags) (c : Bool) (k : Mark) (n : Ends) (t : Mark)
    : Type 0 where
  pub sync : SharedSync g c t (join t n)
  pub counts : (t.uses ≡ k.uses) ⊎ (touched ≡ true)

module _ (orders : Exchange → Order) (agrees : Agrees orders) where
  ordered_by :
      (x : Exchange) (f g : Flags) (b c : Bool) → Exchanges x f g b c → Orders (orders x) f g b c
  ordered_by x f g b c t = elim (agrees x) [
    | inl e ↦ subst (λ o. Orders o f g b c) (sym e) (declared x f g b c t)
    | inr e ↦ elim (subst (λ z. Exchanges z f g b c) e t) [ ]
  ]

  perform-Sync :
      (y : Cell) (a : Access) (f g : Flags) (b c : Bool) (k : Mark) (n : Ends)
      → SharedSync f b k n
      → Follows y a f g b c
      → Passes (λ t. SharedSync g c t (join t n)) (perform orders y a k)
  perform-Sync y silent f g b c k n h t = order-Sync relaxed f g b c k n h t
  perform-Sync y (load o) f g b c k n h t = order-Sync o f g b c k n h t
  perform-Sync y (exchange x true) f g b c k n h t =
      order-Sync (orders x) f g b c k n h (ordered_by x f g b c t)
  perform-Sync y (exchange x false) f g b c k n h t = order-Sync relaxed f g b c k n h t
  perform-Sync y (touch z) f g b c k n h t = elim (Bool-cases (same_cell y z)) [
    | inl e ↦
        rw e
          (Touches-Sync f g b c k n h (subst (λ d. if d then Touches f g b else Keeps f g b c) e t))
    | inr e ↦ rw e (
        order-Sync relaxed f g b c k n h
          (subst (λ d. if d then Touches f g b else Keeps f g b c) e t))
  ]
  perform-Sync y (leave _ _) f g b c k n h t = elim t [ ]
  perform-Sync y free f g b c k n h t = elim t [ ]

  pub perform-Settled :
      (y : Cell) (a : Access) (f g : Flags) (b c : Bool) (k : Mark) (n : Ends)
      → SharedSync f b k n
      → Follows y a f g b c
      → Passes (Settled (touches y a) g c k n) (perform orders y a k)
  perform-Settled y a f g b c k n h t =
      let p = perform-Sync y a f g b c k n h t in
      Passes-map _ (Settled (touches y a) g c k n) (λ u v. record { sync = v.0; counts = v.1.1 }) _
        (Passes-× _ _ _ p (
          perform-grows orders agrees y a k (omega (arith, h.joined, h.ends.other_bound))
            (Passes-map _ _ (λ _ _. tt) _ p)))
