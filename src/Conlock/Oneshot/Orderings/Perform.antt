-- ===== src/Conlock/Oneshot/Orderings/Perform.antt =====
-- An access that follows its flags is no race, and leaves its endpoint's clock in step with them.
use forwardr.Base.{
  ℕ, ◌≡◌, ◌≤◌, ◌⊎◌, refl, inl, inr, Bool-cases, subst, sym, ◌∙◌, Bool, true, false, if◌then◌else◌,
  Option, none, some, arith,
}
use forwardr.Conlock.Oneshot.Orderings.Access.{
  Order, relaxed, acquire, release, Exchange, set_wakeless, success_order, Cell, data_cell,
  waker_cell, memory, Access, silent, load, exchange, leave, touch, free,
}
use forwardr.Conlock.Oneshot.Orderings.Clock.{
  Mark, same_cell, order, use_cell, after_leaving, perform,
}
use forwardr.Conlock.Oneshot.Orderings.Sync.{
  Flags, Sync, Shrinks, Acquires, Releases, Exchanges, Agrees, Touches, Leaves, Orders, Follows,
  is_free, touches,
}

-- No race, and what is left meets `P`.
abbrev pub Passes : {X : Type 0} → (X → Type 0) → Option X → Type 0
Passes P none = ⊥
Passes P (some x) = P x

pub order-Sync :
    (o : Order) (f g : Flags) (k : Mark) (n : ℕ) → Sync f k n → Orders o f g → Sync g (order o k) n
order-Sync relaxed f g k n h t = ground arith
order-Sync acquire f g k n h t = ground arith
order-Sync release f g k n h t = ground arith

Touches-Sync :
    (f g : Flags) (k : Mark) (n : ℕ)
    → Sync f k n
    → Touches f g
    → Passes (λ t. Sync g t n) (use_cell k)
Touches-Sync f g k n h t = ground arith

free-use :
    (f : Flags) (k : Mark) (n : ℕ)
    → Sync f k n
    → f.own_frees ≡ true
    → f.other_left ≡ true
    → Passes (λ _. Unit) (use_cell k)
free-use f k n h o l = ground arith

pub Passes-map :
    {X : Type 0} (P Q : X → Type 0)
    → ((x : X) → P x → Q x)
    → (u : Option X) → Passes P u
    → Passes Q u
Passes-map P Q f none h = h
Passes-map P Q f (some x) h = f x h

pub Passes-× :
    {X : Type 0} (P Q : X → Type 0) (u : Option X)
    → Passes P u
    → Passes Q u
    → Passes (λ x. P x × Q x) u
Passes-× P Q none p q = p
Passes-× P Q (some x) p q = (p, q)

vacuous :
    {X : Type 0} (P : X → Type 0) (x : Option X)
    → Passes (λ _. Unit) x
    → Passes (λ t. true ≡ false → P t) x
vacuous P none h = h
vacuous P (some x) h = λ e. ground (arith, e)

order-own : (o : Order) (k : Mark) → k.own ≤ (order o k).own
order-own relaxed k = ground arith
order-own acquire k = ground arith
order-own release k = ground arith

order-uses : (o : Order) (k : Mark) → (order o k).uses ≡ k.uses
order-uses relaxed k = refl
order-uses acquire k = refl
order-uses release k = refl

use_cell-own :
    (k : Mark)
    → k.own ≤ k.uses
    → Passes (λ _. Unit) (use_cell k)
    → Passes (λ t. k.own ≤ t.own) (use_cell k)
use_cell-own k b h = ground arith

-- The two at once.
pub record Settled (a : Access) (touched : Bool) (g : Flags) (k : Mark) (n : ℕ) (t : Mark)
    : Type 0 where
  pub sync : is_free a ≡ false → Sync g t n
  pub grows : k.own ≤ t.own
  pub counts : (t.uses ≡ k.uses) ⊎ (touched ≡ true)

-- What an exchange declares, and what serves any ordering.
declared : (x : Exchange) (f g : Flags) → Exchanges x f g → Orders (success_order x) f g
declared set_wakeless f g t = t.1
declared x f g t = t

any_order : (o : Order) (f g : Flags) → Shrinks f g × Acquires f g × Releases f g → Orders o f g
any_order relaxed f g t = t.0
any_order acquire f g t = t.1
any_order release f g t = t.2

module _ (orders : Exchange → Order) (agrees : Agrees orders) where
  ordered_by : (x : Exchange) (f g : Flags) → Exchanges x f g → Orders (orders x) f g
  ordered_by x f g t = elim (agrees x) [
    | inl e ↦ subst (λ o. Orders o f g) (sym e) (declared x f g t)
    | inr e ↦ any_order (orders x) f g (subst (λ z. Exchanges z f g) e t)
  ]

  released : (x : Exchange) → success_order x ≡ release → orders x ≡ release
  released x h = elim (agrees x) [
    | inl e ↦ e ∙ h
    | inr e ↦ ground (arith, subst (λ z. success_order z ≡ release) e h)
  ]

  Leaves-Sync :
      (x : Exchange) (f g : Flags) (k : Mark) (n : ℕ)
      → Sync f k n
      → orders x ≡ release
      → Leaves f g
      → Passes (λ t. Sync g t n) (after_leaving orders x (use_cell k))
  Leaves-Sync x f g k n h e t = ground arith

  -- An access that follows its flags is no race, and its endpoint's clock stays in step with them.
  perform-Sync :
      (y : Cell) (a : Access) (f g : Flags) (k : Mark) (n : ℕ)
      → Sync f k n
      → Follows y a f g
      → Passes (λ t. is_free a ≡ false → Sync g t n) (perform orders y a k)
  perform-Sync y silent f g k n h t = ground arith
  perform-Sync y (load o) f g k n h t = λ _. order-Sync o f g k n h t
  perform-Sync y (exchange x true) f g k n h t =
      λ _. order-Sync (orders x) f g k n h (ordered_by x f g t)
  perform-Sync y (exchange x false) f g k n h t = ground arith
  perform-Sync memory (leave x true) f g k n h t =
      Passes-map (λ t. Sync g t n) _ (λ t u _. u) _ (Leaves-Sync x f g k n h (released x t.0) t.1)
  perform-Sync data_cell (leave x true) f g k n h (e, t) =
      λ _. order-Sync (orders x) f g k n h (subst (λ o. Orders o f g) (sym (released x e)) t)
  perform-Sync waker_cell (leave x true) f g k n h (e, t) =
      λ _. order-Sync (orders x) f g k n h (subst (λ o. Orders o f g) (sym (released x e)) t)
  perform-Sync y (leave x false) f g k n h t = ground arith
  perform-Sync y (touch z) f g k n h t = elim (Bool-cases (same_cell y z)) [
    | inl e ↦ rw e (
        Passes-map (λ t. Sync g t n) _ (λ t u _. u) _
          (Touches-Sync f g k n h (subst (λ b. if b then Touches f g else Shrinks f g) e t)))
    | inr e ↦ rw e (λ _.
        order-Sync relaxed f g k n h (subst (λ b. if b then Touches f g else Shrinks f g) e t))
  ]
  perform-Sync y free f g k n h (o, l) = vacuous (λ t. Sync g t n) _ (free-use f k n h o l)

  leaving-own :
      (x : Exchange) (n : ℕ) (u : Option Mark)
      → Passes (λ t. n ≤ t.own) u
      → Passes (λ t. n ≤ t.own) (after_leaving orders x u)
  leaving-own x n none h = h
  leaving-own x n (some t) h = ground (arith, order-own (orders x) t)

  leaving-passed :
      (x : Exchange) (u : Option Mark)
      → Passes (λ _. Unit) (after_leaving orders x u)
      → Passes (λ _. Unit) u
  leaving-passed x none h = h
  leaving-passed x (some t) h = tt

  -- A thread's own clock grows, and the count changes only where the cell is used.
  pub perform-grows :
      (y : Cell) (a : Access) (k : Mark)
      → k.own ≤ k.uses
      → Passes (λ _. Unit) (perform orders y a k)
      → Passes
          (λ t. (k.own ≤ t.own) × ((t.uses ≡ k.uses) ⊎ (touches y a ≡ true)))
          (perform orders y a k)
  perform-grows y silent k b h = ground arith
  perform-grows y (load o) k b h = ground (arith, order-own o k, order-uses o k)
  perform-grows y (exchange x true) k b h =
      ground (arith, order-own (orders x) k, order-uses (orders x) k)
  perform-grows y (exchange x false) k b h = ground arith
  perform-grows memory (leave x true) k b h =
      Passes-map (λ t. k.own ≤ t.own) _ (λ t g. (g, inr refl)) _
        (leaving-own x k.own (use_cell k) (use_cell-own k b (leaving-passed x (use_cell k) h)))
  perform-grows data_cell (leave x true) k b h =
      ground (arith, order-own (orders x) k, order-uses (orders x) k)
  perform-grows waker_cell (leave x true) k b h =
      ground (arith, order-own (orders x) k, order-uses (orders x) k)
  perform-grows y (leave x false) k b h = ground arith
  perform-grows y (touch z) k b h = ground arith
  perform-grows y free k b h = ground arith

  pub perform-Settled :
      (y : Cell) (a : Access) (f g : Flags) (k : Mark) (n : ℕ)
      → Sync f k n
      → Follows y a f g
      → Passes (Settled a (touches y a) g k n) (perform orders y a k)
  perform-Settled y a f g k n h t =
      let p = perform-Sync y a f g k n h t in
      Passes-map _ (Settled a (touches y a) g k n)
        (λ u v. record { sync = v.0; grows = v.1.0; counts = v.1.1 }) _
        (Passes-× _ _ _ p (perform-grows y a k h.own_bound (Passes-map _ _ (λ _ _. tt) _ p)))
