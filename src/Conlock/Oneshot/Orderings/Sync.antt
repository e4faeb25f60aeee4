-- ===== src/Conlock/Oneshot/Orderings/Sync.antt =====
-- Who is ordered after all uses of a cell, for an endpoint that moves and the other one, and what its
-- access makes of that.
use forwardr.Base.{ℕ, ◌≡◌, ◌≤◌, ◌⊎◌, inl, inr, Bool, true, false, ◌||◌, if◌then◌else◌}
use forwardr.Conlock.Oneshot.Orderings.Access.{
  Order, relaxed, acquire, release, Exchange, set_wakeless, success_order, Cell, memory, Access,
  silent, load, exchange, leave, touch, free,
}
use forwardr.Conlock.Oneshot.Orderings.Clock.{Mark, same_cell}

-- Who is known to be ordered after all uses, and which endpoint has left, or is about to free.
pub record Flags : Type 0 where
  pub word : Bool
  pub own : Bool
  pub other : Bool
  pub own_left : Bool
  pub other_left : Bool
  pub own_frees : Bool
  pub other_frees : Bool

pub record Sync (f : Flags) (k : Mark) (other : ℕ) : Type 0 where
  pub word_bound : k.word ≤ k.uses
  pub own_bound : k.own ≤ k.uses
  pub other_bound : other ≤ k.uses
  pub in_word : f.word ≡ true → k.uses ≤ k.word
  pub in_own : f.own ≡ true → k.uses ≤ k.own
  pub in_other : f.other ≡ true → k.uses ≤ other
  pub last : (k.uses ≤ k.own) ⊎ (k.uses ≤ other)
  pub own_released : f.own_left ≡ true → k.own ≤ k.word
  pub other_released : f.other_left ≡ true → other ≤ k.word
  pub own_acquired : f.own_frees ≡ true → k.word ≤ k.own
  pub other_acquired : f.other_frees ≡ true → k.word ≤ other

-- The same from the other end.
abbrev pub flip : Flags → Flags
flip f = record {
  word = f.word;
  own = f.other;
  other = f.own;
  own_left = f.other_left;
  other_left = f.own_left;
  own_frees = f.other_frees;
  other_frees = f.own_frees;
}

pub Sync-flip :
    (f : Flags) (w a b u : ℕ)
    → Sync f (record { word = w; own = a; uses = u }) b
    → Sync (flip f) (record { word = w; own = b; uses = u }) a
Sync-flip f w a b u h = record {
  word_bound = h.word_bound;
  own_bound = h.other_bound;
  other_bound = h.own_bound;
  in_word = h.in_word;
  in_own = h.in_other;
  in_other = h.in_own;
  last = elim h.last [ inl l ↦ inr l | inr l ↦ inl l ];
  own_released = h.other_released;
  other_released = h.own_released;
  own_acquired = h.other_acquired;
  other_acquired = h.own_acquired;
}

-- What an access of each kind lets hold behind it.
pub record Shrinks (f g : Flags) : Type 0 where
  pub word : g.word ≡ true → f.word ≡ true
  pub own : g.own ≡ true → f.own ≡ true
  pub other : g.other ≡ true → f.other ≡ true
  pub own_left : g.own_left ≡ true → f.own_left ≡ true
  pub other_left : g.other_left ≡ true → f.other_left ≡ true
  pub own_frees : g.own_frees ≡ true → f.own_frees ≡ true
  pub other_frees : g.other_frees ≡ true → f.other_frees ≡ true

pub record Acquires (f g : Flags) : Type 0 where
  pub word : g.word ≡ true → f.word ≡ true
  pub own : g.own ≡ true → f.own || f.word ≡ true
  pub other : g.other ≡ true → f.other ≡ true
  pub own_left : g.own_left ≡ false
  pub other_left : g.other_left ≡ true → f.other_left ≡ true
  pub other_frees : g.other_frees ≡ true → f.other_frees ≡ true

pub record Releases (f g : Flags) : Type 0 where
  pub word : g.word ≡ true → f.word || f.own ≡ true
  pub own : g.own ≡ true → f.own ≡ true
  pub other : g.other ≡ true → f.other ≡ true
  pub other_left : g.other_left ≡ true → f.other_left ≡ true
  pub own_frees : g.own_frees ≡ false
  pub other_frees : g.other_frees ≡ false

pub record Touches (f g : Flags) : Type 0 where
  pub allowed : f.own ≡ true
  pub word : g.word ≡ false
  pub other : g.other ≡ false
  pub own_left : g.own_left ≡ false
  pub other_left : g.other_left ≡ true → f.other_left ≡ true
  pub own_frees : g.own_frees ≡ false
  pub other_frees : g.other_frees ≡ true → f.other_frees ≡ true

-- The last access of an endpoint uses the memory and releases that.
pub record Leaves (f g : Flags) : Type 0 where
  pub allowed : f.own ≡ true
  pub other : g.other ≡ false
  pub other_left : g.other_left ≡ true → f.other_left ≡ true
  pub own_frees : g.own_frees ≡ false
  pub other_frees : g.other_frees ≡ false

abbrev pub Orders : Order → Flags → Flags → Type 0
Orders relaxed f g = Shrinks f g
Orders acquire f g = Acquires f g
Orders release f g = Releases f g

-- The exchange that hides the stored waker from the sender asks for no ordering.
abbrev pub Exchanges : Exchange → Flags → Flags → Type 0
Exchanges set_wakeless f g = Shrinks f g × Acquires f g × Releases f g
Exchanges x f g = Orders (success_order x) f g

-- The orderings of the source, but for that exchange.
abbrev pub Agrees : (Exchange → Order) → Type 0
Agrees orders = (x : Exchange) → (orders x ≡ success_order x) ⊎ (x ≡ set_wakeless)

abbrev pub Follows : Cell → Access → Flags → Flags → Type 0
Follows y silent f g = Shrinks f g
Follows y (load o) f g = Orders o f g
Follows y (exchange x true) f g = Exchanges x f g
Follows y (exchange x false) f g = Shrinks f g
Follows memory (leave x true) f g = (success_order x ≡ release) × Leaves f g
Follows y (leave x true) f g = (success_order x ≡ release) × Releases f g
Follows y (leave x false) f g = Shrinks f g
Follows y (touch z) f g = if same_cell y z then Touches f g else Shrinks f g
Follows y free f g = (f.own_frees ≡ true) × (f.other_left ≡ true)

-- The access that frees the memory is the last.
abbrev pub is_free : Access → Bool
is_free free = true
is_free _ = false

-- The access uses the cell.
abbrev pub touches : Cell → Access → Bool
touches y (touch z) = same_cell y z
touches memory (leave x true) = true
touches y free = true
touches y a = false
