-- ===== src/Conlock/Oneshot/Orderings/Threads.antt =====
-- One of the threads that share the receiver, among the others.
use forwardr.Base.{
  ℕ, zero, suc, ◌≡◌, ◌≢◌, refl, sym, ◌∙◌, ap, subst, ◌≤◌, ◌⊎◌, inl, inr, Bool, true, false,
  if◌then◌else◌, ◌==◌, Bool-cases, some, List, [], ◌∷◌, map, get_elem?, set, remove_at, total,
  total-remove_at, arith,
}
use mathlib.Core.Option.{some-injective}
use forwardr.Conlock.Oneshot.Recv.{RecvPc, woken}
use forwardr.Conlock.Oneshot.System.{begin, finish}
use forwardr.Conlock.Oneshot.Invariant.Defs.{recv_view, has_message, has_waker}
use forwardr.Conlock.Oneshot.Orderings.Access.{Cell, data_cell, waker_cell, memory}
use forwardr.Conlock.Oneshot.Orderings.Clock.{later, put}
use forwardr.Conlock.Oneshot.Orderings.Flags.{thread_knows, threads_know}

module _ {X : Type 0} (f : X → ℕ) where
  pub total_bound : (xs : List X) (i : ℕ) {x : X} → get_elem? xs i ≡ some x → f x ≤ total f xs
  total_bound xs i e = omega (arith, total-remove_at f xs i e)

  pub others_bound :
      (xs : List X) (i j : ℕ) {x y : X}
      → get_elem? xs i ≡ some x
      → get_elem? xs j ≡ some y
      → j ≢ i
      → f y ≤ total f (remove_at xs i)
  others_bound [] i j e g n = ground arith
  others_bound (x ∷ xs) zero zero e g n = ground arith
  others_bound (x ∷ xs) zero (suc j) e g n = total_bound xs j g
  others_bound (x ∷ xs) (suc i) zero e g n = ground arith
  others_bound (x ∷ xs) (suc i) (suc j) e g n =
      omega (arith, others_bound xs i j e g (λ q. n (ground (arith, q))))

module _ {X : Type 0} where
  pub get_elem?-set_cases :
      (xs : List X) (i j : ℕ) (v : X) {y : X}
      → get_elem? (set xs i v) j ≡ some y
      → ((j ≡ i) × (y ≡ v)) ⊎ ((j ≢ i) × (get_elem? xs j ≡ some y))
  get_elem?-set_cases [] i j v e = ground arith
  get_elem?-set_cases (x ∷ xs) zero zero v e = ground arith
  get_elem?-set_cases (x ∷ xs) zero (suc j) v e = ground arith
  get_elem?-set_cases (x ∷ xs) (suc i) zero v e = ground arith
  get_elem?-set_cases (x ∷ xs) (suc i) (suc j) v e = ground (arith, get_elem?-set_cases xs i j v e)

  pub get_elem?-map_cases :
      (f : X → X) (xs : List X) (i : ℕ) {y : X}
      → get_elem? (map f xs) i ≡ some y
      → (x : X) × (get_elem? xs i ≡ some x) × (y ≡ f x)
  get_elem?-map_cases f [] i e = ground arith
  get_elem?-map_cases f (x ∷ xs) zero e = (x, refl, sym (some-injective _ _ e))
  get_elem?-map_cases f (x ∷ xs) (suc i) e = get_elem?-map_cases f xs i e

-- Who is ordered after all uses of the cell is so by its clock, and no thread knows more than its side.
pub record Threads {A : Type 0} (y : Cell) (ps : List (RecvPc A)) (recvs : ℕ → ℕ) (side uses : ℕ)
    : Type 0 where
  pub behind : (i : ℕ) → recvs i ≤ side
  pub knowing :
      (i : ℕ) {p : RecvPc A} → get_elem? ps i ≡ some p → thread_knows y p ≡ 1 → uses ≤ recvs i

none_knows :
    {A : Type 0} (y : Cell) (ps : List (RecvPc A)) (i : ℕ) {p : RecvPc A}
    → threads_know y (recv_view ps) ≡ 0
    → get_elem? ps i ≡ some p
    → thread_knows y p ≡ 1
    → ⊥
none_knows data_cell ps i h e k = omega (arith, h, k, total_bound has_message ps i e)
none_knows waker_cell ps i h e k = omega (arith, h, k, total_bound has_waker ps i e)
none_knows memory ps i h e k = omega (arith, k)

-- The same of the threads but one.
no_other_knows :
    {A : Type 0} (y : Cell) (ps : List (RecvPc A)) (i j : ℕ) {q p : RecvPc A}
    → threads_know y (recv_view (remove_at ps i)) ≡ 0
    → get_elem? ps i ≡ some q
    → j ≢ i
    → get_elem? ps j ≡ some p
    → thread_knows y p ≡ 1
    → ⊥
no_other_knows data_cell ps i j h at n e k =
    omega (arith, h, k, others_bound has_message ps i j at e n)
no_other_knows waker_cell ps i j h at n e k =
    omega (arith, h, k, others_bound has_waker ps i j at e n)
no_other_knows memory ps i j h at n e k = omega (arith, k)

module _ {A : Type 0} (y : Cell) where
  -- A thread whose call begins, ends or wakes has learnt nothing.
  pub thread_knows-woken : (p : RecvPc A) → thread_knows y (woken p) ≡ thread_knows y p
  thread_knows-woken p = ground arith

  pub thread_knows-begin : (p : RecvPc A) → thread_knows y (begin p) ≡ thread_knows y p
  thread_knows-begin p = ground arith

  pub thread_knows-finish : (p : RecvPc A) → thread_knows y (finish p) ≡ thread_knows y p
  thread_knows-finish p = ground arith

  Threads-woken :
      (ps : List (RecvPc A)) {f : ℕ → ℕ} {side uses : ℕ}
      → Threads y ps f side uses
      → Threads y (map woken ps) f side uses
  Threads-woken ps h = record {
    behind = h.behind;
    knowing = λ i e k.
        let t = get_elem?-map_cases woken ps i e in
        h.knowing i t.1 (sym (thread_knows-woken t.0) ∙ (sym (ap (thread_knows y) t.2) ∙ k));
  }

  pub Threads-rouse :
      (b : Bool) (ps : List (RecvPc A)) {f : ℕ → ℕ} {side uses : ℕ}
      → Threads y ps f side uses
      → Threads y (if b then map woken ps else ps) f side uses
  Threads-rouse true ps h = Threads-woken ps h
  Threads-rouse false ps h = h

  -- The side may learn more, and nobody who knows is left where the cell is used.
  pub Threads-moved :
      (ps : List (RecvPc A)) {f : ℕ → ℕ} {side next uses used : ℕ}
      → Threads y ps f side uses
      → side ≤ next
      → (used ≡ uses) ⊎ (threads_know y (recv_view ps) ≡ 0)
      → Threads y ps f next used
  Threads-moved ps {f} h b c = record {
    behind = λ i. omega (arith, b, h.behind i);
    knowing = λ i e k. elim c [
      | inl same ↦ subst (λ n. n ≤ f i) (sym same) (h.knowing i e k)
      | inr nobody ↦ elim (none_knows y ps i nobody e k) [ ]
    ];
  }

  -- One thread goes on, and the side learns what it does.
  pub Threads-set :
      (ps : List (RecvPc A)) (i : ℕ) {q : RecvPc A} (q' : RecvPc A) (f : ℕ → ℕ)
      (side uses own next : ℕ)
      → get_elem? ps i ≡ some q
      → Threads y ps f side uses
      → own ≤ later side own
      → (thread_knows y q' ≡ 1 → next ≤ own)
      → (next ≡ uses) ⊎ (threads_know y (recv_view (remove_at ps i)) ≡ 0)
      → Threads y (set ps i q') (put i own f) (later side own) next
  Threads-set ps i q' f side uses own next at h o n c = record {
    behind = λ j. elim (Bool-cases (j == i)) [
      | inl e ↦ rw e o
      | inr e ↦ rw e (ground (arith, h.behind j))
    ];
    knowing = λ j e k. elim (get_elem?-set_cases ps i j q' e) [
      | inl (same, is) ↦
          subst (λ m. next ≤ put i own f m) (sym same)
            (ground (arith, n (sym (ap (thread_knows y) is) ∙ k)))
      | inr (apart, e') ↦ elim c [
        | inl still ↦ ground (arith, h.knowing j e' k)
        | inr nobody ↦ elim (no_other_knows y ps i j nobody at apart e' k) [ ]
      ]
    ];
  }

  -- A thread that begins learns what the side knew.
  pub Threads-share :
      (ps : List (RecvPc A)) (i : ℕ) (f : ℕ → ℕ) (known : ℕ) {side uses : ℕ}
      → Threads y ps f side uses
      → known ≤ side
      → Threads y ps (put i (later (f i) known) f) side uses
  Threads-share ps i f known h b = record {
    behind = λ j. ground (arith, h.behind j, h.behind i);
    knowing = λ j {p} e k. elim (Bool-cases (j == i)) [
      | inl same ↦ rw same (ground (arith, ap f, h.knowing j e k))
      | inr apart ↦ rw apart (h.knowing j e k)
    ];
  }

  -- Its clock stands still where its call begins, ends or wakes.
  pub Threads-update :
      (ps : List (RecvPc A)) (i : ℕ) (g : RecvPc A → RecvPc A) {p : RecvPc A} {f : ℕ → ℕ}
      {side uses : ℕ}
      → get_elem? ps i ≡ some p
      → ((q : RecvPc A) → thread_knows y (g q) ≡ thread_knows y q)
      → Threads y ps f side uses
      → Threads y (set ps i (g p)) f side uses
  Threads-update ps i g {p} {f} {side} {uses} at u h = record {
    behind = h.behind;
    knowing = λ j e k. elim (get_elem?-set_cases ps i j (g p) e) [
      | inl (same, is) ↦
          subst (λ m. uses ≤ f m) (sym same)
            (h.knowing i at (sym (u p) ∙ (sym (ap (thread_knows y) is) ∙ k)))
      | inr (apart, e') ↦ h.knowing j e' k
    ];
  }
