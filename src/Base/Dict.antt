-- ===== src/Base/Dict.antt =====
-- A map from numbers, as a list of its entries.
use Prim.Native.Nat.{ℕ, ◌+◌}
use mathlib.Core.Path.{◌≡◌, refl}
use mathlib.Core.Bool.{false}
use mathlib.Core.Option.{Option, none, some}
use mathlib.Core.List.{List, [], ◌∷◌}
use native.Mathlib.Omega.{arith}
use forwardr.Base.Tests.{◌==◌, if◌then◌else◌}
use forwardr.Base.Lists.{total}

abbrev pub Dict {ℓ} : Type ℓ → Type ℓ
Dict A = List (ℕ × A)

module _ {ℓ} {A : Type ℓ} where
  -- The value of the first entry with the key.
  abbrev pub lookup : ℕ → Dict A → Option A
  lookup key [] = none
  lookup key (entry ∷ m) = if key == entry.0 then some entry.1 else lookup key m

  -- The first entry with the key is replaced; a new key goes to the end.
  abbrev pub insert : ℕ → A → Dict A → Dict A
  insert key x (entry ∷ m) = if key == entry.0 then (key, x) ∷ m else entry ∷ insert key x m
  insert key x [] = (key, x) ∷ []

  -- Without the first entry with the key.
  abbrev pub remove : ℕ → Dict A → Dict A
  remove key (entry ∷ m) = if key == entry.0 then m else entry ∷ remove key m
  remove key [] = []

  pub lookup-insert :
      (i key : ℕ) (x : A) (m : Dict A)
      → lookup i (insert key x m) ≡ (if i == key then some x else lookup i m)
  lookup-insert i key x [] = ground arith
  lookup-insert i key x (entry ∷ m) = ground (arith, lookup-insert i key x m)

  pub lookup-remove :
      (i key : ℕ) (m : Dict A) → (i == key) ≡ false → lookup i (remove key m) ≡ lookup i m
  lookup-remove i key [] apart = refl
  lookup-remove i key (entry ∷ m) apart = ground (arith, lookup-remove i key m apart)

  -- What a key's entry adds to a sum over the entries.
  abbrev pub weight : (A → ℕ) → Option A → ℕ
  weight f none = 0
  weight f (some x) = f x

  pub total-insert :
      (f : A → ℕ) (key : ℕ) (x : A) (m : Dict A)
      → total (λ e. f e.1) (insert key x m) + weight f (lookup key m) ≡ total (λ e. f e.1) m + f x
  total-insert f key x [] = ground arith
  total-insert f key x (entry ∷ m) = ground (arith, total-insert f key x m)

  pub total-remove :
      (f : A → ℕ) (key : ℕ) (m : Dict A)
      → total (λ e. f e.1) (remove key m) + weight f (lookup key m) ≡ total (λ e. f e.1) m
  total-remove f key [] = ground arith
  total-remove f key (entry ∷ m) = ground (arith, total-remove f key m)
