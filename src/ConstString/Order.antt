-- ===== src/ConstString/Order.antt =====
-- How two values compare, by the strings that they hold.
use forwardr.Base.{ℕ, ◌≡◌, ◌↔◌, refl, ap, sym, ◌∙◌, true, some, List, [], ◌∷◌, arith}
use mathlib.Core.Option
use mathlib.Core.Option.{some-injective}
use forwardr.ConstString.Heap.{Heap}
use forwardr.ConstString.Layout.{Raw}
use forwardr.ConstString.Contents.{Holds, Holds-as_str}
use forwardr.ConstString.Impls.{eq, Ordering, less, equal, greater, str_cmp, cmp, partial_cmp, hash}
use forwardr.ConstString.Writes.{eq-contents}

abbrev pub reverse : Ordering → Ordering
reverse less = greater
reverse equal = equal
reverse greater = less

str_cmp_equal : (v u : List ℕ) → (str_cmp v u ≡ equal) ↔ (v ≡ u)
str_cmp_equal [] [] = (λ _. refl, λ _. refl)
str_cmp_equal [] (c ∷ cs) = ground arith
str_cmp_equal (b ∷ bs) [] = ground arith
str_cmp_equal (b ∷ bs) (c ∷ cs) = ground (arith, str_cmp_equal bs cs)

str_cmp_swap : (v u : List ℕ) → str_cmp u v ≡ reverse (str_cmp v u)
str_cmp_swap [] [] = refl
str_cmp_swap [] (c ∷ cs) = refl
str_cmp_swap (b ∷ bs) [] = refl
str_cmp_swap (b ∷ bs) (c ∷ cs) = ground (arith, str_cmp_swap bs cs)

str_cmp_trans : (u v w : List ℕ) → str_cmp u v ≡ less → str_cmp v w ≡ less → str_cmp u w ≡ less
str_cmp_trans [] [] w e f = ground arith
str_cmp_trans [] (b ∷ bs) [] e f = ground arith
str_cmp_trans [] (b ∷ bs) (c ∷ cs) e f = refl
str_cmp_trans (a ∷ as_) [] w e f = ground arith
str_cmp_trans (a ∷ as_) (b ∷ bs) [] e f = ground arith
str_cmp_trans (a ∷ as_) (b ∷ bs) (c ∷ cs) e f = ground (arith, str_cmp_trans as_ bs cs)

module _ (h : Heap) (r s : Raw) (v u : List ℕ) where
  -- Two values that hold strings: `eq`, `cmp` and `partial_cmp` succeed and agree with one another, equal
  -- just if the strings are the same; `cmp` the other way round gives the reverse; and `hash` does what the
  -- standard library's does with the string.
  pub cmp-contents :
      {H : Type 0} (str_hash : List ℕ → H → H) (state : H)
      → Holds h r v
      → Holds h s u
      → (o : Ordering) × (cmp h r s ≡ some o)
        × (partial_cmp h r s ≡ some (some o))
        × (cmp h s r ≡ some (reverse o))
        × ((o ≡ equal) ↔ (v ≡ u))
        × ((eq h r s ≡ some true) ↔ (v ≡ u))
        × (hash str_hash h r state ≡ some (str_hash v state))
  unfolding cmp partial_cmp hash Option.bind
  cmp-contents str_hash state hv hu =
      let (b, says, same_iff) = eq-contents h r s v u hv hu in
      let reads_v = (Holds-as_str h r v hv).0 in
      let reads_u = (Holds-as_str h s u hu).0 in
      (
        str_cmp v u,
        rw (reads_v, reads_u) refl,
        rw (reads_v, reads_u) refl,
        rw (reads_v, reads_u) (ap some (str_cmp_swap v u)),
        str_cmp_equal v u,
        (λ k. same_iff.0 (some-injective _ _ (sym says ∙ k)), λ k. says ∙ ap some (same_iff.1 k)),
        rw reads_v refl,
      )

  -- Where a first value is less than a second, and that less than a third, the first is less than the third.
  pub cmp_trans :
      (t : Raw) (w : List ℕ)
      → Holds h r v
      → Holds h s u
      → Holds h t w
      → cmp h r s ≡ some less
      → cmp h s t ≡ some less
      → cmp h r t ≡ some less
  unfolding cmp Option.bind
  cmp_trans t w hv hu hw e f =
      let reads_v = (Holds-as_str h r v hv).0 in
      let reads_u = (Holds-as_str h s u hu).0 in
      let reads_w = (Holds-as_str h t w hw).0 in
      let first_less : str_cmp v u ≡ less = some-injective _ _ (rw (reads_v, reads_u) at e) in
      let second_less : str_cmp u w ≡ less = some-injective _ _ (rw (reads_u, reads_w) at f) in
      rw (reads_v, reads_w) (ap some (str_cmp_trans v u w first_less second_less))
