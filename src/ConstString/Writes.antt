-- ===== src/ConstString/Writes.antt =====
-- What writes through `as_mut_str` leave, and what the comparison of two values says.
use forwardr.Base.{
  ℕ, ◌≡◌, ◌↔◌, refl, ap, sym, ◌∙◌, Bool, true, false, ==_iff, leb, some, List, [], ◌∷◌, ◌++◌,
  length, take, drop, take-append, inl, inr, arith,
}
use mathlib.Core.Option
use forwardr.ConstString.Heap.{Heap, store}
use forwardr.ConstString.Layout.{
  Raw, first, stack_len, stack_as_str, heap_ptr, heap_len, is_stack, len, as_str, write_str,
}
use forwardr.ConstString.Contents.{Holds, Holds-as_str, store_self}
use forwardr.ConstString.Impls.{eq, str_eq}

str_eq_iff : (v u : List ℕ) → (str_eq v u ≡ true) ↔ (v ≡ u)
str_eq_iff [] [] = (λ _. refl, λ _. refl)
str_eq_iff [] (c ∷ cs) = ground arith
str_eq_iff (b ∷ bs) [] = ground arith
str_eq_iff (b ∷ bs) (c ∷ cs) = ground (arith, ==_iff b c, str_eq_iff bs cs)

-- Two values that hold strings compare as equal just if the strings are the same.
pub eq-contents :
    (h : Heap) (r s : Raw) (v u : List ℕ)
    → Holds h r v
    → Holds h s u
    → (b : Bool) × (eq h r s ≡ some b) × ((b ≡ true) ↔ (v ≡ u))
unfolding eq Option.bind
eq-contents h r s v u hv hu =
    (str_eq v u, rw ((Holds-as_str h r v hv).0, (Holds-as_str h s u hu).0) refl, str_eq_iff v u)

drop-length : (xs : List ℕ) → drop (length xs) xs ≡ []
drop-length [] = refl
drop-length (x ∷ xs) = drop-length xs

append_nil : (xs : List ℕ) → xs ++ [] ≡ xs
append_nil [] = refl
append_nil (x ∷ xs) = ap (λ t. x ∷ t) (append_nil xs)

write_whole :
    (val block : List ℕ) → length val ≡ length block → val ++ drop (length val) block ≡ val
write_whole val block e = rw (e, drop-length block) (append_nil val)

module _ (h : Heap) (r : Raw) (old val : List ℕ) where
  write_stack :
      is_stack r ≡ true
      → length val ≡ stack_len r
      → write_str h r val ≡ some (first r ∷ (val ++ drop (length val) (drop 1 r)), h)
  unfolding write_str
  write_stack t e = let fits = (==_iff (length val) (stack_len r)).1 e in rw (t, fits) refl

  write_heap :
      is_stack r ≡ false
      → length val ≡ heap_len r
      → h (heap_ptr r) ≡ some old
      → length val ≡ length old
      → write_str h r val ≡ some (r, store h (heap_ptr r) (some val))
  unfolding write_str
  write_heap t e c same =
      let fits = (==_iff (length val) (heap_len r)).1 e in
      let within : leb (heap_len r) (length old) ≡ true = ground (arith, e, same) in
      rw (t, fits, c, within, write_whole val old same) refl

  stack_write :
      is_stack r ≡ true
      → stack_len r ≡ length old
      → length val ≡ length old
      → let r' = first r ∷ (val ++ drop (length val) (drop 1 r)) in
        (write_str h r val ≡ some (r', h)) × Holds h r' val
  unfolding is_stack stack_len stack_as_str
  stack_write t n e = (
    write_stack t (e ∙ sym n),
    inl (
      t,
      n ∙ sym e,
      ap (λ k. take k (val ++ drop (length val) (drop 1 r))) (n ∙ sym e) ∙ take-append val _,
    ),
  )

  heap_write :
      is_stack r ≡ false
      → heap_len r ≡ length old
      → h (heap_ptr r) ≡ some old
      → length val ≡ length old
      → let h' = store h (heap_ptr r) (some val) in
        (write_str h r val ≡ some (r, h')) × Holds h' r val
  heap_write t n c e =
      (write_heap t (e ∙ sym n) c e, inr (t, n ∙ sym e, store_self h (heap_ptr r) (some val)))

  -- A write through `as_mut_str`, of as many bytes as a value holds, succeeds, and the value then reads as
  -- what was written, with the length as before.
  pub write_str-as_str :
      Holds h r old
      → length val ≡ length old
      → (r' : Raw) × (h' : Heap) × (write_str h r val ≡ some (r', h'))
        × (as_str h' r' ≡ some val)
        × (len r' ≡ len r)
  write_str-as_str (inl (t, n, c)) e =
      let (wrote, holds) = stack_write t n e in
      let (reads, size) = Holds-as_str h _ val holds in
      (_, h, wrote, reads, size ∙ e ∙ sym ((Holds-as_str h r old (inl (t, n, c))).1))
  write_str-as_str (inr (t, n, c)) e =
      let (wrote, holds) = heap_write t n c e in
      let (reads, size) = Holds-as_str _ r val holds in
      (r, _, wrote, reads, size ∙ e ∙ sym ((Holds-as_str h r old (inr (t, n, c))).1))
