-- ===== src/ConstString/Runs.antt =====
-- Strings on a concrete heap, and the theorems there.
use forwardr.Base.{
  ℕ, ◌+◌, length, ◌%◌, ◌^◌, ◌<◌, ◌≡◌, ◌↔◌, refl, true, subst, leb, Option, none, some, List, [],
  ◌∷◌, ◌++◌, inr, arith,
}
use mathlib.Core.Option.{some-injective}
use forwardr.Base.Bytes.{to_le, from_le}
use forwardr.ConstString.Heap.{Heap, Allocator, store}
use forwardr.ConstString.Layout.{
  Raw, is_stack, new, heap_new, len, as_str, drop_str, write_str, heap_ptr, heap_len,
}
use forwardr.ConstString.Impls.{clone, eq, hash, cmp, partial_cmp, Ordering, equal}
use forwardr.ConstString.Contents.{new-Holds, new-as_str, new-succeeds}
use forwardr.ConstString.Writes.{write_str-as_str}
use forwardr.ConstString.Order.{reverse, cmp-contents}
use forwardr.ConstString.Lifetime.{drop_str-new, clone_outlives}

-- An allocator with two blocks to give: at 16 or else at 32, and out of memory after that.
abbrev pick : Option (List ℕ) → Option (List ℕ) → Option ℕ
pick none _ = some 16
pick (some _) none = some 32
pick (some _) (some _) = none

pick_fresh :
    (h : Heap) (p : ℕ) (x y : Option (List ℕ))
    → h 16 ≡ x
    → h 32 ≡ y
    → pick x y ≡ some p
    → h p ≡ none
pick_fresh h p none y a b e = subst (λ q. h q ≡ none) (some-injective _ _ e) a
pick_fresh h p (some x) none a b e = subst (λ q. h q ≡ none) (some-injective _ _ e) b
pick_fresh h p (some x) (some y) a b e = cc

pick_address : (p : ℕ) (x y : Option (List ℕ)) → pick x y ≡ some p → (p % 2 ≡ 0) × (p < 2 ^ 64)
pick_address p x y e = ground arith

abbrev two_blocks : Allocator
two_blocks = record {
  alloc = λ h n. pick (h 16) (h 32);
  is_fresh = λ h n p e. pick_fresh h p (h 16) (h 32) refl refl e;
  is_aligned = λ h n p e. (pick_address p (h 16) (h 32) e).0;
  is_word = λ h n p e. (pick_address p (h 16) (h 32) e).1;
}

abbrev empty : Heap
empty p = none

abbrev zeros : List ℕ
zeros = 0 ∷ 0 ∷ 0 ∷ 0 ∷ 0 ∷ 0 ∷ 0 ∷ 0 ∷ 0 ∷ 0 ∷ 0 ∷ 0 ∷ 0 ∷ 0 ∷ 0 ∷ []

-- "0123456789ABCDEF", one byte too long for the stack.
abbrev long_text : List ℕ
long_text = 48 ∷ 49 ∷ 50 ∷ 51 ∷ 52 ∷ 53 ∷ 54 ∷ 55 ∷ 56 ∷ 57 ∷ 65 ∷ 66 ∷ 67 ∷ 68 ∷ 69 ∷ 70 ∷ []

abbrev at_block : ℕ → Raw
at_block p = to_le 8 p ++ to_le 8 16

new-long_text :
    new two_blocks empty zeros long_text ≡ some (at_block 16, store empty 16 (some long_text))
unfolding new heap_new
new-long_text = refl

new-as_str_example :
    (as_str (store empty 16 (some long_text)) (at_block 16) ≡ some long_text)
    × (len (at_block 16) ≡ 16)
    × (is_stack (at_block 16) ≡ leb 16 15)
new-as_str_example =
    new-as_str two_blocks empty _ zeros long_text (at_block 16) (omega arith) new-long_text

new-succeeds_example :
    (r : Raw) × (h' : Heap) × (new two_blocks empty zeros long_text ≡ some (r, h'))
    × (as_str h' r ≡ some long_text)
    × (length r ≡ 16)
new-succeeds_example =
    new-succeeds two_blocks empty zeros long_text refl (omega arith) (inr (16, refl))

drop_str-new_example :
    (h : Heap) × (drop_str (store empty 16 (some long_text)) (at_block 16) ≡ some h)
    × ((q : ℕ) → h q ≡ none)
drop_str-new_example =
    drop_str-new two_blocks empty _ zeros long_text (at_block 16) (omega arith) new-long_text

abbrev both : Heap
both = store (store empty 16 (some long_text)) 32 (some long_text)

clone-long_text :
    clone two_blocks (store empty 16 (some long_text)) (at_block 16) ≡ some (at_block 32, both)
unfolding clone to_le from_le
clone-long_text = refl

drop-long_text : drop_str both (at_block 16) ≡ some (store both 16 none)
unfolding drop_str to_le from_le
drop-long_text = refl

clone_outlives_example : as_str (store both 16 none) (at_block 32) ≡ some long_text
clone_outlives_example =
    clone_outlives two_blocks (store empty 16 (some long_text)) both _ long_text (at_block 16)
      (at_block 32) (omega arith)
      (unfold is_stack to_le from_le heap_len heap_ptr in inr (refl, refl, refl)) clone-long_text
      drop-long_text

-- "GHIJKLMNOPQRSTUV", as long as the text in the block.
abbrev new_text : List ℕ
new_text = 71 ∷ 72 ∷ 73 ∷ 74 ∷ 75 ∷ 76 ∷ 77 ∷ 78 ∷ 79 ∷ 80 ∷ 81 ∷ 82 ∷ 83 ∷ 84 ∷ 85 ∷ 86 ∷ []

write_str-as_str_example :
    (r' : Raw) × (h' : Heap) × (write_str (store empty 16 (some long_text)) (at_block 16) new_text
      ≡ some (r', h'))
    × (as_str h' r' ≡ some new_text)
    × (len r' ≡ len (at_block 16))
write_str-as_str_example =
    write_str-as_str (store empty 16 (some long_text)) (at_block 16) long_text new_text
      (new-Holds two_blocks empty _ zeros long_text (at_block 16) (omega arith) new-long_text) refl

cmp-contents_example :
    let h = store empty 16 (some long_text) in
    (o : Ordering) × (cmp h (at_block 16) (at_block 16) ≡ some o)
    × (partial_cmp h (at_block 16) (at_block 16) ≡ some (some o))
    × (cmp h (at_block 16) (at_block 16) ≡ some (reverse o))
    × ((o ≡ equal) ↔ (long_text ≡ long_text))
    × ((eq h (at_block 16) (at_block 16) ≡ some true) ↔ (long_text ≡ long_text))
    × (hash (λ bytes n. n + length bytes) h (at_block 16) 0 ≡ some 16)
cmp-contents_example =
    cmp-contents (store empty 16 (some long_text)) (at_block 16) (at_block 16) long_text long_text
      (λ bytes n. n + length bytes) 0
      (new-Holds two_blocks empty _ zeros long_text (at_block 16) (omega arith) new-long_text)
      (new-Holds two_blocks empty _ zeros long_text (at_block 16) (omega arith) new-long_text)
