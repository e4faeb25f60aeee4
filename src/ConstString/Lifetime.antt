-- ===== src/ConstString/Lifetime.antt =====
-- A value's block: freed once, with its size, and apart from its clone's.
use forwardr.Base.{
  ℕ, ◌^◌, ◌<◌, ◌≡◌, refl, sym, ap, subst, ◌∙◌, true, false, leb, Option, none, some, List, length,
  inl, inr, Bool-cases, arith,
}
use mathlib.Core.Option.{some-injective}
use forwardr.ConstString.Heap.{Heap, Allocator, store}
use forwardr.ConstString.Layout.{
  Raw, stack_bytes, heap_ptr, heap_len, heap_new, heap_as_str, is_stack, new, as_str, drop_str,
}
use forwardr.ConstString.Impls.{clone}
use forwardr.ConstString.Contents.{
  Holds, Holds-as_str, heap_read, store_self, stack_bytes-Holds, heap_new-eq, heap_value,
}

-- The drop of a value on the stack frees nothing; on the heap it frees the value's block.
drop_str-stack : (h : Heap) (r : Raw) → is_stack r ≡ true → drop_str h r ≡ some h
unfolding drop_str
drop_str-stack h r t = rw t

drop_str-heap :
    (h : Heap) (r : Raw) (val : List ℕ)
    → is_stack r ≡ false
    → heap_len r ≡ length val
    → h (heap_ptr r) ≡ some val
    → drop_str h r ≡ some (store h (heap_ptr r) none)
unfolding drop_str
drop_str-heap h r val t n c = rw t (ground arith)

store-store-none :
    (h : Heap) (p q : ℕ) (b : Option (List ℕ)) → h p ≡ none → store (store h p b) p none q ≡ h q
store-store-none h p q b e = ground (arith, ap h)

released :
    (h : Heap) (p : ℕ) (val : List ℕ) (r : Raw)
    → is_stack r ≡ false
    → heap_len r ≡ length val
    → heap_ptr r ≡ p
    → h p ≡ none
    → (h'' : Heap) × (drop_str (store h p (some val)) r ≡ some h'') × ((q : ℕ) → h'' q ≡ h q)
released h p val r tag size ptr free = (
  store (store h p (some val)) (heap_ptr r) none,
  drop_str-heap _ r val tag size (rw ptr (store_self h p (some val))),
  λ q. rw ptr (store-store-none h p q (some val) free),
)

-- Where `ConstString::new` succeeds for a string shorter than 2 ^ 64 bytes, dropping the value
-- succeeds and gives the heap back as it was:
-- the block is in use, it is freed with the size it was allocated with, and no block is left behind.
pub drop_str-new :
    (a : Allocator) (h h' : Heap) (junk val : List ℕ) (r : Raw)
    → length val < 2 ^ 64
    → new a h junk val ≡ some (r, h')
    → (h'' : Heap) × (drop_str h' r ≡ some h'') × ((q : ℕ) → h'' q ≡ h q)
unfolding new
drop_str-new a h h' junk val r fits e = elim (Bool-cases (leb (length val) 15)) [
  | inl short ↦
      let built : some (stack_bytes junk val, h) ≡ some (r, h') = rw short at e in
      subst (λ q. (h'' : Heap) × (drop_str q.1 q.0 ≡ some h'') × ((p : ℕ) → h'' p ≡ h p))
        (some-injective _ _ built)
        (h, drop_str-stack h _ ((stack_bytes-Holds h junk val (ground arith)).0), λ q. refl)
  | inr long ↦
      let (p, got, er, eh) = heap_new-eq a h h' val r (rw long at e) in
      let (tag, size, ptr) = heap_value a h val p fits got in
      rw (er, eh) (released h p val _ tag size ptr (a.is_fresh h (length val) p got))
]

-- A block stays as it is while a fresh one is written and, the other way round, freed.
kept :
    (h : Heap) (p q : ℕ) (val : List ℕ)
    → h q ≡ some val
    → h p ≡ none
    → (store h p (some val) q ≡ some val) × (store (store h p (some val)) q none p ≡ some val)
kept h p q val e f = ground (arith, ap h)

-- The clone of a value on the heap is a block of its own.
clone_heap :
    (a : Allocator) (h h' h'' : Heap) (val : List ℕ) (r c : Raw)
    → length val < 2 ^ 64
    → is_stack r ≡ false
    → heap_len r ≡ length val
    → h (heap_ptr r) ≡ some val
    → heap_new a h val ≡ some (c, h')
    → drop_str h' r ≡ some h''
    → Holds h'' c val
clone_heap a h h' h'' val r c fits t n owns e d =
    let (p, got, er, eh) = heap_new-eq a h h' val c e in
    let (tag, size, ptr) = heap_value a h val p fits got in
    let (read_old, read_new) = kept h p (heap_ptr r) val owns (a.is_fresh h (length val) p got) in
    let freed : drop_str h' r ≡ some (store h' (heap_ptr r) none) =
      drop_str-heap h' r val t n (rw eh read_old) in
    let left : h'' ≡ store h' (heap_ptr r) none = some-injective _ _ (sym d ∙ freed) in
    rw (left, eh, er) (inr (tag, size, rw ptr read_new))

-- A clone outlives its original: for a string shorter than 2 ^ 64 bytes, where `clone` succeeds, and
-- the original is then dropped, the clone still reads as the string that the original held.
pub clone_outlives :
    (a : Allocator) (h h' h'' : Heap) (val : List ℕ) (r c : Raw)
    → length val < 2 ^ 64
    → Holds h r val
    → clone a h r ≡ some (c, h')
    → drop_str h' r ≡ some h''
    → as_str h'' c ≡ some val
unfolding clone
clone_outlives a h h' h'' val r c fits (inl (t, n, v)) e d =
    let copied : (r, h) ≡ (c, h') = some-injective _ _ (rw t at e) in
    let here : Holds h' c val = subst (λ q. Holds q.1 q.0 val) copied (inl (t, n, v)) in
    let same : h'' ≡ h' = some-injective _ _ (sym d ∙ drop_str-stack h' r t) in
    (Holds-as_str h'' c val (rw same here)).0
clone_outlives a h h' h'' val r c fits (inr (t, n, v)) e d =
    let read : heap_as_str h r ≡ some val = heap_read h r val n v in
    let built : heap_new a h val ≡ some (c, h') = rw (t, read) at e in
    (Holds-as_str h'' c val (clone_heap a h h' h'' val r c fits t n v built d)).0
