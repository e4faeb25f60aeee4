-- ===== src/ConstString/Contents.antt =====
-- What a value holds, from its construction to its drop.
use forwardr.Base.{
  ℕ, ◌+◌, ◌*◌, ◌%◌, ◌^◌, ◌<◌, ◌≤◌, ◌≡◌, refl, sym, ap, subst, true, false, leb, Option, none, some,
  List, ◌++◌, length, length-append, length-drop, drop, take, take-append, take-length, ◌⊎◌, inl,
  inr, Bool-cases, arith,
}
use mathlib.Core.Option
use mathlib.Core.Option.{some-injective}
use forwardr.Base.Bytes.{to_le, from_le-to_le}
use forwardr.ConstString.Heap.{Heap, Allocator, store}
use forwardr.ConstString.Layout.{
  Raw, first, stack_room, stack_bytes, stack_len, stack_as_str, heap_ptr, heap_len, heap_new,
  heap_as_str, is_stack, new, len, as_str,
}
use forwardr.ConstString.Tag.{bit_and-one_byte, header_value}

-- A value on the stack holds its bytes; one on the heap owns a block of just its length.
abbrev pub Holds : Heap → Raw → List ℕ → Type 0
Holds h raw val =
    (is_stack raw ≡ true) × (stack_len raw ≡ length val) × (stack_as_str raw ≡ val)
    ⊎ (is_stack raw ≡ false) × (heap_len raw ≡ length val) × (h (heap_ptr raw) ≡ some val)

first-stack_bytes :
    (junk val : List ℕ) → length val < 16 → first (stack_bytes junk val) ≡ 2 * length val + 1
unfolding stack_bytes
first-stack_bytes junk val h = header_value (length val) h

pub stack_bytes-Holds :
    (h : Heap) (junk val : List ℕ)
    → length val < 16
    → (is_stack (stack_bytes junk val) ≡ true)
      × (stack_len (stack_bytes junk val) ≡ length val)
      × (stack_as_str (stack_bytes junk val) ≡ val)
stack_bytes-Holds h junk val fits = (tagged, sized, contents)
  where
    tagged : is_stack (stack_bytes junk val) ≡ true
    tagged =
        unfold is_stack in
        rw (first-stack_bytes junk val fits) (ground (arith, bit_and-one_byte (2 * length val + 1)))

    sized : stack_len (stack_bytes junk val) ≡ length val
    sized = unfold stack_len in omega (arith, first-stack_bytes junk val fits)

    contents : stack_as_str (stack_bytes junk val) ≡ val
    contents = unfold stack_as_str in rw sized (unfold stack_bytes in take-append val _)

stack_bytes-length :
    (junk val : List ℕ)
    → length junk ≡ stack_room
    → length val ≤ 15
    → length (stack_bytes junk val) ≡ 16
unfolding stack_bytes
stack_bytes-length junk val room few =
    ground (arith, length-append val (drop (length val) junk), length-drop (length val) junk)

heap_length : (p n : ℕ) → length (to_le 8 p ++ to_le 8 n) ≡ 16
unfolding to_le
heap_length p n = refl

heap_fields :
    (p n : ℕ)
    → p < 2 ^ 64
    → n < 2 ^ 64
    → (heap_ptr (to_le 8 p ++ to_le 8 n) ≡ p)
      × (heap_len (to_le 8 p ++ to_le 8 n) ≡ n)
      × (first (to_le 8 p ++ to_le 8 n) ≡ p % 256)
unfolding heap_ptr heap_len to_le
heap_fields p n hp hn = (from_le-to_le 8 p (omega arith), from_le-to_le 8 n (omega arith), refl)

heap_tag :
    (p n : ℕ) → p < 2 ^ 64 → n < 2 ^ 64 → p % 2 ≡ 0 → is_stack (to_le 8 p ++ to_le 8 n) ≡ false
unfolding is_stack
heap_tag p n hp hn even =
    rw ((heap_fields p n hp hn).2) (ground (arith, bit_and-one_byte (p % 256)))

-- Where an allocation succeeds, the value owns the new block.
pub heap_value :
    (a : Allocator) (h : Heap) (val : List ℕ) (p : ℕ)
    → length val < 2 ^ 64
    → a.alloc h (length val) ≡ some p
    → (is_stack (to_le 8 p ++ to_le 8 (length val)) ≡ false)
      × (heap_len (to_le 8 p ++ to_le 8 (length val)) ≡ length val)
      × (heap_ptr (to_le 8 p ++ to_le 8 (length val)) ≡ p)
heap_value a h val p fits e =
    let word = a.is_word h (length val) p e in
    let (ptr, size, _) = heap_fields p (length val) word fits in
    (heap_tag p (length val) word fits (a.is_aligned h (length val) p e), size, ptr)

pub store_self : (h : Heap) (p : ℕ) (b : Option (List ℕ)) → store h p b p ≡ b
store_self h p b = ground arith

-- What a successful `HeapStr::new` has done.
mapped :
    {X : Type 0} (f : ℕ → X) (o : Option ℕ) (x : X)
    → Option.map f o ≡ some x
    → (p : ℕ) × (o ≡ some p) × (x ≡ f p)
mapped f none x e = cc
mapped f (some p) x e = (p, refl, sym (some-injective _ _ e))

pub heap_new-eq :
    (a : Allocator) (h h' : Heap) (val : List ℕ) (r : Raw)
    → heap_new a h val ≡ some (r, h')
    → (p : ℕ) × (a.alloc h (length val) ≡ some p)
      × (r ≡ to_le 8 p ++ to_le 8 (length val))
      × (h' ≡ store h p (some val))
unfolding heap_new
heap_new-eq a h h' val r e =
    let (p, got, built) = mapped _ (a.alloc h (length val)) (r, h') e in
    (p, got, ap (λ q. q.0) built, ap (λ q. q.1) built)

pub heap_new-Holds :
    (a : Allocator) (h h' : Heap) (val : List ℕ) (r : Raw)
    → length val < 2 ^ 64
    → heap_new a h val ≡ some (r, h')
    → Holds h' r val
heap_new-Holds a h h' val r fits e =
    let (p, got, er, eh) = heap_new-eq a h h' val r e in
    let (tag, size, ptr) = heap_value a h val p fits got in
    rw (er, eh) (inr (tag, size, rw ptr (store_self h p (some val))))

-- A new value holds the string that it was made from.
pub new-Holds :
    (a : Allocator) (h h' : Heap) (junk val : List ℕ) (r : Raw)
    → length val < 2 ^ 64
    → new a h junk val ≡ some (r, h')
    → Holds h' r val
unfolding new
new-Holds a h h' junk val r fits e = elim (Bool-cases (leb (length val) 15)) [
  | inl short ↦
      let built : some (stack_bytes junk val, h) ≡ some (r, h') = rw short at e in
      subst (λ q. Holds q.1 q.0 val) (some-injective _ _ built)
        (inl (stack_bytes-Holds h junk val (ground arith)))
  | inr long ↦ heap_new-Holds a h h' val r fits (rw long at e)
]

pub heap_read :
    (h : Heap) (r : Raw) (val : List ℕ)
    → heap_len r ≡ length val
    → h (heap_ptr r) ≡ some val
    → heap_as_str h r ≡ some val
unfolding heap_as_str
heap_read h r val n c = ground (arith, take-length val, ap (λ k. take k val) n)

pub Holds-as_str :
    (h : Heap) (r : Raw) (val : List ℕ)
    → Holds h r val
    → (as_str h r ≡ some val) × (len r ≡ length val)
unfolding as_str len
Holds-as_str h r val (inl (t, n, c)) = (rw t (ap some c), rw t n)
Holds-as_str h r val (inr (t, n, c)) = (rw t (heap_read h r val n c), rw t n)

new-is_stack :
    (a : Allocator) (h h' : Heap) (junk val : List ℕ) (r : Raw)
    → length val < 2 ^ 64
    → new a h junk val ≡ some (r, h')
    → is_stack r ≡ leb (length val) 15
unfolding new
new-is_stack a h h' junk val r fits e = elim (Bool-cases (leb (length val) 15)) [
  | inl short ↦
      let built : some (stack_bytes junk val, h) ≡ some (r, h') = rw short at e in
      subst (λ q. is_stack q.0 ≡ leb (length val) 15) (some-injective _ _ built)
        (rw short ((stack_bytes-Holds h junk val (ground arith)).0))
  | inr long ↦
      let (p, got, er, eh) = heap_new-eq a h h' val r (rw long at e) in
      rw (er, long) ((heap_value a h val p fits got).0)
]

-- Where `ConstString::new` succeeds for a string shorter than 2 ^ 64 bytes, the value reads back as
-- the string, with its length, and lies on the stack just if the string has at most 15 bytes.
pub new-as_str :
    (a : Allocator) (h h' : Heap) (junk val : List ℕ) (r : Raw)
    → length val < 2 ^ 64
    → new a h junk val ≡ some (r, h')
    → (as_str h' r ≡ some val) × (len r ≡ length val) × (is_stack r ≡ leb (length val) 15)
new-as_str a h h' junk val r fits e =
    let (reads, size) = Holds-as_str h' r val (new-Holds a h h' junk val r fits e) in
    (reads, size, new-is_stack a h h' junk val r fits e)

new-some :
    (a : Allocator) (h : Heap) (junk val : List ℕ)
    → (length val ≤ 15) ⊎ ((p : ℕ) × (a.alloc h (length val) ≡ some p))
    → (r : Raw) × (h' : Heap) × (new a h junk val ≡ some (r, h'))
unfolding new heap_new
new-some a h junk val can = elim (Bool-cases (leb (length val) 15)) [
  | inl short ↦ (stack_bytes junk val, h, rw short refl)
  | inr long ↦ elim can [
    | inl few ↦ absurd (ground arith)
    | inr (p, e) ↦
        (to_le 8 p ++ to_le 8 (length val), store h p (some val), rw (long, e, Option.map) refl)
  ]
]

-- Both layouts fill the union.
new-length :
    (a : Allocator) (h h' : Heap) (junk val : List ℕ) (r : Raw)
    → length junk ≡ stack_room
    → new a h junk val ≡ some (r, h')
    → length r ≡ 16
unfolding new
new-length a h h' junk val r room e = elim (Bool-cases (leb (length val) 15)) [
  | inl short ↦
      let built : some (stack_bytes junk val, h) ≡ some (r, h') = rw short at e in
      subst (λ q. length q.0 ≡ 16) (some-injective _ _ built)
        (stack_bytes-length junk val room (ground arith))
  | inr long ↦
      let (p, got, er, eh) = heap_new-eq a h h' val r (rw long at e) in
      rw er (heap_length p (length val))
]

-- For a string shorter than 2 ^ 64 bytes, `ConstString::new` succeeds if it has at most 15 bytes, and
-- for a longer one wherever the allocation does: the copy stays within the array. The value then reads
-- back as the string, and has 16 bytes in both layouts, if the array has its 15 bytes.
pub new-succeeds :
    (a : Allocator) (h : Heap) (junk val : List ℕ)
    → length junk ≡ stack_room
    → length val < 2 ^ 64
    → (length val ≤ 15) ⊎ ((p : ℕ) × (a.alloc h (length val) ≡ some p))
    → (r : Raw) × (h' : Heap) × (new a h junk val ≡ some (r, h'))
      × (as_str h' r ≡ some val)
      × (length r ≡ 16)
new-succeeds a h junk val room fits can =
    let (r, h', e) = new-some a h junk val can in
    (r, h', e, (new-as_str a h h' junk val r fits e).0, new-length a h h' junk val r room e)
