-- ===== src/ConstString/Layout.antt =====
-- const_string/src/lib.rs: `HeapStackStr` and its two layouts. `none` is what would be undefined.
use forwardr.Base.{
  ℕ, ◌*◌, ◌/◌, ◌%◌, Bool, not, leb, ◌==◌, if◌then◌else◌, Option, none, some, List, [], ◌∷◌, ◌++◌,
  length, take, drop, bit_and, bit_or,
}
use forwardr.Base.Bytes.{to_le, from_le}
use forwardr.ConstString.Heap.{Heap, Allocator, store, dealloc}
use mathlib.Core.Option

abbrev pub stack_len_max : ℕ
stack_len_max = 15

-- The bytes of the union.
abbrev pub Raw : Type 0
Raw = List ℕ

abbrev pub first : Raw → ℕ
first [] = 0
first (b ∷ bs) = b

-- The length of the array `str` behind the byte `len`.
abbrev pub stack_room : ℕ
stack_room = 15

-- The bytes behind the string stay uninitialised: they are what `junk` holds.
unfoldable pub stack_bytes : List ℕ → List ℕ → Raw
stack_bytes junk val = bit_or (length val % 256 * 2 % 256) 1 ∷ (val ++ drop (length val) junk)

-- `StackStr::new`. The copy is not checked: a longer string is written past the array.
unfoldable pub stack_new : List ℕ → List ℕ → Option Raw
stack_new junk val = if leb (length val) stack_room then some (stack_bytes junk val) else none

unfoldable pub stack_len : Raw → ℕ
stack_len raw = first raw / 2

unfoldable pub stack_as_str : Raw → List ℕ
unfolding stack_len
stack_as_str raw = take (stack_len raw) (drop 1 raw)

-- The fields of `HeapStr`.
unfoldable pub heap_ptr : Raw → ℕ
heap_ptr raw = from_le (take 8 raw)

unfoldable pub heap_len : Raw → ℕ
heap_len raw = from_le (drop 8 raw)

-- `HeapStr::new`; a null pointer ends the program in `handle_alloc_error`.
unfoldable pub heap_new : Allocator → Heap → List ℕ → Option (Raw × Heap)
heap_new a h val =
    Option.map (λ p. (to_le 8 p ++ to_le 8 (length val), store h p (some val)))
      (a.alloc h (length val))

unfoldable pub heap_as_str : Heap → Raw → Option (List ℕ)
unfolding heap_ptr heap_len
heap_as_str h raw = elim (h (heap_ptr raw)) [
  | none ↦ none
  | some block ↦
      if leb (heap_len raw) (length block) then some (take (heap_len raw) block) else none
]

-- The tag is the lowest bit of the lowest byte.
unfoldable pub is_stack : Raw → Bool
is_stack raw = not (bit_and (first raw) 1 == 0)

-- `HeapStackStr::new`, behind `ConstString::new`.
unfoldable pub new : Allocator → Heap → List ℕ → List ℕ → Option (Raw × Heap)
unfolding stack_new
new a h junk val =
    if leb (length val) stack_len_max
    then Option.map (λ r. (r, h)) (stack_new junk val)
    else heap_new a h val

unfoldable pub len : Raw → ℕ
unfolding is_stack stack_len heap_len
len raw = if is_stack raw then stack_len raw else heap_len raw

unfoldable pub as_str : Heap → Raw → Option (List ℕ)
unfolding is_stack stack_as_str heap_as_str
as_str h raw = if is_stack raw then some (stack_as_str raw) else heap_as_str h raw

-- `Drop`: the block is freed with the size that the value holds.
unfoldable pub drop_str : Heap → Raw → Option Heap
unfolding is_stack heap_ptr heap_len
drop_str h raw = if is_stack raw then some h else dealloc h (heap_ptr raw) (heap_len raw)

-- A write of as many bytes through `as_mut_str`.
unfoldable pub write_str : Heap → Raw → List ℕ → Option (Raw × Heap)
unfolding is_stack stack_len heap_ptr heap_len
write_str h raw val =
    if is_stack raw
    then if length val == stack_len raw
      then some (first raw ∷ (val ++ drop (length val) (drop 1 raw)), h)
      else none
    else if length val == heap_len raw
    then elim (h (heap_ptr raw)) [
      | none ↦ none
      | some block ↦
          if leb (heap_len raw) (length block)
          then some (raw, store h (heap_ptr raw) (some (val ++ drop (length val) block)))
          else none
    ]
    else none
