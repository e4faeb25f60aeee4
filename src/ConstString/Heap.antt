-- ===== src/ConstString/Heap.antt =====
-- The allocator that const_string calls, and what its documentation promises.
use forwardr.Base.{ℕ, ◌^◌, ◌<◌, ◌≡◌, Option, none, some, List, length, ◌==◌, if◌then◌else◌, ◌%◌}

-- The blocks in use, by address. Every block here is allocated with alignment 2.
abbrev pub Heap : Type 0
Heap = ℕ → Option (List ℕ)

abbrev pub store : Heap → ℕ → Option (List ℕ) → Heap
store h p b q = if p == q then b else h q

-- `std::alloc::alloc` for a size and `PTR_ALIGN`: an address that is not in use, or null (`none`).
pub record Allocator : Type 0 where
  pub alloc : Heap → ℕ → Option ℕ
  pub is_fresh : (h : Heap) (n p : ℕ) → alloc h n ≡ some p → h p ≡ none
  pub is_aligned : (h : Heap) (n p : ℕ) → alloc h n ≡ some p → p % 2 ≡ 0
  pub is_word : (h : Heap) (n p : ℕ) → alloc h n ≡ some p → p < 2 ^ 64

-- `std::alloc::dealloc`: the block must be in use, and have been allocated with this size.
abbrev pub dealloc : Heap → ℕ → ℕ → Option Heap
dealloc h p n = elim (h p) [
  | none ↦ none
  | some b ↦ if length b == n then some (store h p none) else none
]
