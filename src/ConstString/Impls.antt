-- ===== src/ConstString/Impls.antt =====
-- const_string/src/impls.rs: `Clone`, the comparisons by contents, `Hash` and the conversions.
use forwardr.Base.{
  ℕ, Bool, true, false, ◌&&◌, ◌==◌, ltb, if◌then◌else◌, Option, some, List, [], ◌∷◌,
}
use forwardr.ConstString.Heap.{Heap, Allocator}
use forwardr.ConstString.Layout.{Raw, is_stack, heap_as_str, heap_new, new, as_str}
use mathlib.Core.Option

-- A value on the stack is copied; one on the heap is built anew from its contents.
unfoldable pub clone : Allocator → Heap → Raw → Option (Raw × Heap)
unfolding is_stack heap_as_str heap_new Option.bind
clone a h raw =
    if is_stack raw then some (raw, h) else Option.bind (heap_as_str h raw) (heap_new a h)

-- `str::eq`, from the standard library: byte by byte.
abbrev pub str_eq : List ℕ → List ℕ → Bool
str_eq [] [] = true
str_eq (b ∷ bs) (c ∷ cs) = b == c && str_eq bs cs
str_eq _ _ = false

-- `PartialEq::eq`
unfoldable pub eq : Heap → Raw → Raw → Option Bool
unfolding as_str
eq h r s = Option.bind (as_str h r) λ v. Option.map (str_eq v) (as_str h s)

-- `std::cmp::Ordering`, and `str::cmp`, which compares byte by byte.
pub data Ordering : Type 0 where
  less equal greater : Ordering

abbrev pub str_cmp : List ℕ → List ℕ → Ordering
str_cmp [] [] = equal
str_cmp [] (c ∷ cs) = less
str_cmp (b ∷ bs) [] = greater
str_cmp (b ∷ bs) (c ∷ cs) =
    let rest = str_cmp bs cs in if ltb b c then less else if ltb c b then greater else rest

-- `Ord::cmp` and `PartialOrd::partial_cmp`.
unfoldable pub cmp : Heap → Raw → Raw → Option Ordering
unfolding as_str
cmp h r s = Option.bind (as_str h r) λ v. Option.map (str_cmp v) (as_str h s)

unfoldable pub partial_cmp : Heap → Raw → Raw → Option (Option Ordering)
unfolding as_str
partial_cmp h r s = Option.bind (as_str h r) λ v. Option.map (λ u. some (str_cmp v u)) (as_str h s)

-- `Hash::hash`: what `str::hash` makes of a hasher's state.
unfoldable pub hash : {H : Type 0} → (List ℕ → H → H) → Heap → Raw → H → Option H
unfolding as_str
hash str_hash h r state = Option.map (λ v. str_hash v state) (as_str h r)

-- `Default`, `From<&str>`, `From<String>` and `FromStr`, which cannot fail; and `From<ConstString> for String`.
unfoldable pub default : Allocator → Heap → List ℕ → Option (Raw × Heap)
unfolding new
default a h junk = new a h junk []

unfoldable pub from : Allocator → Heap → List ℕ → List ℕ → Option (Raw × Heap)
unfolding new
from a h junk value = new a h junk value

unfoldable pub from_string : Allocator → Heap → List ℕ → List ℕ → Option (Raw × Heap)
unfolding new
from_string a h junk value = new a h junk value

unfoldable pub from_str : Allocator → Heap → List ℕ → List ℕ → Option (Raw × Heap)
unfolding from
from_str a h junk s = from a h junk s

unfoldable pub into_string : Heap → Raw → Option (List ℕ)
unfolding as_str
into_string h value = as_str h value
