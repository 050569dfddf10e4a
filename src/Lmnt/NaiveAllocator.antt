-- ===== src/Lmnt/NaiveAllocator.antt =====
-- `naive_allocator` (libelement/src/lmnt/naive_allocator.hpp), and what an allocator says of the stack
-- (libelement/src/lmnt/compiler_state.cpp).
use element.Prelude.{
  ℕ, zero, suc, Bool, not, ◌||◌, List, [], ◌∷◌, Option, none, some, max, get_elem?, if◌then◌else◌,
}
use element.Result.{ElementResult, ok, not_found}
use element.Lmnt.Allocation.{
  AllocationType, local, StackAllocation, add_u16, type, pinned, index, of_parent,
}
use element.Lmnt.Allocator.{StackAllocator, depth, get, count, update, same_type, count_of}

-- The allocation gets the next free part of the stack.
abbrev pub place_next : ℕ → StackAllocation → StackAllocator → StackAllocator
place_next h a s = record s {
  alloc_storage = update (λ b. record b { rel_index = s.cur_index }) h s.alloc_storage;
  cur_index = add_u16 s.cur_index a.count;
}

-- A parent places what it holds.
abbrev pub place_root : ℕ → Option StackAllocation → StackAllocator → StackAllocator
place_root h none s = s
place_root h (some a) s = of_parent a.parent (λ p. s) (place_next h a s)

-- Inputs, outputs and constants have their place already.
abbrev pub place_local :
    ℕ → Option AllocationType → Option Bool → StackAllocator → Option StackAllocator
place_local h none is_pinned s = none
place_local h (some t) none s = none
place_local h (some t) (some is_pinned) s = some (
    if not (same_type t local) || is_pinned
    then s
    else place_root h (get_elem? s.alloc_storage h) s)

abbrev pub with_code :
    ElementResult → Option StackAllocator → Option (ElementResult × StackAllocator)
with_code r none = none
with_code r (some s) = some (r, s)

abbrev pub allocate_at : Option ℕ → StackAllocator → Option (ElementResult × StackAllocator)
allocate_at none s = some (not_found, s)
allocate_at (some h) s =
    with_code ok
      (place_local h (type (depth s) s.alloc_storage h) (pinned (depth s) s.alloc_storage h) s)

-- `none` where the parents run in a cycle.
unfoldable pub allocate : StackAllocator → ℕ → ℕ → Option (ElementResult × StackAllocator)
allocate s i k = allocate_at (get s i k) s

-- ELEMENT_OK_OR_RETURN, then the rest.
abbrev pub and_then :
    Option (ElementResult × StackAllocator)
    → (StackAllocator → Option (ElementResult × StackAllocator))
    → Option (ElementResult × StackAllocator)
and_then none rest = none
and_then (some (ElementResult.ok, s)) rest = rest s
and_then (some (r, s)) rest = some (r, s)

-- The allocations of an instruction from the `k`-th on, `n` of them.
unfoldable pub allocate_from : ℕ → ℕ → StackAllocator → ℕ → Option (ElementResult × StackAllocator)
allocate_from zero k s i = some (ok, s)
allocate_from (suc n) k s i = and_then (allocate s i k) (λ s'. allocate_from n (suc k) s' i)

unfoldable pub allocate_all : StackAllocator → ℕ → Option (ElementResult × StackAllocator)
allocate_all s i = allocate_from (count s i) 0 s i

-- The end of an allocation, if it is local.
abbrev pub local_end : Option AllocationType → Option ℕ → Option StackAllocation → ℕ
local_end none i a = 0
local_end (some t) none a = 0
local_end (some t) (some i) a = if same_type t local then add_u16 i (count_of a) else 0

abbrev pub usage_of : StackAllocator → ℕ → ℕ
usage_of s h =
    local_end (type (depth s) s.alloc_storage h) (index (depth s) s.alloc_storage h)
      (get_elem? s.alloc_storage h)

unfoldable pub usage : StackAllocator → ℕ → List ℕ → ℕ
usage s cur [] = cur
usage s cur (h ∷ hs) = usage s (max cur (usage_of s h)) hs

unfoldable pub usage_all : StackAllocator → ℕ → List (ℕ × List ℕ) → ℕ
usage_all s cur [] = cur
usage_all s cur ((i, hs) ∷ rest) = usage_all s (usage s cur hs) rest

unfoldable pub get_max_stack_usage : StackAllocator → ℕ
get_max_stack_usage s = usage_all s 0 s.allocations
