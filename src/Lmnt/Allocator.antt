-- ===== src/Lmnt/Allocator.antt =====
-- `compiler_state::stack_allocator` (libelement/src/lmnt/compiler_state.cpp) and `naive_allocator`
-- (libelement/src/lmnt/naive_allocator.hpp). Instructions are their addresses.
use element.Prelude.{
  ℕ, zero, suc, Bool, true, false, List, [], ◌∷◌, ◌++◌, Option, none, some, length, get_elem?, ltb,
  ◌==◌, if◌then◌else◌,
}
use element.Result.{ElementResult, ok, not_found, invalid_operation}
use element.Lmnt.Allocation.{
  CompilationStage, AllocationType, constant, input, output, local, StackAllocation, allocation,
  type, pinned, index,
}

pub record StackAllocator : Type 0 where
  pub alloc_storage : List StackAllocation
  pub allocations : List (ℕ × List ℕ)
  -- The field of the naive allocator.
  pub cur_index : ℕ

-- A pass through all allocations is enough for a chain of parents without a cycle.
abbrev pub depth : StackAllocator → ℕ
depth s = suc (length s.alloc_storage)

abbrev pub lookup : ℕ → List (ℕ × List ℕ) → Option (List ℕ)
lookup i [] = none
lookup i ((j, hs) ∷ rest) = if j == i then some hs else lookup i rest

abbrev pub handle_at : Option (List ℕ) → ℕ → Option ℕ
handle_at none k = none
handle_at (some hs) k = get_elem? hs k

unfoldable pub get : StackAllocator → ℕ → ℕ → Option ℕ
get s i k = handle_at (lookup i s.allocations) k

abbrev pub length_of : Option (List ℕ) → ℕ
length_of none = 0
length_of (some hs) = length hs

unfoldable pub count : StackAllocator → ℕ → ℕ
count s i = length_of (lookup i s.allocations)

-- The assignment to a field of what a pointer points to.
abbrev pub update :
    (StackAllocation → StackAllocation) → ℕ → List StackAllocation → List StackAllocation
update f h [] = []
update f zero (a ∷ storage) = f a ∷ storage
update f (suc h) (a ∷ storage) = a ∷ update f h storage

-- A change to the allocation that is found, or ELEMENT_ERROR_NOT_FOUND.
abbrev pub change :
    Option ℕ → (StackAllocation → StackAllocation) → StackAllocator → ElementResult × StackAllocator
change none f s = (not_found, s)
change (some h) f s = (ok, record s { alloc_storage = update f h s.alloc_storage })

abbrev pub type_of : StackAllocator → Option ℕ → Option AllocationType
type_of s none = none
type_of s (some h) = type (depth s) s.alloc_storage h

abbrev pub same_type : AllocationType → AllocationType → Bool
same_type constant constant = true
same_type input input = true
same_type output output = true
same_type local local = true
same_type a b = false

abbrev pub equals_type : Option AllocationType → AllocationType → Bool
equals_type none t = false
equals_type (some u) t = same_type u t

unfoldable pub get_type : StackAllocator → ℕ → ℕ → Option AllocationType
get_type s i k = type_of s (get s i k)

unfoldable pub is_type : StackAllocator → ℕ → ℕ → AllocationType → Bool
is_type s i k t = equals_type (get_type s i k) t

-- _allocations[in].emplace_back(h)
abbrev pub append_handle : ℕ → ℕ → List (ℕ × List ℕ) → List (ℕ × List ℕ)
append_handle i h [] = (i, h ∷ []) ∷ []
append_handle i h ((j, hs) ∷ rest) =
    if j == i then (j, hs ++ h ∷ []) ∷ rest else (j, hs) ∷ append_handle i h rest

-- The pointer through which the source returns the new allocation has been moved from, and is null.
unfoldable pub add : StackAllocator → ℕ → ℕ → ElementResult × StackAllocator
add s i n = (
  ok,
  record s {
    allocations = append_handle i (length s.alloc_storage) s.allocations;
    alloc_storage = s.alloc_storage ++ allocation i n 0 0 ∷ [];
  },
)

unfoldable pub set_count : StackAllocator → ℕ → ℕ → ℕ → ElementResult × StackAllocator
set_count s i k n = change (get s i k) (λ a. record a { count = n }) s

unfoldable pub set_pinned :
    StackAllocator → ℕ → ℕ → AllocationType → ℕ → ℕ → ElementResult × StackAllocator
set_pinned s i k t index n =
    change (get s i k)
      (λ a. record a {
        parent = none;
        rel_type = t;
        rel_index = index;
        count = n;
        last_used_instruction = a.set_instruction;
        rel_pinned = true;
      })
      s

abbrev pub count_of : Option StackAllocation → ℕ
count_of none = 0
count_of (some a) = a.count

-- What follows the lookups of `set_parent`, given whether the child is pinned.
abbrev pub adopt :
    Option Bool → StackAllocator → ℕ → ℕ → ℕ → Option (ElementResult × StackAllocator)
adopt none s child parent rel_index = none
adopt (some true) s child parent rel_index = some (invalid_operation, s)
adopt (some false) s child parent rel_index =
    if ltb (count_of (get_elem? s.alloc_storage parent))
      (count_of (get_elem? s.alloc_storage child))
    then some (invalid_operation, s)
    else some
        (change (some child) (λ a. record a { parent = some parent; rel_index = rel_index }) s)

abbrev pub set_parent_at :
    Option ℕ → Option ℕ → ℕ → StackAllocator → Option (ElementResult × StackAllocator)
set_parent_at none parent rel_index s = some (not_found, s)
set_parent_at (some child) none rel_index s = some (not_found, s)
set_parent_at (some child) (some parent) rel_index s =
    adopt (pinned (depth s) s.alloc_storage child) s child parent rel_index

-- `none` where the parents of the child run in a cycle.
unfoldable pub set_parent :
    StackAllocator → ℕ → ℕ → ℕ → ℕ → ℕ → Option (ElementResult × StackAllocator)
set_parent s child k parent l rel_index = set_parent_at (get s child k) (get s parent l) rel_index s

abbrev pub set_in_of : Option StackAllocation → ℕ
set_in_of none = 0
set_in_of (some a) = a.set_instruction

abbrev pub use_at : Option ℕ → Option ℕ → StackAllocator → ElementResult × StackAllocator
use_at none current s = (not_found, s)
use_at (some h) none s = (not_found, s)
use_at (some h) (some current) s =
    let last = set_in_of (get_elem? s.alloc_storage current) in
    change (some h) (λ a. record a { last_used_instruction = last }) s

unfoldable pub use_allocation : StackAllocator → ℕ → ℕ → ℕ → ℕ → ElementResult × StackAllocator
use_allocation s current_in child_index alloc_in alloc_index =
    use_at (get s alloc_in alloc_index) (get s current_in child_index) s

abbrev pub update_all :
    (StackAllocation → StackAllocation) → List ℕ → List StackAllocation → List StackAllocation
update_all f [] storage = storage
update_all f (h ∷ hs) storage = update_all f hs (update f h storage)

abbrev pub set_stage_at :
    Option (List ℕ) → CompilationStage → StackAllocator → ElementResult × StackAllocator
set_stage_at none stage s = (not_found, s)
set_stage_at (some hs) stage s = (
  ok,
  record s { alloc_storage = update_all (λ a. record a { stage = stage }) hs s.alloc_storage },
)

unfoldable pub set_stage : StackAllocator → ℕ → CompilationStage → ElementResult × StackAllocator
set_stage s i stage = set_stage_at (lookup i s.allocations) stage s
