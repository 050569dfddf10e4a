-- ===== src/Lmnt/Tests.antt =====
-- The theorems on libelement/src/lmnt at concrete inputs.
use element.Prelude.{
  ap, ◌∙◌, ◌+◌, ◌%◌, ◌⊎◌, ◌≢◌, true, false, All, get_elem?, zero, suc, Option, none, ℕ, ◌≤◌, ◌<◌,
  ◌^◌, ◌≡◌, refl, List, [], ◌∷◌, ◌++◌, some, arith,
}
use element.Result.{ok}
use element.InstructionTree.Tests.{naturals}
use element.Lmnt.Allocation.{
  StackAllocation, type, pinned, index, input, conditional, allocation, min_execution,
}
use element.Lmnt.Parents.{Descends, Chain, sum_of, parents-Chain}
use element.Lmnt.Allocator.{StackAllocator, get, count_of}
use element.Lmnt.Constants.{add_constant-find_constant}
use element.Lmnt.Contexts.{push_context-pop_context}
use element.Lmnt.NaiveAllocator.{allocate, allocate_all, get_max_stack_usage}
use element.Lmnt.AllPacked.{onto, allocate_all-IsPacked}
use element.Lmnt.Packed.{IsPacked, empty, behind, EndsBy, allocate-IsPacked}
use element.Lmnt.Regions.{calculate_stack_index-injective}
use element.Lmnt.State.{
  calculate_stack_index, add_constant, find_constant, outermost, current_context_type, push_context,
  pop_context,
}
use element.Lmnt.Usage.{EndsAt, IsHeld, get_max_stack_usage-greatest}

calculate_stack_index-injective_example : (input ≡ input) × (◌≡◌ {A = ℕ} 1 1)
unfolding calculate_stack_index
calculate_stack_index-injective_example =
    calculate_stack_index-injective 4 3 2 1 (omega arith) input input 1 1 (omega arith)
      (omega arith) refl

add_constant-find_constant_example :
    (more : List ℕ) × (k : ℕ) × (add_constant naturals 7 (5 ∷ 6 ∷ []) false
      ≡ some (ok, (5 ∷ 6 ∷ []) ++ more, none))
    × (k < 2 ^ 16)
    × (find_constant naturals 7 ((5 ∷ 6 ∷ []) ++ more) ≡ (ok, some k))
    × ((w j : ℕ)
        → find_constant naturals w (5 ∷ 6 ∷ []) ≡ (ok, some j)
        → (find_constant naturals w ((5 ∷ 6 ∷ []) ++ more) ≡ (ok, some j))
          × (add_constant naturals w (5 ∷ 6 ∷ []) true ≡ some (ok, 5 ∷ 6 ∷ [], some j)))
add_constant-find_constant_example =
    add_constant-find_constant naturals 7 (5 ∷ 6 ∷ []) refl (omega arith)

push_context-pop_context_example :
    (current_context_type (push_context 2 conditional (outermost 1)).1
      ≡ min_execution conditional (current_context_type (outermost 1)))
    × (pop_context (push_context 2 conditional (outermost 1)).1 ≡ (ok, outermost 1))
push_context-pop_context_example = push_context-pop_context 2 conditional (outermost 1)

-- An instruction at 10 with two values, which are placed, and one at 11 with three, which are not.
abbrev two_allocations : StackAllocator
two_allocations = record {
  alloc_storage = allocation 10 2 0 0 ∷ allocation 11 3 0 0 ∷ [];
  allocations = (10, 0 ∷ []) ∷ (11, 1 ∷ []) ∷ [];
  cur_index = 2;
}

two_allocations-IsPacked : IsPacked two_allocations.alloc_storage (0 ∷ []) 2
two_allocations-IsPacked =
    behind {m = 0} (allocation 10 2 0 0) empty refl (omega arith) (omega arith)

allocate-IsPacked_example :
    (s : StackAllocator) × (allocate two_allocations 11 0 ≡ some (ok, s))
    × (get_elem? s.alloc_storage 1 ≡ some (record (allocation 11 3 0 0) { rel_index = 2 }))
    × ((g : ℕ) → g ≢ 1 → get_elem? s.alloc_storage g ≡ get_elem? two_allocations.alloc_storage g)
    × (s.cur_index ≡ 2 + 3)
    × (s.allocations ≡ two_allocations.allocations)
    × All (EndsBy two_allocations.alloc_storage 2) (0 ∷ [])
    × IsPacked s.alloc_storage (1 ∷ 0 ∷ []) s.cur_index
unfolding get
allocate-IsPacked_example =
    allocate-IsPacked two_allocations 11 0 1 (allocation 11 3 0 0) (0 ∷ []) refl refl refl refl refl
      (λ e. omega (arith, e), tt) two_allocations-IsPacked (omega arith)

allocate_all-IsPacked_example :
    (s : StackAllocator) × (allocate_all two_allocations 11 ≡ some (ok, s))
    × IsPacked s.alloc_storage (onto (1 ∷ []) (0 ∷ [])) s.cur_index
    × (s.cur_index ≡ 5)
    × ((g : ℕ)
        → count_of (get_elem? s.alloc_storage g)
          ≡ count_of (get_elem? two_allocations.alloc_storage g))
    × ((g : ℕ)
        → All (λ h. h ≢ g) (1 ∷ [])
        → get_elem? s.alloc_storage g ≡ get_elem? two_allocations.alloc_storage g)
allocate_all-IsPacked_example =
    allocate_all-IsPacked two_allocations 11 (1 ∷ []) (0 ∷ []) 5 refl two_allocations-IsPacked (
      allocation 11 3 0 0,
      refl,
      refl,
      refl,
      refl,
      (λ e. omega (arith, e), tt),
      (refl, omega arith),
    )

two_allocations-EndsAt : EndsAt two_allocations 1 3
unfolding type index
two_allocations-EndsAt = (0, allocation 11 3 0 0, refl, refl, refl, refl)

get_max_stack_usage-greatest_example :
    (3 ≤ get_max_stack_usage two_allocations)
    × ((get_max_stack_usage two_allocations ≡ 0)
        ⊎ ((g : ℕ) × IsHeld two_allocations.allocations g
            × EndsAt two_allocations g (get_max_stack_usage two_allocations)))
unfolding get
get_max_stack_usage-greatest_example =
    get_max_stack_usage-greatest two_allocations 11 0 1 3 refl two_allocations-EndsAt

-- The second allocation holds the first.
abbrev nested : List StackAllocation
nested = record (allocation 10 2 0 0) { parent = some 1 } ∷ allocation 11 3 0 0 ∷ []

abbrev nested_rank : ℕ → ℕ
nested_rank zero = 1
nested_rank (suc h) = 0

abbrev parent_of : Option StackAllocation → Option ℕ
parent_of none = none
parent_of (some a) = a.parent

nested-Descends : Descends nested_rank nested
nested-Descends zero p a e n =
    let parents : some 1 ≡ some p = ap parent_of e ∙ n in
    let same : 1 ≡ p = cc in rw (← same) (omega arith, omega arith)
nested-Descends (suc zero) p a e n = let parents : none ≡ some p = ap parent_of e ∙ n in cc
nested-Descends (suc (suc h)) p a e n = cc

parents-Chain_example :
    (offsets : List ℕ) × (a : StackAllocation) × Chain nested 0 offsets a
    × (type 3 nested 0 ≡ some a.rel_type)
    × (pinned 3 nested 0 ≡ some a.rel_pinned)
    × (index 3 nested 0 ≡ some (sum_of offsets % 2 ^ 16))
parents-Chain_example =
    parents-Chain nested_rank nested 3 0 nested-Descends (omega arith) (omega arith)
