-- ===== src/Lmnt/Uses.antt =====
-- `use_in_context` and `use` of `compiler_state` (libelement/src/lmnt/compiler_state.cpp).
use element.Prelude.{ℕ, List, [], ◌∷◌, Option, none, some, ◌==◌, if◌then◌else◌}
use element.Result.{ElementResult, ok, unknown}
use element.Lmnt.Allocation.{set_executed_in}
use element.Lmnt.Allocator.{StackAllocator, get, update_all, lookup, use_allocation}
use element.Lmnt.State.{Contexts, current_context_type}

-- The set of a context's allocations: `emplace` keeps an element that is there.
abbrev pub emplace : ℕ → List ℕ → List ℕ
emplace h [] = h ∷ []
emplace h (g ∷ gs) = if g == h then g ∷ gs else g ∷ emplace h gs

abbrev pub emplace_all : List ℕ → List ℕ → List ℕ
emplace_all [] gs = gs
emplace_all (h ∷ hs) gs = emplace_all hs (emplace h gs)

abbrev pub add_to_context : List ℕ → Contexts → Contexts
add_to_context hs cs = record cs {
  current = record cs.current { allocations = emplace_all hs cs.current.allocations };
}

abbrev pub handles_of : Option (List ℕ) → List ℕ
handles_of none = []
handles_of (some hs) = hs

unfoldable pub use_in_context :
    ℕ → Contexts → StackAllocator → ElementResult × Contexts × StackAllocator
use_in_context i cs s =
    let hs = handles_of (lookup i s.allocations) in
    let t = current_context_type cs in
    (
      ok,
      add_to_context hs cs,
      record s { alloc_storage = update_all (set_executed_in t) hs s.alloc_storage },
    )

abbrev pub with_contexts :
    Contexts → ElementResult × StackAllocator → ElementResult × Contexts × StackAllocator
with_contexts cs (r, s) = (r, cs, s)

abbrev pub use_found :
    Option ℕ
    → Contexts
    → StackAllocator
    → ElementResult × StackAllocator
    → ElementResult × Contexts × StackAllocator
use_found none cs s used = (unknown, cs, s)
use_found (some h) cs s used = with_contexts (add_to_context (h ∷ []) cs) used

unfoldable pub use_instruction :
    ℕ → ℕ → ℕ → ℕ → Contexts → StackAllocator → ElementResult × Contexts × StackAllocator
use_instruction current_in current_index alloc_in alloc_index cs s =
    use_found (get s alloc_in alloc_index) cs s
      (use_allocation s current_in current_index alloc_in alloc_index)
