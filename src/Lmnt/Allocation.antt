-- ===== src/Lmnt/Allocation.antt =====
-- `stack_allocation` (libelement/src/lmnt/compiler_state.hpp). Allocations are held by shared pointers,
-- also by one another, as parents: a pointer is a position in the allocator's storage. A 16-bit
-- integer wraps around.
use element.Prelude.{ℕ, zero, suc, ◌+◌, ◌%◌, ◌^◌, Bool, List, Option, none, some, get_elem?}

pub data CompilationStage : Type 0 where
  no_stage created prepared allocated compiled : CompilationStage

pub data AllocationType : Type 0 where
  constant input output local : AllocationType

pub data ExecutionType : Type 0 where
  never conditional unconditional : ExecutionType

pub record StackAllocation : Type 0 where
  pub instruction : ℕ
  pub count : ℕ
  pub set_instruction : ℕ
  pub last_used_instruction : ℕ
  pub stage : CompilationStage
  pub executed_in : ExecutionType
  pub parent : Option ℕ
  pub rel_type : AllocationType
  pub rel_index : ℕ
  pub rel_pinned : Bool

-- The constructor, with the initialisers of the other fields.
abbrev pub allocation : ℕ → ℕ → ℕ → ℕ → StackAllocation
allocation instruction count set_in last_in = record {
  instruction = instruction;
  count = count;
  set_instruction = set_in;
  last_used_instruction = last_in;
  stage = no_stage;
  executed_in = never;
  parent = none;
  rel_type = local;
  rel_index = 0;
  rel_pinned = Bool.false;
}

-- The order of the enumeration.
abbrev pub max_execution : ExecutionType → ExecutionType → ExecutionType
max_execution unconditional b = unconditional
max_execution conditional unconditional = unconditional
max_execution conditional b = conditional
max_execution never b = b

abbrev pub min_execution : ExecutionType → ExecutionType → ExecutionType
min_execution never b = never
min_execution conditional never = never
min_execution conditional b = conditional
min_execution unconditional b = b

abbrev pub set_executed_in : ExecutionType → StackAllocation → StackAllocation
set_executed_in t a = record a { executed_in = max_execution t a.executed_in }

abbrev pub add_u16 : ℕ → ℕ → ℕ
add_u16 a b = (a + b) % 2 ^ 16

-- What a pointer points to; `none` is a pointer that does not point into the storage.
abbrev pub with_allocation :
    {X : Type 0} → Option StackAllocation → (StackAllocation → Option X) → Option X
with_allocation none rest = none
with_allocation (some a) rest = rest a

-- parent ? f(parent) : own
abbrev pub of_parent : {X : Type 0} → Option ℕ → (ℕ → X) → X → X
of_parent none f own = own
of_parent (some p) f own = f p

-- The recursion through the parents takes fuel; `none` where it runs out, as on a cycle.
unfoldable pub type : ℕ → List StackAllocation → ℕ → Option AllocationType
type zero storage h = none
type (suc fuel) storage h =
    with_allocation (get_elem? storage h)
      (λ a. of_parent a.parent (λ p. type fuel storage p) (some a.rel_type))

unfoldable pub pinned : ℕ → List StackAllocation → ℕ → Option Bool
pinned zero storage h = none
pinned (suc fuel) storage h =
    with_allocation (get_elem? storage h)
      (λ a. of_parent a.parent (λ p. pinned fuel storage p) (some a.rel_pinned))

abbrev pub plus_index : ℕ → Option ℕ → Option ℕ
plus_index n none = none
plus_index n (some m) = some (add_u16 n m)

unfoldable pub index : ℕ → List StackAllocation → ℕ → Option ℕ
index zero storage h = none
index (suc fuel) storage h =
    with_allocation (get_elem? storage h)
      (λ a. plus_index a.rel_index (of_parent a.parent (λ p. index fuel storage p) (some 0)))
