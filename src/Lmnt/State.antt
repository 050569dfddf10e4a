-- ===== src/Lmnt/State.antt =====
-- `compiler_state` (libelement/src/lmnt/compiler_state.cpp): constants, places on the stack, and the
-- contexts in which instructions are executed.
use element.Prelude.{
  ℕ, suc, ◌^◌, ◌-◌, Bool, true, false, List, [], ◌∷◌, ◌++◌, Option, none, some, length, leb,
  if◌then◌else◌,
}
use element.Result.{ElementResult, ok, not_found, unknown}
use element.InstructionTree.Arithmetic.{Arithmetic}
use element.Lmnt.Allocation.{
  AllocationType, constant, input, output, local, ExecutionType, unconditional, add_u16,
  min_execution,
}

-- std::find, as a position.
abbrev pub next_position : Option ℕ → Option ℕ
next_position none = none
next_position (some k) = some (suc k)

unfoldable pub position :
    (A : Arithmetic) → Arithmetic.Value A → List (Arithmetic.Value A) → Option ℕ
position A v [] = none
position A v (c ∷ cs) =
    let rest = position A v cs in if Arithmetic.equal A c v then some 0 else next_position rest

-- `index ? position : nothing`, for the caller's pointer.
abbrev pub asked : Bool → ℕ → Option ℕ
asked true k = some k
asked false k = none

-- Behind `std::find`. `emplace_back` invalidates the iterator to the end, so that the distance to it, which
-- is computed where the caller asks for the index, is undefined.
abbrev pub add_found :
    {V : Type 0} → V → List V → Bool → Option ℕ → Option (ElementResult × List V × Option ℕ)
add_found v constants asks (some k) = some (ok, constants, asked asks k)
add_found v constants true none = none
add_found v constants false none = some (ok, constants ++ v ∷ [], none)

-- The result, the constants, and the index where it is written; `asks` says whether the caller gives a pointer
-- for it. `none` is undefined behaviour.
unfoldable pub add_constant :
    (A : Arithmetic)
    → Arithmetic.Value A
    → List (Arithmetic.Value A)
    → Bool
    → Option (ElementResult × List (Arithmetic.Value A) × Option ℕ)
add_constant A v constants asks =
    if leb (2 ^ 16 - 1) (length constants)
    then some (unknown, constants, none)
    else add_found v constants asks (position A v constants)

abbrev pub found : Option ℕ → ElementResult × Option ℕ
found none = (not_found, none)
found (some k) = (ok, some k)

unfoldable pub find_constant :
    (A : Arithmetic) → Arithmetic.Value A → List (Arithmetic.Value A) → ElementResult × Option ℕ
find_constant A v constants = found (position A v constants)

-- The place on the stack, by the numbers of constants, inputs and outputs, which come in this order
-- before the locals. The number of outputs is the size of the allocation of the return instruction, which
-- the source looks up and takes to be there: it is an argument.
unfoldable pub calculate_stack_index : ℕ → ℕ → ℕ → AllocationType → ℕ → ℕ
calculate_stack_index constants inputs outputs constant i = i
calculate_stack_index constants inputs outputs input i = add_u16 i constants
calculate_stack_index constants inputs outputs output i = add_u16 (add_u16 i constants) inputs
calculate_stack_index constants inputs outputs local i =
    add_u16 (add_u16 (add_u16 i constants) inputs) outputs

pub record ExecutionContext : Type 0 where
  pub instruction : ℕ
  pub rel_type : ExecutionType
  pub allocations : List ℕ
  pub compiled_instructions : List ℕ

-- The vector of contexts is never empty: its back, and what is before that, from the back on.
pub record Contexts : Type 0 where
  pub current : ExecutionContext
  pub outer : List ExecutionContext

abbrev pub outermost : ℕ → Contexts
outermost i = record {
  current = record {
    instruction = i;
    rel_type = unconditional;
    allocations = [];
    compiled_instructions = [];
  };
  outer = [];
}

unfoldable pub least_type : ExecutionType → List ExecutionContext → ExecutionType
least_type t [] = t
least_type t (c ∷ cs) = least_type (min_execution t c.rel_type) cs

unfoldable pub current_context_type : Contexts → ExecutionType
current_context_type cs = least_type cs.current.rel_type cs.outer

unfoldable pub push_context : ℕ → ExecutionType → Contexts → ElementResult × Contexts
push_context i t cs = (
  ok,
  record {
    current = record {
      instruction = i;
      rel_type = t;
      allocations = [];
      compiled_instructions = [];
    };
    outer = cs.current ∷ cs.outer;
  },
)

pop_outer : List ExecutionContext → Contexts → ElementResult × Contexts
pop_outer [] cs = (unknown, cs)
pop_outer (c ∷ outer) cs = (ok, record { current = c; outer = outer })

unfoldable pub pop_context : Contexts → ElementResult × Contexts
unfolding pop_outer
pop_context cs = pop_outer cs.outer cs
