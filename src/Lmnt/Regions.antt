-- ===== src/Lmnt/Regions.antt =====
-- `calculate_stack_index` (libelement/src/lmnt/compiler_state.cpp) on the regions of the stack.
use element.Prelude.{ℕ, ◌+◌, ◌^◌, ◌≤◌, ◌<◌, ◌≡◌, refl, arith}
use element.Lmnt.Allocation.{AllocationType, constant, input, output, local, add_u16}
use element.Lmnt.State.{calculate_stack_index}

-- How many places there are of each type.
abbrev pub extent : ℕ → ℕ → ℕ → ℕ → AllocationType → ℕ
extent constants inputs outputs locals constant = constants
extent constants inputs outputs locals input = inputs
extent constants inputs outputs locals output = outputs
extent constants inputs outputs locals local = locals

-- Where those of each type begin.
abbrev offset : ℕ → ℕ → ℕ → AllocationType → ℕ
offset constants inputs outputs constant = 0
offset constants inputs outputs input = constants
offset constants inputs outputs output = constants + inputs
offset constants inputs outputs local = constants + inputs + outputs

add_u16-small : (a b : ℕ) → a + b < 2 ^ 16 → add_u16 a b ≡ a + b
add_u16-small a b h = omega arith

module _ (constants inputs outputs locals : ℕ)
    (room : constants + inputs + outputs + locals ≤ 2 ^ 16) where
  -- The sums do not wrap around.
  calculate_stack_index-offset :
      (t : AllocationType) (i : ℕ)
      → i < extent constants inputs outputs locals t
      → calculate_stack_index constants inputs outputs t i ≡ i + offset constants inputs outputs t
  unfolding calculate_stack_index
  calculate_stack_index-offset constant i h = omega arith
  calculate_stack_index-offset input i h = add_u16-small i constants (omega arith)
  calculate_stack_index-offset output i h =
      rw
        (
          add_u16-small i constants (omega arith),
          add_u16-small (i + constants) inputs (omega arith),
        )
        (omega arith)
  calculate_stack_index-offset local i h =
      rw
        (
          add_u16-small i constants (omega arith),
          add_u16-small (i + constants) inputs (omega arith),
          add_u16-small (i + constants + inputs) outputs (omega arith),
        )
        (omega arith)

  offset-injective :
      (t u : AllocationType) (i j : ℕ)
      → i < extent constants inputs outputs locals t
      → j < extent constants inputs outputs locals u
      → i + offset constants inputs outputs t ≡ j + offset constants inputs outputs u
      → (t ≡ u) × (i ≡ j)
  offset-injective constant constant i j h k e = (refl, omega arith)
  offset-injective constant input i j h k e = absurd (omega arith)
  offset-injective constant output i j h k e = absurd (omega arith)
  offset-injective constant local i j h k e = absurd (omega arith)
  offset-injective input constant i j h k e = absurd (omega arith)
  offset-injective input input i j h k e = (refl, omega arith)
  offset-injective input output i j h k e = absurd (omega arith)
  offset-injective input local i j h k e = absurd (omega arith)
  offset-injective output constant i j h k e = absurd (omega arith)
  offset-injective output input i j h k e = absurd (omega arith)
  offset-injective output output i j h k e = (refl, omega arith)
  offset-injective output local i j h k e = absurd (omega arith)
  offset-injective local constant i j h k e = absurd (omega arith)
  offset-injective local input i j h k e = absurd (omega arith)
  offset-injective local output i j h k e = absurd (omega arith)
  offset-injective local local i j h k e = (refl, omega arith)

-- Where the constants, inputs, outputs and locals together fit into the 65536 places, two allocations
-- whose indices are in range share a place only if they have the same type and index.
pub calculate_stack_index-injective :
    (constants inputs outputs locals : ℕ)
    → constants + inputs + outputs + locals ≤ 2 ^ 16
    → (t u : AllocationType) (i j : ℕ) → i < extent constants inputs outputs locals t
    → j < extent constants inputs outputs locals u
    → calculate_stack_index constants inputs outputs t i
      ≡ calculate_stack_index constants inputs outputs u j
    → (t ≡ u) × (i ≡ j)
calculate_stack_index-injective c n o l room t u i j h k e =
    offset-injective c n o l room t u i j h k (
      omega (
        arith,
        e,
        calculate_stack_index-offset c n o l room t i h,
        calculate_stack_index-offset c n o l room u j k,
      ))
