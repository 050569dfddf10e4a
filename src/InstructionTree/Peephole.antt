-- ===== src/InstructionTree/Peephole.antt =====
-- `optimise_binary` (libelement/src/instruction_tree/instructions.cpp). The interpreter interns
-- constants and binary instructions: `get` returns the one with these parts, at an address that is a
-- parameter here, and it is taken to have the value that is asked for (the set orders -0 and 0 as one).
use element.Prelude.{
  ℕ, Bool, true, false, List, [], ◌∷◌, ◌++◌, Option, none, some, ◌==◌, if◌then◌else◌,
}
use element.InstructionTree.Arithmetic.{
  Arithmetic, BinaryOp, add, sub, mul, div, rem, pow, and_, or_, eq, neq, lt, leq, gt, geq,
}
use element.InstructionTree.Instruction.{Instruction, constant, binary, address}

-- The addresses that `cache_instruction_constant.get` and `cache_instruction_binary.get` give.
pub record Interning (V : Type 0) : Type 0 where
  pub constant_address : V → ℕ
  pub binary_address : BinaryOp → ℕ → ℕ → ℕ

-- binary.operation() < element_binary_op::and_
unfoldable pub is_numeric : BinaryOp → Bool
is_numeric and_ = false
is_numeric or_ = false
is_numeric eq = false
is_numeric neq = false
is_numeric lt = false
is_numeric leq = false
is_numeric gt = false
is_numeric geq = false
is_numeric o = true

module _ {V : Type 0} where
  -- A test of an operand's value, where the operand is a constant.
  abbrev pub constant_is : (V → Bool) → Instruction V → Bool
  constant_is test (constant p v) = test v
  constant_is test i = false

  -- A sequence of `if (...) return ...;`
  abbrev pub first_of : List (Bool × Instruction V) → Option (Instruction V)
  first_of [] = none
  first_of ((b, i) ∷ rules) = if b then some i else first_of rules

module _ (A : Arithmetic) (I : Interning (Arithmetic.Value A)) where
  open A use {Value}

  abbrev pub interned : Value → Instruction Value
  interned v = constant (I.constant_address v) v

  abbrev pub interned_binary : BinaryOp → Instruction Value → Instruction Value → Instruction Value
  interned_binary o a b = binary (I.binary_address o (address a) (address b)) o a b

  abbrev pub is : Value → Instruction Value → Bool
  is c i = constant_is (λ v. A.equal v c) i

  abbrev pub same : Instruction Value → Instruction Value → Bool
  same a b = address a == address b

  -- 1.0f / input2_as_const->value(), where there is such a constant.
  abbrev pub reciprocal : Instruction Value → Value
  reciprocal (constant p v) = A.div A.one v
  reciprocal i = A.one

  abbrev pub nan_rules :
      BinaryOp → Instruction Value → Instruction Value → List (Bool × Instruction Value)
  nan_rules o a b =
      if is_numeric o then (constant_is A.is_nan a, a) ∷ (constant_is A.is_nan b, b) ∷ [] else []

  -- The cases of the switch.
  unfoldable pub rules :
      BinaryOp → Instruction Value → Instruction Value → List (Bool × Instruction Value)
  rules add a b = (is A.zero a, b) ∷ (is A.zero b, a) ∷ []
  rules sub a b = (is A.zero b, a) ∷ (same a b, interned A.zero) ∷ []
  rules mul a b = (is A.one a, b) ∷ (is A.one b, a) ∷ (is A.zero a, a) ∷ (is A.zero b, b) ∷ []
  rules div a b =
      (is A.one b, a)
      ∷ (is A.zero b, interned A.infinity)
      ∷ (same a b, interned A.one)
      ∷ (constant_is (λ v. true) b, interned_binary mul a (interned (reciprocal b)))
      ∷ []
  rules rem a b = (is A.zero a, a) ∷ (same a b, interned A.zero) ∷ []
  rules pow a b =
      (is A.zero b, interned A.one) ∷ (is A.one b, a) ∷ (is A.two b, interned_binary mul a a) ∷ []
  rules o a b = []

  -- nullptr is `none`.
  unfoldable pub optimise_binary :
      BinaryOp → Instruction Value → Instruction Value → Option (Instruction Value)
  optimise_binary o a b = first_of (nan_rules o a b ++ rules o a b)
