-- ===== src/InstructionTree/Constant.antt =====
-- `get_constant_value` of the instruction classes (libelement/src/instruction_tree/instructions.hpp and
-- instructions.cpp): the value, where the call returns true.
use element.Prelude.{ℕ, zero, suc, ◌&&◌, Option, none, some, ◌==◌, if◌then◌else◌}
use element.InstructionTree.Arithmetic.{
  Arithmetic, to_bool, evaluate_nullary, evaluate_unary, evaluate_binary, evaluate_select,
}
use element.InstructionTree.Instruction.{
  Instruction, constant, input, serialised_structure, nullary, unary, binary, if_else, for_loop,
  indexer, select, Instructions, nil, cons, count, size_all, is_constant_all,
}

module _ {V : Type 0} where
  -- A dependent's value, or `return false`.
  abbrev pub with_constant : Option V → (V → Option V) → Option V
  with_constant none rest = none
  with_constant (some v) rest = rest v

module _ (A : Arithmetic) where
  open A use {Value}

  unfoldable mutual
    pub get_constant_value : Instruction Value → Option Value
    get_constant_value (constant p v) = some v
    get_constant_value (input p scope index) = none
    get_constant_value (serialised_structure p ds) =
        let value = constant_at ds 0 in
        if is_constant_all ds && size_all ds == 1 then value else none
    get_constant_value (nullary p o) = some (evaluate_nullary A o)
    get_constant_value (unary p o a) =
        with_constant (get_constant_value a) (λ u. some (evaluate_unary A o u))
    get_constant_value (binary p o a b) =
        with_constant (get_constant_value a)
          (λ u. with_constant (get_constant_value b) (λ v. some (evaluate_binary A o u v)))
    get_constant_value (if_else p c t f) =
        let value_true = get_constant_value t in
        let value_false = get_constant_value f in
        with_constant (get_constant_value c) (λ u. if to_bool A u then value_true else value_false)
    get_constant_value (for_loop p i c b) = none
    get_constant_value (indexer p l i) = none
    get_constant_value (select p s os) =
        with_constant (get_constant_value s) (λ u. constant_at os (evaluate_select A u (count os)))

    -- The value of the dependent at an index; the constructors see to it that there is one.
    pub constant_at : Instructions Value → ℕ → Option Value
    constant_at nil k = none
    constant_at (cons d ds) zero = get_constant_value d
    constant_at (cons d ds) (suc k) = constant_at ds k
