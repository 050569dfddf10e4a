-- ===== src/InstructionTree/Arithmetic.antt =====
-- `element_value` is a C `float`. The type and the operations of the hardware and of <cmath> that
-- libelement/src/instruction_tree/evaluator.cpp and instructions.cpp call are a parameter: no law of
-- theirs is assumed, and what needs one names it.
use element.Prelude.{ℕ, ◌-◌, Bool, not, ◌&&◌, ◌||◌, ltb, if◌then◌else◌}
use element.Prelude.Int.{ℤ, pos, negsuc}

pub record Arithmetic : Type 1 where
  pub Value : Type 0
  pub zero : Value
  pub one : Value
  pub two : Value
  pub infinity : Value
  pub negative_infinity : Value
  pub nan : Value
  pub add : Value → Value → Value
  pub sub : Value → Value → Value
  pub mul : Value → Value → Value
  pub div : Value → Value → Value
  pub pow : Value → Value → Value
  pub atan2 : Value → Value → Value
  pub fabs : Value → Value
  pub acos : Value → Value
  pub asin : Value → Value
  pub atan : Value → Value
  pub ceil : Value → Value
  pub cos : Value → Value
  pub floor : Value → Value
  pub log : Value → Value
  pub log10 : Value → Value
  pub sin : Value → Value
  pub tan : Value → Value
  -- a == b, a < b and a <= b
  pub equal : Value → Value → Bool
  pub less : Value → Value → Bool
  pub less_equal : Value → Value → Bool
  pub is_nan : Value → Bool
  -- static_cast<int>. The language leaves it undefined for NaN and for values that no `int` holds: there it is
  -- what the machine gives.
  pub to_int : Value → ℤ

-- libelement/src/ast/fwd.hpp
pub data NullaryOp : Type 0 where
  nan positive_infinity negative_infinity true_value false_value : NullaryOp

pub data UnaryOp : Type 0 where
  sin cos tan asin acos atan ln abs ceil floor not_ : UnaryOp

pub data BinaryOp : Type 0 where
  add sub mul div rem pow min max log atan2 : BinaryOp
  and_ or_ : BinaryOp
  eq neq lt leq gt geq : BinaryOp

-- std::clamp(i, 0, high) on `int`.
abbrev pub clamp_from_zero : ℤ → ℕ → ℕ
clamp_from_zero (negsuc n) high = 0
clamp_from_zero (pos n) high = if ltb high n then high else n

module _ (A : Arithmetic) where
  open A use {Value, zero, one}

  -- A `bool` that is converted to a `float`.
  abbrev pub of_bool : Bool → Value
  of_bool b = if b then one else zero

  -- `to_bool` of instructions.hpp.
  unfoldable pub to_bool : Value → Bool
  to_bool v = A.less zero v

  unfoldable pub evaluate_nullary : NullaryOp → Value
  evaluate_nullary NullaryOp.positive_infinity = A.infinity
  evaluate_nullary NullaryOp.negative_infinity = A.negative_infinity
  evaluate_nullary NullaryOp.nan = A.nan
  evaluate_nullary NullaryOp.true_value = one
  evaluate_nullary NullaryOp.false_value = zero

  unfoldable pub evaluate_unary : UnaryOp → Value → Value
  evaluate_unary UnaryOp.abs a = A.fabs a
  evaluate_unary UnaryOp.acos a = A.acos a
  evaluate_unary UnaryOp.asin a = A.asin a
  evaluate_unary UnaryOp.atan a = A.atan a
  evaluate_unary UnaryOp.ceil a = A.ceil a
  evaluate_unary UnaryOp.cos a = A.cos a
  evaluate_unary UnaryOp.floor a = A.floor a
  evaluate_unary UnaryOp.ln a = A.log a
  evaluate_unary UnaryOp.sin a = A.sin a
  evaluate_unary UnaryOp.tan a = A.tan a
  evaluate_unary UnaryOp.not_ a = of_bool (A.equal a zero)

  -- `b ? x : y` on a float asks whether it is unequal to 0; std::max and std::min are those of the
  -- standard library, and `a > b` is `b < a`.
  unfoldable pub evaluate_binary : BinaryOp → Value → Value → Value
  evaluate_binary BinaryOp.add a b = A.add a b
  evaluate_binary BinaryOp.atan2 a b = A.atan2 a b
  evaluate_binary BinaryOp.div a b = A.div a b
  evaluate_binary BinaryOp.log a b =
      if not (A.equal b zero) then A.div (A.log10 a) (A.log10 b) else A.nan
  evaluate_binary BinaryOp.max a b = if A.less a b then b else a
  evaluate_binary BinaryOp.min a b = if A.less b a then b else a
  evaluate_binary BinaryOp.mul a b = A.mul a b
  evaluate_binary BinaryOp.pow a b = A.pow a b
  evaluate_binary BinaryOp.rem a b = A.sub a (A.mul (A.floor (A.div a b)) b)
  evaluate_binary BinaryOp.sub a b = A.sub a b
  evaluate_binary BinaryOp.and_ a b = of_bool (to_bool a && to_bool b)
  evaluate_binary BinaryOp.or_ a b = of_bool (to_bool a || to_bool b)
  evaluate_binary BinaryOp.eq a b = of_bool (A.equal a b)
  evaluate_binary BinaryOp.neq a b = of_bool (not (A.equal a b))
  evaluate_binary BinaryOp.lt a b = of_bool (A.less a b)
  evaluate_binary BinaryOp.leq a b = of_bool (A.less_equal a b)
  evaluate_binary BinaryOp.gt a b = of_bool (A.less b a)
  evaluate_binary BinaryOp.geq a b = of_bool (A.less_equal b a)

  unfoldable pub evaluate_if : Value → Value → Value → Value
  evaluate_if predicate if_true if_false = if to_bool predicate then if_true else if_false

  -- The caller asserts that there is an option.
  unfoldable pub evaluate_select : Value → ℕ → ℕ
  evaluate_select selector options_count = clamp_from_zero (A.to_int selector) (options_count - 1)
