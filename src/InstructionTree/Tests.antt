-- ===== src/InstructionTree/Tests.antt =====
-- Evaluations of small trees, and the theorems on libelement/src/instruction_tree at concrete inputs.
use element.Prelude.{
  ℕ, ◌+◌, ◌-◌, ◌*◌, ◌/◌, ◌≡◌, refl, List, [], ◌∷◌, Option, none, some, ltb, leb, ◌==◌, arith,
  length, if◌then◌else◌,
}
use element.Prelude.Int.{ℤ}
use element.InstructionTree.Agreement.{Agrees}
use element.InstructionTree.Arithmetic.{Arithmetic, BinaryOp, to_bool, evaluate_binary}
use element.InstructionTree.Cache.{Cache, present, add_to_cache}
use element.InstructionTree.Constant.{get_constant_value}
use element.InstructionTree.ConstantLaws.{get_constant_value-element_evaluate}
use element.InstructionTree.Ends.{element_evaluate-ends}
use element.InstructionTree.Evaluator.{element_evaluate, evaluate, evaluate_for, iterate}
use element.InstructionTree.Instruction.{
  Instruction, constant, input, binary, for_loop, size, has_loop,
}
use element.InstructionTree.Meaning.{meaning}
use element.InstructionTree.Outcome.{done, with_value, with_buffer, with_first, or_throw, cached}
use element.InstructionTree.Refines.{element_evaluate-Agrees}
use element.InstructionTree.Validity.{IsValid}

-- Numbers without a sign or a fraction in place of the floats.
abbrev pub naturals : Arithmetic
naturals = record {
  Value = ℕ;
  zero = 0;
  one = 1;
  two = 2;
  infinity = 1000;
  negative_infinity = 0;
  nan = 2000;
  add = ◌+◌;
  sub = ◌-◌;
  mul = ◌*◌;
  div = ◌/◌;
  pow = λ a b. a;
  atan2 = λ a b. a;
  fabs = λ a. a;
  acos = λ a. a;
  asin = λ a. a;
  atan = λ a. a;
  ceil = λ a. a;
  cos = λ a. a;
  floor = λ a. a;
  log = λ a. a;
  log10 = λ a. a;
  sin = λ a. a;
  tan = λ a. a;
  equal = ◌==◌;
  less = ltb;
  less_equal = leb;
  is_nan = λ a. a == 2000;
  to_int = ℤ.pos;
}

-- From 0, add 2 while the value is less than the input.
abbrev test : Instruction ℕ
test = binary 3 BinaryOp.lt (input 4 1 0) (input 5 0 0)

abbrev step : Instruction ℕ
step = binary 6 BinaryOp.add (input 4 1 0) (constant 7 2)

abbrev counting : Instruction ℕ
counting = for_loop 1 (constant 2 0) test step

abbrev counting_at : ℕ → Option (Instruction ℕ)
counting_at p = if p == 3 then some test else if p == 6 then some step else none

counting-IsValid : IsValid counting_at (1 ∷ []) counting
unfolding size has_loop
counting-IsValid =
    IsValid.for_loop refl (omega arith) refl refl IsValid.constant
      (IsValid.binary refl refl refl (IsValid.input refl (omega arith))
        (IsValid.input refl (omega arith)))
      (IsValid.binary refl refl refl (IsValid.input refl (omega arith)) IsValid.constant)

counting_runs : element_evaluate naturals 9 counting none (5 ∷ []) 1 ≡ done none (6 ∷ [])
unfolding element_evaluate evaluate evaluate_for iterate evaluate_binary to_bool with_value
    with_buffer with_first or_throw cached present add_to_cache size
counting_runs = refl

element_evaluate-Agrees_example :
    Agrees naturals counting_at 9
      ((5 ∷ []) ∷ [])
      []
      (size counting)
      (meaning naturals 9 ((5 ∷ []) ∷ []) counting)
      (element_evaluate naturals 9 counting (some ((3, none) ∷ (6, none) ∷ [])) (5 ∷ []) 1)
unfolding size
element_evaluate-Agrees_example =
    element_evaluate-Agrees naturals counting_at 9 counting (some ((3, none) ∷ (6, none) ∷ []))
      (5 ∷ []) 1 counting-IsValid (omega arith)

-- (a + 2) < 9
abbrev sum : Instruction ℕ
sum = binary 2 BinaryOp.add (input 3 0 0) (constant 4 2)

abbrev compared : Instruction ℕ
compared = binary 1 BinaryOp.lt sum (constant 5 9)

abbrev compared_at : ℕ → Option (Instruction ℕ)
compared_at p = if p == 1 then some compared else if p == 2 then some sum else none

compared-IsValid : IsValid compared_at (1 ∷ []) compared
unfolding size
compared-IsValid =
    IsValid.binary refl refl refl
      (IsValid.binary refl refl refl (IsValid.input refl (omega arith)) IsValid.constant)
      IsValid.constant

element_evaluate-ends_example :
    (cache : Cache ℕ) × (vs : List ℕ) × (element_evaluate naturals 0 compared
        (some ((1, none) ∷ (2, none) ∷ []))
        (5 ∷ [])
        1
      ≡ done cache vs)
    × (length vs ≡ size compared)
unfolding size has_loop
element_evaluate-ends_example =
    element_evaluate-ends naturals compared_at 0 compared (some ((1, none) ∷ (2, none) ∷ []))
      (5 ∷ []) 1 compared-IsValid (omega arith) refl

-- 3 is less than 9: a constant comparison.
abbrev known : Instruction ℕ
known = binary 1 BinaryOp.lt (constant 2 3) (constant 3 9)

abbrev known_at : ℕ → Option (Instruction ℕ)
known_at p = if p == 1 then some known else none

known-IsValid : IsValid known_at (0 ∷ []) known
unfolding size
known-IsValid = IsValid.binary refl refl refl IsValid.constant IsValid.constant

get_constant_value-element_evaluate_example :
    (cache : Cache ℕ) × (element_evaluate naturals 0 known none [] 1 ≡ done cache (1 ∷ []))
unfolding size has_loop get_constant_value evaluate_binary
get_constant_value-element_evaluate_example =
    get_constant_value-element_evaluate naturals known_at 0 known none [] 1 1 known-IsValid
      (omega arith) refl refl
