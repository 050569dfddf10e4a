-- ===== src/InstructionTree/Meaning.antt =====
-- What an instruction means, apart from buffers, caches and errors: the specification of
-- `do_evaluate` (libelement/src/instruction_tree/evaluator.cpp).
use element.Prelude.{
  ℕ, zero, suc, List, [], ◌∷◌, ◌++◌, Option, none, some, get_elem?, if◌then◌else◌,
}
use element.InstructionTree.Arithmetic.{
  Arithmetic, to_bool, evaluate_nullary, evaluate_unary, evaluate_binary, evaluate_if,
  evaluate_select,
}
use element.InstructionTree.Outcome.{Boundaries, read_boundary}
use element.InstructionTree.Instruction.{
  Instruction, constant, input, serialised_structure, nullary, unary, binary, if_else, for_loop,
  indexer, select, Instructions, nil, cons, count,
}

module _ {V : Type 0} where
  abbrev pub all_of : Option (List V) → (List V → Option (List V)) → Option (List V)
  all_of none k = none
  all_of (some vs) k = k vs

  -- The one value of an instruction of size 1.
  abbrev pub one_of : Option (List V) → (V → Option (List V)) → Option (List V)
  one_of none k = none
  one_of (some []) k = none
  one_of (some (v ∷ vs)) k = k v

  abbrev pub single : Option V → Option (List V)
  single none = none
  single (some v) = some (v ∷ [])

  abbrev pub both : Option (List V) → Option (List V) → Option (List V)
  both m n = all_of m (λ vs. all_of n (λ ws. some (vs ++ ws)))

module _ (A : Arithmetic) where
  open A use {Value}

  -- While the condition holds of the values, the body gives the next ones.
  unfoldable pub repeat :
      (List Value → Option (List Value))
      → (List Value → Option (List Value))
      → ℕ
      → List Value
      → Option (List Value)
  repeat condition body zero vs = none
  repeat condition body (suc fuel) vs =
      let again = all_of (body vs) (repeat condition body fuel) in
      one_of (condition vs) (λ p. if to_bool A p then again else some vs)

  -- The values, or `none` if a loop does not end within the fuel, or an input is not there.
  unfoldable mutual
    pub meaning : ℕ → Boundaries Value → Instruction Value → Option (List Value)
    meaning fuel bs (constant p v) = some (v ∷ [])
    meaning fuel bs (input p scope index) = single (read_boundary bs scope index)
    meaning fuel bs (serialised_structure p ds) = meaning_all fuel bs ds
    meaning fuel bs (nullary p o) = some (evaluate_nullary A o ∷ [])
    meaning fuel bs (unary p o a) =
        one_of (meaning fuel bs a) (λ v. some (evaluate_unary A o v ∷ []))
    meaning fuel bs (binary p o a b) =
        one_of (meaning fuel bs a)
          (λ v. one_of (meaning fuel bs b) (λ w. some (evaluate_binary A o v w ∷ [])))
    meaning fuel bs (if_else p c t f) = one_of (meaning fuel bs c) (λ u.
        one_of (meaning fuel bs t)
          (λ v. one_of (meaning fuel bs f) (λ w. some (evaluate_if A u v w ∷ []))))
    meaning fuel bs (for_loop p i c b) =
        all_of (meaning fuel bs i) (
          repeat (λ vs. meaning fuel (bs ++ vs ∷ []) c) (λ vs. meaning fuel (bs ++ vs ∷ []) b) fuel)
    meaning fuel bs (indexer p l i) = all_of (meaning fuel bs l) (λ vs. single (get_elem? vs i))
    meaning fuel bs (select p s os) =
        one_of (meaning fuel bs s) (λ v. meaning_at fuel bs os (evaluate_select A v (count os)))

    pub meaning_all : ℕ → Boundaries Value → Instructions Value → Option (List Value)
    meaning_all fuel bs nil = some []
    meaning_all fuel bs (cons d ds) = both (meaning fuel bs d) (meaning_all fuel bs ds)

    pub meaning_at : ℕ → Boundaries Value → Instructions Value → ℕ → Option (List Value)
    meaning_at fuel bs nil k = none
    meaning_at fuel bs (cons d ds) zero = meaning fuel bs d
    meaning_at fuel bs (cons d ds) (suc k) = meaning_at fuel bs ds k
