-- ===== src/InstructionTree/Evaluator.antt =====
-- `do_evaluate`, `element_evaluate_for` and `element_evaluate`
-- (libelement/src/instruction_tree/evaluator.cpp), with assertions on, as in a debug build.
--
-- `outputs` is a buffer of `capacity` values, of which the first `outputs_written` have been written:
-- these are the list `written`. The boundaries are the context's vector of inputs: a loop pushes
-- its own and pops it again, so that they are an argument. A loop's iterations take fuel.
use element.Prelude.{
  ℕ, zero, suc, ◌&&◌, List, [], ◌∷◌, ◌++◌, none, some, length, get_elem?, ltb, leb, ◌==◌,
  if◌then◌else◌,
}
use element.InstructionTree.Arithmetic.{
  Arithmetic, to_bool, evaluate_nullary, evaluate_unary, evaluate_binary, evaluate_if,
  evaluate_select,
}
use element.InstructionTree.Cache.{Cache, present, add_to_cache, clear_values}
use element.InstructionTree.Instruction.{
  Instruction, constant, input, serialised_structure, nullary, unary, binary, if_else, for_loop,
  indexer, select, Instructions, nil, cons, count, size,
}
use element.InstructionTree.Outcome.{
  Boundaries, Outcome, assert, cached, done, emit, emit_all, emit_at, emit_input, fault, or_throw,
  out_of_fuel, pad, read_boundary, then_all, with_buffer, with_first, with_value, with_values,
}

module _ (A : Arithmetic) where
  open A use {Value}

  -- The `while` loop of `element_evaluate_for`, with what evaluates the condition and the body.
  unfoldable pub iterate :
      (List Value → Outcome Value)
      → (List Value → Outcome Value)
      → ℕ
      → ℕ
      → List Value
      → Outcome Value
  iterate condition body n zero inputs = out_of_fuel
  iterate condition body n (suc fuel) inputs =
      let again =
        or_throw (body inputs)
          (λ vs. if length vs == n then iterate condition body n fuel vs else fault) in
      or_throw (condition inputs)
        (λ ps. with_first ps (λ predicate. if to_bool A predicate then again else done none inputs))

  -- `element_evaluate_for`, with what the evaluation of the initial values into the loop's inputs gives,
  -- and what evaluates the other two parts where the loop's inputs are these.
  unfoldable pub evaluate_for :
      Outcome Value
      → (List Value → Outcome Value)
      → (List Value → Outcome Value)
      → ℕ
      → ℕ
      → Outcome Value
  evaluate_for initial condition body n fuel =
      or_throw initial (λ vs. iterate condition body n fuel (pad A.zero n vs))

  -- The parameters are the fuel of each loop and the boundaries, then the instruction, the cache and the
  -- buffer. The boundaries are given by what has been written: the initial values of a loop are written
  -- into the very buffer that its boundary refers to.
  unfoldable mutual
    pub evaluate :
        ℕ
        → (List Value → Boundaries Value)
        → Instruction Value
        → Cache Value
        → ℕ
        → List Value
        → Outcome Value
    evaluate fuel view (constant p v) cache capacity written = emit cache capacity written v
    evaluate fuel view (serialised_structure p ds) cache capacity written =
        evaluate_all fuel view ds cache capacity written
    evaluate fuel view (for_loop p i c b) cache capacity written =
        let bs = view written in
        let n = size i in
        assert
          (ltb (length written) capacity && size c == 1 && leb 1 n && leb 1 (size b) && size b == n)
          (with_buffer cache written (evaluate fuel (λ w. bs) i none n []) (λ first.
            or_throw
              (evaluate_for (evaluate fuel (λ w. bs ++ pad A.zero n w ∷ []) i none n [])
                (λ inputs. evaluate fuel (λ w. bs ++ inputs ∷ []) c none 1 [])
                (λ inputs. evaluate fuel (λ w. bs ++ inputs ∷ []) b none n []) n fuel)
              (λ vs. assert (length vs == n) (emit_all cache capacity written vs))))
    evaluate fuel view (input p scope index) cache capacity written =
        emit_input (read_boundary (view written) scope index) cache capacity written
    evaluate fuel view (select p s os) cache capacity written =
        assert (ltb (length written) capacity) (
          with_value written (evaluate fuel (λ w. view written) s cache 1 []) (λ cache' selector.
            assert (ltb 0 (count os)) (
              evaluate_at fuel view os (evaluate_select A selector (count os)) cache' capacity
                written)))
    evaluate fuel view (nullary p o) cache capacity written =
        cached (present p cache) cache capacity written (
          let value = evaluate_nullary A o in
          emit (add_to_cache p value cache) capacity written value)
    evaluate fuel view (unary p o a) cache capacity written =
        cached (present p cache) cache capacity written (
          assert (ltb (length written) capacity && size a == 1) (
            with_value written (evaluate fuel (λ w. view written) a cache 1 []) (λ cache' v.
              let value = evaluate_unary A o v in
              emit (add_to_cache p value cache') capacity written value)))
    evaluate fuel view (binary p o a b) cache capacity written =
        cached (present p cache) cache capacity written (
          assert (ltb (length written) capacity && size a == 1 && size b == 1) (
            with_value written (evaluate fuel (λ w. view written) a cache 1 []) (λ cache₁ v.
              with_value written (evaluate fuel (λ w. view written) b cache₁ 1 []) (λ cache₂ w.
                let value = evaluate_binary A o v w in
                emit (add_to_cache p value cache₂) capacity written value))))
    evaluate fuel view (if_else p c t f) cache capacity written =
        cached (present p cache) cache capacity written (
          assert (ltb (length written) capacity && size c == 1 && size t == 1 && size f == 1) (
            with_value written (evaluate fuel (λ w. view written) c cache 1 []) (λ cache₁ u.
              with_value written (evaluate fuel (λ w. view written) t cache₁ 1 []) (λ cache₂ v.
                with_value written (evaluate fuel (λ w. view written) f cache₂ 1 []) (λ cache₃ w.
                  let value = evaluate_if A u v w in
                  emit (add_to_cache p value cache₃) capacity written value)))))
    evaluate fuel view (indexer p l i) cache capacity written =
        cached (present p cache) cache capacity written (
          let n = size l in
          assert (ltb (length written) capacity && ltb i n) (
            with_values written (evaluate fuel (λ w. view written) l cache n [])
              (λ cache' vs. emit_at (get_elem? (pad A.zero n vs) i) p cache' capacity written)))

    pub evaluate_all :
        ℕ
        → (List Value → Boundaries Value)
        → Instructions Value
        → Cache Value
        → ℕ
        → List Value
        → Outcome Value
    evaluate_all fuel view nil cache capacity written = done cache written
    evaluate_all fuel view (cons d ds) cache capacity written =
        then_all (evaluate fuel view d cache capacity written)
          (λ cache' written'. evaluate_all fuel view ds cache' capacity written')

    -- The option at an index; the vector is not that short.
    pub evaluate_at :
        ℕ
        → (List Value → Boundaries Value)
        → Instructions Value
        → ℕ
        → Cache Value
        → ℕ
        → List Value
        → Outcome Value
    evaluate_at fuel view nil k cache capacity written = fault
    evaluate_at fuel view (cons d ds) zero cache capacity written =
        evaluate fuel view d cache capacity written
    evaluate_at fuel view (cons d ds) (suc k) cache capacity written =
        evaluate_at fuel view ds k cache capacity written

  -- `element_evaluate`: the one boundary is that of the caller, and the cache holds no value. What has
  -- been written is what the caller's vector is resized to.
  unfoldable pub element_evaluate :
      ℕ → Instruction Value → Cache Value → List Value → ℕ → Outcome Value
  element_evaluate fuel fn none inputs outputs_count =
      evaluate fuel (λ w. inputs ∷ []) fn none outputs_count []
  element_evaluate fuel fn (some es) inputs outputs_count =
      evaluate fuel (λ w. inputs ∷ []) fn (some (clear_values es)) outputs_count []
