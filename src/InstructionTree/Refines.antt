-- ===== src/InstructionTree/Refines.antt =====
-- `do_evaluate` and `element_evaluate` (libelement/src/instruction_tree/evaluator.cpp), beside the
-- meaning of instructions.
use mathlib.Core.List.{append-nil}
use element.Prelude.{
  ℕ, zero, suc, ◌+◌, ◌≤◌, ◌<◌, ◌≡◌, refl, sym, ◌∙◌, true, false, ◌&&◌, List, [], ◌∷◌, ◌++◌, Option,
  none, some, arith, length, length-append, ltb, leb, ◌==◌,
}
use element.InstructionTree.Agreement.{
  Agrees, finished, emit-Agrees, with_value-Agrees, with_values-Agrees, then_all-Agrees,
  with_buffer-Agrees, cached-Agrees,
}
use element.InstructionTree.Arithmetic.{
  Arithmetic, evaluate_nullary, evaluate_unary, evaluate_binary, evaluate_if, evaluate_select,
}
use element.InstructionTree.Cache.{Cache}
use element.InstructionTree.Consistency.{IsConsistent}
use element.InstructionTree.Evaluator.{evaluate, evaluate_all, evaluate_at}
use element.InstructionTree.Outcome.{Boundaries, pad}
use element.InstructionTree.Instruction.{Instruction, Instructions, count, size, size_all}
use element.InstructionTree.Meaning.{meaning, meaning_all, meaning_at}
use element.InstructionTree.Validity.{IsValid, AreValid, AreOptions}
use element.InstructionTree.View.{evaluate-view}
use element.InstructionTree.Parts.{
  lengths, lengths-inner, Sees-inner, pad-full, get_elem?-some, evaluate_select-lt,
  evaluate_for-Agrees, copy-Agrees, Agrees-some, assert-Agrees, sized-Agrees, store-Agrees,
  read-lengths,
}
use element.InstructionTree.Cache.{clear_values}
use element.InstructionTree.Consistency.{clear_values-IsConsistent}
use element.InstructionTree.Evaluator.{element_evaluate}

module _ (A : Arithmetic) (at : ℕ → Option (Instruction (Arithmetic.Value A))) where
  open A use {Value}

  mutual
    unfolding evaluate meaning size

    -- A call writes what its instruction means, and keeps the cache consistent.
    pub evaluate-Agrees :
        {ns : List ℕ} {i : Instruction Value} (fuel : ℕ) (bs : Boundaries Value)
        (cache : Cache Value) (capacity : ℕ) (written : List Value)
        → IsValid at ns i
        → lengths bs ≡ ns
        → IsConsistent A at fuel bs cache
        → length written + size i ≤ capacity
        → Agrees A at fuel bs written
            (size i)
            (meaning A fuel bs i)
            (evaluate A fuel (λ w. bs) i cache capacity written)
    evaluate-Agrees fuel bs cache n w (IsValid.constant {v}) l h r =
        emit-Agrees cache n w v h (omega arith)
    evaluate-Agrees fuel bs cache n w (IsValid.input {ns} {scope} {index} {n = k} g m) l h r =
        let (v, e) = read-lengths bs scope index k (rw l g) m in
        let room : leb n (length w) ≡ false = ground arith in rw (e, room) (finished h refl refl)
    evaluate-Agrees fuel bs cache n w (IsValid.structure ds) l h r =
        evaluate_all-Agrees fuel bs cache n w ds l h r
    evaluate-Agrees fuel bs cache n w (IsValid.nullary {p} {o} q) l h r =
        cached-Agrees p cache _ n w _ q h (omega arith)
          (store-Agrees p cache n w (evaluate_nullary A o) q h (omega arith) refl)
    evaluate-Agrees fuel bs cache n w (IsValid.unary {p} {o} {a} q e v) l h r =
        let holds : (ltb (length w) n && size a == 1) ≡ true = ground arith in
        cached-Agrees p cache (Instruction.unary p o a) n w _ q h (omega arith) (
          assert-Agrees holds (
            with_value-Agrees w _ _
              (sized-Agrees e (evaluate-Agrees fuel bs cache 1 [] v l h (omega arith)))
              (λ c u h' m.
                store-Agrees p c n w (evaluate_unary A o u) q h' (omega arith) (rw m refl))))
    evaluate-Agrees fuel bs cache n w (IsValid.binary {p} {o} {a} {b} q ea eb va vb) l h r =
        let holds : (ltb (length w) n && size a == 1 && size b == 1) ≡ true = ground arith in
        cached-Agrees p cache (Instruction.binary p o a b) n w _ q h (omega arith) (
          assert-Agrees holds (
            with_value-Agrees w _ _
              (sized-Agrees ea (evaluate-Agrees fuel bs cache 1 [] va l h (omega arith)))
              (λ c₁ u h₁ m₁.
                with_value-Agrees w _ _
                  (sized-Agrees eb (evaluate-Agrees fuel bs c₁ 1 [] vb l h₁ (omega arith)))
                  (λ c₂ v h₂ m₂.
                    store-Agrees p c₂ n w (evaluate_binary A o u v) q h₂ (omega arith)
                      (rw (m₁, m₂) refl)))))
    evaluate-Agrees fuel bs cache n w (IsValid.if_else {p} {c} {t} {f} q ec et ef vc vt vf) l h r =
        let holds : (ltb (length w) n && size c == 1 && size t == 1 && size f == 1) ≡ true =
          ground arith in
        cached-Agrees p cache (Instruction.if_else p c t f) n w _ q h (omega arith) (
          assert-Agrees holds (
            with_value-Agrees w _ _
              (sized-Agrees ec (evaluate-Agrees fuel bs cache 1 [] vc l h (omega arith)))
              (λ c₁ u h₁ m₁.
                with_value-Agrees w _ _
                  (sized-Agrees et (evaluate-Agrees fuel bs c₁ 1 [] vt l h₁ (omega arith)))
                  (λ c₂ v h₂ m₂.
                    with_value-Agrees w _ _
                      (sized-Agrees ef (evaluate-Agrees fuel bs c₂ 1 [] vf l h₂ (omega arith)))
                      (λ c₃ z h₃ m₃.
                        store-Agrees p c₃ n w (evaluate_if A u v z) q h₃ (omega arith)
                          (rw (m₁, m₂, m₃) refl))))))
    evaluate-Agrees fuel bs cache n w (IsValid.for_loop {ns} {p} {i} {c} {b} nl s ec eb vi vc vb) l
          h r =
        let holds : (ltb (length w) n
              && size c == 1
              && leb 1 (size i)
              && leb 1 (size b)
              && size b == size i)
            ≡ true =
          ground arith in
        assert-Agrees holds (
          with_buffer-Agrees cache w _ _
            (evaluate-Agrees fuel bs none (size i) [] vi l tt (omega arith))
            (λ vs e m.
              let (c', first) =
                Agrees-some vs (evaluate-Agrees fuel bs none (size i) [] vi l tt (omega arith)) m in
              let view =
                evaluate-view A fuel (λ u. bs ++ pad A.zero (size i) u ∷ []) bs none (size i) [] vi
                  nl (Sees-inner ns bs (pad A.zero (size i)) l) in
              copy-Agrees cache n w h r (
                evaluate_for-Agrees fuel bs (size i) (λ us. bs ++ us ∷ []) c' vs _ _ _ _ _
                  (λ us f. sized-Agrees ec (
                    evaluate-Agrees fuel (bs ++ us ∷ []) none 1 [] vc (lengths-inner bs us l f) tt
                      (omega arith)))
                  (λ us f. sized-Agrees eb (
                    evaluate-Agrees fuel (bs ++ us ∷ []) none (size i) [] vb
                      (lengths-inner bs us l f) tt (omega arith)))
                  (view ∙ first) e)))
    evaluate-Agrees fuel bs cache n w (IsValid.indexer {p} {k} {l = a} q e v) l h r =
        let holds : (ltb (length w) n && ltb k (size a)) ≡ true = ground arith in
        cached-Agrees p cache (Instruction.indexer p a k) n w _ q h (omega arith) (
          assert-Agrees holds (
            with_values-Agrees w _ _ (evaluate-Agrees fuel bs cache (size a) [] v l h (omega arith))
              (λ c vs h' f m.
                let (u, g) = get_elem?-some vs k (omega arith) in
                rw (pad-full A.zero (size a) vs f, g)
                  (store-Agrees p c n w u q h' (omega arith) (rw (m, g) refl)))))
    evaluate-Agrees fuel bs cache n w (IsValid.select {s} {os} e m v vs) l h r =
        let room : ltb (length w) n ≡ true = ground arith in
        let some_option : ltb 0 (count os) ≡ true = ground arith in
        assert-Agrees room (
          with_value-Agrees w _ _
            (sized-Agrees e (evaluate-Agrees fuel bs cache 1 [] v l h (omega arith)))
            (λ c u h' f. assert-Agrees some_option (
              evaluate_at-Agrees fuel bs c n w (evaluate_select A u (count os)) vs l h'
                (omega arith) (evaluate_select-lt A u (count os) m))))

    evaluate_all-Agrees :
        {ns : List ℕ} {ds : Instructions Value} (fuel : ℕ) (bs : Boundaries Value)
        (cache : Cache Value) (capacity : ℕ) (written : List Value)
        → AreValid at ns ds
        → lengths bs ≡ ns
        → IsConsistent A at fuel bs cache
        → length written + size_all ds ≤ capacity
        → Agrees A at fuel bs written
            (size_all ds)
            (meaning_all A fuel bs ds)
            (evaluate_all A fuel (λ w. bs) ds cache capacity written)
    evaluate_all-Agrees fuel bs cache n w AreValid.nil l h r = finished h refl (sym (append-nil w))
    evaluate_all-Agrees fuel bs cache n w (AreValid.cons {d} {ds} v vs') l h r =
        then_all-Agrees w _ _ (evaluate-Agrees fuel bs cache n w v l h (omega arith)) (λ c vs h' e.
          evaluate_all-Agrees fuel bs c n (w ++ vs) vs' l h' (omega (arith, length-append w vs)))

    evaluate_at-Agrees :
        {ns : List ℕ} {ds : Instructions Value} (fuel : ℕ) (bs : Boundaries Value)
        (cache : Cache Value) (capacity : ℕ) (written : List Value) (k : ℕ)
        → AreOptions at ns ds
        → lengths bs ≡ ns
        → IsConsistent A at fuel bs cache
        → length written + 1 ≤ capacity
        → k < count ds
        → Agrees A at fuel bs written 1
            (meaning_at A fuel bs ds k)
            (evaluate_at A fuel (λ w. bs) ds k cache capacity written)
    evaluate_at-Agrees fuel bs cache n w k AreOptions.no_option l h r m = elim m [ ]
    evaluate_at-Agrees fuel bs cache n w zero (AreOptions.option {d} {ds} e v vs) l h r m =
        sized-Agrees e (evaluate-Agrees fuel bs cache n w v l h (omega arith))
    evaluate_at-Agrees fuel bs cache n w (suc k) (AreOptions.option {d} {ds} e v vs) l h r m =
        evaluate_at-Agrees fuel bs cache n w k vs l h r (omega arith)

-- For a valid instruction and a buffer that has room for it, `element_evaluate` writes exactly the values
-- that the instruction means for these inputs, as many as its size, with a cache and without; or it runs
-- out of fuel, where the meaning does. It does not return an error, and does not fail an assertion, use
-- a value that was not written, write behind the buffer or throw. What it leaves in the cache is what
-- the instructions at those addresses mean.
pub element_evaluate-Agrees :
    (A : Arithmetic) (at : ℕ → Option (Instruction (Arithmetic.Value A))) (fuel : ℕ)
    (fn : Instruction (Arithmetic.Value A)) (cache : Cache (Arithmetic.Value A))
    (inputs : List (Arithmetic.Value A)) (outputs_count : ℕ)
    → IsValid at (length inputs ∷ []) fn
    → size fn ≤ outputs_count
    → Agrees A at fuel
        (inputs ∷ [])
        []
        (size fn)
        (meaning A fuel (inputs ∷ []) fn)
        (element_evaluate A fuel fn cache inputs outputs_count)
unfolding element_evaluate
element_evaluate-Agrees A at fuel fn none inputs outputs_count v h =
    evaluate-Agrees A at fuel (inputs ∷ []) none outputs_count [] v refl tt (omega arith)
element_evaluate-Agrees A at fuel fn (some es) inputs outputs_count v h =
    evaluate-Agrees A at fuel (inputs ∷ []) (some (clear_values es)) outputs_count [] v refl
      (clear_values-IsConsistent A at fuel (inputs ∷ []) es) (omega arith)
