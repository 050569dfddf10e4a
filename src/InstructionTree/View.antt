-- ===== src/InstructionTree/View.antt =====
-- The boundaries that `do_evaluate` (libelement/src/instruction_tree/evaluator.cpp) reads.
use element.Prelude.{
  ℕ, zero, suc, ◌<◌, ◌≡◌, refl, ap, false, ◌&&◌, ◌||◌, List, [], ◌∷◌, Option, some, arith, length,
  get_elem?, ltb, or-false, ◌==◌,
}
use element.InstructionTree.Arithmetic.{Arithmetic, evaluate_select}
use element.InstructionTree.Cache.{Cache, present}
use element.InstructionTree.Evaluator.{evaluate, evaluate_all, evaluate_at}
use element.InstructionTree.Outcome.{
  Outcome, Boundaries, with_value, with_values, then_all, cached, assert, read_input, emit_input,
}
use element.InstructionTree.Instruction.{
  Instruction, Instructions, count, size, has_loop, any_has_loop,
}
use element.InstructionTree.Validity.{IsValid, AreValid, AreOptions}

get_elem?-lt : (ns : List ℕ) (k n : ℕ) → get_elem? ns k ≡ some n → k < length ns
get_elem?-lt [] k n e = cc
get_elem?-lt (m ∷ ns) zero n e = omega arith
get_elem?-lt (m ∷ ns) (suc k) n e = omega (arith, get_elem?-lt ns k n e)

module _ {V : Type 0} where
  -- The scopes up to the length of `ns` hold the same inputs.
  abbrev pub Sees : List ℕ → (List V → Boundaries V) → Boundaries V → Type 0
  Sees ns view bs =
      (w : List V) (scope : ℕ) → scope < length ns → get_elem? (view w) scope ≡ get_elem? bs scope

  pub with_value_congr :
      (w : List V) {o o' : Outcome V} {f g : Cache V → V → Outcome V}
      → o ≡ o'
      → ((c : Cache V) (v : V) → f c v ≡ g c v)
      → with_value w o f ≡ with_value w o' g
  with_value_congr w p q = λ i. with_value w (p i) (λ c v. q c v i)

  pub with_values_congr :
      (w : List V) {o o' : Outcome V} {f g : Cache V → List V → Outcome V}
      → o ≡ o'
      → ((c : Cache V) (vs : List V) → f c vs ≡ g c vs)
      → with_values w o f ≡ with_values w o' g
  with_values_congr w p q = λ i. with_values w (p i) (λ c vs. q c vs i)

  pub then_all_congr :
      {o o' : Outcome V} {f g : Cache V → List V → Outcome V}
      → o ≡ o'
      → ((c : Cache V) (vs : List V) → f c vs ≡ g c vs)
      → then_all o f ≡ then_all o' g
  then_all_congr p q = λ i. then_all (p i) (λ c vs. q c vs i)

module _ (A : Arithmetic) {at : ℕ → Option (Instruction (Arithmetic.Value A))} where
  open A use {Value}

  mutual
    unfolding evaluate has_loop

    pub evaluate-view :
        {ns : List ℕ} {i : Instruction Value} (fuel : ℕ) (view : List Value → Boundaries Value)
        (bs : Boundaries Value) (cache : Cache Value) (capacity : ℕ) (written : List Value)
        → IsValid at ns i
        → has_loop i ≡ false
        → Sees ns view bs
        → evaluate A fuel view i cache capacity written
          ≡ evaluate A fuel (λ w. bs) i cache capacity written
    evaluate-view fuel view bs cache n w IsValid.constant l s = refl
    evaluate-view fuel view bs cache n w (IsValid.input {ns} {scope} {index} {n = k} g h) l s =
        ap (λ o. emit_input (read_input o index) cache n w) (s w scope (get_elem?-lt ns scope k g))
    evaluate-view fuel view bs cache n w (IsValid.structure ds) l s =
        evaluate_all-view fuel view bs cache n w ds l s
    evaluate-view fuel view bs cache n w (IsValid.nullary p) l s = refl
    evaluate-view fuel view bs cache n w (IsValid.unary {p} {a} q h v) l s =
        ap (λ o. cached (present p cache) cache n w (assert (ltb (length w) n && size a == 1) o))
          (with_value_congr w (evaluate-view fuel (λ u. view w) bs cache 1 [] v l (λ u. s w))
            (λ c u. refl))
    evaluate-view fuel view bs cache n w (IsValid.binary {p} {a} {b} q ha hb va vb) l s =
        let (la, lb) = or-false (has_loop a) (has_loop b) l in
        ap
          (λ o.
            cached (present p cache) cache n w
              (assert (ltb (length w) n && size a == 1 && size b == 1) o))
          (with_value_congr w (evaluate-view fuel (λ u. view w) bs cache 1 [] va la (λ u. s w))
            (λ c₁ u.
              with_value_congr w (evaluate-view fuel (λ u. view w) bs c₁ 1 [] vb lb (λ u. s w))
                (λ c₂ v. refl)))
    evaluate-view fuel view bs cache n w (IsValid.if_else {p} {c} {t} {f} q hc ht hf vc vt vf) l s =
        let (lct, lf) = or-false (has_loop c || has_loop t) (has_loop f) l in
        let (lc, lt) = or-false (has_loop c) (has_loop t) lct in
        ap
          (λ o.
            cached (present p cache) cache n w
              (assert (ltb (length w) n && size c == 1 && size t == 1 && size f == 1) o))
          (with_value_congr w (evaluate-view fuel (λ u. view w) bs cache 1 [] vc lc (λ u. s w))
            (λ c₁ u.
              with_value_congr w (evaluate-view fuel (λ u. view w) bs c₁ 1 [] vt lt (λ u. s w))
                (λ c₂ v.
                  with_value_congr w (evaluate-view fuel (λ u. view w) bs c₂ 1 [] vf lf (λ u. s w))
                    (λ c₃ z. refl))))
    evaluate-view fuel view bs cache n w (IsValid.for_loop h g e k vi vc vb) l s = cc
    evaluate-view fuel view bs cache n w (IsValid.indexer {p} {k} {l = a} q h v) l s =
        ap (λ o. cached (present p cache) cache n w (assert (ltb (length w) n && ltb k (size a)) o))
          (with_values_congr w
            (evaluate-view fuel (λ u. view w) bs cache (size a) [] v l (λ u. s w)) (λ c vs. refl))
    evaluate-view fuel view bs cache n w (IsValid.select {s = a} {os} h g v vs) l s =
        let (la, ls) = or-false (has_loop a) (any_has_loop os) l in
        ap (assert (ltb (length w) n)) (
          with_value_congr w (evaluate-view fuel (λ u. view w) bs cache 1 [] v la (λ u. s w))
            (λ c u.
              ap (assert (ltb 0 (count os)))
                (evaluate_at-view fuel view bs c n w (evaluate_select A u (count os)) vs ls s)))

    evaluate_all-view :
        {ns : List ℕ} {ds : Instructions Value} (fuel : ℕ) (view : List Value → Boundaries Value)
        (bs : Boundaries Value) (cache : Cache Value) (capacity : ℕ) (written : List Value)
        → AreValid at ns ds
        → any_has_loop ds ≡ false
        → Sees ns view bs
        → evaluate_all A fuel view ds cache capacity written
          ≡ evaluate_all A fuel (λ w. bs) ds cache capacity written
    evaluate_all-view fuel view bs cache n w AreValid.nil l s = refl
    evaluate_all-view fuel view bs cache n w (AreValid.cons {d} {ds} v vs) l s =
        let (ld, ls) = or-false (has_loop d) (any_has_loop ds) l in
        then_all_congr (evaluate-view fuel view bs cache n w v ld s)
          (λ c u. evaluate_all-view fuel view bs c n u vs ls s)

    evaluate_at-view :
        {ns : List ℕ} {ds : Instructions Value} (fuel : ℕ) (view : List Value → Boundaries Value)
        (bs : Boundaries Value) (cache : Cache Value) (capacity : ℕ) (written : List Value) (k : ℕ)
        → AreOptions at ns ds
        → any_has_loop ds ≡ false
        → Sees ns view bs
        → evaluate_at A fuel view ds k cache capacity written
          ≡ evaluate_at A fuel (λ w. bs) ds k cache capacity written
    evaluate_at-view fuel view bs cache n w k AreOptions.no_option l s = refl
    evaluate_at-view fuel view bs cache n w zero (AreOptions.option {d} {ds} h v vs) l s =
        evaluate-view fuel view bs cache n w v (or-false (has_loop d) (any_has_loop ds) l).0 s
    evaluate_at-view fuel view bs cache n w (suc k) (AreOptions.option {d} {ds} h v vs) l s =
        evaluate_at-view fuel view bs cache n w k vs (or-false (has_loop d) (any_has_loop ds) l).1 s
