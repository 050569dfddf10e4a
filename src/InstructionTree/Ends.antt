-- ===== src/InstructionTree/Ends.antt =====
-- `do_evaluate` (libelement/src/instruction_tree/evaluator.cpp) on instructions without loops.
use element.Prelude.{
  ℕ, zero, suc, ◌≤◌, ◌<◌, ◌≡◌, refl, ap, ◌∙◌, false, List, [], ◌∷◌, ◌++◌, Option, some, arith,
  length, length-append, or-false,
}
use element.InstructionTree.Arithmetic.{
  Arithmetic, evaluate_nullary, evaluate_unary, evaluate_binary, evaluate_if, evaluate_select,
}
use element.InstructionTree.Agreement.{Agrees, finished}
use element.InstructionTree.Cache.{Cache}
use element.InstructionTree.Evaluator.{element_evaluate}
use element.InstructionTree.Outcome.{Boundaries, Outcome, done}
use element.InstructionTree.Instruction.{
  Instruction, Instructions, count, size, size_all, has_loop, any_has_loop,
}
use element.InstructionTree.Meaning.{meaning, meaning_all, meaning_at, one_of, all_of}
use element.InstructionTree.Parts.{lengths, get_elem?-some, evaluate_select-lt, read-lengths}
use element.InstructionTree.Refines.{element_evaluate-Agrees}
use element.InstructionTree.Validity.{IsValid, AreValid, AreOptions}

module _ {V : Type 0} where
  -- There are values, and so many.
  abbrev pub Gives : ℕ → Option (List V) → Type 0
  Gives n m = (vs : List V) × (m ≡ some vs) × (length vs ≡ n)

  one_of-Gives :
      {m : Option (List V)} {k n : ℕ} {f : V → Option (List V)}
      → k ≡ 1
      → Gives k m
      → ((v : V) → Gives n (f v))
      → Gives n (one_of m f)
  one_of-Gives e ([], m, l) h = absurd (omega arith)
  one_of-Gives e (v ∷ [], m, l) h = rw m (h v)
  one_of-Gives e (v ∷ w ∷ vs, m, l) h = absurd (omega arith)

  all_of-Gives :
      {m : Option (List V)} {k n : ℕ} {f : List V → Option (List V)}
      → Gives k m
      → ((vs : List V) → length vs ≡ k → Gives n (f vs))
      → Gives n (all_of m f)
  all_of-Gives (vs, m, l) h = rw m (h vs l)

module _ (A : Arithmetic) {at : ℕ → Option (Instruction (Arithmetic.Value A))} where
  open A use {Value}

  mutual
    unfolding meaning size has_loop

    pub meaning-Gives :
        {ns : List ℕ} {i : Instruction Value} (fuel : ℕ) (bs : Boundaries Value)
        → IsValid at ns i
        → lengths bs ≡ ns
        → has_loop i ≡ false
        → Gives (size i) (meaning A fuel bs i)
    meaning-Gives fuel bs (IsValid.constant {v}) e l = (v ∷ [], refl, refl)
    meaning-Gives fuel bs (IsValid.input {ns} {scope} {index} {n} g m) e l =
        let (v, r) = read-lengths bs scope index n (rw e g) m in rw r (v ∷ [], refl, refl)
    meaning-Gives fuel bs (IsValid.structure ds) e l = meaning_all-Gives fuel bs ds e l
    meaning-Gives fuel bs (IsValid.nullary {o} q) e l = (evaluate_nullary A o ∷ [], refl, refl)
    meaning-Gives fuel bs (IsValid.unary {o} q s v) e l =
        one_of-Gives s (meaning-Gives fuel bs v e l) (λ u. (evaluate_unary A o u ∷ [], refl, refl))
    meaning-Gives fuel bs (IsValid.binary {o} {a} {b} q sa sb va vb) e l =
        let (la, lb) = or-false (has_loop a) (has_loop b) l in
        one_of-Gives sa (meaning-Gives fuel bs va e la) (λ u.
          one_of-Gives sb (meaning-Gives fuel bs vb e lb)
            (λ v. (evaluate_binary A o u v ∷ [], refl, refl)))
    meaning-Gives fuel bs (IsValid.if_else {c} {t} {f} q sc st sf vc vt vf) e l =
        let (lct, lf) = or-false _ (has_loop f) l in
        let (lc, lt) = or-false (has_loop c) (has_loop t) lct in
        one_of-Gives sc (meaning-Gives fuel bs vc e lc) (λ u.
          one_of-Gives st (meaning-Gives fuel bs vt e lt) (λ v.
            one_of-Gives sf (meaning-Gives fuel bs vf e lf)
              (λ w. (evaluate_if A u v w ∷ [], refl, refl))))
    meaning-Gives fuel bs (IsValid.for_loop h g s k vi vc vb) e l = cc
    meaning-Gives fuel bs (IsValid.indexer {k} {l = a} q h v) e l =
        all_of-Gives (meaning-Gives fuel bs v e l)
          (λ vs f. let (u, g) = get_elem?-some vs k (omega arith) in rw g (u ∷ [], refl, refl))
    meaning-Gives fuel bs (IsValid.select {s = a} {os} s g v vs) e l =
        let (la, ls) = or-false (has_loop a) (any_has_loop os) l in
        one_of-Gives s (meaning-Gives fuel bs v e la) (λ u.
          meaning_at-Gives fuel bs vs e ls (evaluate_select A u (count os))
            (evaluate_select-lt A u (count os) g))

    meaning_all-Gives :
        {ns : List ℕ} {ds : Instructions Value} (fuel : ℕ) (bs : Boundaries Value)
        → AreValid at ns ds
        → lengths bs ≡ ns
        → any_has_loop ds ≡ false
        → Gives (size_all ds) (meaning_all A fuel bs ds)
    meaning_all-Gives fuel bs AreValid.nil e l = ([], refl, refl)
    meaning_all-Gives fuel bs (AreValid.cons {d} {ds} v vs) e l =
        let (ld, ls) = or-false (has_loop d) (any_has_loop ds) l in
        all_of-Gives (meaning-Gives fuel bs v e ld) (λ us f.
          let (ws, m, g) = meaning_all-Gives fuel bs vs e ls in
          rw m (us ++ ws, refl, omega (arith, length-append us ws)))

    meaning_at-Gives :
        {ns : List ℕ} {ds : Instructions Value} (fuel : ℕ) (bs : Boundaries Value)
        → AreOptions at ns ds
        → lengths bs ≡ ns
        → any_has_loop ds ≡ false
        → (k : ℕ) → k < count ds
        → Gives 1 (meaning_at A fuel bs ds k)
    meaning_at-Gives fuel bs AreOptions.no_option e l k h = elim h [ ]
    meaning_at-Gives fuel bs (AreOptions.option {d} {ds} s v vs) e l zero h =
        let (us, m, g) = meaning-Gives fuel bs v e (or-false (has_loop d) (any_has_loop ds) l).0 in
        (us, m, g ∙ s)
    meaning_at-Gives fuel bs (AreOptions.option {d} {ds} s v vs) e l (suc k) h =
        meaning_at-Gives fuel bs vs e (or-false (has_loop d) (any_has_loop ds) l).1 k (omega arith)

-- What `Agrees` says of a call that ends.
pub Agrees-done :
    {A : Arithmetic} {at : ℕ → Option (Instruction (Arithmetic.Value A))} {fuel : ℕ}
    {bs : Boundaries (Arithmetic.Value A)} {n : ℕ} {m : Option (List (Arithmetic.Value A))}
    {o : Outcome (Arithmetic.Value A)} (vs : List (Arithmetic.Value A))
    → Agrees A at fuel bs [] n m o
    → m ≡ some vs
    → (cache : Cache (Arithmetic.Value A)) × (o ≡ done cache vs)
Agrees-done vs (finished {cache} h e q) g = (cache, rw q (ap (done cache) cc))
Agrees-done vs Agrees.unfinished g = cc

-- `element_evaluate` of a valid instruction without a loop, into a buffer that has room for it, returns
-- ELEMENT_OK, whatever the fuel, and has written as many values as the instruction's size.
pub element_evaluate-ends :
    (A : Arithmetic) (at : ℕ → Option (Instruction (Arithmetic.Value A))) (fuel : ℕ)
    (fn : Instruction (Arithmetic.Value A)) (cache : Cache (Arithmetic.Value A))
    (inputs : List (Arithmetic.Value A)) (outputs_count : ℕ)
    → IsValid at (length inputs ∷ []) fn
    → size fn ≤ outputs_count
    → has_loop fn ≡ false
    → (cache' : Cache (Arithmetic.Value A)) × (vs : List (Arithmetic.Value A)) × (element_evaluate A
          fuel fn cache inputs outputs_count
        ≡ done cache' vs)
      × (length vs ≡ size fn)
element_evaluate-ends A at fuel fn cache inputs outputs_count v h l =
    let (vs, m, e) = meaning-Gives A fuel (inputs ∷ []) v refl l in
    let (cache', q) =
      Agrees-done vs (element_evaluate-Agrees A at fuel fn cache inputs outputs_count v h) m in
    (cache', vs, q, e)
