-- ===== src/InstructionTree/ConstantLaws.antt =====
-- `get_constant_value` (libelement/src/instruction_tree/instructions.cpp), beside the evaluator.
use element.Prelude.{
  ℕ, zero, suc, ◌≡◌, ◌≤◌, Bool, refl, ap, ◌∙◌, true, false, inl, inr, List, [], ◌∷◌, ◌++◌, Option,
  none, some, arith, length, length-append, Bool-cases, ◌==◌, ◌&&◌, if◌then◌else◌,
}
use element.InstructionTree.Arithmetic.{
  Arithmetic, to_bool, evaluate_unary, evaluate_binary, evaluate_if, evaluate_select,
}
use element.InstructionTree.Agreement.{Agrees, finished, unfinished}
use element.InstructionTree.Cache.{Cache}
use element.InstructionTree.Constant.{with_constant, get_constant_value, constant_at}
use element.InstructionTree.Ends.{meaning-Gives, Agrees-done}
use element.InstructionTree.Evaluator.{element_evaluate}
use element.InstructionTree.Instruction.{
  Instruction, Instructions, count, size, size_all, has_loop, is_constant_all,
}
use element.InstructionTree.Meaning.{meaning, meaning_all, meaning_at, one_of, both}
use element.InstructionTree.Outcome.{Outcome, Boundaries, done}
use element.InstructionTree.Parts.{lengths}
use element.InstructionTree.Refines.{evaluate-Agrees, element_evaluate-Agrees}
use element.InstructionTree.Validity.{IsValid, AreValid, AreOptions}

module _ {V : Type 0} where
  with_constant-some :
      {g : Option V} {f : V → Option V} {v : V}
      → with_constant g f ≡ some v
      → (u : V) × (g ≡ some u) × (f u ≡ some v)
  with_constant-some {g = none} e = cc
  with_constant-some {g = some u} e = (u, refl, e)

  one_of-some :
      {m : Option (List V)} {k : V → Option (List V)} {vs : List V}
      → one_of m k ≡ some vs
      → (u : V) × (us : List V) × (m ≡ some (u ∷ us)) × (k u ≡ some vs)
  one_of-some {m = none} e = cc
  one_of-some {m = some []} e = cc
  one_of-some {m = some (u ∷ us)} e = (u, us, refl, e)

  both-some :
      (m n : Option (List V)) {vs : List V}
      → both m n ≡ some vs
      → (us ws : List V) × (m ≡ some us) × (n ≡ some ws) × (us ++ ws ≡ vs)
  both-some none n e = cc
  both-some (some us) none e = cc
  both-some (some us) (some ws) e = (us, ws, refl, refl, cc)

  if-some : (b : Bool) (o : Option V) {v : V} → (if b then o else none) ≡ some v → o ≡ some v
  if-some true o e = e
  if-some false o e = cc

  only_one :
      (b : Bool) (n : ℕ) (o : Option V) {v : V} → (if b && n == 1 then o else none) ≡ some v → n ≡ 1
  only_one b n o {v} e = ground arith

  first_only : (us ws : List V) {v : V} → us ≡ v ∷ [] → length (us ++ ws) ≡ 1 → us ++ ws ≡ v ∷ []
  first_only us [] e l = rw e refl
  first_only us (w ∷ ws) e l =
      let one : length us ≡ 1 = ap length e in absurd (omega (arith, l, length-append us (w ∷ ws)))

module _ (A : Arithmetic) {at : ℕ → Option (Instruction (Arithmetic.Value A))} where
  open A use {Value}

  -- A meaning has as many values as the instruction's size.
  meaning-length :
      {ns : List ℕ} {i : Instruction Value} (fuel : ℕ) (bs : Boundaries Value) (vs : List Value)
      → IsValid at ns i
      → lengths bs ≡ ns
      → meaning A fuel bs i ≡ some vs
      → length vs ≡ size i
  meaning-length {i} fuel bs vs v l e =
      counted (evaluate-Agrees A at fuel bs none (size i) [] v l tt (omega arith)) e
    where
      counted :
          {m : Option (List Value)} {o : Outcome Value} {n : ℕ}
          → Agrees A at fuel bs [] n m o
          → m ≡ some vs
          → length vs ≡ n
      counted (finished {vs = us} c k q) e = let same : us ≡ vs = cc in rw (← same) k
      counted unfinished e = cc

  meaning_all-length :
      {ns : List ℕ} {ds : Instructions Value} (fuel : ℕ) (bs : Boundaries Value) (vs : List Value)
      → AreValid at ns ds
      → lengths bs ≡ ns
      → meaning_all A fuel bs ds ≡ some vs
      → length vs ≡ size_all ds
  unfolding meaning size
  meaning_all-length fuel bs vs h l m = meaning-length fuel bs vs (IsValid.structure {p = 0} h) l m

  mutual
    unfolding meaning get_constant_value size evaluate_if

    pub get_constant_value-meaning :
        {ns : List ℕ} {i : Instruction Value} (fuel : ℕ) (bs : Boundaries Value) (v : Value)
        (vs : List Value)
        → IsValid at ns i
        → lengths bs ≡ ns
        → get_constant_value A i ≡ some v
        → meaning A fuel bs i ≡ some vs
        → vs ≡ v ∷ []
    get_constant_value-meaning fuel bs v vs IsValid.constant l g m = cc
    get_constant_value-meaning fuel bs v vs (IsValid.input e h) l g m = cc
    get_constant_value-meaning fuel bs v vs (IsValid.structure {ds} h) l g m =
        first_constant-meaning fuel bs v vs h l
          (if-some (is_constant_all ds && size_all ds == 1) (constant_at A ds 0) g) m
          (meaning_all-length fuel bs vs h l m
            ∙ only_one (is_constant_all ds) (size_all ds) (constant_at A ds 0) g)
    get_constant_value-meaning fuel bs v vs (IsValid.nullary q) l g m = cc
    get_constant_value-meaning fuel bs v vs (IsValid.unary {o} q e h) l g m =
        let (u, ga, f) = with_constant-some g in
        let (w, ws, ma, k) = one_of-some m in
        let same : w ∷ ws ≡ u ∷ [] = get_constant_value-meaning fuel bs u (w ∷ ws) h l ga ma in
        let first : w ≡ u = cc in
        let values : vs ≡ evaluate_unary A o w ∷ [] = cc in
        let value : evaluate_unary A o u ≡ v = cc in rw (values, first, value) refl
    get_constant_value-meaning fuel bs v vs (IsValid.binary {o} q ea eb ha hb) l g m =
        let (u₁, g₁, f₁) = with_constant-some g in
        let (u₂, g₂, f₂) = with_constant-some f₁ in
        let (w₁, ws₁, m₁, k₁) = one_of-some m in
        let (w₂, ws₂, m₂, k₂) = one_of-some k₁ in
        let same₁ : w₁ ∷ ws₁ ≡ u₁ ∷ [] =
          get_constant_value-meaning fuel bs u₁ (w₁ ∷ ws₁) ha l g₁ m₁ in
        let same₂ : w₂ ∷ ws₂ ≡ u₂ ∷ [] =
          get_constant_value-meaning fuel bs u₂ (w₂ ∷ ws₂) hb l g₂ m₂ in
        let first₁ : w₁ ≡ u₁ = cc in
        let first₂ : w₂ ≡ u₂ = cc in
        let values : vs ≡ evaluate_binary A o w₁ w₂ ∷ [] = cc in
        let value : evaluate_binary A o u₁ u₂ ≡ v = cc in rw (values, first₁, first₂, value) refl
    get_constant_value-meaning fuel bs v vs (IsValid.if_else {c} {t} {f = e} q ec et ef hc ht hf) l
          g m =
        let (u, gc, f) = with_constant-some g in
        let (w₁, ws₁, m₁, k₁) = one_of-some {m = meaning A fuel bs c} m in
        let (w₂, ws₂, m₂, k₂) = one_of-some {m = meaning A fuel bs t} k₁ in
        let (w₃, ws₃, m₃, k₃) = one_of-some {m = meaning A fuel bs e} k₂ in
        let same : w₁ ∷ ws₁ ≡ u ∷ [] = get_constant_value-meaning fuel bs u (w₁ ∷ ws₁) hc l gc m₁ in
        let first : w₁ ≡ u = cc in
        let values : vs ≡ evaluate_if A w₁ w₂ w₃ ∷ [] = cc in
        elim (Bool-cases (to_bool A u)) [
          | inl h ↦
              let same₂ : w₂ ∷ ws₂ ≡ v ∷ [] =
                get_constant_value-meaning fuel bs v (w₂ ∷ ws₂) ht l (rw h at f) m₂ in
              let first₂ : w₂ ≡ v = cc in rw (values, first, h, if◌then◌else◌, first₂) refl
          | inr h ↦
              let same₃ : w₃ ∷ ws₃ ≡ v ∷ [] =
                get_constant_value-meaning fuel bs v (w₃ ∷ ws₃) hf l (rw h at f) m₃ in
              let first₃ : w₃ ≡ v = cc in rw (values, first, h, if◌then◌else◌, first₃) refl
        ]
    get_constant_value-meaning fuel bs v vs (IsValid.for_loop nl s ec eb hi hc hb) l g m = cc
    get_constant_value-meaning fuel bs v vs (IsValid.indexer q e h) l g m = cc
    get_constant_value-meaning fuel bs v vs (IsValid.select {os} e n h hs) l g m =
        let (u, ga, f) = with_constant-some g in
        let (w, ws, ma, k) = one_of-some m in
        let same : w ∷ ws ≡ u ∷ [] = get_constant_value-meaning fuel bs u (w ∷ ws) h l ga ma in
        let first : w ≡ u = cc in
        constant_at-meaning fuel bs v vs (evaluate_select A u (count os)) hs l f (rw first at k)

    -- The only value of a structure.
    first_constant-meaning :
        {ns : List ℕ} {ds : Instructions Value} (fuel : ℕ) (bs : Boundaries Value) (v : Value)
        (vs : List Value)
        → AreValid at ns ds
        → lengths bs ≡ ns
        → constant_at A ds 0 ≡ some v
        → meaning_all A fuel bs ds ≡ some vs
        → length vs ≡ 1
        → vs ≡ v ∷ []
    first_constant-meaning fuel bs v vs AreValid.nil l g m k = cc
    first_constant-meaning fuel bs v vs (AreValid.cons {d} {ds} h hs) l g m k =
        let (us, ws, m₁, m₂, e) = both-some (meaning A fuel bs d) (meaning_all A fuel bs ds) m in
        rw (← e)
          (first_only us ws (get_constant_value-meaning fuel bs v us h l g m₁) (ap length e ∙ k))

    constant_at-meaning :
        {ns : List ℕ} {ds : Instructions Value} (fuel : ℕ) (bs : Boundaries Value) (v : Value)
        (vs : List Value) (k : ℕ)
        → AreOptions at ns ds
        → lengths bs ≡ ns
        → constant_at A ds k ≡ some v
        → meaning_at A fuel bs ds k ≡ some vs
        → vs ≡ v ∷ []
    constant_at-meaning fuel bs v vs k AreOptions.no_option l g m = cc
    constant_at-meaning fuel bs v vs zero (AreOptions.option e h hs) l g m =
        get_constant_value-meaning fuel bs v vs h l g m
    constant_at-meaning fuel bs v vs (suc k) (AreOptions.option e h hs) l g m =
        constant_at-meaning fuel bs v vs k hs l g m

-- Where `get_constant_value` of a valid instruction without a loop returns true, the evaluation of the
-- instruction, into a buffer that has room for it, returns ELEMENT_OK for all inputs and has written
-- exactly the value that `get_constant_value` gave.
pub get_constant_value-element_evaluate :
    (A : Arithmetic) (at : ℕ → Option (Instruction (Arithmetic.Value A))) (fuel : ℕ)
    (fn : Instruction (Arithmetic.Value A)) (cache : Cache (Arithmetic.Value A))
    (inputs : List (Arithmetic.Value A)) (outputs_count : ℕ) (v : Arithmetic.Value A)
    → IsValid at (length inputs ∷ []) fn
    → size fn ≤ outputs_count
    → has_loop fn ≡ false
    → get_constant_value A fn ≡ some v
    → (cache' : Cache (Arithmetic.Value A)) × (element_evaluate A fuel fn cache inputs outputs_count
        ≡ done cache' (v ∷ []))
get_constant_value-element_evaluate A at fuel fn cache inputs outputs_count v h s l g =
    let (vs, m, e) = meaning-Gives A fuel (inputs ∷ []) h refl l in
    let same : vs ≡ v ∷ [] = get_constant_value-meaning A fuel (inputs ∷ []) v vs h refl g m in
    Agrees-done (v ∷ []) (element_evaluate-Agrees A at fuel fn cache inputs outputs_count h s)
      (m ∙ ap some same)
