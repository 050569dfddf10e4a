-- ===== src/InstructionTree/Parts.antt =====
-- The parts of `do_evaluate` (libelement/src/instruction_tree/evaluator.cpp) that the kinds of
-- instructions share: buffers, boundaries, the cache, and the loop.
use element.Prelude.{
  ℕ, zero, suc, ◌+◌, ◌-◌, ◌≤◌, ◌<◌, ◌≡◌, refl, ap, Bool, true, inl, inr, List, [], ◌∷◌, ◌++◌,
  Option, some, arith, length, get_elem?, leb, Bool-cases, ==_iff, ◌==◌,
}
use element.Prelude.Int.{ℤ, pos, negsuc}
use element.InstructionTree.Agreement.{
  Agrees, finished, unfinished, emit-Agrees, or_throw-Agrees, or_throw_one-Agrees,
}
use element.InstructionTree.Arithmetic.{Arithmetic, clamp_from_zero, to_bool, evaluate_select}
use element.InstructionTree.Cache.{Cache, add_to_cache}
use element.InstructionTree.Consistency.{IsConsistent, add_to_cache-IsConsistent}
use element.InstructionTree.Evaluator.{iterate, evaluate_for}
use element.InstructionTree.Outcome.{
  Outcome, done, Boundaries, emit, read_boundary, assert, or_throw, emit_all, pad,
}
use element.InstructionTree.Instruction.{Instruction}
use element.InstructionTree.Meaning.{meaning, repeat}
use element.InstructionTree.View.{Sees}

module _ {V : Type 0} where
  abbrev pub lengths : Boundaries V → List ℕ
  lengths [] = []
  lengths (vs ∷ bs) = length vs ∷ lengths bs

  lengths-concat :
      (bs : Boundaries V) (vs : List V) → lengths (bs ++ vs ∷ []) ≡ lengths bs ++ length vs ∷ []
  lengths-concat [] vs = refl
  lengths-concat (us ∷ bs) vs = ap (◌∷◌ (length us)) (lengths-concat bs vs)

  pub lengths-inner :
      {ns : List ℕ} {n : ℕ} (bs : Boundaries V) (vs : List V)
      → lengths bs ≡ ns
      → length vs ≡ n
      → lengths (bs ++ vs ∷ []) ≡ ns ++ n ∷ []
  lengths-inner bs vs l e = rw (lengths-concat bs vs, l, e) refl

  -- A boundary that is pushed hides none.
  get_elem?-inner :
      (bs : Boundaries V) (vs : List V) (k : ℕ)
      → k < length (lengths bs)
      → get_elem? (bs ++ vs ∷ []) k ≡ get_elem? bs k
  get_elem?-inner [] vs k h = elim h [ ]
  get_elem?-inner (b ∷ bs) vs zero h = refl
  get_elem?-inner (b ∷ bs) vs (suc k) h = get_elem?-inner bs vs k (omega arith)

  pub Sees-inner :
      (ns : List ℕ) (bs : Boundaries V) (f : List V → List V)
      → lengths bs ≡ ns
      → Sees ns (λ w. bs ++ f w ∷ []) bs
  Sees-inner ns bs f l w k h = get_elem?-inner bs (f w) k (rw l h)

  pub pad-full : (z : V) (n : ℕ) (vs : List V) → length vs ≡ n → pad z n vs ≡ vs
  pad-full z zero [] e = refl
  pad-full z zero (v ∷ vs) e = refl
  pad-full z (suc n) [] e = absurd (omega arith)
  pad-full z (suc n) (v ∷ vs) e = ap (◌∷◌ v) (pad-full z n vs (omega arith))

  pub get_elem?-some : (vs : List V) (k : ℕ) → k < length vs → (v : V) × (get_elem? vs k ≡ some v)
  get_elem?-some [] k h = elim h [ ]
  get_elem?-some (v ∷ vs) zero h = (v, refl)
  get_elem?-some (v ∷ vs) (suc k) h = get_elem?-some vs k (omega arith)

  -- An input whose scope and index are in range is there.
  pub read-lengths :
      (bs : Boundaries V) (scope index k : ℕ)
      → get_elem? (lengths bs) scope ≡ some k
      → index < k
      → (v : V) × (read_boundary bs scope index ≡ some v)
  read-lengths [] scope index k e h = cc
  read-lengths (b ∷ bs) zero index k e h =
      let same : length b ≡ k = cc in get_elem?-some b index (omega arith)
  read-lengths (b ∷ bs) (suc scope) index k e h = read-lengths bs scope index k e h

-- The selection is clamped to the options.
clamp-lt : (z : ℤ) (n : ℕ) → 0 < n → clamp_from_zero z (n - 1) < n
clamp-lt (negsuc k) n h = h
clamp-lt (pos k) n h = ground arith

pub evaluate_select-lt :
    (A : Arithmetic) (v : Arithmetic.Value A) (n : ℕ) → 0 < n → evaluate_select A v n < n
unfolding evaluate_select
evaluate_select-lt A v n h = clamp-lt (Arithmetic.to_int A v) n h

module _ {A : Arithmetic} {at : ℕ → Option (Instruction (Arithmetic.Value A))} where
  open A use {Value}

  -- A loop whose condition and body agree with their meanings agrees with the repetition.
  iterate-Agrees :
      (fuel : ℕ) (bs : Boundaries Value) (n : ℕ) (context : List Value → Boundaries Value)
      (condition body : List Value → Outcome Value) (mc mb : List Value → Option (List Value))
      → ((vs : List Value)
          → length vs ≡ n
          → Agrees A at fuel (context vs) [] 1 (mc vs) (condition vs))
      → ((vs : List Value) → length vs ≡ n → Agrees A at fuel (context vs) [] n (mb vs) (body vs))
      → (k : ℕ) (vs : List Value) → length vs ≡ n
      → Agrees A at fuel bs [] n (repeat A mc mb k vs) (iterate A condition body n k vs)
  unfolding repeat iterate
  iterate-Agrees fuel bs n context condition body mc mb hc hb zero vs e = unfinished
  iterate-Agrees fuel bs n context condition body mc mb hc hb (suc k) vs e =
      or_throw_one-Agrees [] _ _ (hc vs e) (λ p. elim (Bool-cases (to_bool A p)) [
        | inl t ↦ rw t (
            or_throw-Agrees [] _ _ (hb vs e) (λ ws l m.
              let full : (length ws == n) ≡ true = (==_iff (length ws) n).1 l in
              rw full (iterate-Agrees fuel bs n context condition body mc mb hc hb k ws l)))
        | inr t ↦ rw t (finished tt e refl)
      ])

  -- The loop, once its initial values are evaluated.
  pub evaluate_for-Agrees :
      (fuel : ℕ) (bs : Boundaries Value) (n : ℕ) (context : List Value → Boundaries Value)
      (cache : Cache Value) (vs : List Value) (initial : Outcome Value)
      (condition body : List Value → Outcome Value) (mc mb : List Value → Option (List Value))
      → ((us : List Value)
          → length us ≡ n
          → Agrees A at fuel (context us) [] 1 (mc us) (condition us))
      → ((us : List Value) → length us ≡ n → Agrees A at fuel (context us) [] n (mb us) (body us))
      → initial ≡ done cache vs
      → length vs ≡ n
      → Agrees A at fuel bs [] n
          (repeat A mc mb fuel vs)
          (evaluate_for A initial condition body n fuel)
  unfolding evaluate_for or_throw
  evaluate_for-Agrees fuel bs n context cache vs initial condition body mc mb hc hb q e =
      rw (q, pad-full A.zero n vs e)
        (iterate-Agrees fuel bs n context condition body mc mb hc hb fuel vs e)

  -- The copy of the values of a loop into the caller's buffer.
  pub copy-Agrees :
      {fuel : ℕ} {bs : Boundaries Value} {m : Option (List Value)} {o : Outcome Value} {n : ℕ}
      (cache : Cache Value) (capacity : ℕ) (written : List Value)
      → IsConsistent A at fuel bs cache
      → length written + n ≤ capacity
      → Agrees A at fuel bs [] n m o
      → Agrees A at fuel bs written n m
          (or_throw o (λ vs. assert (length vs == n) (emit_all cache capacity written vs)))
  unfolding or_throw
  copy-Agrees {n} cache capacity written h l (finished {vs} c e q) =
      let full : (length vs == n) ≡ true = (==_iff (length vs) n).1 e in
      let room : leb (length written + length vs) capacity ≡ true = ground arith in
      rw (q, full, room) (finished h e refl)
  copy-Agrees cache capacity written h l unfinished = unfinished

  pub Agrees-some :
      {fuel : ℕ} {bs : Boundaries Value} {m : Option (List Value)} {o : Outcome Value} {n : ℕ}
      (vs : List Value)
      → Agrees A at fuel bs [] n m o
      → m ≡ some vs
      → (cache : Cache Value) × (o ≡ done cache vs)
  Agrees-some vs (finished {cache} c e q) g = (cache, rw q (ap (done cache) cc))
  Agrees-some vs unfinished g = cc

  pub assert-Agrees :
      {fuel : ℕ} {bs : Boundaries Value} {w : List Value} {m : Option (List Value)}
      {o : Outcome Value} {n : ℕ} {b : Bool}
      → b ≡ true
      → Agrees A at fuel bs w n m o
      → Agrees A at fuel bs w n m (assert b o)
  assert-Agrees e h = rw e h

  pub sized-Agrees :
      {fuel : ℕ} {bs : Boundaries Value} {w : List Value} {m : Option (List Value)}
      {o : Outcome Value} {k n : ℕ}
      → k ≡ n
      → Agrees A at fuel bs w k m o
      → Agrees A at fuel bs w n m o
  sized-Agrees e h = rw (← e) h

  -- A value is cached and written.
  pub store-Agrees :
      {fuel : ℕ} {bs : Boundaries Value} {i : Instruction Value} (p : ℕ) (cache : Cache Value)
      (capacity : ℕ) (written : List Value) (v : Value)
      → at p ≡ some i
      → IsConsistent A at fuel bs cache
      → length written < capacity
      → meaning A fuel bs i ≡ some (v ∷ [])
      → Agrees A at fuel bs written 1
          (some (v ∷ []))
          (emit (add_to_cache p v cache) capacity written v)
  store-Agrees {fuel} {bs} {i} p cache capacity written v q h r m =
      emit-Agrees (add_to_cache p v cache) capacity written v
        (add_to_cache-IsConsistent A at fuel bs p v cache i h q m) r
