-- ===== src/InstructionTree/Agreement.antt =====
-- Calls of `do_evaluate` (libelement/src/instruction_tree/evaluator.cpp), beside the meaning of
-- instructions.
use mathlib.Core.List.{append_assoc}
use element.Prelude.{
  ℕ, ◌+◌, ◌<◌, ◌≡◌, refl, ◌∙◌, true, inl, inr, List, [], ◌∷◌, ◌++◌, Option, none, some, arith,
  length, length-append, ltb, Option-cases,
}
use element.InstructionTree.Arithmetic.{Arithmetic}
use element.InstructionTree.Cache.{Cache, present}
use element.InstructionTree.Consistency.{IsConsistent, present-meaning}
use element.InstructionTree.Outcome.{
  Outcome, done, out_of_fuel, Boundaries, emit, with_value, with_values, with_buffer, then_all,
  or_throw, with_first, cached,
}
use element.InstructionTree.Instruction.{Instruction}
use element.InstructionTree.Meaning.{meaning, one_of, all_of, both}

module _ (A : Arithmetic) (at : ℕ → Option (Instruction (Arithmetic.Value A))) where
  open A use {Value}

  -- The call has written these values behind `written`, and they are `n`; or the fuel has run out.
  pub data Agrees (fuel : ℕ) (bs : Boundaries Value) (written : List Value) (n : ℕ)
      : Option (List Value) → Outcome Value → Type 0 where
    finished :
        {cache : Cache Value} {vs out : List Value}
        → IsConsistent A at fuel bs cache
        → length vs ≡ n
        → out ≡ written ++ vs
        → Agrees fuel bs written n (some vs) (done cache out)
    unfinished : Agrees fuel bs written n none out_of_fuel

module _ {A : Arithmetic} {at : ℕ → Option (Instruction (Arithmetic.Value A))} where
  open A use {Value}

  module _ {fuel : ℕ} {bs : Boundaries Value} where
    pub emit-Agrees :
        (cache : Cache Value) (capacity : ℕ) (written : List Value) (v : Value)
        → IsConsistent A at fuel bs cache
        → length written < capacity
        → Agrees A at fuel bs written 1 (some (v ∷ [])) (emit cache capacity written v)
    emit-Agrees cache capacity written v h l =
        let room : ltb (length written) capacity ≡ true = ground arith in
        rw room (finished h refl refl)

    pub with_value-Agrees :
        {m : Option (List Value)} {o : Outcome Value} {n : ℕ} (written : List Value)
        (k : Value → Option (List Value)) (rest : Cache Value → Value → Outcome Value)
        → Agrees A at fuel bs [] 1 m o
        → ((cache : Cache Value) (v : Value)
            → IsConsistent A at fuel bs cache
            → m ≡ some (v ∷ [])
            → Agrees A at fuel bs written n (k v) (rest cache v))
        → Agrees A at fuel bs written n (one_of m k) (with_value written o rest)
    unfolding with_value
    with_value-Agrees written k rest (finished {cache} {vs = []} h e q) f = absurd (omega arith)
    with_value-Agrees written k rest (finished {cache} {vs = v ∷ []} h e q) f =
        rw q (f cache v h refl)
    with_value-Agrees written k rest (finished {cache} {vs = v ∷ w ∷ vs} h e q) f =
        absurd (omega arith)
    with_value-Agrees written k rest unfinished f = unfinished

    pub with_values-Agrees :
        {m : Option (List Value)} {o : Outcome Value} {size n : ℕ} (written : List Value)
        (k : List Value → Option (List Value)) (rest : Cache Value → List Value → Outcome Value)
        → Agrees A at fuel bs [] size m o
        → ((cache : Cache Value) (vs : List Value)
            → IsConsistent A at fuel bs cache
            → length vs ≡ size
            → m ≡ some vs
            → Agrees A at fuel bs written n (k vs) (rest cache vs))
        → Agrees A at fuel bs written n (all_of m k) (with_values written o rest)
    unfolding with_values
    with_values-Agrees written k rest (finished {cache} {vs} h e q) f = rw q (f cache vs h e refl)
    with_values-Agrees written k rest unfinished f = unfinished

    -- A call that writes into the caller's buffer, and what writes behind it.
    pub then_all-Agrees :
        {m : Option (List Value)} {o : Outcome Value} {n₁ n₂ : ℕ} (written : List Value)
        (m₂ : Option (List Value)) (rest : Cache Value → List Value → Outcome Value)
        → Agrees A at fuel bs written n₁ m o
        → ((cache : Cache Value) (vs : List Value)
            → IsConsistent A at fuel bs cache
            → length vs ≡ n₁
            → Agrees A at fuel bs (written ++ vs) n₂ m₂ (rest cache (written ++ vs)))
        → Agrees A at fuel bs written (n₁ + n₂) (both m m₂) (then_all o rest)
    unfolding then_all
    then_all-Agrees {n₁} {n₂} written m₂ rest (finished {cache} {vs} h e q) f =
        rw q (behind (f cache vs h e))
      where
        behind :
            {m₂ : Option (List Value)} {o : Outcome Value}
            → Agrees A at fuel bs (written ++ vs) n₂ m₂ o
            → Agrees A at fuel bs written (n₁ + n₂) (both (some vs) m₂) o
        behind (finished {vs = ws} h₂ e₂ q₂) =
            finished h₂ (omega (arith, length-append vs ws)) (q₂ ∙ append_assoc written vs ws)
        behind unfinished = unfinished
    then_all-Agrees written m₂ rest unfinished f = unfinished

    -- A call with no cache, and with boundaries of its own.
    pub or_throw-Agrees :
        {bs' : Boundaries Value} {m : Option (List Value)} {o : Outcome Value} {size n : ℕ}
        (written : List Value) (k : List Value → Option (List Value))
        (rest : List Value → Outcome Value)
        → Agrees A at fuel bs' [] size m o
        → ((vs : List Value)
            → length vs ≡ size
            → m ≡ some vs
            → Agrees A at fuel bs written n (k vs) (rest vs))
        → Agrees A at fuel bs written n (all_of m k) (or_throw o rest)
    unfolding or_throw
    or_throw-Agrees written k rest (finished {vs} h e q) f = rw q (f vs e refl)
    or_throw-Agrees written k rest unfinished f = unfinished

    pub or_throw_one-Agrees :
        {bs' : Boundaries Value} {m : Option (List Value)} {o : Outcome Value} {n : ℕ}
        (written : List Value) (k : Value → Option (List Value)) (rest : Value → Outcome Value)
        → Agrees A at fuel bs' [] 1 m o
        → ((v : Value) → Agrees A at fuel bs written n (k v) (rest v))
        → Agrees A at fuel bs written n (one_of m k) (or_throw o (λ vs. with_first vs rest))
    unfolding or_throw with_first
    or_throw_one-Agrees written k rest (finished {vs = []} h e q) f = absurd (omega arith)
    or_throw_one-Agrees written k rest (finished {vs = v ∷ []} h e q) f = rw q (f v)
    or_throw_one-Agrees written k rest (finished {vs = v ∷ w ∷ vs} h e q) f = absurd (omega arith)
    or_throw_one-Agrees written k rest unfinished f = unfinished

    pub with_buffer-Agrees :
        {m : Option (List Value)} {o : Outcome Value} {size n : ℕ} (cache : Cache Value)
        (written : List Value) (k : List Value → Option (List Value))
        (rest : List Value → Outcome Value)
        → Agrees A at fuel bs [] size m o
        → ((vs : List Value)
            → length vs ≡ size
            → m ≡ some vs
            → Agrees A at fuel bs written n (k vs) (rest vs))
        → Agrees A at fuel bs written n (all_of m k) (with_buffer cache written o rest)
    unfolding with_buffer
    with_buffer-Agrees cache written k rest (finished {vs} h e q) f = rw q (f vs e refl)
    with_buffer-Agrees cache written k rest unfinished f = unfinished

    -- Behind the lookup: what the cache holds is written, or the rest has to agree.
    pub cached-Agrees :
        (p : ℕ) (cache : Cache Value) (i : Instruction Value) (capacity : ℕ) (written : List Value)
        (rest : Outcome Value)
        → at p ≡ some i
        → IsConsistent A at fuel bs cache
        → length written < capacity
        → Agrees A at fuel bs written 1 (meaning A fuel bs i) rest
        → Agrees A at fuel bs written 1
            (meaning A fuel bs i)
            (cached (present p cache) cache capacity written rest)
    unfolding cached
    cached-Agrees p cache i capacity written rest a h l r = elim (Option-cases (present p cache)) [
      | inl e ↦ rw e r
      | inr (v, e) ↦
          rw (e, present-meaning A at fuel bs p cache i v h a e)
            (emit-Agrees cache capacity written v h l)
    ]
