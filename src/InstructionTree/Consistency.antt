-- ===== src/InstructionTree/Consistency.antt =====
-- What a cache may hold (libelement/src/instruction_tree/cache.hpp, evaluator.cpp).
use element.Prelude.{ℕ, ◌≡◌, ◌≢◌, ap, ◌⊎◌, inl, inr, [], ◌∷◌, Option, none, some, arith}
use element.InstructionTree.Arithmetic.{Arithmetic}
use element.InstructionTree.Cache.{
  Entries, Cache, find, write, clear_values, entry_value, present, add_to_cache,
}
use element.InstructionTree.Outcome.{Boundaries}
use element.InstructionTree.Instruction.{Instruction}
use element.InstructionTree.Meaning.{meaning}

module _ {V : Type 0} where
  find-write :
      (p q : ℕ) (v : V) (es : Entries V) (w : V)
      → find q (write p v es) ≡ some (some w)
      → ((p ≡ q) × (v ≡ w)) ⊎ (find q es ≡ some (some w))
  unfolding find write
  find-write p q v [] w e = inr e
  find-write p q v ((r, u) ∷ es) w e = ground (arith, find-write p q v es w)

  entry_value-some : (o : Option (Option V)) {v : V} → entry_value o ≡ some v → o ≡ some (some v)
  entry_value-some none e = cc
  entry_value-some (some o) e = ap some e

  find-clear_values : (p : ℕ) (v : V) (es : Entries V) → find p (clear_values es) ≢ some (some v)
  unfolding find clear_values
  find-clear_values p v [] e = cc
  find-clear_values p v ((q, w) ∷ es) e = ground (arith, find-clear_values p v es)

module _ (A : Arithmetic) (at : ℕ → Option (Instruction (Arithmetic.Value A))) where
  open A use {Value}

  -- Each value that the cache holds is the one that the instruction at its address means.
  abbrev pub IsConsistent : ℕ → Boundaries Value → Cache Value → Type 0
  IsConsistent fuel bs none = Unit
  IsConsistent fuel bs (some es) =
      (p : ℕ) (v : Value)
      → find p es ≡ some (some v)
      → (j : Instruction Value) × (at p ≡ some j) × (meaning A fuel bs j ≡ some (v ∷ []))

  module _ (fuel : ℕ) (bs : Boundaries Value) where
    -- A value that is cached is the one that the instruction means.
    pub add_to_cache-IsConsistent :
        (p : ℕ) (v : Value) (cache : Cache Value) (i : Instruction Value)
        → IsConsistent fuel bs cache
        → at p ≡ some i
        → meaning A fuel bs i ≡ some (v ∷ [])
        → IsConsistent fuel bs (add_to_cache p v cache)
    unfolding add_to_cache
    add_to_cache-IsConsistent p v none i h a m = tt
    add_to_cache-IsConsistent p v (some es) i h a m = λ q w e. elim (find-write p q v es w e) [
      | inl (s, t) ↦ (i, rw (← s) a, rw (← t) m)
      | inr o ↦ h q w o
    ]

    -- The value that a consistent cache gives for an instruction is the one that it means.
    pub present-meaning :
        (p : ℕ) (cache : Cache Value) (i : Instruction Value) (v : Value)
        → IsConsistent fuel bs cache
        → at p ≡ some i
        → present p cache ≡ some v
        → meaning A fuel bs i ≡ some (v ∷ [])
    unfolding present
    present-meaning p none i v h a e = cc
    present-meaning p (some es) i v h a e =
        let (j, b, m) = h p v (entry_value-some (find p es) e) in let same : i ≡ j = cc in rw same m

    -- A cache that has been cleared is consistent.
    pub clear_values-IsConsistent :
        (es : Entries Value) → IsConsistent fuel bs (some (clear_values es))
    clear_values-IsConsistent es p v e = absurd (find-clear_values p v es e)
