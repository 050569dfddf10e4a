-- ===== src/Lmnt/Contexts.antt =====
-- The contexts of libelement/src/lmnt/compiler_state.cpp.
use element.Prelude.{ℕ, ◌≡◌, refl, List, [], ◌∷◌}
use element.Result.{ok}
use element.Lmnt.Allocation.{ExecutionType, never, conditional, unconditional, min_execution}
use element.Lmnt.State.{
  ExecutionContext, Contexts, least_type, current_context_type, push_context, pop_context,
}

min_execution_assoc :
    (a b c : ExecutionType)
    → min_execution (min_execution a b) c ≡ min_execution a (min_execution b c)
min_execution_assoc never b c = refl
min_execution_assoc conditional never c = refl
min_execution_assoc conditional conditional never = refl
min_execution_assoc conditional conditional conditional = refl
min_execution_assoc conditional conditional unconditional = refl
min_execution_assoc conditional unconditional never = refl
min_execution_assoc conditional unconditional conditional = refl
min_execution_assoc conditional unconditional unconditional = refl
min_execution_assoc unconditional b c = refl

least_type-min :
    (t u : ExecutionType) (cs : List ExecutionContext)
    → least_type (min_execution t u) cs ≡ min_execution t (least_type u cs)
unfolding least_type
least_type-min t u [] = refl
least_type-min t u (c ∷ cs) =
    rw (min_execution_assoc t u c.rel_type) (least_type-min t (min_execution u c.rel_type) cs)

-- In a context that is pushed the type of execution is the lesser of its own and the one before; to pop it
-- succeeds, and leaves the contexts that were there.
pub push_context-pop_context :
    (i : ℕ) (t : ExecutionType) (cs : Contexts)
    → (current_context_type (push_context i t cs).1 ≡ min_execution t (current_context_type cs))
      × (pop_context (push_context i t cs).1 ≡ (ok, cs))
unfolding push_context pop_context current_context_type least_type
push_context-pop_context i t cs = (least_type-min t cs.current.rel_type cs.outer, refl)
