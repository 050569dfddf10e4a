-- ===== src/InstructionTree/Outcome.antt =====
-- How the calls of `do_evaluate` (libelement/src/instruction_tree/evaluator.cpp) end and are chained:
-- its buffers, assertions, returns and throws.
use element.Prelude.{
  ℕ, zero, suc, ◌+◌, Bool, List, [], ◌∷◌, ◌++◌, Option, none, some, length, get_elem?, ltb, leb,
  if◌then◌else◌,
}
use element.Result.{ElementResult, unknown}
use element.InstructionTree.Cache.{Cache, add_to_cache}

-- How a call ends: with ELEMENT_OK or an error, the cache and what has been written; by an assertion,
-- a write behind the buffer, the use of a value that was never written, or `throw;` with no exception
-- at hand, all of which end or corrupt the program; or with no fuel.
pub data Outcome (V : Type 0) : Type 0 where
  done : Cache V → List V → Outcome V
  failed : ElementResult → Cache V → List V → Outcome V
  fault : Outcome V
  out_of_fuel : Outcome V

abbrev pub Boundaries : Type 0 → Type 0
Boundaries V = List (List V)

module _ {V : Type 0} where
  -- assert(b)
  abbrev pub assert : Bool → Outcome V → Outcome V
  assert b o = if b then o else fault

  -- outputs[outputs_written++] = v
  abbrev pub emit : Cache V → ℕ → List V → V → Outcome V
  emit cache capacity written v =
      if ltb (length written) capacity then done cache (written ++ v ∷ []) else fault

  -- ELEMENT_OK_OR_RETURN on a call that writes to a variable of its own, then the rest with its value.
  unfoldable pub with_value : List V → Outcome V → (Cache V → V → Outcome V) → Outcome V
  with_value written (done cache (v ∷ vs)) rest = rest cache v
  with_value written (done cache []) rest = fault
  with_value written (failed r cache vs) rest = failed r cache written
  with_value written fault rest = fault
  with_value written out_of_fuel rest = out_of_fuel

  -- The same for a buffer of its own and no cache; `cache` is the one that the caller keeps.
  unfoldable pub with_buffer : Cache V → List V → Outcome V → (List V → Outcome V) → Outcome V
  with_buffer cache written (done c vs) rest = rest vs
  with_buffer cache written (failed r c vs) rest = failed r cache written
  with_buffer cache written fault rest = fault
  with_buffer cache written out_of_fuel rest = out_of_fuel

  -- The same for a buffer of its own and the caller's cache.
  unfoldable pub with_values : List V → Outcome V → (Cache V → List V → Outcome V) → Outcome V
  with_values written (done cache vs) rest = rest cache vs
  with_values written (failed r cache vs) rest = failed r cache written
  with_values written fault rest = fault
  with_values written out_of_fuel rest = out_of_fuel

  -- ELEMENT_OK_OR_RETURN on a call that is given the caller's own buffer.
  unfoldable pub then_all : Outcome V → (Cache V → List V → Outcome V) → Outcome V
  then_all (done cache vs) rest = rest cache vs
  then_all (failed r cache vs) rest = failed r cache vs
  then_all fault rest = fault
  then_all out_of_fuel rest = out_of_fuel

  -- The value of a variable that a call has written, if it has.
  unfoldable pub with_first : List V → (V → Outcome V) → Outcome V
  with_first [] rest = fault
  with_first (v ∷ vs) rest = rest v

  -- A call in `element_evaluate_for`: an error is a `throw;`.
  unfoldable pub or_throw : Outcome V → (List V → Outcome V) → Outcome V
  or_throw (done cache vs) rest = rest vs
  or_throw (failed r cache vs) rest = fault
  or_throw fault rest = fault
  or_throw out_of_fuel rest = out_of_fuel

  -- The input that is read, if there is one.
  abbrev pub read_input : Option (List V) → ℕ → Option V
  read_input none index = none
  read_input (some inputs) index = get_elem? inputs index

  abbrev pub read_boundary : Boundaries V → ℕ → ℕ → Option V
  read_boundary bs scope index = read_input (get_elem? bs scope) index

  -- A buffer of `n` values that begins with `vs`.
  abbrev pub pad : V → ℕ → List V → List V
  pad zero_value zero vs = vs
  pad zero_value (suc n) [] = zero_value ∷ pad zero_value n []
  pad zero_value (suc n) (v ∷ vs) = v ∷ pad zero_value n vs

  abbrev pub emit_input : Option V → Cache V → ℕ → List V → Outcome V
  emit_input none cache capacity written = failed unknown cache []
  emit_input (some v) cache capacity written =
      if leb capacity (length written)
      then failed unknown cache []
      else done cache (written ++ v ∷ [])

  -- for_result[index], then the cache and the output
  abbrev pub emit_at : Option V → ℕ → Cache V → ℕ → List V → Outcome V
  emit_at none p cache capacity written = fault
  emit_at (some v) p cache capacity written = emit (add_to_cache p v cache) capacity written v

  -- The copy of a loop's values.
  abbrev pub emit_all : Cache V → ℕ → List V → List V → Outcome V
  emit_all cache capacity written vs =
      assert (leb (length written + length vs) capacity) (done cache (written ++ vs))

  -- Everything behind "only returns a single value": the value that the cache holds, or the rest.
  unfoldable pub cached : Option V → Cache V → ℕ → List V → Outcome V → Outcome V
  cached none cache capacity written rest = rest
  cached (some v) cache capacity written rest = emit cache capacity written v
