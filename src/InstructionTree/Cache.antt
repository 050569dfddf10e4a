-- ===== src/InstructionTree/Cache.antt =====
-- `instruction_cache` (libelement/src/instruction_tree/cache.hpp): an entry for each instruction that
-- may be cached, by its address, with the value if one is present.
use element.Prelude.{ℕ, List, [], ◌∷◌, Option, none, some, ◌==◌, if◌then◌else◌}
use element.InstructionTree.Instruction.{
  Instruction, constant, input, serialised_structure, nullary, unary, binary, if_else, for_loop,
  indexer, select, Instructions, nil, cons,
}

abbrev pub Entries : Type 0 → Type 0
Entries V = List (ℕ × Option V)

-- The pointer that `do_evaluate` is given.
abbrev pub Cache : Type 0 → Type 0
Cache V = Option (Entries V)

module _ {V : Type 0} where
  unfoldable pub find : ℕ → Entries V → Option (Option V)
  find p [] = none
  find p ((q, v) ∷ es) = if q == p then some v else find p es

  -- What `add_to_cache` writes through the pointer that `find` gave.
  unfoldable pub write : ℕ → V → Entries V → Entries V
  write p v [] = []
  write p v ((q, w) ∷ es) = if q == p then (q, some v) ∷ es else (q, w) ∷ write p v es

  unfoldable pub clear_values : Entries V → Entries V
  clear_values [] = []
  clear_values ((q, w) ∷ es) = (q, none) ∷ clear_values es

  -- `emplace` keeps an entry that is there.
  emplace_absent : ℕ → Option (Option V) → Entries V → Entries V
  emplace_absent p none es = (p, none) ∷ es
  emplace_absent p (some v) es = es

  unfoldable pub emplace : ℕ → Entries V → Entries V
  unfolding emplace_absent
  emplace p es = emplace_absent p (find p es) es

  -- Constants, inputs, structures and loops are not cached; their dependents are.
  unfoldable mutual
    pub initialise : Instruction V → Entries V → Entries V
    initialise (constant p v) es = es
    initialise (input p scope index) es = es
    initialise (serialised_structure p ds) es = initialise_all ds es
    initialise (nullary p o) es = emplace p es
    initialise (unary p o a) es = initialise a (emplace p es)
    initialise (binary p o a b) es = initialise b (initialise a (emplace p es))
    initialise (if_else p c t f) es = initialise f (initialise t (initialise c (emplace p es)))
    initialise (for_loop p i c b) es = initialise b (initialise c (initialise i es))
    initialise (indexer p l i) es = initialise l (emplace p es)
    initialise (select p s os) es = initialise_all os (initialise s (emplace p es))

    pub initialise_all : Instructions V → Entries V → Entries V
    initialise_all nil es = es
    initialise_all (cons d ds) es = initialise_all ds (initialise d es)

  -- cache ? cache->find(p) : nullptr, and whether a value is present
  abbrev pub entry_value : Option (Option V) → Option V
  entry_value none = none
  entry_value (some v) = v

  unfoldable pub present : ℕ → Cache V → Option V
  present p none = none
  present p (some es) = entry_value (find p es)

  unfoldable pub add_to_cache : ℕ → V → Cache V → Cache V
  add_to_cache p v none = none
  add_to_cache p v (some es) = some (write p v es)
