-- ===== src/Parser/Outcome.antt =====
-- How a method of `element_parser_ctx` (libelement/src/ast/parser_internal.cpp) ends. Its nodes are the
-- value. What a failed build has left in the tree is deleted, and is not kept.
use element.Prelude.{ℕ, Option, none, some}
use element.Result.{ElementResult}

-- The fields that parsing changes. A token pointer is a position in the tokeniser's vector.
pub record Parser : Type 0 where
  pub token_index : ℕ
  pub previous_token : Option ℕ
  pub current_token : Option ℕ

-- A new context.
abbrev pub create : Parser
create = record { token_index = 0; previous_token = none; current_token = none }

-- With ELEMENT_OK and nodes; with an error; by an exception that nothing catches; by a null pointer or
-- a failed assertion; or with no fuel.
pub data Outcome (A : Type 0) : Type 0 where
  parsed : A → Parser → Outcome A
  failed : ElementResult → Outcome A
  thrown : Outcome A
  fault : Outcome A
  out_of_fuel : Outcome A

abbrev pub P : Type 0 → Type 0
P A = Parser → Outcome A

abbrev pub bind : {A B : Type 0} → Outcome A → (A → P B) → Outcome B
bind (parsed a s) f = f a s
bind (failed r) f = failed r
bind thrown f = thrown
bind fault f = fault
bind out_of_fuel f = out_of_fuel

abbrev pub pure : {A : Type 0} → A → P A
pure a s = parsed a s

abbrev pub fail : {A : Type 0} → ElementResult → P A
fail r s = failed r

abbrev pub exhausted : {A : Type 0} → P A
exhausted s = out_of_fuel

infixr 5 ◌>>=◌ ◌>>◌
abbrev pub ◌>>=◌ : {A B : Type 0} → P A → (A → P B) → P B
◌>>=◌ m f s = bind (m s) f

abbrev pub ◌>>◌ : {A B : Type 0} → P A → P B → P B
m >> k = m >>= λ _. k

-- An assertion on a value that must be there.
abbrev pub required : {A : Type 0} → Option A → P A
required none s = fault
required (some a) s = parsed a s

-- Another error code in place of that of a call.
abbrev pub failing_with : {A : Type 0} → ElementResult → Outcome A → Outcome A
failing_with r (parsed a s) = parsed a s
failing_with r (failed r') = failed r
failing_with r thrown = thrown
failing_with r fault = fault
failing_with r out_of_fuel = out_of_fuel
