-- ===== src/Parser/Words.antt =====
-- The words that libelement/src/ast/parser_internal.cpp keeps for itself.
use Prim.Native.Char.{code}
use Prim.Native.String.{String}
use element.Prelude.{ℕ, Bool, true, false, not, ◌&&◌, ◌||◌, List, [], ◌∷◌, ◌==◌, if◌then◌else◌}
use element.Result.{ElementResult, ok, reserved_identifier}

-- The bytes of an ASCII text.
abbrev pub word : String → List ℕ
word String.[] = []
word (String.◌∷◌ c s) = code c ∷ word s

abbrev pub same_text : List ℕ → List ℕ → Bool
same_text [] [] = true
same_text [] (d ∷ ds) = false
same_text (c ∷ cs) [] = false
same_text (c ∷ cs) (d ∷ ds) = c == d && same_text cs ds

abbrev pub is_qualifier : List ℕ → Bool
is_qualifier t = same_text t (word "intrinsic")

abbrev pub is_construct : List ℕ → Bool
is_construct t =
    same_text t (word "struct") || same_text t (word "namespace") || same_text t (word "constraint")

abbrev pub is_reserved_arg : List ℕ → Bool
is_reserved_arg t = false

abbrev pub is_reserved_name : List ℕ → Bool
is_reserved_name t = same_text t (word "return")

unfoldable pub check_reserved_words : List ℕ → Bool → Bool → ElementResult
check_reserved_words t allow_reserved_arg allow_reserved_names =
    if not (is_qualifier t)
      && not (is_construct t)
      && (allow_reserved_arg || not (is_reserved_arg t))
      && (allow_reserved_names || not (is_reserved_name t))
    then ok
    else reserved_identifier
