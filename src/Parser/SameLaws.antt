-- ===== src/Parser/SameLaws.antt =====
-- Validity (libelement/src/ast/parser_internal.cpp) of trees that differ in positions.
use element.Prelude.{ℕ, List, ◌++◌, ◌≡◌, refl, ◌≢◌, if◌then◌else◌}
use element.Parser.Ast.{
  NodeType, portlist, struct, root, function, scope, same_node, Ast, Children, nil, node_type,
  node_identifier, children, child_at,
}
use element.Parser.Gives.{Same, same, SameAll, same_nil, same_cons}
use element.Parser.Valid.{
  names, name_of, member_names, function_names, body_names, IsValidStruct, IsValidNode, IsValid,
  AreValid,
}

module _ {V : Type 0} where
  identifier-Same : {a b : Ast V} → Same a b → node_identifier b ≡ node_identifier a
  identifier-Same (same x) = refl

  first_name-Same :
      {a b : Ast V}
      → Same a b
      → name_of (child_at (children b) 0) ≡ name_of (child_at (children a) 0)
  first_name-Same (same same_nil) = refl
  first_name-Same (same (same_cons (same x) y)) = refl

  names-Same : {cs ds : Children V} → SameAll cs ds → names ds ≡ names cs
  names-Same same_nil = refl
  names-Same (same_cons x xs) = cc (identifier-Same x, names-Same xs)

  member_names-Same : {cs ds : Children V} → SameAll cs ds → member_names ds ≡ member_names cs
  member_names-Same same_nil = refl
  member_names-Same (same_cons x xs) = rw (first_name-Same x, member_names-Same xs) refl

  function_name-Same :
      {a b : Ast V} (ns : List (List ℕ))
      → Same a b
      → (if same_node (node_type b) function then name_of (child_at (children b) 0) ++ ns else ns)
        ≡ (if same_node (node_type a) function then name_of (child_at (children a) 0) ++ ns else ns)
  function_name-Same ns (same same_nil) = refl
  function_name-Same ns (same (same_cons (same x) y)) = refl

  function_names-Same : {cs ds : Children V} → SameAll cs ds → function_names ds ≡ function_names cs
  function_names-Same same_nil = refl
  function_names-Same (same_cons {ds = ds} x xs) =
      rw (function_names-Same xs) (function_name-Same _ x)

  body_names-Same : {a b : Ast V} → Same a b → body_names b ≡ body_names a
  body_names-Same (same {t} xs) = rw (member_names-Same xs) refl

  IsValidStruct-Same : {cs ds : Children V} → SameAll cs ds → IsValidStruct cs → IsValidStruct ds
  IsValidStruct-Same same_nil v = tt
  IsValidStruct-Same (same_cons x same_nil) v = tt
  IsValidStruct-Same (same_cons x (same_cons y z)) v = rw (identifier-Same x, body_names-Same y) v

  ne_nil-SameAll : {cs ds : Children V} → SameAll cs ds → cs ≢ nil → ds ≢ nil
  ne_nil-SameAll same_nil n = n
  ne_nil-SameAll (same_cons x y) n = λ e. cc

  IsValidNode-Same :
      (t : NodeType) {cs ds : Children V} → SameAll cs ds → IsValidNode t cs → IsValidNode t ds
  unfolding IsValidNode
  IsValidNode-Same portlist x v = (ne_nil-SameAll x v.0, rw (names-Same x) v.1)
  IsValidNode-Same struct x v = IsValidStruct-Same x v
  IsValidNode-Same root x v = rw (function_names-Same x) v
  IsValidNode-Same scope x v = rw (function_names-Same x) v
  IsValidNode-Same _ x v = tt

  mutual
    unfolding IsValid

    pub IsValid-Same : {a b : Ast V} → Same a b → IsValid a → IsValid b
    IsValid-Same (same {t} x) v = (IsValidNode-Same t x v.0, AreValid-Same x v.1)

    pub AreValid-Same : {cs ds : Children V} → SameAll cs ds → AreValid cs → AreValid ds
    AreValid-Same same_nil v = tt
    AreValid-Same (same_cons x xs) v = (IsValid-Same x v.0, AreValid-Same xs v.1)
