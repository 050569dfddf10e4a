-- ===== src/Parser/ValidLaws.antt =====
-- The loops of the validation (libelement/src/ast/parser_internal.cpp), against what it asks for.
use element.Prelude.{
  ℕ, List, [], ◌∷◌, ◌++◌, Option, none, some, Bool, true, false, ◌≡◌, refl, ap, ◌≢◌, ◌↔◌, All,
  if◌then◌else◌,
}
use element.Result.{ElementResult, ok, multiple_definitions, invalid_identifier}
use element.Parser.Ast.{
  NodeType, Payload, function, declaration, scope, portlist, struct, root, same_node, Ast, node,
  Children, nil, cons, node_type, node_identifier, children, child_at,
}
use element.Parser.Words.{same_text}
use element.Parser.Validate.{
  first_error, both, and_then, contains_name, named_again, has_duplicate, validate_portlist,
  validate_type, struct_child, struct_children, struct_body, validate_struct, validate_scope,
  scope_child, validate, validate_all, is_declaration_or_scope,
}
use element.Parser.Checkable.{Checked, checked}
use element.Parser.Names.{
  same_text-false, or-false_iff, Unique, contains_name_iff, Apart, everything-Apart, Apart-cons,
}
use element.Parser.Valid.{
  names, name_of, member_names, function_names, body_names, IsValidStruct, IsValidNode, IsValid,
  AreValid,
}

first_error_iff : (r r' : ElementResult) → (first_error r r' ≡ ok) ↔ ((r ≡ ok) × (r' ≡ ok))
first_error_iff ok r' = (λ e. (refl, e), λ h. h.1)
first_error_iff _ r' = (λ e. cc, λ h. cc (h.0))

both_iff :
    (a b : Option ElementResult)
    → Checked a
    → Checked b
    → (both a b ≡ some ok) ↔ ((a ≡ some ok) × (b ≡ some ok))
both_iff a b (checked {r}) (checked {r = r'}) =
    let (f, g) = first_error_iff r r' in
    (λ e. let (p, q) = f (cc e) in (ap some p, ap some q), λ h. ap some (g (cc (h.0), cc (h.1))))

both_parts : (a b : Option ElementResult) → Checked (both a b) → Checked a × Checked b
both_parts none b h = elim h [ ]
both_parts (some r) none h = elim h [ ]
both_parts (some r) (some r') h = (checked, checked)

and_then_iff :
    (r : ElementResult) (b : Option ElementResult)
    → (and_then (some r) b ≡ some ok) ↔ ((r ≡ ok) × (b ≡ some ok))
and_then_iff ok b = (λ e. (refl, e), λ h. h.1)
and_then_iff _ b = (λ e. cc, λ h. cc (h.0))

and_then_all_iff :
    (a b : Option ElementResult) {X Y : Type 0}
    → Checked (and_then a b)
    → (Checked a → (a ≡ some ok) ↔ X)
    → (Checked b → (b ≡ some ok) ↔ Y)
    → (and_then a b ≡ some ok) ↔ (X × Y)
and_then_all_iff none b h k l = elim h [ ]
and_then_all_iff (some ok) b h k l =
    let (f, g) = k checked in let (f₁, g₁) = l h in (λ e. (f refl, f₁ e), λ (x, y). g₁ y)
and_then_all_iff (some r) b h k l = let (f, g) = k checked in (λ e. cc, λ (x, y). cc (g x))

if_ok : (c : Bool) (r : ElementResult) → r ≢ ok → ((if c then r else ok) ≡ ok) ↔ (c ≡ false)
if_ok true r n = (λ e. absurd (n e), λ e. cc)
if_ok false r n = (λ e. refl, λ e. refl)

module _ {V : Type 0} where
  named_again_iff :
      (n : List ℕ) (cs : Children V) → (named_again n cs ≡ false) ↔ All (λ m. n ≢ m) (names cs)
  unfolding named_again
  named_again_iff n nil = (λ e. tt, λ h. refl)
  named_again_iff n (cons c cs) =
      let (f, g) = or-false_iff (same_text n (node_identifier c)) (named_again n cs) in
      let (f₁, g₁) = same_text-false n (node_identifier c) in
      let (f₂, g₂) = named_again_iff n cs in
      (λ e. (f₁ (f e).0, f₂ (f e).1), λ h. g (g₁ h.0, g₂ h.1))

  has_duplicate_iff : (cs : Children V) → (has_duplicate cs ≡ false) ↔ Unique (names cs)
  unfolding has_duplicate
  has_duplicate_iff nil = (λ e. tt, λ h. refl)
  has_duplicate_iff (cons c cs) =
      let (f, g) = or-false_iff (named_again (node_identifier c) cs) (has_duplicate cs) in
      let (f₁, g₁) = named_again_iff (node_identifier c) cs in
      let (f₂, g₂) = has_duplicate_iff cs in
      (λ e. (f₁ (f e).0, f₂ (f e).1), λ h. g (g₁ h.0, g₂ h.1))

  -- The ports of a list have different names, and there is one.
  pub validate_portlist_iff :
      (cs : Children V) → (validate_portlist cs ≡ ok) ↔ ((cs ≢ nil) × Unique (names cs))
  validate_portlist_iff nil = (λ e. cc, λ h. absurd (h.0 refl))
  validate_portlist_iff (cons c cs) =
      let (f, g) = if_ok (has_duplicate (cons c cs)) multiple_definitions (λ e. cc) in
      let (f₁, g₁) = has_duplicate_iff (cons c cs) in (λ e. (λ q. cc, f₁ (f e)), λ h. g (g₁ h.1))

  name_of-All :
      (P : List ℕ → Type 0) (o : Option (Ast V)) (ns : List (List ℕ))
      → All P (name_of o ++ ns) ↔ (All P (name_of o) × All P ns)
  name_of-All P none ns = (λ h. (tt, h), λ h. h.1)
  name_of-All P (some d) ns = (λ h. ((h.0, tt), h.1), λ h. (h.0.0, h.1))

  struct_named :
      (name : List ℕ) (c : Bool) (d : Ast V)
      → Checked (
          if c
          then some (if same_text name (node_identifier d) then invalid_identifier else ok)
          else none)
      → ((if c
            then some (if same_text name (node_identifier d) then invalid_identifier else ok)
            else none)
          ≡ some ok)
        ↔ All (λ m. name ≢ m) (name_of (some d))
  struct_named name true d h =
      let (f, g) = if_ok (same_text name (node_identifier d)) invalid_identifier (λ e. cc) in
      let (f₁, g₁) = same_text-false name (node_identifier d) in
      (λ e. (f₁ (f (cc e)), tt), λ k. ap some (g (g₁ k.0)))
  struct_named name false d h = elim h [ ]

  struct_child_iff :
      (name : List ℕ) (o : Option (Ast V))
      → Checked (struct_child name o)
      → (struct_child name o ≡ some ok) ↔ All (λ m. name ≢ m) (name_of o)
  struct_child_iff name none h = elim h [ ]
  struct_child_iff name (some d) h = struct_named name (is_declaration_or_scope (node_type d)) d h

  struct_children_iff :
      (name : List ℕ) (cs : Children V)
      → Checked (struct_children name cs)
      → (struct_children name cs ≡ some ok) ↔ All (λ m. name ≢ m) (member_names cs)
  unfolding struct_children
  struct_children_iff name nil h = (λ e. tt, λ k. refl)
  struct_children_iff name (cons c cs) h =
      let o = child_at (children c) 0 in
      let (a, b) = both_parts (struct_child name o) (struct_children name cs) h in
      let (f, g) = both_iff (struct_child name o) (struct_children name cs) a b in
      let (f₁, g₁) = struct_child_iff name o a in
      let (f₂, g₂) = struct_children_iff name cs b in
      let (f₃, g₃) = name_of-All (λ m. name ≢ m) o (member_names cs) in
      (λ e. g₃ (f₁ (f e).0, f₂ (f e).1), λ k. g (g₁ (f₃ k).0, g₂ (f₃ k).1))

  add_name_iff :
      (seen : List (List ℕ)) (x : List ℕ) (cs : Children V) (c : Bool)
      → ((ns : List (List ℕ))
          → Checked (validate_scope ns cs)
          → (validate_scope ns cs ≡ some ok)
            ↔ (Unique (function_names cs) × Apart ns (function_names cs)))
      → contains_name x seen ≡ c
      → Checked (
          if c
          then both (some multiple_definitions) (validate_scope seen cs)
          else validate_scope (x ∷ seen) cs)
      → ((if c
            then both (some multiple_definitions) (validate_scope seen cs)
            else validate_scope (x ∷ seen) cs)
          ≡ some ok)
        ↔ (Unique (x ∷ function_names cs) × Apart seen (x ∷ function_names cs))
  add_name_iff seen x cs true rec e h = (
    λ q.
        let (a, b) = both_parts (some multiple_definitions) (validate_scope seen cs) h in
        cc (((both_iff (some multiple_definitions) (validate_scope seen cs) a b).0 q).0),
    λ k. cc (e, (contains_name_iff x seen).1 k.1.0),
  )
  add_name_iff seen x cs false rec e h =
      let (f, g) = rec (x ∷ seen) h in
      let (f₁, g₁) = Apart-cons x seen (function_names cs) in
      (
        λ q. let (u, p) = f q in let (a, b) = f₁ p in ((a, u), ((contains_name_iff x seen).0 e, b)),
        λ k. g (k.0.1, g₁ (k.0.0, k.1.1)),
      )

  scope_part_iff :
      (seen : List (List ℕ)) (b : Bool) (o : Option (Ast V)) (cs : Children V)
      → ((ns : List (List ℕ))
          → Checked (validate_scope ns cs)
          → (validate_scope ns cs ≡ some ok)
            ↔ (Unique (function_names cs) × Apart ns (function_names cs)))
      → Checked
          (if b then scope_child seen o (λ ns. validate_scope ns cs) else validate_scope seen cs)
      → ((if b then scope_child seen o (λ ns. validate_scope ns cs) else validate_scope seen cs)
          ≡ some ok)
        ↔ (Unique (if b then name_of o ++ function_names cs else function_names cs)
            × Apart seen (if b then name_of o ++ function_names cs else function_names cs))
  scope_part_iff seen true none cs rec h = elim h [ ]
  scope_part_iff seen true (some d) cs rec h =
      add_name_iff seen (node_identifier d) cs (contains_name (node_identifier d) seen) rec refl h
  scope_part_iff seen false o cs rec h = rec seen h

  pub validate_scope_iff :
      (seen : List (List ℕ)) (cs : Children V)
      → Checked (validate_scope seen cs)
      → (validate_scope seen cs ≡ some ok)
        ↔ (Unique (function_names cs) × Apart seen (function_names cs))
  unfolding validate_scope
  validate_scope_iff seen nil h = (λ e. (tt, tt), λ k. refl)
  validate_scope_iff seen (cons c cs) h =
      scope_part_iff seen (same_node (node_type c) function) (child_at (children c) 0) cs
        (λ ns k. validate_scope_iff ns cs k) h

  struct_body_iff :
      (name : List ℕ) (c : Bool) (cs : Children V)
      → Checked (if c then struct_children name cs else some ok)
      → ((if c then struct_children name cs else some ok) ≡ some ok)
        ↔ All (λ m. name ≢ m) (if c then member_names cs else [])
  struct_body_iff name true cs h = struct_children_iff name cs h
  struct_body_iff name false cs h = (λ e. tt, λ k. refl)

  struct_declared_iff :
      (c : Bool) (d b : Ast V)
      → Checked (if c then struct_body (node_identifier d) b else none)
      → ((if c then struct_body (node_identifier d) b else none) ≡ some ok)
        ↔ All (λ m. node_identifier d ≢ m) (body_names b)
  struct_declared_iff true d b h =
      struct_body_iff (node_identifier d) (same_node (node_type b) scope) (children b) h
  struct_declared_iff false d b h = elim h [ ]

  validate_struct_iff :
      (cs : Children V)
      → Checked (validate_struct cs)
      → (validate_struct cs ≡ some ok) ↔ IsValidStruct cs
  unfolding validate_struct
  validate_struct_iff nil h = elim h [ ]
  validate_struct_iff (cons d nil) h = (λ e. tt, λ k. refl)
  validate_struct_iff (cons d (cons b cs)) h =
      struct_declared_iff (same_node (node_type d) declaration) d b h

  root_iff :
      (cs : Children V)
      → Checked (validate_scope [] cs)
      → (validate_scope [] cs ≡ some ok) ↔ Unique (function_names cs)
  root_iff cs h =
      let (f, g) = validate_scope_iff [] cs h in
      (λ e. (f e).0, λ k. g (k, everything-Apart (function_names cs)))

  validate_type_iff :
      (t : NodeType) (name : List ℕ) (u : Payload V) (k : Option ℕ) (cs : Children V)
      → Checked (validate_type (node t name u k cs))
      → (validate_type (node t name u k cs) ≡ some ok) ↔ IsValidNode t cs
  unfolding validate_type IsValidNode
  validate_type_iff portlist name u k cs h =
      let (f, g) = validate_portlist_iff cs in (λ e. f (cc e), λ v. ap some (g v))
  validate_type_iff struct name u k cs h = validate_struct_iff cs h
  validate_type_iff root name u k cs h = root_iff cs h
  validate_type_iff scope name u k cs h = root_iff cs h
  validate_type_iff _ name u k cs h = (λ e. tt, λ v. refl)

  mutual
    unfolding validate IsValid

    tree_iff : (a : Ast V) → Checked (validate a) → (validate a ≡ some ok) ↔ IsValid a
    tree_iff (node t name u k cs) h =
        and_then_all_iff (validate_type (node t name u k cs)) (validate_all cs) h
          (λ c. validate_type_iff t name u k cs c) (λ c. trees_iff cs c)

    trees_iff :
        (cs : Children V) → Checked (validate_all cs) → (validate_all cs ≡ some ok) ↔ AreValid cs
    trees_iff nil h = (λ e. tt, λ v. refl)
    trees_iff (cons c cs) h =
        let (a, b) = both_parts (validate c) (validate_all cs) h in
        let (f, g) = both_iff (validate c) (validate_all cs) a b in
        let (f₁, g₁) = tree_iff c a in
        let (f₂, g₂) = trees_iff cs b in (λ e. (f₁ (f e).0, f₂ (f e).1), λ v. g (g₁ v.0, g₂ v.1))

  -- Where the assertions hold, `validate` accepts a tree exactly if every node of it is valid by itself.
  pub validate_iff : (a : Ast V) → Checked (validate a) → (validate a ≡ some ok) ↔ IsValid a
  validate_iff = tree_iff
