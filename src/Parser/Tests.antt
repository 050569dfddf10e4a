-- ===== src/Parser/Tests.antt =====
-- Runs of the parser on small sources, and the theorems at concrete inputs.
use Prim.Native.String.{String}
use element.Prelude.{
  ℕ, ◌-◌, true, false, List, [], ◌∷◌, Option, none, some, ◌≡◌, ◌≢◌, ◌⊎◌, ◌↔◌, refl,
}
use element.Result.{ElementResult, ok, multiple_definitions, missing_function_body}
use element.Tokeniser.Input.{skip_while}
use element.Tokeniser.Ascii.{ascii, is_ascii, ascii-IsUtf8}
use element.Tokeniser.Chars.{is_alpha, is_digit, is_alnum, is_space, is_eol, isid_alpha, isid_alnum}
use element.Tokeniser.Number.{
  scan_number, digits, point, fraction, exponent, exponent_sign, exponent_digits,
}
use element.Tokeniser.State.{Tokeniser, create, put_token, reset_token}
use element.Tokeniser.Run.{
  run, run_loop, resume, start, dispatch, punctuation, tokenise_default, tokenise_underscore,
  tokenise_comment, tokenise_identifier, tokenise_number, newline, skip_comment, scan_identifier,
}
use element.Tokeniser.Clear.{create-IsFresh}
use element.Tokeniser.Input.{IsUtf8}
use element.Parser.Stream.{IsStream}
use element.Parser.Sources.{run-IsStream}
use element.Parser.BuildLaws.{IsTree, tree}
use element.Parser.Checkable.{Checked, checked, validate-Checked}
use element.Parser.Valid.{IsValid}
use element.Parser.ValidLaws.{validate_iff}
use element.Parser.Grammar.{
  Source, unfinished, defined, unqualified, kept, declared, name, unlisted, untyped, bodied,
  expressed, numeral, stop, finished,
}
use element.Parser.Ast.{
  Ast, NodeType, root, no_node, function, declaration, literal, unspecified_type, flags, value,
  no_flags, empty_input_flag, node, cons, nil, bare, leaf, node_type, children, child_count,
  declaration_is_intrinsic, declaration_has_outputs, declaration_has_portlist,
}
use element.Parser.Outcome.{Parser, Outcome, parsed, failed, thrown, fault, out_of_fuel}
use element.Parser.Words.{word, check_reserved_words}
use element.Parser.WordsLaws.{check_reserved_words_iff}
use element.Parser.Steps.{
  skip_none, advance_result, advance, advance_ok, current, advance_then_check,
  advance_then_check_not, parse_identifier, parse_literal,
}
use element.Parser.Loops.{separated, until_bracer, after_part, block_parts}
use element.Parser.Expressions.{
  parse_typename, parse_port_name, parse_return_type, parse_default, parse_port, parse_portlist,
  parse_exprlist, links, parse_call, parse_scope, parse_anonymous_block, parse_function_body,
  parse_lambda, parse_expression_step,
}
use element.Parser.Declarations.{
  parse_qualifiers, parse_inputs, parse_declaration, skip_function, parse_function, check_portlist,
  check_outputs, parse_struct, parse_constraint, parse_namespace, parse_qualified, parse_item_step,
}
use element.Parser.Build.{parse_expression, until_eof, parse, ast_build}
use element.Parser.Validate.{
  validate, validate_type, named_again, has_duplicate, struct_children, validate_struct,
  validate_scope,
}

abbrev tokens_of : Option (ElementResult × Tokeniser) → Tokeniser
tokens_of none = create
tokens_of (some (r, s)) = s

abbrev tokenised : String → Tokeniser
tokenised s = tokens_of (run create (ascii s) none)

-- A number for every literal.
abbrev one : List ℕ → Option ℕ
one t = some 1

abbrev summary : Outcome (Ast ℕ) → Outcome (NodeType × ℕ)
summary (parsed a s) = parsed (node_type a, child_count (children a)) s
summary (failed r) = failed r
summary thrown = thrown
summary fault = fault
summary out_of_fuel = out_of_fuel

-- The state at the last token.
abbrev stands : ℕ → Parser
stands k = record { token_index = k; previous_token = some (k - 1); current_token = some k }

a_call : summary (ast_build (tokenised "f(x) = x.add(1, 2)") one) ≡ parsed (root, 1) (stands 13)
unfolding run run_loop resume start dispatch punctuation tokenise_default tokenise_underscore
    tokenise_comment tokenise_identifier tokenise_number newline put_token reset_token skip_comment
    scan_identifier scan_number digits point fraction exponent exponent_sign exponent_digits
    skip_while is_alpha is_digit is_alnum is_space is_eol isid_alpha isid_alnum
    declaration_is_intrinsic declaration_has_outputs declaration_has_portlist check_reserved_words
    skip_none advance_result advance advance_ok current advance_then_check advance_then_check_not
    parse_identifier parse_literal separated until_bracer after_part block_parts parse_typename
    parse_port_name parse_return_type parse_default parse_port parse_portlist parse_exprlist links
    parse_call parse_scope parse_anonymous_block parse_function_body parse_lambda
    parse_expression_step parse_qualifiers parse_inputs parse_declaration skip_function
    parse_function check_portlist check_outputs parse_struct parse_constraint parse_namespace
    parse_qualified parse_item_step parse_expression until_eof parse ast_build validate
    validate_type named_again has_duplicate struct_children validate_struct validate_scope
a_call = refl

functions_and_structs :
    summary (
      ast_build
        (tokenised "struct P(x:Num) { g(p) { h = _(y) = y return = h(p.x) } } q = { a = 1, b = 2 }")
        one)
    ≡ parsed (root, 2) (stands 42)
unfolding run run_loop resume start dispatch punctuation tokenise_default tokenise_underscore
    tokenise_comment tokenise_identifier tokenise_number newline put_token reset_token skip_comment
    scan_identifier scan_number digits point fraction exponent exponent_sign exponent_digits
    skip_while is_alpha is_digit is_alnum is_space is_eol isid_alpha isid_alnum
    declaration_is_intrinsic declaration_has_outputs declaration_has_portlist check_reserved_words
    skip_none advance_result advance advance_ok current advance_then_check advance_then_check_not
    parse_identifier parse_literal separated until_bracer after_part block_parts parse_typename
    parse_port_name parse_return_type parse_default parse_port parse_portlist parse_exprlist links
    parse_call parse_scope parse_anonymous_block parse_function_body parse_lambda
    parse_expression_step parse_qualifiers parse_inputs parse_declaration skip_function
    parse_function check_portlist check_outputs parse_struct parse_constraint parse_namespace
    parse_qualified parse_item_step parse_expression until_eof parse ast_build validate
    validate_type named_again has_duplicate struct_children validate_struct validate_scope
functions_and_structs = refl

constraints :
    summary (ast_build (tokenised "intrinsic constraint Any intrinsic function f(a = 1)") one)
    ≡ parsed (root, 2) (stands 11)
unfolding run run_loop resume start dispatch punctuation tokenise_default tokenise_underscore
    tokenise_comment tokenise_identifier tokenise_number newline put_token reset_token skip_comment
    scan_identifier scan_number digits point fraction exponent exponent_sign exponent_digits
    skip_while is_alpha is_digit is_alnum is_space is_eol isid_alpha isid_alnum
    declaration_is_intrinsic declaration_has_outputs declaration_has_portlist check_reserved_words
    skip_none advance_result advance advance_ok current advance_then_check advance_then_check_not
    parse_identifier parse_literal separated until_bracer after_part block_parts parse_typename
    parse_port_name parse_return_type parse_default parse_port parse_portlist parse_exprlist links
    parse_call parse_scope parse_anonymous_block parse_function_body parse_lambda
    parse_expression_step parse_qualifiers parse_inputs parse_declaration skip_function
    parse_function check_portlist check_outputs parse_struct parse_constraint parse_namespace
    parse_qualified parse_item_step parse_expression until_eof parse ast_build validate
    validate_type named_again has_duplicate struct_children validate_struct validate_scope
constraints = refl

-- No opening brace, but one that closes the namespace.
unopened_namespace :
    summary (ast_build (tokenised "namespace N a = 1 }") one) ≡ parsed (root, 1) (stands 6)
unfolding run run_loop resume start dispatch punctuation tokenise_default tokenise_underscore
    tokenise_comment tokenise_identifier tokenise_number newline put_token reset_token skip_comment
    scan_identifier scan_number digits point fraction exponent exponent_sign exponent_digits
    skip_while is_alpha is_digit is_alnum is_space is_eol isid_alpha isid_alnum
    declaration_is_intrinsic declaration_has_outputs declaration_has_portlist check_reserved_words
    skip_none advance_result advance advance_ok current advance_then_check advance_then_check_not
    parse_identifier parse_literal separated until_bracer after_part block_parts parse_typename
    parse_port_name parse_return_type parse_default parse_port parse_portlist parse_exprlist links
    parse_call parse_scope parse_anonymous_block parse_function_body parse_lambda
    parse_expression_step parse_qualifiers parse_inputs parse_declaration skip_function
    parse_function check_portlist check_outputs parse_struct parse_constraint parse_namespace
    parse_qualified parse_item_step parse_expression until_eof parse ast_build validate
    validate_type named_again has_duplicate struct_children validate_struct validate_scope
unopened_namespace = refl

-- Two ports without a name have the same name.
unnamed_ports : ast_build (tokenised "f(_, _) = 1") one ≡ failed multiple_definitions
unfolding run run_loop resume start dispatch punctuation tokenise_default tokenise_underscore
    tokenise_comment tokenise_identifier tokenise_number newline put_token reset_token skip_comment
    scan_identifier scan_number digits point fraction exponent exponent_sign exponent_digits
    skip_while is_alpha is_digit is_alnum is_space is_eol isid_alpha isid_alnum
    declaration_is_intrinsic declaration_has_outputs declaration_has_portlist check_reserved_words
    skip_none advance_result advance advance_ok current advance_then_check advance_then_check_not
    parse_identifier parse_literal separated until_bracer after_part block_parts parse_typename
    parse_port_name parse_return_type parse_default parse_port parse_portlist parse_exprlist links
    parse_call parse_scope parse_anonymous_block parse_function_body parse_lambda
    parse_expression_step parse_qualifiers parse_inputs parse_declaration skip_function
    parse_function check_portlist check_outputs parse_struct parse_constraint parse_namespace
    parse_qualified parse_item_step parse_expression until_eof parse ast_build validate
    validate_type named_again has_duplicate struct_children validate_struct validate_scope
unnamed_ports = refl

body_is_missing : ast_build (tokenised "f(x)") one ≡ failed missing_function_body
unfolding run run_loop resume start dispatch punctuation tokenise_default tokenise_underscore
    tokenise_comment tokenise_identifier tokenise_number newline put_token reset_token skip_comment
    scan_identifier scan_number digits point fraction exponent exponent_sign exponent_digits
    skip_while is_alpha is_digit is_alnum is_space is_eol isid_alpha isid_alnum
    declaration_is_intrinsic declaration_has_outputs declaration_has_portlist check_reserved_words
    skip_none advance_result advance advance_ok current advance_then_check advance_then_check_not
    parse_identifier parse_literal separated until_bracer after_part block_parts parse_typename
    parse_port_name parse_return_type parse_default parse_port parse_portlist parse_exprlist links
    parse_call parse_scope parse_anonymous_block parse_function_body parse_lambda
    parse_expression_step parse_qualifiers parse_inputs parse_declaration skip_function
    parse_function check_portlist check_outputs parse_struct parse_constraint parse_namespace
    parse_qualified parse_item_step parse_expression until_eof parse ast_build validate
    validate_type named_again has_duplicate struct_children validate_struct validate_scope
body_is_missing = refl

too_large : ast_build (tokenised "a = 1e99") {V = ℕ} (λ t. none) ≡ thrown
unfolding run run_loop resume start dispatch punctuation tokenise_default tokenise_underscore
    tokenise_comment tokenise_identifier tokenise_number newline put_token reset_token skip_comment
    scan_identifier scan_number digits point fraction exponent exponent_sign exponent_digits
    skip_while is_alpha is_digit is_alnum is_space is_eol isid_alpha isid_alnum
    declaration_is_intrinsic declaration_has_outputs declaration_has_portlist check_reserved_words
    skip_none advance_result advance advance_ok current advance_then_check advance_then_check_not
    parse_identifier parse_literal separated until_bracer after_part block_parts parse_typename
    parse_port_name parse_return_type parse_default parse_port parse_portlist parse_exprlist links
    parse_call parse_scope parse_anonymous_block parse_function_body parse_lambda
    parse_expression_step parse_qualifiers parse_inputs parse_declaration skip_function
    parse_function check_portlist check_outputs parse_struct parse_constraint parse_namespace
    parse_qualified parse_item_step parse_expression until_eof parse ast_build validate
    validate_type named_again has_duplicate struct_children validate_struct validate_scope
too_large = refl

abbrev program : Tokeniser
program = tokenised "f(x) = x.add(1, 2)"

program_runs : run create (ascii "f(x) = x.add(1, 2)") none ≡ some (ok, program)
unfolding run run_loop resume start dispatch punctuation tokenise_default tokenise_underscore
    tokenise_comment tokenise_identifier tokenise_number newline put_token reset_token skip_comment
    scan_identifier scan_number digits point fraction exponent exponent_sign exponent_digits
    skip_while is_alpha is_digit is_alnum is_space is_eol isid_alpha isid_alnum
program_runs = refl

program-IsUtf8 : IsUtf8 (ascii "f(x) = x.add(1, 2)")
unfolding is_ascii
program-IsUtf8 = ascii-IsUtf8 "f(x) = x.add(1, 2)" refl

run-IsStream_example : IsStream program.tokens
run-IsStream_example =
    run-IsStream create program (ascii "f(x) = x.add(1, 2)") none create-IsFresh program-IsUtf8
      program_runs

abbrev named_function : List ℕ → Ast ℕ
named_function n =
    bare function (some 0) (cons (node declaration n (flags no_flags) (some 0) nil) nil)

abbrev small : Tokeniser
small = tokenised "a = 1"

abbrev small_tree : Ast ℕ
small_tree = bare root (some 0) (
    cons
      (bare function (some 0) (
        cons
          (node declaration (b'a' ∷ []) (flags no_flags) (some 0) (
            cons (node no_node [] (flags empty_input_flag) (some 1) nil)
              (cons (leaf unspecified_type (some 1)) nil)))
          (cons (node literal [] (value 1) (some 2) nil) nil)))
      nil)

small-Source : Source small one small.tokens (children small_tree)
unfolding run run_loop resume start dispatch punctuation tokenise_default tokenise_underscore
    tokenise_comment tokenise_identifier tokenise_number newline put_token reset_token skip_comment
    scan_identifier scan_number digits point fraction exponent exponent_sign exponent_digits
    skip_while is_alpha is_digit is_alnum is_space is_eol isid_alpha isid_alnum check_reserved_words
small-Source =
    unfinished (λ e. cc)
      (defined unqualified (kept refl)
        (declared (name refl refl) (unlisted (λ e. cc)) (untyped (λ e. cc)))
        (bodied (expressed refl (numeral refl refl (stop (λ e. cc) (λ e. cc))))))
      (finished refl)

small-IsTree : IsTree small one small_tree
small-IsTree = tree small-Source

validate-Checked_example : Checked (validate small_tree)
validate-Checked_example = validate-Checked small one small-IsTree

-- Two functions of one name.
abbrev twice : Ast ℕ
twice =
    bare root (some 0) (cons (named_function (b'a' ∷ [])) (cons (named_function (b'a' ∷ [])) nil))

twice-Checked : Checked (validate twice)
unfolding validate validate_type validate_scope
twice-Checked = checked

validate_iff_example : (validate twice ≡ some ok) ↔ IsValid twice
validate_iff_example = validate_iff twice twice-Checked

check_reserved_words_iff_example : (check_reserved_words (word "return") false true ≡ ok) ↔ (
    (word "return" ≢ word "intrinsic")
    × (word "return" ≢ word "struct")
    × (word "return" ≢ word "namespace")
    × (word "return" ≢ word "constraint")
    × ((true ≡ true) ⊎ (word "return" ≢ word "return")))
check_reserved_words_iff_example = check_reserved_words_iff (word "return") false true
