-- ===== src/Result.antt =====
-- `element_result` (libelement/include/element/common.h), with the prefix ELEMENT_ERROR_ left off the names.
-- The header gives invalid_port and invalid_typename one number, so that no caller can tell them apart.
pub data ElementResult : Type 0 where
  ok serialisation multiple_definitions : ElementResult
  invalid_compile_target intrinsic_not_implemented local_shadowing : ElementResult
  argument_count_mismatch identifier_not_found constraint_not_satisfied : ElementResult
  parse_error invalid_boundary_function_interface circular_compilation : ElementResult
  boundary_converter_missing missing_ports type_error : ElementResult
  invalid_identifier invalid_expression invalid_return_type : ElementResult
  redundant_qualifier_warning struct_cannot_have_return_type intrinsic_cannot_have_body :
      ElementResult
  missing_function_body cannot_be_used_as_instance_function missing_function_return : ElementResult
  struct_portlist_contains_discards default_argument_not_at_end infinite_loop : ElementResult
  invalid_call_nonfunction not_indexable not_a_constraint : ElementResult
  cannot_compile_with_current_settings unknown interrupted : ElementResult
  invalid_ptr invalid_size invalid_archive : ElementResult
  args_mismatch rvals_mismatch def_mismatch : ElementResult
  not_found no_impl access_violation : ElementResult
  memory_size missing_extcall invalid_operation : ElementResult
  prelude_already_loaded directory_not_found file_not_found : ElementResult
  invalid_file_type accessed_token_past_end exception : ElementResult
  constraint_has_body bad_index_into_number bad_number_exponent : ElementResult
  missing_parenthesis_for_call missing_semicolon missing_contents_for_call : ElementResult
  invalid_contents_for_call invalid_port invalid_typename : ElementResult
  missing_closing_parenthesis_for_portlist reserved_identifier missing_body : ElementResult
  partial_grammar struct_invalid_body constraint_invalid_body : ElementResult
  missing_comma_in_anonymous_block compiletime_loop_too_many_iterations api_instruction_is_null :
      ElementResult
  api_object_is_not_error api_object_is_null api_port_is_null : ElementResult
  api_declaration_is_null api_string_is_null api_insufficient_buffer : ElementResult
  api_object_model_ctx_is_null api_output_is_null api_invalid_input : ElementResult
  api_ast_is_null api_tokeniser_ctx_is_null api_parser_ctx_is_null : ElementResult
  api_interpreter_ctx_is_null api_ports_is_null api_evaluator_ctx_is_null : ElementResult
  api_unknown : ElementResult
