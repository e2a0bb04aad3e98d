-- ===== src/Generator/StructGenerator/Params.antt =====
-- protocol/generator/struct_generator.go: the flag constants, the fields of the struct, and the
-- bodies of the generated methods Named and NamedGet.
use adcl.Prelude.{
  ℕ, suc, Bool, true, false, not, ◌||◌, Bytes, List, [], ◌∷◌, ◌++◌, codes, Result, ok, ◌>>=◌,
  length, ◌==◌, if◌then◌else◌,
}
use adcl.Generator.Jen.{
  Jen, Statement, Group, codes_of, index_of, string_word, return_of, make_of, map_of, len_of,
  for_of, list_of, block_of, if_of, else_word, case_of, switch_of, parens_of, range_word,
  empty_word, line_word,
}
use adcl.Generator.MessageModel.{Flag}
use adcl.Generator.MapperModel.{param_name}
use adcl.Generator.StructGenerator.{ParamInfo, StructGenerator, create_context, selected, op_join}

module _ (J : Jen) (s : StructGenerator J) where
  open J use {Code, statement, op, word, bracket, id, dot, lit_int, lit_string, lit_bool, comment}

  unfoldable pub flag_name : ParamInfo J → Result Bytes
  flag_name p = param_name J p.mapper.parser.named (create_context J p)

  -- The loop of generateFlagConstants; only the constant at index 0 has the type.
  unfoldable pub flag_constants : ℕ → List (ParamInfo J) → Result (Group J)
  flag_constants ind [] = ok []
  flag_constants ind (p ∷ ps) = do
    name ← flag_name p
    rest ← flag_constants (suc ind) ps
    ok (
        (id (s.flag_type_name ++ name)
          ++ (if ind == 0 then id s.flag_type_name else [])
          ++ (op (codes "=") ∷ [])
          ++ lit_string name)
        ∷ rest)

  unfoldable pub generate_flag_constants : Result (Group J)
  generate_flag_constants = flag_constants 0 s.named_params

  unfoldable pub generate_params_struct_fields : List (ParamInfo J) → Group J
  generate_params_struct_fields [] = []
  generate_params_struct_fields (p ∷ ps) =
      (p.field_info.field_name ∷ p.field_info.field_type ∷ [])
      ∷ (p.field_info.str_field_name
          ∷ statement (
              if p.field_info.str_is_singular
              then word string_word
              else bracket index_of [] ++ (statement (word string_word) ∷ []))
          ∷ [])
      ∷ word line_word
      ∷ generate_params_struct_fields ps

  abbrev pub flag_comments : List Flag → Group J
  flag_comments [] = []
  flag_comments (f ∷ fs) = comment f.comment ∷ flag_comments fs

  unfoldable pub generate_struct_fields : Group J
  generate_struct_fields =
      generate_params_struct_fields s.positional_params
      ++ generate_params_struct_fields s.named_params
      ++ ((id (codes "Flags")
            ++ bracket map_of (statement (word string_word) ∷ [])
            ++ word string_word)
          ∷ word line_word
          ∷ [])
      ++ (if length s.message.flags == 0
          then comment (codes "No known additional flags.") ∷ []
          else flag_comments s.message.flags)

  -- The str field, or its element at 0: the text of the parameter.
  unfoldable pub str_statement : ParamInfo J → List Code
  str_statement p =
      selected J s p.field_info.str_field_name
      ++ (if p.field_info.str_is_singular
          then []
          else bracket index_of (statement (lit_int 0) ∷ []))

  -- condStmts
  unfoldable pub conditions : ParamInfo J → List Code
  conditions p =
      (if p.field_info.field_is_maybe
        then statement (selected J s p.field_info.field_name ++ dot (codes "IsSet")) ∷ []
        else [])
      ++ (if not p.field_info.str_is_singular
          then statement (
              bracket len_of (statement (selected J s p.field_info.str_field_name) ∷ [])
              ++ (op (codes ">") ∷ [])
              ++ lit_int 0)
            ∷ []
          else [])

  abbrev pub empty_code : Code
  empty_code = statement (word empty_word)

  -- `params[xStr[:2]] = xStr[2:]`; strStmt is shared by the two sides and not written to again.
  unfoldable pub set_statement : ParamInfo J → Statement J
  set_statement p =
      let str = statement (str_statement p) in
      id (codes "params")
      ++ bracket index_of
          (statement (str ∷ bracket index_of (empty_code ∷ statement (lit_int 2) ∷ [])) ∷ [])
      ++ (op (codes "=") ∷ str ∷ bracket index_of (statement (lit_int 2) ∷ empty_code ∷ []))

  abbrev pub is_conditional : ParamInfo J → Bool
  is_conditional p = p.field_info.field_is_maybe || not p.field_info.str_is_singular

  unfoldable pub named_statement : ParamInfo J → Statement J
  named_statement p =
      if is_conditional p
      then bracket if_of (op_join J (codes "&&") (conditions p))
        ++ bracket block_of (statement (set_statement p) ∷ [])
      else statement (set_statement p) ∷ []

  unfoldable pub named_statements : List (ParamInfo J) → Group J
  named_statements [] = []
  named_statements (p ∷ ps) = named_statement p ∷ named_statements ps

  abbrev pub flags_field : List Code
  flags_field = id s.type_letter ++ dot (codes "Flags")

  -- `key, val`
  abbrev pub key_val : List Code
  key_val = bracket list_of (statement (id (codes "key")) ∷ statement (id (codes "val")) ∷ [])

  abbrev pub string_map : List Code
  string_map = bracket map_of (statement (word string_word) ∷ []) ++ word string_word

  unfoldable pub generate_named : Group J
  generate_named =
      if length s.named_params == 0
      then bracket return_of (statement flags_field ∷ []) ∷ []
      else ((id (codes "params")
            ++ (op (codes ":=") ∷ [])
            ++ bracket make_of (statement string_map ∷ []))
          ∷ word line_word
          ∷ (bracket for_of (
                statement (key_val ++ (op (codes ":=") ∷ []) ++ word range_word ++ flags_field)
                ∷ [])
              ++ bracket block_of (
                  statement (
                    id (codes "params")
                    ++ bracket index_of (statement (id (codes "key")) ∷ [])
                    ++ (op (codes "=") ∷ [])
                    ++ id (codes "val"))
                  ∷ []))
          ∷ word line_word
          ∷ named_statements s.named_params)
        ++ (word line_word ∷ bracket return_of (statement (id (codes "params")) ∷ []) ∷ [])

  -- `return text, found`
  abbrev pub return_pair : List Code → Bool → List Code
  return_pair text found =
      bracket return_of
        (statement (bracket list_of (statement text ∷ statement (lit_bool found) ∷ [])) ∷ [])

  unfoldable pub value_statement : ParamInfo J → List Code
  value_statement p = str_statement p ++ bracket index_of (statement (lit_int 2) ∷ empty_code ∷ [])

  unfoldable pub named_get_case : ParamInfo J → Bytes → Statement J
  named_get_case p name =
      bracket case_of (statement (id (s.flag_type_name ++ name)) ∷ [])
      ++ (if is_conditional p
          then bracket if_of (op_join J (codes "&&") (conditions p))
            ++ bracket block_of (statement (return_pair (value_statement p) true) ∷ [])
            ++ word else_word
            ++ bracket block_of (statement (return_pair (lit_string []) false) ∷ [])
          else return_pair (value_statement p) true)

  unfoldable pub named_get_cases : List (ParamInfo J) → Result (Group J)
  named_get_cases [] = ok []
  named_get_cases (p ∷ ps) = do
    name ← flag_name p
    rest ← named_get_cases ps
    ok (named_get_case p name ∷ rest)

  abbrev pub named_get_end : Group J
  named_get_end =
      (key_val
        ++ (op (codes ":=") ∷ [])
        ++ flags_field
        ++ bracket index_of (statement (id (codes "key")) ∷ []))
      ∷ bracket return_of (statement key_val ∷ [])
      ∷ []

  unfoldable pub generate_named_get : Result (Group J)
  generate_named_get =
      if length s.named_params == 0
      then ok named_get_end
      else (named_get_cases s.named_params >>= λ cases. ok (
          (bracket switch_of (
              statement
                (id s.flag_type_name ++ bracket parens_of (statement (id (codes "key")) ∷ []))
              ∷ [])
            ++ bracket block_of (codes_of J cases))
          ∷ word line_word
          ∷ named_get_end))
