-- ===== src/Generator/StructGenerator/File.antt =====
-- protocol/generator/struct_generator.go: the generated file, and Generate.
use adcl.Prelude.{
  Bytes, List, [], ◌∷◌, ◌++◌, codes, Result, ok, err, panic, ◌>>=◌, length, ◌==◌, if◌then◌else◌,
}
use adcl.Generator.Jen.{
  Jen, Statement, Group, codes_of, type_word, const_word, var_word, func_word, string_word,
  int_word, bool_word, line_word, defs_of, values_of, struct_of, params_of, index_of, block_of,
}
use adcl.Generator.StructGenerator.{StructGenerator, prepare}
use adcl.Generator.StructGenerator.Positionals.{
  generate_positional, generate_pos_len, generate_pos_at,
}
use adcl.Generator.StructGenerator.Params.{
  generate_flag_constants, generate_struct_fields, generate_named, generate_named_get, string_map,
}

module _ (J : Jen) where
  open J use {Code, statement, op, word, bracket, id, comment, render}

  module _ (s : StructGenerator J) where
    -- `func (x *XContent) Name(params) results { body }`
    abbrev pub method : Bytes → List Code → List Code → Group J → Statement J
    method name params results body =
        word func_word
        ++ bracket params_of
            (statement (id s.type_letter ++ (op (codes "*") ∷ []) ++ id s.type_name) ∷ [])
        ++ id name
        ++ bracket params_of params
        ++ results
        ++ bracket block_of (codes_of J body)

    -- The constants stand in the file only if there are named parameters.
    unfoldable pub flag_const : Result (Group J)
    flag_const =
        if length s.named_params == 0
        then ok []
        else (generate_flag_constants J s >>= λ defs.
            ok ((word const_word ++ bracket defs_of (codes_of J defs)) ∷ []))

    abbrev pub parameter : Bytes → List Code → List Code
    parameter name type = statement (id name ++ type) ∷ []

    unfoldable pub generate_file : Result (Group J)
    generate_file = do
      consts ← flag_const
      positional ← generate_positional J s
      len ← generate_pos_len J s
      at ← generate_pos_at J s
      get ← generate_named_get J s
      ok (
          (comment (codes "Code generated by adcl/protocol/generator. DO NOT EDIT.")
            ∷ word line_word
            ∷ (word type_word ++ id s.flag_type_name ++ word string_word)
            ∷ consts)
          ++ ((word var_word
                ++ id (codes "_")
                ++ id (codes "ParamAccessor")
                ++ (op (codes "=") ∷ op (codes "&") ∷ [])
                ++ id s.type_name
                ++ bracket values_of [])
              ∷ (word type_word
                  ++ id s.type_name
                  ++ bracket struct_of (codes_of J (generate_struct_fields J s)))
              ∷ method (codes "Positional") [] (bracket index_of [] ++ word string_word) positional
              ∷ word line_word
              ∷ method (codes "PosLen") [] (word int_word) len
              ∷ word line_word
              ∷ method (codes "PosAt") (parameter (codes "i") (word int_word)) (word string_word) at
              ∷ word line_word
              ∷ method (codes "Named") [] (string_map J s) (generate_named J s)
              ∷ word line_word
              ∷ method (codes "NamedGet") (parameter (codes "key") (word string_word))
                  (bracket params_of
                    (statement (word string_word) ∷ statement (word bool_word) ∷ []))
                  get
              ∷ []))

  -- What is printed: the file of the package "message". The error of Render is dropped.
  unfoldable pub generate_after :
      Result {0} Unit × StructGenerator J → Result Bytes × StructGenerator J
  generate_after (ok _, s) =
      (generate_file s >>= λ file. ok (render (codes "message") file ++ codes "\n"), s)
  generate_after (err e, s) = (err e, s)
  generate_after (panic, s) = (panic, s)

  unfoldable pub generate : StructGenerator J → Result Bytes × StructGenerator J
  generate s = generate_after (prepare J s)
