-- ===== src/Generator/Mappers.antt =====
-- protocol/generator/mappers.go. The names of parameters are ASCII.
use adcl.Prelude.{
  true, not, Bytes, [], ◌∷◌, ◌++◌, codes, none, some, Result, ok, panic, ◌>>=◌, equal, ltb,
  if◌then◌else◌, length, take, drop,
}
use adcl.Stdlib.Strings.{to_upper, to_lower}
use adcl.Generator.Jen.{Jen, int_word, float64_word, string_word, call_of}
use adcl.Generator.MessageModel.{Param}
use adcl.Generator.MapperModel.{
  multiplicity_static, Context, FieldInfo, ModeParserSpecBase, ValueFunc, Mapper,
}

abbrev pub encoding_package : Bytes
encoding_package = codes "github.com/seoester/adcl/protocol/encoding"

abbrev pub maybe_package : Bytes
maybe_package = codes "github.com/seoester/adcl/protocol/maybe"

unfoldable pub flag_name_from_param : Param → Bytes
flag_name_from_param p = if ltb 0 (length p.flag_name) then p.flag_name else p.name

-- An empty name is its own upper case, so that the slicings are legal.
unfoldable pub to_lower_camel_case : Bytes → Bytes
to_lower_camel_case name =
    if equal (to_upper name) name then to_lower name else to_lower (take 1 name) ++ drop 1 name

module _ (J : Jen) where
  open J use {Code, statement, op, word, bracket, id, dot, qual}

  unfoldable pub basic_golang_type_from_param : Param → Result Code
  basic_golang_type_from_param p =
      if equal p.type (codes "int")
      then ok (statement (if p.required then word int_word else qual maybe_package (codes "Int")))
      else if equal p.type (codes "float")
      then ok (
          statement
            (if p.required then word float64_word else qual maybe_package (codes "Float64")))
      else if equal p.type (codes "string")
      then ok
          (statement (if p.required then word string_word else qual maybe_package (codes "String")))
      else if equal p.type (codes "base32")
      then ok (
          statement (
            if p.required
            then op (codes "*") ∷ qual encoding_package (codes "Base32Value")
            else qual maybe_package (codes "Base32Value")))
      else if equal p.type (codes "ip")
      then ok (
          statement (
            if p.required
            then qual (codes "net") (codes "IP")
            else qual maybe_package (codes "IP")))
      else panic

  -- The ProcessFieldValueFunc of both modes.
  unfoldable pub process_basic_value : ValueFunc J
  process_basic_value (ctx, value) =
      let field = (ctx.content_var ∷ []) ++ dot [] ++ (ctx.field_info.field_name ∷ []) in
      if ctx.field_info.field_is_maybe
      then statement
          (field ++ dot [] ++ id (codes "Set") ++ bracket call_of (statement (value ∷ []) ∷ []))
      else statement (field ++ (op (codes "=") ∷ value ∷ []) ++ bracket call_of [])

  unfoldable pub compose_basic : Context → Result (FieldInfo J)
  compose_basic ctx = do
    field_type ← basic_golang_type_from_param ctx.param
    ok (record {
      field_name = statement (id ctx.param.name);
      field_type = field_type;
      field_is_maybe = not ctx.param.required;
      str_field_name = statement (id (to_lower_camel_case ctx.param.name ++ codes "Str"));
      str_is_singular = true;
      multiplicity = multiplicity_static;
      static_multiplicity = 1;
    })

  unfoldable pub available_base : ModeParserSpecBase J
  available_base = record {
    available = true;
    initialise_field_func = none;
    finalise_field_func = none;
  }

  unfoldable pub basic_mapper : Mapper J
  basic_mapper = record {
    name = codes "basic";
    compose_field_info_func = compose_basic;
    parser = record {
      positional = record {
        base = available_base;
        dynamic_process_cond_func = none;
        dynamic_process_cond_prepare_func = none;
        dynamic_process_cond_cleanup_func = none;
        process_field_value_func = some process_basic_value;
      };
      named = record {
        base = available_base;
        param_name_func = some (λ ctx. flag_name_from_param ctx.param);
        process_field_value_func = some process_basic_value;
      };
    };
  }
