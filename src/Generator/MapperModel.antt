-- ===== src/Generator/MapperModel.antt =====
-- protocol/generator/mapper_model.go. A nil function or a nil code is `none`. What a function of a
-- mapper is given of the mapper and the type that it belongs to is their names: nothing else of
-- them is read through a context.
use adcl.Prelude.{
  ℕ, Bool, true, false, Bytes, List, [], ◌∷◌, ◌++◌, codes, Option, none, some, Result, ok, panic,
  ◌>>=◌,
}
use adcl.Stdlib.Strconv.{format_uint}
use adcl.Generator.Jen.{Jen, len_of}
use adcl.Generator.MessageModel.{Param}

pub data Multiplicity : Type 0 where
  multiplicity_static multiplicity_dynamic : Multiplicity
  other : (n : ℕ) → Multiplicity

unfoldable pub multiplicity_string : Multiplicity → Bytes
multiplicity_string multiplicity_static = codes "static"
multiplicity_string multiplicity_dynamic = codes "dynamic"
multiplicity_string (other n) = codes "Multiplicity(" ++ format_uint n ++ codes ")"

pub record Context : Type 0 where
  pub param : Param
  pub mapper_name : Bytes
  pub type_name : Bytes

module _ (J : Jen) where
  open J use {Code, statement, bracket, dot, lit_int}

  pub record FieldInfo : Type 0 where
    pub field_name : Code
    pub field_type : Code
    pub field_is_maybe : Bool
    pub str_field_name : Code
    pub str_is_singular : Bool
    pub multiplicity : Multiplicity
    pub static_multiplicity : ℕ

  pub record RenderingContext : Type 0 where
    pub context : Context
    pub content_var : Code
    pub field_info : FieldInfo
    pub error_var : Option Code
    pub error_check_func : Option (Code → Code)

  -- `ctx.FieldInfo` is the field info of the call's receiver in every call of the code.
  unfoldable pub dynamic_multiplicity : FieldInfo → RenderingContext → Result Code
  dynamic_multiplicity p ctx = elim p.multiplicity [
    | multiplicity_static ↦ ok (statement (lit_int p.static_multiplicity))
    | multiplicity_dynamic ↦ ok (
        statement (
          bracket len_of (
            statement ((ctx.content_var ∷ []) ++ dot [] ++ (ctx.field_info.str_field_name ∷ []))
            ∷ [])))
    | other n ↦ panic
  ]

  unfoldable pub error_check : RenderingContext → Code → Result Code
  error_check r error_var = elim r.error_check_func [ none ↦ panic | some f ↦ ok (f error_var) ]

  pub record ModeParserSpecBase : Type 0 where
    pub available : Bool
    pub initialise_field_func : Option (RenderingContext → Code)
    pub finalise_field_func : Option (RenderingContext → Code)

  unfoldable pub check_available : ModeParserSpecBase → Context → Result {0} Unit
  check_available m ctx = elim m.available [ true ↦ ok tt | false ↦ panic ]

  -- A function that may be left out: its absence is a nil code.
  abbrev pub when_given {ℓ} : {A : Type ℓ} → Option (A → Code) → A → Result (Option Code)
  when_given none a = ok none
  when_given (some f) a = ok (some (f a))

  unfoldable pub initialise_field : ModeParserSpecBase → RenderingContext → Result (Option Code)
  initialise_field m ctx =
      check_available m ctx.context >>= λ _. when_given m.initialise_field_func ctx

  unfoldable pub finalise_field : ModeParserSpecBase → RenderingContext → Result (Option Code)
  finalise_field m ctx = check_available m ctx.context >>= λ _. when_given m.finalise_field_func ctx

  abbrev pub ValueFunc : Type 0
  ValueFunc = RenderingContext × Code → Code

  pub record PositionalParserSpec : Type 0 where
    pub base : ModeParserSpecBase
    pub dynamic_process_cond_func : Option ValueFunc
    pub dynamic_process_cond_prepare_func : Option ValueFunc
    pub dynamic_process_cond_cleanup_func : Option ValueFunc
    pub process_field_value_func : Option ValueFunc

  unfoldable pub dynamic_process_cond : PositionalParserSpec → RenderingContext → Code → Result Code
  dynamic_process_cond p ctx value = do
    _ ← check_available p.base ctx.context
    elim p.dynamic_process_cond_func [ none ↦ panic | some f ↦ ok (f (ctx, value)) ]

  unfoldable pub dynamic_process_cond_prepare :
      PositionalParserSpec → RenderingContext → Code → Result (Option Code)
  dynamic_process_cond_prepare p ctx value = do
    _ ← check_available p.base ctx.context
    when_given p.dynamic_process_cond_prepare_func (ctx, value)

  unfoldable pub dynamic_process_cond_cleanup :
      PositionalParserSpec → RenderingContext → Code → Result (Option Code)
  dynamic_process_cond_cleanup p ctx value = do
    _ ← check_available p.base ctx.context
    when_given p.dynamic_process_cond_cleanup_func (ctx, value)

  unfoldable pub process_positional_value :
      PositionalParserSpec → RenderingContext → Code → Result (Option Code)
  process_positional_value p ctx value = do
    _ ← check_available p.base ctx.context
    when_given p.process_field_value_func (ctx, value)

  pub record NamedParserSpec : Type 0 where
    pub base : ModeParserSpecBase
    pub param_name_func : Option (Context → Bytes)
    pub process_field_value_func : Option ValueFunc

  unfoldable pub param_name : NamedParserSpec → Context → Result Bytes
  param_name n ctx = do
    _ ← check_available n.base ctx
    elim n.param_name_func [ none ↦ panic | some f ↦ ok (f ctx) ]

  unfoldable pub process_named_value :
      NamedParserSpec → RenderingContext → Code → Result (Option Code)
  process_named_value n ctx value = do
    _ ← check_available n.base ctx.context
    when_given n.process_field_value_func (ctx, value)

  pub record ParserSpec : Type 0 where
    pub positional : PositionalParserSpec
    pub named : NamedParserSpec

  -- The struct BuilderSpec has no fields, and a mapper's value of it is left out.
  pub record Mapper : Type 0 where
    pub name : Bytes
    pub compose_field_info_func : Context → Result FieldInfo
    pub parser : ParserSpec

  unfoldable pub compose_field_info : Mapper → Context → Result FieldInfo
  compose_field_info m ctx = m.compose_field_info_func ctx

  pub record TypeSpec : Type 0 where
    pub name : Bytes
    pub mappers : List Mapper
    pub default_mapper : Option Mapper
