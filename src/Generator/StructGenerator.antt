-- ===== src/Generator/StructGenerator.antt =====
-- protocol/generator/struct_generator.go: the struct, its preparation, and the contexts.
pub mod Positionals
pub mod Static
pub mod Params
pub mod File
pub mod Prepared
pub mod Methods
pub mod Total
pub mod Meaning
pub mod Lengths
pub mod Texts
use adcl.Prelude.{
  ℕ, Bool, true, false, Bytes, List, [], ◌∷◌, ◌++◌, codes, Option, none, some, Result, ok, err,
  panic, ◌>>=◌, take, drop, length, slice_to,
}
use adcl.Stdlib.Strings.{to_lower}
use adcl.Generator.Jen.{Jen, Statement}
use adcl.Generator.MessageModel.{Param, Message}
use adcl.Generator.MapperModel.{
  Context, FieldInfo, RenderingContext, Mapper, TypeSpec, compose_field_info,
}
use adcl.Generator.Types.{type_spec_from_name, resolve_mapper_from_param}

-- `codes[:len(codes)-1]`; every call is on a list that is not empty.
abbrev pub drop_last {ℓ} : {A : Type ℓ} → List A → List A
drop_last [] = []
drop_last (x ∷ []) = []
drop_last (x ∷ y ∷ ys) = x ∷ drop_last (y ∷ ys)

module _ (J : Jen) where
  open J use {Code, statement, op, id}

  pub record ParamInfo : Type 0 where
    pub param : Param
    pub mapper : Mapper J
    pub type_spec : TypeSpec J
    pub field_info : FieldInfo J

  pub record StructGenerator : Type 0 where
    pub message : Message
    pub type_name : Bytes
    pub type_letter : Bytes
    pub flag_type_name : Bytes
    pub positional_params : List ParamInfo
    pub named_params : List ParamInfo

  unfoldable pub new_struct_generator : Message → StructGenerator
  new_struct_generator message = record {
    message = message;
    type_name = [];
    type_letter = [];
    flag_type_name = [];
    positional_params = [];
    named_params = [];
  }

  -- One round of the loop of prepareParams. An error is wrapped with a text; its cause is kept.
  unfoldable pub prepare_param : Param → Result ParamInfo
  prepare_param param = do
    spec ← type_spec_from_name J param.type
    mapper ← resolve_mapper_from_param J param
    info ←
        compose_field_info J mapper
          (record { param = param; mapper_name = mapper.name; type_name = spec.name })
    ok (record { param = param; mapper = mapper; type_spec = spec; field_info = info })

  unfoldable pub prepare_params : List Param → Result (List ParamInfo)
  prepare_params [] = ok []
  prepare_params (param ∷ params) = do
    info ← prepare_param param
    infos ← prepare_params params
    ok (info ∷ infos)

  -- The names. The type name is not empty, so that slicing it is legal.
  unfoldable pub prepare_names : StructGenerator → StructGenerator
  prepare_names s =
      let type_name = s.message.command ++ codes "Content" in
      record s {
        type_name = type_name;
        type_letter = to_lower (take 1 type_name);
        flag_type_name = s.message.command ++ codes "Flag";
      }

  unfoldable pub prepare_named :
      StructGenerator → Result (List ParamInfo) → Result {0} Unit × StructGenerator
  prepare_named s (ok infos) = (ok tt, prepare_names (record s { named_params = infos }))
  prepare_named s (err e) = (err e, record s { named_params = [] })
  prepare_named s panic = (panic, s)

  unfoldable pub prepare_positional :
      StructGenerator → Result (List ParamInfo) → Result {0} Unit × StructGenerator
  prepare_positional s (ok infos) =
      prepare_named (record s { positional_params = infos }) (prepare_params s.message.named_params)
  prepare_positional s (err e) = (err e, record s { positional_params = [] })
  prepare_positional s panic = (panic, s)

  unfoldable pub prepare : StructGenerator → Result {0} Unit × StructGenerator
  prepare s = prepare_positional s (prepare_params s.message.positional_params)

  -- The statement is the list joined by the operator: each code with the operator behind it, and
  -- the last operator cut off.
  abbrev pub with_op : Bytes → List Code → List Code
  with_op o [] = []
  with_op o (c ∷ cs) = c ∷ op o ∷ with_op o cs

  unfoldable pub op_join : Bytes → List Code → List Code
  op_join o cs = drop_last (with_op o cs)

  unfoldable pub create_context : ParamInfo → Context
  create_context p = record {
    param = p.param;
    mapper_name = p.mapper.name;
    type_name = p.type_spec.name;
  }

  unfoldable pub create_rendering_context : StructGenerator → ParamInfo → RenderingContext J
  unfolding create_context
  create_rendering_context s p = record {
    context = create_context p;
    content_var = statement (id s.type_letter);
    field_info = p.field_info;
    error_var = none;
    error_check_func = none;
  }

  -- `jen.Id(s.typeLetter).Dot("").Add(c)`
  abbrev pub selected : StructGenerator → Code → List Code
  selected s c = id s.type_letter ++ J.dot [] ++ (c ∷ [])
