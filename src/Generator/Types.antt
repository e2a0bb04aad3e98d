-- ===== src/Generator/Types.antt =====
-- protocol/generator/types.go
pub mod Resolve
use adcl.Prelude.{
  ℕ, Bool, true, false, Bytes, List, [], ◌∷◌, codes, Option, none, some, Result, ok, err, ◌>>=◌,
  equal, if◌then◌else◌, length, ◌==◌, unknown_type_name, no_default_mapper, unknown_mapper_name,
}
use adcl.Generator.Jen.{Jen}
use adcl.Generator.MessageModel.{Param}
use adcl.Generator.MapperModel.{Mapper, TypeSpec}
use adcl.Generator.Mappers.{basic_mapper}

module _ (J : Jen) where
  -- The variables of the package differ in their names only.
  abbrev pub basic_type_spec : Bytes → TypeSpec J
  basic_type_spec name = record {
    name = name;
    mappers = basic_mapper J ∷ [];
    default_mapper = some (basic_mapper J);
  }

  abbrev pub int_type_spec : TypeSpec J
  int_type_spec = basic_type_spec (codes "int")

  abbrev pub float_type_spec : TypeSpec J
  float_type_spec = basic_type_spec (codes "float")

  abbrev pub string_type_spec : TypeSpec J
  string_type_spec = basic_type_spec (codes "string")

  abbrev pub base32_type_spec : TypeSpec J
  base32_type_spec = basic_type_spec (codes "base32")

  abbrev pub ip_type_spec : TypeSpec J
  ip_type_spec = basic_type_spec (codes "ip")

  unfoldable pub type_spec_from_name : Bytes → Result (TypeSpec J)
  type_spec_from_name name =
      if equal name (codes "int")
      then ok int_type_spec
      else if equal name (codes "float")
      then ok int_type_spec
      else if equal name (codes "string")
      then ok string_type_spec
      else if equal name (codes "base32")
      then ok base32_type_spec
      else if equal name (codes "ip")
      then ok ip_type_spec
      else err unknown_type_name

  -- The loop over the mappers of a type.
  unfoldable pub mapper_by_name : List (Mapper J) → Bytes → Result (Mapper J)
  mapper_by_name [] name = err unknown_mapper_name
  mapper_by_name (m ∷ ms) name =
      let later = mapper_by_name ms name in if equal m.name name then ok m else later

  unfoldable pub resolve_mapper_from_param : Param → Result (Mapper J)
  resolve_mapper_from_param p = do
    spec ← type_spec_from_name p.type
    if length p.mapper == 0
        then elim spec.default_mapper [ none ↦ err no_default_mapper | some m ↦ ok m ]
        else mapper_by_name spec.mappers p.mapper
