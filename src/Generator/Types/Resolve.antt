-- ===== src/Generator/Types/Resolve.antt =====
-- protocol/generator/types.go: which names of types and of mappers are known.
use adcl.Prelude.{
  Bool, not, ◌||◌, ◌≡◌, refl, Bytes, [], ◌∷◌, codes, Option, none, some, ok, err, equal,
  if◌then◌else◌, length, equal_iff, ◌==◌, unknown_type_name, unknown_mapper_name, arith, Error,
  Bool-cases, inl, inr,
}
use adcl.Generator.Jen.{Jen}
use adcl.Generator.MessageModel.{Param}
use adcl.Generator.Mappers.{basic_mapper}
use adcl.Generator.Types.{
  basic_type_spec, type_spec_from_name, mapper_by_name, resolve_mapper_from_param,
}

-- The names of the logical types.
abbrev pub is_type_name : Bytes → Bool
is_type_name name =
    equal name (codes "int")
    || equal name (codes "float")
    || equal name (codes "string")
    || equal name (codes "base32")
    || equal name (codes "ip")

-- The name of the type that a name stands for.
abbrev pub resolved_name : Bytes → Bytes
resolved_name name = if equal name (codes "float") then codes "int" else name

-- The default mapper, or the one mapper there is.
abbrev pub is_mapper_name : Bytes → Bool
is_mapper_name name = length name == 0 || equal (codes "basic") name

-- What is wrong with a parameter, if anything.
abbrev pub fault : Param → Option Error
fault p =
    if not (is_type_name p.type)
    then some unknown_type_name
    else if not (is_mapper_name p.mapper)
    then some unknown_mapper_name
    else none

module _ (J : Jen) where
  -- Exactly the five names are known, and each stands for the type of its name, but "float" for
  -- "int".
  pub type_spec_from_name_lem :
      (name : Bytes)
      → type_spec_from_name J name ≡ (
          if is_type_name name
          then ok (basic_type_spec J (resolved_name name))
          else err unknown_type_name)
  unfolding type_spec_from_name
  type_spec_from_name_lem name = ground (
    arith,
    equal_iff name (codes "int"),
    equal_iff name (codes "float"),
    equal_iff name (codes "string"),
    equal_iff name (codes "base32"),
    equal_iff name (codes "ip"),
  )

  mapper_by_name-basic :
      (name : Bytes)
      → mapper_by_name J (basic_mapper J ∷ []) name
        ≡ (if equal (codes "basic") name then ok (basic_mapper J) else err unknown_mapper_name)
  unfolding mapper_by_name basic_mapper
  mapper_by_name-basic name = refl

  -- A parameter of a known type has the basic mapper, by default or by its name; another name of
  -- a mapper is an error, and so is a type that is not known.
  pub resolve_mapper_from_param_lem :
      (p : Param)
      → resolve_mapper_from_param J p
        ≡ elim (fault p) [ none ↦ ok (basic_mapper J) | some e ↦ err e ]
  unfolding resolve_mapper_from_param
  resolve_mapper_from_param_lem p = elim (Bool-cases (is_type_name p.type)) [
    | inl known ↦
        rw (type_spec_from_name_lem p.type, known, mapper_by_name-basic p.mapper) (ground arith)
    | inr other ↦ rw (type_spec_from_name_lem p.type, other) refl
  ]
