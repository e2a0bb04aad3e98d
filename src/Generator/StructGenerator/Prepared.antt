-- ===== src/Generator/StructGenerator/Prepared.antt =====
-- protocol/generator/struct_generator.go: what the preparation makes of the parameters.
use adcl.Prelude.{
  true, not, ◌≡◌, refl, List, [], ◌∷◌, ◌++◌, codes, Option, none, some, ok, err, arith, Error,
  Bool-cases, Option-cases, inl, inr,
}
use adcl.Generator.Jen.{Jen}
use adcl.Generator.MessageModel.{Param, Message}
use adcl.Generator.MapperModel.{FieldInfo, multiplicity_static, compose_field_info}
use adcl.Generator.Mappers.{
  basic_mapper, basic_golang_type_from_param, compose_basic, to_lower_camel_case,
}
use adcl.Generator.Types.{basic_type_spec}
use adcl.Generator.Types.Resolve.{
  is_type_name, is_mapper_name, resolved_name, fault, type_spec_from_name_lem,
  resolve_mapper_from_param_lem,
}
use adcl.Generator.StructGenerator.{
  ParamInfo, StructGenerator, new_struct_generator, prepare_param, prepare_params, prepare_names,
  prepare_named, prepare_positional, prepare,
}

-- The first fault among the parameters.
abbrev pub first_fault : List Param → Option Error
first_fault [] = none
first_fault (p ∷ ps) = elim (fault p) [ some e ↦ some e | none ↦ first_fault ps ]

module _ (J : Jen) where
  open J use {statement, id, dot, word, qual, op}

  -- The Go type of a parameter of a known type.
  abbrev golang_type : Param → J.Code
  golang_type p = elim (basic_golang_type_from_param J p) [ ok c ↦ c | _ ↦ statement [] ]

  basic_golang_type_lem :
      (p : Param)
      → is_type_name p.type ≡ true
      → basic_golang_type_from_param J p ≡ ok (golang_type p)
  unfolding basic_golang_type_from_param
  basic_golang_type_lem p h = ground arith

  -- What the preparation makes of a parameter without a fault: one text field, named after it.
  abbrev pub basic_field : Param → FieldInfo J
  basic_field p = record {
    field_name = statement (id p.name);
    field_type = golang_type p;
    field_is_maybe = not p.required;
    str_field_name = statement (id (to_lower_camel_case p.name ++ codes "Str"));
    str_is_singular = true;
    multiplicity = multiplicity_static;
    static_multiplicity = 1;
  }

  abbrev pub basic_info : Param → ParamInfo J
  basic_info p = record {
    param = p;
    mapper = basic_mapper J;
    type_spec = basic_type_spec J (resolved_name p.type);
    field_info = basic_field p;
  }

  abbrev pub basic_infos : List Param → List (ParamInfo J)
  basic_infos [] = []
  basic_infos (p ∷ ps) = basic_info p ∷ basic_infos ps

  prepare_param_lem :
      (p : Param) → prepare_param J p ≡ elim (fault p) [ none ↦ ok (basic_info p) | some e ↦ err e ]
  unfolding prepare_param compose_field_info basic_mapper compose_basic
  prepare_param_lem p = elim (Bool-cases (is_type_name p.type)) [
    | inl known ↦ elim (Bool-cases (is_mapper_name p.mapper)) [
      | inl mapped ↦
          rw
            (
              type_spec_from_name_lem J p.type,
              known,
              resolve_mapper_from_param_lem J p,
              known,
              mapped,
              basic_golang_type_lem p known,
            )
            refl
      | inr unmapped ↦
          rw
            (
              type_spec_from_name_lem J p.type,
              known,
              resolve_mapper_from_param_lem J p,
              known,
              unmapped,
            )
            refl
    ]
    | inr other ↦ rw (type_spec_from_name_lem J p.type, other) refl
  ]

  -- The parameters are prepared with the basic mapper, in their order, or the first fault among
  -- them is the error.
  pub prepare_params_lem :
      (ps : List Param)
      → prepare_params J ps ≡ elim (first_fault ps) [ none ↦ ok (basic_infos ps) | some e ↦ err e ]
  unfolding prepare_params
  prepare_params_lem [] = refl
  prepare_params_lem (p ∷ ps) = elim (Option-cases (fault p)) [
    | inl none_here ↦
        rw (prepare_param_lem p, none_here, prepare_params_lem ps)
          (elim (Option-cases (first_fault ps)) [
            | inl none_left ↦ rw none_left refl
            | inr (e, later) ↦ rw later refl
          ])
    | inr (e, here) ↦ rw (prepare_param_lem p, here) refl
  ]

  -- The generator of a message without faults, when it is prepared.
  abbrev pub prepared : Message → StructGenerator J
  prepared m = prepare_names J (record (new_struct_generator J m) {
    positional_params = basic_infos m.positional_params;
    named_params = basic_infos m.named_params;
  })

  -- A message whose parameters have no fault is prepared, with the basic mapper for each.
  pub prepare-prepared :
      (m : Message)
      → first_fault m.positional_params ≡ none
      → first_fault m.named_params ≡ none
      → prepare J (new_struct_generator J m) ≡ (ok tt, prepared m)
  unfolding prepare prepare_positional prepare_named new_struct_generator prepare_names
  prepare-prepared m hp hn =
      rw (prepare_params_lem m.positional_params, hp, prepare_params_lem m.named_params, hn) refl

  -- Any other message is refused with its first fault, a positional parameter's before a named
  -- one's.
  pub prepare-fault :
      (m : Message) (e : Error)
      → elim (first_fault m.positional_params) [
        | some f ↦ some f
        | none ↦ first_fault m.named_params
      ]
        ≡ some e
      → (prepare J (new_struct_generator J m)).0 ≡ err e
  unfolding prepare prepare_positional prepare_named new_struct_generator
  prepare-fault m e h = elim (Option-cases (first_fault m.positional_params)) [
    | inl fine ↦
        rw (prepare_params_lem m.positional_params, fine, prepare_params_lem m.named_params)
          (rw (rw fine at h) refl)
    | inr (f, fault_here) ↦
        rw (prepare_params_lem m.positional_params, fault_here) (cc (rw fault_here at h))
  ]
