-- ===== src/Generator/StructGenerator/Methods.antt =====
-- protocol/generator/struct_generator.go: the generated methods of a prepared message.
use mathlib.Core.List.{map}
use adcl.Prelude.{
  ℕ, suc, Bool, true, false, ◌≡◌, refl, ap, ◌∙◌, List, [], ◌∷◌, ◌++◌, codes, ok, if◌then◌else◌,
  length, ◌==◌, arith, Bool-cases, inl, inr, All,
}
use adcl.Generator.Jen.{Jen, Statement, Group, return_of, if_of, block_of, case_of, else_word}
use adcl.Generator.MessageModel.{Param, Message}
use adcl.Generator.MapperModel.{param_name, check_available}
use adcl.Generator.Mappers.{basic_mapper, available_base, flag_name_from_param, to_lower_camel_case}
use adcl.Generator.StructGenerator.{
  StructGenerator, prepare_names, selected, op_join, create_context,
}
use adcl.Generator.StructGenerator.Positionals.{
  positional_values, returned_values, generate_positional, generate_pos_len, out_of_range,
  numbered_cases, switch_with, generate_pos_at,
}
use adcl.Generator.StructGenerator.Params.{
  flag_name, flag_constants, generate_flag_constants, conditions, set_statement, named_statement,
  named_statements, value_statement, named_get_case, named_get_cases, return_pair,
}
use adcl.Generator.StructGenerator.Static.{IsFixed, static_methods}
use adcl.Generator.StructGenerator.Prepared.{basic_info, basic_infos, prepared}

module _ (J : Jen) where
  open J use {statement, id, dot, op, word, bracket, lit_int, lit_string}

  length-basic_infos : (ps : List Param) → length (basic_infos J ps) ≡ length ps
  length-basic_infos [] = refl
  length-basic_infos (p ∷ ps) = ap suc (length-basic_infos ps)

  basic_infos-IsFixed : (ps : List Param) → All (IsFixed J) (basic_infos J ps)
  basic_infos-IsFixed [] = tt
  basic_infos-IsFixed (p ∷ ps) = ((refl, λ h. refl), basic_infos-IsFixed ps)

  module _ (s : StructGenerator J) where
    -- The text field of a parameter of the receiver, and those of a list of parameters.
    abbrev pub text_field : Param → Statement J
    text_field p = selected J s (statement (id (to_lower_camel_case p.name ++ codes "Str")))

    abbrev pub text_fields : List Param → Group J
    text_fields [] = []
    text_fields (p ∷ ps) = text_field p ∷ text_fields ps

    positional_values-basic_infos :
        (ps : List Param) → positional_values J s (basic_infos J ps) ≡ text_fields ps
    unfolding positional_values
    positional_values-basic_infos [] = refl
    positional_values-basic_infos (p ∷ ps) =
        ap (◌∷◌ (text_field p)) (positional_values-basic_infos ps)

    length-text_fields : (ps : List Param) → length (text_fields ps) ≡ length ps
    length-text_fields [] = refl
    length-text_fields (p ∷ ps) = ap suc (length-text_fields ps)

  -- The three methods of a message prepared with the basic mapper agree: Positional returns the text fields of the
  -- positional parameters in their order, PosLen their number, and PosAt has for each index from
  -- 0 on a case that returns the field there, and panics otherwise.
  pub positional_methods :
      (m : Message)
      → (generate_positional J (prepared J m)
          ≡ ok (
              returned_values J (prepared J m) (text_fields (prepared J m) m.positional_params)
              ∷ []))
        × (generate_pos_len J (prepared J m)
            ≡ ok (
                bracket return_of
                  (statement (lit_int (length m.positional_params) ++ (statement [] ∷ [])) ∷ [])
                ∷ []))
        × (generate_pos_at J (prepared J m)
            ≡ ok (
                (if length m.positional_params == 0
                  then out_of_range J (prepared J m)
                  else switch_with J (prepared J m) (statement (id (codes "i")) ∷ []) (
                      numbered_cases J
                        (prepared J m)
                        0
                        (text_fields (prepared J m) m.positional_params)))
                ∷ []))
  unfolding prepare_names
  positional_methods m =
      let s = prepared J m in
      let ps = m.positional_params in
      let values = positional_values-basic_infos s ps in
      let (positional, len, at) = static_methods J s (basic_infos-IsFixed ps) in
      (
        positional ∙ ap (λ vs. ok (returned_values J s vs ∷ [])) values,
        len
            ∙ ap
                (λ n.
                  ok (bracket return_of (statement (lit_int n ++ (statement [] ∷ [])) ∷ []) ∷ []))
                (ap (λ vs. length vs) values ∙ length-text_fields s ps),
        at ∙ rw (values, length-basic_infos ps) refl,
      )

  module _ (s : StructGenerator J) where
    -- The guard of an optional parameter: `x.Name.IsSet`.
    abbrev pub set_guard : Param → List J.Code
    set_guard p = statement (selected J s (statement (id p.name)) ++ dot (codes "IsSet")) ∷ []

    -- The statement of Named for a parameter.
    abbrev pub guarded_set : Param → Statement J
    guarded_set p =
        if p.required
        then statement (set_statement J s (basic_info J p)) ∷ []
        else bracket if_of (set_guard p)
          ++ bracket block_of (statement (set_statement J s (basic_info J p)) ∷ [])

    -- The case of NamedGet for a parameter.
    abbrev pub guarded_get : Param → Statement J
    guarded_get p =
        bracket case_of (statement (id (s.flag_type_name ++ flag_name_from_param p)) ∷ [])
        ++ (if p.required
            then return_pair J s (value_statement J s (basic_info J p)) true
            else bracket if_of (set_guard p)
              ++ bracket block_of
                  (statement (return_pair J s (value_statement J s (basic_info J p)) true) ∷ [])
              ++ word else_word
              ++ bracket block_of (statement (return_pair J s (lit_string []) false) ∷ []))

    -- The constant of a parameter, which has the type at the index 0 only.
    abbrev pub flag_constant : Bool → Param → Statement J
    flag_constant typed p =
        id (s.flag_type_name ++ flag_name_from_param p)
        ++ (if typed then id s.flag_type_name else [])
        ++ (op (codes "=") ∷ [])
        ++ lit_string (flag_name_from_param p)

    abbrev pub typed_first : List Param → Group J
    typed_first [] = []
    typed_first (p ∷ ps) = flag_constant true p ∷ map (flag_constant false) ps

    flag_name-basic : (p : Param) → flag_name J s (basic_info J p) ≡ ok (flag_name_from_param p)
    unfolding flag_name param_name check_available basic_mapper available_base create_context
    flag_name-basic p = refl

    not_zero : (n : ℕ) → (suc n == 0) ≡ false
    not_zero n = ground arith

    flag_constants-basic :
        (ind : ℕ) (ps : List Param)
        → flag_constants J s (suc ind) (basic_infos J ps) ≡ ok (map (flag_constant false) ps)
    unfolding flag_constants
    flag_constants-basic ind [] = refl
    flag_constants-basic ind (p ∷ ps) =
        simp (flag_name-basic p, flag_constants-basic (suc ind) ps) (rw (not_zero ind) refl)

    flag_constants-first :
        (ps : List Param) → flag_constants J s 0 (basic_infos J ps) ≡ ok (typed_first ps)
    unfolding flag_constants
    flag_constants-first [] = refl
    flag_constants-first (p ∷ ps) = simp (flag_name-basic p, flag_constants-basic 0 ps) refl

    named_statement-basic : (p : Param) → named_statement J s (basic_info J p) ≡ guarded_set p
    unfolding named_statement conditions op_join
    named_statement-basic p = elim (Bool-cases p.required) [
      | inl needed ↦ rw needed refl
      | inr optional ↦ rw optional refl
    ]

    named_statements-basic :
        (ps : List Param) → named_statements J s (basic_infos J ps) ≡ map guarded_set ps
    unfolding named_statements
    named_statements-basic [] = refl
    named_statements-basic (p ∷ ps) = simp (named_statement-basic p, named_statements-basic ps) refl

    named_get_case-basic :
        (p : Param) → named_get_case J s (basic_info J p) (flag_name_from_param p) ≡ guarded_get p
    unfolding named_get_case conditions op_join
    named_get_case-basic p = elim (Bool-cases p.required) [
      | inl needed ↦ rw needed refl
      | inr optional ↦ rw optional refl
    ]

    named_get_cases-basic :
        (ps : List Param) → named_get_cases J s (basic_infos J ps) ≡ ok (map guarded_get ps)
    unfolding named_get_cases
    named_get_cases-basic [] = refl
    named_get_cases-basic (p ∷ ps) =
        simp (flag_name-basic p, named_get_cases-basic ps, named_get_case-basic p) refl

  -- For a message prepared with the basic mapper there is a constant for each named parameter, the
  -- first with the flag type; Named sets each of them, and NamedGet has a case for its constant, in the same order
  -- and under the same guard: that an optional parameter is set.
  pub named_methods :
      (m : Message)
      → (generate_flag_constants J (prepared J m) ≡ ok (typed_first (prepared J m) m.named_params))
        × (named_statements J (prepared J m) (prepared J m).named_params
            ≡ map (guarded_set (prepared J m)) m.named_params)
        × (named_get_cases J (prepared J m) (prepared J m).named_params
            ≡ ok (map (guarded_get (prepared J m)) m.named_params))
  unfolding generate_flag_constants prepare_names
  named_methods m = (
    flag_constants-first (prepared J m) m.named_params,
    named_statements-basic (prepared J m) m.named_params,
    named_get_cases-basic (prepared J m) m.named_params,
  )
