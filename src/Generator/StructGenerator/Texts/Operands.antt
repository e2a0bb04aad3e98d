-- ===== src/Generator/StructGenerator/Texts/Operands.antt =====
-- protocol/generator/struct_generator.go: the operands that the generator writes for Positional.
use adcl.Prelude.{
  ℕ, zero, suc, ◌≡◌, refl, ap, ◌∙◌, sym, true, List, [], ◌∷◌, ◌++◌, codes, ok, if◌then◌else◌,
  length, ◌≤◌, Bool-cases, inl, inr, arith,
}
use adcl.Generator.Jen.{Jen, Group, codes_of}
use adcl.Generator.StructGenerator.{ParamInfo, StructGenerator, selected}
use adcl.Generator.StructGenerator.Positionals.{
  is_static, count_static, indexed, positional_values, append_param,
}
use adcl.Generator.StructGenerator.Texts.{
  Texts, operands, appending, joined, joined-nil, joined_nil, joined_assoc, first_texts, each_from,
  each_from-behind, texts, all_texts,
}

module _ (J : Jen) (s : StructGenerator J) (T : Texts J s.type_letter) where
  open T use {field, fields, operand}

  operands-append :
      (cs ds : List J.Code)
      → operands J operand (cs ++ ds) ≡ joined (operands J operand cs) (operands J operand ds)
  operands-append [] ds = sym (joined-nil (operands J operand ds))
  operands-append (c ∷ cs) ds =
      ap (joined (operand c)) (operands-append cs ds)
      ∙ sym (joined_assoc (operand c) (operands J operand cs) (operands J operand ds))

  codes_of-append : (g h : Group J) → codes_of J (g ++ h) ≡ codes_of J g ++ codes_of J h
  codes_of-append [] h = refl
  codes_of-append (b ∷ g) h = ap (λ cs. J.statement b ∷ cs) (codes_of-append g h)

  operands-indexed :
      (c : J.Code) (i n : ℕ)
      → operands J operand (codes_of J (indexed J s c i n)) ≡ each_from (fields c) i n
  unfolding indexed
  operands-indexed c i zero = refl
  operands-indexed c i (suc n) = rw (T.operand-index c i, operands-indexed c (suc i) n) refl

  operands-fields :
      (c : J.Code) (n : ℕ)
      → operands J operand (codes_of J (indexed J s c 0 n)) ≡ first_texts n (fields c)
  operands-fields c n = operands-indexed c 0 n ∙ each_from-behind [] (fields c) n

  operands-field :
      (c : J.Code) → operands J operand (J.statement (selected J s c) ∷ []) ≡ ok (field c ∷ [])
  operands-field c = joined_nil (operand (J.statement (selected J s c))) ∙ T.operand-field c

  pub count_static_le : (ps : List (ParamInfo J)) → count_static J ps ≤ length ps
  unfolding count_static
  count_static_le [] = omega arith
  count_static_le (p ∷ ps) = elim (Bool-cases (is_static p.field_info.multiplicity)) [
    | inl static ↦ simp static (omega (arith, count_static_le ps))
    | inr other ↦ simp other (omega (arith, count_static_le ps))
  ]

  pub all_static :
      (p : ParamInfo J) (ps : List (ParamInfo J))
      → count_static J (p ∷ ps) ≡ length (p ∷ ps)
      → (is_static p.field_info.multiplicity ≡ true) × (count_static J ps ≡ length ps)
  unfolding count_static
  all_static p ps h = elim (Bool-cases (is_static p.field_info.multiplicity)) [
    | inl static ↦ let e = simp static at h in (static, omega (arith, e))
    | inr other ↦ let e = simp other at h in absurd (omega (arith, e, count_static_le ps))
  ]

  -- The operands for a parameter of a static multiplicity.
  operands-static :
      (p : ParamInfo J)
      → is_static p.field_info.multiplicity ≡ true
      → operands J operand (
          codes_of J (
            if p.field_info.str_is_singular
            then selected J s p.field_info.str_field_name ∷ []
            else indexed J s p.field_info.str_field_name 0 p.field_info.static_multiplicity))
        ≡ texts J s T p
  operands-static p static = elim (Bool-cases p.field_info.str_is_singular) [
    | inl single ↦ simp single (operands-field p.field_info.str_field_name)
    | inr list ↦
        simp (list, static)
          (operands-fields p.field_info.str_field_name p.field_info.static_multiplicity)
  ]

  -- The literal of the texts, where all multiplicities are static.
  pub operands-positional_values :
      (ps : List (ParamInfo J))
      → count_static J ps ≡ length ps
      → operands J operand (codes_of J (positional_values J s ps)) ≡ all_texts J s T ps
  unfolding positional_values
  operands-positional_values [] h = refl
  operands-positional_values (p ∷ ps) h =
      let (static, rest) = all_static p ps h in
      let own =
        if p.field_info.str_is_singular
        then selected J s p.field_info.str_field_name ∷ []
        else indexed J s p.field_info.str_field_name 0 p.field_info.static_multiplicity in
      ap (operands J operand) (codes_of-append own (positional_values J s ps))
      ∙ operands-append (codes_of J own) (codes_of J (positional_values J s ps))
      ∙ ap (λ r. joined r (operands J operand (codes_of J (positional_values J s ps))))
          (operands-static p static)
      ∙ ap (joined (texts J s T p)) (operands-positional_values ps rest)

  -- The arguments behind `positionals` in the call of append.
  pub appended : ParamInfo J → List J.Code
  appended p =
      if p.field_info.str_is_singular
      then J.statement (selected J s p.field_info.str_field_name) ∷ []
      else if is_static p.field_info.multiplicity
      then codes_of J (indexed J s p.field_info.str_field_name 0 p.field_info.static_multiplicity)
      else J.statement (selected J s p.field_info.str_field_name ++ (J.op (codes "...") ∷ [])) ∷ []

  pub append_param-appended : (p : ParamInfo J) → append_param J s p ≡ appending J (appended p)
  unfolding append_param appended
  append_param-appended p = elim (Bool-cases p.field_info.str_is_singular) [
    | inl single ↦ simp single refl
    | inr list ↦ elim (Bool-cases (is_static p.field_info.multiplicity)) [
      | inl static ↦ simp (list, static) refl
      | inr dynamic ↦ simp (list, dynamic) refl
    ]
  ]

  pub operands-appended : (p : ParamInfo J) → operands J operand (appended p) ≡ texts J s T p
  unfolding appended
  operands-appended p = elim (Bool-cases p.field_info.str_is_singular) [
    | inl single ↦ simp single (operands-field p.field_info.str_field_name)
    | inr list ↦ elim (Bool-cases (is_static p.field_info.multiplicity)) [
      | inl static ↦
          simp (list, static)
            (operands-fields p.field_info.str_field_name p.field_info.static_multiplicity)
      | inr dynamic ↦
          simp (list, dynamic)
            (joined_nil (
                operand (
                  J.statement
                    (selected J s p.field_info.str_field_name ++ (J.op (codes "...") ∷ []))))
              ∙ T.operand-spread p.field_info.str_field_name)
    ]
  ]
