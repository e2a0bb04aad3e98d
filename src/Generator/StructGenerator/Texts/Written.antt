-- ===== src/Generator/StructGenerator/Texts/Written.antt =====
-- protocol/generator/struct_generator.go: the generated Positional gives the texts.
use adcl.Prelude.{
  ◌≡◌, refl, ap, ◌∙◌, sym, true, ◌&&◌, ◌≤◌, false, Bytes, List, [], ◌∷◌, ◌++◌, append-nil, Result,
  ok, err, panic, ◌>>=◌, length, All, Bool-cases, inl, inr, ◌==◌, arith,
}
use adcl.Generator.StructGenerator.Lengths.{is_known}
use adcl.Generator.Jen.{Jen, Group, codes_of, return_of}
use adcl.Generator.StructGenerator.{ParamInfo, StructGenerator, selected}
use adcl.Generator.StructGenerator.Positionals.{
  is_static, count_static, positional_values, append_param, append_params, only_str_field,
  generate_positional,
}
use adcl.Generator.StructGenerator.Texts.{
  Texts, run_all, IsAppending, joined, joined-nil, joined_nil, joined_assoc, texts, all_texts,
}
use adcl.Generator.StructGenerator.Texts.Operands.{
  operands-positional_values, appended, append_param-appended, operands-appended,
}

module _ (J : Jen) (s : StructGenerator J) (T : Texts J s.type_letter) where
  open T use {fields, operand, run, body}

  run-append_param :
      (p : ParamInfo J) (acc : List Bytes)
      → run (append_param J s p) acc ≡ joined (ok acc) (texts J s T p)
  run-append_param p acc =
      ap (λ b. run b acc) (append_param-appended J s T p)
      ∙ T.run-append (appended J s T p) acc
      ∙ ap (joined (ok acc)) (operands-appended J s T p)

  run_all_behind :
      (bs : Group J) (acc : List Bytes) (r q : Result (List Bytes))
      → ((xs : List Bytes) → run_all J run bs xs ≡ joined (ok xs) q)
      → (joined (ok acc) r >>= run_all J run bs) ≡ joined (ok acc) (joined r q)
  run_all_behind bs acc (ok xs) q h = h (acc ++ xs) ∙ joined_assoc (ok acc) (ok xs) q
  run_all_behind bs acc (err e) q h = refl
  run_all_behind bs acc panic q h = refl

  run_all-append_params :
      (ps : List (ParamInfo J)) (acc : List Bytes)
      → run_all J run (append_params J s ps) acc ≡ joined (ok acc) (all_texts J s T ps)
  unfolding append_params
  run_all-append_params [] acc = ap (λ xs. ok xs) (sym (append-nil acc))
  run_all-append_params (p ∷ ps) acc = rw (run-append_param p acc) (
      run_all_behind (append_params J s ps) acc (texts J s T p) (all_texts J s T ps)
        (run_all-append_params ps))

  append_params-IsAppending : (ps : List (ParamInfo J)) → All (IsAppending J) (append_params J s ps)
  unfolding append_params
  append_params-IsAppending [] = tt
  append_params-IsAppending (p ∷ ps) =
      ((appended J s T p, append_param-appended J s T p), append_params-IsAppending ps)

  -- A field of one text belongs to a parameter of a static multiplicity.
  abbrev pub IsTyped : ParamInfo J → Type 0
  IsTyped p = p.field_info.str_is_singular ≡ true → is_static p.field_info.multiplicity ≡ true

  -- The multiplicity is one of the constants. A field of one text belongs to a parameter of the
  -- static multiplicity one, and that of another static multiplicity has as many texts at least.
  abbrev pub IsFilled : ParamInfo J → Type 0
  IsFilled p =
      (is_known p.field_info.multiplicity ≡ true)
      × (p.field_info.str_is_singular ≡ true
          → (is_static p.field_info.multiplicity ≡ true) × (p.field_info.static_multiplicity ≡ 1))
      × (is_static p.field_info.multiplicity ≡ true
          → p.field_info.str_is_singular ≡ false
          → p.field_info.static_multiplicity ≤ length (T.fields p.field_info.str_field_name))

  pub IsTyped-IsFilled : (ps : List (ParamInfo J)) → All IsFilled ps → All IsTyped ps
  IsTyped-IsFilled [] h = tt
  IsTyped-IsFilled (p ∷ ps) ((known, single, enough), hs) =
      (λ one. (single one).0, IsTyped-IsFilled ps hs)

  pub texts_dynamic :
      (p : ParamInfo J)
      → IsTyped p
      → count_static J (p ∷ []) ≡ 0
      → texts J s T p ≡ ok (fields p.field_info.str_field_name)
  unfolding count_static
  texts_dynamic p typed h = elim (Bool-cases (is_static p.field_info.multiplicity)) [
    | inl static ↦ absurd (omega (arith, simp static at h))
    | inr dynamic ↦ elim (Bool-cases p.field_info.str_is_singular) [
      | inl single ↦ absurd (cc (typed single, dynamic))
      | inr list ↦ simp (list, dynamic) refl
    ]
  ]

  only_field :
      (p : ParamInfo J)
      → IsTyped p
      → count_static J (p ∷ []) ≡ 0
      → body
          (J.bracket return_of (J.statement (selected J s p.field_info.str_field_name) ∷ []) ∷ [])
        ≡ all_texts J s T (p ∷ [])
  only_field p typed h =
      T.body-field p.field_info.str_field_name
      ∙ sym (joined_nil (texts J s T p) ∙ texts_dynamic p typed h)

  -- The branch for a single parameter of a dynamic multiplicity.
  single_body :
      (ps : List (ParamInfo J))
      → All IsTyped ps
      → (count_static J ps == 0 && length ps == 1) ≡ true
      → (g : Group J) × ((only_str_field J s ps >>= λ f.
            ok (J.bracket return_of (J.statement f ∷ []) ∷ []))
          ≡ ok g)
        × (body g ≡ all_texts J s T ps)
  single_body [] typed h = absurd (ground arith)
  single_body (p ∷ []) (typed, rest) h = (_, refl, only_field p typed (ground arith))
  single_body (p ∷ q ∷ ps) typed h = absurd (ground arith)

  -- The generated body of Positional gives the texts of all parameters, in their order, whatever
  -- mixture of multiplicities they have; it panics where a field has fewer texts than its static
  -- multiplicity. A field of one text belongs to a parameter of a static multiplicity, and the codes
  -- have the meaning of Go.
  pub generate_positional-texts :
      All IsTyped s.positional_params
      → (g : Group J) × (generate_positional J s ≡ ok g)
        × (body g ≡ all_texts J s T s.positional_params)
  unfolding generate_positional
  generate_positional-texts typed =
      let ps = s.positional_params in
      elim (Bool-cases (count_static J ps == length ps)) [
        | inl all ↦ (
          _,
          rw all refl,
          T.body-literal (codes_of J (positional_values J s ps))
              ∙ operands-positional_values J s T ps (ground arith),
        )
        | inr some_dynamic ↦ elim (Bool-cases (count_static J ps == 0 && length ps == 1)) [
          | inl single ↦
              let (g, made, same) = single_body ps typed single in
              (g, rw (some_dynamic, single) made, same)
          | inr mixed ↦ (
            _,
            rw (some_dynamic, mixed) refl,
            T.body-make (append_params J s ps) (append_params-IsAppending ps)
                ∙ run_all-append_params ps []
                ∙ joined-nil (all_texts J s T ps),
          )
        ]
      ]
