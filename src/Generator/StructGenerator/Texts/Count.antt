-- ===== src/Generator/StructGenerator/Texts/Count.antt =====
-- protocol/generator/struct_generator.go: the generated Positional and the generated PosLen.
use adcl.Prelude.{
  ℕ, zero, suc, ◌≤◌, ◌≡◌, refl, ap, ◌∙◌, sym, Bytes, List, [], ◌∷◌, ◌++◌, ok, length, length-append,
  All, Bool-cases, inl, inr, arith,
}
use adcl.Generator.Jen.{Jen, Group, return_of, len_of}
use adcl.Generator.StructGenerator.{ParamInfo, StructGenerator}
use adcl.Generator.StructGenerator.Positionals.{is_static, generate_positional, generate_pos_len}
use adcl.Generator.StructGenerator.Lengths.{
  Sums, AllKnown, multiplicity_value, total, generate_pos_len-total,
}
use adcl.Generator.StructGenerator.Texts.{Texts, joined, first_texts, texts, all_texts}
use adcl.Generator.StructGenerator.Texts.Written.{
  IsFilled, IsTyped-IsFilled, generate_positional-texts,
}

first_texts-enough :
    (n : ℕ) (xs : List Bytes)
    → n ≤ length xs
    → (ys : List Bytes) × (first_texts n xs ≡ ok ys) × (length ys ≡ n)
first_texts-enough zero xs h = ([], refl, refl)
first_texts-enough (suc n) [] h = absurd (omega arith)
first_texts-enough (suc n) (x ∷ xs) h =
    let (ys, run, same) = first_texts-enough n xs (omega arith) in
    (x ∷ ys, rw run refl, ap suc same)

module _ (J : Jen) (s : StructGenerator J) (T : Texts J s.type_letter) (S : Sums J) where
  -- `len(x.c)` is the number of the texts of the field.
  abbrev pub IsMeasured : Type 0
  IsMeasured =
      (c : J.Code)
      → S.value (
          J.bracket len_of
            (J.statement (J.statement (J.id s.type_letter) ∷ (J.dot [] ++ (c ∷ []))) ∷ []))
        ≡ length (T.fields c)

  module _ (measured : IsMeasured) where
    texts-IsFilled :
        (p : ParamInfo J)
        → IsFilled J s T p
        → (xs : List Bytes) × (texts J s T p ≡ ok xs) × (length xs ≡ multiplicity_value J S s p)
    texts-IsFilled p (known, single, enough) = elim (Bool-cases p.field_info.str_is_singular) [
      | inl one ↦
          let (static, count) = single one in
          (T.field p.field_info.str_field_name ∷ [], simp one refl, simp static (sym count))
      | inr list ↦ elim (Bool-cases (is_static p.field_info.multiplicity)) [
        | inl static ↦
            let (ys, run, same) =
              first_texts-enough p.field_info.static_multiplicity
                (T.fields p.field_info.str_field_name) (enough static list) in
            (ys, simp (list, static) run, simp static same)
        | inr dynamic ↦ (
          T.fields p.field_info.str_field_name,
          simp (list, dynamic) refl,
          simp dynamic (sym (measured p.field_info.str_field_name)),
        )
      ]
    ]

    all_texts-IsFilled :
        (ps : List (ParamInfo J))
        → All (IsFilled J s T) ps
        → (xs : List Bytes) × (all_texts J s T ps ≡ ok xs) × (length xs ≡ total J S s ps)
    all_texts-IsFilled [] h = ([], refl, refl)
    all_texts-IsFilled (p ∷ ps) (h, hs) =
        let (xs, run, same) = texts-IsFilled p h in
        let (ys, run', same') = all_texts-IsFilled ps hs in
        (
          xs ++ ys,
          ap (λ r. joined r (all_texts J s T ps)) run ∙ ap (joined (ok xs)) run',
          length-append xs ys ∙ omega (arith, same, same'),
        )

    AllKnown-IsFilled : (ps : List (ParamInfo J)) → All (IsFilled J s T) ps → AllKnown J S s ps
    AllKnown-IsFilled [] h = tt
    AllKnown-IsFilled (p ∷ ps) ((known, single, enough), hs) = (known, AllKnown-IsFilled ps hs)

    -- The generated Positional returns without a panic, and the generated PosLen returns the number
    -- of the texts that it gives, for parameters of any mixture of multiplicities: each is one of
    -- the constants, a field of one text belongs to a parameter of the static multiplicity one, and
    -- that of another static multiplicity has as many texts at least. The codes have the meaning of
    -- Go, in which `len` of a field is the number of its texts.
    pub generate_positional-generate_pos_len :
        All (IsFilled J s T) s.positional_params
        → (g : Group J) × (e : List J.Code) × (xs : List Bytes) × (generate_positional J s ≡ ok g)
          × (generate_pos_len J s ≡ ok (J.bracket return_of (J.statement e ∷ []) ∷ []))
          × (T.body g ≡ ok xs)
          × (S.value e ≡ length xs)
    generate_positional-generate_pos_len h =
        let ps = s.positional_params in
        let (g, made, gives) = generate_positional-texts J s T (IsTyped-IsFilled J s T ps h) in
        let (e, sum, value) = generate_pos_len-total J S s (AllKnown-IsFilled ps h) in
        let (xs, all, same) = all_texts-IsFilled ps h in
        (g, e, xs, made, sum, gives ∙ all, value ∙ sym same)
