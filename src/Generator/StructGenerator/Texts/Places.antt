-- ===== src/Generator/StructGenerator/Texts/Places.antt =====
-- protocol/generator/struct_generator.go: the texts of the operands for Positional, one by one.
use adcl.Prelude.{
  ℕ, zero, suc, ◌≤◌, ◌≡◌, refl, ap, ◌∙◌, sym, true, Bytes, List, [], ◌∷◌, ◌++◌, append_assoc,
  length-append, ok, length, All, Bool-cases, inl, inr, arith,
}
use adcl.Generator.Jen.{Jen, Group}
use adcl.Generator.StructGenerator.{ParamInfo, StructGenerator}
use adcl.Generator.StructGenerator.Positionals.{is_static, count_static, indexed, positional_values}
use adcl.Generator.StructGenerator.Static.{own_values}
use adcl.Generator.StructGenerator.Texts.{
  Texts, joined, index_slice-behind, first_texts, texts, all_texts,
}
use adcl.Generator.StructGenerator.Texts.Operands.{all_static}
use adcl.Generator.StructGenerator.Texts.Written.{IsFilled}

module _ (J : Jen) (s : StructGenerator J) (T : Texts J s.type_letter) where
  open T use {field, fields, operand, body}

  -- Each value is an operand of the text at its place.
  abbrev pub Gives : Group J → List Bytes → Type 0
  Gives [] [] = Unit
  Gives (v ∷ vs) (x ∷ xs) = (operand (J.statement v) ≡ ok (x ∷ [])) × Gives vs xs
  Gives _ _ = ⊥

  Gives-append :
      (vs ws : Group J) (xs ys : List Bytes)
      → Gives vs xs
      → Gives ws ys
      → Gives (vs ++ ws) (xs ++ ys)
  Gives-append [] ws [] ys h k = k
  Gives-append (v ∷ vs) ws (x ∷ xs) ys (e, h) k = (e, Gives-append vs ws xs ys h k)
  Gives-append [] ws (x ∷ xs) ys h k = absurd h
  Gives-append (v ∷ vs) ws [] ys h k = absurd h

  Gives-indexed :
      (c : J.Code) (before rest : List Bytes) (k n : ℕ)
      → fields c ≡ before ++ rest
      → length before ≡ k
      → n ≤ length rest
      → (xs : List Bytes) × (first_texts n rest ≡ ok xs) × Gives (indexed J s c k n) xs
  unfolding indexed
  Gives-indexed c before rest k zero e is h = ([], refl, tt)
  Gives-indexed c before [] k (suc n) e is h = absurd (omega arith)
  Gives-indexed c before (x ∷ rest) k (suc n) e is h =
      let (xs, run, gives) =
        Gives-indexed c (before ++ (x ∷ [])) rest (suc k) n
          (e ∙ sym (append_assoc before (x ∷ []) rest))
          (omega (arith, length-append before (x ∷ []))) (omega arith) in
      (
        x ∷ xs,
        rw run refl,
        (T.operand-index c k ∙ rw (e, sym is, index_slice-behind before x rest) refl, gives),
      )

  -- A parameter of a static multiplicity.
  Gives-own_values :
      (p : ParamInfo J)
      → IsFilled J s T p
      → is_static p.field_info.multiplicity ≡ true
      → (xs : List Bytes) × (texts J s T p ≡ ok xs) × Gives (own_values J s p) xs
  Gives-own_values p (known, single, enough) static =
      elim (Bool-cases p.field_info.str_is_singular) [
        | inl one ↦ (
          field p.field_info.str_field_name ∷ [],
          simp one refl,
          simp one (T.operand-field p.field_info.str_field_name, tt),
        )
        | inr list ↦
            let c = p.field_info.str_field_name in
            let (xs, run, gives) =
              Gives-indexed c [] (fields c) 0 p.field_info.static_multiplicity refl refl
                (enough static list) in
            (xs, simp (list, static) run, simp list gives)
      ]

  pub Gives-positional_values :
      (ps : List (ParamInfo J))
      → All (IsFilled J s T) ps
      → count_static J ps ≡ length ps
      → (xs : List Bytes) × (all_texts J s T ps ≡ ok xs) × Gives (positional_values J s ps) xs
  unfolding positional_values
  Gives-positional_values [] hs all = ([], refl, tt)
  Gives-positional_values (p ∷ ps) (h, hs) all =
      let (static, rest) = all_static J s T p ps all in
      let (xs, run, gives) = Gives-own_values p h static in
      let (ys, run', gives') = Gives-positional_values ps hs rest in
      (
        xs ++ ys,
        ap (λ r. joined r (all_texts J s T ps)) run ∙ ap (joined (ok xs)) run',
        Gives-append (own_values J s p) (positional_values J s ps) xs ys gives gives',
      )
