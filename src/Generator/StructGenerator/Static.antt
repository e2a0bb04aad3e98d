-- ===== src/Generator/StructGenerator/Static.antt =====
-- protocol/generator/struct_generator.go: Positional, PosLen and PosAt of a message whose
-- positional parameters all have a static multiplicity.
use adcl.Prelude.{
  ℕ, zero, suc, ◌+◌, true, ◌≡◌, refl, ap, ◌∙◌, sym, List, [], ◌∷◌, ◌++◌, codes, ok, if◌then◌else◌,
  length, length-append, ◌==◌, ==_refl, arith, Bool-cases, inl, inr, ltb, All,
}
use adcl.Generator.Jen.{Jen, Group, return_of}
use adcl.Generator.StructGenerator.{ParamInfo, StructGenerator, selected}
use adcl.Generator.StructGenerator.Positionals.{
  is_static, count_static, indexed, positional_values, returned_values, generate_positional,
  pos_len_loop, pos_len_value, generate_pos_len, out_of_range, return_case, numbered_cases,
  static_cases, switch_with, generate_pos_at,
}

module _ (J : Jen) where
  open J use {Code, statement, id, bracket, lit_int}

  -- A parameter of a static multiplicity, which is one if it has a single text.
  abbrev pub IsFixed : ParamInfo J → Type 0
  IsFixed p =
      (is_static p.field_info.multiplicity ≡ true)
      × (p.field_info.str_is_singular ≡ true → p.field_info.static_multiplicity ≡ 1)

  count_static-IsFixed : (ps : List (ParamInfo J)) → All IsFixed ps → count_static J ps ≡ length ps
  unfolding count_static
  count_static-IsFixed [] h = refl
  count_static-IsFixed (p ∷ ps) ((fixed, single), hs) =
      simp fixed (ap suc (count_static-IsFixed ps hs))

  module _ (s : StructGenerator J) where
    length-indexed : (c : Code) (from n : ℕ) → length (indexed J s c from n) ≡ n
    unfolding indexed
    length-indexed c from zero = refl
    length-indexed c from (suc n) = ap suc (length-indexed c (suc from) n)

    pos_len_value-nil : (n : ℕ) → pos_len_value J s (n, []) ≡ lit_int n ++ (statement [] ∷ [])
    unfolding pos_len_value
    pos_len_value-nil n = elim (Bool-cases (ltb 0 n)) [
      | inl some_left ↦ rw some_left refl
      | inr none_left ↦ rw none_left refl
    ]

    numbered_cases-append :
        (n : ℕ) (vs ws : Group J)
        → numbered_cases J s n (vs ++ ws)
          ≡ numbered_cases J s n vs ++ numbered_cases J s (n + length vs) ws
    unfolding numbered_cases
    numbered_cases-append n [] ws = ap (λ k. numbered_cases J s k ws) (omega arith)
    numbered_cases-append n (v ∷ vs) ws =
        ap (λ cs. return_case J s (lit_int n) v ∷ cs)
          (numbered_cases-append (suc n) vs ws
            ∙ ap (λ k. numbered_cases J s (suc n) vs ++ numbered_cases J s k ws) (omega arith))

    -- The texts of one parameter, which are as many as its multiplicity.
    abbrev pub own_values : ParamInfo J → Group J
    own_values p =
        if p.field_info.str_is_singular
        then selected J s p.field_info.str_field_name ∷ []
        else indexed J s p.field_info.str_field_name 0 p.field_info.static_multiplicity

    length-own_values :
        (p : ParamInfo J) → IsFixed p → length (own_values p) ≡ p.field_info.static_multiplicity
    length-own_values p (fixed, single) = elim (Bool-cases p.field_info.str_is_singular) [
      | inl one ↦ simp (one, single one) refl
      | inr several ↦
          simp
            (several, length-indexed p.field_info.str_field_name 0 p.field_info.static_multiplicity)
            refl
    ]

    pos_len_loop-IsFixed :
        (sum : ℕ) (ps : List (ParamInfo J))
        → All IsFixed ps
        → pos_len_loop J s sum [] ps ≡ ok (sum + length (positional_values J s ps), [])
    unfolding pos_len_loop positional_values
    pos_len_loop-IsFixed sum [] h = ap (λ n. ok (n, [])) (omega arith)
    pos_len_loop-IsFixed sum (p ∷ ps) ((fixed, single), hs) = simp fixed (
        pos_len_loop-IsFixed (sum + p.field_info.static_multiplicity) ps hs
        ∙ ap (λ n. ok (n, []))
            (omega (
              arith,
              length-own_values p (fixed, single),
              length-append (own_values p) (positional_values J s ps),
            )))

    pub static_cases-values :
        (n : ℕ) (ps : List (ParamInfo J))
        → static_cases J s n ps ≡ numbered_cases J s n (positional_values J s ps)
    unfolding static_cases positional_values numbered_cases
    static_cases-values n [] = refl
    static_cases-values n (p ∷ ps) = elim (Bool-cases p.field_info.str_is_singular) [
      | inl one ↦ simp one (
          ap (λ cs. return_case J s (lit_int n) (selected J s p.field_info.str_field_name) ∷ cs)
            (static_cases-values (suc n) ps))
      | inr several ↦
          let texts = indexed J s p.field_info.str_field_name 0 p.field_info.static_multiplicity in
          simp several (
            ap (λ cs. numbered_cases J s n texts ++ cs)
              (static_cases-values (n + p.field_info.static_multiplicity) ps
                ∙ ap (λ k. numbered_cases J s k (positional_values J s ps))
                    (omega (
                      arith,
                      length-indexed p.field_info.str_field_name 0 p.field_info.static_multiplicity,
                    )))
            ∙ sym (numbered_cases-append n texts (positional_values J s ps)))
    ]

  -- If all positional parameters have a static multiplicity, which is one for a parameter with a
  -- single text, the three generated methods agree: Positional returns the texts of the
  -- parameters in their order, PosLen their number, and PosAt has for each index from 0 on a case
  -- that returns the text there, and panics otherwise.
  pub static_methods :
      (s : StructGenerator J)
      → All IsFixed s.positional_params
      → (generate_positional J s
          ≡ ok (returned_values J s (positional_values J s s.positional_params) ∷ []))
        × (generate_pos_len J s
            ≡ ok (
                bracket return_of (
                  statement (
                    lit_int (length (positional_values J s s.positional_params))
                    ++ (statement [] ∷ []))
                  ∷ [])
                ∷ []))
        × (generate_pos_at J s
            ≡ ok (
                (if length s.positional_params == 0
                  then out_of_range J s
                  else switch_with J s
                      (statement (id (codes "i")) ∷ [])
                      (numbered_cases J s 0 (positional_values J s s.positional_params)))
                ∷ []))
  unfolding generate_positional generate_pos_len generate_pos_at
  static_methods s h =
      let ps = s.positional_params in
      let fixed = count_static-IsFixed ps h in
      (
        rw (fixed, ==_refl (length ps)) refl,
        simp (pos_len_loop-IsFixed s 0 ps h) (
            ap (λ c. ok (bracket return_of (statement c ∷ []) ∷ []))
              (pos_len_value-nil s (0 + length (positional_values J s ps))
                ∙ ap (λ n. lit_int n ++ (statement [] ∷ [])) (omega arith))),
        rw (fixed, ==_refl (length ps), static_cases-values s 0 ps)
            (elim (Bool-cases (length ps == 0)) [
              | inl here ↦ rw here refl
              | inr more ↦ rw more refl
            ]),
      )
