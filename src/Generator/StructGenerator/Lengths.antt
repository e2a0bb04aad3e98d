-- ===== src/Generator/StructGenerator/Lengths.antt =====
-- protocol/generator/struct_generator.go: what the generated PosLen computes, for parameters of
-- any multiplicity.
use adcl.Prelude.{
  ℕ, ◌+◌, ◌≡◌, refl, ap, ◌∙◌, Bool, true, false, List, [], ◌∷◌, ◌++◌, append-nil, codes, ok, ◌>>=◌,
  if◌then◌else◌, length, ◌==◌, arith, ltb, Bool-cases, inl, inr,
}
use adcl.Generator.Jen.{Jen, return_of, len_of}
use adcl.Generator.MapperModel.{
  Multiplicity, multiplicity_static, multiplicity_dynamic, other, FieldInfo, RenderingContext,
  dynamic_multiplicity,
}
use adcl.Generator.StructGenerator.{ParamInfo, StructGenerator, create_rendering_context}
use adcl.Generator.StructGenerator.Positionals.{
  is_static, pos_len_loop, pos_len_value, generate_pos_len,
}

-- The meaning of sums in Go, for the codes of an expression: a literal, a sum, and a statement
-- that was added to another, which is rendered in its place.
pub record Sums (J : Jen) : Type 0 where
  pub value : List J.Code → ℕ
  pub value-lit : (n : ℕ) → value (J.lit_int n) ≡ n
  pub value-plus : (a b : List J.Code) → value (a ++ (J.op (codes "+") ∷ b)) ≡ value a + value b
  pub value-inline : (a b : List J.Code) → value (a ++ (J.statement b ∷ [])) ≡ value (a ++ b)

-- No parameter has a multiplicity that is none of the constants.
abbrev pub is_known : Multiplicity → Bool
is_known multiplicity_static = true
is_known multiplicity_dynamic = true
is_known _ = false

data MultiplicityCase (x : Multiplicity) : Type 0 where
  static : x ≡ multiplicity_static → MultiplicityCase x
  dynamic : x ≡ multiplicity_dynamic → MultiplicityCase x
  unknown : is_known x ≡ false → MultiplicityCase x

Multiplicity-cases : (x : Multiplicity) → MultiplicityCase x
Multiplicity-cases multiplicity_static = static refl
Multiplicity-cases multiplicity_dynamic = dynamic refl
Multiplicity-cases (other n) = unknown refl

module _ (J : Jen) (S : Sums J) (s : StructGenerator J) where
  open J use {Code, statement, op, lit_int, bracket}
  open S use {value, value-lit, value-plus, value-inline}

  -- `len(x.nameStr)`
  abbrev pub length_code : ParamInfo J → List Code
  length_code p = bracket len_of (
      statement (statement (J.id s.type_letter) ∷ (J.dot [] ++ (p.field_info.str_field_name ∷ [])))
      ∷ [])

  -- How many texts a parameter has: its static multiplicity, or what `len` gives for its field.
  abbrev pub multiplicity_value : ParamInfo J → ℕ
  multiplicity_value p =
      if is_static p.field_info.multiplicity
      then p.field_info.static_multiplicity
      else value (length_code p)

  abbrev pub total : List (ParamInfo J) → ℕ
  total [] = 0
  total (p ∷ ps) = multiplicity_value p + total ps

  abbrev pub AllKnown : List (ParamInfo J) → Type 0
  AllKnown [] = Unit
  AllKnown (p ∷ ps) = (is_known p.field_info.multiplicity ≡ true) × AllKnown ps

  -- The dynamic lengths, each behind a plus.
  abbrev plus_all : List Code → List Code
  plus_all [] = []
  plus_all (c ∷ cs) = op (codes "+") ∷ c ∷ plus_all cs

  abbrev sum_of : List Code → ℕ
  sum_of [] = 0
  sum_of (c ∷ cs) = value (c ∷ []) + sum_of cs

  value-plus_all : (a cs : List Code) → value (a ++ plus_all cs) ≡ value a + sum_of cs
  value-plus_all a [] = ap value (append-nil a) ∙ omega arith
  value-plus_all a (c ∷ cs) =
      value-plus a (c ∷ plus_all cs) ∙ ap (λ n. value a + n) (value-plus_all (c ∷ []) cs)

  plus_all-append_one :
      (done : List Code) (c : Code)
      → plus_all done ++ (op (codes "+") ∷ c ∷ []) ≡ plus_all (done ++ (c ∷ []))
  plus_all-append_one [] c = refl
  plus_all-append_one (x ∷ done) c = ap (λ cs. op (codes "+") ∷ x ∷ cs) (plus_all-append_one done c)

  sum_of-append_one :
      (done : List Code) (c : Code) → sum_of (done ++ (c ∷ [])) ≡ sum_of done + value (c ∷ [])
  sum_of-append_one [] c = omega arith
  sum_of-append_one (x ∷ done) c = omega (arith, sum_of-append_one done c)

  dynamic_multiplicity-dynamic :
      (q : FieldInfo J) (ctx : RenderingContext J)
      → q.multiplicity ≡ multiplicity_dynamic
      → dynamic_multiplicity J q ctx
        ≡ ok (
            statement (
              bracket len_of (
                statement
                  ((ctx.content_var ∷ []) ++ J.dot [] ++ (ctx.field_info.str_field_name ∷ []))
                ∷ [])))
  unfolding dynamic_multiplicity
  dynamic_multiplicity-dynamic q ctx is = rw (is, dynamic_multiplicity) refl

  length_code_lem :
      (p : ParamInfo J)
      → p.field_info.multiplicity ≡ multiplicity_dynamic
      → dynamic_multiplicity J p.field_info (create_rendering_context J s p)
        ≡ ok (statement (length_code p))
  unfolding create_rendering_context
  length_code_lem p is =
      dynamic_multiplicity-dynamic p.field_info (create_rendering_context J s p) is

  loop_lem :
      (ps : List (ParamInfo J)) (sum : ℕ) (done : List Code)
      → AllKnown ps
      → (sum' : ℕ) × (cs : List Code) × (pos_len_loop J s sum (plus_all done) ps
          ≡ ok (sum', plus_all cs))
        × (sum' + sum_of cs ≡ sum + sum_of done + total ps)
  unfolding pos_len_loop
  loop_lem [] sum done h = (sum, done, refl, omega arith)
  loop_lem (p ∷ ps) sum done (h, hs) = elim (Multiplicity-cases p.field_info.multiplicity) [
    | static is ↦
        let (sum', cs, run, same) = loop_lem ps (sum + p.field_info.static_multiplicity) done hs in
        (sum', cs, simp is run, simp is (omega (arith, same)))
    | dynamic is ↦
        let (sum', cs, run, same) = loop_lem ps sum (done ++ (statement (length_code p) ∷ [])) hs in
        (
          sum',
          cs,
          simp (is, length_code_lem p is, plus_all-append_one done (statement (length_code p))) run,
          simp is (
              omega (
                arith,
                same,
                sum_of-append_one done (statement (length_code p)),
                value-inline [] (length_code p),
              )),
        )
    | unknown is ↦ absurd (cc (simp is at h))
  ]

  not_empty : (c : Code) (cs : List Code) → (length (plus_all (c ∷ cs)) == 0) ≡ false
  not_empty c cs = ground arith

  pos_len_value_lem :
      (sum : ℕ) (cs : List Code) → value (pos_len_value J s (sum, plus_all cs)) ≡ sum + sum_of cs
  unfolding pos_len_value
  pos_len_value_lem sum [] = elim (Bool-cases (ltb 0 sum)) [
    | inl positive ↦ rw positive (
        value-inline (lit_int sum) []
        ∙ ap value (append-nil (lit_int sum))
        ∙ value-lit sum
        ∙ omega arith)
    | inr nothing ↦ rw nothing (
        value-inline (lit_int sum) []
        ∙ ap value (append-nil (lit_int sum))
        ∙ value-lit sum
        ∙ omega arith)
  ]
  pos_len_value_lem sum (c ∷ cs) = elim (Bool-cases (ltb 0 sum)) [
    | inl positive ↦ rw positive (
        value-inline (lit_int sum) (plus_all (c ∷ cs))
        ∙ value-plus_all (lit_int sum) (c ∷ cs)
        ∙ omega (arith, value-lit sum))
    | inr nothing ↦
        rw (nothing, not_empty c cs) (value-plus_all (c ∷ []) cs ∙ ground (arith, nothing))
  ]

  -- The expression that the generated PosLen returns has as its value the number of the texts of
  -- all positional parameters, if each has a known multiplicity.
  pub generate_pos_len-total :
      AllKnown s.positional_params
      → (e : List Code) × (generate_pos_len J s ≡ ok (bracket return_of (statement e ∷ []) ∷ []))
        × (value e ≡ total s.positional_params)
  unfolding generate_pos_len
  generate_pos_len-total h =
      let (sum, cs, run, same) = loop_lem s.positional_params 0 [] h in
      (
        pos_len_value J s (sum, plus_all cs),
        ap (λ r. r >>= λ x. ok (bracket return_of (statement (pos_len_value J s x) ∷ []) ∷ [])) run,
        pos_len_value_lem sum cs ∙ same ∙ omega arith,
      )
