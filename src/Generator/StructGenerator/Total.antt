-- ===== src/Generator/StructGenerator/Total.antt =====
-- protocol/generator/struct_generator.go: Generate ends with a file or with the fault of a
-- parameter.
use adcl.Prelude.{
  ◌≡◌, refl, ap, ◌∙◌, [], ◌++◌, codes, none, some, Result, ok, err, panic, ◌>>=◌, length, ◌==◌,
  Error, Bool-cases, inl, inr,
}
use adcl.Generator.Jen.{Jen, Group}
use adcl.Generator.MessageModel.{Message}
use adcl.Generator.StructGenerator.{StructGenerator, new_struct_generator, prepare}
use adcl.Generator.StructGenerator.Params.{generate_named_get}
use adcl.Generator.StructGenerator.File.{flag_const, generate_file, generate_after, generate}
use adcl.Generator.StructGenerator.Prepared.{first_fault, prepared, prepare-prepared, prepare-fault}
use adcl.Generator.StructGenerator.Methods.{positional_methods, named_methods}

-- A call that returns a value.
abbrev pub Returns {ℓ} : {A : Type ℓ} → Result A → Type ℓ
Returns {A} r = (a : A) × (r ≡ ok a)

Returns-bind {ℓ κ} :
    {A : Type ℓ} {B : Type κ} (r : Result A) (f : A → Result B)
    → Returns r
    → ((a : A) → Returns (f a))
    → Returns (r >>= f)
Returns-bind r f (a, e) h = let (b, e') = h a in (b, rw e e')

module _ (J : Jen) (m : Message) where
  flag_const-Returns : Returns (flag_const J (prepared J m))
  unfolding flag_const
  flag_const-Returns = elim (Bool-cases (length (prepared J m).named_params == 0)) [
    | inl here ↦ ([], rw here refl)
    | inr more ↦
        let (constants, _, _) = named_methods J m in
        rw more (Returns-bind _ _ (_, constants) λ _. (_, refl))
  ]

  generate_named_get-Returns : Returns (generate_named_get J (prepared J m))
  unfolding generate_named_get
  generate_named_get-Returns = elim (Bool-cases (length (prepared J m).named_params == 0)) [
    | inl here ↦ rw here (_, refl)
    | inr more ↦
        let (_, _, cases) = named_methods J m in
        rw more (Returns-bind _ _ (_, cases) λ _. (_, refl))
  ]

  generate_file-Returns : Returns (generate_file J (prepared J m))
  unfolding generate_file
  generate_file-Returns =
      let (positional, len, at) = positional_methods J m in
      Returns-bind _ _ flag_const-Returns λ consts.
        Returns-bind _ _ (_, positional)
          λ _.
            Returns-bind _ _ (_, len)
              λ _.
                Returns-bind _ _ (_, at)
                  λ _. Returns-bind _ _ generate_named_get-Returns λ _. (_, refl)

  -- For a message whose parameters all have a known type and mapper the file of the prepared
  -- generator is generated without a panic, and Generate prints its rendering and a line end and
  -- leaves the generator prepared.
  pub generate-prepared :
      first_fault m.positional_params ≡ none
      → first_fault m.named_params ≡ none
      → (file : Group J) × (generate_file J (prepared J m) ≡ ok file)
        × (generate J (new_struct_generator J m)
            ≡ (ok (J.render (codes "message") file ++ codes "\n"), prepared J m))
  unfolding generate generate_after
  generate-prepared hp hn =
      let (file, e) = generate_file-Returns in
      (
        file,
        e,
        ap (generate_after J) (prepare-prepared J m hp hn)
            ∙ ap
                (λ r.
                  (r >>= λ file. ok (J.render (codes "message") file ++ codes "\n"), prepared J m))
                e,
      )

  -- For a message with a parameter of an unknown type or mapper Generate prints nothing and gives
  -- the first fault, a positional parameter's before a named one's.
  pub generate-fault :
      (e : Error)
      → elim (first_fault m.positional_params) [
        | some f ↦ some f
        | none ↦ first_fault m.named_params
      ]
        ≡ some e
      → (generate J (new_struct_generator J m)).0 ≡ err e
  unfolding generate generate_after
  generate-fault e h = after_fault (prepare J (new_struct_generator J m)) (prepare-fault J m e h)
    where
      after_fault :
          (r : Result {0} Unit × StructGenerator J) → r.0 ≡ err e → (generate_after J r).0 ≡ err e
      after_fault (ok _, s) h = cc
      after_fault (err f, s) h = cc
      after_fault (panic, s) h = cc
