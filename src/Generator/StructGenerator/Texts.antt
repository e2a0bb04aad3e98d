-- ===== src/Generator/StructGenerator/Texts.antt =====
-- protocol/generator/struct_generator.go: what the statements that the generator writes for
-- Positional mean in Go, for parameters of any multiplicities.
pub mod Operands
pub mod Written
pub mod Count
pub mod Places
pub mod Index
pub mod Message
use adcl.Prelude.{
  ℕ, zero, suc, ◌≡◌, refl, ap, ◌∙◌, sym, Bool, true, false, ◌&&◌, Bytes, List, [], ◌∷◌, ◌++◌,
  append-nil, append_assoc, codes, Result, ok, err, panic, ◌>>=◌, if◌then◌else◌, length,
  length-append, ◌≤◌, ==_refl, All, Bool-cases, inl, inr, ◌==◌, arith,
}
use adcl.Message.Params.{index_slice}
use adcl.Generator.Jen.{
  Jen, Group, Statement, codes_of, index_of, string_word, values_of, return_of, make_of, append_of,
  call_of,
}
use adcl.Generator.StructGenerator.{ParamInfo, StructGenerator, selected}
use adcl.Generator.StructGenerator.Positionals.{
  is_static, count_static, indexed, positional_values, assigned, append_param, append_params,
  returned_values, only_str_field, generate_positional,
}

-- Texts one after the other; the first panic counts.
abbrev pub joined : Result (List Bytes) → Result (List Bytes) → Result (List Bytes)
joined r q = r >>= λ xs. q >>= λ ys. ok (xs ++ ys)

pub joined-nil : (q : Result (List Bytes)) → joined (ok []) q ≡ q
joined-nil (ok xs) = refl
joined-nil (err e) = refl
joined-nil panic = refl

pub joined_nil : (r : Result (List Bytes)) → joined r (ok []) ≡ r
joined_nil (ok xs) = ap (λ ys. ok ys) (append-nil xs)
joined_nil (err e) = refl
joined_nil panic = refl

pub joined_assoc : (r q t : Result (List Bytes)) → joined (joined r q) t ≡ joined r (joined q t)
joined_assoc (ok xs) (ok ys) (ok zs) = ap (λ l. ok l) (append_assoc xs ys zs)
joined_assoc (ok xs) (ok ys) (err e) = refl
joined_assoc (ok xs) (ok ys) panic = refl
joined_assoc (ok xs) (err e) t = refl
joined_assoc (ok xs) panic t = refl
joined_assoc (err e) q t = refl
joined_assoc panic q t = refl

module _ (J : Jen) where
  -- A list of operands, by what each stands for.
  abbrev pub operands : (J.Code → Result (List Bytes)) → List J.Code → Result (List Bytes)
  operands operand [] = ok []
  operands operand (c ∷ cs) = joined (operand c) (operands operand cs)

  -- The statements, one behind the other.
  abbrev pub run_all :
      (Statement J → List Bytes → Result (List Bytes)) → Group J → List Bytes → Result (List Bytes)
  run_all run [] ps = ok ps
  run_all run (b ∷ bs) ps = run b ps >>= run_all run bs

  -- `positionals = append(positionals, args)`
  abbrev pub appending : List J.Code → Statement J
  appending args =
      J.id (codes "positionals")
      ++ (J.op (codes "=") ∷ [])
      ++ J.bracket append_of (J.statement (J.id (codes "positionals")) ∷ args)

  abbrev pub IsAppending : Statement J → Type 0
  IsAppending b = (args : List J.Code) × (b ≡ appending args)

-- The meaning of Go for the codes of Positional with the receiver `x`: the fields of one text and
-- of several by the codes of their names, the texts of an operand, the slice `positionals` behind
-- a statement, and what a body returns.
pub record Texts (J : Jen) (x : Bytes) : Type 0 where
  pub field : J.Code → Bytes
  pub fields : J.Code → List Bytes
  pub operand : J.Code → Result (List Bytes)
  pub run : Statement J → List Bytes → Result (List Bytes)
  pub body : Group J → Result (List Bytes)
  -- `x.c`, `x.c[i]` and `x.c...`
  pub operand-field :
      (c : J.Code) → operand (J.statement (J.id x ++ J.dot [] ++ (c ∷ []))) ≡ ok (field c ∷ [])
  pub operand-index :
      (c : J.Code) (i : ℕ)
      → operand (
          J.statement (
            (J.id x ++ J.dot [] ++ (c ∷ []))
            ++ J.bracket index_of (J.statement (J.lit_int i) ∷ [])))
        ≡ (index_slice (fields c) i >>= λ v. ok (v ∷ []))
  pub operand-spread :
      (c : J.Code)
      → operand (J.statement ((J.id x ++ J.dot [] ++ (c ∷ [])) ++ (J.op (codes "...") ∷ [])))
        ≡ ok (fields c)
  pub run-append :
      (args : List J.Code) (ps : List Bytes)
      → run (appending J args) ps ≡ (operands J operand args >>= λ xs. ok (ps ++ xs))
  -- `return []string{args}`, `return x.c`, and a new slice that statements append to.
  pub body-literal :
      (args : List J.Code)
      → body (
          J.bracket return_of (
            J.statement (J.bracket index_of [] ++ J.word string_word ++ J.bracket values_of args)
            ∷ [])
          ∷ [])
        ≡ operands J operand args
  pub body-field :
      (c : J.Code)
      → body (J.bracket return_of (J.statement (J.id x ++ J.dot [] ++ (c ∷ [])) ∷ []) ∷ [])
        ≡ ok (fields c)
  pub body-make :
      (bs : Group J)
      → All (IsAppending J) bs
      → body (
          ((J.id (codes "positionals")
              ++ (J.op (codes ":=") ∷ [])
              ++ J.bracket make_of (
                  J.statement (J.bracket index_of [] ++ J.word string_word)
                  ∷ J.statement (J.lit_int 0)
                  ∷ J.statement (J.id x ++ J.dot (codes "PosLen") ++ J.bracket call_of [])
                  ∷ []))
            ∷ bs)
          ++ (J.bracket return_of (J.statement (J.id (codes "positionals")) ∷ []) ∷ []))
        ≡ run_all J run bs []

-- The first texts, as many as asked for; there is a panic if there are fewer.
abbrev pub first_texts : ℕ → List Bytes → Result (List Bytes)
first_texts zero xs = ok []
first_texts (suc n) [] = panic
first_texts (suc n) (x ∷ xs) = first_texts n xs >>= λ ys. ok (x ∷ ys)

-- The texts from an index on, one by one.
abbrev each_from : List Bytes → ℕ → ℕ → Result (List Bytes)
each_from xs i zero = ok []
each_from xs i (suc n) = joined (index_slice xs i >>= λ v. ok (v ∷ [])) (each_from xs (suc i) n)

pub index_slice-behind :
    (before : List Bytes) (x : Bytes) (xs : List Bytes)
    → index_slice (before ++ (x ∷ xs)) (length before) ≡ ok x
index_slice-behind [] x xs = refl
index_slice-behind (y ∷ before) x xs = index_slice-behind before x xs

index_slice-end : (xs : List Bytes) → index_slice xs (length xs) ≡ panic
index_slice-end [] = refl
index_slice-end (x ∷ xs) = index_slice-end xs

pub each_from-behind :
    (before xs : List Bytes) (n : ℕ) → each_from (before ++ xs) (length before) n ≡ first_texts n xs
each_from-behind before xs zero = refl
each_from-behind before [] (suc n) = rw (append-nil before, index_slice-end before) refl
each_from-behind before (x ∷ xs) (suc n) = rw (index_slice-behind before x xs) (
    ap (joined (ok (x ∷ []))) (
      ap (λ k. each_from (before ++ (x ∷ xs)) k n) (omega (arith, length-append before (x ∷ [])))
      ∙ ap (λ l. each_from l (length (before ++ (x ∷ []))) n)
          (sym (append_assoc before (x ∷ []) xs))
      ∙ each_from-behind (before ++ (x ∷ [])) xs n))

module _ (J : Jen) (s : StructGenerator J) (T : Texts J s.type_letter) where
  open T use {field, fields, operand, run, body}

  -- The texts of a parameter: its field of one text; as many of the texts of its field as its static
  -- multiplicity says; or all of them.
  abbrev pub texts : ParamInfo J → Result (List Bytes)
  texts p =
      if p.field_info.str_is_singular
      then ok (field p.field_info.str_field_name ∷ [])
      else if is_static p.field_info.multiplicity
      then first_texts p.field_info.static_multiplicity (fields p.field_info.str_field_name)
      else ok (fields p.field_info.str_field_name)

  abbrev pub all_texts : List (ParamInfo J) → Result (List Bytes)
  all_texts [] = ok []
  all_texts (p ∷ ps) = joined (texts p) (all_texts ps)
