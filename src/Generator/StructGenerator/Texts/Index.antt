-- ===== src/Generator/StructGenerator/Texts/Index.antt =====
-- protocol/generator/struct_generator.go: what the generated PosAt means in Go, where all parameters
-- have a static multiplicity or there is one with another.
use adcl.Prelude.{
  ℕ, ◌≡◌, Bytes, List, [], ◌∷◌, ◌++◌, codes, Result, ok, panic, ◌>>=◌, if◌then◌else◌, ◌==◌,
}
use adcl.Message.Params.{index_slice}
use adcl.Generator.Jen.{Jen, Group, Statement, index_of, return_of}
use adcl.Generator.StructGenerator.{StructGenerator, selected}
use adcl.Generator.StructGenerator.Positionals.{
  return_case, out_of_range, default_case, switch_with,
}
use adcl.Generator.StructGenerator.Texts.{Texts}

-- An operand of one text.
abbrev pub one_text : List Bytes → Result Bytes
one_text (x ∷ []) = ok x
one_text _ = panic

-- The meaning of Go for the codes of PosAt: what a body returns for `i`, and the cases of a switch.
pub record Indexing (J : Jen) (s : StructGenerator J) (T : Texts J s.type_letter) : Type 0 where
  pub at : Group J → ℕ → Result Bytes
  pub select : Group J → ℕ → Result Bytes
  pub at-panic : (i : ℕ) → at (out_of_range J s ∷ []) i ≡ panic
  -- `return x.c[i]`
  pub at-index :
      (c : J.Code) (i : ℕ)
      → at
          (J.bracket return_of (
              J.statement
                (selected J s c ++ J.bracket index_of (J.statement (J.id (codes "i")) ∷ []))
              ∷ [])
            ∷ [])
          i
        ≡ index_slice (T.fields c) i
  -- `switch i`
  pub at-switch :
      (cases : Group J) (i : ℕ)
      → at (switch_with J s (J.statement (J.id (codes "i")) ∷ []) cases ∷ []) i
        ≡ select (cases ++ (default_case J s ∷ [])) i
  pub select-case :
      (n : ℕ) (v : Statement J) (cases : Group J) (i : ℕ)
      → select (return_case J s (J.lit_int n) v ∷ cases) i
        ≡ (if n == i then T.operand (J.statement v) >>= one_text else select cases i)
  pub select-default : (i : ℕ) → select (default_case J s ∷ []) i ≡ panic
