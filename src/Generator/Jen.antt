-- ===== src/Generator/Jen.antt =====
-- Package github.com/dave/jennifer/jen, which the generator writes Go code with: what the
-- generator relies on, as a parameter.
use adcl.Prelude.{ℕ, Bool, Bytes, List, [], ◌∷◌}

-- The methods without arguments, by their names.
pub data Word : Type 0 where
  int_word float64_word string_word bool_word : Word
  type_word const_word var_word func_word : Word
  default_word else_word range_word empty_word line_word : Word

-- The methods that take codes, by their names. A method `XFunc` takes the codes that its callback
-- adds to the group, in their order, and is the method `X` of them.
pub data Bracket : Type 0 where
  index_of call_of len_of params_of values_of map_of return_of make_of append_of panic_of : Bracket
  switch_of case_of block_of for_of list_of if_of parens_of defs_of struct_of : Bracket

-- A Statement is a slice of codes, to which each method appends what it stands for, and a
-- statement is itself a code. `Op` appends one code; `Add` appends its arguments.
pub record Jen : Type 1 where
  pub Code : Type 0
  pub statement : List Code → Code
  pub op : Bytes → Code
  pub word : Word → List Code
  pub bracket : Bracket → List Code → List Code
  pub id : Bytes → List Code
  pub dot : Bytes → List Code
  pub qual : Bytes → Bytes → List Code
  pub lit_int : ℕ → List Code
  pub lit_string : Bytes → List Code
  pub lit_bool : Bool → List Code
  pub comment : Bytes → List Code
  -- A file of the package with this name and these statements, rendered.
  pub render : Bytes → List (List Code) → Bytes

module _ (J : Jen) where
  abbrev pub Statement : Type 0
  Statement = List J.Code

  -- What a callback adds to its group: each call on the group begins a statement.
  abbrev pub Group : Type 0
  Group = List Statement

  abbrev pub codes_of : Group → List J.Code
  codes_of [] = []
  codes_of (s ∷ ss) = J.statement s ∷ codes_of ss
