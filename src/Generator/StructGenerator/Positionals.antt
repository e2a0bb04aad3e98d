-- ===== src/Generator/StructGenerator/Positionals.antt =====
-- protocol/generator/struct_generator.go: the bodies of the generated methods Positional, PosLen
-- and PosAt.
use adcl.Prelude.{
  ℕ, zero, suc, ◌+◌, Bool, true, false, ◌&&◌, ◌||◌, Bytes, List, [], ◌∷◌, ◌++◌, codes, Result, ok,
  panic, ◌>>=◌, length, ◌==◌, ltb, if◌then◌else◌, drop,
}
use adcl.Generator.Jen.{
  Jen, Statement, Group, codes_of, index_of, string_word, values_of, return_of, make_of, append_of,
  call_of, panic_of, switch_of, case_of, block_of, default_word,
}
use adcl.Generator.MapperModel.{Multiplicity, multiplicity_static, dynamic_multiplicity}
use adcl.Generator.StructGenerator.{
  ParamInfo, StructGenerator, create_rendering_context, selected, drop_last,
}

abbrev pub is_static : Multiplicity → Bool
is_static multiplicity_static = true
is_static _ = false

module _ (J : Jen) where
  open J use {Code, statement, op, word, bracket, id, dot, lit_int, lit_string}

  -- numStatic
  unfoldable pub count_static : List (ParamInfo J) → ℕ
  count_static [] = 0
  count_static (p ∷ ps) =
      let rest = count_static ps in if is_static p.field_info.multiplicity then suc rest else rest

  module _ (s : StructGenerator J) where
    -- `for i := from; i < from+n; i++`: the str field at each index.
    unfoldable pub indexed : Code → ℕ → ℕ → Group J
    indexed c from zero = []
    indexed c from (suc n) =
        (selected J s c ++ bracket index_of (statement (lit_int from) ∷ []))
        ∷ indexed c (suc from) n

    unfoldable pub positional_values : List (ParamInfo J) → Group J
    positional_values [] = []
    positional_values (p ∷ ps) =
        (if p.field_info.str_is_singular
          then selected J s p.field_info.str_field_name ∷ []
          else indexed p.field_info.str_field_name 0 p.field_info.static_multiplicity)
        ++ positional_values ps

    -- `group.Id("positionals").Op("=").Append(...)` for each parameter.
    abbrev pub assigned : List Code → Statement J
    assigned args = id (codes "positionals") ++ (op (codes "=") ∷ []) ++ bracket append_of args

    unfoldable pub append_param : ParamInfo J → Statement J
    append_param p =
        if p.field_info.str_is_singular
        then assigned (
            statement (id (codes "positionals"))
            ∷ statement (selected J s p.field_info.str_field_name)
            ∷ [])
        else if is_static p.field_info.multiplicity
        then assigned (
            codes_of J (
              id (codes "positionals")
              ∷ indexed p.field_info.str_field_name 0 p.field_info.static_multiplicity))
        else assigned (
            statement (id (codes "positionals"))
            ∷ statement (selected J s p.field_info.str_field_name ++ (op (codes "...") ∷ []))
            ∷ [])

    unfoldable pub append_params : List (ParamInfo J) → Group J
    append_params [] = []
    append_params (p ∷ ps) = append_param p ∷ append_params ps

    abbrev pub returned_values : Group J → Statement J
    returned_values values = bracket return_of (
        statement (bracket index_of [] ++ word string_word ++ bracket values_of (codes_of J values))
        ∷ [])

    -- The str field of the only parameter; `positionalParams[0]` is legal where the length is 1.
    abbrev pub only_str_field : List (ParamInfo J) → Result (List Code)
    only_str_field [] = panic
    only_str_field (p ∷ ps) = ok (selected J s p.field_info.str_field_name)

    unfoldable pub generate_positional : Result (Group J)
    generate_positional =
        let ps = s.positional_params in
        if count_static ps == length ps
        then ok (returned_values (positional_values ps) ∷ [])
        else if count_static ps == 0 && length ps == 1
        then (only_str_field ps >>= λ f. ok (bracket return_of (statement f ∷ []) ∷ []))
        else ok (
            ((id (codes "positionals")
                ++ (op (codes ":=") ∷ [])
                ++ bracket make_of (
                    statement (bracket index_of [] ++ word string_word)
                    ∷ statement (lit_int 0)
                    ∷ statement (id s.type_letter ++ dot (codes "PosLen") ++ bracket call_of [])
                    ∷ []))
              ∷ append_params ps)
            ++ (bracket return_of (statement (id (codes "positionals")) ∷ []) ∷ []))

    -- The loop of generatePosLen: staticSum, and the statement of the dynamic lengths.
    unfoldable pub pos_len_loop : ℕ → List Code → List (ParamInfo J) → Result (ℕ × List Code)
    pos_len_loop sum stmt [] = ok (sum, stmt)
    pos_len_loop sum stmt (p ∷ ps) =
        if is_static p.field_info.multiplicity
        then pos_len_loop (sum + p.field_info.static_multiplicity) stmt ps
        else (dynamic_multiplicity J p.field_info (create_rendering_context J s p) >>= λ c.
            pos_len_loop sum (stmt ++ (op (codes "+") ∷ c ∷ [])) ps)

    -- `if staticSum > 0 || len(stmt) == 0`, and what is returned.
    unfoldable pub pos_len_value : ℕ × List Code → List Code
    pos_len_value (sum, stmt) =
        if ltb 0 sum || length stmt == 0 then lit_int sum ++ (statement stmt ∷ []) else drop 1 stmt

    unfoldable pub generate_pos_len : Result (Group J)
    generate_pos_len = do
      r ← pos_len_loop 0 [] s.positional_params
      ok (bracket return_of (statement (pos_len_value r) ∷ []) ∷ [])

    abbrev pub out_of_range : Statement J
    out_of_range = bracket panic_of (statement (lit_string (codes "index out of range")) ∷ [])

    abbrev pub default_case : Statement J
    default_case = word default_word ++ bracket block_of (statement out_of_range ∷ [])

    -- `group.Case(c).Block(jen.Return(value))`
    abbrev pub return_case : List Code → Statement J → Statement J
    return_case c value =
        bracket case_of (statement c ∷ [])
        ++ bracket block_of (statement (bracket return_of (statement value ∷ [])) ∷ [])

    -- The cases of the values, numbered from `running`.
    unfoldable pub numbered_cases : ℕ → Group J → Group J
    numbered_cases running [] = []
    numbered_cases running (v ∷ vs) =
        return_case (lit_int running) v ∷ numbered_cases (suc running) vs

    -- The loop over the parameters in the switch of all static parameters, with runningIndex.
    unfoldable pub static_cases : ℕ → List (ParamInfo J) → Group J
    static_cases running [] = []
    static_cases running (p ∷ ps) =
        if p.field_info.str_is_singular
        then return_case (lit_int running) (selected J s p.field_info.str_field_name)
          ∷ static_cases (suc running) ps
        else numbered_cases running
            (indexed p.field_info.str_field_name 0 p.field_info.static_multiplicity)
          ++ static_cases (running + p.field_info.static_multiplicity) ps

    abbrev pub each_with_op : Bytes → List Code → List Code
    each_with_op o [] = []
    each_with_op o (c ∷ cs) = c ∷ op o ∷ each_with_op o cs

    -- runningLenStmt, with runningStaticIndex and runningDynamicLens.
    unfoldable pub running_len : ℕ → List Code → Bytes → List Code → List Code
    running_len static lens o dynamics = drop_last (
        (if ltb 0 static || length lens == 0 then lit_int static ++ (op o ∷ []) else [])
        ++ each_with_op o lens
        ++ each_with_op o dynamics)

    abbrev pub plus_at : ℕ → List Code → List Code → List Code
    plus_at static lens dynamics = statement (running_len static lens (codes "+") dynamics) ∷ []

    abbrev pub minus_at : ℕ → List Code → List Code
    minus_at static lens = op (codes "-") ∷ statement (running_len static lens (codes "-") []) ∷ []

    -- The cases of a parameter of a static multiplicity above 1, from its index `i` on.
    unfoldable pub mixed_static_cases : Code → ℕ → List Code → ℕ → ℕ → Group J
    mixed_static_cases c static lens i zero = []
    mixed_static_cases c static lens i (suc n) =
        return_case (id (codes "i") ++ (op (codes "==") ∷ plus_at static lens []))
          (selected J s c ++ bracket index_of (statement (lit_int i ++ minus_at static lens) ∷ []))
        ∷ mixed_static_cases c (suc static) lens (suc i) n

    unfoldable pub mixed_cases : ℕ → List Code → List (ParamInfo J) → Result (Group J)
    mixed_cases static lens [] = ok []
    mixed_cases static lens (p ∷ ps) =
        if p.field_info.str_is_singular
        then (mixed_cases (suc static) lens ps >>= λ rest. ok (
            return_case (id (codes "i") ++ (op (codes "==") ∷ plus_at static lens []))
              (selected J s p.field_info.str_field_name)
            ∷ rest))
        else if is_static p.field_info.multiplicity
        then (mixed_cases (static + p.field_info.static_multiplicity) lens ps >>= λ rest. ok (
            mixed_static_cases p.field_info.str_field_name static lens 0
              p.field_info.static_multiplicity
            ++ rest))
        else (dynamic_multiplicity J p.field_info (create_rendering_context J s p) >>= λ len.
            mixed_cases static (lens ++ (len ∷ [])) ps >>= λ rest. ok (
              return_case (id (codes "i") ++ (op (codes "<") ∷ plus_at static lens (len ∷ []))) (
                selected J s p.field_info.str_field_name
                ++ bracket index_of
                    (statement (lit_string (codes "i") ++ minus_at static lens) ∷ []))
              ∷ rest))

    -- `group.Switch(on...).BlockFunc(...)` with the cases and the default.
    abbrev pub switch_with : List Code → Group J → Statement J
    switch_with on cases =
        bracket switch_of on ++ bracket block_of (codes_of J (cases ++ (default_case ∷ [])))

    unfoldable pub generate_pos_at : Result (Group J)
    generate_pos_at =
        let ps = s.positional_params in
        if length ps == 0
        then ok (out_of_range ∷ [])
        else if count_static ps == length ps
        then ok (switch_with (statement (id (codes "i")) ∷ []) (static_cases 0 ps) ∷ [])
        else if count_static ps == 0 && length ps == 1
        then (only_str_field ps >>= λ f. ok (
            bracket return_of
              (statement (f ++ bracket index_of (statement (id (codes "i")) ∷ [])) ∷ [])
            ∷ []))
        else (mixed_cases 0 [] ps >>= λ cases. ok (switch_with [] cases ∷ []))
