-- ===== src/Generator/StructGenerator/Meaning/Agree.antt =====
-- protocol/generator/struct_generator.go: the generated NamedGet against the generated Named, for a
-- message prepared with the basic mapper.
use mathlib.Core.List.{map}
use adcl.Prelude.{
  >>=_behind, ◌≡◌, refl, ap, ◌∙◌, Bool, true, false, ◌||◌, Bytes, List, [], ◌∷◌, ◌++◌, append-nil,
  codes, Result, ok, ◌>>=◌, none, some, if◌then◌else◌, equal, slice_from, All, Bool-cases,
  Option-cases, inl, inr,
}
use adcl.Message.Params.{StringMap, map_get}
use adcl.Message.Content.Tables.{NamedParam, param, set_raw, set_params, find_param, value_text}
use adcl.Message.Content.Tables.Careful.{careful_get}
use adcl.Generator.Jen.{Jen, Group, codes_of, if_of, block_of, else_word}
use adcl.Generator.MessageModel.{Param}
use adcl.Generator.Mappers.{flag_name_from_param, to_lower_camel_case}
use adcl.Generator.StructGenerator.{StructGenerator, selected}
use adcl.Generator.StructGenerator.Params.{
  str_statement, set_statement, value_statement, return_pair,
}
use adcl.Generator.StructGenerator.Prepared.{basic_info}
use adcl.Generator.StructGenerator.Methods.{set_guard, guarded_set, guarded_get}
use adcl.Generator.StructGenerator.Meaning.{Meaning, IsSetting}

module _ (J : Jen) (G : Meaning J) where
  open J use {statement, id, dot, lit_string}
  open G use {field, is_set, defined, exec, answer, text, holds, value, run, result, switched}

  -- What the fields have for the parameters.
  abbrev pub table_entry : Param → NamedParam
  table_entry p =
      param (flag_name_from_param p) (field (to_lower_camel_case p.name ++ codes "Str"))
        (p.required || is_set p.name)

  abbrev pub table : List Param → List NamedParam
  table [] = []
  table (p ∷ ps) = table_entry p ∷ table ps

  module _ (s : StructGenerator J) where
    text-str_statement :
        (p : Param)
        → text (statement (str_statement J s (basic_info J p)))
          ≡ field (to_lower_camel_case p.name ++ codes "Str")
    unfolding str_statement
    text-str_statement p =
        ap (λ cs. text (statement cs))
          (append-nil (selected J s (statement (id (to_lower_camel_case p.name ++ codes "Str")))))
        ∙ G.text-field s.type_letter (to_lower_camel_case p.name ++ codes "Str")

    run-set_statement :
        (p : Param) (m : StringMap)
        → run (set_statement J s (basic_info J p)) m ≡ set_raw (table_entry p).raw m
    unfolding set_statement
    run-set_statement p m =
        G.run-set (statement (str_statement J s (basic_info J p))) m
        ∙ ap (λ t. set_raw t m) (text-str_statement p)

    set_guard-holds : (p : Param) → holds (set_guard J s p) ≡ is_set p.name
    set_guard-holds p = G.holds-is_set s.type_letter p.name

    run-guarded_set :
        (p : Param) (m : StringMap)
        → run (guarded_set J s p) m
          ≡ (if (table_entry p).is_set then set_raw (table_entry p).raw m else ok m)
    unfolding set_statement str_statement
    run-guarded_set p m =
        let set = set_statement J s (basic_info J p) in
        elim (Bool-cases p.required) [
          | inl needed ↦ simp needed (G.run-inline set m ∙ run-set_statement p m)
          | inr optional ↦ simp optional (
              G.run-if (set_guard J s p) set m
              ∙ ap (λ b. if b then run set m else ok m) (set_guard-holds p)
              ∙ ap (λ r. if is_set p.name then r else ok m) (run-set_statement p m))
        ]

    guarded_set-IsSetting : (p : Param) → IsSetting J (guarded_set J s p)
    unfolding set_statement
    guarded_set-IsSetting p =
        let text_code = statement (str_statement J s (basic_info J p)) in
        elim (Bool-cases p.required) [
          | inl needed ↦ (text_code, inl (simp needed refl))
          | inr optional ↦ (text_code, inr (set_guard J s p, simp optional refl))
        ]

    -- The statements of Named do what the assignments of the table do.
    pub exec-guarded_set :
        (ps : List Param) (rest : Group J) (flags m : StringMap)
        → exec (map (guarded_set J s) ps ++ rest) flags m
          ≡ (set_params (table ps) m >>= exec rest flags)
    unfolding set_params
    exec-guarded_set [] rest flags m = refl
    exec-guarded_set (p ∷ ps) rest flags m =
        G.exec-setting (guarded_set J s p) (map (guarded_set J s) ps ++ rest) flags m
          (guarded_set-IsSetting p)
        ∙ ap (λ r. r >>= exec (map (guarded_set J s) ps ++ rest) flags) (run-guarded_set p m)
        ∙ >>=_behind _ _ _ _ (exec-guarded_set ps rest flags)

    result-value :
        (p : Param)
        → result (return_pair J s (value_statement J s (basic_info J p)) true)
          ≡ (slice_from (table_entry p).raw 2 >>= λ v. ok (v, true))
    unfolding value_statement
    result-value p =
        G.result-return (value_statement J s (basic_info J p)) true
        ∙ ap (λ r. r >>= λ v. ok (v, true))
            (G.value-slice (str_statement J s (basic_info J p))
              ∙ ap (λ t. slice_from t 2) (text-str_statement p))

    -- What the case of a parameter returns.
    abbrev taken : NamedParam → Result (Bytes × Bool)
    taken p = if p.is_set then (slice_from p.raw 2 >>= λ v. ok (v, true)) else ok ([], false)

    abbrev case_body : Param → List J.Code
    case_body p =
        if p.required
        then return_pair J s (value_statement J s (basic_info J p)) true
        else J.bracket if_of (set_guard J s p)
          ++ J.bracket block_of
              (statement (return_pair J s (value_statement J s (basic_info J p)) true) ∷ [])
          ++ J.word else_word
          ++ J.bracket block_of (statement (return_pair J s (lit_string []) false) ∷ [])

    result-case_body : (p : Param) → result (case_body p) ≡ taken (table_entry p)
    unfolding value_statement str_statement
    result-case_body p =
        let found = return_pair J s (value_statement J s (basic_info J p)) true in
        let missing = return_pair J s (lit_string []) false in
        elim (Bool-cases p.required) [
          | inl needed ↦ simp needed (result-value p)
          | inr optional ↦ simp optional (
              G.result-if (set_guard J s p) found missing
              ∙ ap (λ b. if b then result found else result missing) (set_guard-holds p)
              ∙ ap (λ r. if is_set p.name then r else result missing) (result-value p)
              ∙ ap
                  (λ r.
                    if is_set p.name
                    then (slice_from (table_entry p).raw 2 >>= λ v. ok (v, true))
                    else r)
                  (G.result-return (lit_string []) false
                    ∙ ap (λ r. r >>= λ v. ok (v, false)) (G.value-literal [])))
        ]

    -- The constants of the parameters have their names as their values.
    abbrev pub AreDefined : Group J → List Param → Type 0
    AreDefined consts =
        All (λ p.
          defined consts (s.flag_type_name ++ flag_name_from_param p) ≡ flag_name_from_param p)

    switched-guarded_get :
        (consts : Group J) (ps : List Param) (key : Bytes)
        → AreDefined consts ps
        → switched consts (codes_of J (map (guarded_get J s) ps)) key
          ≡ elim (find_param (table ps) key) [ none ↦ none | some p ↦ some (taken p) ]
    unfolding find_param
    switched-guarded_get consts [] key names = G.switched-end consts key
    switched-guarded_get consts (p ∷ ps) key (named, names) =
        let name = flag_name_from_param p in
        G.switched-case consts (s.flag_type_name ++ name) (case_body p)
          (codes_of J (map (guarded_get J s) ps)) key
        ∙ ap
            (λ c.
              if equal key c
              then some (result (case_body p))
              else switched consts (codes_of J (map (guarded_get J s) ps)) key)
            named
        ∙ elim (Bool-cases (equal key name)) [
          | inl same ↦ simp same (ap (λ r. some r) (result-case_body p))
          | inr other ↦ simp other (switched-guarded_get consts ps key names)
        ]

    taken_lem : (p : NamedParam) → taken p ≡ (if p.is_set then value_text p else ok ([], false))
    unfolding value_text
    taken_lem p = elim (Bool-cases p.is_set) [
      | inl there ↦ rw there refl
      | inr missing ↦ rw missing refl
    ]

    -- The switch of NamedGet, and behind it the lookup in the flags.
    pub answer-careful_get :
        (consts rest : Group J) (ps : List Param) (flags : StringMap) (key : Bytes)
        → AreDefined consts ps
        → answer consts rest flags key ≡ ok (map_get flags key)
        → elim (switched consts (codes_of J (map (guarded_get J s) ps)) key) [
          | some r ↦ r
          | none ↦ answer consts rest flags key
        ]
          ≡ careful_get (table ps) flags key
    answer-careful_get consts rest ps flags key names looked =
        ap (λ c. elim c [ some r ↦ r | none ↦ answer consts rest flags key ])
          (switched-guarded_get consts ps key names)
        ∙ elim (Option-cases (find_param (table ps) key)) [
          | inl unknown ↦ rw (unknown, careful_get) looked
          | inr (p, known) ↦ rw (known, careful_get) (taken_lem p)
        ]
