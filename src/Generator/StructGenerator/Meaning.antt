-- ===== src/Generator/StructGenerator/Meaning.antt =====
-- protocol/generator/struct_generator.go: what the bodies that the generator writes for Named and
-- NamedGet mean in Go, as far as they are made of these codes.
pub mod Agree
pub mod Bodies
use mathlib.Core.List.{map}
use adcl.Prelude.{
  ◌≡◌, refl, ap, ◌∙◌, sym, Bool, true, false, ◌||◌, Bytes, List, [], ◌∷◌, ◌++◌, append-nil, codes,
  Result, ok, err, panic, drop, ◌>>=◌, Option, none, some, if◌then◌else◌, equal, slice_from, All,
  Bool-cases, Option-cases, inl, inr, ◌⊎◌,
}
use adcl.Message.Params.{StringMap, map_get}
use adcl.Message.Content.Tables.{
  NamedParam, param, copy_flags, set_raw, set_params, named_with, find_param, value_text,
}
use adcl.Message.Content.Tables.Lookup.{IsPlaced, AreDistinct, IsMap}
use adcl.Message.Content.Tables.Careful.{AreOthers, careful_get, named_with-careful_get}
use adcl.Generator.Jen.{
  Statement, map_of, make_of, for_of, switch_of, parens_of, string_word, range_word, line_word, Jen,
  Group, codes_of, if_of, block_of, index_of, return_of, list_of, case_of, else_word, empty_word,
}
use adcl.Generator.MessageModel.{Param, Message}
use adcl.Generator.Mappers.{flag_name_from_param, to_lower_camel_case}
use adcl.Generator.StructGenerator.{StructGenerator, prepare_names, selected}
use adcl.Generator.StructGenerator.Params.{
  str_statement, set_statement, value_statement, return_pair, named_statements, named_get_cases,
}
use adcl.Generator.StructGenerator.Prepared.{basic_info, basic_infos, prepared}
use adcl.Generator.StructGenerator.Methods.{set_guard, guarded_set, guarded_get, named_methods}

module _ (J : Jen) where
  -- `params[s[:2]] = s[2:]`
  abbrev pub setting : J.Code → Statement J
  setting s =
      J.id (codes "params")
      ++ J.bracket index_of (
          J.statement (
            s
            ∷ J.bracket index_of (J.statement (J.word empty_word) ∷ J.statement (J.lit_int 2) ∷ []))
          ∷ [])
      ++ (J.op (codes "=")
          ∷ s
          ∷ J.bracket index_of (J.statement (J.lit_int 2) ∷ J.statement (J.word empty_word) ∷ []))

  -- Such a statement, or one under an `if`.
  abbrev pub IsSetting : Statement J → Type 0
  IsSetting b =
      (s : J.Code) × ((b ≡ J.statement (setting s) ∷ [])
        ⊎ ((c : List J.Code) × (b
              ≡ J.bracket if_of c ++ J.bracket block_of (J.statement (setting s) ∷ []))))

  -- `key, val`
  abbrev pub pair : List J.Code
  pair =
      J.bracket list_of (J.statement (J.id (codes "key")) ∷ J.statement (J.id (codes "val")) ∷ [])

  -- The declaration of a constant, with or without its type.
  abbrev pub declared : Bytes → Bool → Bytes → Bytes → Statement J
  declared c typed t v =
      J.id c ++ (if typed then J.id t else []) ++ (J.op (codes "=") ∷ []) ++ J.lit_string v

-- The meaning of Go for the codes that the two methods are made of, at one receiver: its fields by
-- their names. The flags are the map in its field Flags.
pub record Meaning (J : Jen) : Type 0 where
  pub field : Bytes → Bytes
  pub is_set : Bytes → Bool
  -- An operand that is a text, a condition, a value that is returned.
  pub text : J.Code → Bytes
  pub holds : List J.Code → Bool
  pub value : List J.Code → Result Bytes
  -- A statement on the map `params`, one that returns, and the cases of a switch, of which the
  -- first with the key is taken.
  pub run : List J.Code → StringMap → Result StringMap
  pub result : List J.Code → Result (Bytes × Bool)
  pub switched : Group J → List J.Code → Bytes → Option (Result (Bytes × Bool))
  -- The value of a constant of a group of declarations; what a body makes of the flags and the map
  -- `params`, and returns; what a body returns for the flags and `key`, with the constants.
  pub defined : Group J → Bytes → Bytes
  pub exec : Group J → StringMap → StringMap → Result StringMap
  pub answer : Group J → Group J → StringMap → Bytes → Result (Bytes × Bool)
  -- `x.name`, `x.name.IsSet`, `s[2:]` and a literal.
  pub text-field :
      (x name : Bytes)
      → text (J.statement (J.id x ++ J.dot [] ++ (J.statement (J.id name) ∷ []))) ≡ field name
  pub holds-is_set :
      (x name : Bytes)
      → holds (
          J.statement
            ((J.id x ++ J.dot [] ++ (J.statement (J.id name) ∷ [])) ++ J.dot (codes "IsSet"))
          ∷ [])
        ≡ is_set name
  pub value-slice :
      (cs : List J.Code)
      → value (
          cs
          ++ J.bracket index_of (J.statement (J.lit_int 2) ∷ J.statement (J.word empty_word) ∷ []))
        ≡ slice_from (text (J.statement cs)) 2
  pub value-literal : (t : Bytes) → value (J.lit_string t) ≡ ok t
  -- `params[s[:2]] = s[2:]`, a statement in the place of another, and `if c { b }`.
  pub run-set : (s : J.Code) (m : StringMap) → run (setting J s) m ≡ set_raw (text s) m
  pub run-inline : (b : List J.Code) (m : StringMap) → run (J.statement b ∷ []) m ≡ run b m
  pub run-if :
      (c b : List J.Code) (m : StringMap)
      → run (J.bracket if_of c ++ J.bracket block_of (J.statement b ∷ [])) m
        ≡ (if holds c then run b m else ok m)
  -- `return t, b`, and `if c { a } else { b }`.
  pub result-return :
      (t : List J.Code) (b : Bool)
      → result (
          J.bracket return_of (
            J.statement (J.bracket list_of (J.statement t ∷ J.statement (J.lit_bool b) ∷ [])) ∷ []))
        ≡ (value t >>= λ v. ok (v, b))
  pub result-if :
      (c a b : List J.Code)
      → result (
          J.bracket if_of c
          ++ J.bracket block_of (J.statement a ∷ [])
          ++ J.word else_word
          ++ J.bracket block_of (J.statement b ∷ []))
        ≡ (if holds c then result a else result b)
  pub switched-end : (consts : Group J) (key : Bytes) → switched consts [] key ≡ none
  pub switched-case :
      (consts : Group J) (c : Bytes) (body rest : List J.Code) (key : Bytes)
      → switched consts
          (J.statement (J.bracket case_of (J.statement (J.id c) ∷ []) ++ body) ∷ rest)
          key
        ≡ (if equal key (defined consts c) then some (result body) else switched consts rest key)
  -- A constant is the one that is declared with its name.
  pub defined-here :
      (c t v : Bytes) (typed : Bool) (rest : Group J)
      → defined (declared J c typed t v ∷ rest) c ≡ v
  pub defined-behind :
      (c t v k : Bytes) (typed : Bool) (rest : Group J)
      → equal c k ≡ false
      → defined (declared J c typed t v ∷ rest) k ≡ defined rest k
  -- `return x.Flags`, `params := make(map[string]string)`, an empty line, the loop that copies the
  -- flags, a statement that sets an entry, and `return params`.
  pub exec-flags :
      (x : Bytes) (flags m : StringMap)
      → exec (J.bracket return_of (J.statement (J.id x ++ J.dot (codes "Flags")) ∷ []) ∷ []) flags m
        ≡ ok flags
  pub exec-make :
      (rest : Group J) (flags m : StringMap)
      → exec
          ((J.id (codes "params")
              ++ (J.op (codes ":=") ∷ [])
              ++ J.bracket make_of (
                  J.statement
                    (J.bracket map_of (J.statement (J.word string_word) ∷ []) ++ J.word string_word)
                  ∷ []))
            ∷ rest)
          flags
          m
        ≡ exec rest flags []
  pub exec-line :
      (rest : Group J) (flags m : StringMap)
      → exec (J.word line_word ∷ rest) flags m ≡ exec rest flags m
  pub exec-copy :
      (x : Bytes) (rest : Group J) (flags m : StringMap)
      → exec
          ((J.bracket for_of (
                J.statement (
                  pair J
                  ++ (J.op (codes ":=") ∷ [])
                  ++ J.word range_word
                  ++ (J.id x ++ J.dot (codes "Flags")))
                ∷ [])
              ++ J.bracket block_of (
                  J.statement (
                    J.id (codes "params")
                    ++ J.bracket index_of (J.statement (J.id (codes "key")) ∷ [])
                    ++ (J.op (codes "=") ∷ [])
                    ++ J.id (codes "val"))
                  ∷ []))
            ∷ rest)
          flags
          m
        ≡ exec rest flags (copy_flags flags m)
  pub exec-setting :
      (b : Statement J) (rest : Group J) (flags m : StringMap)
      → IsSetting J b
      → exec (b ∷ rest) flags m ≡ (run b m >>= exec rest flags)
  pub exec-return :
      (flags m : StringMap)
      → exec (J.bracket return_of (J.statement (J.id (codes "params")) ∷ []) ∷ []) flags m ≡ ok m
  -- `switch T(key)`, an empty line, and `key, val := x.Flags[key]` with `return key, val`.
  pub answer-switch :
      (consts cases rest : Group J) (t : Bytes) (flags : StringMap) (key : Bytes)
      → answer consts
          ((J.bracket switch_of (
                J.statement (J.id t ++ J.bracket parens_of (J.statement (J.id (codes "key")) ∷ []))
                ∷ [])
              ++ J.bracket block_of (codes_of J cases))
            ∷ rest)
          flags
          key
        ≡ elim (switched consts (codes_of J cases) key) [
          | some r ↦ r
          | none ↦ answer consts rest flags key
        ]
  pub answer-line :
      (consts rest : Group J) (flags : StringMap) (key : Bytes)
      → answer consts (J.word line_word ∷ rest) flags key ≡ answer consts rest flags key
  pub answer-lookup :
      (x : Bytes) (consts : Group J) (flags : StringMap) (key : Bytes)
      → answer consts
          ((pair J
              ++ (J.op (codes ":=") ∷ [])
              ++ (J.id x ++ J.dot (codes "Flags"))
              ++ J.bracket index_of (J.statement (J.id (codes "key")) ∷ []))
            ∷ J.bracket return_of (J.statement (pair J) ∷ [])
            ∷ [])
          flags
          key
        ≡ ok (map_get flags key)
