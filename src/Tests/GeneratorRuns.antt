-- ===== src/Tests/GeneratorRuns.antt =====
-- protocol/generator at concrete inputs, with the text of the code in the place of jen.
use mathlib.Core.List.{map}
use adcl.Prelude.{
  ℕ, ◌+◌, ◌≡◌, refl, ap, ◌∙◌, Bool, true, false, Bytes, List, [], ◌∷◌, ◌++◌, append_assoc, codes,
  Option, none, some, Result, ok, err, arith, if◌then◌else◌, length, ◌==◌, unknown_type_name,
  unknown_mapper_name,
}
use adcl.Stdlib.Strconv.{format_uint}
use adcl.Generator.Jen.{
  Jen, Group, Word, int_word, string_word, Bracket, len_of, return_of, index_of,
}
use adcl.Generator.MessageModel.{Param, param_mode_named, Message}
use adcl.Generator.Types.{basic_type_spec, type_spec_from_name}
use adcl.Generator.Types.Resolve.{type_spec_from_name_lem, is_type_name, resolved_name}
use adcl.Generator.StructGenerator.{new_struct_generator}
use adcl.Generator.StructGenerator.File.{generate_file, generate}
use adcl.Generator.StructGenerator.Prepared.{first_fault, prepared}
use adcl.Generator.StructGenerator.Total.{generate-prepared, generate-fault}
use adcl.Generator.Debug.{param_of, sid_command, res_command}

-- The codes of a list behind one another.
abbrev joined : List Bytes → Bytes
joined [] = []
joined (c ∷ cs) = c ++ joined cs

abbrev word_text : Word → Bytes
word_text int_word = codes "int"
word_text string_word = codes "string"
word_text _ = codes "word"

abbrev bracket_text : Bracket → Bytes
bracket_text return_of = codes "return "
bracket_text len_of = codes "len"
bracket_text index_of = []
bracket_text _ = codes "f"

abbrev in_brackets : Bracket → Bytes → Bytes
in_brackets return_of text = text
in_brackets index_of text = codes "[" ++ text ++ codes "]"
in_brackets _ text = codes "(" ++ text ++ codes ")"

abbrev pub text_jen : Jen
text_jen = record {
  Code = Bytes;
  statement = joined;
  op = λ o. o;
  word = λ w. word_text w ∷ [];
  bracket = λ b cs. bracket_text b ∷ in_brackets b (joined cs) ∷ [];
  id = λ name. name ∷ [];
  dot = λ name. (codes "." ++ name) ∷ [];
  qual = λ path name. (path ++ codes "." ++ name) ∷ [];
  lit_int = λ n. format_uint n ∷ [];
  lit_string = λ text. text ∷ [];
  lit_bool = λ b. (if b then codes "true" else codes "false") ∷ [];
  comment = λ text. (codes "// " ++ text) ∷ [];
  render = λ name statements. codes "package " ++ name ++ joined (map joined statements);
}

type_spec_from_name_lem_example : type_spec_from_name text_jen (codes "float") ≡ (
    if is_type_name (codes "float")
    then ok (basic_type_spec text_jen (resolved_name (codes "float")))
    else err unknown_type_name)
type_spec_from_name_lem_example = type_spec_from_name_lem text_jen (codes "float")

abbrev pub slots : Param
slots = param_of param_mode_named (codes "SL") (codes "int") false

abbrev unmapped : Param
unmapped = record slots { mapper = codes "list" }

no_positional_fault : first_fault res_command.positional_params ≡ none
no_positional_fault = refl

no_named_fault : first_fault res_command.named_params ≡ none
unfolding adcl.Prelude.equal
no_named_fault = refl

generate-prepared_example :
    (file : Group text_jen) × (generate_file text_jen (prepared text_jen res_command) ≡ ok file)
    × (generate text_jen (new_struct_generator text_jen res_command) ≡ (
      ok (text_jen.render (codes "message") file ++ codes "\n"),
      prepared text_jen res_command,
    ))
generate-prepared_example =
    generate-prepared text_jen res_command no_positional_fault no_named_fault

-- The message with a parameter of a mapper that there is not.
abbrev faulty : Message
faulty = record sid_command { named_params = slots ∷ unmapped ∷ [] }

faulty-fault :
    elim (first_fault faulty.positional_params) [
      | some f ↦ some f
      | none ↦ first_fault faulty.named_params
    ]
    ≡ some unknown_mapper_name
unfolding adcl.Prelude.equal
faulty-fault = refl

generate-fault_example :
    (generate text_jen (new_struct_generator text_jen faulty)).0 ≡ err unknown_mapper_name
generate-fault_example = generate-fault text_jen faulty unknown_mapper_name faulty-fault
