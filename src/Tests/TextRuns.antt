-- ===== src/Tests/TextRuns.antt =====
-- protocol/generator at concrete inputs: the methods for positional parameters, over syntax trees.
use adcl.Prelude.{◌++◌, arith, length, ◌≡◌, refl, false, Bytes, List, [], ◌∷◌, ◌++◌, codes, ok, All}
use adcl.Message.Params.{index_slice}
use adcl.Generator.Jen.{Group, return_of}
use adcl.Generator.MapperModel.{multiplicity_dynamic}
use adcl.Generator.StructGenerator.{StructGenerator}
use adcl.Generator.StructGenerator.Positionals.{generate_positional, generate_pos_len}
use adcl.Generator.StructGenerator.Prepared.{basic_info, prepared}
use adcl.Generator.StructGenerator.Texts.{all_texts}
use adcl.Generator.StructGenerator.Texts.Written.{IsTyped, IsFilled, generate_positional-texts}
use adcl.Generator.StructGenerator.Texts.Count.{generate_positional-generate_pos_len}
use adcl.Generator.MessageModel.{Message}
use adcl.Generator.Mappers.{to_lower_camel_case}
use adcl.Message.Params.{index_slice}
use adcl.Generator.Debug.{sid_command}
use adcl.Tests.GeneratorRuns.{slots}
use adcl.Tests.TextTrees.{Tree, trees, tree_jen, plural, body, tree_texts, tree_sums, sum_of}

-- A parameter of one text, one of two texts and one of as many texts as there are.
abbrev mixed : StructGenerator tree_jen
mixed =
    let info = basic_info tree_jen slots in
    record (prepared tree_jen sid_command) {
      positional_params =
          info
          ∷ record info {
            field_info = record info.field_info {
              static_multiplicity = 2;
              str_is_singular = false;
            };
          }
          ∷ record info {
            field_info = record info.field_info {
              multiplicity = multiplicity_dynamic;
              str_is_singular = false;
            };
          }
          ∷ [];
    }

mixed-IsTyped : All (IsTyped tree_jen mixed (tree_texts mixed.type_letter)) mixed.positional_params
mixed-IsTyped = ((λ h. refl), ((λ h. refl), ((λ h. absurd cc), tt)))

generate_positional-texts_example :
    (g : Group tree_jen) × (generate_positional tree_jen mixed ≡ ok g)
    × (body g ≡ all_texts tree_jen mixed (tree_texts mixed.type_letter) mixed.positional_params)
generate_positional-texts_example =
    generate_positional-texts tree_jen mixed (tree_texts mixed.type_letter) mixed-IsTyped

-- The texts of the three parameters.
mixed-texts :
    all_texts tree_jen mixed (tree_texts mixed.type_letter) mixed.positional_params
    ≡ ok (codes "slStr" ∷ (plural ++ plural))
unfolding to_lower_camel_case adcl.Prelude.equal adcl.Stdlib.Strings.to_upper
    adcl.Stdlib.Strings.to_lower
mixed-texts = refl

mixed-IsFilled :
    All (IsFilled tree_jen mixed (tree_texts mixed.type_letter)) mixed.positional_params
mixed-IsFilled = (
  (refl, λ h. (refl, refl), λ h e. absurd cc),
  ((refl, λ h. absurd cc, λ h e. omega arith), ((refl, λ h. absurd cc, λ h e. absurd cc), tt)),
)

generate_positional-generate_pos_len_example :
    (g : Group tree_jen) × (e : List Tree) × (xs : List Bytes) × (generate_positional tree_jen mixed
      ≡ ok g)
    × (generate_pos_len tree_jen mixed
        ≡ ok (tree_jen.bracket return_of (tree_jen.statement e ∷ []) ∷ []))
    × (body g ≡ ok xs)
    × (sum_of (trees e) ≡ length xs)
generate_positional-generate_pos_len_example =
    generate_positional-generate_pos_len tree_jen mixed (tree_texts mixed.type_letter) tree_sums
      (λ c. refl) mixed-IsFilled

-- A parameter of one text and one of two texts.
abbrev two_static : StructGenerator tree_jen
two_static =
    let info = basic_info tree_jen slots in
    record (prepared tree_jen sid_command) {
      positional_params =
          info
          ∷ record info {
            field_info = record info.field_info {
              static_multiplicity = 2;
              str_is_singular = false;
            };
          }
          ∷ [];
    }

-- A message with two positional parameters.
abbrev two_params : Message
two_params = record sid_command {
  positional_params = slots ∷ record slots { name = codes "To" } ∷ [];
}

abbrev two_names : List Bytes
two_names =
    (to_lower_camel_case slots.name ++ codes "Str")
    ∷ (to_lower_camel_case (codes "To") ++ codes "Str")
    ∷ []
