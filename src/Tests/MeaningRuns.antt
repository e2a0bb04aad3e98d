-- ===== src/Tests/MeaningRuns.antt =====
-- protocol/generator at concrete inputs: the methods for named parameters, over syntax trees.
use adcl.Prelude.{◌≡◌, refl, Bytes, List, [], ◌∷◌, codes, Result, ok, All, inl, inr}
use adcl.Message.Params.{StringMap, map_get}
use adcl.Message.Content.Tables.Lookup.{IsPlaced, AreDistinct, IsMap}
use adcl.Message.Content.Tables.Careful.{AreOthers}
use adcl.Generator.Jen.{Group}
use adcl.Generator.StructGenerator.Params.{
  generate_flag_constants, generate_named, generate_named_get,
}
use adcl.Generator.StructGenerator.Prepared.{prepared}
use adcl.Generator.StructGenerator.Meaning.Agree.{table}
use adcl.Generator.StructGenerator.Meaning.Bodies.{generate_named-generate_named_get}
use adcl.Generator.Debug.{res_command}
use adcl.Tests.TextTrees.{tree_jen}
use adcl.Tests.MeaningTrees.{tree_meaning}

res-IsPlaced : All IsPlaced (table tree_jen tree_meaning res_command.named_params)
unfolding adcl.Prelude.equal adcl.Generator.Mappers.flag_name_from_param
    adcl.Generator.Mappers.to_lower_camel_case adcl.Stdlib.Strings.to_upper
    adcl.Stdlib.Strings.to_lower
res-IsPlaced = (
  inr (_, _, codes "a", refl, refl),
  (
    inr (_, _, codes "5", refl, refl),
    (
      inr (_, _, codes "2", refl, refl),
      (inr (_, _, codes "x", refl, refl), (inl refl, (inl refl, tt))),
    ),
  ),
)

res-AreDistinct : AreDistinct (table tree_jen tree_meaning res_command.named_params)
unfolding adcl.Prelude.equal adcl.Generator.Mappers.flag_name_from_param
    adcl.Message.Content.Tables.find_param
res-AreDistinct = (refl, (refl, (refl, (refl, (refl, (refl, tt))))))

abbrev further : StringMap
further = (codes "FI", codes "1") ∷ []

further-IsMap : IsMap further
unfolding map_get
further-IsMap = (refl, tt)

further-AreOthers : AreOthers further (table tree_jen tree_meaning res_command.named_params)
unfolding map_get adcl.Prelude.equal adcl.Generator.Mappers.flag_name_from_param
further-AreOthers = (refl, (refl, (refl, (refl, (refl, (refl, tt))))))

generate_named-generate_named_get_example :
    (consts get_body : Group tree_jen) × (r : StringMap) × (generate_flag_constants tree_jen
        (prepared tree_jen res_command)
      ≡ ok consts)
    × (generate_named_get tree_jen (prepared tree_jen res_command) ≡ ok get_body)
    × (tree_meaning.exec (generate_named tree_jen (prepared tree_jen res_command)) further []
        ≡ ok r)
    × ((key : Bytes) → tree_meaning.answer consts get_body further key ≡ ok (map_get r key))
generate_named-generate_named_get_example =
    generate_named-generate_named_get tree_jen tree_meaning res_command further res-IsPlaced
      res-AreDistinct further-IsMap further-AreOthers
