-- ===== src/Generator/StructGenerator/Texts/Message.antt =====
-- protocol/generator/struct_generator.go: the methods that are generated for a message.
use adcl.Prelude.{Bytes, List, codes, ◌++◌}
use adcl.Generator.Jen.{Jen}
use adcl.Generator.Mappers.{to_lower_camel_case}
use adcl.Generator.MessageModel.{Param, Message}
use adcl.Generator.StructGenerator.Prepared.{prepared}
use adcl.Generator.StructGenerator.Texts.{Texts}

module _ (J : Jen) (m : Message) (T : Texts J (prepared J m).type_letter) where
  -- The text field of a parameter: the one that is named after it.
  abbrev pub text_of : Param → Bytes
  text_of p = T.field (J.statement (J.id (to_lower_camel_case p.name ++ codes "Str")))
