-- ===== src/Generator/Debug.antt =====
-- protocol/generator/debug: the command that runs the generator, and the content that it has
-- generated.
pub mod Content
use adcl.Prelude.{Bool, true, false, Bytes, List, [], ◌∷◌, ◌++◌, codes, Result, ok, err, panic}
use adcl.Generator.Jen.{Jen}
use adcl.Generator.MessageModel.{ParamMode, param_mode_positional, param_mode_named, Param, Message}
use adcl.Generator.StructGenerator.{new_struct_generator}
use adcl.Generator.StructGenerator.File.{generate}

-- A parameter of the literals, with the fields that they leave out.
abbrev pub param_of : ParamMode → Bytes → Bytes → Bool → Param
param_of mode name type required = record {
  mode = mode;
  name = name;
  flag_name = [];
  type = type;
  mapper = [];
  required = required;
  comment = [];
}

abbrev pub sid_command : Message
sid_command = record {
  command = codes "SID";
  positional_params = param_of param_mode_positional (codes "SID") (codes "base32") true ∷ [];
  named_params = [];
  flags = [];
}

abbrev pub res_command : Message
res_command = record {
  command = codes "RES";
  positional_params = [];
  named_params =
      param_of param_mode_named (codes "FN") (codes "string") true
      ∷ param_of param_mode_named (codes "SI") (codes "int") true
      ∷ param_of param_mode_named (codes "SL") (codes "int") false
      ∷ param_of param_mode_named (codes "TO") (codes "string") true
      ∷ param_of param_mode_named (codes "TR") (codes "base32") false
      ∷ param_of param_mode_named (codes "TD") (codes "int") false
      ∷ [];
  flags =
      record {
        comment =
            codes "FI, FO, DA; EXT "
            ++ (b'\xC2'
                ∷ b'\xA7'
                ∷ codes " 3.27 ASCH - Extended searching capability (EXT v1.0.8)");
      }
      ∷ [];
}

-- What is printed, or a panic with the error.
abbrev pub printed_or_panic : Result Bytes → Result Bytes
printed_or_panic (err e) = panic
printed_or_panic r = r

unfoldable pub main : Jen → Result Bytes
main J = printed_or_panic (generate J (new_struct_generator J res_command)).0
