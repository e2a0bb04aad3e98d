-- ===== src/Generator/MessageModel.antt =====
-- protocol/generator/message_model.go
use adcl.Prelude.{ℕ, Bool, Bytes, List, codes, ◌++◌}
use adcl.Stdlib.Strconv.{format_uint}

-- `other` is an int that is none of the constants.
pub data ParamMode : Type 0 where
  param_mode_positional param_mode_named : ParamMode
  other : (n : ℕ) → ParamMode

unfoldable pub mode_string : ParamMode → Bytes
mode_string param_mode_positional = codes "positional"
mode_string param_mode_named = codes "named"
mode_string (other n) = codes "ParamMode(" ++ format_uint n ++ codes ")"

pub record Param : Type 0 where
  pub mode : ParamMode
  pub name : Bytes
  pub flag_name : Bytes
  pub type : Bytes
  pub mapper : Bytes
  pub required : Bool
  pub comment : Bytes

pub record Flag : Type 0 where
  pub comment : Bytes

pub record Message : Type 0 where
  pub command : Bytes
  pub positional_params : List Param
  pub named_params : List Param
  pub flags : List Flag
