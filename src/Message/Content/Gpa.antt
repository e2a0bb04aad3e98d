-- ===== src/Message/Content/Gpa.antt =====
-- protocol/message/content_gpa.go
use adcl.Prelude.{Bytes, [], ◌∷◌, ok, Option}
use adcl.Encoding.Base32Value.{Base32Value}
use adcl.Message.Params.{StringMap, map_get, ParamAccessor}
use adcl.Message.Content.Tables.{case_at}

pub record GpaContent : Type 0 where
  pub data_value : Option Base32Value
  pub data_str : Bytes
  pub flags : StringMap

unfoldable pub accessor : GpaContent → ParamAccessor
accessor g = record {
  positional = g.data_str ∷ [];
  pos_len = 1;
  pos_at = case_at (g.data_str ∷ []);
  named = ok g.flags;
  named_get = λ key. ok (map_get g.flags key);
}
