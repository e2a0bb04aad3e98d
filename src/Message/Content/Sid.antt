-- ===== src/Message/Content/Sid.antt =====
-- protocol/message/content_sid.go
use adcl.Prelude.{Bytes, [], ◌∷◌, ok, Option}
use adcl.Encoding.Base32Value.{Base32Value}
use adcl.Message.Params.{StringMap, map_get, ParamAccessor}
use adcl.Message.Content.Tables.{case_at}

pub record SidContent : Type 0 where
  pub sid : Option Base32Value
  pub sid_str : Bytes
  pub flags : StringMap

unfoldable pub accessor : SidContent → ParamAccessor
accessor s = record {
  positional = s.sid_str ∷ [];
  pos_len = 1;
  pos_at = case_at (s.sid_str ∷ []);
  named = ok s.flags;
  named_get = λ key. ok (map_get s.flags key);
}
