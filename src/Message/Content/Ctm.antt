-- ===== src/Message/Content/Ctm.antt =====
-- protocol/message/content_ctm.go
use adcl.Prelude.{Bytes, [], ◌∷◌, ok}
use adcl.Message.Params.{StringMap, map_get, ParamAccessor}
use adcl.Message.Content.Tables.{case_at}

pub record CtmContent : Type 0 where
  pub protocol : Bytes
  pub protocol_str : Bytes
  pub port : Bytes
  pub port_str : Bytes
  pub token : Bytes
  pub token_str : Bytes
  pub flags : StringMap

unfoldable pub accessor : CtmContent → ParamAccessor
accessor c = record {
  positional = c.protocol_str ∷ c.port_str ∷ c.token_str ∷ [];
  pos_len = 3;
  pos_at = case_at (c.protocol_str ∷ c.port_str ∷ c.token_str ∷ []);
  named = ok c.flags;
  named_get = λ key. ok (map_get c.flags key);
}
