-- ===== src/Message/Content/Rcm.antt =====
-- protocol/message/content_rcm.go
use adcl.Prelude.{Bytes, [], ◌∷◌, ok}
use adcl.Message.Params.{StringMap, map_get, ParamAccessor}
use adcl.Message.Content.Tables.{case_at}

pub record RcmContent : Type 0 where
  pub protocol : Bytes
  pub protocol_str : Bytes
  pub token : Bytes
  pub token_str : Bytes
  pub flags : StringMap

unfoldable pub accessor : RcmContent → ParamAccessor
accessor r = record {
  positional = r.protocol_str ∷ r.token_str ∷ [];
  pos_len = 2;
  pos_at = case_at (r.protocol_str ∷ r.token_str ∷ []);
  named = ok r.flags;
  named_get = λ key. ok (map_get r.flags key);
}
