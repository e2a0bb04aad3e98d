-- ===== src/Message/Content/Gfi.antt =====
-- protocol/message/content_gfi.go
use adcl.Prelude.{Bytes, [], ◌∷◌, ok}
use adcl.Message.Params.{StringMap, map_get, ParamAccessor}
use adcl.Message.Content.Tables.{case_at}

pub record GfiContent : Type 0 where
  pub namespace : Bytes
  pub namespace_str : Bytes
  pub identifer : Bytes
  pub identifier_str : Bytes
  pub flags : StringMap

unfoldable pub accessor : GfiContent → ParamAccessor
accessor g = record {
  positional = g.namespace_str ∷ g.identifier_str ∷ [];
  pos_len = 2;
  pos_at = case_at (g.namespace_str ∷ g.identifier_str ∷ []);
  named = ok g.flags;
  named_get = λ key. ok (map_get g.flags key);
}
