-- ===== src/Message/Content/Pas.antt =====
-- protocol/message/content_pas.go
use adcl.Prelude.{Bytes, [], ◌∷◌, ok, Option}
use adcl.Encoding.Base32Value.{Base32Value}
use adcl.Message.Params.{StringMap, map_get, ParamAccessor}
use adcl.Message.Content.Tables.{case_at}

pub record PasContent : Type 0 where
  pub password : Option Base32Value
  pub password_str : Bytes
  pub flags : StringMap

unfoldable pub accessor : PasContent → ParamAccessor
accessor p = record {
  positional = p.password_str ∷ [];
  pos_len = 1;
  pos_at = case_at (p.password_str ∷ []);
  named = ok p.flags;
  named_get = λ key. ok (map_get p.flags key);
}
