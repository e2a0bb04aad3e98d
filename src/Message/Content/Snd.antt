-- ===== src/Message/Content/Snd.antt =====
-- protocol/message/content_snd.go
use adcl.Prelude.{Bytes, [], ◌∷◌, ok, ℤ}
use adcl.Message.Params.{StringMap, map_get, ParamAccessor}
use adcl.Message.Content.Tables.{case_at}

pub record SndContent : Type 0 where
  pub namespace : Bytes
  pub namespace_str : Bytes
  pub identifer : Bytes
  pub identifier_str : Bytes
  pub start_pos : ℤ
  pub start_pos_str : Bytes
  pub bytes : ℤ
  pub bytes_str : Bytes
  pub flags : StringMap

unfoldable pub accessor : SndContent → ParamAccessor
accessor s = record {
  positional = s.namespace_str ∷ s.identifier_str ∷ s.start_pos_str ∷ s.bytes_str ∷ [];
  pos_len = 4;
  pos_at = case_at (s.namespace_str ∷ s.identifier_str ∷ s.start_pos_str ∷ s.bytes_str ∷ []);
  named = ok s.flags;
  named_get = λ key. ok (map_get s.flags key);
}
