-- ===== src/Message/Content/Get.antt =====
-- protocol/message/content_get.go
use adcl.Prelude.{codes, Bytes, List, [], ◌∷◌, ℤ}
use adcl.Message.Maybe.{Maybe}
use adcl.Message.Params.{StringMap, ParamAccessor}
use adcl.Message.Content.Tables.{NamedParam, param, named_with, named_get_with, whole_text, case_at}

pub record GetContent : Type 0 where
  pub namespace : Bytes
  pub namespace_str : Bytes
  pub identifer : Bytes
  pub identifier_str : Bytes
  pub start_pos : ℤ
  pub start_pos_str : Bytes
  pub bytes : ℤ
  pub bytes_str : Bytes
  pub re : Maybe ℤ
  pub re_str : Bytes
  pub flags : StringMap

abbrev pub params : GetContent → List NamedParam
params g = param (codes "RE") g.re_str (g.re.is_set) ∷ []

unfoldable pub accessor : GetContent → ParamAccessor
accessor g = record {
  positional = g.namespace_str ∷ g.identifier_str ∷ g.start_pos_str ∷ g.bytes_str ∷ [];
  pos_len = 4;
  pos_at = case_at (g.namespace_str ∷ g.identifier_str ∷ g.start_pos_str ∷ g.bytes_str ∷ []);
  named = named_with (params g) g.flags;
  named_get = named_get_with whole_text (params g) g.flags;
}
