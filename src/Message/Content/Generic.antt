-- ===== src/Message/Content/Generic.antt =====
-- protocol/message/message.go: the content of a command without a type of its own.
use adcl.Prelude.{Bytes, List, ok, length}
use adcl.Message.Params.{StringMap, map_get, ParamAccessor, index_slice}

pub record GenericContent : Type 0 where
  pub positional_params : List Bytes
  pub named_params : StringMap

unfoldable pub accessor : GenericContent → ParamAccessor
accessor g = record {
  positional = g.positional_params;
  pos_len = length g.positional_params;
  pos_at = index_slice g.positional_params;
  named = ok g.named_params;
  named_get = λ key. ok (map_get g.named_params key);
}
