-- ===== src/Message/Content/Sup.antt =====
-- protocol/message/content_sup.go
use adcl.Prelude.{Bytes, List, ok, length}
use adcl.Message.Feature.{FeatureOp}
use adcl.Message.Params.{StringMap, map_get, ParamAccessor, index_slice}

pub record SupContent : Type 0 where
  pub feature_ops : List FeatureOp
  pub feature_strs : List Bytes
  pub flags : StringMap

unfoldable pub accessor : SupContent → ParamAccessor
accessor s = record {
  positional = s.feature_strs;
  pos_len = length s.feature_strs;
  pos_at = index_slice s.feature_strs;
  named = ok s.flags;
  named_get = λ key. ok (map_get s.flags key);
}
