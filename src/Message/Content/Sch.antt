-- ===== src/Message/Content/Sch.antt =====
-- protocol/message/content_sch.go
use adcl.Prelude.{Option, codes, Bytes, List, [], ◌∷◌, length, ℤ}
use adcl.Encoding.Base32Value.{Base32Value}
use adcl.Message.Maybe.{Maybe}
use adcl.Message.Search.{SearchTerm}
use adcl.Message.Params.{StringMap, ParamAccessor, index_slice}
use adcl.Message.Content.Tables.{NamedParam, param, named_with, named_get_with, whole_text}

pub record SchContent : Type 0 where
  pub search_terms : List SearchTerm
  pub search_term_strs : List Bytes
  pub tr : Maybe (Option Base32Value)
  pub tr_str : Bytes
  pub td : Maybe ℤ
  pub td_str : Bytes
  pub flags : StringMap

abbrev pub params : SchContent → List NamedParam
params s =
    param (codes "TR") s.tr_str (s.tr.is_set) ∷ param (codes "TD") s.td_str (s.td.is_set) ∷ []

unfoldable pub accessor : SchContent → ParamAccessor
accessor s = record {
  positional = s.search_term_strs;
  pos_len = length s.search_term_strs;
  pos_at = index_slice s.search_term_strs;
  named = named_with (params s) s.flags;
  named_get = named_get_with whole_text (params s) s.flags;
}
