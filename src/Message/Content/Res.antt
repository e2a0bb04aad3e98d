-- ===== src/Message/Content/Res.antt =====
-- protocol/message/content_res.go
use adcl.Prelude.{Option, codes, true, Bytes, List, [], ◌∷◌, ℤ}
use adcl.Encoding.Base32Value.{Base32Value}
use adcl.Message.Maybe.{Maybe}
use adcl.Message.Params.{StringMap, ParamAccessor}
use adcl.Message.Content.Tables.{NamedParam, param, named_with, named_get_with, value_text, case_at}

pub record ResContent : Type 0 where
  pub fn : Bytes
  pub fn_str : Bytes
  pub si : ℤ
  pub si_str : Bytes
  pub sl : Maybe ℤ
  pub sl_str : Bytes
  pub to : Bytes
  pub to_str : Bytes
  pub tr : Maybe (Option Base32Value)
  pub tr_str : Bytes
  pub td : Maybe ℤ
  pub td_str : Bytes
  pub flags : StringMap

abbrev pub params : ResContent → List NamedParam
params r =
    param (codes "FN") r.fn_str (true)
    ∷ param (codes "SI") r.si_str (true)
    ∷ param (codes "SL") r.sl_str (r.sl.is_set)
    ∷ param (codes "TO") r.to_str (true)
    ∷ param (codes "TR") r.tr_str (r.tr.is_set)
    ∷ param (codes "TD") r.td_str (r.td.is_set)
    ∷ []

unfoldable pub accessor : ResContent → ParamAccessor
accessor r = record {
  positional = [];
  pos_len = 0;
  pos_at = case_at [];
  named = named_with (params r) r.flags;
  named_get = named_get_with value_text (params r) r.flags;
}
