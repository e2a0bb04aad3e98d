-- ===== src/Message/Content/Qui.antt =====
-- protocol/message/content_qui.go
use adcl.Prelude.{codes, Bytes, List, [], ◌∷◌, Option, ℤ}
use adcl.Encoding.Base32Value.{Base32Value}
use adcl.Message.Maybe.{Maybe}
use adcl.Message.Params.{StringMap, ParamAccessor}
use adcl.Message.Content.Tables.{NamedParam, param, named_with, named_get_with, whole_text, case_at}

pub record QuiContent : Type 0 where
  pub sid : Option Base32Value
  pub sid_str : Bytes
  pub id : Maybe (Option Base32Value)
  pub id_str : Bytes
  pub tl : Maybe ℤ
  pub tl_str : Bytes
  pub ms : Maybe Bytes
  pub ms_str : Bytes
  pub rd : Maybe Bytes
  pub rd_str : Bytes
  pub di : Maybe Bytes
  pub di_str : Bytes
  pub flags : StringMap

abbrev pub params : QuiContent → List NamedParam
params q =
    param (codes "ID") q.id_str (q.id.is_set)
    ∷ param (codes "TL") q.tl_str (q.tl.is_set)
    ∷ param (codes "MS") q.ms_str (q.ms.is_set)
    ∷ param (codes "RD") q.rd_str (q.rd.is_set)
    ∷ param (codes "DI") q.di_str (q.di.is_set)
    ∷ []

unfoldable pub accessor : QuiContent → ParamAccessor
accessor q = record {
  positional = q.sid_str ∷ [];
  pos_len = 1;
  pos_at = case_at (q.sid_str ∷ []);
  named = named_with (params q) q.flags;
  named_get = named_get_with whole_text (params q) q.flags;
}
