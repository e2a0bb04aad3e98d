-- ===== src/Message/Content/Msg.antt =====
-- protocol/message/content_msg.go
use adcl.Prelude.{Option, codes, Bytes, List, [], ◌∷◌, ℤ}
use adcl.Encoding.Base32Value.{Base32Value}
use adcl.Message.Maybe.{Maybe}
use adcl.Message.Params.{StringMap, ParamAccessor}
use adcl.Message.Content.Tables.{NamedParam, param, named_with, named_get_with, whole_text, case_at}

pub record MsgContent : Type 0 where
  pub text : Bytes
  pub text_str : Bytes
  pub pm : Maybe (Option Base32Value)
  pub pm_str : Bytes
  pub me : Maybe ℤ
  pub me_str : Bytes
  pub flags : StringMap

abbrev pub params : MsgContent → List NamedParam
params m =
    param (codes "PM") m.pm_str (m.pm.is_set) ∷ param (codes "ME") m.me_str (m.me.is_set) ∷ []

unfoldable pub accessor : MsgContent → ParamAccessor
accessor m = record {
  positional = m.text_str ∷ [];
  pos_len = 1;
  pos_at = case_at (m.text_str ∷ []);
  named = named_with (params m) m.flags;
  named_get = named_get_with whole_text (params m) m.flags;
}
