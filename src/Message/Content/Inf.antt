-- ===== src/Message/Content/Inf.antt =====
-- protocol/message/content_inf.go
use adcl.Prelude.{Option, codes, Bytes, List, [], ◌∷◌, length, ℤ, ltb}
use adcl.Encoding.Base32Value.{Base32Value}
use adcl.Message.Maybe.{Maybe}
use adcl.Message.Params.{StringMap, ParamAccessor}
use adcl.Message.Content.Tables.{NamedParam, param, named_with, named_get_with, whole_text, case_at}

pub record InfContent : Type 0 where
  pub id : Maybe (Option Base32Value)
  pub id_str : Bytes
  pub pd : Maybe (Option Base32Value)
  pub pd_str : Bytes
  pub i4 : Maybe Bytes
  pub i4_str : Bytes
  pub i6 : Maybe Bytes
  pub i6_str : Bytes
  pub u4 : Maybe ℤ
  pub u4_str : Bytes
  pub u6 : Maybe ℤ
  pub u6_str : Bytes
  pub ss : Maybe ℤ
  pub ss_str : Bytes
  pub sf : Maybe ℤ
  pub sf_str : Bytes
  pub ve : Maybe Bytes
  pub ve_str : Bytes
  pub us : Maybe ℤ
  pub us_str : Bytes
  pub ds : Maybe ℤ
  pub ds_str : Bytes
  pub sl : Maybe ℤ
  pub sl_str : Bytes
  pub as_flag : Maybe ℤ
  pub as_str : Bytes
  pub am : Maybe ℤ
  pub am_str : Bytes
  pub em : Maybe Bytes
  pub em_str : Bytes
  pub ni : Maybe Bytes
  pub ni_str : Bytes
  pub de : Maybe Bytes
  pub de_str : Bytes
  pub hn : Maybe ℤ
  pub hn_str : Bytes
  pub hr : Maybe ℤ
  pub hr_str : Bytes
  pub ho : Maybe ℤ
  pub ho_str : Bytes
  pub to : Maybe Bytes
  pub to_str : Bytes
  pub ct : Maybe ℤ
  pub ct_str : Bytes
  pub aw : Maybe ℤ
  pub aw_str : Bytes
  pub su : List Bytes
  pub su_str : Bytes
  pub rf : Maybe Bytes
  pub rf_str : Bytes
  pub flags : StringMap

abbrev pub params : InfContent → List NamedParam
params i =
    param (codes "ID") i.id_str (i.id.is_set)
    ∷ param (codes "PD") i.pd_str (i.pd.is_set)
    ∷ param (codes "I4") i.i4_str (i.i4.is_set)
    ∷ param (codes "I6") i.i6_str (i.i6.is_set)
    ∷ param (codes "U4") i.u4_str (i.u4.is_set)
    ∷ param (codes "U6") i.u6_str (i.u6.is_set)
    ∷ param (codes "SS") i.ss_str (i.ss.is_set)
    ∷ param (codes "SF") i.sf_str (i.sf.is_set)
    ∷ param (codes "VE") i.ve_str (i.ve.is_set)
    ∷ param (codes "US") i.us_str (i.us.is_set)
    ∷ param (codes "DS") i.ds_str (i.ds.is_set)
    ∷ param (codes "SL") i.sl_str (i.sl.is_set)
    ∷ param (codes "AS") i.as_str (i.as_flag.is_set)
    ∷ param (codes "AM") i.am_str (i.am.is_set)
    ∷ param (codes "EM") i.em_str (i.em.is_set)
    ∷ param (codes "NI") i.ni_str (i.ni.is_set)
    ∷ param (codes "DE") i.de_str (i.de.is_set)
    ∷ param (codes "HN") i.hn_str (i.hn.is_set)
    ∷ param (codes "HR") i.hr_str (i.hr.is_set)
    ∷ param (codes "HO") i.ho_str (i.ho.is_set)
    ∷ param (codes "TO") i.to_str (i.to.is_set)
    ∷ param (codes "CT") i.ct_str (i.ct.is_set)
    ∷ param (codes "AW") i.aw_str (i.aw.is_set)
    ∷ param (codes "SU") i.su_str (ltb 0 (length i.su))
    ∷ param (codes "RF") i.rf_str (i.rf.is_set)
    ∷ []

unfoldable pub accessor : InfContent → ParamAccessor
accessor i = record {
  positional = [];
  pos_len = 0;
  pos_at = case_at [];
  named = named_with (params i) i.flags;
  named_get = named_get_with whole_text (params i) i.flags;
}
