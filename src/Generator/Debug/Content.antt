-- ===== src/Generator/Debug/Content.antt =====
-- protocol/generator/debug/message/content_res.go
use adcl.Prelude.{
  ℕ, Bool, true, false, ◌≡◌, refl, Bytes, List, [], ◌∷◌, codes, Result, ok, Option, none, some, ℤ,
  if◌then◌else◌, All,
}
use adcl.Encoding.Base32Value.{Base32Value}
use adcl.Message.Maybe.{Maybe}
use adcl.Message.Params.{StringMap, map_get, ParamAccessor}
use adcl.Message.Content.Tables.{NamedParam, param, find_param, named_with, value_text, case_at}
use adcl.Message.Content.Tables.Lookup.{IsPlaced, AreDistinct, IsMap}
use adcl.Message.Content.Tables.Careful.{AreOthers, named_with-careful_get}

pub record GeneratedResContent : Type 0 where
  pub fn : Bytes
  pub fn_str : Bytes
  pub si : ℤ
  pub si_str : Bytes
  pub sl : Maybe ℤ
  pub sl_str : Bytes
  pub to : Bytes
  pub to_str : Bytes
  pub tr : Maybe (Option Base32Value)
  pub tr_str : Bytes
  pub td : Maybe ℤ
  pub td_str : Bytes
  pub flags : StringMap

-- The parameters in the order of the code, as in the contents of protocol/message.
abbrev pub params : GeneratedResContent → List NamedParam
params r =
    param (codes "FN") r.fn_str true
    ∷ param (codes "SI") r.si_str true
    ∷ param (codes "SL") r.sl_str r.sl.is_set
    ∷ param (codes "TO") r.to_str true
    ∷ param (codes "TR") r.tr_str r.tr.is_set
    ∷ param (codes "TD") r.td_str r.td.is_set
    ∷ []

-- The switch has no test on the length of the key; a case of an optional parameter returns "" and
-- false where it is not set.
unfoldable pub named_get : GeneratedResContent → Bytes → Result (Bytes × Bool)
named_get r key = elim (find_param (params r) key) [
  | some p ↦ if p.is_set then value_text p else ok ([], false)
  | none ↦ ok (map_get r.flags key)
]

unfoldable pub accessor : GeneratedResContent → ParamAccessor
unfolding named_get
accessor r = record {
  positional = [];
  pos_len = 0;
  pos_at = case_at [];
  named = named_with (params r) r.flags;
  named_get = named_get r;
}

params-AreDistinct : (r : GeneratedResContent) → AreDistinct (params r)
unfolding find_param adcl.Prelude.equal
params-AreDistinct r = (refl, (refl, (refl, (refl, (refl, (refl, tt))))))

-- If the texts of the parameters that are there start with their flags, and the further flags are
-- a map that holds none of the known ones, then Named of the generated content succeeds and
-- NamedGet agrees with it on every key.
pub generated_named_get :
    (r : GeneratedResContent)
    → All IsPlaced (params r)
    → IsMap r.flags
    → AreOthers r.flags (params r)
    → (m : StringMap) × ((accessor r).named ≡ ok m)
      × ((key : Bytes) → (accessor r).named_get key ≡ ok (map_get m key))
unfolding accessor named_get
generated_named_get r hs hm ho =
    named_with-careful_get (params r) r.flags hs (params-AreDistinct r) hm ho
