-- ===== src/Message/Content/Sta.antt =====
-- protocol/message/content_sta.go
use adcl.Prelude.{ℕ, zero, suc, Bytes, [], ◌∷◌, Result, ok, panic}
use adcl.Message.Params.{StringMap, map_get, ParamAccessor}
use adcl.Message.Status.{StatusCode}

pub record StaContent : Type 0 where
  pub code : StatusCode
  pub code_str : Bytes
  pub description : Bytes
  pub description_str : Bytes
  pub flags : StringMap

unfoldable pub pos_at : StaContent → ℕ → Result Bytes
pos_at s zero = ok s.code_str
pos_at s (suc zero) = ok s.description_str
pos_at s _ = panic

unfoldable pub accessor : StaContent → ParamAccessor
unfolding pos_at
accessor s = record {
  positional = s.code_str ∷ s.description_str ∷ [];
  pos_len = 2;
  pos_at = pos_at s;
  named = ok s.flags;
  named_get = λ key. ok (map_get s.flags key);
}
