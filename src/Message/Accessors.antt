-- ===== src/Message/Accessors.antt =====
-- protocol/message: the contract of the interface ParamAccessor for the types that implement it.
pub mod RangeOrder
use adcl.Prelude.{ℕ, zero, suc, ◌≡◌, refl, List, [], ◌∷◌, Bytes, length}
use adcl.Message.Params.{ParamAccessor, index_slice}
use adcl.Message.Content.Tables.{case_at}
use adcl.Message.Content.Sta
use adcl.Message.Content.Generic
use adcl.Message.Content.Inf
use adcl.Message.Content.Res
use adcl.Message.Content.Qui
use adcl.Message.Content.Get
use adcl.Message.Content.Sch
use adcl.Message.Content.Msg
use adcl.Message.Content.Ctm
use adcl.Message.Content.Gfi
use adcl.Message.Content.Gpa
use adcl.Message.Content.Pas
use adcl.Message.Content.Rcm
use adcl.Message.Content.Sid
use adcl.Message.Content.Snd
use adcl.Message.Content.Sup
use adcl.Message.Struct.{
  Content, sta, generic, inf, res, qui, get, sch, msg, ctm, gfi, gpa, pas, rcm, sid, snd, sup,
  accessor,
}

-- PosLen counts what Positional gives, and PosAt indexes it: it panics where the index is out of
-- range.
abbrev pub IsConsistent : ParamAccessor → Type 0
IsConsistent a =
    (a.pos_len ≡ length a.positional) × ((i : ℕ) → a.pos_at i ≡ index_slice a.positional i)

case_at_lem : (s : List Bytes) (i : ℕ) → case_at s i ≡ index_slice s i
case_at_lem [] i = refl
case_at_lem (x ∷ s) zero = refl
case_at_lem (x ∷ s) (suc i) = case_at_lem s i

sta_at :
    (c : Sta.StaContent) (i : ℕ)
    → (Sta.accessor c).pos_at i ≡ index_slice (Sta.accessor c).positional i
unfolding Sta.accessor Sta.pos_at
sta_at c zero = refl
sta_at c (suc zero) = refl
sta_at c (suc (suc i)) = refl

-- For every type of content, PosLen, PosAt and Positional agree.
pub accessor-IsConsistent : (c : Content) → IsConsistent (accessor c)
unfolding accessor Sta.accessor Generic.accessor Inf.accessor Res.accessor Qui.accessor Get.accessor
    Sch.accessor Msg.accessor Ctm.accessor Gfi.accessor Gpa.accessor Pas.accessor Rcm.accessor
    Sid.accessor Snd.accessor Sup.accessor
accessor-IsConsistent (sta c) = (refl, λ i. sta_at c i)
accessor-IsConsistent (generic c) = (refl, λ i. refl)
accessor-IsConsistent (inf c) = (refl, case_at_lem (Inf.accessor c).positional)
accessor-IsConsistent (res c) = (refl, case_at_lem (Res.accessor c).positional)
accessor-IsConsistent (qui c) = (refl, case_at_lem (Qui.accessor c).positional)
accessor-IsConsistent (get c) = (refl, case_at_lem (Get.accessor c).positional)
accessor-IsConsistent (sch c) = (refl, λ i. refl)
accessor-IsConsistent (msg c) = (refl, case_at_lem (Msg.accessor c).positional)
accessor-IsConsistent (ctm c) = (refl, case_at_lem (Ctm.accessor c).positional)
accessor-IsConsistent (gfi c) = (refl, case_at_lem (Gfi.accessor c).positional)
accessor-IsConsistent (gpa c) = (refl, case_at_lem (Gpa.accessor c).positional)
accessor-IsConsistent (pas c) = (refl, case_at_lem (Pas.accessor c).positional)
accessor-IsConsistent (rcm c) = (refl, case_at_lem (Rcm.accessor c).positional)
accessor-IsConsistent (sid c) = (refl, case_at_lem (Sid.accessor c).positional)
accessor-IsConsistent (snd c) = (refl, case_at_lem (Snd.accessor c).positional)
accessor-IsConsistent (sup c) = (refl, λ i. refl)
