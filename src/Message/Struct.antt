-- ===== src/Message/Struct.antt =====
-- protocol/message/message.go: the struct Message, whose methods are those of its content.
use adcl.Prelude.{ℕ, Bool, Bytes, List, Result, ok, panic, Option, none, some}
use adcl.Message.Header.{MessageType, Command, HeaderFields}
use adcl.Message.Params.{StringMap, ParamAccessor}
use adcl.Message.Content.Generic.{GenericContent}
use adcl.Message.Content.Generic
use adcl.Message.Content.Sta.{StaContent}
use adcl.Message.Content.Sta
use adcl.Message.Content.Inf
use adcl.Message.Content.Inf.{InfContent}
use adcl.Message.Content.Res
use adcl.Message.Content.Res.{ResContent}
use adcl.Message.Content.Qui
use adcl.Message.Content.Qui.{QuiContent}
use adcl.Message.Content.Get
use adcl.Message.Content.Get.{GetContent}
use adcl.Message.Content.Sch
use adcl.Message.Content.Sch.{SchContent}
use adcl.Message.Content.Msg
use adcl.Message.Content.Msg.{MsgContent}
use adcl.Message.Content.Ctm
use adcl.Message.Content.Ctm.{CtmContent}
use adcl.Message.Content.Gfi
use adcl.Message.Content.Gfi.{GfiContent}
use adcl.Message.Content.Gpa
use adcl.Message.Content.Gpa.{GpaContent}
use adcl.Message.Content.Pas
use adcl.Message.Content.Pas.{PasContent}
use adcl.Message.Content.Rcm
use adcl.Message.Content.Rcm.{RcmContent}
use adcl.Message.Content.Sid
use adcl.Message.Content.Sid.{SidContent}
use adcl.Message.Content.Snd
use adcl.Message.Content.Snd.{SndContent}
use adcl.Message.Content.Sup
use adcl.Message.Content.Sup.{SupContent}

-- The types behind the interface of the field `Content`. The parser makes the first two.
pub data Content : Type 0 where
  sta : StaContent → Content
  generic : GenericContent → Content
  inf : InfContent → Content
  res : ResContent → Content
  qui : QuiContent → Content
  get : GetContent → Content
  sch : SchContent → Content
  msg : MsgContent → Content
  ctm : CtmContent → Content
  gfi : GfiContent → Content
  gpa : GpaContent → Content
  pas : PasContent → Content
  rcm : RcmContent → Content
  sid : SidContent → Content
  snd : SndContent → Content
  sup : SupContent → Content

-- The call of a method on the interface value goes to the method of the type.
unfoldable pub accessor : Content → ParamAccessor
accessor (sta c) = Sta.accessor c
accessor (generic c) = Generic.accessor c
accessor (inf c) = Inf.accessor c
accessor (res c) = Res.accessor c
accessor (qui c) = Qui.accessor c
accessor (get c) = Get.accessor c
accessor (sch c) = Sch.accessor c
accessor (msg c) = Msg.accessor c
accessor (ctm c) = Ctm.accessor c
accessor (gfi c) = Gfi.accessor c
accessor (gpa c) = Gpa.accessor c
accessor (pas c) = Pas.accessor c
accessor (rcm c) = Rcm.accessor c
accessor (sid c) = Sid.accessor c
accessor (snd c) = Snd.accessor c
accessor (sup c) = Sup.accessor c

-- `none` is the nil interface.
pub record Message : Type 0 where
  pub type : MessageType
  pub command : Command
  pub header_fields : HeaderFields
  pub content : Option Content

on_content {ℓ} : {A : Type ℓ} → Option Content → (ParamAccessor → Result A) → Result A
on_content none f = panic
on_content (some c) f = f (accessor c)

unfoldable pub positional : Message → Result (List Bytes)
unfolding on_content
positional m = on_content m.content (λ a. ok a.positional)

unfoldable pub pos_len : Message → Result ℕ
unfolding on_content
pos_len m = on_content m.content (λ a. ok a.pos_len)

unfoldable pub pos_at : Message → ℕ → Result Bytes
unfolding on_content
pos_at m i = on_content m.content (λ a. a.pos_at i)

unfoldable pub named : Message → Result StringMap
unfolding on_content
named m = on_content m.content (λ a. a.named)

unfoldable pub named_get : Message → Bytes → Result (Bytes × Bool)
unfolding on_content
named_get m key = on_content m.content (λ a. a.named_get key)
