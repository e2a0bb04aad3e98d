-- ===== src/Message/Accessors/RangeOrder.antt =====
-- protocol/message: the methods of the contents, and the order in which Go ranges over a map.
use adcl.Prelude.{ℕ, Bool, ◌≡◌, refl, ap, Bytes, List, Result, ok}
use adcl.Message.Params.{StringMap, map_get, ParamAccessor}
use adcl.Message.Params.GoMaps.{SameEntries, go_map, go_map-SameEntries}
use adcl.Message.Content.Tables.{NamedParam, named_with, named_get_with, whole_text, value_text}
use adcl.Message.Content.Tables.Lookup.{IsMap}
use adcl.Message.Content.Tables.Order.{named_with-SameEntries, named_get_with-SameEntries}
use adcl.Message.Content.Sta
use adcl.Message.Content.Generic
use adcl.Message.Content.Inf
use adcl.Message.Content.Res
use adcl.Message.Content.Qui
use adcl.Message.Content.Get
use adcl.Message.Content.Sch
use adcl.Message.Content.Msg
use adcl.Message.Content.Ctm
use adcl.Message.Content.Gfi
use adcl.Message.Content.Gpa
use adcl.Message.Content.Pas
use adcl.Message.Content.Rcm
use adcl.Message.Content.Sid
use adcl.Message.Content.Snd
use adcl.Message.Content.Sup
use adcl.Message.NamedGets.Answers.{flags_of}
use adcl.Message.Struct.{
  Content, sta, generic, inf, res, qui, get, sch, msg, ctm, gfi, gpa, pas, rcm, sid, snd, sup,
  accessor,
}

-- The content with other flags.
abbrev pub with_flags : Content → StringMap → Content
with_flags (sta c) m = sta (record c { flags = m })
with_flags (generic c) m = generic (record c { named_params = m })
with_flags (inf c) m = inf (record c { flags = m })
with_flags (res c) m = res (record c { flags = m })
with_flags (qui c) m = qui (record c { flags = m })
with_flags (get c) m = get (record c { flags = m })
with_flags (sch c) m = sch (record c { flags = m })
with_flags (msg c) m = msg (record c { flags = m })
with_flags (ctm c) m = ctm (record c { flags = m })
with_flags (gfi c) m = gfi (record c { flags = m })
with_flags (gpa c) m = gpa (record c { flags = m })
with_flags (pas c) m = pas (record c { flags = m })
with_flags (rcm c) m = rcm (record c { flags = m })
with_flags (sid c) m = sid (record c { flags = m })
with_flags (snd c) m = snd (record c { flags = m })
with_flags (sup c) m = sup (record c { flags = m })

-- The methods of two values give the same, the maps being those of Go.
abbrev pub SameMethods : ParamAccessor → ParamAccessor → Type 0
SameMethods a b =
    (a.positional ≡ b.positional)
    × (a.pos_len ≡ b.pos_len)
    × ((i : ℕ) → a.pos_at i ≡ b.pos_at i)
    × (go_map a.named ≡ go_map b.named)
    × ((key : Bytes) → a.named_get key ≡ b.named_get key)

-- What the methods give that do not depend on the flags.
module _ (positional : List Bytes) (pos_len : ℕ) (pos_at : ℕ → Result Bytes) where
  -- A content whose named parameters are its flags.
  plain-SameMethods :
      (m m' : StringMap)
      → SameEntries m m'
      → SameMethods
          (record {
            positional = positional;
            pos_len = pos_len;
            pos_at = pos_at;
            named = ok m;
            named_get = λ key. ok (map_get m key);
          })
          (record {
            positional = positional;
            pos_len = pos_len;
            pos_at = pos_at;
            named = ok m';
            named_get = λ key. ok (map_get m' key);
          })
  plain-SameMethods m m' h =
      (refl, refl, λ i. refl, go_map-SameEntries m m' h, λ key. ap (λ x. ok x) (h key))

  -- A content with a table.
  tabled-SameMethods :
      (ps : List NamedParam) (case : NamedParam → Result (Bytes × Bool)) (m m' : StringMap)
      → SameEntries m m'
      → IsMap m
      → IsMap m'
      → SameMethods
          (record {
            positional = positional;
            pos_len = pos_len;
            pos_at = pos_at;
            named = named_with ps m;
            named_get = named_get_with case ps m;
          })
          (record {
            positional = positional;
            pos_len = pos_len;
            pos_at = pos_at;
            named = named_with ps m';
            named_get = named_get_with case ps m';
          })
  tabled-SameMethods ps case m m' h hm hm' = (
    refl,
    refl,
    λ i. refl,
    named_with-SameEntries ps m m' h hm hm',
    named_get_with-SameEntries ps m m' h case,
  )

-- For every type of content: if its flags and others are maps with the same entries, then each of
-- the five methods gives the same with both, the map of Named being taken as Go has it. So none
-- of them depends on the order in which Go ranges over the flags.
pub accessor-SameMethods :
    (c : Content) (m : StringMap)
    → IsMap (flags_of c)
    → IsMap m
    → SameEntries (flags_of c) m
    → SameMethods (accessor c) (accessor (with_flags c m))
unfolding accessor Sta.accessor Generic.accessor Inf.accessor Res.accessor Qui.accessor Get.accessor
    Sch.accessor Msg.accessor Ctm.accessor Gfi.accessor Gpa.accessor Pas.accessor Rcm.accessor
    Sid.accessor Snd.accessor Sup.accessor
accessor-SameMethods (sta c) m hm hm' h =
    let a = Sta.accessor c in plain-SameMethods a.positional a.pos_len a.pos_at c.flags m h
accessor-SameMethods (generic c) m hm hm' h =
    let a = Generic.accessor c in
    plain-SameMethods a.positional a.pos_len a.pos_at c.named_params m h
accessor-SameMethods (inf c) m hm hm' h =
    let a = Inf.accessor c in
    tabled-SameMethods a.positional a.pos_len a.pos_at (Inf.params c) whole_text c.flags m h hm hm'
accessor-SameMethods (res c) m hm hm' h =
    let a = Res.accessor c in
    tabled-SameMethods a.positional a.pos_len a.pos_at (Res.params c) value_text c.flags m h hm hm'
accessor-SameMethods (qui c) m hm hm' h =
    let a = Qui.accessor c in
    tabled-SameMethods a.positional a.pos_len a.pos_at (Qui.params c) whole_text c.flags m h hm hm'
accessor-SameMethods (get c) m hm hm' h =
    let a = Get.accessor c in
    tabled-SameMethods a.positional a.pos_len a.pos_at (Get.params c) whole_text c.flags m h hm hm'
accessor-SameMethods (sch c) m hm hm' h =
    let a = Sch.accessor c in
    tabled-SameMethods a.positional a.pos_len a.pos_at (Sch.params c) whole_text c.flags m h hm hm'
accessor-SameMethods (msg c) m hm hm' h =
    let a = Msg.accessor c in
    tabled-SameMethods a.positional a.pos_len a.pos_at (Msg.params c) whole_text c.flags m h hm hm'
accessor-SameMethods (ctm c) m hm hm' h =
    let a = Ctm.accessor c in plain-SameMethods a.positional a.pos_len a.pos_at c.flags m h
accessor-SameMethods (gfi c) m hm hm' h =
    let a = Gfi.accessor c in plain-SameMethods a.positional a.pos_len a.pos_at c.flags m h
accessor-SameMethods (gpa c) m hm hm' h =
    let a = Gpa.accessor c in plain-SameMethods a.positional a.pos_len a.pos_at c.flags m h
accessor-SameMethods (pas c) m hm hm' h =
    let a = Pas.accessor c in plain-SameMethods a.positional a.pos_len a.pos_at c.flags m h
accessor-SameMethods (rcm c) m hm hm' h =
    let a = Rcm.accessor c in plain-SameMethods a.positional a.pos_len a.pos_at c.flags m h
accessor-SameMethods (sid c) m hm hm' h =
    let a = Sid.accessor c in plain-SameMethods a.positional a.pos_len a.pos_at c.flags m h
accessor-SameMethods (snd c) m hm hm' h =
    let a = Snd.accessor c in plain-SameMethods a.positional a.pos_len a.pos_at c.flags m h
accessor-SameMethods (sup c) m hm hm' h =
    let a = Sup.accessor c in plain-SameMethods a.positional a.pos_len a.pos_at c.flags m h
