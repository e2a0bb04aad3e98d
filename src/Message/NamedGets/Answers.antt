-- ===== src/Message/NamedGets/Answers.antt =====
-- protocol/message/content_*.go: NamedGet of every content, against its Named.
use adcl.Prelude.{
  ◌≡◌, refl, Bool, true, false, ◌&&◌, Bytes, List, [], ◌∷◌, length, ◌==◌, Option, none, some,
  Result, ok, All, arith,
}
use adcl.Message.Params.{StringMap}
use adcl.Message.Content.Tables.{
  NamedParam, named_with, find_param, named_get_with, whole_text, value_text,
}
use adcl.Message.Content.Tables.Lookup.{IsPlaced, AreDistinct, IsMap}
use adcl.Message.Content.Tables.Every.{
  value_for, whole_for, HaveFlags, named_with-value_for, named_with-whole_for,
}
use adcl.Message.Content.Sta
use adcl.Message.Content.Generic
use adcl.Message.Content.Inf
use adcl.Message.Content.Res
use adcl.Message.Content.Qui
use adcl.Message.Content.Get
use adcl.Message.Content.Sch
use adcl.Message.Content.Msg
use adcl.Message.Content.Ctm
use adcl.Message.Content.Gfi
use adcl.Message.Content.Gpa
use adcl.Message.Content.Pas
use adcl.Message.Content.Rcm
use adcl.Message.Content.Sid
use adcl.Message.Content.Snd
use adcl.Message.Content.Sup
use adcl.Message.Struct.{
  Content, sta, generic, inf, res, qui, get, sch, msg, ctm, gfi, gpa, pas, rcm, sid, snd, sup,
  accessor,
}

-- What a key of a known parameter gives: the text with the flag, or the text behind it.
pub data Style : Type 0 where
  with_flag : Style
  without_flag : Style

abbrev pub style : Content → Style
style (res c) = without_flag
style c = with_flag

-- The known named parameters of a content; most have none.
abbrev pub table : Content → List NamedParam
table (inf c) = Inf.params c
table (res c) = Res.params c
table (qui c) = Qui.params c
table (get c) = Get.params c
table (sch c) = Sch.params c
table (msg c) = Msg.params c
table c = []

-- The map with the named parameters that are not known.
abbrev pub flags_of : Content → StringMap
flags_of (sta c) = c.flags
flags_of (generic c) = c.named_params
flags_of (inf c) = c.flags
flags_of (res c) = c.flags
flags_of (qui c) = c.flags
flags_of (get c) = c.flags
flags_of (sch c) = c.flags
flags_of (msg c) = c.flags
flags_of (ctm c) = c.flags
flags_of (gfi c) = c.flags
flags_of (gpa c) = c.flags
flags_of (pas c) = c.flags
flags_of (rcm c) = c.flags
flags_of (sid c) = c.flags
flags_of (snd c) = c.flags
flags_of (sup c) = c.flags

-- What a key gives, where Named has the map `m`: the entry of the map. But the style `with_flag`
-- gives a parameter that is there with the key in front, and one that is missing by its text, as
-- not found; `without_flag` gives what the text of a missing one has behind the flag, as not
-- found, and panics if it is shorter than a flag.
abbrev pub answer : Style → List NamedParam → StringMap → Bytes → Result (Bytes × Bool)
answer with_flag ps m key = whole_for ps m key
answer without_flag ps m key = value_for ps m key

abbrev is_new : Option NamedParam → Bool
is_new none = true
is_new (some p) = false

-- The flags of a table have two bytes, and none stands twice.
abbrev is_table : List NamedParam → Bool
is_table [] = true
is_table (p ∷ ps) = (length p.flag == 2) && (is_new (find_param ps p.flag) && is_table ps)

is_new_lem : (o : Option NamedParam) → is_new o ≡ true → o ≡ none
is_new_lem none h = refl
is_new_lem (some p) h = absurd cc

is_table-AreDistinct : (ps : List NamedParam) → is_table ps ≡ true → AreDistinct ps × HaveFlags ps
is_table-AreDistinct [] h = (tt, tt)
is_table-AreDistinct (p ∷ ps) h =
    let (ds, hs) = is_table-AreDistinct ps (ground arith) in
    ((is_new_lem (find_param ps p.flag) (ground arith), ds), ((ground arith), hs))

abbrev text_for : Style → NamedParam → Result (Bytes × Bool)
text_for with_flag p = whole_text p
text_for without_flag p = value_text p

named_with-answer :
    (s : Style) (ps : List NamedParam) (flags : StringMap)
    → is_table ps ≡ true
    → All IsPlaced ps
    → IsMap flags
    → (m : StringMap) × (named_with ps flags ≡ ok m)
      × ((key : Bytes) → named_get_with (text_for s) ps flags key ≡ answer s ps m key)
named_with-answer with_flag ps flags known hs hm =
    let (ds, hf) = is_table-AreDistinct ps known in named_with-whole_for ps flags hs ds hf hm
named_with-answer without_flag ps flags known hs hm =
    let (ds, hf) = is_table-AreDistinct ps known in named_with-value_for ps flags hs ds hf hm

-- If the text of each known parameter that is there starts with its flag and the further flags are
-- a map, then Named of a content, of whatever type, succeeds with a map, and the answer of NamedGet
-- to each key is told by that map and the parameters: to a key that is no known parameter, the
-- entry of the map. To the flag of a parameter that is there, the contents of INF, QUI, GET, SCH
-- and MSG give its text with the flag in front of the entry, and RES gives the entry. To the flag
-- of one that is missing the former give its text, as not found, and RES what its text has behind
-- two bytes, as not found, and it panics if that text is shorter.
pub named_get-answer :
    (c : Content)
    → All IsPlaced (table c)
    → IsMap (flags_of c)
    → (m : StringMap) × ((accessor c).named ≡ ok m)
      × ((key : Bytes) → (accessor c).named_get key ≡ answer (style c) (table c) m key)
unfolding accessor Sta.accessor Generic.accessor Inf.accessor Res.accessor Qui.accessor Get.accessor
    Sch.accessor Msg.accessor Ctm.accessor Gfi.accessor Gpa.accessor Pas.accessor Rcm.accessor
    Sid.accessor Snd.accessor Sup.accessor find_param adcl.Prelude.equal
named_get-answer (sta c) hs hm = (c.flags, refl, λ key. refl)
named_get-answer (generic c) hs hm = (c.named_params, refl, λ key. refl)
named_get-answer (inf c) hs hm = named_with-answer with_flag (Inf.params c) c.flags refl hs hm
named_get-answer (res c) hs hm = named_with-answer without_flag (Res.params c) c.flags refl hs hm
named_get-answer (qui c) hs hm = named_with-answer with_flag (Qui.params c) c.flags refl hs hm
named_get-answer (get c) hs hm = named_with-answer with_flag (Get.params c) c.flags refl hs hm
named_get-answer (sch c) hs hm = named_with-answer with_flag (Sch.params c) c.flags refl hs hm
named_get-answer (msg c) hs hm = named_with-answer with_flag (Msg.params c) c.flags refl hs hm
named_get-answer (ctm c) hs hm = (c.flags, refl, λ key. refl)
named_get-answer (gfi c) hs hm = (c.flags, refl, λ key. refl)
named_get-answer (gpa c) hs hm = (c.flags, refl, λ key. refl)
named_get-answer (pas c) hs hm = (c.flags, refl, λ key. refl)
named_get-answer (rcm c) hs hm = (c.flags, refl, λ key. refl)
named_get-answer (sid c) hs hm = (c.flags, refl, λ key. refl)
named_get-answer (snd c) hs hm = (c.flags, refl, λ key. refl)
named_get-answer (sup c) hs hm = (c.flags, refl, λ key. refl)
