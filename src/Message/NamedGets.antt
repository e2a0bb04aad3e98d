-- ===== src/Message/NamedGets.antt =====
-- protocol/message: NamedGet against Named, in content_res.go and content_inf.go.
pub mod Answers
use adcl.Prelude.{◌≡◌, refl, ◌∙◌, true, Bytes, ◌++◌, Result, ok, some, All}
use adcl.Message.Params.{StringMap, map_get}
use adcl.Message.Content.Tables.{NamedParam, find_param}
use adcl.Message.Content.Tables.Lookup.{IsPlaced, IsMap}
use adcl.Message.Content.Tables.Every.{value_for, whole_for}
use adcl.Message.Content.Res
use adcl.Message.Content.Res.{ResContent}
use adcl.Message.Content.Inf
use adcl.Message.Content.Inf.{InfContent}
use adcl.Message.Struct.{res, inf, accessor}
use adcl.Message.NamedGets.Answers.{named_get-answer}

-- If the texts of the parameters that are there start with their flags and the further flags are
-- a map, then Named of RES succeeds, and NamedGet agrees with it on every key but those of the
-- parameters that are missing: for these it gives what their text has behind the flag, as not
-- found, and panics if the text is shorter than a flag.
res_named_get_every :
    (r : ResContent)
    → All IsPlaced (Res.params r)
    → IsMap r.flags
    → (m : StringMap) × ((Res.accessor r).named ≡ ok m)
      × ((key : Bytes) → (Res.accessor r).named_get key ≡ value_for (Res.params r) m key)
unfolding accessor
res_named_get_every r hs hm = named_get-answer (res r) hs hm

-- If the texts of the parameters that are there start with their flags and the further flags are
-- a map, then Named of RES succeeds, and NamedGet agrees with it on every parameter that is
-- there.
res_named_get :
    (r : ResContent) (key : Bytes) (p : NamedParam)
    → All IsPlaced (Res.params r)
    → IsMap r.flags
    → find_param (Res.params r) key ≡ some p
    → p.is_set ≡ true
    → (m : StringMap) × ((Res.accessor r).named ≡ ok m)
      × ((Res.accessor r).named_get key ≡ ok (map_get m key))
res_named_get r key p hs hm e there =
    let (m, named, answers) = res_named_get_every r hs hm in
    (m, named, answers key ∙ rw (value_for, e, there) refl)

-- If the texts of the parameters that are there start with their flags and the further flags are
-- a map, then Named of INF succeeds, and NamedGet of a parameter that is there gives the key in
-- front of what Named has for it.
inf_named_get :
    (i : InfContent) (key : Bytes) (p : NamedParam)
    → All IsPlaced (Inf.params i)
    → IsMap i.flags
    → find_param (Inf.params i) key ≡ some p
    → p.is_set ≡ true
    → (m : StringMap) × ((Inf.accessor i).named ≡ ok m)
      × ((Inf.accessor i).named_get key ≡ ok (key ++ (map_get m key).0, true))
unfolding accessor
inf_named_get i key p hs hm e there =
    let (m, named, answers) = named_get-answer (inf i) hs hm in
    (m, named, answers key ∙ rw (whole_for, e, there) refl)
