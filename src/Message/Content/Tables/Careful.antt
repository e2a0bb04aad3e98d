-- ===== src/Message/Content/Tables/Careful.antt =====
-- protocol/generator/debug/message: a NamedGet that gives nothing for a parameter that is missing,
-- against Named.
use adcl.Prelude.{
  ◌≡◌, refl, ap, ◌∙◌, sym, Bool, false, Bytes, List, [], ◌∷◌, Result, ok, none, some, equal,
  equal_iff, if◌then◌else◌, All, Bool-cases, Option-cases, inl, inr,
}
use adcl.Message.Params.{StringMap, map_get}
use adcl.Message.Content.Tables.{NamedParam, copy_flags, named_with, find_param, value_text}
use adcl.Message.Content.Tables.Lookup.{
  IsPlaced, labelled, AreDistinct, IsMap, overlay, map_get-overlay_absent, map_get-overlay_found,
  map_get-copy_flags, find_param-IsPlaced, value_text_lem, named_with-overlay,
}

map_get_absent :
    (flags : StringMap) (key : Bytes)
    → (map_get flags key).1 ≡ false
    → map_get flags key ≡ ([], false)
unfolding map_get
map_get_absent [] key h = refl
map_get_absent ((k, v) ∷ flags) key h = elim (Bool-cases (equal k key)) [
  | inl same ↦ cc (rw same at h)
  | inr other ↦ rw other (map_get_absent flags key (rw other at h))
]

-- A copy of a map has its entries.
pub map_get-copied :
    (flags : StringMap) (key : Bytes)
    → IsMap flags
    → map_get (copy_flags flags []) key ≡ map_get flags key
unfolding map_get
map_get-copied flags key hm =
    map_get-copy_flags flags [] key hm ∙ elim (Bool-cases (map_get flags key).1) [
      | inl there ↦ rw there refl
      | inr missing ↦ rw missing (sym (map_get_absent flags key missing))
    ]

-- The flags hold no known parameter.
abbrev pub AreOthers : StringMap → List NamedParam → Type 0
AreOthers flags = All (λ p. (map_get flags p.flag).1 ≡ false)

find_param-AreOthers :
    (flags : StringMap) (ps : List NamedParam) (key : Bytes) (p : NamedParam)
    → AreOthers flags ps
    → find_param ps key ≡ some p
    → (map_get flags key).1 ≡ false
unfolding find_param
find_param-AreOthers flags [] key p h e = cc
find_param-AreOthers flags (q ∷ ps) key p (h, hs) e = elim (Bool-cases (equal key q.flag)) [
  | inl same ↦ ap (λ k. (map_get flags k).1) ((equal_iff key q.flag).0 same) ∙ h
  | inr other ↦ find_param-AreOthers flags ps key p hs (rw other at e)
]

-- NamedGet with a test of an optional parameter, without one of the length of the key.
abbrev pub careful_get : List NamedParam → StringMap → Bytes → Result (Bytes × Bool)
careful_get ps flags key = elim (find_param ps key) [
  | none ↦ ok (map_get flags key)
  | some p ↦ if p.is_set then value_text p else ok ([], false)
]

module _ (ps : List NamedParam) (flags : StringMap) (hs : All IsPlaced ps) (ds : AreDistinct ps)
    (hm : IsMap flags) (ho : AreOthers flags ps) where
  careful_get-overlay :
      (key : Bytes) → careful_get ps flags key ≡ ok (map_get (overlay ps (copy_flags flags [])) key)
  careful_get-overlay key = elim (Option-cases (find_param ps key)) [
    | inl unknown ↦
        rw (unknown, careful_get)
          (ap (λ x. ok x)
            (sym (
              map_get-overlay_absent ps (copy_flags flags []) key unknown
              ∙ map_get-copied flags key hm)))
    | inr (p, known) ↦
        let found = map_get-overlay_found ps (copy_flags flags []) key p ds known in
        elim (Bool-cases p.is_set) [
          | inl there ↦
              rw
                (
                  known,
                  careful_get,
                  value_text_lem p (labelled p (find_param-IsPlaced ps key p hs known).0 there)
                      there,
                  found,
                  there,
                )
                refl
          | inr missing ↦
              rw
                (
                  known,
                  careful_get,
                  found,
                  missing,
                  map_get-copied flags key hm,
                  map_get_absent flags key (find_param-AreOthers flags ps key p ho known),
                )
                refl
        ]
  ]

  pub named_with-careful_get :
      (m : StringMap) × (named_with ps flags ≡ ok m)
      × ((key : Bytes) → careful_get ps flags key ≡ ok (map_get m key))
  named_with-careful_get =
      (overlay ps (copy_flags flags []), named_with-overlay ps flags hs ds hm, careful_get-overlay)
