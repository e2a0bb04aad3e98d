-- ===== src/Message/Content/Tables/Every.antt =====
-- protocol/message/content_*.go: NamedGet for every key, against Named.
use adcl.Prelude.{
  ◌≡◌, refl, ap, ◌∙◌, ◌++◌, Bool, true, false, Bytes, List, [], ◌∷◌, Result, ok, panic, none, some,
  if◌then◌else◌, drop, length, leb, All, Bool-cases, Option-cases, inl, inr, ◌==◌, arith, equal,
  equal_iff,
}
use adcl.Message.Params.{StringMap, map_get}
use adcl.Message.Content.Tables.{
  NamedParam, copy_flags, named_with, find_param, named_get_with, value_text, whole_text,
}
use adcl.Message.Content.Tables.Careful.{map_get-copied}
use adcl.Message.Content.Tables.Lookup.{
  IsPlaced, labelled, AreDistinct, IsMap, overlay, map_get-overlay_absent, map_get-overlay_found,
  find_param-IsPlaced, value_text_lem, named_with-overlay, named_get_with-param,
}

-- What a key gives, where Named has the map `m`: the entry of the map; but for a parameter that is
-- missing what its text has behind the flag, and a panic if it is shorter than a flag.
abbrev pub value_for : List NamedParam → StringMap → Bytes → Result (Bytes × Bool)
value_for ps m key = elim (find_param ps key) [
  | none ↦ ok (map_get m key)
  | some p ↦
      if p.is_set
      then ok (map_get m key)
      else if leb 2 (length p.raw)
      then ok (drop 2 p.raw, false)
      else panic
]

-- The same, of a NamedGet that gives a known parameter with its flag in front.
abbrev pub whole_for : List NamedParam → StringMap → Bytes → Result (Bytes × Bool)
whole_for ps m key = elim (find_param ps key) [
  | none ↦ ok (map_get m key)
  | some p ↦ ok (if p.is_set then (key ++ (map_get m key).0, true) else (p.raw, false))
]

-- The flags of a table have two bytes.
abbrev pub HaveFlags : List NamedParam → Type 0
HaveFlags = All (λ p. length p.flag ≡ 2)

find_param-HaveFlags :
    (ps : List NamedParam) (key : Bytes) (p : NamedParam)
    → HaveFlags ps
    → find_param ps key ≡ some p
    → length key ≡ 2
unfolding find_param
find_param-HaveFlags [] key p h e = cc
find_param-HaveFlags (q ∷ ps) key p (h, hs) e = elim (Bool-cases (equal key q.flag)) [
  | inl same ↦ ap (λ k. length k) ((equal_iff key q.flag).0 same) ∙ h
  | inr other ↦ find_param-HaveFlags ps key p hs (rw other at e)
]

value_text-missing :
    (p : NamedParam)
    → p.is_set ≡ false
    → value_text p ≡ (if leb 2 (length p.raw) then ok (drop 2 p.raw, false) else panic)
unfolding value_text
value_text-missing p missing = rw missing (ground arith)

module _ (ps : List NamedParam) (flags : StringMap) (hs : All IsPlaced ps) (ds : AreDistinct ps)
    (hf : HaveFlags ps) (hm : IsMap flags) where
  named_get_with-value_for :
      (key : Bytes)
      → named_get_with value_text ps flags key ≡ value_for ps (overlay ps (copy_flags flags [])) key
  unfolding named_get_with
  named_get_with-value_for key = elim (Option-cases (find_param ps key)) [
    | inl unknown ↦
        rw
          (
            unknown,
            value_for,
            map_get-overlay_absent ps (copy_flags flags []) key unknown,
            map_get-copied flags key hm,
          )
          (elim (Bool-cases (length key == 2)) [
            | inl two ↦ rw two refl
            | inr other ↦ rw other refl
          ])
    | inr (p, known) ↦
        let two : (length key == 2) ≡ true =
          ap (λ n. n == 2) (find_param-HaveFlags ps key p hf known) in
        elim (Bool-cases p.is_set) [
          | inl there ↦
              rw
                (
                  two,
                  known,
                  value_for,
                  value_text_lem p (labelled p (find_param-IsPlaced ps key p hs known).0 there)
                      there,
                  map_get-overlay_found ps (copy_flags flags []) key p ds known,
                  there,
                )
                refl
          | inr missing ↦ rw (two, known, value_for, value_text-missing p missing, missing) refl
        ]
  ]

  named_get_with-whole_for :
      (key : Bytes)
      → named_get_with whole_text ps flags key ≡ whole_for ps (overlay ps (copy_flags flags [])) key
  unfolding named_get_with
  named_get_with-whole_for key = elim (Option-cases (find_param ps key)) [
    | inl unknown ↦
        rw
          (
            unknown,
            whole_for,
            map_get-overlay_absent ps (copy_flags flags []) key unknown,
            map_get-copied flags key hm,
          )
          (elim (Bool-cases (length key == 2)) [
            | inl two ↦ rw two refl
            | inr other ↦ rw other refl
          ])
    | inr (p, known) ↦
        let two : (length key == 2) ≡ true =
          ap (λ n. n == 2) (find_param-HaveFlags ps key p hf known) in
        elim (Bool-cases p.is_set) [
          | inl there ↦
              let (m, named, entry, got, split, value) =
                named_get_with-param ps flags hs ds hm key p whole_text known there in
              rw
                (
                  two,
                  known,
                  whole_for,
                  map_get-overlay_found ps (copy_flags flags []) key p ds known,
                  there,
                )
                (ap (λ x. ok (x, true)) split)
          | inr missing ↦ rw (two, known, whole_for, missing) refl
        ]
  ]

  pub named_with-whole_for :
      (m : StringMap) × (named_with ps flags ≡ ok m)
      × ((key : Bytes) → named_get_with whole_text ps flags key ≡ whole_for ps m key)
  named_with-whole_for = (
    overlay ps (copy_flags flags []),
    named_with-overlay ps flags hs ds hm,
    named_get_with-whole_for,
  )

  pub named_with-value_for :
      (m : StringMap) × (named_with ps flags ≡ ok m)
      × ((key : Bytes) → named_get_with value_text ps flags key ≡ value_for ps m key)
  named_with-value_for = (
    overlay ps (copy_flags flags []),
    named_with-overlay ps flags hs ds hm,
    named_get_with-value_for,
  )
