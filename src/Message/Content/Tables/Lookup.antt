-- ===== src/Message/Content/Tables/Lookup.antt =====
-- protocol/message/content_*.go: what Named and NamedGet tell of a known parameter.
use adcl.Prelude.{
  ℕ, ◌≡◌, ◌⊎◌, refl, ap, ◌∙◌, sym, Bool, true, false, Bytes, List, [], ◌∷◌, ◌++◌, Result, ok, none,
  some, equal, equal_iff, if◌then◌else◌, drop, arith, All, Bool-cases, inl, inr,
}
use adcl.Message.Params.{StringMap, map_get, map_set}
use adcl.Message.Params.Maps.{map_get-map_set}
use adcl.Message.Content.Tables.{
  NamedParam, copy_flags, set_raw, set_params, named_with, find_param, named_get_with, value_text,
}

-- The text of a parameter starts with its flag, of two bytes.
abbrev pub IsLabelled : NamedParam → Type 0
IsLabelled p = (a : ℕ) × (b : ℕ) × (v : Bytes) × (p.flag ≡ a ∷ b ∷ []) × (p.raw ≡ a ∷ b ∷ v)

-- A parameter that is there has such a text.
abbrev pub IsPlaced : NamedParam → Type 0
IsPlaced p = (p.is_set ≡ false) ⊎ IsLabelled p

pub labelled : (p : NamedParam) → IsPlaced p → p.is_set ≡ true → IsLabelled p
labelled p (inl missing) there = absurd (cc (missing, there))
labelled p (inr h) there = h

-- No flag stands twice in a table.
abbrev pub AreDistinct : List NamedParam → Type 0
AreDistinct [] = Unit
AreDistinct (p ∷ ps) = (find_param ps p.flag ≡ none) × AreDistinct ps

-- No key stands twice in a map.
abbrev pub IsMap : StringMap → Type 0
IsMap [] = Unit
IsMap ((k, v) ∷ m) = ((map_get m k).1 ≡ false) × IsMap m

-- The map with the parameters that are there.
pub overlay : List NamedParam → StringMap → StringMap
overlay [] m = m
overlay (p ∷ ps) m = overlay ps (if p.is_set then map_set m p.flag (drop 2 p.raw) else m)

set_raw_lem :
    (p : NamedParam) (m : StringMap)
    → IsLabelled p
    → set_raw p.raw m ≡ ok (map_set m p.flag (drop 2 p.raw))
unfolding set_raw
set_raw_lem p m (a, b, v, e, f) = rw (f, e) (ground arith)

set_params-overlay :
    (ps : List NamedParam) (m : StringMap) → All IsPlaced ps → set_params ps m ≡ ok (overlay ps m)
unfolding set_params overlay
set_params-overlay [] m h = refl
set_params-overlay (p ∷ ps) m (h, hs) = elim (Bool-cases p.is_set) [
  | inl there ↦
      rw (there, set_raw_lem p m (labelled p h there))
        (set_params-overlay ps (map_set m p.flag (drop 2 p.raw)) hs)
  | inr missing ↦ rw missing (set_params-overlay ps m hs)
]

-- What one parameter does to the lookup of another key, and of its own flag.
map_get_other :
    (p : NamedParam) (m : StringMap) (key : Bytes)
    → equal key p.flag ≡ false
    → map_get (if p.is_set then map_set m p.flag (drop 2 p.raw) else m) key ≡ map_get m key
map_get_other p m key h =
    ground (
      arith,
      equal_iff key p.flag,
      equal_iff p.flag key,
      map_get-map_set m p.flag (drop 2 p.raw) key,
    )

map_get_own :
    (p : NamedParam) (m : StringMap) (key : Bytes)
    → equal key p.flag ≡ true
    → map_get (if p.is_set then map_set m p.flag (drop 2 p.raw) else m) key
      ≡ (if p.is_set then (drop 2 p.raw, true) else map_get m key)
map_get_own p m key h =
    ground (
      arith,
      equal_iff key p.flag,
      equal_iff p.flag key,
      map_get-map_set m p.flag (drop 2 p.raw) key,
    )

pub map_get-overlay_absent :
    (ps : List NamedParam) (m : StringMap) (key : Bytes)
    → find_param ps key ≡ none
    → map_get (overlay ps m) key ≡ map_get m key
unfolding overlay find_param
map_get-overlay_absent [] m key h = refl
map_get-overlay_absent (p ∷ ps) m key h = elim (Bool-cases (equal key p.flag)) [
  | inl same ↦ cc (rw same at h)
  | inr other ↦
      map_get-overlay_absent ps (if p.is_set then map_set m p.flag (drop 2 p.raw) else m) key
        (rw other at h)
      ∙ map_get_other p m key other
]

pub map_get-overlay_found :
    (ps : List NamedParam) (m : StringMap) (key : Bytes) (p : NamedParam)
    → AreDistinct ps
    → find_param ps key ≡ some p
    → map_get (overlay ps m) key ≡ (if p.is_set then (drop 2 p.raw, true) else map_get m key)
unfolding overlay find_param
map_get-overlay_found [] m key p d h = cc
map_get-overlay_found (q ∷ ps) m key p (d, ds) h = elim (Bool-cases (equal key q.flag)) [
  | inl same ↦
      let e : q ≡ p = cc (rw same at h) in
      map_get-overlay_absent ps (if q.is_set then map_set m q.flag (drop 2 q.raw) else m) key
        (ap (find_param ps) ((equal_iff key q.flag).0 same) ∙ d)
      ∙ map_get_own q m key same
      ∙ ap (λ x. if x.is_set then (drop 2 x.raw, true) else map_get m key) e
  | inr other ↦
      map_get-overlay_found ps (if q.is_set then map_set m q.flag (drop 2 q.raw) else m) key p ds
        (rw other at h)
      ∙ ap (λ x. if p.is_set then (drop 2 p.raw, true) else x) (map_get_other q m key other)
]

pub map_get-copy_flags :
    (flags m : StringMap) (key : Bytes)
    → IsMap flags
    → map_get (copy_flags flags m) key
      ≡ (if (map_get flags key).1 then map_get flags key else map_get m key)
unfolding copy_flags map_get
map_get-copy_flags [] m key h = refl
map_get-copy_flags ((k, v) ∷ flags) m key (h, hs) =
    map_get-copy_flags flags (map_set m k v) key hs
    ∙ ground (arith, equal_iff k key, map_get-map_set m k v key)

pub find_param-IsPlaced :
    (ps : List NamedParam) (key : Bytes) (p : NamedParam)
    → All IsPlaced ps
    → find_param ps key ≡ some p
    → IsPlaced p × (key ≡ p.flag)
unfolding find_param
find_param-IsPlaced [] key p h e = cc
find_param-IsPlaced (q ∷ ps) key p (h, hs) e = elim (Bool-cases (equal key q.flag)) [
  | inl same ↦ ground (arith, equal_iff key q.flag, same, e, h)
  | inr other ↦ find_param-IsPlaced ps key p hs (rw other at e)
]

pub value_text_lem :
    (p : NamedParam) → IsLabelled p → p.is_set ≡ true → value_text p ≡ ok (drop 2 p.raw, true)
unfolding value_text
value_text_lem p (a, b, v, e, f) there = rw (f, there) (ground arith)

module _ (ps : List NamedParam) (flags : StringMap) (hs : All IsPlaced ps) (ds : AreDistinct ps)
    (hm : IsMap flags) where
  pub named_with-overlay : named_with ps flags ≡ ok (overlay ps (copy_flags flags []))
  unfolding named_with
  named_with-overlay = set_params-overlay ps (copy_flags flags []) hs

  -- NamedGet of the flag of a parameter that is there, against the entry of Named.
  pub named_get_with-param :
      (key : Bytes) (p : NamedParam) (case : NamedParam → Result (Bytes × Bool))
      → find_param ps key ≡ some p
      → p.is_set ≡ true
      → (m : StringMap) × (named_with ps flags ≡ ok m)
        × (map_get m key ≡ (drop 2 p.raw, true))
        × (named_get_with case ps flags key ≡ case p)
        × (p.raw ≡ key ++ drop 2 p.raw)
        × (value_text p ≡ ok (drop 2 p.raw, true))
  unfolding named_get_with
  named_get_with-param key p case e there =
      let (placed, own) = find_param-IsPlaced ps key p hs e in
      let (a, b, v, is_flag, is_raw) = labelled p placed there in
      (
        overlay ps (copy_flags flags []),
        named_with-overlay,
        map_get-overlay_found ps (copy_flags flags []) key p ds e ∙ rw there refl,
        rw (own ∙ is_flag, ap (find_param ps) (sym (own ∙ is_flag)) ∙ e) refl,
        rw (is_raw, own, is_flag) refl,
        value_text_lem p (a, b, v, is_flag, is_raw) there,
      )
