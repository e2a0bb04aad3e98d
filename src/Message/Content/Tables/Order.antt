-- ===== src/Message/Content/Tables/Order.antt =====
-- protocol/message/content_*.go: the order in which Go ranges over the map of the flags.
use adcl.Prelude.{
  ◌≡◌, refl, ap, ◌∙◌, sym, Bool, Bytes, List, [], ◌∷◌, Result, ok, ◌>>=◌, leb, some, none, ◌==◌,
  if◌then◌else◌, length, take, drop, Bool-cases, inl, inr,
}
use adcl.Message.Params.{StringMap, map_set}
use adcl.Message.Params.GoMaps.{SameEntries, go_map, go_map-SameEntries, map_set-SameEntries}
use adcl.Message.Content.Tables.{
  NamedParam, copy_flags, set_raw, set_params, named_with, find_param, named_get_with,
}
use adcl.Message.Content.Tables.Careful.{map_get-copied}
use adcl.Message.Content.Tables.Lookup.{IsMap}

set_raw-SameEntries :
    (s : Bytes) (m m' : StringMap) (rest : StringMap → Result StringMap)
    → SameEntries m m'
    → ((n n' : StringMap) → SameEntries n n' → go_map (rest n) ≡ go_map (rest n'))
    → go_map (set_raw s m >>= rest) ≡ go_map (set_raw s m' >>= rest)
unfolding set_raw
set_raw-SameEntries s m m' rest h later = elim (Bool-cases (leb 2 (length s))) [
  | inl long ↦ rw long (
      later (map_set m (take 2 s) (drop 2 s)) (map_set m' (take 2 s) (drop 2 s))
        (map_set-SameEntries m m' (take 2 s) (drop 2 s) h))
  | inr short ↦ rw short refl
]

set_params-SameEntries :
    (ps : List NamedParam) (m m' : StringMap)
    → SameEntries m m'
    → go_map (set_params ps m) ≡ go_map (set_params ps m')
unfolding set_params
set_params-SameEntries [] m m' h = go_map-SameEntries m m' h
set_params-SameEntries (p ∷ ps) m m' h = elim (Bool-cases p.is_set) [
  | inl there ↦
      rw there (set_raw-SameEntries p.raw m m' (set_params ps) h (set_params-SameEntries ps))
  | inr missing ↦ rw missing (set_params-SameEntries ps m m' h)
]

module _ (ps : List NamedParam) (flags flags' : StringMap) (h : SameEntries flags flags') where
  -- Named, as a map of Go, depends on the entries of the flags alone; they are maps.
  pub named_with-SameEntries :
      IsMap flags → IsMap flags' → go_map (named_with ps flags) ≡ go_map (named_with ps flags')
  unfolding named_with
  named_with-SameEntries hm hm' =
      set_params-SameEntries ps (copy_flags flags []) (copy_flags flags' [])
        (λ key. map_get-copied flags key hm ∙ h key ∙ sym (map_get-copied flags' key hm'))

  -- And so does NamedGet.
  pub named_get_with-SameEntries :
      (case : NamedParam → Result (Bytes × Bool)) (key : Bytes)
      → named_get_with case ps flags key ≡ named_get_with case ps flags' key
  unfolding named_get_with
  named_get_with-SameEntries case key =
      ap
        (λ x.
          if length key == 2
          then elim (find_param ps key) [ some p ↦ case p | none ↦ ok x ]
          else ok x)
        (h key)
