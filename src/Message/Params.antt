-- ===== src/Message/Params.antt =====
-- protocol/message/message.go: the interface ParamAccessor, and the maps from strings to strings
-- that it gives out. The nil map and the empty map are one value here: reading, ranging over and
-- measuring them is the same.
pub mod Maps
pub mod GoMaps
use adcl.Prelude.{
  ℕ, Bool, true, false, Bytes, List, [], ◌∷◌, Result, ok, panic, Option, none, some, equal,
  if◌then◌else◌, get_elem?,
}

-- The entries of a map, each key once. Go's iteration order is not fixed; nothing here depends
-- on it.
abbrev pub StringMap : Type 0
StringMap = List (Bytes × Bytes)

-- `val, ok := m[key]`
unfoldable pub map_get : StringMap → Bytes → Bytes × Bool
map_get [] key = ([], false)
map_get ((k, v) ∷ m) key = if equal k key then (v, true) else map_get m key

-- `m[key] = val`
unfoldable pub map_set : StringMap → Bytes → Bytes → StringMap
map_set [] key val = (key, val) ∷ []
map_set ((k, v) ∷ m) key val = if equal k key then (key, val) ∷ m else (k, v) ∷ map_set m key val

-- The methods of the interface, called on one value: none of them writes to it.
pub record ParamAccessor : Type 0 where
  pub positional : List Bytes
  pub pos_len : ℕ
  pub pos_at : ℕ → Result Bytes
  pub named : Result StringMap
  pub named_get : Bytes → Result (Bytes × Bool)

-- `s[i]` on a slice of strings
abbrev pub index_slice : List Bytes → ℕ → Result Bytes
index_slice s i = elim (get_elem? s i) [ some x ↦ ok x | none ↦ panic ]
