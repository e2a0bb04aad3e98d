-- ===== src/Message/Content/Tables.antt =====
-- protocol/message/content_*.go: what the methods Named, NamedGet and PosAt of the contents with
-- known named parameters have in common. Each content gives the table of its parameters, in the
-- order of its code.
pub mod Lookup
pub mod Careful
pub mod Every
pub mod Order
use adcl.Prelude.{
  ℕ, zero, suc, Bool, Bytes, List, [], ◌∷◌, Result, ok, panic, ◌>>=◌, Option, none, some, equal,
  ◌==◌, if◌then◌else◌, length, slice_from, slice_to,
}
use adcl.Message.Params.{StringMap, map_get, map_set}

-- One known parameter: its flag, the field with its text, and whether it is there.
pub record NamedParam : Type 0 where
  pub flag : Bytes
  pub raw : Bytes
  pub is_set : Bool

abbrev pub param : Bytes → Bytes → Bool → NamedParam
param flag raw is_set = record { flag = flag; raw = raw; is_set = is_set }

-- `for k, v := range Flags { m[k] = v }`
unfoldable pub copy_flags : StringMap → StringMap → StringMap
copy_flags [] m = m
copy_flags ((k, v) ∷ flags) m = copy_flags flags (map_set m k v)

-- `m[s[:2]] = s[2:]`
unfoldable pub set_raw : Bytes → StringMap → Result StringMap
set_raw s m = do val ← slice_from s 2; key ← slice_to s 2; ok (map_set m key val)

-- `if X.IsSet { m[xStr[:2]] = xStr[2:] }` for each parameter.
unfoldable pub set_params : List NamedParam → StringMap → Result StringMap
set_params [] m = ok m
set_params (p ∷ ps) m = (if p.is_set then set_raw p.raw m else ok m) >>= set_params ps

unfoldable pub named_with : List NamedParam → StringMap → Result StringMap
named_with ps flags = set_params ps (copy_flags flags [])

-- `switch Flag(key)`
unfoldable pub find_param : List NamedParam → Bytes → Option NamedParam
find_param [] key = none
find_param (p ∷ ps) key =
    let later = find_param ps key in if equal key p.flag then some p else later

-- NamedGet, with what the cases of the switch return.
unfoldable pub named_get_with :
    (NamedParam → Result (Bytes × Bool))
    → List NamedParam
    → StringMap
    → Bytes
    → Result (Bytes × Bool)
named_get_with case ps flags key =
    if length key == 2
    then elim (find_param ps key) [ some p ↦ case p | none ↦ ok (map_get flags key) ]
    else ok (map_get flags key)

-- `return xStr, X.IsSet`
abbrev pub whole_text : NamedParam → Result (Bytes × Bool)
whole_text p = ok (p.raw, p.is_set)

-- `return xStr[2:], X.IsSet`
unfoldable pub value_text : NamedParam → Result (Bytes × Bool)
value_text p = slice_from p.raw 2 >>= λ val. ok (val, p.is_set)

-- `switch i` over the constants from 0 on.
abbrev pub case_at : List Bytes → ℕ → Result Bytes
case_at [] i = panic
case_at (s ∷ rest) zero = ok s
case_at (s ∷ rest) (suc i) = case_at rest i
