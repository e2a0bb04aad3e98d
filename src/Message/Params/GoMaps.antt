-- ===== src/Message/Params/GoMaps.antt =====
-- protocol/message/message.go: the maps without the order of their entries, which Go does not fix.
use mathlib.Core.Quot
use mathlib.Core.Quot.{Quot}
use adcl.Prelude.{◌≡◌, refl, ap, Bool, Bytes, Result, ok, err, panic}
use adcl.Message.Params.{StringMap, map_get, map_set}
use adcl.Message.Params.Maps.{map_get-map_set}

-- The same entries, in whatever order.
abbrev pub SameEntries : StringMap → StringMap → Type 0
SameEntries m m' = (key : Bytes) → map_get m key ≡ map_get m' key

-- A map as Go has it.
abbrev pub GoMap : Type 0
GoMap = Quot SameEntries

abbrev pub go_map : Result StringMap → Result GoMap
go_map (ok m) = ok (Quot.mk m)
go_map (err e) = err e
go_map panic = panic

pub go_map-SameEntries : (m m' : StringMap) → SameEntries m m' → go_map (ok m) ≡ go_map (ok m')
go_map-SameEntries m m' h = ap (λ q. ok q) (Quot.sound h)

pub map_set-SameEntries :
    (m m' : StringMap) (key val : Bytes)
    → SameEntries m m'
    → SameEntries (map_set m key val) (map_set m' key val)
map_set-SameEntries m m' key val h j =
    rw (map_get-map_set m key val j, map_get-map_set m' key val j, h j) refl

-- The entry of a map of Go for a key; it does not depend on the order.
unfoldable entry : Bytes → GoMap → Bytes × Bool
entry key = Quot.lift (hlevel) (λ m. map_get m key) (λ m m' h. h key)

-- Maps that are the same for Go have the same entries.
SameEntries-mk : (m m' : StringMap) → ◌≡◌ {A = GoMap} (Quot.mk m) (Quot.mk m') → SameEntries m m'
unfolding entry
SameEntries-mk m m' e key = ap (entry key) e
