-- ===== src/Message/Params/Maps.antt =====
-- protocol/message/message.go: the laws of the maps.
use adcl.Prelude.{◌≡◌, refl, true, Bytes, [], ◌∷◌, equal, equal_iff, if◌then◌else◌, arith}
use adcl.Message.Params.{StringMap, map_get, map_set}

-- `ground` is given `equal_iff` at each pair of strings that is compared.
pub map_get-map_set :
    (m : StringMap) (key val j : Bytes)
    → map_get (map_set m key val) j ≡ (if equal key j then (val, true) else map_get m j)
unfolding map_get map_set
map_get-map_set [] key val j = refl
map_get-map_set ((k, v) ∷ m) key val j =
    ground (arith, equal_iff key j, equal_iff k key, equal_iff k j, map_get-map_set m key val j)
