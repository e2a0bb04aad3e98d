-- ===== src/Message/Maybe/Generated/History.antt =====
-- protocol/maybe: a value of a generated type after any calls of Set and Unset.
use mathlib.Core.List.{map}
use adcl.Prelude.{Bool, true, false, ◌≡◌, refl, List, [], ◌∷◌, if◌then◌else◌}
use adcl.Message.Maybe.{Maybe, get, get_default, set, unset}
use adcl.Message.Maybe.Generated.{Generated, generated}

-- The calls that write.
pub data Call (A : Type 0) : Type 0 where
  set_to : A → Call A
  unset_it : Call A

abbrev pub is_setting : {A : Type 0} → Call A → Bool
is_setting (set_to val) = true
is_setting unset_it = false

-- The values that were set, in their order.
abbrev pub settings : {A : Type 0} → List (Call A) → List A
settings [] = []
settings (set_to val ∷ calls) = val ∷ settings calls
settings (unset_it ∷ calls) = settings calls

-- The last of a list, or what was there before.
abbrev pub last_or : {A : Type 0} → A → List A → A
last_or before [] = before
last_or before (x ∷ xs) = last_or x xs

module _ (G : Generated) where
  abbrev pub after : List (Call G.Value) → G.Struct → G.Struct
  after [] m = m
  after (set_to val ∷ calls) m = after calls (G.set m val)
  after (unset_it ∷ calls) m = after calls (G.unset m)

-- For every type that genny makes of the template: after any calls of Set and Unset, Get gives the
-- value that was set last, also where an Unset came behind it, and whether the last call was a Set;
-- without such a call, it gives what it gave before. GetDefault gives the same value if Get tells
-- that there is one, and the default if not.
pub generated-after :
    (A : Type 0) (m : Maybe A) (calls : List (Call A)) (default : A)
    → ((generated A).get (after (generated A) calls m)
        ≡ (last_or m.value (settings calls), last_or m.is_set (map is_setting calls)))
      × ((generated A).get_default (after (generated A) calls m) default ≡ (
          if last_or m.is_set (map is_setting calls)
          then last_or m.value (settings calls)
          else default))
unfolding get get_default set unset
generated-after A m [] default = (refl, refl)
generated-after A m (set_to val ∷ calls) default = generated-after A (set m val) calls default
generated-after A m (unset_it ∷ calls) default = generated-after A (unset m) calls default
