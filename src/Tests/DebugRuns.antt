-- ===== src/Tests/DebugRuns.antt =====
-- protocol/generator/debug at a concrete content.
use adcl.Prelude.{
  none, Option, ◌≡◌, refl, false, true, codes, Bytes, [], ◌∷◌, Result, ok, All, ℤ, pos, inl, inr,
}
use adcl.Encoding.Base32Value.{Base32Value}
use adcl.Message.Maybe.{Maybe}
use adcl.Message.Params.{StringMap, map_get}
use adcl.Message.Content.Tables.Lookup.{IsPlaced, IsMap}
use adcl.Message.Content.Tables.Careful.{AreOthers}
use adcl.Generator.Debug.Content.{GeneratedResContent, params, accessor, generated_named_get}

abbrev missing_int : Maybe ℤ
missing_int = record { value = pos 0; is_set = false }

abbrev missing_base32 : Maybe (Option Base32Value)
missing_base32 = record { value = none; is_set = false }

-- A result without TR and TD, with one further flag.
abbrev generated : GeneratedResContent
generated = record {
  fn = codes "a";
  fn_str = codes "FNa";
  si = pos 5;
  si_str = codes "SI5";
  sl = record { value = pos 2; is_set = true };
  sl_str = codes "SL2";
  to = codes "x";
  to_str = codes "TOx";
  tr = missing_base32;
  tr_str = [];
  td = missing_int;
  td_str = [];
  flags = (codes "FI", codes "1") ∷ [];
}

generated-IsPlaced : All IsPlaced (params generated)
generated-IsPlaced = (
  inr (_, _, codes "a", refl, refl),
  (
    inr (_, _, codes "5", refl, refl),
    (
      inr (_, _, codes "2", refl, refl),
      (inr (_, _, codes "x", refl, refl), (inl refl, (inl refl, tt))),
    ),
  ),
)

flags-IsMap : IsMap generated.flags
unfolding map_get
flags-IsMap = (refl, tt)

flags-AreOthers : AreOthers generated.flags (params generated)
unfolding map_get adcl.Prelude.equal
flags-AreOthers = (refl, (refl, (refl, (refl, (refl, (refl, tt))))))

generated_named_get_example :
    (m : StringMap) × ((accessor generated).named ≡ ok m)
    × ((key : Bytes) → (accessor generated).named_get key ≡ ok (map_get m key))
generated_named_get_example =
    generated_named_get generated generated-IsPlaced flags-IsMap flags-AreOthers
