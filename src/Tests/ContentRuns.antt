-- ===== src/Tests/ContentRuns.antt =====
-- The contents of protocol/message at concrete inputs.
use adcl.Prelude.{
  none, Option, arith, equal_iff, ◌≡◌, refl, true, false, codes, Bytes, [], ◌∷◌, ok, All, ℤ, pos,
  inl, inr,
}
use adcl.Encoding.Base32Value.{Base32Value}
use adcl.Message.Maybe.{Maybe}
use adcl.Message.Params.{StringMap, map_get}
use adcl.Message.Accessors.RangeOrder.{SameMethods, with_flags, accessor-SameMethods}
use adcl.Message.Params.GoMaps.{SameEntries}
use adcl.Message.Content.Res
use adcl.Message.Content.Res.{ResContent}
use adcl.Message.Content.Tables.Lookup.{IsPlaced, IsMap}
use adcl.Message.Struct.{res, accessor}
use adcl.Message.NamedGets.Answers.{answer, style, table, named_get-answer}

abbrev missing_int : Maybe ℤ
missing_int = record { value = pos 0; is_set = false }

abbrev missing_base32 : Maybe (Option Base32Value)
missing_base32 = record { value = none; is_set = false }

abbrev result : ResContent
result = record {
  fn = codes "a";
  fn_str = codes "FNa";
  si = pos 5;
  si_str = codes "SI5";
  sl = record { value = pos 2; is_set = true };
  sl_str = codes "SL2";
  to = codes "x";
  to_str = codes "TOx";
  tr = missing_base32;
  tr_str = [];
  td = missing_int;
  td_str = [];
  flags = (codes "FI", codes "1") ∷ [];
}

result-IsPlaced : All IsPlaced (Res.params result)
result-IsPlaced = (
  inr (_, _, codes "a", refl, refl),
  (
    inr (_, _, codes "5", refl, refl),
    (
      inr (_, _, codes "2", refl, refl),
      (inr (_, _, codes "x", refl, refl), (inl refl, (inl refl, tt))),
    ),
  ),
)

flags-IsMap : IsMap result.flags
unfolding adcl.Message.Params.map_get
flags-IsMap = (refl, tt)

named_get-answer_example :
    (m : StringMap) × ((accessor (res result)).named ≡ ok m)
    × ((key : Bytes)
        → (accessor (res result)).named_get key
          ≡ answer (style (res result)) (table (res result)) m key)
named_get-answer_example = named_get-answer (res result) result-IsPlaced flags-IsMap

abbrev two_flags : StringMap
two_flags = (codes "FI", codes "1") ∷ (codes "XX", codes "2") ∷ []

abbrev turned : StringMap
turned = (codes "XX", codes "2") ∷ (codes "FI", codes "1") ∷ []

two_flags-IsMap : IsMap two_flags
unfolding map_get adcl.Prelude.equal
two_flags-IsMap = (refl, (refl, tt))

turned-IsMap : IsMap turned
unfolding map_get adcl.Prelude.equal
turned-IsMap = (refl, (refl, tt))

-- A key is not both flags.
two_flags-SameEntries : SameEntries two_flags turned
unfolding map_get
two_flags-SameEntries key = ground (arith, equal_iff (codes "FI") key, equal_iff (codes "XX") key)

abbrev flagged : ResContent
flagged = record result { flags = two_flags }

accessor-SameMethods_example :
    SameMethods (accessor (res flagged)) (accessor (with_flags (res flagged) turned))
accessor-SameMethods_example =
    accessor-SameMethods (res flagged) turned two_flags-IsMap turned-IsMap two_flags-SameEntries
