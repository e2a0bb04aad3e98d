-- ===== src/Stdlib/Base32.antt =====
-- Package encoding/base32: StdEncoding.WithPadding(NoPadding). Line ends in the input are skipped,
-- any other byte outside the alphabet is an error, and a last group of one, three or six digits
-- gives no byte.
use adcl.Prelude.{
  ℕ, ◌+◌, ◌-◌, ◌*◌, ◌/◌, ◌%◌, ◌<◌, ◌≡◌, refl, ap, ◌&&◌, ◌||◌, List, [], ◌∷◌, Bytes, ◌⊎◌, inl,
  Option, none, some, Result, ok, err, ◌>>=◌, corrupt_input, arith, ◌==◌, ltb, leb, if◌then◌else◌,
  All,
}
use mathlib.Core.List.{map}
use mathlib.Core.Logic.{◌≢◌}
use adcl.Stdlib.Strings.{Lacks}

-- The digit of the alphabet A-Z2-7 for a value below 32, and back.
abbrev digit : ℕ → ℕ
digit v = if ltb v 26 then v + b'A' else (v - 26) + b'2'

abbrev digit_value : ℕ → Option ℕ
digit_value c =
    if leb b'A' c && leb c b'Z'
    then some (c - b'A')
    else if leb b'2' c && leb c b'7'
    then some ((c - b'2') + 26)
    else none

-- Eight digits hold five bytes.
unfoldable pub pack : Bytes → List ℕ
pack [] = []
pack (a ∷ []) = (a / 8) ∷ (a % 8 * 4) ∷ []
pack (a ∷ b ∷ []) = (a / 8) ∷ (a % 8 * 4 + b / 64) ∷ (b / 2 % 32) ∷ (b % 2 * 16) ∷ []
pack (a ∷ b ∷ c ∷ []) =
    (a / 8) ∷ (a % 8 * 4 + b / 64) ∷ (b / 2 % 32) ∷ (b % 2 * 16 + c / 16) ∷ (c % 16 * 2) ∷ []
pack (a ∷ b ∷ c ∷ d ∷ []) =
    (a / 8)
    ∷ (a % 8 * 4 + b / 64)
    ∷ (b / 2 % 32)
    ∷ (b % 2 * 16 + c / 16)
    ∷ (c % 16 * 2 + d / 128)
    ∷ (d / 4 % 32)
    ∷ (d % 4 * 8)
    ∷ []
pack (a ∷ b ∷ c ∷ d ∷ e ∷ rest) =
    (a / 8)
    ∷ (a % 8 * 4 + b / 64)
    ∷ (b / 2 % 32)
    ∷ (b % 2 * 16 + c / 16)
    ∷ (c % 16 * 2 + d / 128)
    ∷ (d / 4 % 32)
    ∷ (d % 4 * 8 + e / 32)
    ∷ (e % 32)
    ∷ pack rest

-- The shifts of `decode`: the parts of a byte do not overlap, so `|` is `+`.
unfoldable pub unpack : List ℕ → Bytes
unpack (a ∷ b ∷ []) = ((a * 8 + b / 4) % 256) ∷ []
unpack (a ∷ b ∷ c ∷ d ∷ []) = ((a * 8 + b / 4) % 256) ∷ ((b * 64 + c * 2 + d / 16) % 256) ∷ []
unpack (a ∷ b ∷ c ∷ d ∷ e ∷ []) =
    ((a * 8 + b / 4) % 256) ∷ ((b * 64 + c * 2 + d / 16) % 256) ∷ ((d * 16 + e / 2) % 256) ∷ []
unpack (a ∷ b ∷ c ∷ d ∷ e ∷ f ∷ g ∷ []) =
    ((a * 8 + b / 4) % 256)
    ∷ ((b * 64 + c * 2 + d / 16) % 256)
    ∷ ((d * 16 + e / 2) % 256)
    ∷ ((e * 128 + f * 4 + g / 8) % 256)
    ∷ []
unpack (a ∷ b ∷ c ∷ d ∷ e ∷ f ∷ g ∷ h ∷ rest) =
    ((a * 8 + b / 4) % 256)
    ∷ ((b * 64 + c * 2 + d / 16) % 256)
    ∷ ((d * 16 + e / 2) % 256)
    ∷ ((e * 128 + f * 4 + g / 8) % 256)
    ∷ ((g * 32 + h) % 256)
    ∷ unpack rest
unpack _ = []

abbrev strip_newlines : Bytes → Bytes
strip_newlines [] = []
strip_newlines (c ∷ cs) =
    let rest = strip_newlines cs in if c == b'\n' || c == b'\r' then rest else c ∷ rest

digit_values : Bytes → Result (List ℕ)
digit_values [] = ok []
digit_values (c ∷ cs) = elim (digit_value c) [
  | none ↦ err corrupt_input
  | some v ↦ do vs ← digit_values cs; ok (v ∷ vs)
]

-- EncodeToString
unfoldable pub encode_to_string : Bytes → Bytes
unfolding pack
encode_to_string src = map digit (pack src)

-- DecodeString
unfoldable pub decode_string : Bytes → Result Bytes
unfolding digit_values unpack
decode_string s = do vs ← digit_values (strip_newlines s); ok (unpack vs)

abbrev pub IsBytes : Bytes → Type 0
IsBytes = All (λ b. b < 256)

-- Each byte is put together again from the digits that it was cut into.
join0 : (a b : ℕ) → a < 256 → b < 256 → (a / 8 * 8 + (a % 8 * 4 + b / 64) / 4) % 256 ≡ a
join0 a b h k = omega arith

join0_last : (a : ℕ) → a < 256 → (a / 8 * 8 + a % 8 * 4 / 4) % 256 ≡ a
join0_last a h = omega arith

join1 :
    (a b c : ℕ)
    → b < 256
    → c < 256
    → ((a % 8 * 4 + b / 64) * 64 + b / 2 % 32 * 2 + (b % 2 * 16 + c / 16) / 16) % 256 ≡ b
join1 a b c h k = omega arith

join1_last :
    (a b : ℕ) → b < 256 → ((a % 8 * 4 + b / 64) * 64 + b / 2 % 32 * 2 + b % 2 * 16 / 16) % 256 ≡ b
join1_last a b h = omega arith

join2 :
    (b c d : ℕ)
    → c < 256
    → d < 256
    → ((b % 2 * 16 + c / 16) * 16 + (c % 16 * 2 + d / 128) / 2) % 256 ≡ c
join2 b c d h k = omega arith

join2_last : (b c : ℕ) → c < 256 → ((b % 2 * 16 + c / 16) * 16 + c % 16 * 2 / 2) % 256 ≡ c
join2_last b c h = omega arith

join3 :
    (c d e : ℕ)
    → d < 256
    → e < 256
    → ((c % 16 * 2 + d / 128) * 128 + d / 4 % 32 * 4 + (d % 4 * 8 + e / 32) / 8) % 256 ≡ d
join3 c d e h k = omega arith

join3_last :
    (c d : ℕ) → d < 256 → ((c % 16 * 2 + d / 128) * 128 + d / 4 % 32 * 4 + d % 4 * 8 / 8) % 256 ≡ d
join3_last c d h = omega arith

join4 : (d e : ℕ) → e < 256 → ((d % 4 * 8 + e / 32) * 32 + e % 32) % 256 ≡ e
join4 d e h = omega arith

pub unpack-pack : (src : Bytes) → IsBytes src → unpack (pack src) ≡ src
unfolding pack unpack
unpack-pack [] h = refl
unpack-pack (a ∷ []) (ha, _) = cc (join0_last a ha)
unpack-pack (a ∷ b ∷ []) (ha, (hb, _)) = cc (join0 a b ha hb, join1_last a b hb)
unpack-pack (a ∷ b ∷ c ∷ []) (ha, (hb, (hc, _))) =
    cc (join0 a b ha hb, join1 a b c hb hc, join2_last b c hc)
unpack-pack (a ∷ b ∷ c ∷ d ∷ []) (ha, (hb, (hc, (hd, _)))) =
    cc (join0 a b ha hb, join1 a b c hb hc, join2 b c d hc hd, join3_last c d hd)
unpack-pack (a ∷ b ∷ c ∷ d ∷ e ∷ rest) (ha, (hb, (hc, (hd, (he, h))))) = cc (
  join0 a b ha hb,
  join1 a b c hb hc,
  join2 b c d hc hd,
  join3 c d e hd he,
  join4 d e he,
  unpack-pack rest h,
)

abbrev AreDigits : List ℕ → Type 0
AreDigits = All (λ v. v < 32)

pack-AreDigits : (src : Bytes) → IsBytes src → AreDigits (pack src)
unfolding pack
pack-AreDigits [] h = tt
pack-AreDigits (a ∷ []) h = omega arith
pack-AreDigits (a ∷ b ∷ []) h = omega arith
pack-AreDigits (a ∷ b ∷ c ∷ []) h = omega arith
pack-AreDigits (a ∷ b ∷ c ∷ d ∷ []) h = omega arith
pack-AreDigits (a ∷ b ∷ c ∷ d ∷ e ∷ rest) (ha, (hb, (hc, (hd, (he, h))))) = (
  omega arith,
  (
    omega arith,
    (
      omega arith,
      (
        omega arith,
        (omega arith, (omega arith, (omega arith, (omega arith, pack-AreDigits rest h)))),
      ),
    ),
  ),
)

strip_newlines-digits : (vs : List ℕ) → strip_newlines (map digit vs) ≡ map digit vs
strip_newlines-digits [] = refl
strip_newlines-digits (v ∷ vs) = ground (arith, strip_newlines-digits vs)

digit_value-digit : (v : ℕ) → v < 32 → digit_value (digit v) ≡ some v
digit_value-digit v h = ground arith

digit_values-digits : (vs : List ℕ) → AreDigits vs → digit_values (map digit vs) ≡ ok vs
unfolding digit_values
digit_values-digits [] h = refl
digit_values-digits (v ∷ vs) (hv, h) =
    rw (digit_value-digit v hv, digit_values, digit_values-digits vs h)

pub decode_string-encode :
    (src : Bytes) → IsBytes src → decode_string (encode_to_string src) ≡ ok src
unfolding decode_string encode_to_string
decode_string-encode src h =
    rw (strip_newlines-digits (pack src), digit_values-digits (pack src) (pack-AreDigits src h))
      (ap ok (unpack-pack src h))

-- Decoding gives bytes, or the one error.
abbrev pub DecodesOr : Result Bytes → Type 0
DecodesOr r = ((out : Bytes) × (r ≡ ok out)) ⊎ (r ≡ err corrupt_input)

digit_values_total : (s : Bytes) → DecodesOr (digit_values s)
unfolding digit_values
digit_values_total [] = inl ([], refl)
digit_values_total (c ∷ cs) = ground (arith, digit_values_total cs)

pub decode_string_total : (s : Bytes) → DecodesOr (decode_string s)
unfolding decode_string
decode_string_total s = ground (arith, digit_values_total (strip_newlines s))

Lacks-digits : (b : ℕ) (vs : List ℕ) → b < b'2' → Lacks b (map digit vs)
Lacks-digits b [] h = tt
Lacks-digits b (v ∷ vs) h = (ground arith, Lacks-digits b vs h)

pack-ne-nil : (src : Bytes) → src ≢ [] → map digit (pack src) ≢ []
unfolding pack
pack-ne-nil [] h = h
pack-ne-nil (a ∷ []) h = cc
pack-ne-nil (a ∷ b ∷ []) h = cc
pack-ne-nil (a ∷ b ∷ c ∷ []) h = cc
pack-ne-nil (a ∷ b ∷ c ∷ d ∷ []) h = cc
pack-ne-nil (a ∷ b ∷ c ∷ d ∷ e ∷ rest) h = cc

-- The text of bytes, one at least, is not empty and has no byte below the digits.
pub encode_to_string-word :
    (b : ℕ) (src : Bytes)
    → b < b'2'
    → src ≢ []
    → (encode_to_string src ≢ []) × Lacks b (encode_to_string src)
unfolding encode_to_string
encode_to_string-word b src small h = (pack-ne-nil src h, Lacks-digits b (pack src) small)
