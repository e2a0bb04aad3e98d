-- ===== src/Parser/RoundTrip/Printed.antt =====
-- protocol/parser: the texts of header fields that can be written.
use mathlib.Core.Path.{subst}
use adcl.Prelude.{ℕ, ◌≡◌, ◌≢◌, ◌<◌, refl, true, Bytes, List, [], ◌∷◌, ok, arith, All, All-append}
use adcl.Stdlib.Strings.{Lacks}
use adcl.Stdlib.Base32.{IsBytes, encode_to_string-word, decode_string-encode}
use adcl.Encoding.Base32Value
use adcl.Encoding.Base32Value.{Base32Value, parse_base32_value, new_base32_value, raw_bytes}
use adcl.Message.Header.{
  HeaderFields, broadcast_header_fields, cih_header_fields, de_header_fields, feature_header_fields,
  udp_header_fields,
}
use adcl.Message.Feature.{FeatureOpAction, add, remove, FeatureOp}
use adcl.Encoding.{is_upper_alpha, is_upper_alpha_num}
use adcl.Parser.Features.{is_feature_name}
use adcl.Parser.Features.Encoded.{action_byte, features_text, name_ok, AreFeatures}
use adcl.Parser.Lexer.{space}
use adcl.Parser.Lexer.Shape.{IsToken}
use adcl.Parser.RoundTrip.Sound.{text_of, fields_tokens, Carries}

-- A value that was made of bytes, one at least, and that was printed.
abbrev pub IsPrinted : Base32Value → Type 0
IsPrinted v = IsBytes v.raw × (v.raw ≢ []) × ((Base32Value.string (new_base32_value v.raw)).1 ≡ v)

-- The values and the list of features can be written.
abbrev pub ArePrinted : HeaderFields → Type 0
ArePrinted (broadcast_header_fields sid) = IsPrinted sid
ArePrinted cih_header_fields = Unit
ArePrinted (de_header_fields sid target) = IsPrinted sid × IsPrinted target
ArePrinted (feature_header_fields sid ops) = IsPrinted sid × (ops ≢ [])
ArePrinted (udp_header_fields cid) = IsPrinted cid

pub text_of-IsPrinted :
    (v : Base32Value) → IsPrinted v → IsToken (text_of v) × (parse_base32_value (text_of v) ≡ ok v)
unfolding parse_base32_value Base32Value.string new_base32_value
text_of-IsPrinted v (bytes, ne, printed) =
    subst (λ x. IsToken (text_of x) × (parse_base32_value (text_of x) ≡ ok x)) printed
      (
        encode_to_string-word space v.raw (omega arith) ne,
        rw (decode_string-encode v.raw bytes) refl,
      )

name_ok-Lacks : (x : ℕ) (name : Bytes) → x < b'+' → name_ok name ≡ true → Lacks x name
unfolding is_feature_name is_upper_alpha is_upper_alpha_num
name_ok-Lacks x (a ∷ b ∷ c ∷ d ∷ []) small h =
    (ground (arith, h), (ground (arith, h), (ground (arith, h), (ground (arith, h), tt))))
name_ok-Lacks x _ small h = cc

action_byte-Lacks : (x : ℕ) (act : FeatureOpAction) → x < b'+' → action_byte act ≢ x
action_byte-Lacks x add small = omega (arith, small)
action_byte-Lacks x remove small = omega (arith, small)

pub features_text-Lacks :
    (x : ℕ) (ops : List FeatureOp) → x < b'+' → AreFeatures ops → Lacks x (features_text ops)
features_text-Lacks x [] small h = tt
features_text-Lacks x (op ∷ ops) small (h, hs) = (
  action_byte-Lacks x op.op_action small,
  All-append (λ c. c ≢ x) op.feature (features_text ops) (name_ok-Lacks x op.feature small h)
      (features_text-Lacks x ops small hs),
)

pub features_text-ne-nil : (ops : List FeatureOp) → ops ≢ [] → features_text ops ≢ []
features_text-ne-nil [] ne = absurd (ne refl)
features_text-ne-nil (op ∷ ops) ne = cc

text_of-Lacks : (x : ℕ) (v : Base32Value) → x < b'+' → IsPrinted v → Lacks x (text_of v)
unfolding Base32Value.string new_base32_value
text_of-Lacks x v small (bytes, ne, printed) =
    subst (λ y. Lacks x (text_of y)) printed
      ((encode_to_string-word x v.raw (omega (arith, small)) ne).1)

-- The texts of header fields have no byte below the plus.
pub fields_tokens-Lacks :
    (x letter : ℕ) (fields : HeaderFields)
    → x < b'+'
    → Carries letter fields
    → ArePrinted fields
    → All (Lacks x) (fields_tokens fields)
fields_tokens-Lacks x letter (broadcast_header_fields sid) small h v =
    (text_of-Lacks x sid small v, tt)
fields_tokens-Lacks x letter cih_header_fields small h v = tt
fields_tokens-Lacks x letter (de_header_fields sid target) small h (v, w) =
    (text_of-Lacks x sid small v, (text_of-Lacks x target small w, tt))
fields_tokens-Lacks x letter (feature_header_fields sid ops) small (h, proper) (v, ne) =
    (text_of-Lacks x sid small v, (features_text-Lacks x ops small proper, tt))
fields_tokens-Lacks x letter (udp_header_fields cid) small h v = (text_of-Lacks x cid small v, tt)
