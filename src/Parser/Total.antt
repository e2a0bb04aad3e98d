-- ===== src/Parser/Total.antt =====
-- protocol/parser: parsing a line always comes back with a message or an error.
use adcl.Prelude.{
  ℕ, zero, suc, ◌*◌, ◌%◌, ◌/◌, ◌≡◌, refl, Bytes, List, [], ◌∷◌, ◌++◌, Result, ok, err, panic,
  fuel_exhausted, arith, length, ◌>>=◌, ◌==◌, if◌then◌else◌, true, false, Bool, Bool-cases, inl,
  inr, equal,
}
use adcl.Encoding.AdcString.{decode_adc_string}
use adcl.Encoding.Base32Value.{Base32Value, parse_base32_value, parse_base32_value_total}
use adcl.Message.Header.{
  parse_type, HeaderFields, broadcast_header_fields, de_header_fields, feature_header_fields,
  udp_header_fields, command_sta,
}
use adcl.Message.Params.{StringMap}
use adcl.Message.Status.{parse_status_code}
use adcl.Message.Feature.{FeatureOp}
use adcl.Parser.Features.{parse_feature, feature_loop, parse_features}
use adcl.Parser.MessageReader.{is_named, new_message_reader}
use adcl.Parser.Parse.{parse_message}
use adcl.Parser.Lexer.Tokens.{tokens}
use adcl.Parser.Grammar.{
  Tokens, take_token, take_base32, header_fields, flags, sta_content, content, fourcc, message,
}
use adcl.Parser.Grammar.HeaderRule.{parse_message_line}

abbrev pub returned {ℓ} : {A : Type ℓ} → Result A → Bool
returned (ok a) = true
returned (err fuel_exhausted) = false
returned (err e) = true
returned panic = false

-- A value, or an error of the code: no panic, and no loop was cut off by its bound.
pub record IsReturned {ℓ} {A : Type ℓ} (r : Result A) : Type ℓ where
  pub holds : returned r ≡ true

module _ {A B : Type 0} where
  IsReturned-bind :
      (r : Result A) (f : A → Result B)
      → IsReturned r
      → ((a : A) → IsReturned (f a))
      → IsReturned (r >>= f)
  IsReturned-bind (ok a) f h k = k a
  IsReturned-bind (err e) f h k = record { holds = h.holds }
  IsReturned-bind panic f h k = cc h.holds

IsReturned-if :
    {A : Type 0} (b : Bool) (r s : Result A)
    → IsReturned r
    → IsReturned s
    → IsReturned (if b then r else s)
IsReturned-if true r s h k = h
IsReturned-if false r s h k = k

take_token-IsReturned : (ts : Tokens) → IsReturned (take_token ts)
take_token-IsReturned [] = (record { holds = refl })
take_token-IsReturned (t ∷ ts) = (record { holds = refl })

parse_base32_value-IsReturned : (t : Bytes) → IsReturned (parse_base32_value t)
parse_base32_value-IsReturned t = elim (parse_base32_value_total t) [
  | inl (v, e) ↦ rw e (record { holds = refl })
  | inr e ↦ rw e (record { holds = refl })
]

take_base32-IsReturned : (ts : Tokens) → IsReturned (take_base32 ts)
take_base32-IsReturned [] = (record { holds = refl })
take_base32-IsReturned (t ∷ ts) =
    IsReturned-bind (parse_base32_value t) _ (parse_base32_value-IsReturned t)
      (λ v. (record { holds = refl }))

parse_feature-IsReturned : (op a b c d : ℕ) → IsReturned (parse_feature op a b c d)
unfolding parse_feature
parse_feature-IsReturned op a b c d = record { holds = ground arith }

-- The length is a multiple of five, so no group is cut short.
feature_loop-IsReturned :
    (s : Bytes) (n : ℕ) (ops : List FeatureOp) → length s ≡ 5 * n → IsReturned (feature_loop ops s)
unfolding feature_loop
feature_loop-IsReturned [] n ops e = (record { holds = refl })
feature_loop-IsReturned (op ∷ a ∷ b ∷ c ∷ d ∷ rest) zero ops e = absurd (omega arith)
feature_loop-IsReturned (op ∷ a ∷ b ∷ c ∷ d ∷ rest) (suc n) ops e =
    IsReturned-bind (parse_feature op a b c d) _ (parse_feature-IsReturned op a b c d)
      (λ f. feature_loop-IsReturned rest n (ops ++ (f ∷ [])) (omega arith))
feature_loop-IsReturned (op ∷ []) n ops e = absurd (omega arith)
feature_loop-IsReturned (op ∷ a ∷ []) n ops e = absurd (omega arith)
feature_loop-IsReturned (op ∷ a ∷ b ∷ []) n ops e = absurd (omega arith)
feature_loop-IsReturned (op ∷ a ∷ b ∷ c ∷ []) n ops e = absurd (omega arith)

parse_features-IsReturned : (s : Bytes) → IsReturned (parse_features s)
unfolding parse_features
parse_features-IsReturned s = elim (Bool-cases (length s % 5 == 0)) [
  | inl e ↦ rw e (feature_loop-IsReturned s (length s / 5) [] (ground arith))
  | inr e ↦ rw e (record { holds = refl })
]

module _ (ts : Tokens) where
  one_base32-IsReturned :
      (f : Base32Value → HeaderFields)
      → IsReturned {A = HeaderFields × Tokens} (take_base32 ts >>= λ p. ok (f p.0, p.1))
  one_base32-IsReturned f =
      IsReturned-bind (take_base32 ts) _ (take_base32-IsReturned ts) (λ p. record { holds = refl })

  two_base32-IsReturned :
      IsReturned {A = HeaderFields × Tokens}
        (take_base32 ts >>= λ p. take_base32 p.1 >>= λ q. ok (de_header_fields p.0 q.0, q.1))
  two_base32-IsReturned = IsReturned-bind (take_base32 ts) _ (take_base32-IsReturned ts) (λ p.
      IsReturned-bind (take_base32 p.1) _ (take_base32-IsReturned p.1)
        (λ q. record { holds = refl }))

  features-IsReturned : IsReturned {A = HeaderFields × Tokens} (
      take_base32 ts >>= λ p.
      take_token p.1 >>= λ q. parse_features q.0 >>= λ fs. ok (feature_header_fields p.0 fs, q.1))
  features-IsReturned = IsReturned-bind (take_base32 ts) _ (take_base32-IsReturned ts) (λ p.
      IsReturned-bind (take_token p.1) _ (take_token-IsReturned p.1) (λ q.
        IsReturned-bind (parse_features q.0) _ (parse_features-IsReturned q.0)
          (λ fs. record { holds = refl })))

header_fields-IsReturned : (letter : ℕ) (ts : Tokens) → IsReturned (header_fields letter ts)
unfolding header_fields
header_fields-IsReturned letter ts = record {
  holds = ground (
    arith,
    (one_base32-IsReturned ts broadcast_header_fields).holds,
    (two_base32-IsReturned ts).holds,
    (features-IsReturned ts).holds,
    (one_base32-IsReturned ts udp_header_fields).holds,
  );
}

decode_adc_string-IsReturned : (s : Bytes) → IsReturned (decode_adc_string s)
unfolding decode_adc_string
decode_adc_string-IsReturned s = record { holds = ground arith }

parse_status_code-IsReturned : (s : Bytes) → IsReturned (parse_status_code s)
unfolding parse_status_code
parse_status_code-IsReturned (a ∷ b ∷ c ∷ []) = record { holds = ground arith }
parse_status_code-IsReturned (a ∷ b ∷ c ∷ d ∷ s) = record { holds = ground arith }
parse_status_code-IsReturned _ = record { holds = refl }

flags-IsReturned : (ts : Tokens) (m : StringMap) → IsReturned (flags m ts)
unfolding flags
flags-IsReturned [] m = (record { holds = refl })
flags-IsReturned (t ∷ ts) m =
    IsReturned-if (is_named t) _ _ (flags-IsReturned ts _) (record { holds = refl })

sta_content-IsReturned : (ts : Tokens) → IsReturned (sta_content ts)
unfolding sta_content
sta_content-IsReturned ts = IsReturned-bind (take_token ts) _ (take_token-IsReturned ts) (λ p.
    IsReturned-bind (parse_status_code p.0) _ (parse_status_code-IsReturned p.0) (λ status.
      IsReturned-bind (take_token p.1) _ (take_token-IsReturned p.1) (λ q.
        IsReturned-bind (decode_adc_string q.0) _ (decode_adc_string-IsReturned q.0) (λ d.
          IsReturned-bind (flags [] q.1) _ (flags-IsReturned q.1 [])
            (λ fs. (record { holds = refl }))))))

fourcc-IsReturned : (t : Bytes) → IsReturned (fourcc t)
unfolding fourcc parse_type
fourcc-IsReturned (a ∷ b ∷ c ∷ d ∷ []) = record { holds = ground arith }
fourcc-IsReturned _ = record { holds = refl }

message-IsReturned : (ts : Tokens) → IsReturned (message ts)
unfolding message content
message-IsReturned ts = IsReturned-bind (take_token ts) _ (take_token-IsReturned ts) (λ p.
    IsReturned-bind (fourcc p.0) _ (fourcc-IsReturned p.0) (λ head.
      IsReturned-bind (header_fields head.0 p.1) _ (header_fields-IsReturned head.0 p.1) (λ f.
        IsReturned-bind _ _
          (IsReturned-if (equal head.1 command_sta) _ _
            (IsReturned-bind (sta_content f.1) _ (sta_content-IsReturned f.1)
              (λ c. (record { holds = refl })))
            (record { holds = refl }))
          (λ c. (record { holds = refl })))))

-- Whatever the line holds, parsing it does not panic, and the bounds of the loops are enough.
pub parse_message-IsReturned : (s : Bytes) → IsReturned (parse_message (new_message_reader s)).0
parse_message-IsReturned s = rw parse_message_line (message-IsReturned (tokens s))
