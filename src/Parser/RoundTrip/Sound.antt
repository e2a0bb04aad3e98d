-- ===== src/Parser/RoundTrip/Sound.antt =====
-- protocol/parser/parse.go: what a message that was parsed tells of its line.
use mathlib.Core.Path.{subst}
use adcl.Prelude.{
  ℕ, ◌≡◌, ◌⊎◌, refl, ap, ◌∙◌, sym, true, false, ◌||◌, Bytes, List, [], ◌∷◌, ◌++◌, some, ok, ◌>>=◌,
  >>=-eq-ok, arith, ◌==◌, equal, Bool-cases, inl, inr,
}
use adcl.Encoding.Base32Value
use adcl.Encoding.Base32Value.{Base32Value, parse_base32_value}
use adcl.Message.Header.{
  HeaderFields, broadcast_header_fields, cih_header_fields, de_header_fields, feature_header_fields,
  udp_header_fields, command_sta,
}
use adcl.Message.Header.Commands.{parse_type_lem}
use adcl.Message.Struct.{Message, generic, positional, named, accessor}
use adcl.Message.Content.Generic
use adcl.Parser.Features.{parse_features}
use adcl.Parser.Features.Encoded.{features_text, AreFeatures, parse_features_sound}
use adcl.Parser.Grammar.{Tokens, take_token, take_base32, header_fields, content, fourcc, message}
use adcl.Parser.Grammar.HeaderRule.{parse_message_line}
use adcl.Parser.Lexer.Tokens.{tokens}
use adcl.Parser.MessageReader.{new_message_reader}
use adcl.Parser.Parse.{parse_message}
use adcl.Parser.RoundTrip.{IsPlain}

-- The text of a value, as String gives it.
abbrev pub text_of : Base32Value → Bytes
text_of v = (Base32Value.string v).0

-- The tokens of the header fields.
abbrev pub fields_tokens : HeaderFields → Tokens
fields_tokens (broadcast_header_fields sid) = text_of sid ∷ []
fields_tokens cih_header_fields = []
fields_tokens (de_header_fields sid target) = text_of sid ∷ text_of target ∷ []
fields_tokens (feature_header_fields sid ops) = text_of sid ∷ features_text ops ∷ []
fields_tokens (udp_header_fields cid) = text_of cid ∷ []

-- The fields are those of the type.
abbrev pub Carries : ℕ → HeaderFields → Type 0
Carries letter (broadcast_header_fields sid) = letter ≡ b'B'
Carries letter cih_header_fields = IsPlain letter
Carries letter (de_header_fields sid target) = (letter ≡ b'D') ⊎ (letter ≡ b'E')
Carries letter (feature_header_fields sid ops) = (letter ≡ b'F') × AreFeatures ops
Carries letter (udp_header_fields cid) = letter ≡ b'U'

parse_base32_value_sound :
    (t : Bytes) (v : Base32Value) → parse_base32_value t ≡ ok v → text_of v ≡ t
unfolding parse_base32_value Base32Value.string
parse_base32_value_sound t v e =
    let (raw, decoded, same) = >>=-eq-ok (Base32Value.decode_base32_string t) _ e in
    let is : v ≡ record { raw = raw; str_set = true; str = t } = cc same in ap text_of is

take_base32_sound :
    (ts rest : Tokens) (v : Base32Value) → take_base32 ts ≡ ok (v, rest) → ts ≡ text_of v ∷ rest
take_base32_sound [] rest v e = cc
take_base32_sound (t ∷ ts) rest v e =
    let (u, parsed, same) = >>=-eq-ok (parse_base32_value t) _ e in
    let text = parse_base32_value_sound t u parsed in cc (same, text)

pub take_token_sound : (ts rest : Tokens) (t : Bytes) → take_token ts ≡ ok (t, rest) → ts ≡ t ∷ rest
take_token_sound [] rest t e = cc
take_token_sound (u ∷ ts) rest t e = cc

-- What accepted header fields are.
abbrev Reads : ℕ → Tokens → HeaderFields × Tokens → Type 0
Reads letter ts (fields, rest) = Carries letter fields × (ts ≡ fields_tokens fields ++ rest)

Reads-ok :
    (letter : ℕ) (ts : Tokens) (p q : HeaderFields × Tokens)
    → ok p ≡ ok q
    → Reads letter ts p
    → Reads letter ts q
Reads-ok letter ts p q e h = let same : p ≡ q = cc e in subst (Reads letter ts) same h

module _ (letter : ℕ) (ts : Tokens) (p : HeaderFields × Tokens) where
  one_base32_sound :
      (f : Base32Value → HeaderFields)
      → ((v : Base32Value) → Carries letter (f v) × (fields_tokens (f v) ≡ text_of v ∷ []))
      → ◌>>=◌ {B = HeaderFields × Tokens} (take_base32 ts) (λ q. ok (f q.0, q.1)) ≡ ok p
      → Reads letter ts p
  one_base32_sound f is e =
      let ((v, rest), first, same) = >>=-eq-ok (take_base32 ts) _ e in
      let (carries, text) = is v in
      Reads-ok letter ts (f v, rest) p same
        (carries, take_base32_sound ts rest v first ∙ ap (λ x. x ++ rest) (sym text))

  de_sound :
      (letter ≡ b'D') ⊎ (letter ≡ b'E')
      → ◌>>=◌ {B = HeaderFields × Tokens}
          (take_base32 ts)
          (λ q. take_base32 q.1 >>= λ r. ok (de_header_fields q.0 r.0, r.1))
        ≡ ok p
      → Reads letter ts p
  de_sound is e =
      let ((v, rest), first, later) = >>=-eq-ok (take_base32 ts) _ e in
      let ((w, rest'), second, same) = >>=-eq-ok (take_base32 rest) _ later in
      Reads-ok letter ts (de_header_fields v w, rest') p same
        (
          is,
          take_base32_sound ts rest v first
              ∙ ap (◌∷◌ (text_of v)) (take_base32_sound rest rest' w second),
        )

  feature_sound :
      letter ≡ b'F'
      → ◌>>=◌ {B = HeaderFields × Tokens} (take_base32 ts) (λ q. take_token q.1 >>= λ r.
          parse_features r.0 >>= λ ops. ok (feature_header_fields q.0 ops, r.1))
        ≡ ok p
      → Reads letter ts p
  feature_sound is e =
      let ((v, rest), first, later) = >>=-eq-ok (take_base32 ts) _ e in
      let ((t, rest'), second, later') = >>=-eq-ok (take_token rest) _ later in
      let (ops, parsed, same) = >>=-eq-ok (parse_features t) _ later' in
      let (text, proper) = parse_features_sound t ops parsed in
      Reads-ok letter ts (feature_header_fields v ops, rest') p same
        (
          (is, proper),
          take_base32_sound ts rest v first
              ∙ ap (◌∷◌ (text_of v))
                  (take_token_sound rest rest' t second ∙ ap (λ x. x ∷ rest') (sym text)),
        )

  pub header_fields_sound : header_fields letter ts ≡ ok p → Reads letter ts p
  unfolding header_fields
  header_fields_sound e = elim (Bool-cases (letter == b'B')) [
    | inl b ↦ one_base32_sound broadcast_header_fields (λ v. (ground (arith, b), refl)) (rw b at e)
    | inr not_b ↦ elim (Bool-cases (letter == b'C' || letter == b'H' || letter == b'I')) [
      | inl plain ↦
          Reads-ok letter ts (cih_header_fields, ts) p (rw (not_b, plain) at e)
            (ground (arith, plain), refl)
      | inr not_plain ↦ elim (Bool-cases (letter == b'D' || letter == b'E')) [
        | inl de ↦ de_sound (ground (arith, de)) (rw (not_b, not_plain, de) at e)
        | inr not_de ↦ elim (Bool-cases (letter == b'F')) [
          | inl f ↦ feature_sound (ground (arith, f)) (rw (not_b, not_plain, not_de, f) at e)
          | inr not_f ↦ elim (Bool-cases (letter == b'U')) [
            | inl u ↦
                one_base32_sound udp_header_fields (λ v. (ground (arith, u), refl))
                  (rw (not_b, not_plain, not_de, not_f, u) at e)
            | inr other ↦ cc (rw (not_b, not_plain, not_de, not_f, other) at e)
          ]
        ]
      ]
    ]
  ]

pub fourcc_sound :
    (t : Bytes) (letter : ℕ) (name : Bytes) → fourcc t ≡ ok (letter, name) → t ≡ letter ∷ name
unfolding fourcc
fourcc_sound (a ∷ b ∷ c ∷ d ∷ []) letter name e = ground (arith, parse_type_lem a)
fourcc_sound (a ∷ b ∷ c ∷ d ∷ x ∷ t) letter name e = cc
fourcc_sound _ letter name e = cc

-- What a message tells of the tokens of its line.
abbrev pub Tells : Message → Tokens → Type 0
Tells m ts =
    (ps : List Bytes) × (positional m ≡ ok ps)
    × (named m ≡ ok [])
    × Carries m.type m.header_fields
    × (ts ≡ (m.type ∷ m.command) ∷ (fields_tokens m.header_fields ++ ps))

content-Tells :
    (letter : ℕ) (name : Bytes) (fields : HeaderFields) (ps ts : Tokens) (m : Message)
    → (content name ps >>= λ c.
        ok (record { type = letter; command = name; header_fields = fields; content = some c }))
      ≡ ok m
    → equal m.command command_sta ≡ false
    → Carries letter fields
    → ts ≡ (letter ∷ name) ∷ (fields_tokens fields ++ ps)
    → Tells m ts
unfolding content positional named accessor Generic.accessor
content-Tells letter name fields ps ts m e other carries text =
    let (c, inside, same) = >>=-eq-ok (content name ps) _ e in
    let is : record { type = letter; command = name; header_fields = fields; content = some c }
        ≡ m =
      cc same in
    elim (Bool-cases (equal name command_sta)) [
      | inl sta ↦ cc (sta, ap (λ x. equal x.command command_sta) is, other)
      | inr not_sta ↦
          let params : generic (record { positional_params = ps; named_params = [] }) ≡ c =
            cc (rw not_sta at inside) in
          subst (λ x. Tells x ts) is
            (subst
              (λ x.
                Tells
                  (record {
                    type = letter;
                    command = name;
                    header_fields = fields;
                    content = some x;
                  })
                  ts)
              params (ps, refl, refl, carries, text))
    ]

fields-Tells :
    (letter : ℕ) (name : Bytes) (rest ts : Tokens) (m : Message)
    → (header_fields letter rest >>= λ p. content name p.1 >>= λ c.
        ok (record { type = letter; command = name; header_fields = p.0; content = some c }))
      ≡ ok m
    → equal m.command command_sta ≡ false
    → ts ≡ (letter ∷ name) ∷ rest
    → Tells m ts
fields-Tells letter name rest ts m e other text =
    let (p, read, later) = >>=-eq-ok (header_fields letter rest) _ e in
    let (carries, split) = header_fields_sound letter rest p read in
    content-Tells letter name (p.0) (p.1) ts m later other carries
      (text ∙ ap (◌∷◌ (letter ∷ name)) split)

message-Tells :
    (ts : Tokens) (m : Message)
    → message ts ≡ ok m
    → equal m.command command_sta ≡ false
    → Tells m ts
unfolding message
message-Tells [] m e other = cc
message-Tells (t ∷ rest) m e other =
    let (head, first, later) = >>=-eq-ok (fourcc t) _ e in
    fields-Tells (head.0) (head.1) rest (t ∷ rest) m later other
      (ap (λ x. x ∷ rest) (fourcc_sound t (head.0) (head.1) first))

-- A line whose message was parsed, of a command other than STA, is told by it: Positional gives
-- the parameters of the line behind the header, Named gives an empty map, the header fields are
-- those of the type, and the tokens of the line are the type with the command, the texts of the
-- header fields, and these parameters.
pub parse_message-Tells :
    (s : Bytes) (m : Message)
    → (parse_message (new_message_reader s)).0 ≡ ok m
    → equal m.command command_sta ≡ false
    → Tells m (tokens s)
parse_message-Tells s m e other = message-Tells (tokens s) m (sym (parse_message_line s) ∙ e) other
