-- ===== src/Parser/RoundTrip/Reported.antt =====
-- protocol/parser/parse_sta.go: what a status message that was parsed tells of its line.
use mathlib.Core.Path.{subst}
use adcl.Prelude.{
  ℕ, ◌<◌, ◌≡◌, ap, ◌∙◌, sym, true, Bytes, [], ◌∷◌, ◌++◌, some, ok, ◌>>=◌, >>=-eq-ok, equal,
  equal_iff, Bool-cases, inl, inr, All, take, drop,
}
use adcl.Encoding.AdcString.{decode_adc_string}
use adcl.Message.Params.{StringMap, map_set}
use adcl.Message.Header.{HeaderFields, command_sta}
use adcl.Message.Status.{code, parse_status_code}
use adcl.Message.Status.Codes.{decimal3, parse_status_code_sound}
use adcl.Message.Content.Sta.{StaContent}
use adcl.Message.Struct.{Message, sta}
use adcl.Parser.Lexer.Tokens.{tokens, tokens-All}
use adcl.Parser.MessageReader.{is_named, new_message_reader}
use adcl.Parser.Parse.{parse_message}
use adcl.Parser.Grammar.{Tokens, header_fields, flags, sta_content, content, fourcc, message}
use adcl.Parser.Grammar.HeaderRule.{parse_message_line}
use adcl.Parser.RoundTrip.{flag_map}
use adcl.Parser.RoundTrip.Sound.{fields_tokens, Carries, fourcc_sound, header_fields_sound}

flags_sound :
    (m r : StringMap) (ts : Tokens)
    → flags m ts ≡ ok r
    → All (λ t. is_named t ≡ true) ts × (r ≡ flag_map m ts)
unfolding flags
flags_sound m r [] e = (tt, cc)
flags_sound m r (t ∷ ts) e = elim (Bool-cases (is_named t)) [
  | inl is ↦
      let (names, same) = flags_sound (map_set m (take 2 t) (drop 2 t)) r ts (rw is at e) in
      ((is, names), same)
  | inr other ↦ cc (rw other at e)
]

-- What a status tells of the parameters of its line: the code is printed in three digits, the
-- description is the decoded second parameter, and the flags are the map of the further ones.
abbrev pub Reports : StaContent → Tokens → Type 0
Reports c ts =
    (text : Bytes) × (fs : Tokens) × (ts ≡ decimal3 (code c.code) ∷ text ∷ fs)
    × (code c.code < 300)
    × (decode_adc_string text ≡ ok c.description)
    × All (λ t. is_named t ≡ true) fs
    × (c.flags ≡ flag_map [] fs)

sta_content-Reports :
    (ts : Tokens) (c : StaContent)
    → All (All (λ b. b < 256)) ts
    → sta_content ts ≡ ok c
    → Reports c ts
unfolding sta_content
sta_content-Reports [] c h e = cc
sta_content-Reports (t ∷ []) c h e =
    let (st, parsed, later) = >>=-eq-ok (parse_status_code t) _ e in cc later
sta_content-Reports (t ∷ u ∷ fs) c (h, hs) e =
    let (st, parsed, later) = >>=-eq-ok (parse_status_code t) _ e in
    let (d, decoded, later') = >>=-eq-ok (decode_adc_string u) _ later in
    let (r, read, same) = >>=-eq-ok (flags [] fs) _ later' in
    let (names, made) = flags_sound [] r fs read in
    let (digits, small) = parse_status_code_sound t st h parsed in
    let is : record { code = st; code_str = []; description = d; description_str = []; flags = r }
        ≡ c =
      cc same in
    subst (λ x. Reports x (t ∷ u ∷ fs)) is
      (u, fs, ap (λ x. x ∷ u ∷ fs) digits, small, decoded, names, made)

-- What a message that is a status tells of the tokens of its line.
abbrev pub TellsStatus : Message → Tokens → Type 0
TellsStatus m ts =
    (c : StaContent) × (ps : Tokens) × (m.content ≡ some (sta c))
    × Carries m.type m.header_fields
    × (ts ≡ (m.type ∷ command_sta) ∷ (fields_tokens m.header_fields ++ ps))
    × Reports c ps

All-behind : (xs ys : Tokens) → All (All (λ b. b < 256)) (xs ++ ys) → All (All (λ b. b < 256)) ys
All-behind [] ys h = h
All-behind (x ∷ xs) ys (h, hs) = All-behind xs ys hs

content-TellsStatus :
    (letter : ℕ) (name : Bytes) (fields : HeaderFields) (ps ts : Tokens) (m : Message)
    → All (All (λ b. b < 256)) ps
    → (content name ps >>= λ c.
        ok (record { type = letter; command = name; header_fields = fields; content = some c }))
      ≡ ok m
    → equal m.command command_sta ≡ true
    → Carries letter fields
    → ts ≡ (letter ∷ name) ∷ (fields_tokens fields ++ ps)
    → TellsStatus m ts
unfolding content
content-TellsStatus letter name fields ps ts m bytes e status carries text =
    let (c, inside, same) = >>=-eq-ok (content name ps) _ e in
    let is : record { type = letter; command = name; header_fields = fields; content = some c }
        ≡ m =
      cc same in
    let sta_name : equal name command_sta ≡ true =
      ap (λ x. equal x.command command_sta) is ∙ status in
    let (st, read, built) = >>=-eq-ok (sta_content ps) (λ x. ok (sta x)) (rw sta_name at inside) in
    let params : sta st ≡ c = cc built in
    subst (λ x. TellsStatus x ts) is
      (
        st,
        ps,
        ap (λ x. some x) (sym params),
        carries,
        text
            ∙ ap (λ x. (letter ∷ x) ∷ (fields_tokens fields ++ ps))
                ((equal_iff name command_sta).0 sta_name),
        sta_content-Reports ps st bytes read,
      )

fields-TellsStatus :
    (letter : ℕ) (name : Bytes) (rest ts : Tokens) (m : Message)
    → All (All (λ b. b < 256)) rest
    → (header_fields letter rest >>= λ p. content name p.1 >>= λ c.
        ok (record { type = letter; command = name; header_fields = p.0; content = some c }))
      ≡ ok m
    → equal m.command command_sta ≡ true
    → ts ≡ (letter ∷ name) ∷ rest
    → TellsStatus m ts
fields-TellsStatus letter name rest ts m bytes e status text =
    let (p, read, later) = >>=-eq-ok (header_fields letter rest) _ e in
    let (carries, split) = header_fields_sound letter rest p read in
    content-TellsStatus letter name (p.0) (p.1) ts m
      (All-behind (fields_tokens p.0) p.1 (subst (All (All (λ b. b < 256))) split bytes)) later
      status carries (text ∙ ap (◌∷◌ (letter ∷ name)) split)

message-TellsStatus :
    (ts : Tokens) (m : Message)
    → All (All (λ b. b < 256)) ts
    → message ts ≡ ok m
    → equal m.command command_sta ≡ true
    → TellsStatus m ts
unfolding message
message-TellsStatus [] m bytes e status = cc
message-TellsStatus (t ∷ rest) m (_, bytes) e status =
    let (head, first, later) = >>=-eq-ok (fourcc t) _ e in
    fields-TellsStatus (head.0) (head.1) rest (t ∷ rest) m bytes later status
      (ap (λ x. x ∷ rest) (fourcc_sound t (head.0) (head.1) first))

-- A line of bytes whose message was parsed, of the command STA, is told by it: the header fields
-- are those of the type, and the tokens of the line are the type with the command, the texts of the
-- header fields, the code in three digits, which is below 300, a text that decodes to the
-- description, and named parameters, of which the flags are the map.
pub parse_message-TellsStatus :
    (s : Bytes) (m : Message)
    → All (λ b. b < 256) s
    → (parse_message (new_message_reader s)).0 ≡ ok m
    → equal m.command command_sta ≡ true
    → TellsStatus m (tokens s)
parse_message-TellsStatus s m bytes e status =
    message-TellsStatus (tokens s) m (tokens-All s bytes) (sym (parse_message_line s) ∙ e) status
