-- ===== src/Parser/Grammar/Methods.antt =====
-- protocol/parser/parse.go, parse_sta.go: the methods of a message that was parsed.
use adcl.Prelude.{
  ℕ, ◌≡◌, refl, ap, ◌∙◌, sym, false, Bytes, List, [], ◌∷◌, some, ok, >>=-eq-ok, equal, equal_iff,
  length, take, drop, Bool-cases, inl, inr, arith,
}
use mathlib.Core.Path.{subst}
use adcl.Encoding.AdcString.{decode_adc_string}
use adcl.Message.Status.{parse_status_code}
use adcl.Message.Params.{StringMap, map_get, map_set, index_slice}
use adcl.Message.Params.Maps.{map_get-map_set}
use adcl.Message.Header.{Command, command_sta}
use adcl.Message.Content.Sta
use adcl.Message.Content.Sta.{StaContent}
use adcl.Message.Content.Generic
use adcl.Message.Content.Tables.Lookup.{IsMap}
use adcl.Message.Struct.{
  Content, sta, generic, accessor, Message, positional, pos_len, pos_at, named, named_get,
}
use adcl.Message.Accessors.{accessor-IsConsistent}
use adcl.Parser.MessageReader.{new_message_reader, is_named}
use adcl.Parser.Lexer.Tokens.{tokens}
use adcl.Parser.Parse.{parse_message}
use adcl.Parser.Grammar.{fourcc, header_fields, Tokens, flags, sta_content, content, message}
use adcl.Parser.Grammar.HeaderRule.{parse_message_line}

equal-turned : (s t : Bytes) → equal s t ≡ false → equal t s ≡ false
equal-turned s t h = ground (arith, h, equal_iff s t, equal_iff t s)

map_set-IsMap : (m : StringMap) (key val : Bytes) → IsMap m → IsMap (map_set m key val)
unfolding map_set map_get
map_set-IsMap [] key val h = (refl, tt)
map_set-IsMap ((k, v) ∷ m) key val (new, h) = elim (Bool-cases (equal k key)) [
  | inl same ↦ rw same (rw (sym ((equal_iff k key).0 same)) new, h)
  | inr other ↦
      rw other
        (rw (map_get-map_set m key val k, equal-turned k key other) new, map_set-IsMap m key val h)
]

flags-IsMap : (m r : StringMap) (ts : Tokens) → IsMap m → flags m ts ≡ ok r → IsMap r
unfolding flags
flags-IsMap m r [] h e = let is : m ≡ r = cc e in subst IsMap is h
flags-IsMap m r (t ∷ ts) h e = elim (Bool-cases (is_named t)) [
  | inl is ↦
      flags-IsMap (map_set m (take 2 t) (drop 2 t)) r ts (map_set-IsMap m (take 2 t) (drop 2 t) h)
        (rw is at e)
  | inr other ↦ cc (rw other at e)
]

sta_content-IsMap : (ts : Tokens) (c : StaContent) → sta_content ts ≡ ok c → IsMap c.flags
unfolding sta_content
sta_content-IsMap [] c e = cc
sta_content-IsMap (t ∷ []) c e =
    let (st, parsed, later) = >>=-eq-ok (parse_status_code t) _ e in cc later
sta_content-IsMap (t ∷ u ∷ fs) c e =
    let (st, parsed, later) = >>=-eq-ok (parse_status_code t) _ e in
    let (d, decoded, later') = >>=-eq-ok (decode_adc_string u) _ later in
    let (r, read, same) = >>=-eq-ok (flags [] fs) _ later' in
    let is : record { code = st; code_str = []; description = d; description_str = []; flags = r }
        ≡ c =
      cc same in
    subst (λ x. IsMap x.flags) is (flags-IsMap [] r fs tt read)

-- The kinds of content that the parser makes, with flags that are a map.
abbrev IsParsed : Content → Type 0
IsParsed (sta c) = IsMap c.flags
IsParsed (generic c) = c.named_params ≡ []
IsParsed _ = ⊥

content-IsParsed :
    (name : Command) (ts : Tokens) (c : Content) → content name ts ≡ ok c → IsParsed c
unfolding content
content-IsParsed name ts c e = elim (Bool-cases (equal name command_sta)) [
  | inl status ↦
      let (st, read, built) = >>=-eq-ok (sta_content ts) (λ x. ok (sta x)) (rw status at e) in
      let is : sta st ≡ c = cc built in subst IsParsed is (sta_content-IsMap ts st read)
  | inr other ↦
      let is : generic (record { positional_params = ts; named_params = [] }) ≡ c =
        cc (rw other at e) in
      subst IsParsed is refl
]

-- The methods of a message agree with each other: PosLen and PosAt are the
-- length and the elements of what Positional gives, Named gives a map, and NamedGet its entries.
abbrev pub AreAgreeing : Message → Type 0
AreAgreeing m =
    (xs : List Bytes) × (f : StringMap) × (positional m ≡ ok xs)
    × (pos_len m ≡ ok (length xs))
    × ((i : ℕ) → pos_at m i ≡ index_slice xs i)
    × (named m ≡ ok f)
    × IsMap f
    × ((key : Bytes) → named_get m key ≡ ok (map_get f key))

AreAgreeing-IsParsed : (m : Message) (c : Content) → m.content ≡ some c → IsParsed c → AreAgreeing m
unfolding positional pos_len pos_at named named_get accessor Sta.accessor Generic.accessor
AreAgreeing-IsParsed m (sta c) e h =
    let (counts, at) = accessor-IsConsistent (sta c) in
    (
      (Sta.accessor c).positional,
      c.flags,
      rw e refl,
      rw e refl,
      λ i. rw e (at i),
      rw e refl,
      h,
      λ key. rw e refl,
    )
AreAgreeing-IsParsed m (generic c) e h =
    let (counts, at) = accessor-IsConsistent (generic c) in
    (
      c.positional_params,
      c.named_params,
      rw e refl,
      rw e refl,
      λ i. rw e (at i),
      rw e refl,
      rw h tt,
      λ key. rw e refl,
    )
AreAgreeing-IsParsed m _ e h = absurd h

message-AreAgreeing : (ts : Tokens) (m : Message) → message ts ≡ ok m → AreAgreeing m
unfolding message
message-AreAgreeing [] m e = cc
message-AreAgreeing (t ∷ rest) m e =
    let (head, first, later) = >>=-eq-ok (fourcc t) _ e in
    let (p, read, later') = >>=-eq-ok (header_fields (head.0) rest) _ later in
    let (c, inside, same) = >>=-eq-ok (content (head.1) (p.1)) _ later' in
    let is : record { type = head.0; command = head.1; header_fields = p.0; content = some c } ≡ m =
      cc same in
    AreAgreeing-IsParsed m c (ap (λ x. x.content) (sym is))
      (content-IsParsed (head.1) (p.1) c inside)

-- The methods of a message that ParseMessage returned, whatever the line, agree with each other:
-- Positional, PosLen, Named and NamedGet do not panic, PosLen is the length of what Positional
-- gives, PosAt its element, with a panic out of range, Named gives a map with no key twice, and
-- NamedGet of every key the entry of that map.
pub parse_message-AreAgreeing :
    (s : Bytes) (m : Message) → (parse_message (new_message_reader s)).0 ≡ ok m → AreAgreeing m
parse_message-AreAgreeing s m e = message-AreAgreeing (tokens s) m (sym (parse_message_line s) ∙ e)
