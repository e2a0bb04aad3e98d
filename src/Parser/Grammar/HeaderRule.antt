-- ===== src/Parser/Grammar/HeaderRule.antt =====
-- protocol/parser/parse.go: the header, and with it the whole message.
use adcl.Prelude.{
  ◌≡◌, refl, Bytes, [], ◌∷◌, Result, ok, err, panic, arith, length, ◌>>=◌, ◌==◌, if◌then◌else◌,
  true, false, ◌||◌, Bool, invalid_type, invalid_command_name,
}
use adcl.Encoding.Base32Value.{Base32Value, parse_base32_value, parse_base32_value_total}
use adcl.Message.Header.{
  MessageType, Command, broadcast_header_fields, cih_header_fields, de_header_fields,
  feature_header_fields, udp_header_fields, parse_type, parse_command, known_commands,
}
use adcl.Message.Header.Commands.{is_one_of, parse_command-three}
use adcl.Parser.Lexer
use adcl.Parser.Lexer.Tokens.{tokens}
use adcl.Parser.Positional.{Positional}
use adcl.Parser.Positional
use adcl.Parser.Features.{parse_features}
use adcl.Parser.MessageReader.{
  MessageReader, Read, continue, eof_incomplete, required, lift, read_positional,
  new_message_reader,
}
use adcl.Parser.Parse.{
  parse_broadcast_header_fields, parse_cih_header_fields, parse_de_header_fields,
  parse_feature_header_fields, parse_udp_header_fields, parse_header_fields, parse_fourcc,
  parse_header, parse_content, parse_message,
}
use adcl.Parser.Grammar.{Tokens, take_token, take_base32, header_fields, fourcc, content, message}
use adcl.Parser.Grammar.Meets.{
  At, Meets, Meets-lift, required-Meets, Ends-bind, Ends-lift, Ends-value, continue_assoc,
}
use adcl.Parser.Grammar.ContentRule.{parse_content-content}

module _ {B : Type 0} (k : Base32Value → Read B)
    (g : Base32Value × Tokens → Result (B × Tokens)) where
  decoded :
      (r : Result Base32Value) (m : MessageReader) (ts : Tokens)
      → ((v : Base32Value) → Meets (k v m) (g (v, ts)))
      → Meets (continue (r, m) k) ((r >>= λ v. ok (v, ts)) >>= g)
  decoded (ok v) m ts next = next v
  decoded (err e) m ts next = (m, refl)
  decoded panic m ts next = (m, refl)

  -- A parameter that must be there, decoded as base32.
  take_base32-Meets :
      (m : MessageReader) (ts : Tokens)
      → At m ts
      → ((v : Base32Value) (m' : MessageReader) (ts' : Tokens)
          → At m' ts'
          → Meets (k v m') (g (v, ts')))
      → Meets
          (continue
            (required read_positional m)
            (λ p m'. continue (Positional.value_base32_value p, m') k))
          (take_base32 ts >>= g)
  unfolding Positional.value_base32_value
  take_base32-Meets m [] h next = let (m', e) = required-Meets m [] h in rw e (m', refl)
  take_base32-Meets m (t ∷ ts) h next =
      let (m', e, h') = required-Meets m (t ∷ ts) h in
      rw e (decoded (parse_base32_value t) m' ts (λ v. next v m' ts h'))

eof_incomplete-base32 : (t : Bytes) → eof_incomplete (parse_base32_value t) ≡ parse_base32_value t
eof_incomplete-base32 t = ground (arith, parse_base32_value_total t)

-- The broadcast header alone replaces io.EOF behind the decoder too, which never gives it.
broadcast-Meets :
    (m : MessageReader) (ts : Tokens)
    → At m ts
    → Meets
        (parse_broadcast_header_fields m)
        (take_base32 ts >>= λ p. ok (broadcast_header_fields p.0, p.1))
unfolding parse_broadcast_header_fields Positional.value_base32_value
broadcast-Meets m [] h = let (m', e) = required-Meets m [] h in rw e (m', refl)
broadcast-Meets m (t ∷ ts) h =
    let (m', e, h') = required-Meets m (t ∷ ts) h in
    rw (e, eof_incomplete-base32 t) (decoded _ _ (parse_base32_value t) m' ts (λ v. (m', refl, h')))

de-Meets :
    (m : MessageReader) (ts : Tokens)
    → At m ts
    → Meets
        (parse_de_header_fields m)
        (take_base32 ts >>= λ p. take_base32 p.1 >>= λ q. ok (de_header_fields p.0 q.0, q.1))
unfolding parse_de_header_fields
de-Meets m ts h =
    take_base32-Meets _ _ m ts h
      (λ sid m' ts' h'. take_base32-Meets _ _ m' ts' h' (λ target m2 ts2 h2. (m2, refl, h2)))

features-Meets :
    (sid : Base32Value) (m : MessageReader) (ts : Tokens)
    → At m ts
    → Meets
        (continue (required read_positional m) (λ p m'.
          continue
            (parse_features (Positional.raw_value p), m')
            (λ fs m2. (ok (feature_header_fields sid fs), m2))))
        (take_token ts >>= λ q. parse_features q.0 >>= λ fs. ok (feature_header_fields sid fs, q.1))
unfolding Positional.raw_value
features-Meets sid m [] h = let (m', e) = required-Meets m [] h in rw e (m', refl)
features-Meets sid m (t ∷ ts) h =
    let (m', e, h') = required-Meets m (t ∷ ts) h in
    rw e (Meets-lift (parse_features t) m' ts _ _ (λ fs. (m', refl, h')))

feature-Meets :
    (m : MessageReader) (ts : Tokens)
    → At m ts
    → Meets (parse_feature_header_fields m) (
        take_base32 ts >>= λ p.
        take_token p.1 >>= λ q. parse_features q.0 >>= λ fs. ok (feature_header_fields p.0 fs, q.1))
unfolding parse_feature_header_fields
feature-Meets m ts h = take_base32-Meets _ _ m ts h (λ sid m' ts' h'. features-Meets sid m' ts' h')

udp-Meets :
    (m : MessageReader) (ts : Tokens)
    → At m ts
    → Meets (parse_udp_header_fields m) (take_base32 ts >>= λ p. ok (udp_header_fields p.0, p.1))
unfolding parse_udp_header_fields
udp-Meets m ts h = take_base32-Meets _ _ m ts h (λ cid m' ts' h'. (m', refl, h'))

-- The cases of the switch, grouped by the function that they call.
parse_header_fields_lem :
    (typ : MessageType)
    → parse_header_fields typ ≡ (
        if typ == b'B'
        then parse_broadcast_header_fields
        else if typ == b'C' || typ == b'H' || typ == b'I'
        then parse_cih_header_fields
        else if typ == b'D' || typ == b'E'
        then parse_de_header_fields
        else if typ == b'F'
        then parse_feature_header_fields
        else if typ == b'U'
        then parse_udp_header_fields
        else lift (err invalid_type))
unfolding parse_header_fields
parse_header_fields_lem typ = ground arith

Meets-if :
    {A : Type 0} (b : Bool) (f g : Read A) (m : MessageReader) (y z : Result (A × Tokens))
    → Meets (f m) y
    → Meets (g m) z
    → Meets ((if b then f else g) m) (if b then y else z)
Meets-if true f g m y z h k = h
Meets-if false f g m y z h k = k

parse_header_fields-Meets :
    (typ : MessageType) (m : MessageReader) (ts : Tokens)
    → At m ts
    → Meets (parse_header_fields typ m) (header_fields typ ts)
unfolding header_fields
parse_header_fields-Meets typ m ts h = rw (parse_header_fields_lem typ) (
    Meets-if (typ == b'B') _ _ m _ _ (broadcast-Meets m ts h) (
      Meets-if (typ == b'C' || typ == b'H' || typ == b'I') parse_cih_header_fields _ m
        (ok (cih_header_fields, ts)) _ (unfold parse_cih_header_fields in (m, refl, h))
        (Meets-if (typ == b'D' || typ == b'E') _ _ m _ _ (de-Meets m ts h) (
          Meets-if (typ == b'F') _ _ m _ _ (feature-Meets m ts h) (
            Meets-if (typ == b'U') parse_udp_header_fields (lift (err invalid_type)) m _
              (err invalid_type) (udp-Meets m ts h) (m, refl))))))

fourcc_command :
    (typ : MessageType) (name : Bytes) (m : MessageReader)
    → length name ≡ 3
    → continue {B = MessageType × Command} (parse_command name, m) (λ c m'. (ok (typ, c.0), m'))
      ≡ ((if is_one_of name known_commands then ok (typ, name) else err invalid_command_name), m)
fourcc_command typ name m h =
    rw (parse_command-three name h) (split (is_one_of name known_commands))
  where
    split :
        (b : Bool)
        → continue {B = MessageType × Command}
            ((if b then ok (name, true) else err invalid_command_name), m)
            (λ (c : Command × Bool) m'. (ok (typ, c.0), m'))
          ≡ ((if b then ok (typ, name) else err invalid_command_name), m)
    split true = refl
    split false = refl

lift_bind :
    {A B : Type 0} (r : Result A) (m : MessageReader) (k : A → Read B) (g : A → Result B)
    → ((a : A) → k a m ≡ (g a, m))
    → continue (r, m) k ≡ (r >>= g, m)
lift_bind (ok a) m k g h = h a
lift_bind (err e) m k g h = refl
lift_bind panic m k g h = refl

parse_fourcc_lem : (t : Bytes) (m : MessageReader) → parse_fourcc t m ≡ (fourcc t, m)
unfolding parse_fourcc fourcc
parse_fourcc_lem (a ∷ b ∷ c ∷ d ∷ []) m =
    lift_bind (parse_type a) m _ _ (λ typ. fourcc_command typ (b ∷ c ∷ d ∷ []) m refl)
parse_fourcc_lem (a ∷ b ∷ c ∷ d ∷ e ∷ t) m = ground arith
parse_fourcc_lem _ m = refl

-- Parsing a line is what the line means: the reader, its offsets and the bounds on the loops do
-- not show in the result.
pub parse_message-message :
    (m : MessageReader) (ts : Tokens) → At m ts → (parse_message m).0 ≡ message ts
unfolding parse_message parse_header message Positional.raw_value
parse_message-message m [] h = let (m', e) = required-Meets m [] h in rw e refl
parse_message-message m (t ∷ ts) h =
    let (m', e, h') = required-Meets m (t ∷ ts) h in
    rw (e, parse_fourcc_lem t m', continue_assoc (fourcc t, m'))
      (Ends-lift (fourcc t) m' _ _ (λ head. rw (continue_assoc (parse_header_fields head.0 m')) (
        Ends-bind (parse_header_fields head.0 m') (header_fields head.0 ts) _ _
          (parse_header_fields-Meets head.0 m' ts h')
          (λ fields m2 ts2 h2.
            Ends-value (parse_content head.1 m2) (content head.1 ts2) _
              (parse_content-content head.1 m2 ts2 h2)))))

-- For a line that was just put into a reader, the result is the meaning of its tokens.
pub parse_message_line : (s : Bytes) → (parse_message (new_message_reader s)).0 ≡ message (tokens s)
unfolding new_message_reader Lexer.reset
parse_message_line s = parse_message-message (new_message_reader s) (tokens s) (omega arith, refl)
