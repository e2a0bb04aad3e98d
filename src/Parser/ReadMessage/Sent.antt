-- ===== src/Parser/ReadMessage/Sent.antt =====
-- protocol/parser: the messages that a peer writes, line after line, and that ReadMessage reads.
use mathlib.Core.List.{map}
use adcl.Prelude.{
  ℕ, suc, ◌≡◌, ◌≢◌, refl, ap, ◌∙◌, sym, Bool, true, false, ◌&&◌, Bytes, List, [], ◌∷◌, ◌++◌, length,
  All, All-append, arith, equal, ok, Error,
}
use adcl.Stdlib.Strings.{Lacks}
use adcl.Encoding.{is_upper_alpha, is_upper_alpha_num}
use adcl.Message.Header.{HeaderFields, known_commands, parse_type}
use adcl.Message.Header.Commands.{is_one_of}
use adcl.Parser.ConnReader.{eol, validate_message}
use adcl.Parser.ConnReader.Lines.{start_check}
use adcl.Parser.Grammar.{Tokens, message}
use adcl.Parser.Grammar.HeaderRule.{parse_message_line}
use adcl.Parser.Lexer.{space}
use adcl.Parser.Lexer.Tokens.{tokens}
use adcl.Parser.MessageReader.{new_message_reader}
use adcl.Parser.Parse.{parse_message}
use adcl.Encoding.AdcString.RoundTrip.{encoder_replace-IsToken}
use adcl.Parser.RoundTrip.Status.{parse_message-status_tokens}
use adcl.Parser.ReadMessage.Draft.{
  Body, other, status, Draft, name_of, params_of, line, message_of, received, IsBody, IsSendable,
}
use adcl.Parser.ReadMessage.Stream.{
  IsReadable, lines_text, parser_of, read_messages, read_messages-lines_text,
}
use adcl.Parser.RoundTrip.{line_of}
use adcl.Parser.RoundTrip.Sound.{fields_tokens, Carries}
use adcl.Parser.RoundTrip.Printed.{ArePrinted, fields_tokens-Lacks}
use adcl.Parser.RoundTrip.Written.{
  message_tokens, parse_message-line_of, every, every-is_one_of, parse_type-Carries,
}

name_of-known : (b : Body) → IsBody b → is_one_of (name_of b) known_commands ≡ true
unfolding equal
name_of-known (other name ps) (known, not_sta, toks, clear) = known
name_of-known (status st description fs) h = refl

params_of-Lacks : (b : Body) → IsBody b → All (Lacks eol) (params_of b)
params_of-Lacks (other name ps) (known, not_sta, toks, clear) = clear
params_of-Lacks (status st description fs) (small, valid, ne, toks, nameds, clear) =
    (omega arith, ((encoder_replace-IsToken description).1, clear))

parse_message-received :
    (letter : ℕ) (fields : HeaderFields) (b : Body)
    → Carries letter fields
    → ArePrinted fields
    → IsBody b
    → (parse_message
        (new_message_reader (line_of (message_tokens letter (name_of b) fields (params_of b))))).0
      ≡ ok (message_of letter fields b)
parse_message-received letter fields (other name ps) carries printed (known, not_sta, toks, clear) =
    parse_message-line_of letter name fields ps carries printed known not_sta toks
parse_message-received letter fields (status st description fs) carries printed
      (small, valid, ne, toks, nameds, clear) =
    parse_message-status_tokens letter st description fields fs carries printed small valid ne toks
      nameds

line_of-Lacks : (ts : Tokens) → All (Lacks eol) ts → Lacks eol (line_of ts)
line_of-Lacks [] h = tt
line_of-Lacks (t ∷ []) (h, _) = h
line_of-Lacks (t ∷ u ∷ ts) (h, hs) =
    All-append (λ c. c ≢ eol) t (space ∷ line_of (u ∷ ts)) h
      ((omega arith), line_of-Lacks (u ∷ ts) hs)

-- The name of a command: a capital, and two that are capitals or digits.
abbrev command_name : Bytes → Bool
command_name (b ∷ c ∷ d ∷ []) = is_upper_alpha b && is_upper_alpha_num c && is_upper_alpha_num d
command_name _ = false

known-command_name : every command_name known_commands ≡ true
unfolding is_upper_alpha is_upper_alpha_num
known-command_name = refl

command_name-Lacks : (name : Bytes) → command_name name ≡ true → Lacks eol name
unfolding is_upper_alpha is_upper_alpha_num
command_name-Lacks (b ∷ c ∷ d ∷ []) h =
    (ground (arith, h), (ground (arith, h), (ground (arith, h), tt)))
command_name-Lacks _ h = cc

start_check_lem :
    (letter : ℕ) (name : Bytes) (t : Bytes) (ts : Tokens)
    → parse_type letter ≡ ok letter
    → command_name name ≡ true
    → start_check (line_of ((letter ∷ name) ∷ t ∷ ts) ++ (eol ∷ [])) ≡ ok tt
unfolding validate_message
start_check_lem letter (b ∷ c ∷ d ∷ []) t ts typ h = rw (typ, h) (ground arith)
start_check_lem letter _ t ts typ h = cc

line-start_check :
    (letter : ℕ) (name : Bytes) (ts : Tokens)
    → ts ≢ []
    → parse_type letter ≡ ok letter
    → command_name name ≡ true
    → start_check (line_of ((letter ∷ name) ∷ ts) ++ (eol ∷ [])) ≡ ok tt
line-start_check letter name [] ne typ h = absurd (ne refl)
line-start_check letter name (t ∷ ts) ne typ h = start_check_lem letter name t ts typ h

line-IsReadable : (size : ℕ) (d : Draft) → IsSendable size d → IsReadable size (line d)
line-IsReadable size d (carries, printed, proper, ne, room, short) =
    let (typ, apart) = parse_type-Carries eol d.letter d.fields (omega arith) carries in
    let named =
      every-is_one_of command_name (name_of d.body) known_commands known-command_name
        (name_of-known d.body proper) in
    (
      line_of-Lacks (message_tokens d.letter (name_of d.body) d.fields (params_of d.body)) (
        (apart, command_name-Lacks (name_of d.body) named),
        All-append (Lacks eol) (fields_tokens d.fields) (params_of d.body)
            (fields_tokens-Lacks eol d.letter d.fields (omega arith) carries printed)
            (params_of-Lacks d.body proper),
      ),
      room,
      short,
      line-start_check d.letter (name_of d.body) (fields_tokens d.fields ++ params_of d.body) ne typ
          named,
    )

line-received : (size : ℕ) (d : Draft) → IsSendable size d → message (tokens (line d)) ≡ received d
line-received size d (carries, printed, proper, ne, room, short) =
    sym (parse_message_line (line d))
    ∙ parse_message-received d.letter d.fields d.body carries printed proper

map-received :
    (size : ℕ) (ds : List Draft)
    → All (IsSendable size) ds
    → All (IsReadable size) (map line ds)
      × (map (λ w. message (tokens w)) (map line ds) ≡ map received ds)
map-received size [] h = (tt, refl)
map-received size (d ∷ ds) (h, hs) =
    let (readable, same) = map-received size ds hs in
    (
      (line-IsReadable size d h, readable),
      ap (λ m. m ∷ map (λ w. message (tokens w)) (map line ds)) (line-received size d h)
          ∙ ap (◌∷◌ (received d)) same,
    )

length-map : (ds : List Draft) → length (map line ds) ≡ length ds
length-map [] = refl
length-map (d ∷ ds) = ap suc (length-map ds)

-- Messages of any types and commands, written one after another, each with a token behind its
-- command and in a line that the buffer and the limit can hold, are read by as many calls of
-- ReadMessage, in their order, and what follows them is left. Their header fields are those of the
-- type and can be written, and their parameters are tokens without a line end, those of a status
-- being a code, a description that is UTF-8 and not empty, and named parameters.
pub read_messages-received :
    (size : ℕ) (stop : Error) (line_buf : Bytes) (ds : List Draft) (rest : Bytes)
    → All (IsSendable size) ds
    → read_messages (length ds) (parser_of size stop line_buf (lines_text (map line ds) ++ rest))
      ≡ (map received ds, parser_of size stop line_buf rest)
read_messages-received size stop line_buf ds rest h =
    let (readable, same) = map-received size ds h in
    ap (λ n. read_messages n (parser_of size stop line_buf (lines_text (map line ds) ++ rest)))
      (sym (length-map ds))
    ∙ read_messages-lines_text size stop line_buf (map line ds) rest readable
    ∙ ap (λ ms. (ms, parser_of size stop line_buf rest)) same
