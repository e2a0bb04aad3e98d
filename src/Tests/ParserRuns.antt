-- ===== src/Tests/ParserRuns.antt =====
-- protocol/parser at concrete inputs: the lexer and ParseMessage.
use adcl.Prelude.{◌↔◌, equal, ◌≡◌, refl, codes, Bytes, List, [], ◌∷◌, ok, arith}
use adcl.Stdlib.Strings.{Lacks}
use adcl.Message.Feature.{FeatureOp, add, remove}
use adcl.Parser.Lexer.{Lexer, next, put}
use adcl.Parser.Lexer.Tokens.{tokens, NextMeets, unread, next-tokens}
use adcl.Parser.Lexer.PutAll.{put_lem}
use adcl.Parser.Lexer.PutBack.{put-next}
use adcl.Parser.MessageReader.{new_message_reader}
use adcl.Parser.Features.{parse_features}
use adcl.Parser.Features.Encoded.{features_text, AreFeatures, parse_features_iff}
use adcl.Parser.Parse.{parse_message}
use adcl.Parser.Grammar.{message}
use adcl.Parser.Grammar.HeaderRule.{parse_message_line}
use adcl.Parser.Total.{IsReturned, parse_message-IsReturned}
use adcl.Stdlib.Strconv.Decimal.{accepted, place_integer}
use adcl.Parser.Positional
use adcl.Parser.Named
use adcl.Parser.Numbers.{uint64_of, values-place_value}

abbrev line : Bytes
line = codes "FSTA AAAX +TCP4-NAT0 142 Not\\sfound FCDSCH"

parse_message_line_example : (parse_message (new_message_reader line)).0 ≡ message (tokens line)
parse_message_line_example = parse_message_line line

parse_message-IsReturned_example : IsReturned (parse_message (new_message_reader line)).0
parse_message-IsReturned_example = parse_message-IsReturned line

-- Some way into the line, and behind the token there.
abbrev lexer : Lexer
lexer = record { s = codes "AB  CD E"; offset = 2 }

abbrev lexer_behind : Lexer
lexer_behind = record { s = codes "AB  CD E"; offset = 7 }

reads_second : next lexer ≡ (ok (codes "CD"), lexer_behind)
unfolding next adcl.Stdlib.Strings.index_byte
reads_second = refl

next-tokens_example : NextMeets lexer (tokens (unread lexer))
next-tokens_example = next-tokens lexer (omega arith)

put-next_example :
    (l : Lexer) × (put lexer_behind (codes "CD") ≡ (ok tt, l))
    × (next l ≡ (ok (codes "CD"), lexer_behind))
put-next_example = put-next lexer (codes "CD") lexer_behind (omega arith) reads_second

-- The end of a token is put back as well as the token.
put_lem_example :
    put lexer_behind (codes "D") ≡ (ok tt, record { s = codes "AB  CD E"; offset = 5 })
unfolding equal
put_lem_example = put_lem lexer_behind (codes "D") (omega arith)

abbrev ops : List FeatureOp
ops =
    record { op_action = add; feature = codes "TCP4" }
    ∷ record { op_action = remove; feature = codes "NAT0" }
    ∷ []

parse_features_iff_example :
    (parse_features (codes "+TCP4-NAT0") ≡ ok ops)
    ↔ ((codes "+TCP4-NAT0" ≡ features_text ops) × AreFeatures ops)
parse_features_iff_example = parse_features_iff (codes "+TCP4-NAT0") ops

values-place_value_example :
    (accepted (Positional.value_uint64 (record { raw = codes "-42" })) ≡ uint64_of (codes "-42"))
    × (accepted (Positional.value_int64 (record { raw = codes "-42" }))
        ≡ place_integer (codes "-42"))
    × (accepted (Named.value_uint64 (record { raw = codes "SI-42" })) ≡ uint64_of (codes "-42"))
    × (accepted (Named.value_int64 (record { raw = codes "SI-42" })) ≡ place_integer (codes "-42"))
values-place_value_example = values-place_value b'S' b'I' (codes "-42")
