-- ===== src/Message/Header.antt =====
-- protocol/message/header.go: the type letter, the command and the header fields of a message.
pub mod Commands
pub mod AllCommands
use adcl.Prelude.{
  ℕ, Bool, true, false, not, ◌&&◌, Bytes, List, [], ◌∷◌, Option, none, some, Result, ok, err, panic,
  ◌>>=◌, invalid_type, invalid_command_name, codes, ◌==◌, equal, if◌then◌else◌, length, get_elem?,
}
use adcl.Encoding.{is_upper_alpha, is_upper_alpha_num}
use adcl.Encoding.Base32Value.{Base32Value}
use adcl.Message.Feature.{FeatureOp}

-- `Type` is a byte.
abbrev pub MessageType : Type 0
MessageType = ℕ

abbrev pub type_broadcast : MessageType
type_broadcast = b'B'

abbrev pub type_clientmessage : MessageType
type_clientmessage = b'C'

abbrev pub type_directmessage : MessageType
type_directmessage = b'D'

abbrev pub type_echomessage : MessageType
type_echomessage = b'E'

abbrev pub type_featurebroadcast : MessageType
type_featurebroadcast = b'F'

abbrev pub type_hubmessage : MessageType
type_hubmessage = b'H'

abbrev pub type_infomessage : MessageType
type_infomessage = b'I'

abbrev pub type_udpmessage : MessageType
type_udpmessage = b'U'

unfoldable pub parse_type : ℕ → Result MessageType
parse_type b =
    if b == type_broadcast
    then ok type_broadcast
    else if b == type_clientmessage
    then ok type_clientmessage
    else if b == type_directmessage
    then ok type_directmessage
    else if b == type_echomessage
    then ok type_echomessage
    else if b == type_featurebroadcast
    then ok type_featurebroadcast
    else if b == type_hubmessage
    then ok type_hubmessage
    else if b == type_infomessage
    then ok type_infomessage
    else if b == type_udpmessage
    then ok type_udpmessage
    else err invalid_type

-- `Command` is a string.
abbrev pub Command : Type 0
Command = Bytes

abbrev pub command_sta : Command
command_sta = codes "STA"

abbrev pub command_sup : Command
command_sup = codes "SUP"

abbrev pub command_sid : Command
command_sid = codes "SID"

abbrev pub command_inf : Command
command_inf = codes "INF"

abbrev pub command_msg : Command
command_msg = codes "MSG"

abbrev pub command_sch : Command
command_sch = codes "SCH"

abbrev pub command_res : Command
command_res = codes "RES"

abbrev pub command_ctm : Command
command_ctm = codes "CTM"

abbrev pub command_rcm : Command
command_rcm = codes "RCM"

abbrev pub command_gpa : Command
command_gpa = codes "GPA"

abbrev pub command_pas : Command
command_pas = codes "PAS"

abbrev pub command_qui : Command
command_qui = codes "QUI"

abbrev pub command_get : Command
command_get = codes "GET"

abbrev pub command_gfi : Command
command_gfi = codes "GFI"

abbrev pub command_snd : Command
command_snd = codes "SND"

-- The constants of the package, in their order.
abbrev pub known_commands : List Command
known_commands =
    command_sta ∷ command_sup ∷ command_sid ∷ command_inf ∷ command_msg ∷ command_sch ∷ command_res
    ∷ command_ctm ∷ command_rcm ∷ command_gpa ∷ command_pas ∷ command_qui ∷ command_get
    ∷ command_gfi ∷ command_snd ∷ []

-- `switch Command(s)`: the first constant that is the string.
unfoldable pub known_command : Bytes → List Command → Option Command
known_command s [] = none
known_command s (c ∷ cs) = let later = known_command s cs in if equal s c then some c else later

-- `s[i]` panics behind the end.
abbrev pub index : Bytes → ℕ → Result ℕ
index s i = elim (get_elem? s i) [ some b ↦ ok b | none ↦ panic ]

-- `&&` does not evaluate what stands behind a false test.
abbrev and_then : Bool → Result Bool → Result Bool
and_then a rest = if a then rest else ok false

-- The condition under the `!` of the default branch, as it is written: it asks for a length other
-- than three.
unfoldable pub command_syntax : Bytes → Result Bool
command_syntax s = and_then (not (length s == 3)) (do
  b1 ← index s 1
  and_then (is_upper_alpha b1) (do
    b2 ← index s 2
    and_then (is_upper_alpha_num b2) (do b3 ← index s 3; ok (is_upper_alpha_num b3))))

unknown_command : Bytes → Bool → Result (Command × Bool)
unknown_command s true = ok (s, false)
unknown_command s false = err invalid_command_name

-- The second part of the value tells whether the command is known.
unfoldable pub parse_command : Bytes → Result (Command × Bool)
unfolding unknown_command
parse_command s = elim (known_command s known_commands) [
  | some c ↦ ok (c, true)
  | none ↦ command_syntax s >>= unknown_command s
]

-- The values behind the interface `HeaderFields`, one constructor for each struct that the parser
-- makes.
pub data HeaderFields : Type 0 where
  broadcast_header_fields : Base32Value → HeaderFields
  cih_header_fields : HeaderFields
  de_header_fields : Base32Value → Base32Value → HeaderFields
  feature_header_fields : Base32Value → List FeatureOp → HeaderFields
  udp_header_fields : Base32Value → HeaderFields
