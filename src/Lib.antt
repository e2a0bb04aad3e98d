-- ===== src/Lib.antt =====
-- protocol/ is a library for ADC, a line-based protocol between file sharing clients and hubs. A
-- message is one line: a type letter and a three-byte command, then parameters separated by spaces.
--
-- How the parts interact: protocol/parser reads a line from a bufio.Reader (conn_reader.go), cuts it
-- into tokens (lexer.go), reads tokens as positional or named parameters (message_reader.go), and
-- puts a message together (parse.go, parse_sta.go); parser.go ties these together. The messages are
-- those of protocol/message, the encodings of values those of protocol/encoding. Apart from these,
-- protocol/generator writes the Go code of a content struct and its methods from a description of
-- the parameters of a message.
--
-- Prelude: shared names, Boolean tests, lists measured by native numbers (Prelude/Lists), and what a
--   Go call gives back (Prelude/Results): a value, a non-nil error, or a panic.
-- Stdlib: what the code uses of the standard library of Go. Strings (searches for a byte), Utf8
--   (ValidString as a machine over bytes), Base32 (the standard alphabet without padding), Strconv
--   (decimal parsers and a printer; Strconv/Decimal has their place values), Floats (floating point
--   numbers and ParseFloat, a parameter), Bufio (ReadSlice over a stream whose bytes are known, which
--   reports the error of its source when those are read).
-- Encoding: the byte classes of encoding.go; Encoding/AdcString: EncodeToADCString, DecodeADCString
--   and their replacers, and Escapes for the texts that are encodings; Encoding/Base32Value: base32.go,
--   where String gives the value back with its cache written.
-- Message/Header, Message/Status, Message/Feature, Message/Search: header.go, status.go, feature.go
--   and search.go, with ParseType, ParseCommand, ParseStatusCode and SearchTermIterator.Next.
-- Message/Params and Message/Struct: message.go, with the interface ParamAccessor as the record of
--   its five methods. A nil interface value is `none`, and a call on it panics. Params/GoMaps has the
--   maps without the order of their entries, as a quotient.
-- Message/Content: GenericContent and the structs of content_*.go, one module for each. Tables has
--   what their Named and NamedGet share; the table of a module lists the fields that its code
--   names, in their order. A pointer is an Option, an int an integer of any size, an IP its bytes.
-- Message/Accessors, Message/NamedGets: the methods of the contents, compared with each other, in
--   NamedGets/Answers for every content, and in Accessors/RangeOrder over the orders of the flags.
-- Message/Maybe: maybe/generic/maybe.go; Maybe/Generated has the types that genny makes of it,
--   gen-builtins.go, gen-base32value.go and gen-ip.go of maybe, each as the template at its values.
-- Parser/Lexer: lexer.go, with the line and the offset as the state. Parser/MessageReader,
--   Parser/Positional, Parser/Named: message_reader.go, as a monad over the state of the reader.
-- Parser/Parse, Parser/Features, Parser/Sta: parse.go and parse_sta.go, function by function.
-- Parser/Grammar: the description of a line on its tokens, against which the parser is checked;
--   Grammar/Methods is about the methods of a message that was parsed.
-- Parser/RoundTrip: the lines of messages. Printed and Written go from a message to its line and back,
--   Sound from a parsed message to its line; Status and Reported do so for the command STA.
-- Parser/ConnReader: conn_reader.go, with what is left of the stream as a part of the state; NextLine
--   describes ReadMessageLine by the text of the stream and the size of the buffer, without its loops.
-- Parser/ReadMessage: parser.go; Stream, Safe and Exact are about call after call, Draft and Sent about
--   the messages that a peer writes.
-- Generator/MessageModel, Generator/MapperModel, Generator/Mappers, Generator/Types: the files of
--   protocol/generator with these names. A nil function is `none`; a context has the names of its
--   mapper and its type, of which nothing else is read.
-- Generator/Jen: package jen of github.com/dave/jennifer, which writes Go code, as a record of the
--   methods that the generator calls; every definition of the generator takes it as an argument. A
--   Statement is a list of codes, a Group the list of its statements, and a method with a callback
--   takes what the callback adds.
-- Generator/StructGenerator: struct_generator.go; Positionals, Params and File have its generating
--   methods, Prepared, Static, Methods, Total, Lengths, Meaning and Texts their theorems. Lengths
--   states with the laws Sums what a sum means in Go, Meaning what the codes of Named and NamedGet
--   mean (Meaning/Bodies has the two bodies), and Texts what those of Positional do; Texts/Count adds
--   PosLen to it, Texts/Index PosAt, and Texts/Message has them for a prepared message.
-- Generator/Debug: generator/debug, with the content that was generated from one of its messages in
--   Debug/Content, and Message/Content/Tables/Careful for its methods.
-- Tests: the theorems at concrete inputs.
--
-- Bounds: bytes are natural numbers below 256 where a theorem needs it, and texts are lists of bytes.
-- The loops over the tokens of a line are given as many rounds as the line has bytes, and one more; a
-- line has at most as many tokens as bytes. The loops of the connection reader are given one round
-- more than the stream has bytes; each round but the last takes a byte at least. The theorems on
-- ReadMessageLine ask for a buffer of five bytes; a bufio.Reader has one of sixteen at least. The error
-- fuel_exhausted stands for a loop that ran out of rounds.
--
-- Not modelled: the arithmetic of floating point numbers, which the code only passes on; the
-- capacity of slices, so that the field lineBuf shows nothing; the width of the numbers that a
-- generated type of protocol/maybe only passes on; the rendering of Go code by jen, and an error of
-- it, which Generate drops; the texts around an error and in a panic; letters beyond ASCII in the
-- names of the generator; the empty struct BuilderSpec. A value that Go returns beside a non-nil
-- error is dropped, but that of ParseFloat, and the order in which Go ranges over a map is that of
-- the list of its entries, which Message/Accessors/RangeOrder lets vary.

pub mod Prelude
pub mod Stdlib
pub mod Encoding
pub mod Message
pub mod Parser
pub mod Generator
pub mod Tests
