-- ===== src/Parser.antt =====
-- protocol/parser/parser.go
pub mod Lexer
pub mod Positional
pub mod Named
pub mod Numbers
pub mod MessageReader
pub mod Sta
pub mod Features
pub mod ConnReader
pub mod Parse
pub mod Grammar
pub mod Total
pub mod ReadMessage
pub mod RoundTrip
