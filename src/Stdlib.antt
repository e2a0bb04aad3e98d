-- ===== src/Stdlib.antt =====
-- What the code uses of Go's standard library, as its documentation describes it: packages
-- strings, unicode/utf8, encoding/base32, bufio and strconv.
pub mod Strings
pub mod Utf8
pub mod Base32
pub mod Bufio
pub mod Strconv
pub mod Floats
