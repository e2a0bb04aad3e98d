-- ===== src/Message/Status.antt =====
-- protocol/message/status.go
pub mod Codes
use adcl.Prelude.{
  ℕ, ◌+◌, ◌-◌, ◌*◌, ◌%◌, ◌>>=◌, Bytes, [], ◌∷◌, Result, ok, err, panic, invalid_status_code,
  invalid_severity_code, invalid_error_code, invalid_digit, true, false, ◌==◌, ltb, if◌then◌else◌,
  length,
}

-- The constants of `Severity`.
pub data Severity : Type 0 where
  success recoverable fatal : Severity

abbrev pub severity_value : Severity → ℕ
severity_value success = 0
severity_value recoverable = 1
severity_value fatal = 2

pub record StatusCode : Type 0 where
  pub severity : Severity
  pub error : ℕ

unfoldable pub code : StatusCode → ℕ
code s = severity_value s.severity * 100 + s.error

-- `b - byte0` is computed in a byte, and wraps around.
unfoldable pub int_from_digit : ℕ → Result ℕ
int_from_digit b = let i = (b + 256 - b'0') % 256 in if ltb 9 i then err invalid_digit else ok i

severity_from : ℕ → Result Severity
severity_from b =
    if b == b'0'
    then ok success
    else if b == b'1'
    then ok recoverable
    else if b == b'2'
    then ok fatal
    else err invalid_severity_code

-- Any error of `intFromDigit` becomes ErrInvalidErrorCode.
or_invalid_error_code : Result ℕ → Result ℕ
or_invalid_error_code (ok i) = ok i
or_invalid_error_code (err _) = err invalid_error_code
or_invalid_error_code panic = panic

digits_of : Bytes → Result StatusCode
digits_of (a ∷ b ∷ c ∷ []) = do
  severity ← severity_from a
  tens ← or_invalid_error_code (int_from_digit b)
  ones ← or_invalid_error_code (int_from_digit c)
  ok (record { severity = severity; error = 10 * tens + ones })
digits_of _ = panic

-- The test on the length makes the three indexings legal; `digits_of` panics on any other.
unfoldable pub parse_status_code : Bytes → Result StatusCode
unfolding severity_from or_invalid_error_code int_from_digit digits_of
parse_status_code s = if length s == 3 then digits_of s else err invalid_status_code
