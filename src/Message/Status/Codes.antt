-- ===== src/Message/Status/Codes.antt =====
-- protocol/message/status.go: the status codes are the three-digit numbers 000 to 299.
use adcl.Prelude.{
  ℕ, ◌+◌, ◌*◌, ◌/◌, ◌%◌, ◌<◌, ◌≡◌, ap, ◌∙◌, ◌↔◌, Bytes, [], ◌∷◌, ok, arith, All, ltb, if◌then◌else◌,
}
use adcl.Message.Status.{
  Severity, severity_value, success, recoverable, fatal, StatusCode, code, parse_status_code,
}

-- Three decimal digits of a number.
abbrev pub decimal3 : ℕ → Bytes
decimal3 n = (b'0' + n / 100 % 10) ∷ (b'0' + n / 10 % 10) ∷ (b'0' + n % 10) ∷ []

severity_of : ℕ → Severity
severity_of n = if ltb n 100 then success else if ltb n 200 then recoverable else fatal

-- The code that is written with three digits is read back as itself.
pub code-parse_status_code :
    (n : ℕ)
    → n < 300
    → (st : StatusCode) × (parse_status_code (decimal3 n) ≡ ok st)
      × (code st ≡ n)
      × (st.error < 100)
unfolding parse_status_code code severity_of
code-parse_status_code n h = (
  record { severity = severity_of n; error = 10 * (n / 10 % 10) + n % 10 },
  ground arith,
  ground arith,
  omega arith,
)

-- Whatever is accepted is the decimal print of its own code, and the code is below 300.
pub parse_status_code_sound :
    (s : Bytes) (st : StatusCode)
    → All (λ b. b < 256) s
    → parse_status_code s ≡ ok st
    → (s ≡ decimal3 (code st)) × (code st < 300)
unfolding parse_status_code code
parse_status_code_sound (a ∷ b ∷ c ∷ []) st h e = (ground arith, ground arith)
parse_status_code_sound _ st h e = ground arith

parse_status_code-decimal3 :
    (severity : Severity) (error : ℕ)
    → error < 100
    → parse_status_code (decimal3 (severity_value severity * 100 + error))
      ≡ ok (record { severity = severity; error = error })
unfolding parse_status_code
parse_status_code-decimal3 success error h = ground arith
parse_status_code-decimal3 recoverable error h = ground arith
parse_status_code-decimal3 fatal error h = ground arith

-- A status code with an error part below 100 is read back from its three digits.
pub parse_status_code-code :
    (st : StatusCode) → st.error < 100 → parse_status_code (decimal3 (code st)) ≡ ok st
unfolding code
parse_status_code-code st h = parse_status_code-decimal3 st.severity st.error h

parse_status_code-error :
    (s : Bytes) (st : StatusCode)
    → All (λ b. b < 256) s
    → parse_status_code s ≡ ok st
    → st.error < 100
unfolding parse_status_code
parse_status_code-error (a ∷ b ∷ c ∷ []) st h e = ground arith
parse_status_code-error _ st h e = ground arith

-- ParseStatusCode accepts a string of bytes with a status code exactly if the error part of the code
-- is below 100 and the string is the three digits of the code.
pub parse_status_code_iff :
    (s : Bytes) (st : StatusCode)
    → All (λ b. b < 256) s
    → (parse_status_code s ≡ ok st) ↔ ((s ≡ decimal3 (code st)) × (st.error < 100))
parse_status_code_iff s st h = (
  λ e. ((parse_status_code_sound s st h e).0, parse_status_code-error s st h e),
  λ p. ap parse_status_code (p.0) ∙ parse_status_code-code st (p.1),
)
