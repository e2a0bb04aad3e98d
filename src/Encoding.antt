-- ===== src/Encoding.antt =====
-- protocol/encoding/encoding.go: the classes of bytes that the checks of the protocol use.
pub mod AdcString
pub mod Base32Value
use adcl.Prelude.{ℕ, Bool, ◌&&◌, ◌||◌, ◌≤◌, ◌≡◌, true, arith, leb}

abbrev pub byte_a : ℕ
byte_a = b'A'

abbrev pub byte_z : ℕ
byte_z = b'Z'

abbrev pub byte_0 : ℕ
byte_0 = b'0'

abbrev pub byte_9 : ℕ
byte_9 = b'9'

unfoldable pub is_upper_alpha_num : ℕ → Bool
is_upper_alpha_num b = (leb byte_a b && leb b byte_z) || (leb byte_0 b && leb b byte_9)

unfoldable pub is_upper_alpha : ℕ → Bool
is_upper_alpha b = leb byte_a b && leb b byte_z

-- A letter is allowed wherever a letter or a digit is.
pub is_upper_alpha→num : (b : ℕ) → is_upper_alpha b ≡ true → is_upper_alpha_num b ≡ true
unfolding is_upper_alpha is_upper_alpha_num
is_upper_alpha→num b h = ground arith
