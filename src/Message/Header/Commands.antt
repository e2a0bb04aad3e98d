-- ===== src/Message/Header/Commands.antt =====
-- protocol/message/header.go: which bytes are types, and which strings are commands.
use adcl.Prelude.{
  ℕ, Bool, true, false, ap, ◌||◌, ◌≡◌, ◌≢◌, inl, inr, refl, Bytes, List, [], ◌∷◌, none, some, ok,
  err, panic, invalid_type, invalid_command_name, ◌==◌, equal, equal_iff, if◌then◌else◌, length,
  arith, ◌<◌, All, Bool-cases,
}
use adcl.Message.Header.{
  parse_type, Command, known_commands, known_command, command_syntax, parse_command,
}

-- The letters of the message types.
abbrev pub is_type : ℕ → Bool
is_type b =
    b == b'B'
    || b == b'C'
    || b == b'D'
    || b == b'E'
    || b == b'F'
    || b == b'H'
    || b == b'I'
    || b == b'U'

-- `ParseType` accepts exactly the eight letters, and gives the letter back.
pub parse_type_lem : (b : ℕ) → parse_type b ≡ (if is_type b then ok b else err invalid_type)
unfolding parse_type
parse_type_lem b = ground arith

-- Whether a string is one of the list.
abbrev pub is_one_of : Bytes → List Bytes → Bool
is_one_of s [] = false
is_one_of s (c ∷ cs) = equal s c || is_one_of s cs

pub known_command_lem :
    (s : Bytes) (cs : List Command) → known_command s cs ≡ (if is_one_of s cs then some s else none)
unfolding known_command
known_command_lem s [] = refl
known_command_lem s (c ∷ cs) = ground (arith, known_command_lem s cs, equal_iff s c)

command_syntax-three : (s : Bytes) → length s ≡ 3 → command_syntax s ≡ ok false
unfolding command_syntax
command_syntax-three s h = ground arith

-- Of the strings of three bytes exactly the constants of the package are accepted. Every other is
-- refused, also one that is a command by the protocol's syntax.
pub parse_command-three :
    (s : Bytes)
    → length s ≡ 3
    → parse_command s
      ≡ (if is_one_of s known_commands then ok (s, true) else err invalid_command_name)
unfolding parse_command
parse_command-three s h = elim (Bool-cases (is_one_of s known_commands)) [
  | inl known ↦ rw (known_command_lem s known_commands, known, parse_command)
  | inr other ↦
      rw (known_command_lem s known_commands, other, parse_command, command_syntax-three s h)
]

command_syntax_short : (s : Bytes) → length s < 2 → command_syntax s ≡ panic
unfolding command_syntax
command_syntax_short [] h = refl
command_syntax_short (c ∷ []) h = refl
command_syntax_short (c ∷ d ∷ cs) h = absurd (omega arith)

known_command_short :
    (s : Bytes) (cs : List Command)
    → length s < 2
    → All (λ c. length c ≡ 3) cs
    → known_command s cs ≡ none
unfolding known_command
known_command_short s [] h k = refl
known_command_short s (c ∷ cs) h (e, k) =
    ground (arith, known_command_short s cs h k, equal_iff s c, ap length {x = s} {y = c})

-- A string of less than two bytes is no error but a panic, by an index out of range.
parse_command_panics : (s : Bytes) → length s < 2 → parse_command s ≡ panic
unfolding parse_command
parse_command_panics s h =
    rw (
      known_command_short s known_commands h (omega arith),
      parse_command,
      command_syntax_short s h,
    )

-- A string that is accepted without being a constant is not of three bytes: its bytes at 1 to 3
-- are those of a name, and it comes back unchanged.
parse_command_unknown :
    (s c : Bytes)
    → parse_command s ≡ ok (c, false)
    → (c ≡ s) × (length s ≢ 3) × (command_syntax s ≡ ok true)
unfolding parse_command
parse_command_unknown s c e = ground (arith, command_syntax-three s)
