-- ===== src/Message/Header/AllCommands.antt =====
-- protocol/message/header.go: ParseCommand on every string.
use adcl.Prelude.{
  ◌≡◌, refl, ◌∙◌, Bool, true, false, ◌&&◌, Bytes, [], ◌∷◌, Result, ok, err, panic,
  invalid_command_name, if◌then◌else◌, arith, Bool-cases, inl, inr, none,
}
use adcl.Encoding.{is_upper_alpha, is_upper_alpha_num}
use adcl.Message.Header.{Command, known_commands, known_command, command_syntax, parse_command}
use adcl.Message.Header.Commands.{is_one_of, known_command_lem}

-- A string that is not one of the constants, by its length: one of less than two bytes panics, and
-- one of two bytes if it goes on to its third; three bytes are refused; and of more, the bytes
-- behind the first are looked at.
abbrev pub other_command : Bytes → Result (Command × Bool)
other_command (a ∷ b ∷ []) = if is_upper_alpha b then panic else err invalid_command_name
other_command (a ∷ b ∷ c ∷ []) = err invalid_command_name
other_command (a ∷ b ∷ c ∷ d ∷ s) =
    if is_upper_alpha b && is_upper_alpha_num c && is_upper_alpha_num d
    then ok (a ∷ b ∷ c ∷ d ∷ s, false)
    else err invalid_command_name
other_command s = panic

parse_command-other :
    (s : Bytes) → known_command s known_commands ≡ none → parse_command s ≡ other_command s
unfolding parse_command command_syntax
parse_command-other [] e = rw (e, parse_command) refl
parse_command-other (a ∷ []) e = rw (e, parse_command) refl
parse_command-other (a ∷ b ∷ []) e = rw (e, parse_command) (ground arith)
parse_command-other (a ∷ b ∷ c ∷ []) e = rw (e, parse_command) (ground arith)
parse_command-other (a ∷ b ∷ c ∷ d ∷ s) e = rw (e, parse_command) (ground arith)

-- ParseCommand accepts each constant as known. Of the other strings it accepts those of at least
-- four bytes that have a capital and two capitals or digits behind the first byte, as unknown;
-- refuses the others, among them all of three bytes; and panics on those of less than two bytes
-- and on those of two bytes with a capital at the end.
pub parse_command_lem :
    (s : Bytes)
    → parse_command s ≡ (if is_one_of s known_commands then ok (s, true) else other_command s)
unfolding parse_command
parse_command_lem s = elim (Bool-cases (is_one_of s known_commands)) [
  | inl known ↦ rw (known_command_lem s known_commands, known, parse_command) refl
  | inr other ↦
      rw other (parse_command-other s (known_command_lem s known_commands ∙ rw other refl))
]
