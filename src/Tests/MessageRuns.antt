-- ===== src/Tests/MessageRuns.antt =====
-- protocol/message at concrete inputs.
use adcl.Prelude.{
  ◌↔◌, ◌≡◌, ◌≢◌, ◌<◌, refl, true, false, codes, Bytes, List, [], ◌∷◌, Result, ok, err, panic,
  if◌then◌else◌, invalid_type, invalid_command_name, arith, length, All, some, ℤ, pos, inl, inr,
  ◌++◌,
}
use adcl.Message.Header.{known_commands, parse_command}
use adcl.Message.Header.Commands.{is_one_of}
use adcl.Message.Header.AllCommands.{other_command, parse_command_lem}
use adcl.Message.Status.{StatusCode, success, code, parse_status_code}
use adcl.Message.Status.Codes.{decimal3, parse_status_code_iff}
use adcl.Message.Maybe.Generated.{maybe_int}
use adcl.Message.Maybe.Generated.History.{Call, set_to, unset_it, after, generated-after}
use adcl.Message.Search.{SearchTerm, include, exclude}
use adcl.Message.Search.Iteration.{collect, fresh, somes, passing, collect-fresh}
use adcl.Message.Struct.{Content, ctm, accessor}
use adcl.Message.Accessors.{IsConsistent, accessor-IsConsistent}
use adcl.Tests.{small-All}

-- "NAT" is a command by the syntax of the protocol.
parse_command_lem_example : parse_command (codes "NAT") ≡ (
    if is_one_of (codes "NAT") known_commands
    then ok (codes "NAT", true)
    else other_command (codes "NAT"))
parse_command_lem_example = parse_command_lem (codes "NAT")

refused : parse_command (codes "NAT") ≡ err invalid_command_name
unfolding adcl.Prelude.equal
refused = parse_command_lem_example

accepted : parse_command (codes "XABC") ≡ ok (codes "XABC", false)
unfolding adcl.Prelude.equal adcl.Encoding.is_upper_alpha adcl.Encoding.is_upper_alpha_num
accepted = parse_command_lem (codes "XABC")

abbrev status : StatusCode
status = record { severity = success; error = 7 }

parse_status_code_iff_example :
    (parse_status_code (codes "007") ≡ ok status)
    ↔ ((codes "007" ≡ decimal3 (code status)) × (status.error < 100))
parse_status_code_iff_example =
    parse_status_code_iff (codes "007") status (small-All (codes "007") refl)

abbrev terms : List SearchTerm
terms =
    record { term_action = include; term = codes "a" }
    ∷ record { term_action = exclude; term = codes "b" }
    ∷ record { term_action = include; term = codes "c" }
    ∷ []

collect-fresh_example : collect 4 (fresh terms include) ≡ somes (passing include terms)
collect-fresh_example = collect-fresh terms include 4 (omega arith)

abbrev connect : Content
connect = ctm (record {
  protocol = [];
  protocol_str = codes "ADC/1.0";
  port = [];
  port_str = codes "3000";
  token = [];
  token_str = codes "1";
  flags = [];
})

accessor-IsConsistent_example : IsConsistent (accessor connect)
accessor-IsConsistent_example = accessor-IsConsistent connect

-- Two values are set, and unset again.
abbrev calls : List (Call ℤ)
calls = set_to (pos 1) ∷ unset_it ∷ set_to (pos 2) ∷ unset_it ∷ []

generated-after_example :
    (maybe_int.get (after maybe_int calls (record { value = pos 0; is_set = false }))
      ≡ (pos 2, false))
    × (maybe_int.get_default
          (after maybe_int calls (record { value = pos 0; is_set = false }))
          (pos 7)
        ≡ pos 7)
generated-after_example = generated-after ℤ (record { value = pos 0; is_set = false }) calls (pos 7)
