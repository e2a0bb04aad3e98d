-- ===== src/Parser/Sta.antt =====
-- protocol/parser/parse_sta.go
use adcl.Prelude.{ℕ, zero, suc, ◌+◌, [], Result, ok, err, panic, eof, fuel_exhausted, length}
use adcl.Message.Params.{StringMap, map_set}
use adcl.Message.Status.{parse_status_code}
use adcl.Message.Content.Sta.{StaContent}
use adcl.Parser.Positional
use adcl.Parser.Named
use adcl.Parser.Named.{Named}
use adcl.Parser.MessageReader.{
  MessageReader, Read, continue, pure, lift, ◌>>=◌, required, read_positional, read_named,
}

-- `mes.Flags[namedParam.Name()] = namedParam.RawValue()`
unfoldable pub add_flag : StringMap → Named → Read StringMap
add_flag flags n = do
  name ← lift (Named.name n)
  value ← lift (Named.raw_value n)
  pure (map_set flags name value)

-- One round of the loop over the named parameters, on what `ReadNamed` gave; `rest` is the loop.
-- The end of the line ends it without an error.
unfoldable pub flag_round :
    (StringMap → Read StringMap)
    → StringMap
    → Result Named × MessageReader
    → Result StringMap × MessageReader
flag_round rest flags (ok n, m) = continue (add_flag flags n m) rest
flag_round rest flags (err eof, m) = (ok flags, m)
flag_round rest flags (err e, m) = (err e, m)
flag_round rest flags (panic, m) = (panic, m)

-- The loop, with a bound on its rounds.
unfoldable pub read_flags : ℕ → StringMap → Read StringMap
read_flags zero flags m = (err fuel_exhausted, m)
read_flags (suc fuel) flags m = flag_round (read_flags fuel) flags (read_named m)

-- Each round takes at least one byte of the line.
abbrev pub rounds : MessageReader → ℕ
rounds m = length m.lexer.s + 1

-- The string fields `codeStr` and `descriptionStr` are not set.
unfoldable pub parse_sta_content : Read StaContent
parse_sta_content m =
    (do
      code_param ← required read_positional
      status_code ← lift (parse_status_code (Positional.raw_value code_param))
      description_param ← required read_positional
      description ← lift (Positional.value_string description_param)
      flags ← read_flags (rounds m) []
      pure (record {
        code = status_code;
        code_str = [];
        description = description;
        description_str = [];
        flags = flags;
      }))
      m
