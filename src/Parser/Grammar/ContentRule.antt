-- ===== src/Parser/Grammar/ContentRule.antt =====
-- protocol/parser/parse.go, parse_sta.go: the loops over parameters, and the content of a message.
use adcl.Prelude.{
  ℕ, zero, suc, ◌≤◌, ◌<◌, ◌≡◌, refl, sym, ap, ◌∙◌, Bytes, List, [], ◌∷◌, ◌++◌, ok, err, arith,
  length, length-drop, append-nil, append_assoc, ◌>>=◌, if◌then◌else◌, true, false, Bool-cases, inl,
  inr, equal, take, drop, invalid_named_parameter,
}
use adcl.Parser.Lexer.Tokens.{unread, length-tokens}
use adcl.Message.Params.{StringMap, map_set}
use adcl.Parser.Named.{Named}
use adcl.Parser.Named
use adcl.Parser.Positional.{Positional}
use adcl.Parser.Positional
use adcl.Parser.MessageReader.{MessageReader, lexer_next, read_named, is_named}
use adcl.Parser.Sta.{add_flag, flag_round, read_flags, rounds, parse_sta_content}
use adcl.Parser.Parse.{positional_round, read_positionals, parse_generic_content, parse_content}
use adcl.Parser.Grammar.{Tokens, flags, sta_content, content}
use adcl.Parser.Grammar.Meets.{
  At, Meets, Meets-bind, pop, lexer_next-Meets, read_positional-Meets, required-Meets, Ends-lift,
  Ends-value,
}
use adcl.Message.Status.{parse_status_code}
use adcl.Encoding.AdcString.{decode_adc_string}
use adcl.Message.Header.{Command, command_sta}
use adcl.Message.Struct.{sta, generic}

read_named-Meets :
    (m : MessageReader) (ts : Tokens)
    → At m ts
    → Meets (read_named m) (
        pop ts >>= λ p.
        if is_named p.0 then ok (record { raw = p.0 }, p.1) else err invalid_named_parameter)
unfolding read_named
read_named-Meets m ts h =
    Meets-bind (lexer_next m) (pop ts) _ _ (lexer_next-Meets m ts h) (λ tok m' ts' h'.
      elim (Bool-cases (is_named tok)) [
        | inl yes_named ↦ rw yes_named (m', refl, h')
        | inr no_named ↦ rw no_named (m', refl)
      ])

is_named-length : (t : Bytes) → is_named t ≡ true → 2 ≤ length t
unfolding is_named
is_named-length [] h = cc
is_named-length (a ∷ []) h = cc
is_named-length (a ∷ b ∷ t) h = omega arith

add_flag-named :
    (fs : StringMap) (t : Bytes) (m : MessageReader)
    → is_named t ≡ true
    → add_flag fs (record { raw = t }) m ≡ (ok (map_set fs (take 2 t) (drop 2 t)), m)
unfolding add_flag Named.name Named.raw_value
add_flag-named fs t m h = ground (arith, is_named-length t h)

read_named-good :
    (m : MessageReader) (t : Bytes) (ts : Tokens)
    → At m (t ∷ ts)
    → is_named t ≡ true
    → (m' : MessageReader) × (read_named m ≡ (ok (record { raw = t }), m')) × At m' ts
read_named-good m t ts h good = rw good at (read_named-Meets m (t ∷ ts) h)

read_named-bad :
    (m : MessageReader) (t : Bytes) (ts : Tokens)
    → At m (t ∷ ts)
    → is_named t ≡ false
    → (m' : MessageReader) × (read_named m ≡ (err invalid_named_parameter, m'))
read_named-bad m t ts h bad = rw bad at (read_named-Meets m (t ∷ ts) h)

-- The loop takes the parameters one by one; its bound is above the number of tokens left.
read_flags-flags :
    (ts : Tokens) (fuel : ℕ) (fs : StringMap) (m : MessageReader)
    → length ts < fuel
    → At m ts
    → (read_flags fuel fs m).0 ≡ flags fs ts
unfolding read_flags flag_round flags
read_flags-flags ts zero fs m lt h = absurd (omega arith)
read_flags-flags [] (suc fuel) fs m lt h = let (m', e) = read_named-Meets m [] h in rw e refl
read_flags-flags (t ∷ ts) (suc fuel) fs m lt h = elim (Bool-cases (is_named t)) [
  | inl good ↦
      let (m', e, h') = read_named-good m t ts h good in
      rw (e, add_flag-named fs t m' good, good)
        (read_flags-flags ts fuel (map_set fs (take 2 t) (drop 2 t)) m' (omega arith) h')
  | inr bad ↦ let (m', e) = read_named-bad m t ts h bad in rw (e, bad) refl
]

read_positionals-append :
    (ts : Tokens) (fuel : ℕ) (ps : List Bytes) (m : MessageReader)
    → length ts < fuel
    → At m ts
    → (read_positionals fuel ps m).0 ≡ ok (ps ++ ts)
unfolding read_positionals positional_round Positional.raw_value
read_positionals-append ts zero ps m lt h = absurd (omega arith)
read_positionals-append [] (suc fuel) ps m lt h =
    let (m', e) = read_positional-Meets m [] h in rw e (ap ok (sym (append-nil ps)))
read_positionals-append (t ∷ ts) (suc fuel) ps m lt h =
    let (m', e, h') = read_positional-Meets m (t ∷ ts) h in
    rw e (
      read_positionals-append ts fuel (ps ++ (t ∷ [])) m' (omega arith) h'
      ∙ ap ok (append_assoc ps (t ∷ []) ts))

rounds-enough : (m : MessageReader) (ts : Tokens) → At m ts → length ts < rounds m
rounds-enough m ts (h, e) =
    rw (← e) (omega (arith, length-tokens (unread m.lexer), length-drop m.lexer.offset m.lexer.s))

-- What stands behind the status code: the description, then the flags.
pub parse_sta_content-sta_content :
    (m : MessageReader) (ts : Tokens) → At m ts → (parse_sta_content m).0 ≡ sta_content ts
unfolding parse_sta_content sta_content Positional.raw_value Positional.value_string
parse_sta_content-sta_content m [] h = let (m', e) = required-Meets m [] h in rw e refl
parse_sta_content-sta_content m (t ∷ []) h =
    let (m', e, h') = required-Meets m (t ∷ []) h in
    rw e (
      Ends-lift (parse_status_code t) m' _ _
        (λ status. let (m2, e2) = required-Meets m' [] h' in rw e2 refl))
parse_sta_content-sta_content m (t ∷ u ∷ ts) h =
    let (m', e, h') = required-Meets m (t ∷ u ∷ ts) h in
    rw e (
      Ends-lift (parse_status_code t) m' _ _ (λ status.
        let (m2, e2, h2) = required-Meets m' (u ∷ ts) h' in
        rw e2 (
          Ends-lift (decode_adc_string u) m2 _ _ (λ description.
            Ends-value (read_flags (rounds m) [] m2) (flags [] ts) _ (
              read_flags-flags ts (rounds m) [] m2 (omega (arith, rounds-enough m (t ∷ u ∷ ts) h))
                h2)))))

parse_generic_content_lem :
    (m : MessageReader) (ts : Tokens)
    → At m ts
    → (parse_generic_content m).0 ≡ ok (record { positional_params = ts; named_params = [] })
unfolding parse_generic_content
parse_generic_content_lem m ts h =
    Ends-value (read_positionals (rounds m) [] m) (ok ts) _
      (read_positionals-append ts (rounds m) [] m (rounds-enough m ts h) h)

pub parse_content-content :
    (cmd : Command) (m : MessageReader) (ts : Tokens)
    → At m ts
    → (parse_content cmd m).0 ≡ content cmd ts
unfolding parse_content content
parse_content-content cmd m ts h = elim (Bool-cases (equal cmd command_sta)) [
  | inl is_sta ↦
      rw is_sta (
        Ends-value (parse_sta_content m) (sta_content ts) sta
          (parse_sta_content-sta_content m ts h))
  | inr other ↦
      rw other (Ends-value (parse_generic_content m) _ generic (parse_generic_content_lem m ts h))
]
