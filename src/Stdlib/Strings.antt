-- ===== src/Stdlib/Strings.antt =====
-- Package strings: the searches for one byte. `none` is the result -1.
use mathlib.Core.Option
use adcl.Prelude.{
  ℕ, suc, ◌≡◌, refl, ap, ◌≢◌, Option, none, some, [], ◌∷◌, ◌++◌, Bytes, arith, ◌==◌, ==_iff,
  if◌then◌else◌, length, All, Bool-cases, inl, inr, leb, ◌&&◌, ◌-◌, ◌+◌,
}

-- strings.IndexRune, strings.IndexByte: the first place that holds `b`. (The rune is ASCII.)
unfoldable pub index_byte : ℕ → Bytes → Option ℕ
index_byte b [] = none
index_byte b (c ∷ cs) = if c == b then some 0 else Option.map suc (index_byte b cs)

-- strings.LastIndexByte: the last place that holds `b`.
unfoldable pub last_index_byte : ℕ → Bytes → Option ℕ
last_index_byte b [] = none
last_index_byte b (c ∷ cs) = elim (last_index_byte b cs) [
  | some i ↦ some (suc i)
  | none ↦ if c == b then some 0 else none
]

-- No byte of the text is `b`.
abbrev pub Lacks : ℕ → Bytes → Type 0
Lacks b = All (λ c. c ≢ b)

pub index_byte-none : (b : ℕ) (s : Bytes) → Lacks b s → index_byte b s ≡ none
unfolding index_byte
index_byte-none b [] h = refl
index_byte-none b (c ∷ cs) (n, h) = ground (arith, index_byte-none b cs h)

pub index_byte-append :
    (b : ℕ) (s rest : Bytes) → Lacks b s → index_byte b (s ++ (b ∷ rest)) ≡ some (length s)
unfolding index_byte
index_byte-append b [] rest h = ground arith
index_byte-append b (c ∷ cs) rest (n, h) = ground (arith, index_byte-append b cs rest h)

pub last_index_byte-last : (b : ℕ) (s : Bytes) → last_index_byte b (s ++ (b ∷ [])) ≡ some (length s)
unfolding last_index_byte
last_index_byte-last b [] = ground arith
last_index_byte-last b (c ∷ cs) = ground (arith, last_index_byte-last b cs)

-- A text whose last byte is another one has `b`, if at all, before it.
pub last_index_byte_other :
    (b c : ℕ) (s : Bytes) → c ≢ b → last_index_byte b (s ++ (c ∷ [])) ≢ some (length s)
unfolding last_index_byte
last_index_byte_other b c [] h = ground arith
last_index_byte_other b c (d ∷ ds) h = ground (arith, last_index_byte_other b c ds h)

-- Where the first `b` stands, if there is one.
pub data FirstByte (b : ℕ) : Bytes → Type 0 where
  nowhere : {s : Bytes} → Lacks b s → FirstByte b s
  behind : {s : Bytes} (w rest : Bytes) → Lacks b w → s ≡ w ++ (b ∷ rest) → FirstByte b s

FirstByte-cons : {b : ℕ} {s : Bytes} (c : ℕ) → c ≢ b → FirstByte b s → FirstByte b (c ∷ s)
FirstByte-cons c h (nowhere k) = nowhere (h, k)
FirstByte-cons c h (behind w rest k e) = behind (c ∷ w) rest (h, k) (ap (◌∷◌ c) e)

pub first_byte : (b : ℕ) (s : Bytes) → FirstByte b s
first_byte b [] = nowhere tt
first_byte b (c ∷ cs) = elim (Bool-cases (c == b)) [
  | inl same ↦ behind [] cs tt (ap (λ x. x ∷ cs) ((==_iff c b).0 same))
  | inr other ↦ FirstByte-cons c (ground arith) (first_byte b cs)
]

-- strings.ToUpper and strings.ToLower on texts of ASCII.
unfoldable pub to_upper : Bytes → Bytes
to_upper [] = []
to_upper (c ∷ cs) = (if leb b'a' c && leb c b'z' then c - 32 else c) ∷ to_upper cs

unfoldable pub to_lower : Bytes → Bytes
to_lower [] = []
to_lower (c ∷ cs) = (if leb b'A' c && leb c b'Z' then c + 32 else c) ∷ to_lower cs
