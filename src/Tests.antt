-- ===== src/Tests.antt =====
-- The theorems at concrete inputs, and the tests that these share.
mod EncodingRuns
mod MessageRuns
mod ContentRuns
mod TextTrees
mod TextRuns
mod ParserRuns
mod ConnReaderRuns
mod GeneratorRuns
mod MeaningTrees
mod MeaningRuns
mod DebugRuns
mod MessageLines
use adcl.Prelude.{ℕ, ◌<◌, ◌≡◌, Bool, true, not, ◌&&◌, [], ◌∷◌, Bytes, ◌==◌, ltb, All, arith}
use adcl.Stdlib.Strings.{Lacks}

abbrev avoids : ℕ → Bytes → Bool
avoids b [] = true
avoids b (c ∷ cs) = not (c == b) && avoids b cs

avoids-Lacks : (b : ℕ) (s : Bytes) → avoids b s ≡ true → Lacks b s
avoids-Lacks b [] h = tt
avoids-Lacks b (c ∷ cs) h = (ground arith, avoids-Lacks b cs (ground arith))

abbrev small : Bytes → Bool
small [] = true
small (c ∷ cs) = ltb c 256 && small cs

small-All : (s : Bytes) → small s ≡ true → All (λ b. b < 256) s
small-All [] h = tt
small-All (c ∷ cs) h = (ground arith, small-All cs (ground arith))
