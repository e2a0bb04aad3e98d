-- ===== src/Parser/Features.antt =====
-- protocol/parser/parse.go: the list of features in the header of a feature broadcast.
pub mod Encoded
use adcl.Prelude.{
  ℕ, Bool, true, false, ◌&&◌, ◌+◌, ◌%◌, Bytes, List, [], ◌∷◌, ◌++◌, Result, ok, err, panic, ◌>>=◌,
  invalid_feature_encoding, ◌==◌, not, if◌then◌else◌, length,
}
use adcl.Encoding.{is_upper_alpha, is_upper_alpha_num}
use adcl.Message.Feature.{FeatureOpAction, add, remove, FeatureOp}

-- The switch on the first byte of a group.
parse_action : ℕ → Result FeatureOpAction
parse_action b =
    if b == b'+' then ok add else if b == b'-' then ok remove else err invalid_feature_encoding

unfoldable pub is_feature_name : ℕ → ℕ → ℕ → ℕ → Bool
is_feature_name a b c d =
    is_upper_alpha a && is_upper_alpha_num b && is_upper_alpha_num c && is_upper_alpha_num d

-- One round of the loop, on five bytes.
unfoldable pub parse_feature : ℕ → ℕ → ℕ → ℕ → ℕ → Result FeatureOp
unfolding parse_action
parse_feature op a b c d = do
  action ← parse_action op
  if is_feature_name a b c d
      then ok (record { op_action = action; feature = a ∷ b ∷ c ∷ d ∷ [] })
      else err invalid_feature_encoding

-- The loop, with the operations so far. A group that is cut short would be an index out of range.
unfoldable pub feature_loop : List FeatureOp → Bytes → Result (List FeatureOp)
feature_loop ops [] = ok ops
feature_loop ops (op ∷ a ∷ b ∷ c ∷ d ∷ rest) = do
  feature ← parse_feature op a b c d
  feature_loop (ops ++ (feature ∷ [])) rest
feature_loop ops _ = panic

unfoldable pub parse_features : Bytes → Result (List FeatureOp)
parse_features s =
    if not (length s % 5 == 0) then err invalid_feature_encoding else feature_loop [] s
