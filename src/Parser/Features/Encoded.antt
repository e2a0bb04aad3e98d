-- ===== src/Parser/Features/Encoded.antt =====
-- protocol/parser/parse.go: the lists of features that are accepted are those that can be written.
use adcl.Prelude.{
  ◌↔◌, ℕ, ◌%◌, ◌≡◌, refl, ap, ◌∙◌, sym, Bool, true, false, Bytes, List, [], ◌∷◌, ◌++◌, append-nil,
  append_assoc, ok, >>=-eq-ok, arith, All, length, length-append, ◌==◌, Bool-cases, inl, inr,
}
use adcl.Message.Feature.{FeatureOpAction, add, remove, FeatureOp}
use adcl.Parser.Features.{is_feature_name, parse_feature, feature_loop, parse_features}

abbrev pub action_byte : FeatureOpAction → ℕ
action_byte add = b'+'
action_byte remove = b'-'

-- The text of a list of operations.
abbrev pub features_text : List FeatureOp → Bytes
features_text [] = []
features_text (op ∷ ops) = action_byte op.op_action ∷ (op.feature ++ features_text ops)

-- A feature name has four bytes: a letter, then letters or digits.
abbrev pub name_ok : Bytes → Bool
name_ok (a ∷ b ∷ c ∷ d ∷ []) = is_feature_name a b c d
name_ok _ = false

abbrev pub AreFeatures : List FeatureOp → Type 0
AreFeatures = All (λ op. name_ok op.feature ≡ true)

parse_feature-text :
    (act : FeatureOpAction) (a b c d : ℕ)
    → is_feature_name a b c d ≡ true
    → parse_feature (action_byte act) a b c d
      ≡ ok (record { op_action = act; feature = a ∷ b ∷ c ∷ d ∷ [] })
unfolding parse_feature
parse_feature-text add a b c d h = ground arith
parse_feature-text remove a b c d h = ground arith

parse_feature_sound :
    (op a b c d : ℕ) (f : FeatureOp)
    → parse_feature op a b c d ≡ ok f
    → (action_byte f.op_action ≡ op)
      × (f.feature ≡ a ∷ b ∷ c ∷ d ∷ [])
      × (is_feature_name a b c d ≡ true)
unfolding parse_feature
parse_feature_sound op a b c d f e = ground arith

feature_loop_one :
    (op : FeatureOp) (rest : Bytes) (done : List FeatureOp) (name : Bytes)
    → op.feature ≡ name
    → name_ok name ≡ true
    → feature_loop done (action_byte op.op_action ∷ (name ++ rest))
      ≡ feature_loop (done ++ (op ∷ [])) rest
unfolding feature_loop
feature_loop_one op rest done (a ∷ b ∷ c ∷ d ∷ []) e h =
    rw (parse_feature-text op.op_action a b c d h) (
      ap (λ x. feature_loop (done ++ (record { op_action = op.op_action; feature = x } ∷ [])) rest)
        (sym e))
feature_loop_one op rest done _ e h = cc

feature_loop-text :
    (ops done : List FeatureOp)
    → AreFeatures ops
    → feature_loop done (features_text ops) ≡ ok (done ++ ops)
feature_loop-text [] done h = unfold feature_loop in ap ok (sym (append-nil done))
feature_loop-text (op ∷ ops) done (h, hs) =
    feature_loop_one op (features_text ops) done op.feature refl h
    ∙ feature_loop-text ops (done ++ (op ∷ [])) hs
    ∙ ap ok (append_assoc done (op ∷ []) ops)

length-name : (name : Bytes) → name_ok name ≡ true → length name ≡ 4
length-name (a ∷ b ∷ c ∷ d ∷ []) h = refl
length-name _ h = cc

length-features_text : (ops : List FeatureOp) → AreFeatures ops → length (features_text ops) % 5 ≡ 0
length-features_text [] h = refl
length-features_text (op ∷ ops) (h, hs) = omega (
  arith,
  length-append op.feature (features_text ops),
  length-name op.feature h,
  length-features_text ops hs,
)

-- A list of operations with proper names is read back from its text.
pub parse_features-text :
    (ops : List FeatureOp) → AreFeatures ops → parse_features (features_text ops) ≡ ok ops
unfolding parse_features
parse_features-text ops h = rw (length-features_text ops h) (feature_loop-text ops [] h)

feature_loop_sound :
    (s : Bytes) (done ops : List FeatureOp)
    → feature_loop done s ≡ ok ops
    → (more : List FeatureOp) × (ops ≡ done ++ more) × (features_text more ≡ s) × AreFeatures more
unfolding feature_loop
feature_loop_sound [] done ops e = ([], ground (arith, append-nil done), refl, tt)
feature_loop_sound (op ∷ a ∷ b ∷ c ∷ d ∷ rest) done ops e =
    let (f, first, later) = >>=-eq-ok (parse_feature op a b c d) _ e in
    let (act, name, proper) = parse_feature_sound op a b c d f first in
    let (more, split, text, good) = feature_loop_sound rest (done ++ (f ∷ [])) ops later in
    (
      f ∷ more,
      split ∙ append_assoc done (f ∷ []) more,
      cc (act, name, text),
      (rw name proper, good),
    )
feature_loop_sound (op ∷ []) done ops e = cc
feature_loop_sound (op ∷ a ∷ []) done ops e = cc
feature_loop_sound (op ∷ a ∷ b ∷ []) done ops e = cc
feature_loop_sound (op ∷ a ∷ b ∷ c ∷ []) done ops e = cc

-- Whatever is accepted is the text of the operations that it gives, and their names are proper.
pub parse_features_sound :
    (s : Bytes) (ops : List FeatureOp)
    → parse_features s ≡ ok ops
    → (features_text ops ≡ s) × AreFeatures ops
unfolding parse_features
parse_features_sound s ops e = elim (Bool-cases (length s % 5 == 0)) [
  | inl five ↦
      let (more, split, text, good) = feature_loop_sound s [] ops (rw five at e) in
      (rw split text, rw split good)
  | inr other ↦ cc (rw other at e)
]

-- A text is read as a list of operations exactly if it is the text of the list and the names of the
-- list are proper.
pub parse_features_iff :
    (s : Bytes) (ops : List FeatureOp)
    → (parse_features s ≡ ok ops) ↔ ((s ≡ features_text ops) × AreFeatures ops)
parse_features_iff s ops = (
  λ e. let (text, proper) = parse_features_sound s ops e in (sym text, proper),
  λ (text, proper). rw text (parse_features-text ops proper),
)
