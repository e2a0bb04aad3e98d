-- ===== src/Tests/TextTrees.antt =====
-- Syntax trees in the place of the codes of package jen, and what they mean in Go.
use adcl.Prelude.{
  if◌then◌else◌, ◌==◌, ◌+◌, arith, length, ℕ, ◌≡◌, refl, ap, Bytes, List, [], ◌∷◌, ◌++◌, codes,
  Result, ok, panic, ◌>>=◌, >>=_pointwise,
}
use adcl.Message.Params.{index_slice}
use adcl.Generator.StructGenerator.{StructGenerator}
use adcl.Generator.Jen.{
  codes_of, case_of, switch_of, block_of, len_of, Jen, Word, Bracket, Statement, Group, return_of,
  append_of, values_of,
}
use adcl.Generator.StructGenerator.Texts.{Texts, operands, run_all, joined}
use adcl.Generator.StructGenerator.Texts.Index.{one_text, Indexing}
use adcl.Generator.StructGenerator.Lengths.{Sums}

mutual
  pub data Tree : Type 0 where
    token : Bytes → Tree
    keyword : Word → Tree
    number : ℕ → Tree
    group : Bracket → Trees → Tree
    whole : Trees → Tree

  pub data Trees : Type 0 where
    none_left : Trees
    next_tree : Tree → Trees → Trees

abbrev pub trees : List Tree → Trees
trees [] = none_left
trees (c ∷ cs) = next_tree c (trees cs)

abbrev pub listed : Trees → List Tree
listed none_left = []
listed (next_tree c cs) = c ∷ listed cs

pub listed-trees : (cs : List Tree) → listed (trees cs) ≡ cs
listed-trees [] = refl
listed-trees (c ∷ cs) = ap (λ l. c ∷ l) (listed-trees cs)

abbrev pub tree_jen : Jen
tree_jen = record {
  Code = Tree;
  statement = λ cs. whole (trees cs);
  op = token;
  word = λ w. keyword w ∷ [];
  bracket = λ b cs. group b (trees cs) ∷ [];
  id = λ name. token name ∷ [];
  dot = λ name. token name ∷ [];
  qual = λ path name. token path ∷ token name ∷ [];
  lit_int = λ n. number n ∷ [];
  lit_string = λ text. token text ∷ [];
  lit_bool = λ b. number (if b then 1 else 0) ∷ [];
  comment = λ text. [];
  render = λ name statements. name;
}

-- A content whose fields of one text have their names, and the others "2" and "3".
abbrev field_text : Tree → Bytes
field_text (whole (next_tree (token name) none_left)) = name
field_text _ = []

abbrev pub plural : List Bytes
plural = codes "2" ∷ codes "3" ∷ []

abbrev operand_of : List Tree → Result (List Bytes)
operand_of (x ∷ d ∷ c ∷ []) = ok (field_text c ∷ [])
operand_of (x ∷ d ∷ c ∷ token o ∷ []) = ok plural
operand_of (x ∷ d ∷ c ∷ group b (next_tree (whole (next_tree (number i) rest)) more) ∷ []) =
    index_slice plural i >>= λ v. ok (v ∷ [])
operand_of _ = panic

abbrev operand : Tree → Result (List Bytes)
operand (whole cs) = operand_of (listed cs)
operand _ = panic

abbrev run : Statement tree_jen → List Bytes → Result (List Bytes)
run (x ∷ o ∷ group append_of (next_tree p args) ∷ []) ps =
    joined (ok ps) (operands tree_jen operand (listed args))
run _ ps = panic

-- The statements behind the new slice, to the return.
abbrev block : Group tree_jen → List Bytes → Result (List Bytes)
block [] ps = panic
block (r ∷ []) ps = ok ps
block (b ∷ c ∷ bs) ps = run b ps >>= block (c ∷ bs)

abbrev returned : List Tree → Result (List Bytes)
returned (token x ∷ cs) = ok plural
returned (i ∷ w ∷ group values_of args ∷ []) = operands tree_jen operand (listed args)
returned _ = panic

abbrev pub body : Group tree_jen → Result (List Bytes)
body ((group return_of (next_tree (whole cs) none_left) ∷ []) ∷ []) = returned (listed cs)
body (m ∷ bs) = block bs []
body [] = panic

pub block-return :
    (bs : Group tree_jen) (r : Statement tree_jen) (ps : List Bytes)
    → block (bs ++ (r ∷ [])) ps ≡ run_all tree_jen run bs ps
block-return [] r ps = refl
block-return (b ∷ []) r ps = refl
block-return (b ∷ c ∷ bs) r ps = >>=_pointwise (run b ps) (block-return (c ∷ bs) r)

abbrev pub tree_texts : (x : Bytes) → Texts tree_jen x
tree_texts x = record {
  field = field_text;
  fields = λ c. plural;
  operand = operand;
  run = run;
  body = body;
  operand-field = λ c. refl;
  operand-index = λ c i. refl;
  operand-spread = λ c. refl;
  run-append =
      λ args ps. ap (λ l. joined (ok ps) (operands tree_jen operand l)) (listed-trees args);
  body-literal = λ args. ap (operands tree_jen operand) (listed-trees args);
  body-field = λ c. refl;
  body-make = λ bs h. block-return bs _ [];
}

-- `len` of a field that is measured has the number of its texts.
abbrev measure : Bracket → ℕ
measure len_of = length plural
measure _ = 0

-- What an expression adds up to.
abbrev pub sum_of : Trees → ℕ
sum_of none_left = 0
sum_of (next_tree (whole cs) rest) = sum_of cs + sum_of rest
sum_of (next_tree (number n) rest) = n + sum_of rest
sum_of (next_tree (group b cs) rest) = measure b + sum_of rest
sum_of (next_tree _ rest) = sum_of rest

abbrev own : Tree → ℕ
own c = sum_of (next_tree c none_left)

sum_of-next_tree : (c : Tree) (rest : Trees) → sum_of (next_tree c rest) ≡ own c + sum_of rest
sum_of-next_tree (whole cs) rest = omega arith
sum_of-next_tree (number n) rest = omega arith
sum_of-next_tree (group b cs) rest = omega arith
sum_of-next_tree (token t) rest = omega arith
sum_of-next_tree (keyword w) rest = omega arith

pub sum_of-append :
    (a b : List Tree) → sum_of (trees (a ++ b)) ≡ sum_of (trees a) + sum_of (trees b)
sum_of-append [] b = omega arith
sum_of-append (c ∷ a) b =
    omega
      (arith, sum_of-next_tree c (trees (a ++ b)), sum_of-next_tree c (trees a), sum_of-append a b)

abbrev pub tree_sums : Sums tree_jen
tree_sums = record {
  value = λ cs. sum_of (trees cs);
  value-lit = λ n. omega arith;
  value-plus = λ a b. omega (arith, sum_of-append a (token (codes "+") ∷ b));
  value-inline = λ a b. omega (arith, sum_of-append a (whole (trees b) ∷ []), sum_of-append a b);
}

-- The cases of a switch; what is none of them is the default, with its panic.
abbrev pub chosen : Trees → ℕ → Result Bytes
chosen
      (next_tree
        (whole (
          next_tree (group case_of (next_tree (whole (next_tree (number n) none_left)) none_left)) (
            next_tree
              (group block_of (
                next_tree
                  (whole (next_tree (group return_of (next_tree v none_left)) none_left))
                  none_left))
              none_left)))
        rest)
      i =
    let later = chosen rest i in if n == i then operand v >>= one_text else later
chosen _ i = panic

abbrev pub indexed_body : Group tree_jen → ℕ → Result Bytes
indexed_body ((group return_of cs ∷ []) ∷ []) i = index_slice plural i
indexed_body ((group switch_of on ∷ group block_of cases ∷ []) ∷ []) i = chosen cases i
indexed_body _ i = panic

-- The meaning of PosAt for every generator.
abbrev pub tree_index :
    (s : StructGenerator tree_jen) → Indexing tree_jen s (tree_texts s.type_letter)
tree_index s = record {
  at = indexed_body;
  select = λ cases i. chosen (trees (codes_of tree_jen cases)) i;
  at-panic = λ i. refl;
  at-index = λ c i. refl;
  at-switch = λ cases i. refl;
  select-case = λ n v cases i. refl;
  select-default = λ i. refl;
}
