-- ===== src/Tests/MeaningTrees.antt =====
-- The syntax trees in the place of the codes of package jen: what those of Named and NamedGet mean.
use adcl.Prelude.{
  ◌≡◌, refl, ap, Bool, true, false, Bytes, List, [], ◌∷◌, ◌++◌, codes, Option, none, some, Result,
  ok, panic, ◌>>=◌, if◌then◌else◌, equal, equal_refl, slice_from, inl, inr, ◌==◌,
}
use adcl.Message.Params.{StringMap, map_get}
use adcl.Message.Content.Tables.{copy_flags, set_raw}
use adcl.Generator.Jen.{
  Group, Statement, codes_of, if_of, list_of, block_of, switch_of, return_of, for_of, index_of,
}
use adcl.Generator.StructGenerator.Meaning.{Meaning, IsSetting, declared}
use adcl.Tests.TextTrees.{
  Tree, Trees, token, keyword, number, group, whole, none_left, next_tree, trees, listed,
  listed-trees, tree_jen,
}

-- The content: the parameters SL, FN, SI and TO are there.
abbrev pub fields : Bytes → Bytes
fields name =
    if equal name (codes "fnStr")
    then codes "FNa"
    else if equal name (codes "siStr")
    then codes "SI5"
    else if equal name (codes "slStr")
    then codes "SL2"
    else if equal name (codes "toStr")
    then codes "TOx"
    else []

abbrev sets : Bytes → Bool
sets name = equal name (codes "SL")

abbrev text_of : Trees → Bytes
text_of (next_tree x (next_tree d (next_tree (whole (next_tree (token n) none_left)) none_left))) =
    fields n
text_of _ = []

abbrev text : Tree → Bytes
text (whole cs) = text_of cs
text _ = []

abbrev holds_of : Tree → Bool
holds_of
      (whole (next_tree x (next_tree d (next_tree (whole (next_tree (token n) none_left)) is)))) =
    sets n
holds_of _ = false

abbrev holds : List Tree → Bool
holds (c ∷ []) = holds_of c
holds _ = false

-- The codes before the last one, and the last one.
abbrev ends : Tree → List Tree → List Tree × Tree
ends c [] = ([], c)
ends c (d ∷ ds) = let (cs, last) = ends d ds in (c ∷ cs, last)

abbrev returned_text : List Tree × Tree → Result Bytes
returned_text (cs, token t) = ok t
returned_text (cs, _) = slice_from (text_of (trees cs)) 2

abbrev value : List Tree → Result Bytes
value [] = panic
value (c ∷ cs) = returned_text (ends c cs)

ends-append : (c : Tree) (cs : List Tree) (d : Tree) → ends c (cs ++ (d ∷ [])) ≡ (c ∷ cs, d)
ends-append c [] d = refl
ends-append c (b ∷ cs) d = ap (λ x. (c ∷ x.0, x.1)) (ends-append b cs d)

pub value-behind :
    (cs : List Tree) (i : Trees)
    → value (cs ++ (group index_of i ∷ [])) ≡ slice_from (text_of (trees cs)) 2
value-behind [] i = refl
value-behind (c ∷ cs) i = ap returned_text (ends-append c cs (group index_of i))

abbrev run_trees : Trees → StringMap → Result StringMap
run_trees (next_tree (whole cs) none_left) m = run_trees cs m
run_trees (next_tree (group b c) (next_tree (group b' (next_tree (whole cs) none_left)) none_left))
      m =
    let inside = run_trees cs m in if holds (listed c) then inside else ok m
run_trees (next_tree (token p) (next_tree i (next_tree o (next_tree s (next_tree j none_left)))))
      m =
    set_raw (text s) m
run_trees _ m = ok m

abbrev truth : Trees → Bool
truth (next_tree (number n) none_left) = n == 1
truth _ = false

abbrev with_truth : Result Bytes → Bool → Result (Bytes × Bool)
with_truth r b = r >>= λ v. ok (v, b)

abbrev result_trees : Trees → Result (Bytes × Bool)
result_trees
      (next_tree (group i c) (
        next_tree (group b (next_tree (whole chosen_part) none_left)) (
          next_tree
            (keyword w)
            (next_tree (group b' (next_tree (whole other_part) none_left)) none_left)))) =
    let first = result_trees chosen_part in
    let second = result_trees other_part in if holds (listed c) then first else second
result_trees
      (next_tree
        (group r (
          next_tree
            (whole
              (next_tree (group l (next_tree (whole t) (next_tree (whole b) none_left))) none_left))
            none_left))
        none_left) =
    with_truth (value (listed t)) (truth b)
result_trees _ = panic

abbrev defined : Group tree_jen → Bytes → Bytes
defined [] k = []
defined ((token c ∷ o ∷ token v ∷ []) ∷ rest) k =
    let later = defined rest k in if equal c k then v else later
defined ((token c ∷ t ∷ o ∷ token v ∷ []) ∷ rest) k =
    let later = defined rest k in if equal c k then v else later
defined (_ ∷ rest) k = []

abbrev switched : Group tree_jen → List Tree → Bytes → Option (Result (Bytes × Bool))
switched consts [] key = none
switched consts
      (whole
          (next_tree (group b (next_tree (whole (next_tree (token c) none_left)) none_left)) body)
        ∷ rest)
      key =
    let later = switched consts rest key in
    if equal key (defined consts c) then some (result_trees body) else later
switched consts (_ ∷ rest) key = none

abbrev exec : Group tree_jen → StringMap → StringMap → Result StringMap
exec [] flags m = panic
exec ((group return_of (next_tree (whole (next_tree x none_left)) none_left) ∷ []) ∷ rest) flags m =
    ok m
exec
      ((group return_of (next_tree (whole (next_tree x (next_tree f none_left))) none_left) ∷ [])
        ∷ rest)
      flags m =
    ok flags
exec ((token p ∷ more) ∷ rest) flags m = exec rest flags []
exec ((keyword w ∷ more) ∷ rest) flags m = exec rest flags m
exec ((group for_of h ∷ more) ∷ rest) flags m = exec rest flags (copy_flags flags m)
exec ((whole b ∷ more) ∷ rest) flags m = run_trees (trees (whole b ∷ more)) m >>= exec rest flags
exec ((group if_of c ∷ more) ∷ rest) flags m =
    run_trees (trees (group if_of c ∷ more)) m >>= exec rest flags
exec (_ ∷ rest) flags m = panic

abbrev answer : Group tree_jen → Group tree_jen → StringMap → Bytes → Result (Bytes × Bool)
answer consts [] flags key = panic
answer consts ((group switch_of t ∷ group b cases ∷ []) ∷ rest) flags key =
    let later = answer consts rest flags key in
    elim (switched consts (listed cases) key) [ some r ↦ r | none ↦ later ]
answer consts ((keyword w ∷ more) ∷ rest) flags key = answer consts rest flags key
answer consts ((group list_of c ∷ more) ∷ rest) flags key = ok (map_get flags key)
answer consts (_ ∷ rest) flags key = panic

pub holds-listed : (c : List Tree) → holds (listed (trees c)) ≡ holds c
holds-listed c = ap holds (listed-trees c)

pub run-if :
    (c b : List Tree) (m : StringMap)
    → run_trees
        (trees
          (group if_of (trees c) ∷ group block_of (next_tree (whole (trees b)) none_left) ∷ []))
        m
      ≡ (if holds c then run_trees (trees b) m else ok m)
run-if c b m = ap (λ x. if x then run_trees (trees b) m else ok m) (holds-listed c)

pub result-return :
    (t : List Tree) (b : Bool)
    → with_truth (value (listed (trees t))) ((if b then 1 else 0) == 1) ≡ with_truth (value t) b
result-return t true = rw (listed-trees t) refl
result-return t false = rw (listed-trees t) refl

pub defined-here :
    (c t v : Bytes) (typed : Bool) (rest : Group tree_jen)
    → defined (declared tree_jen c typed t v ∷ rest) c ≡ v
defined-here c t v true rest = rw (equal_refl c) refl
defined-here c t v false rest = rw (equal_refl c) refl

pub defined-behind :
    (c t v k : Bytes) (typed : Bool) (rest : Group tree_jen)
    → equal c k ≡ false
    → defined (declared tree_jen c typed t v ∷ rest) k ≡ defined rest k
defined-behind c t v k true rest h = rw h refl
defined-behind c t v k false rest h = rw h refl

pub exec-setting :
    (b : Statement tree_jen) (rest : Group tree_jen) (flags m : StringMap)
    → IsSetting tree_jen b
    → exec (b ∷ rest) flags m ≡ (run_trees (trees b) m >>= exec rest flags)
exec-setting b rest flags m (t, inl e) = rw e refl
exec-setting b rest flags m (t, inr (c, e)) = rw e refl

pub answer-switch :
    (consts cases : Group tree_jen) (key : Bytes) (later : Result (Bytes × Bool))
    → elim (switched consts (listed (trees (codes_of tree_jen cases))) key) [
      | some r ↦ r
      | none ↦ later
    ]
      ≡ elim (switched consts (codes_of tree_jen cases) key) [ some r ↦ r | none ↦ later ]
answer-switch consts cases key later =
    ap (λ l. elim (switched consts l key) [ some r ↦ r | none ↦ later ])
      (listed-trees (codes_of tree_jen cases))

abbrev pub tree_meaning : Meaning tree_jen
tree_meaning = record {
  field = fields;
  is_set = sets;
  text = text;
  holds = holds;
  value = value;
  run = λ cs m. run_trees (trees cs) m;
  result = λ cs. result_trees (trees cs);
  switched = switched;
  defined = defined;
  exec = exec;
  answer = answer;
  text-field = λ x name. refl;
  holds-is_set = λ x name. refl;
  value-slice = λ cs. value-behind cs _;
  value-literal = λ t. refl;
  run-set = λ s m. refl;
  run-inline = λ b m. refl;
  run-if = run-if;
  result-return = result-return;
  result-if = λ c a b.
      ap (λ x. if x then result_trees (trees a) else result_trees (trees b)) (holds-listed c);
  switched-end = λ consts key. refl;
  switched-case = λ consts c body rest key. refl;
  defined-here = defined-here;
  defined-behind = defined-behind;
  exec-flags = λ x flags m. refl;
  exec-make = λ rest flags m. refl;
  exec-line = λ rest flags m. refl;
  exec-copy = λ x rest flags m. refl;
  exec-setting = exec-setting;
  exec-return = λ flags m. refl;
  answer-switch = λ consts cases rest t flags key.
      answer-switch consts cases key (answer consts rest flags key);
  answer-line = λ consts rest flags key. refl;
  answer-lookup = λ x consts flags key. refl;
}
