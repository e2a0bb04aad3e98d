-- ===== src/Generator/StructGenerator/Meaning/Bodies.antt =====
-- protocol/generator/struct_generator.go: the bodies of the generated Named and NamedGet, for a
-- message prepared with the basic mapper.
use mathlib.Core.List.{map}
use adcl.Prelude.{
  ◌≡◌, refl, ap, ◌∙◌, sym, Bool, true, false, Bytes, List, [], ◌∷◌, ◌++◌, codes, ok, >>=_ok, equal,
  equal_iff, All, length, ◌==◌, drop, drop_append, Bool-cases, inl, inr,
}
use adcl.Message.Params.{StringMap, map_get}
use adcl.Message.Content.Tables.{copy_flags, named_with}
use adcl.Message.Content.Tables.Lookup.{IsPlaced, AreDistinct, IsMap}
use adcl.Message.Content.Tables.Careful.{AreOthers, named_with-careful_get}
use adcl.Generator.Jen.{Jen, Group, line_word, return_of}
use adcl.Generator.MessageModel.{Param, Message}
use adcl.Generator.Mappers.{flag_name_from_param}
use adcl.Generator.StructGenerator.{StructGenerator}
use adcl.Generator.StructGenerator.Params.{
  named_get_end, generate_flag_constants, generate_named, generate_named_get,
}
use adcl.Generator.StructGenerator.Prepared.{prepared}
use adcl.Generator.StructGenerator.Methods.{flag_constant, typed_first, named_methods}
use adcl.Generator.StructGenerator.Meaning.{Meaning}
use adcl.Generator.StructGenerator.Meaning.Agree.{
  table, AreDefined, exec-guarded_set, answer-careful_get,
}

append_cancel : (f a b : Bytes) → f ++ a ≡ f ++ b → a ≡ b
append_cancel f a b e =
    sym (drop_append (length f) f a refl) ∙ ap (drop (length f)) e ∙ drop_append (length f) f b refl

All-pointwise :
    {P Q : Param → Type 0} (ps : List Param) → ((p : Param) → P p → Q p) → All P ps → All Q ps
All-pointwise [] f h = tt
All-pointwise (p ∷ ps) f (h, hs) = (f p h, All-pointwise ps f hs)

module _ (J : Jen) (G : Meaning J) where
  open G use {defined, exec, answer}

  module _ (s : StructGenerator J) where
    -- A further declaration in front does not change what a constant is.
    defined_behind :
        (typed : Bool) (q p : Param) (rest : Group J)
        → defined rest (s.flag_type_name ++ flag_name_from_param p) ≡ flag_name_from_param p
        → defined (flag_constant J s typed q ∷ rest) (s.flag_type_name ++ flag_name_from_param p)
          ≡ flag_name_from_param p
    defined_behind typed q p rest h =
        let f = s.flag_type_name in
        let first = flag_name_from_param q in
        let name = flag_name_from_param p in
        elim (Bool-cases (equal (f ++ first) (f ++ name))) [
          | inl same ↦
              let is = (equal_iff (f ++ first) (f ++ name)).0 same in
              ap (defined (flag_constant J s typed q ∷ rest)) (sym is)
              ∙ G.defined-here (f ++ first) f first typed rest
              ∙ append_cancel f first name is
          | inr other ↦ G.defined-behind (f ++ first) f first (f ++ name) typed rest other ∙ h
        ]

    map-AreDefined : (ps : List Param) → AreDefined J G s (map (flag_constant J s false) ps) ps
    map-AreDefined [] = tt
    map-AreDefined (p ∷ ps) = (
      G.defined-here (s.flag_type_name ++ flag_name_from_param p) s.flag_type_name
          (flag_name_from_param p) false (map (flag_constant J s false) ps),
      All-pointwise ps (λ q. defined_behind false p q (map (flag_constant J s false) ps))
          (map-AreDefined ps),
    )

    typed_first-AreDefined : (ps : List Param) → AreDefined J G s (typed_first J s ps) ps
    typed_first-AreDefined [] = tt
    typed_first-AreDefined (p ∷ ps) = (
      G.defined-here (s.flag_type_name ++ flag_name_from_param p) s.flag_type_name
          (flag_name_from_param p) true (map (flag_constant J s false) ps),
      All-pointwise ps (λ q. defined_behind true p q (map (flag_constant J s false) ps))
          (map-AreDefined ps),
    )

  -- What is generated where there is a named parameter.
  named_body :
      (m : Message) (flags : StringMap)
      → (length (prepared J m).named_params == 0) ≡ false
      → exec (generate_named J (prepared J m)) flags []
        ≡ named_with (table J G m.named_params) flags
  unfolding generate_named named_with
  named_body m flags some_there =
      let s = prepared J m in
      let end =
        J.word line_word ∷ J.bracket return_of (J.statement (J.id (codes "params")) ∷ []) ∷ [] in
      let (_, sets, _) = named_methods J m in
      rw (some_there, sets)
        (G.exec-make _ flags []
          ∙ G.exec-line _ flags []
          ∙ G.exec-copy s.type_letter _ flags []
          ∙ G.exec-line _ flags (copy_flags flags [])
          ∙ exec-guarded_set J G s m.named_params end flags (copy_flags flags [])
          ∙ >>=_ok _ (exec end flags) (λ r. G.exec-line _ flags r ∙ G.exec-return flags r))

  answer_end :
      (s : StructGenerator J) (consts : Group J) (flags : StringMap) (key : Bytes)
      → answer consts (named_get_end J s) flags key ≡ ok (map_get flags key)
  answer_end s consts flags key = G.answer-lookup s.type_letter consts flags key

  -- For a message prepared with the basic mapper and a content of the generated type, by the meaning
  -- of Go: the body of the generated Named returns a map, and the body of the generated NamedGet,
  -- with the generated constants, returns for every key the entry of that map. The texts of the
  -- parameters that are there start with their flags, the flags of the parameters are distinct, and
  -- the further flags of the content are a map that has none of them.
  pub generate_named-generate_named_get :
      (m : Message) (flags : StringMap)
      → All IsPlaced (table J G m.named_params)
      → AreDistinct (table J G m.named_params)
      → IsMap flags
      → AreOthers flags (table J G m.named_params)
      → (consts body : Group J) × (r : StringMap) × (generate_flag_constants J (prepared J m)
          ≡ ok consts)
        × (generate_named_get J (prepared J m) ≡ ok body)
        × (exec (generate_named J (prepared J m)) flags [] ≡ ok r)
        × ((key : Bytes) → answer consts body flags key ≡ ok (map_get r key))
  unfolding generate_named generate_named_get
  generate_named-generate_named_get m flags hs ds hm ho =
      let s = prepared J m in
      let (consts, _, gets) = named_methods J m in
      elim (Bool-cases (length s.named_params == 0)) [
        | inl none_there ↦ (
          typed_first J s m.named_params,
          named_get_end J s,
          flags,
          consts,
          rw none_there refl,
          rw none_there (G.exec-flags s.type_letter flags []),
          answer_end s (typed_first J s m.named_params) flags,
        )
        | inr some_there ↦
            let (r, named, agree) =
              named_with-careful_get (table J G m.named_params) flags hs ds hm ho in
            (
              typed_first J s m.named_params,
              _,
              r,
              consts,
              rw (some_there, gets) refl,
              named_body m flags some_there ∙ named,
              λ key.
                  G.answer-switch (typed_first J s m.named_params) _ _ s.flag_type_name flags key
                  ∙ answer-careful_get J G s (typed_first J s m.named_params)
                      (J.word line_word ∷ named_get_end J s) m.named_params flags key
                      (typed_first-AreDefined s m.named_params)
                      (G.answer-line _ _ flags key ∙ answer_end s _ flags key)
                  ∙ agree key,
            )
      ]
