-- ===== src/Util/DepthLimit/Passes.antt =====
-- When one walk of limitDepth.ts ends without an exception.
use graphqlade.Common.{
  ℕ, suc, ◌-◌, ◌≤◌, ltb, ltb_false→le, le→ltb_false, String, ◌≡◌, refl, ◌∙◌, subst, ◌⊎◌, inl, inr,
  Bool, true, false, List, [], ◌∷◌, ◌++◌, All, string_eq, Bool-cases, if◌then◌else◌, arith,
}
use graphqlade.Graphql.{
  Selections, field_node, inline_fragment, fragment_spread, no_selections, select, Definition,
  operation, fragment, Document,
}
use graphqlade.Graphql.Visit.{
  Entry, enters, skips, raises, Visitor, after, around, walk, walk_definition, walk_definitions,
}
use graphqlade.Util.DepthLimit.{
  Stop, fails, is_introspection, is_empty, is_last, last, too_deep, enter_operation, enter_fragment,
  enter_field, enter_spread, visitor,
}

-- The parameters of the code, and one level of its recursion.
module _ (visit : Document → Visitor ℕ Stop → ℕ → Stop ⊎ ℕ) (document : Document) (max_depth : ℕ)
    (again : List String → ℕ → Stop ⊎ ℕ) where
  abbrev pub Returns : List String → ℕ → Type 0
  Returns path level = (end : ℕ) × (again path level ≡ inr end)

  abbrev pub Passes : List String → ℕ → Selections → Type 0
  Passes path level no_selections = Unit
  Passes path level (select (field_node name below) rest) =
      ((is_introspection name ≡ true)
        ⊎ (is_introspection name ≡ false) × (level ≤ max_depth) × Passes path (suc level) below)
      × Passes path level rest
  Passes path level (select (inline_fragment below) rest) =
      Passes path level below × Passes path level rest
  Passes path level (select (fragment_spread name) rest) =
      Returns (path ++ name ∷ []) level × Passes path level rest

  abbrev here : List String → Visitor ℕ Stop
  here path = visitor visit document max_depth again path

  after-inr :
      (r : Stop ⊎ ℕ) (next : ℕ → Stop ⊎ ℕ) (end : ℕ)
      → after r next ≡ inr end
      → (middle : ℕ) × (r ≡ inr middle) × (next middle ≡ inr end)
  after-inr (inl stop) next end e = cc
  after-inr (inr middle) next end e = (middle, refl, e)

  -- What a field that does not throw has done.
  abbrev Entered : String → ℕ → ℕ → (ℕ → Stop ⊎ ℕ) → Type 0
  Entered name level middle body =
      ((is_introspection name ≡ true) × (middle ≡ level))
      ⊎ (is_introspection name ≡ false)
        × (level ≤ max_depth)
        × ((inner : ℕ) × (body (suc level) ≡ inr inner) × (middle ≡ inner - 1))

  field-Entered :
      (name : String) (level middle : ℕ) (body : ℕ → Stop ⊎ ℕ)
      → around (enter_field visit document max_depth name level) body (λ l. l - 1) ≡ inr middle
      → Entered name level middle body
  unfolding enter_field
  field-Entered name level middle body e = elim (Bool-cases (is_introspection name)) [
    | inl hidden ↦ inl (hidden, cc (rw (hidden, enter_field) at e))
    | inr shown ↦ elim (Bool-cases (ltb max_depth level)) [
      | inl deep ↦ absurd (stuck deep (rw (shown, enter_field) at e))
      | inr fits ↦
          inr
            (shown, ltb_false→le max_depth level fits, entered fits (rw (shown, enter_field) at e))
    ]
  ]
    where
      go : Entry ℕ Stop → Stop ⊎ ℕ
      go entry = around entry body (λ l. l - 1)

      stuck :
          ltb max_depth level ≡ true
          → go (if ltb max_depth level then raises (fails too_deep) else enters (suc level))
            ≡ inr middle
          → ⊥
      stuck deep e' = cc (rw deep at e')

      entered :
          ltb max_depth level ≡ false
          → go (if ltb max_depth level then raises (fails too_deep) else enters (suc level))
            ≡ inr middle
          → (inner : ℕ) × (body (suc level) ≡ inr inner) × (middle ≡ inner - 1)
      entered fits e' =
          let (inner, first, second) =
            after-inr (body (suc level)) (λ t. inr (t - 1)) middle (rw fits at e') in
          (inner, first, cc second)

  spread-Returns :
      (path : List String) (name : String) (level middle : ℕ)
      → around (enter_spread visit document max_depth again path name level) (λ t. inr t) (λ t. t)
        ≡ inr middle
      → Returns (path ++ name ∷ []) level × (middle ≡ level)
  unfolding enter_spread
  spread-Returns path name level middle e = by_outcome (again (path ++ name ∷ []) level) refl
    where
      by_outcome :
          (r : Stop ⊎ ℕ)
          → again (path ++ name ∷ []) level ≡ r
          → Returns (path ++ name ∷ []) level × (middle ≡ level)
      by_outcome (inl stop) same = cc (rw (same, enter_spread) at e)
      by_outcome (inr end) same = ((end, same), cc (rw (same, enter_spread) at e))

  -- A walk that returns leaves the level as it was.
  walk-Passes :
      (path : List String) (level end : ℕ) (sels : Selections)
      → walk (here path) sels level ≡ inr end
      → (end ≡ level) × Passes path level sels
  unfolding walk visitor
  walk-Passes path level end no_selections e = (cc, tt)
  walk-Passes path level end (select (field_node name below) rest) e =
      let (middle, first, second) =
        after-inr
          (around (enter_field visit document max_depth name level) (walk (here path) below)
            (λ l. l - 1))
          (walk (here path) rest) end e in
      let (same', passes') = walk-Passes path middle end rest second in
      elim (field-Entered name level middle (walk (here path) below) first) [
        | inl (hidden, same) ↦
            (same' ∙ same, (inl hidden, subst (λ l. Passes path l rest) same passes'))
        | inr (shown, fits, (inner, returned, left)) ↦
            let (below_same, passes) = walk-Passes path (suc level) inner below returned in
            let same : middle ≡ level = omega (arith, left, below_same) in
            (
              same' ∙ same,
              (inr (shown, fits, passes), subst (λ l. Passes path l rest) same passes'),
            )
      ]
  walk-Passes path level end (select (inline_fragment below) rest) e =
      let (middle, first, second) = after-inr (walk (here path) below level) _ end e in
      let (same, passes) = walk-Passes path level middle below first in
      let (same', passes') = walk-Passes path middle end rest second in
      (same' ∙ same, (passes, subst (λ l. Passes path l rest) same passes'))
  walk-Passes path level end (select (fragment_spread name) rest) e =
      let (middle, first, second) =
        after-inr
          (around (enter_spread visit document max_depth again path name level) (λ t. inr t)
            (λ t. t))
          (walk (here path) rest) end e in
      let (returns, same) = spread-Returns path name level middle first in
      let (same', passes') = walk-Passes path middle end rest second in
      (same' ∙ same, (returns, subst (λ l. Passes path l rest) same passes'))

  -- And a walk returns where nothing stops it.
  Passes-walk :
      (path : List String) (level : ℕ) (sels : Selections)
      → Passes path level sels
      → walk (here path) sels level ≡ inr level
  unfolding walk visitor enter_field enter_spread
  Passes-walk path level no_selections h = refl
  Passes-walk path level (select (field_node name below) rest) (inl hidden, h) =
      rw hidden (Passes-walk path level rest h)
  Passes-walk path level (select (field_node name below) rest) (inr (shown, fits, passes), h) =
      rw (shown, le→ltb_false max_depth level fits, Passes-walk path (suc level) below passes)
        (subst (λ l. walk (here path) rest l ≡ inr level) (omega arith)
          (Passes-walk path level rest h))
  Passes-walk path level (select (inline_fragment below) rest) (passes, h) =
      rw (Passes-walk path level below passes) (Passes-walk path level rest h)
  Passes-walk path level (select (fragment_spread name) rest) ((end, returned), h) =
      rw (returned, enter_spread) (Passes-walk path level rest h)

  -- The definitions that a walk enters.
  abbrev pub PassesDefinition : List String → ℕ → Definition → Type 0
  PassesDefinition path level (operation kind name below) =
      is_empty path ≡ true → Passes path level below
  PassesDefinition path level (fragment name below) =
      is_last name (last path) ≡ true → Passes path level below
  PassesDefinition path level _ = Unit

  around_if-Passes :
      (path : List String) (level end : ℕ) (b : Bool) (below : Selections)
      → around (if b then enters level else skips level) (walk (here path) below) (λ t. t) ≡ inr end
      → (end ≡ level) × (b ≡ true → Passes path level below)
  around_if-Passes path level end false below e = (cc, λ h. cc)
  around_if-Passes path level end true below e =
      let (middle, first, second) = after-inr (walk (here path) below level) (λ t. inr t) end e in
      let (same, passes) = walk-Passes path level middle below first in (cc, λ h. passes)

  Passes-around_if :
      (path : List String) (level : ℕ) (b : Bool) (below : Selections)
      → (b ≡ true → Passes path level below)
      → around (if b then enters level else skips level) (walk (here path) below) (λ t. t)
        ≡ inr level
  Passes-around_if path level false below h = refl
  Passes-around_if path level true below h = rw (Passes-walk path level below (h refl)) refl

  walk_definition-Passes :
      (path : List String) (level end : ℕ) (d : Definition)
      → walk_definition (here path) d level ≡ inr end
      → (end ≡ level) × PassesDefinition path level d
  unfolding walk_definition visitor enter_operation enter_fragment
  walk_definition-Passes path level end (operation kind name below) e =
      around_if-Passes path level end (is_empty path) below e
  walk_definition-Passes path level end (fragment name below) e =
      around_if-Passes path level end (is_last name (last path)) below e
  walk_definition-Passes path level end _ e = (cc, tt)

  Passes-walk_definition :
      (path : List String) (level : ℕ) (d : Definition)
      → PassesDefinition path level d
      → walk_definition (here path) d level ≡ inr level
  unfolding walk_definition visitor enter_operation enter_fragment
  Passes-walk_definition path level (operation kind name below) h =
      Passes-around_if path level (is_empty path) below h
  Passes-walk_definition path level (fragment name below) h =
      Passes-around_if path level (is_last name (last path)) below h
  Passes-walk_definition path level _ h = refl

  pub walk_definitions-Passes :
      (path : List String) (level end : ℕ) (ds : List Definition)
      → walk_definitions (here path) ds level ≡ inr end
      → (end ≡ level) × All (PassesDefinition path level) ds
  unfolding walk_definitions
  walk_definitions-Passes path level end [] e = (cc, tt)
  walk_definitions-Passes path level end (d ∷ ds) e =
      let (middle, first, second) =
        after-inr (walk_definition (here path) d level) (walk_definitions (here path) ds) end e in
      let (same, passes) = walk_definition-Passes path level middle d first in
      let (same', rest) = walk_definitions-Passes path middle end ds second in
      (same' ∙ same, (passes, subst (λ l. All (PassesDefinition path l) ds) same rest))

  pub Passes-walk_definitions :
      (path : List String) (level : ℕ) (ds : List Definition)
      → All (PassesDefinition path level) ds
      → walk_definitions (here path) ds level ≡ inr level
  unfolding walk_definitions
  Passes-walk_definitions path level [] h = refl
  Passes-walk_definitions path level (d ∷ ds) (passes, h) =
      rw (Passes-walk_definition path level d passes) (Passes-walk_definitions path level ds h)
