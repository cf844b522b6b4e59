-- ===== src/Util/DepthLimit/Endings.antt =====
-- How the recursion of limitDepth.ts ends.
use graphqlade.Common.{
  ℕ, zero, suc, ◌-◌, ltb, if_split, String, ◌≡◌, refl, ◌⊎◌, inl, inr, Bool, true, false, List, [],
  ◌∷◌, ◌++◌, length, Distinct, ◌∈◌, mem-append_left, mem-append_right, string_eq, Bool-cases,
  if◌then◌else◌, arith, ok, thrown,
}
use graphqlade.Graphql.{
  Selections, field_node, inline_fragment, fragment_spread, no_selections, select, Definition,
  operation, fragment, Document,
}
use graphqlade.Graphql.Visit.{
  Entry, enters, skips, Visitor, after, around, walk, walk_definition, walk_definitions,
}
use graphqlade.Util.DepthLimit.{
  Stop, fails, is_introspection, is_circular, is_empty, is_last, last, spreads, spreads_in, visitor,
  enter_operation, enter_fragment, enter_field, enter_spread, circular, too_deep, traverse,
  limit_depth,
}
use graphqlade.Util.DepthLimit.Paths.{is_circular_iff, Distinct-snoc}
use graphqlade.Util.DepthLimit.Known.{
  names_of, AreKnown, AreKnown-field, AreKnown-inline, AreKnown-spread,
}
use graphqlade.Util.DepthLimit.Fuel.{IsFuelled, IsFuelled-pos, IsFuelled-snoc}
use graphqlade.Util.DepthLimit.Correct.{IsVisit}

-- An end with no lack of fuel.
abbrev Ends : Stop ⊎ ℕ → Type 0
Ends r = ((end : ℕ) × (r ≡ inr end)) ⊎ (r ≡ inl (fails circular)) ⊎ (r ≡ inl (fails too_deep))

after-Ends :
    (r : Stop ⊎ ℕ) (next : ℕ → Stop ⊎ ℕ)
    → Ends r
    → ((middle : ℕ) → Ends (next middle))
    → Ends (after r next)
after-Ends r next (inl (middle, e)) k = rw e (k middle)
after-Ends r next (inr (inl e)) k = rw e (inr (inl refl))
after-Ends r next (inr (inr e)) k = rw e (inr (inr refl))

module _ (visit : Document → Visitor ℕ Stop → ℕ → Stop ⊎ ℕ) (walks : IsVisit visit)
    (document : Document) (max_depth : ℕ) where
  abbrev go : ℕ → List String → ℕ → Stop ⊎ ℕ
  go = traverse visit document max_depth

  field-Ends :
      (name : String) (level : ℕ) (below : ℕ → Stop ⊎ ℕ)
      → ((inner : ℕ) → Ends (below inner))
      → Ends (around (enter_field visit document max_depth name level) below (λ l. l - 1))
  unfolding enter_field
  field-Ends name level below k =
      let P = λ (entry : Entry ℕ Stop). Ends (around entry below (λ l. l - 1)) in
      if_split P (is_introspection name) (λ _. inl (level, refl))
        (λ _.
          if_split P (ltb max_depth level) (λ _. inr (inr refl))
            (λ _.
              after-Ends (below (suc level)) (λ t. inr (t - 1)) (k (suc level))
                (λ t. inl (t - 1, refl))))

  spread-Ends :
      (again : List String → ℕ → Stop ⊎ ℕ) (path : List String) (name : String) (level : ℕ)
      → Ends (again (path ++ name ∷ []) level)
      → Ends (
          around
            (enter_spread visit document max_depth again path name level)
            (λ t. inr t)
            (λ t. t))
  unfolding enter_spread
  spread-Ends again path name level (inl (end, e)) = rw (e, enter_spread) (inl (level, refl))
  spread-Ends again path name level (inr (inl e)) = rw (e, enter_spread) (inr (inl refl))
  spread-Ends again path name level (inr (inr e)) = rw (e, enter_spread) (inr (inr refl))

  around_if-Ends :
      (b : Bool) (level : ℕ) (below : ℕ → Stop ⊎ ℕ)
      → Ends (below level)
      → Ends (around (if b then enters level else skips level) below (λ t. t))
  around_if-Ends false level below h = inl (level, refl)
  around_if-Ends true level below h = after-Ends (below level) (λ t. inr t) h (λ t. inl (t, refl))

  walk_definitions-Ends :
      (again : List String → ℕ → Stop ⊎ ℕ) (path : List String) (ds : List Definition)
      → ((below : Selections)
          → ((name : String) → name ∈ spreads below → name ∈ spreads_in ds)
          → (level : ℕ) → Ends (walk (visitor visit document max_depth again path) below level))
      → (level : ℕ) → Ends (walk_definitions (visitor visit document max_depth again path) ds level)
  unfolding walk_definitions walk_definition visitor enter_operation enter_fragment spreads_in
  walk_definitions-Ends again path [] h level = inl (level, refl)
  walk_definitions-Ends again path (operation kind n below ∷ ds) h level =
      after-Ends _ _
        (around_if-Ends (is_empty path) level _
          (h below (λ name m. mem-append_left name (spreads below) (spreads_in ds) m) level))
        (walk_definitions-Ends again path ds
          (λ b k. h b (λ name m. mem-append_right name (spreads below) (spreads_in ds) (k name m))))
  walk_definitions-Ends again path (fragment n below ∷ ds) h level =
      after-Ends _ _
        (around_if-Ends (is_last n (last path)) level _
          (h below (λ name m. mem-append_left name (spreads below) (spreads_in ds) m) level))
        (walk_definitions-Ends again path ds
          (λ b k. h b (λ name m. mem-append_right name (spreads below) (spreads_in ds) (k name m))))
  walk_definitions-Ends again path (_ ∷ ds) h level = walk_definitions-Ends again path ds h level

  traverse-Ends :
      (fuel : ℕ) (path : List String) (level : ℕ)
      → (Distinct path
          → (below : Selections) → AreKnown document below
          → (l : ℕ) → Ends (walk (visitor visit document max_depth (go fuel) path) below l))
      → Ends (go (suc fuel) path level)
  unfolding traverse
  traverse-Ends fuel path level h = elim (Bool-cases (is_circular path)) [
    | inl repeats ↦ rw repeats (inr (inl refl))
    | inr straight ↦
        rw (straight, walks document (visitor visit document max_depth (go fuel) path) level)
          (walk_definitions-Ends (go fuel) path document.definitions
            (h ((is_circular_iff path).0 straight)) level)
  ]

  walk-Ends :
      (fuel : ℕ) (path : List String) (sels : Selections)
      → IsFuelled document fuel path
      → AreKnown document sels
      → (level : ℕ) → Ends (walk (visitor visit document max_depth (go fuel) path) sels level)
  unfolding walk visitor
  walk-Ends fuel path no_selections h k level = inl (level, refl)
  walk-Ends fuel path (select (field_node name below) rest) h k level =
      let (k', k'') = AreKnown-field document name below rest k in
      after-Ends _ _ (field-Ends name level _ (walk-Ends fuel path below h k'))
        (walk-Ends fuel path rest h k'')
  walk-Ends fuel path (select (inline_fragment below) rest) h k level =
      let (k', k'') = AreKnown-inline document below rest k in
      after-Ends _ _ (walk-Ends fuel path below h k' level) (walk-Ends fuel path rest h k'')
  walk-Ends zero path (select (fragment_spread name) rest) h k level =
      absurd (IsFuelled-pos document path h)
  walk-Ends (suc fuel) path (select (fragment_spread name) rest) h k level =
      let (m, k') = AreKnown-spread document name rest k in
      after-Ends _ _
        (spread-Ends (go (suc fuel)) path name level (
          traverse-Ends fuel (path ++ name ∷ []) level (λ d below known.
            walk-Ends fuel (path ++ name ∷ []) below
              (IsFuelled-snoc document fuel path name h m ((Distinct-snoc path name).0 d).1)
              known)))
        (walk-Ends (suc fuel) path rest h k')

  -- If `visit` is the walk that graphql documents, then for every document the code returns or
  -- throws one of its two errors: the recursion through fragment spreads ends, whatever circles
  -- there are.
  pub limit_depth-ends :
      (limit_depth visit document max_depth ≡ ok tt)
      ⊎ (limit_depth visit document max_depth ≡ thrown circular)
      ⊎ (limit_depth visit document max_depth ≡ thrown too_deep)
  unfolding limit_depth
  limit_depth-ends =
      let fuel = suc (length (names_of document)) in
      elim (traverse-Ends fuel [] 0 (λ d below known.
        walk-Ends fuel [] below (record { straight = tt; known = tt; enough = omega arith })
          known)) [
            | inl (end, e) ↦ inl (rw e refl)
            | inr (inl e) ↦ inr (inl (rw e refl))
            | inr (inr e) ↦ inr (inr (rw e refl))
          ]
