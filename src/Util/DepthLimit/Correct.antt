-- ===== src/Util/DepthLimit/Correct.antt =====
-- limitDepth.ts passes exactly the shallow documents.
use graphqlade.Common.{
  ℕ, zero, suc, ◌≤◌, String, ◌≡◌, refl, sym, ◌∙◌, subst, ◌↔◌, ◌⊎◌, inl, inr, List, [], ◌∷◌, ◌++◌,
  length, All, Distinct, ◌∈◌, All-mem, mem-All, string_eq, Bool-cases, arith, ok,
}
use graphqlade.Graphql.{
  Selections, field_node, inline_fragment, fragment_spread, no_selections, select, Definition,
  operation, fragment, Document,
}
use graphqlade.Graphql.Visit.{Visitor, walk_definitions}
use graphqlade.Util.DepthLimit.{
  Stop, fails, exhausted, is_introspection, is_circular, last, visitor, traverse, result_of,
  limit_depth,
}
use graphqlade.Util.DepthLimit.Paths.{is_circular_iff, Distinct-snoc}
use graphqlade.Util.DepthLimit.Arrival.{
  Arrives, at_operation, at_next, in_field, in_inline, in_fragment, IsShallow,
}
use graphqlade.Util.DepthLimit.Passes.{
  Passes, PassesDefinition, walk_definitions-Passes, Passes-walk_definitions,
}
use graphqlade.Util.DepthLimit.Known.{
  names_of, AreKnown, operation-spreads, fragment-spreads, AreKnown-field, AreKnown-inline,
  AreKnown-spread, is_last-snoc, is_last_snoc-eq, is_empty-snoc,
}
use graphqlade.Util.DepthLimit.Fuel.{IsFuelled, IsFuelled-pos, IsFuelled-snoc}

-- `visit` walks a document as graphql documents it.
abbrev pub IsVisit : (Document → Visitor ℕ Stop → ℕ → Stop ⊎ ℕ) → Type 0
IsVisit visit =
    (document : Document) (v : Visitor ℕ Stop) (level : ℕ)
    → visit document v level ≡ walk_definitions v document.definitions level

module _ (visit : Document → Visitor ℕ Stop → ℕ → Stop ⊎ ℕ) (walks : IsVisit visit)
    (document : Document) (max_depth : ℕ) where
  abbrev go : ℕ → List String → ℕ → Stop ⊎ ℕ
  go = traverse visit document max_depth

  abbrev PassesAt : ℕ → List String → ℕ → Selections → Type 0
  PassesAt fuel = Passes visit document max_depth (go fuel)

  traverse-Passes :
      (fuel : ℕ) (path : List String) (level end : ℕ)
      → go (suc fuel) path level ≡ inr end
      → Distinct path
        × All (PassesDefinition visit document max_depth (go fuel) path level) document.definitions
  unfolding traverse
  traverse-Passes fuel path level end e = elim (Bool-cases (is_circular path)) [
    | inl repeats ↦ cc (rw (repeats, traverse) at e)
    | inr straight ↦
        let v = visitor visit document max_depth (go fuel) path in
        let walked = rw (straight, traverse) at e in
        (
          (is_circular_iff path).0 straight,
          (walk_definitions-Passes visit document max_depth (go fuel) path level end
              document.definitions (sym (walks document v level) ∙ walked)).1,
        )
  ]

  Passes-traverse :
      (fuel : ℕ) (path : List String) (level : ℕ)
      → Distinct path
      → All (PassesDefinition visit document max_depth (go fuel) path level) document.definitions
      → go (suc fuel) path level ≡ inr level
  unfolding traverse
  Passes-traverse fuel path level d h = rw ((is_circular_iff path).1 d) (
      walks document (visitor visit document max_depth (go fuel) path) level
      ∙ Passes-walk_definitions visit document max_depth (go fuel) path level document.definitions
          h)

  fragment-Passes :
      (fuel : ℕ) (path : List String) (level end : ℕ) (name : String) (below : Selections)
      → go fuel (path ++ name ∷ []) level ≡ inr end
      → fragment name below ∈ document.definitions
      → (f : ℕ) × Distinct (path ++ name ∷ []) × PassesAt f (path ++ name ∷ []) level below
  unfolding traverse
  fragment-Passes zero path level end name below e m = cc
  fragment-Passes (suc f) path level end name below e m =
      let p = path ++ name ∷ [] in
      let (d, all) = traverse-Passes f p level end e in
      (
        f,
        d,
        All-mem (PassesDefinition visit document max_depth (go f) p level) (fragment name below)
            document.definitions all m (is_last-snoc path name),
      )

  -- Where the code returns, it has passed all that a document nests.
  Arrives-Passes :
      (fuel end : ℕ) {path : List String} {level : ℕ} {sels : Selections}
      → go (suc fuel) [] 0 ≡ inr end
      → Arrives document path level sels
      → (f : ℕ) × PassesAt f path level sels
  Arrives-Passes fuel end e (at_operation kind name below m) =
      let (d, all) = traverse-Passes fuel [] 0 end e in
      (
        fuel,
        All-mem (PassesDefinition visit document max_depth (go fuel) [] 0)
            (operation kind name below) document.definitions all m refl,
      )
  Arrives-Passes fuel end e (at_next (field_node name below) a) =
      let (f, passes) = Arrives-Passes fuel end e a in (f, passes.1)
  Arrives-Passes fuel end e (at_next (inline_fragment below) a) =
      let (f, passes) = Arrives-Passes fuel end e a in (f, passes.1)
  Arrives-Passes fuel end e (at_next (fragment_spread name) a) =
      let (f, passes) = Arrives-Passes fuel end e a in (f, passes.1)
  Arrives-Passes fuel end e (in_field name a shown) =
      let (f, passes) = Arrives-Passes fuel end e a in
      (f, elim passes.0 [ inl hidden ↦ cc (hidden, shown) | inr (_, fits, below) ↦ below ])
  Arrives-Passes fuel end e (in_inline a) =
      let (f, passes) = Arrives-Passes fuel end e a in (f, passes.0)
  Arrives-Passes fuel end {path = _} {level = level} e (in_fragment {path} name below a m) =
      let (f, passes) = Arrives-Passes fuel end e a in
      let (g, _, passes') = fragment-Passes f path level passes.0.0 name below passes.0.1 m in
      (g, passes')

  -- A spread whose fragment is walked without an exception is not inside itself.
  returned-Distinct :
      (fuel : ℕ) (path : List String) (level end : ℕ) → go fuel path level ≡ inr end → Distinct path
  unfolding traverse
  returned-Distinct zero path level end e = cc
  returned-Distinct (suc f) path level end e = (traverse-Passes f path level end e).0

  traverse-IsShallow : (fuel end : ℕ) → go (suc fuel) [] 0 ≡ inr end → IsShallow document max_depth
  traverse-IsShallow fuel end e = record {
    fits = λ path level name below rest a shown.
        let (f, passes) = Arrives-Passes fuel end e a in
        elim passes.0 [ inl hidden ↦ cc (hidden, shown) | inr (_, fits, _) ↦ fits ];
    acyclic = λ path level name rest a.
        let (f, passes) = Arrives-Passes fuel end e a in
        ((Distinct-snoc path name).0
          (returned-Distinct f (path ++ name ∷ []) level passes.0.0 passes.0.1)).1;
  }

  -- Below a spread just the fragments of its name are entered.
  fragments-Passes :
      (fuel : ℕ) (path : List String) (level : ℕ) (name : String)
      → ((below : Selections)
          → fragment name below ∈ document.definitions
          → PassesAt fuel (path ++ name ∷ []) level below)
      → (d : Definition) → d ∈ document.definitions
      → PassesDefinition visit document max_depth (go fuel) (path ++ name ∷ []) level d
  fragments-Passes fuel path level name all (operation kind n below) m =
      λ e. cc (e, is_empty-snoc path name)
  fragments-Passes fuel path level name all (fragment n below) m = λ e.
      all below
        (subst (λ f. fragment f below ∈ document.definitions) (is_last_snoc-eq path name n e) m)
  fragments-Passes fuel path level name all _ m = tt

  module _ (shallow : IsShallow document max_depth) where
    IsShallow-Passes :
        (fuel : ℕ) (path : List String) (level : ℕ) (sels : Selections)
        → IsFuelled document fuel path
        → AreKnown document sels
        → Arrives document path level sels
        → PassesAt fuel path level sels
    IsShallow-Passes fuel path level no_selections h k a = tt
    IsShallow-Passes fuel path level (select (field_node name below) rest) h k a =
        let (k', k'') = AreKnown-field document name below rest k in
        (
          elim (Bool-cases (is_introspection name)) [
            | inl hidden ↦ inl hidden
            | inr shown ↦ inr (
              shown,
              shallow.fits path level name below rest a shown,
              IsShallow-Passes fuel path (suc level) below h k' (in_field name a shown),
            )
          ],
          IsShallow-Passes fuel path level rest h k'' (at_next (field_node name below) a),
        )
    IsShallow-Passes fuel path level (select (inline_fragment below) rest) h k a =
        let (k', k'') = AreKnown-inline document below rest k in
        (
          IsShallow-Passes fuel path level below h k' (in_inline a),
          IsShallow-Passes fuel path level rest h k'' (at_next (inline_fragment below) a),
        )
    IsShallow-Passes zero path level (select (fragment_spread name) rest) h k a =
        absurd (IsFuelled-pos document path h)
    IsShallow-Passes (suc fuel) path level (select (fragment_spread name) rest) h k a =
        let (m, k') = AreKnown-spread document name rest k in
        let fresh = shallow.acyclic path level name rest a in
        let next = IsFuelled-snoc document fuel path name h m fresh in
        let below = λ (b : Selections) (m' : fragment name b ∈ document.definitions).
          IsShallow-Passes fuel (path ++ name ∷ []) level b next
            (λ n in_b. fragment-spreads name b document.definitions n m' in_b)
            (in_fragment name b a m') in
        (
          (
            level,
            Passes-traverse fuel (path ++ name ∷ []) level next.straight (
                mem-All
                  (PassesDefinition visit document max_depth (go fuel) (path ++ name ∷ []) level)
                  document.definitions (fragments-Passes fuel path level name below)),
          ),
          IsShallow-Passes (suc fuel) path level rest h k' (at_next (fragment_spread name) a),
        )

    operations-Passes :
        (fuel : ℕ)
        → IsFuelled document fuel []
        → (d : Definition) → d ∈ document.definitions
        → PassesDefinition visit document max_depth (go fuel) [] 0 d
    unfolding last
    operations-Passes fuel h (operation kind n below) m = λ e.
        IsShallow-Passes fuel [] 0 below h
          (λ name in_b. operation-spreads kind n below document.definitions name m in_b)
          (at_operation kind n below m)
    operations-Passes fuel h (fragment n below) m = λ e. cc e
    operations-Passes fuel h _ m = tt

    IsShallow-traverse :
        (fuel : ℕ) → suc (length (names_of document)) ≤ fuel → go (suc fuel) [] 0 ≡ inr 0
    IsShallow-traverse fuel enough = Passes-traverse fuel [] 0 tt (
        mem-All (PassesDefinition visit document max_depth (go fuel) [] 0) document.definitions (
          operations-Passes fuel
            (record { straight = tt; known = tt; enough = omega (arith, enough) })))

  result_of-ok :
      (r : Stop ⊎ ℕ) → result_of visit document max_depth r ≡ ok tt → (end : ℕ) × (r ≡ inr end)
  result_of-ok (inr end) e = (end, refl)
  result_of-ok (inl (fails t)) e = cc
  result_of-ok (inl exhausted) e = cc

  -- If `visit` is the walk that graphql documents, then a document passes exactly if none of its
  -- fields nests deeper than the limit, its fragments put in where they are spread, and no fragment
  -- is spread inside itself; what introspection fields select does not count.
  pub limit_depth_iff :
      (limit_depth visit document max_depth ≡ ok tt) ↔ IsShallow document max_depth
  unfolding limit_depth
  limit_depth_iff =
      let fuel = suc (length (names_of document)) in
      (
        λ e.
            let (end, returned) = result_of-ok (go (suc fuel) [] 0) e in
            traverse-IsShallow fuel end returned,
        λ shallow. rw (IsShallow-traverse shallow fuel (omega arith)) refl,
      )
