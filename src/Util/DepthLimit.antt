-- ===== src/Util/DepthLimit.antt =====
-- src/util/limitDepth.ts. graphql's `visit` is a parameter. The variable `currentDepth` starts at -1:
-- `level` is `currentDepth + 1`. The recursion through fragment spreads takes fuel, one unit for each
-- spread of the document and two more.
pub mod Paths
pub mod Arrival
pub mod Passes
pub mod Known
pub mod Fuel
pub mod Correct
pub mod Endings
pub mod Tests
use graphqlade.Common.{
  ℕ, zero, suc, ◌+◌, ◌-◌, ltb, nat_beq, String, Bool, true, false, not, ◌||◌, Option, none, some,
  List, [], ◌∷◌, ◌++◌, length, if◌then◌else◌, Thrown, error, ErrorClass, Result, ok, thrown,
  plain_error, throw_type_error, ◌⊎◌, inl, inr, ◌===◌, string_eq,
}
use text.Mathlib.Text.{starts_with}
use graphqlade.Graphql.{
  Selections, field_node, inline_fragment, fragment_spread, no_selections, select, Definition,
  operation, fragment, Document,
}
use graphqlade.Graphql.Visit.{Entry, enters, skips, raises, Visitor}

-- `names.indexOf(name)`
unfoldable pub index_of : String → List String → Option ℕ
index_of name [] = none
index_of name (other ∷ names) =
    if other === name
    then some 0
    else elim (index_of name names) [ none ↦ none | some i ↦ some (suc i) ]

-- `i !== fragmentSpreads.indexOf(f)`
abbrev pub differs : ℕ → Option ℕ → Bool
differs i none = true
differs i (some j) = not (nat_beq i j)

unfoldable pub repeats_from : ℕ → List String → List String → Bool
unfolding index_of
repeats_from i all [] = false
repeats_from i all (f ∷ rest) = differs i (index_of f all) || repeats_from (suc i) all rest

-- `fragmentSpreads.some((f, i) => i !== fragmentSpreads.indexOf(f))`
unfoldable pub is_circular : List String → Bool
unfolding repeats_from
is_circular fragment_spreads = repeats_from 0 fragment_spreads fragment_spreads

-- `fragmentSpreads[fragmentSpreads.length - 1]`
unfoldable pub last : List String → Option String
last [] = none
last (f ∷ []) = some f
last (f ∷ g ∷ fs) = last (g ∷ fs)

abbrev pub is_last : String → Option String → Bool
is_last name none = false
is_last name (some f) = name === f

-- `name.match(/^__/)`
abbrev pub is_introspection : String → Bool
is_introspection name = starts_with name "__"

-- What ends the recursion early: an exception, or the end of the fuel.
pub data Stop : Type 0 where
  fails : Thrown → Stop
  exhausted : Stop

abbrev pub circular : Thrown
circular = error (record {
  class = ErrorClass.type_error;
  message = "Invalid query, contains circular fragment spreads";
  code = none;
})

abbrev pub too_deep : Thrown
too_deep = error (record {
  class = ErrorClass.type_error;
  message = "Invalid query, exceeds max depth";
  code = none;
})

abbrev pub is_empty : List String → Bool
is_empty [] = true
is_empty _ = false

-- The spreads of a document, by which the fuel is counted.
unfoldable pub spreads : Selections → List String
spreads no_selections = []
spreads (select (field_node name below) rest) = spreads below ++ spreads rest
spreads (select (inline_fragment below) rest) = spreads below ++ spreads rest
spreads (select (fragment_spread name) rest) = name ∷ spreads rest

unfoldable pub spreads_in : List Definition → List String
unfolding spreads
spreads_in [] = []
spreads_in (operation kind name below ∷ ds) = spreads below ++ spreads_in ds
spreads_in (fragment name below ∷ ds) = spreads below ++ spreads_in ds
spreads_in (_ ∷ ds) = spreads_in ds

module _ (visit : Document → Visitor ℕ Stop → ℕ → Stop ⊎ ℕ) (document : Document)
    (max_depth : ℕ) where
  -- `OperationDefinition`
  unfoldable pub enter_operation : List String → ℕ → Entry ℕ Stop
  enter_operation fragment_spreads level =
      if is_empty fragment_spreads then enters level else skips level

  -- `FragmentDefinition`
  unfoldable pub enter_fragment : List String → String → ℕ → Entry ℕ Stop
  unfolding last
  enter_fragment fragment_spreads name level =
      if is_last name (last fragment_spreads) then enters level else skips level

  -- `Field.enter`: after the increment `currentDepth` is `level`.
  unfoldable pub enter_field : String → ℕ → Entry ℕ Stop
  enter_field name level =
      if is_introspection name
      then skips level
      else if ltb max_depth level
      then raises (fails too_deep)
      else enters (suc level)

  -- `FragmentSpread`, where `again` is `traverse`.
  unfoldable pub enter_spread :
      (List String → ℕ → Stop ⊎ ℕ) → List String → String → ℕ → Entry ℕ Stop
  enter_spread again fragment_spreads name level =
      elim (again (fragment_spreads ++ name ∷ []) level) [
        | inl stop ↦ raises stop
        | inr end ↦ enters level
      ]

  unfoldable pub visitor : (List String → ℕ → Stop ⊎ ℕ) → List String → Visitor ℕ Stop
  unfolding enter_operation enter_fragment enter_field enter_spread
  visitor again fragment_spreads = record {
    enter_operation = enter_operation fragment_spreads;
    enter_fragment = enter_fragment fragment_spreads;
    enter_field = enter_field;
    leave_field = λ level. level - 1;
    enter_spread = enter_spread again fragment_spreads;
  }

  unfoldable pub traverse : ℕ → List String → ℕ → Stop ⊎ ℕ
  unfolding visitor is_circular
  traverse zero fragment_spreads level = inl exhausted
  traverse (suc fuel) fragment_spreads level =
      if is_circular fragment_spreads
      then inl (fails circular)
      else visit document (visitor (traverse fuel) fragment_spreads) level

  -- What the caller sees of the end of the recursion.
  abbrev pub result_of : Stop ⊎ ℕ → Result (Unit {0})
  result_of (inr level) = ok tt
  result_of (inl (fails t)) = thrown t
  result_of (inl exhausted) = thrown (error (plain_error "Maximum call stack size exceeded"))

  unfoldable pub limit_depth : Result (Unit {0})
  unfolding traverse spreads_in
  limit_depth = result_of (traverse (suc (suc (length (spreads_in document.definitions)))) [] 0)
