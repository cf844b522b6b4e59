-- ===== src/Util/DepthLimit/Tests.antt =====
-- Runs of limitDepth.ts over small documents, and its theorems at one of them.
use graphqlade.Common.{ℕ, String, ◌≡◌, refl, none, [], ◌∷◌, ◌⊎◌, ◌↔◌, ok, thrown}
use graphqlade.Graphql.{
  Selections, field_node, fragment_spread, no_selections, select, operation, fragment,
  OperationKind, Document,
}
use graphqlade.Graphql.Visit.{Visitor, walk_definitions}
use graphqlade.Util.DepthLimit.{Stop, circular, too_deep, limit_depth}
use graphqlade.Util.DepthLimit.Arrival.{IsShallow}
use graphqlade.Util.DepthLimit.Correct.{IsVisit, limit_depth_iff}
use graphqlade.Util.DepthLimit.Endings.{limit_depth-ends}

unfoldable pub walk_visit : Document → Visitor ℕ Stop → ℕ → Stop ⊎ ℕ
walk_visit document v s = walk_definitions v document.definitions s

pub walk_visit-IsVisit : IsVisit walk_visit
unfolding walk_visit
walk_visit-IsVisit = λ document v s. refl

-- { a { ...F __type { b { c { d } } } } } fragment F on T { e }
abbrev leaf : String → Selections
leaf name = select (field_node name no_selections) no_selections

abbrev spreading : Selections → Document
spreading below = record {
  definitions =
      operation OperationKind.query none (
        select
          (field_node "a" (
            select (fragment_spread "F") (
              select
                (field_node "__type" (
                  select (field_node "b" (select (field_node "c" (leaf "d")) no_selections))
                    no_selections))
                no_selections)))
          no_selections)
      ∷ fragment "F" below
      ∷ [];
}

passed : limit_depth walk_visit (spreading (leaf "e")) 1 ≡ ok tt
unfolding limit_depth walk_visit walk_definitions
passed = refl

stopped : limit_depth walk_visit (spreading (leaf "e")) 0 ≡ thrown too_deep
unfolding limit_depth walk_visit walk_definitions
stopped = refl

stopped_circular :
    limit_depth walk_visit (spreading (select (fragment_spread "F") no_selections)) 5
    ≡ thrown circular
unfolding limit_depth walk_visit walk_definitions
stopped_circular = refl

limit_depth_iff_example :
    (limit_depth walk_visit (spreading (leaf "e")) 1 ≡ ok tt) ↔ IsShallow (spreading (leaf "e")) 1
limit_depth_iff_example = limit_depth_iff walk_visit walk_visit-IsVisit (spreading (leaf "e")) 1

limit_depth-ends_example :
    (limit_depth walk_visit (spreading (leaf "e")) 1 ≡ ok tt)
    ⊎ (limit_depth walk_visit (spreading (leaf "e")) 1 ≡ thrown circular)
    ⊎ (limit_depth walk_visit (spreading (leaf "e")) 1 ≡ thrown too_deep)
limit_depth-ends_example = limit_depth-ends walk_visit walk_visit-IsVisit (spreading (leaf "e")) 1
