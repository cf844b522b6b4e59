-- ===== src/Graphql/Visit.antt =====
-- What graphql documents of its `visit`: a depth-first walk over a tree that calls a function of the
-- visitor on entering a node, and one on leaving it after all that is below. A function that returns
-- `false` on entering a node skips what is below it, and its leaving. A function may throw.
use graphqlade.Common.{String, List, [], ◌∷◌, ◌⊎◌, inl, inr}
use graphqlade.Graphql.{
  Selections, field_node, inline_fragment, fragment_spread, no_selections, select, Definition,
  operation, fragment,
}

-- What a function of a visitor does on entering a node, where `S` are the variables that it shares
-- with the others.
pub data Entry (S E : Type 0) : Type 0 where
  enters skips : S → Entry S E
  raises : E → Entry S E

-- A visitor, by the kinds of nodes for which there are functions.
pub record Visitor (S E : Type 0) : Type 0 where
  pub enter_operation : S → Entry S E
  pub enter_fragment : String → S → Entry S E
  pub enter_field : String → S → Entry S E
  pub leave_field : S → S
  pub enter_spread : String → S → Entry S E

module _ {S E : Type 0} where
  abbrev pub after : E ⊎ S → (S → E ⊎ S) → E ⊎ S
  after (inl e) next = inl e
  after (inr s) next = next s

  -- A node, by its entry, what is below it, and its leaving.
  abbrev pub around : Entry S E → (S → E ⊎ S) → (S → S) → E ⊎ S
  around (enters s) below leave = after (below s) (λ t. inr (leave t))
  around (skips s) below leave = inr s
  around (raises e) below leave = inl e

  module _ (v : Visitor S E) where
    unfoldable pub walk : Selections → S → E ⊎ S
    walk no_selections s = inr s
    walk (select (field_node name below) rest) s =
        after (around (v.enter_field name s) (walk below) v.leave_field) (walk rest)
    walk (select (inline_fragment below) rest) s = after (walk below s) (walk rest)
    walk (select (fragment_spread name) rest) s =
        after (around (v.enter_spread name s) (λ t. inr t) (λ t. t)) (walk rest)

    unfoldable pub walk_definition : Definition → S → E ⊎ S
    unfolding walk
    walk_definition (operation kind name below) s =
        around (v.enter_operation s) (walk below) (λ t. t)
    walk_definition (fragment name below) s = around (v.enter_fragment name s) (walk below) (λ t. t)
    walk_definition _ s = inr s

    unfoldable pub walk_definitions : List Definition → S → E ⊎ S
    unfolding walk_definition
    walk_definitions [] s = inr s
    walk_definitions (d ∷ ds) s = after (walk_definition d s) (walk_definitions ds)
