-- ===== src/Graphql.antt =====
-- The shape of GraphQL documents, as far as the code reads the tree that `graphql` parses.
pub mod Visit
use graphqlade.Common.{String, Option, List}

mutual
  pub data Selection : Type 0 where
    field_node : String → Selections → Selection
    inline_fragment : Selections → Selection
    fragment_spread : String → Selection

  pub data Selections : Type 0 where
    no_selections : Selections
    select : Selection → Selections → Selections

pub data OperationKind : Type 0 where
  query mutation subscription : OperationKind

pub data Definition : Type 0 where
  operation : OperationKind → Option String → Selections → Definition
  fragment : String → Selections → Definition
  scalar_type_definition : String → Definition
  directive_definition : String → Definition
  other_definition : Definition

pub record Document : Type 0 where
  pub definitions : List Definition

-- A `GraphQLError`, by the message that it carries.
pub record GraphqlError : Type 0 where
  pub message : String
