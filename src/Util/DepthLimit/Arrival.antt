-- ===== src/Util/DepthLimit/Arrival.antt =====
-- How deep a document nests fields, with its fragments put in where they are spread.
use graphqlade.Common.{ℕ, suc, ◌≤◌, String, ◌≡◌, ◌≢◌, false, Option, List, [], ◌∷◌, ◌++◌, All, ◌∈◌}
use graphqlade.Graphql.{
  Selection, Selections, field_node, inline_fragment, fragment_spread, select, OperationKind,
  operation, fragment, Document,
}
use graphqlade.Util.DepthLimit.{is_introspection}

-- The rest of a list of selections stands at some level below an operation, inside the fragments
-- that a path names, the outermost first.
pub data Arrives (document : Document) : List String → ℕ → Selections → Type 0 where
  at_operation :
      (kind : OperationKind) (name : Option String) (below : Selections)
      → operation kind name below ∈ document.definitions
      → Arrives document [] 0 below
  at_next :
      {path : List String} {level : ℕ} (s : Selection) {rest : Selections}
      → Arrives document path level (select s rest)
      → Arrives document path level rest
  in_field :
      {path : List String} {level : ℕ} (name : String) {below rest : Selections}
      → Arrives document path level (select (field_node name below) rest)
      → is_introspection name ≡ false
      → Arrives document path (suc level) below
  in_inline :
      {path : List String} {level : ℕ} {below rest : Selections}
      → Arrives document path level (select (inline_fragment below) rest)
      → Arrives document path level below
  in_fragment :
      {path : List String} {level : ℕ} (name : String) (below : Selections) {rest : Selections}
      → Arrives document path level (select (fragment_spread name) rest)
      → fragment name below ∈ document.definitions
      → Arrives document (path ++ name ∷ []) level below

-- No field stands deeper than the limit, and no fragment is spread inside itself.
pub record IsShallow (document : Document) (max_depth : ℕ) : Type 0 where
  pub fits :
      (path : List String) (level : ℕ) (name : String) (below rest : Selections)
      → Arrives document path level (select (field_node name below) rest)
      → is_introspection name ≡ false
      → level ≤ max_depth
  pub acyclic :
      (path : List String) (level : ℕ) (name : String) (rest : Selections)
      → Arrives document path level (select (fragment_spread name) rest)
      → All (λ f. f ≢ name) path
