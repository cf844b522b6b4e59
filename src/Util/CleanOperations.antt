-- ===== src/Util/CleanOperations.antt =====
-- src/util/cleanOperations.ts: definitions of scalars and of directives are dropped.
use graphqlade.Common.{Bool, true, false, keep}
use graphqlade.Graphql.{Definition, scalar_type_definition, directive_definition, Document}

abbrev pub is_operational : Definition → Bool
is_operational (scalar_type_definition _) = false
is_operational (directive_definition _) = false
is_operational _ = true

unfoldable pub clean_operations : Document → Document
clean_operations document = record document {
  definitions = keep is_operational document.definitions;
}
