-- ===== src/Util/ResolverMerging/Tests.antt =====
-- Resolvers from three files, merged, and the theorem on them.
use graphqlade.Common.{ℕ, String, ◌≡◌, refl, none, List, [], ◌∷◌, string_eq, All, ◌⊎◌, inl, inr}
use graphqlade.Common.Map
use graphqlade.Common.Map.{Map}
use graphqlade.Util.ResolverMerging.{Resolvers, scalar, fields, several, merge_resolvers}
use graphqlade.Util.ResolverMerging.Lookup.{
  lookup, latest, otherwise, AreProper, lookup-merge_resolvers,
}

-- A scalar type, or an enum type, with one property that a spread copies.
abbrev serialize : ℕ ⊎ ℕ → Map String ℕ
serialize (inl n) = ("serialize", n) ∷ []
serialize (inr n) = ("name", n) ∷ []

abbrev files : List (Resolvers ℕ ℕ ℕ)
files =
    (("Query", fields (("now", 1) ∷ ("user", 2) ∷ [])) ∷ ("Date", scalar 3) ∷ [])
    ∷ (("Query", fields (("user", 4) ∷ [])) ∷ [])
    ∷ (("Date", fields (("parse", 5) ∷ [])) ∷ [])
    ∷ []

merged_files : merge_resolvers serialize (several files) ≡ (
    ("Query", fields (("now", 1) ∷ ("user", 4) ∷ []))
    ∷ ("Date", fields (("serialize", 3) ∷ ("parse", 5) ∷ []))
    ∷ [])
unfolding merge_resolvers Map.get Map.set
merged_files = refl

files_proper : All (AreProper serialize) files
unfolding Map.get
files_proper = (
  ((refl, (refl, tt)), ((refl, (refl, tt)), ((refl, tt), tt))),
  (((refl, tt), ((refl, tt), tt)), (((refl, tt), ((refl, tt), tt)), tt)),
)

lookup-merge_resolvers_example :
    lookup serialize "Query" "user" (merge_resolvers serialize (several files))
    ≡ otherwise (latest serialize "Query" "user" files) none
lookup-merge_resolvers_example = lookup-merge_resolvers serialize "Query" "user" files files_proper
