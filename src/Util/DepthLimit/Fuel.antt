-- ===== src/Util/DepthLimit/Fuel.antt =====
-- The fuel of limitDepth.ts and the paths for which it is enough.
use graphqlade.Common.{
  ℕ, zero, suc, ◌+◌, ◌≤◌, String, ◌≢◌, List, [], ◌∷◌, ◌++◌, length, length-append, All, All-append,
  Distinct, Distinct-le, ◌∈◌, string_eq, arith,
}
use graphqlade.Graphql.{Document}
use graphqlade.Util.DepthLimit.Paths.{Distinct-snoc}
use graphqlade.Util.DepthLimit.Known.{names_of}

module _ (document : Document) where
  -- A path of spreads, with fuel for all that are left.
  pub record IsFuelled (fuel : ℕ) (path : List String) : Type 0 where
    pub straight : Distinct path
    pub known : All (λ f. f ∈ names_of document) path
    pub enough : suc (length (names_of document)) ≤ fuel + length path

  -- There is fuel for one more spread.
  pub IsFuelled-pos : (path : List String) → IsFuelled zero path → ⊥
  IsFuelled-pos path h =
      omega (arith, Distinct-le (names_of document) path h.straight h.known, h.enough)

  pub IsFuelled-snoc :
      (fuel : ℕ) (path : List String) (name : String)
      → IsFuelled (suc fuel) path
      → name ∈ names_of document
      → All (λ f. f ≢ name) path
      → IsFuelled fuel (path ++ name ∷ [])
  IsFuelled-snoc fuel path name h m fresh = record {
    straight = (Distinct-snoc path name).1 (h.straight, fresh);
    known = All-append (λ f. f ∈ names_of document) path (name ∷ []) h.known (m, tt);
    enough = omega (arith, h.enough, length-append path (name ∷ []));
  }
