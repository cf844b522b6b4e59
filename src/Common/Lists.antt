-- ===== src/Common/Lists.antt =====
-- Lists over the native numbers: length, predicates on all members, filtering by a test.
use Prim.Native.Nat.{ℕ, suc, ◌+◌, ◌≤◌}
use mathlib.Core.Path.{◌≡◌}
use mathlib.Core.Bool.{Bool}
use mathlib.Core.List.{List, [], ◌∷◌, ◌++◌}
use native.Mathlib.Omega.{arith}
use graphqlade.Common.Tests.{if◌then◌else◌}

module _ {ℓ} {A : Type ℓ} where
  abbrev pub length : List A → ℕ
  length [] = 0
  length (x ∷ xs) = suc (length xs)

  pub length-append : (xs ys : List A) → length (xs ++ ys) ≡ length xs + length ys
  length-append [] ys = omega arith
  length-append (x ∷ xs) ys = omega (arith, length-append xs ys)

  -- `Array.prototype.filter`
  abbrev pub keep : (A → Bool) → List A → List A
  keep p [] = []
  keep p (x ∷ xs) = if p x then x ∷ keep p xs else keep p xs

  pub length-keep-le : (p : A → Bool) (xs : List A) → length (keep p xs) ≤ length xs
  length-keep-le p [] = omega arith
  length-keep-le p (x ∷ xs) = ground (arith, length-keep-le p xs)

  module _ {κ} (P : A → Type κ) where
    abbrev pub All : List A → Type κ
    All [] = Unit
    All (x ∷ xs) = P x × All xs

    pub All-append : (xs ys : List A) → All xs → All ys → All (xs ++ ys)
    All-append [] ys _ k = k
    All-append (x ∷ xs) ys (p, h) k = (p, All-append xs ys h k)

    pub All-keep : (p : A → Bool) (xs : List A) → All xs → All (keep p xs)
    All-keep p [] _ = tt
    All-keep p (x ∷ xs) (q, h) = ground (arith, All-keep p xs h)
