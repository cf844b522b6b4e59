-- ===== src/Common/Members.antt =====
-- Membership in a list, and the pigeonhole principle for lists over any keys.
use Prim.Native.Nat.{suc, ◌≤◌}
use mathlib.Core.Path.{◌≡◌, refl, sym, subst}
use mathlib.Core.Logic.{◌≢◌, ◌⊎◌, inl, inr}
use mathlib.Core.Bool.{false, not}
use mathlib.Core.List.{List, [], ◌∷◌, ◌++◌}
use native.Mathlib.Omega.{arith}
use graphqlade.Common.Tests.{Bool-cases}
use graphqlade.Common.Equality.{Eq, ◌===◌}
use graphqlade.Common.Lists.{length, keep, All, All-keep}
use graphqlade.Common.Pigeonhole.{Distinct}

module _ {A : Type 0} where
  infix 40 ◌∈◌
  abbrev pub ◌∈◌ : A → List A → Type 0
  a ∈ [] = ⊥
  a ∈ x ∷ xs = (a ≡ x) ⊎ (a ∈ xs)

  pub mem-append_left : (a : A) (xs ys : List A) → a ∈ xs → a ∈ (xs ++ ys)
  mem-append_left a [] ys h = absurd h
  mem-append_left a (x ∷ xs) ys (inl e) = inl e
  mem-append_left a (x ∷ xs) ys (inr h) = inr (mem-append_left a xs ys h)

  pub mem-append_right : (a : A) (xs ys : List A) → a ∈ ys → a ∈ (xs ++ ys)
  mem-append_right a [] ys h = h
  mem-append_right a (x ∷ xs) ys h = inr (mem-append_right a xs ys h)

  -- What holds of all members holds of each.
  pub All-mem : (P : A → Type 0) (a : A) (xs : List A) → All P xs → a ∈ xs → P a
  All-mem P a [] h m = absurd m
  All-mem P a (x ∷ xs) (p, h) (inl e) = subst P (sym e) p
  All-mem P a (x ∷ xs) (p, h) (inr m) = All-mem P a xs h m

  pub mem-All : (P : A → Type 0) (xs : List A) → ((a : A) → a ∈ xs → P a) → All P xs
  mem-All P [] h = tt
  mem-All P (x ∷ xs) h = (h x (inl refl), mem-All P xs (λ a m. h a (inr m)))

module _ {A : Type 0} ⦃e : Eq A⦄ where
  abbrev without : A → List A → List A
  without a = keep (λ x. not (x === a))

  length-without_absent :
      (a : A) (xs : List A) → All (λ y. y ≢ a) xs → length (without a xs) ≡ length xs
  length-without_absent a [] h = refl
  length-without_absent a (x ∷ xs) (p, h) =
      ground (arith, length-without_absent a xs h, e.equal_iff x a)

  length-without : (a : A) (xs : List A) → Distinct xs → length xs ≤ suc (length (without a xs))
  length-without a [] d = omega arith
  length-without a (x ∷ xs) (p, d) = elim (Bool-cases (x === a)) [
    | inl same ↦
        let fresh = subst (λ b. All (λ y. y ≢ b) xs) ((e.equal_iff x a).0 same) p in
        rw same (omega (arith, length-without_absent a xs fresh))
    | inr other ↦ rw other (omega (arith, length-without a xs d))
  ]

  without-Distinct : (a : A) (xs : List A) → Distinct xs → Distinct (without a xs)
  without-Distinct a [] d = tt
  without-Distinct a (x ∷ xs) (p, d) = elim (Bool-cases (x === a)) [
    | inl same ↦ rw same (without-Distinct a xs d)
    | inr other ↦
        rw other (All-keep (λ y. y ≢ x) (λ y. not (y === a)) xs p, without-Distinct a xs d)
  ]

  without-members :
      (a : A) (names xs : List A)
      → All (λ x. x ∈ (a ∷ names)) xs
      → All (λ x. x ∈ names) (without a xs)
  without-members a names [] h = tt
  without-members a names (x ∷ xs) (m, h) = elim (Bool-cases (x === a)) [
    | inl same ↦ rw same (without-members a names xs h)
    | inr other ↦ rw other (elsewhere m other, without-members a names xs h)
  ]
    where
      elsewhere : x ∈ (a ∷ names) → (x === a) ≡ false → x ∈ names
      elsewhere (inl same) other = cc (other, (e.equal_iff x a).1 same)
      elsewhere (inr m) other = m

  -- Distinct members of a list are no more than the list is long.
  pub Distinct-le :
      (names xs : List A) → Distinct xs → All (λ x. x ∈ names) xs → length xs ≤ length names
  Distinct-le [] [] d h = omega arith
  Distinct-le [] (x ∷ xs) d (m, h) = absurd m
  Distinct-le (a ∷ names) xs d h = omega (
    arith,
    length-without a xs d,
    Distinct-le names (without a xs) (without-Distinct a xs d) (without-members a names xs h),
  )
