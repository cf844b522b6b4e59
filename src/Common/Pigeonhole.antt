-- ===== src/Common/Pigeonhole.antt =====
-- Lists of distinct numbers, and the pigeonhole principle for them.
use Prim.Native.Nat.{ℕ, zero, suc, ◌+◌, ◌≤◌, ◌<◌}
use mathlib.Core.Path.{◌≡◌, refl, subst}
use mathlib.Core.Logic.{◌≢◌}
use mathlib.Core.Bool.{not}
use mathlib.Core.List.{List, [], ◌∷◌}
use native.Mathlib.Omega.{arith}
use graphqlade.Common.Tests.{nat_beq}
use graphqlade.Common.Lists.{length, keep, All, All-keep}

-- A list without repetition.
abbrev pub Distinct {ℓ} : {A : Type ℓ} → List A → Type ℓ
Distinct [] = Unit
Distinct (x ∷ xs) = All (λ y. y ≢ x) xs × Distinct xs

abbrev others : ℕ → List ℕ → List ℕ
others a = keep (λ x. not (nat_beq x a))

length-others_of_absent :
    (a : ℕ) (xs : List ℕ) → All (λ y. y ≢ a) xs → length (others a xs) ≡ length xs
length-others_of_absent a [] h = refl
length-others_of_absent a (x ∷ xs) (p, h) = ground (arith, length-others_of_absent a xs h)

length-others : (a : ℕ) (xs : List ℕ) → Distinct xs → length xs ≤ suc (length (others a xs))
length-others a [] d = omega arith
length-others a (x ∷ xs) (p, d) = ground (arith, length-others a xs d, hit)
  where
    hit : x ≡ a → length (others a xs) ≡ length xs
    hit e = length-others_of_absent a xs (subst (λ b. All (λ y. y ≢ b) xs) e p)

others-Distinct : (a : ℕ) (xs : List ℕ) → Distinct xs → Distinct (others a xs)
others-Distinct a [] d = tt
others-Distinct a (x ∷ xs) (p, d) =
    ground (arith, others-Distinct a xs d, All-keep (λ y. y ≢ x) (λ y. not (nat_beq y a)) xs p)

abbrev pub Within : ℕ → ℕ → List ℕ → Type 0
Within lo hi = All (λ x. (lo ≤ x) × (x < hi))

others-Within : (lo a : ℕ) (xs : List ℕ) → Within lo (suc a) xs → Within lo a (others a xs)
others-Within lo a [] h = tt
others-Within lo a (x ∷ xs) (p, h) = ground (arith, others-Within lo a xs h)

-- The pigeonhole principle: `n` distinct numbers do not fit into a shorter range.
pub pigeonhole : (lo n : ℕ) (xs : List ℕ) → Distinct xs → Within lo (n + lo) xs → length xs ≤ n
pigeonhole lo zero [] d h = omega arith
pigeonhole lo zero (x ∷ xs) d h = absurd (omega arith)
pigeonhole lo (suc n) xs d h = omega (
  arith,
  length-others (n + lo) xs d,
  pigeonhole lo n (others (n + lo) xs) (others-Distinct (n + lo) xs d)
      (others-Within lo (n + lo) xs (subst (λ b. Within lo b xs) (omega arith) h)),
)

pub All-lt_mono : (m n : ℕ) (xs : List ℕ) → m ≤ n → All (λ y. y < m) xs → All (λ y. y < n) xs
All-lt_mono m n [] h k = tt
All-lt_mono m n (x ∷ xs) h (p, k) = (omega arith, All-lt_mono m n xs h k)

pub All-ne_of_lt : (n : ℕ) (xs : List ℕ) → All (λ y. y < n) xs → All (λ y. y ≢ n) xs
All-ne_of_lt n [] k = tt
All-ne_of_lt n (x ∷ xs) (p, k) = (omega arith, All-ne_of_lt n xs k)
