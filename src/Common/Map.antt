-- ===== src/Common/Map.antt =====
-- JavaScript's `Map`: entries in insertion order. Setting a present key keeps its place.
use Prim.Native.Nat.{suc}
use mathlib.Core.Path.{◌≡◌, refl, sym, subst, ◌∙◌}
use mathlib.Core.Logic.{◌⊎◌, inl, inr}
use mathlib.Core.Bool.{Bool, true, false}
use mathlib.Core.Option.{Option, none, some}
use mathlib.Core.List.{List, [], ◌∷◌}
use native.Mathlib.Omega.{arith}
use graphqlade.Common.Tests.{if◌then◌else◌, Bool-cases}
use graphqlade.Common.Equality.{Eq, ◌===◌}
use graphqlade.Common.Lists.{length, keep}

abbrev pub Map {ℓ κ} : Type ℓ → Type κ → Type (ℓ ⊔ κ)
Map K V = List (K × V)

abbrev pub is_some {ℓ} : {A : Type ℓ} → Option A → Bool
is_some none = false
is_some (some a) = true

module _ {ℓ κ} {K : Type ℓ} {V : Type κ} where
  -- Dropping entries by a test on the value, as a loop of deletions does.
  abbrev pub keep_values : (V → Bool) → Map K V → Map K V
  keep_values p = keep (λ (entry : K × V). p entry.1)

module _ {ℓ κ} {K : Type ℓ} {V : Type κ} ⦃e : Eq K⦄ where
  unfoldable pub get : K → Map K V → Option V
  get k [] = none
  get k ((j, v) ∷ m) = if j === k then some v else get k m

  unfoldable pub set : K → V → Map K V → Map K V
  set k v [] = (k, v) ∷ []
  set k v ((j, w) ∷ m) = if j === k then (j, v) ∷ m else (j, w) ∷ set k v m

  unfoldable pub has : K → Map K V → Bool
  has k m = is_some (get k m)

  unfoldable pub delete : K → Map K V → Map K V
  delete k [] = []
  delete k ((j, w) ∷ m) = if j === k then m else (j, w) ∷ delete k m

  pub get-set :
      (k j : K) (v : V) (m : Map K V) → get j (set k v m) ≡ (if k === j then some v else get j m)
  unfolding get set
  get-set k j v [] = refl
  get-set k j v ((i, w) ∷ m) =
      ground (arith, e.equal_iff k j, e.equal_iff i k, e.equal_iff i j, get-set k j v m)

  pub get-set_other :
      (k j : K) (v : V) (m : Map K V) → (k === j) ≡ false → get j (set k v m) ≡ get j m
  get-set_other k j v m other = rw (get-set k j v m, other) refl

  pub get-set_self : (k : K) (v : V) (m : Map K V) → get k (set k v m) ≡ some v
  get-set_self k v m = ground (arith, get-set k k v m, e.equal_iff k k)

  -- Where an entry of an updated map comes from.
  pub get-set_cases :
      (k j : K) (v : V) (m : Map K V) {w : V}
      → get j (set k v m) ≡ some w
      → ((k ≡ j) × (v ≡ w)) ⊎ (((k === j) ≡ false) × (get j m ≡ some w))
  get-set_cases k j v m found = elim (Bool-cases (k === j)) [
    | inl same ↦
        let e = (e.equal_iff k j).0 same in
        inl (
          e,
          some-inj (sym (subst (λ i. get i (set k v m) ≡ some v) e (get-set_self k v m)) ∙ found),
        )
    | inr other ↦ inr (other, sym (get-set_other k j v m other) ∙ found)
  ]
    where
      some-inj : {a b : V} → some a ≡ some b → a ≡ b
      some-inj h = cc

  -- No key occurs twice.
  abbrev pub IsUnique : Map K V → Type κ
  IsUnique [] = Unit
  IsUnique ((k, v) ∷ m) = (get k m ≡ none) × IsUnique m

  pub set-IsUnique : (k : K) (v : V) (m : Map K V) → IsUnique m → IsUnique (set k v m)
  unfolding set get
  set-IsUnique k v [] h = (refl, tt)
  set-IsUnique k v ((j, w) ∷ m) (fresh, h) =
      ground (arith, set-IsUnique k v m h, get-set k j v m, e.equal_iff k j, e.equal_iff j k)

  pub get-delete :
      (k j : K) (m : Map K V)
      → IsUnique m
      → get j (delete k m) ≡ (if k === j then none else get j m)
  unfolding get delete
  get-delete k j [] h = ground (arith, e.equal_iff k j)
  get-delete k j ((i, w) ∷ m) (fresh, h) =
      ground (arith, e.equal_iff k j, e.equal_iff i k, e.equal_iff i j, get-delete k j m h)

  pub delete-IsUnique : (k : K) (m : Map K V) → IsUnique m → IsUnique (delete k m)
  unfolding delete
  delete-IsUnique k [] h = tt
  delete-IsUnique k ((j, w) ∷ m) (fresh, h) =
      ground (arith, delete-IsUnique k m h, get-delete k j m h, e.equal_iff k j)

  pub get-keep_values_kept :
      (p : V → Bool) (k : K) (v : V) (m : Map K V)
      → get k m ≡ some v
      → p v ≡ true
      → get k (keep_values p m) ≡ some v
  unfolding get
  get-keep_values_kept p k v [] h t = cc
  get-keep_values_kept p k v ((j, w) ∷ m) h t =
      ground (arith, get-keep_values_kept p k v m, e.equal_iff j k)

  pub get-keep_values-none :
      (p : V → Bool) (k : K) (m : Map K V) → get k m ≡ none → get k (keep_values p m) ≡ none
  unfolding get
  get-keep_values-none p k [] h = refl
  get-keep_values-none p k ((j, w) ∷ m) h = ground (arith, get-keep_values-none p k m)

  pub get-keep_values_dropped :
      (p : V → Bool) (k : K) (v : V) (m : Map K V)
      → IsUnique m
      → get k m ≡ some v
      → p v ≡ false
      → get k (keep_values p m) ≡ none
  unfolding get
  get-keep_values_dropped p k v [] u h t = cc
  get-keep_values_dropped p k v ((j, w) ∷ m) (fresh, u) h t =
      ground (arith, get-keep_values_dropped p k v m u, get-keep_values-none p k m, e.equal_iff j k)

  pub keep_values-IsUnique : (p : V → Bool) (m : Map K V) → IsUnique m → IsUnique (keep_values p m)
  keep_values-IsUnique p [] u = tt
  keep_values-IsUnique p ((j, w) ∷ m) (fresh, u) =
      ground (arith, keep_values-IsUnique p m u, get-keep_values-none p j m fresh)

  pub length-set_present :
      (k : K) (v w : V) (m : Map K V) → get k m ≡ some w → length (set k v m) ≡ length m
  unfolding get set
  length-set_present k v w [] h = cc
  length-set_present k v w ((j, x) ∷ m) h = ground (arith, length-set_present k v w m)

  pub length-set_absent :
      (k : K) (v : V) (m : Map K V) → get k m ≡ none → length (set k v m) ≡ suc (length m)
  unfolding get set
  length-set_absent k v [] h = refl
  length-set_absent k v ((j, x) ∷ m) h = ground (arith, length-set_absent k v m)
