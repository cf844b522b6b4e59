-- ===== src/Util/LruCache/Contents.antt =====
-- What holds of every key and value that was set holds of every pair that the cache gives back.
use graphqlade.Common.{
  ◌≡◌, some, [], ◌∷◌, All, All-keep, Eq, ◌===◌, Bool-cases, Option-cases, inl, inr, subst, ap, sym,
  ltb, ◌-◌,
}
use mathlib.Core.Option.{some-injective, none-ne-some}
use mathlib.Core.Path.{subst₂}
use graphqlade.Common.Map
use graphqlade.Common.Map.{Map}
use graphqlade.Util.LruCache.{Entry, LruCache, size, is_kept, evict, get, set}

module _ {ℓ κ} {K : Type ℓ} {V : Type κ} (P : K → V → Type 0) where
  abbrev pub Each : Map K (Entry V) → Type 0
  Each = All (λ (p : K × Entry V). P p.0 p.1.value)

  module _ ⦃e : Eq K⦄ where
    Each-set :
        (k : K) (v : Entry V) (m : Map K (Entry V)) → P k v.value → Each m → Each (Map.set k v m)
    unfolding Map.set
    Each-set k v [] p h = (p, tt)
    Each-set k v ((j, w) ∷ m) p (q, h) = elim (Bool-cases (j === k)) [
      | inl same ↦ rw same (subst (λ i. P i v.value) (sym ((e.equal_iff j k).0 same)) p, h)
      | inr other ↦ rw other (q, Each-set k v m p h)
    ]

    Each-get :
        (k : K) (v : Entry V) (m : Map K (Entry V)) → Map.get k m ≡ some v → Each m → P k v.value
    unfolding Map.get
    Each-get k v [] at_k h = cc
    Each-get k v ((j, w) ∷ m) at_k (q, h) = elim (Bool-cases (j === k)) [
      | inl same ↦
          subst₂ P ((e.equal_iff j k).0 same)
            (ap (λ (r : Entry V). r.value) (some-injective _ _ (rw same at at_k))) q
      | inr other ↦ Each-get k v m (rw other at at_k) h
    ]

    pub evict-Each : (c : LruCache K V) → Each c.cache → Each (evict c).cache
    unfolding evict
    evict-Each c h = elim (Bool-cases (ltb c.max_size (size c))) [
      | inl over ↦ rw over (
          All-keep (λ (p : K × Entry V). P p.0 p.1.value)
            (λ (p : K × Entry V). is_kept (c.index - c.max_size) p.1) c.cache h)
      | inr within ↦ rw within h
    ]

    pub set-Each :
        (k : K) (v : V) (c : LruCache K V) → P k v → Each c.cache → Each (set k v c).cache
    unfolding set
    set-Each k v c p h = evict-Each _ (Each-set k _ c.cache p h)

    pub get-Each : (k : K) (c : LruCache K V) → Each c.cache → Each (get k c).0.cache
    unfolding get
    get-Each k c h = elim (Option-cases (Map.get k c.cache)) [
      | inl missing ↦ rw (missing, get) h
      | inr (found, at) ↦ rw (at, get) (Each-set k _ c.cache (Each-get k found c.cache at h) h)
    ]

    pub get_sound : (k : K) (v : V) (c : LruCache K V) → (get k c).1 ≡ some v → Each c.cache → P k v
    unfolding get
    get_sound k v c hit h = elim (Option-cases (Map.get k c.cache)) [
      | inl missing ↦ absurd (none-ne-some _ (rw (missing, get) at hit))
      | inr (found, at) ↦
          subst (P k) (some-injective _ _ (rw (at, get) at hit)) (Each-get k found c.cache at h)
    ]
