-- ===== src/Util/LruCache/Bounds.antt =====
-- The well-formedness invariant of the cache, kept by every operation, and the bound on its size.
use graphqlade.Common.{
  ℕ, suc, ◌-◌, ◌+◌, ◌≤◌, ◌<◌, ◌≡◌, ◌≢◌, refl, Bool, List, [], ◌∷◌, ltb, length, map, All, arith, Eq,
  Bool-cases, inl, inr, Option-cases, Within, pigeonhole, Distinct, All-lt_mono, All-ne_of_lt,
}
use graphqlade.Common.Map
use graphqlade.Common.Map.{
  Map, IsUnique, keep_values, set-IsUnique, keep_values-IsUnique, length-set_present,
}
use graphqlade.Util.LruCache.{Entry, LruCache, empty, size, is_kept, evict, get, set}

module _ {ℓ κ} {K : Type ℓ} {V : Type κ} where
  abbrev pub indices : Map K (Entry V) → List ℕ
  indices = map (λ (p : K × Entry V). p.1.index)

  keep-All :
      (P : ℕ → Type 0) (q : Entry V → Bool) (m : Map K (Entry V))
      → All P (indices m)
      → All P (indices (keep_values q m))
  keep-All P q [] h = tt
  keep-All P q ((k, v) ∷ m) (p, h) = ground (arith, keep-All P q m h)

  keep-Distinct :
      (q : Entry V → Bool) (m : Map K (Entry V))
      → Distinct (indices m)
      → Distinct (indices (keep_values q m))
  keep-Distinct q [] d = tt
  keep-Distinct q ((k, v) ∷ m) (p, d) =
      ground (arith, keep-Distinct q m d, keep-All (λ y. y ≢ v.index) q m p)

  -- What the loop spares is no older than the index that it tests against.
  keep-recent :
      (lo hi : ℕ) (m : Map K (Entry V))
      → All (λ x. x < hi) (indices m)
      → Within lo hi (indices (keep_values (is_kept lo) m))
  keep-recent lo hi [] h = tt
  keep-recent lo hi ((k, v) ∷ m) (p, h) = ground (arith, keep-recent lo hi m h)

  length-indices : (m : Map K (Entry V)) → length (indices m) ≡ length m
  length-indices [] = refl
  length-indices (p ∷ m) = omega (arith, length-indices m)

module _ {ℓ κ} {K : Type ℓ} {V : Type κ} ⦃e : Eq K⦄ where
  set-All :
      (P : ℕ → Type 0) (k : K) (v : Entry V) (m : Map K (Entry V))
      → P v.index
      → All P (indices m)
      → All P (indices (Map.set k v m))
  unfolding Map.set
  set-All P k v [] p h = (p, tt)
  set-All P k v ((j, w) ∷ m) p (q, h) = ground (arith, set-All P k v m p h)

  set-Distinct :
      (k : K) (v : Entry V) (m : Map K (Entry V))
      → All (λ y. y < v.index) (indices m)
      → Distinct (indices m)
      → Distinct (indices (Map.set k v m))
  unfolding Map.set
  set-Distinct k v [] h d = (tt, tt)
  set-Distinct k v ((j, w) ∷ m) (p, h) (q, d) = ground (
    arith,
    set-Distinct k v m h d,
    set-All (λ y. y ≢ w.index) k v m (omega arith) q,
    All-ne_of_lt v.index (indices m) h,
  )

  set-grows :
      (k : K) (v : Entry V) (m : Map K (Entry V))
      → All (λ y. y < v.index) (indices m)
      → All (λ y. y < suc v.index) (indices (Map.set k v m))
  set-grows k v m h =
      set-All (λ y. y < suc v.index) k v m (omega arith)
        (All-lt_mono v.index (suc v.index) (indices m) (omega arith) h)

-- The keys are distinct, no two entries were used last by the same operation, and the cache is
-- within its limit.
pub record IsValid {ℓ κ} {K : Type ℓ} {V : Type κ} ⦃e : Eq K⦄ (c : LruCache K V)
    : Type (ℓ ⊔ κ) where
  pub unique : IsUnique c.cache
  pub distinct : Distinct (indices c.cache)
  pub below : All (λ y. y < c.index) (indices c.cache)
  pub bounded : size c ≤ c.max_size

module _ {ℓ κ} {K : Type ℓ} {V : Type κ} ⦃e : Eq K⦄ where
  pub empty-IsValid : (n : ℕ) → IsValid (empty {K = K} {V = V} n)
  empty-IsValid n = record { unique = tt; distinct = tt; below = tt; bounded = omega arith }

  length-kept :
      (c : LruCache K V)
      → Distinct (indices c.cache)
      → All (λ y. y < c.index) (indices c.cache)
      → length (keep_values (is_kept (c.index - c.max_size)) c.cache) ≤ c.max_size
  length-kept c d b =
      let lo = c.index - c.max_size in
      let kept = keep_values (is_kept lo) c.cache in
      omega (
        arith,
        length-indices kept,
        pigeonhole lo c.max_size (indices kept) (keep-Distinct (is_kept lo) c.cache d) (
            keep-recent lo (c.max_size + lo) c.cache
              (All-lt_mono c.index (c.max_size + lo) (indices c.cache) (omega arith) b)),
      )

  evict-IsValid :
      (c : LruCache K V)
      → IsUnique c.cache
      → Distinct (indices c.cache)
      → All (λ y. y < c.index) (indices c.cache)
      → IsValid (evict c)
  unfolding evict
  evict-IsValid c u d b = elim (Bool-cases (ltb c.max_size (size c))) [
    | inl over ↦ rw over (record {
      unique = keep_values-IsUnique (is_kept (c.index - c.max_size)) c.cache u;
      distinct = keep-Distinct (is_kept (c.index - c.max_size)) c.cache d;
      below = keep-All (λ y. y < c.index) (is_kept (c.index - c.max_size)) c.cache b;
      bounded = length-kept c d b;
    })
    | inr within ↦
        rw within (record { unique = u; distinct = d; below = b; bounded = ground arith })
  ]

  -- Setting a key keeps the invariant, the bound on the size included, whatever was in the cache.
  pub set-IsValid : (k : K) (v : V) (c : LruCache K V) → IsValid c → IsValid (set k v c)
  unfolding set
  set-IsValid k v c h =
      let entry : Entry V = record { value = v; index = c.index } in
      evict-IsValid _ (set-IsUnique k entry c.cache h.unique)
        (set-Distinct k entry c.cache h.below h.distinct) (set-grows k entry c.cache h.below)

  -- Looking a key up keeps the invariant, whether the key is found or not.
  pub get-IsValid : (k : K) (c : LruCache K V) → IsValid c → IsValid (get k c).0
  unfolding get
  get-IsValid k c h = elim (Option-cases (Map.get k c.cache)) [
    | inl missing ↦ rw (missing, get) h
    | inr (found, e) ↦
        let entry : Entry V = record found { index = c.index } in
        rw (e, get)
          (record {
            unique = set-IsUnique k entry c.cache h.unique;
            distinct = set-Distinct k entry c.cache h.below h.distinct;
            below = set-grows k entry c.cache h.below;
            bounded = omega (arith, length-set_present k entry found c.cache e);
          })
  ]
