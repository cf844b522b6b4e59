-- ===== src/Util/LruCache/Recency.antt =====
-- What the cache remembers: the keys of its last `max_size` operations.
use graphqlade.Common.{
  ℕ, suc, ◌-◌, ◌+◌, ◌≤◌, ◌<◌, ◌≡◌, ◌≢◌, refl, true, none, some, List, [], ◌∷◌, ap, subst, ltb,
  lt→ltb, length, if◌then◌else◌, arith, Eq, ◌===◌, All, Bool-cases, Option-cases, inl, inr,
}
use graphqlade.Common.Map
use graphqlade.Common.Map.{
  Map, get-set, get-keep_values_kept, get-keep_values_dropped, get-set_self, set-IsUnique,
  length-set_absent,
}
use graphqlade.Util.LruCache.{Entry, LruCache, empty, size, is_kept, evict, touch, get, set}
use graphqlade.Util.LruCache.Bounds.{IsValid, empty-IsValid, set-IsValid, get-IsValid}

-- The calls that a client makes.
pub data Call {ℓ κ} (K : Type ℓ) (V : Type κ) : Type (ℓ ⊔ κ) where
  gets : K → Call K V
  sets : K → V → Call K V

module _ {ℓ κ} {K : Type ℓ} {V : Type κ} ⦃e : Eq K⦄ where
  unfoldable pub step : Call K V → LruCache K V → LruCache K V
  step (gets k) c = (get k c).0
  step (sets k v) c = set k v c

  unfoldable pub run : List (Call K V) → LruCache K V → LruCache K V
  run [] c = c
  run (a ∷ as_) c = run as_ (step a c)

  step-IsValid : (call : Call K V) (c : LruCache K V) → IsValid c → IsValid (step call c)
  unfolding step
  step-IsValid (gets k) c h = get-IsValid k c h
  step-IsValid (sets k v) c h = set-IsValid k v c h

  keeps-IsValid : (calls : List (Call K V)) (c : LruCache K V) → IsValid c → IsValid (run calls c)
  unfolding run
  keeps-IsValid [] c h = h
  keeps-IsValid (call ∷ calls) c h = keeps-IsValid calls (step call c) (step-IsValid call c h)

  -- After any calls to a new cache, its keys are distinct, no two entries were used last by the same
  -- call, each was used by a call already made, and there are no more entries than the limit.
  pub run-IsValid : (n : ℕ) (calls : List (Call K V)) → IsValid (run calls (empty n))
  run-IsValid n calls = keeps-IsValid calls (empty n) (empty-IsValid n)

  -- `k` is bound to `v`, and was used at most `age` operations ago.
  pub record Holds (k : K) (v : V) (age : ℕ) (c : LruCache K V) : Type (ℓ ⊔ κ) where
    pub entry : Entry V
    pub found : Map.get k c.cache ≡ some entry
    pub value : entry.value ≡ v
    pub recent : c.index ≤ entry.index + age

  evict-Holds :
      (k : K) (v : V) (age : ℕ) (c : LruCache K V)
      → age ≤ c.max_size
      → Holds k v age c
      → Holds k v age (evict c)
  unfolding evict
  evict-Holds k v age c small h = elim (Bool-cases (ltb c.max_size (size c))) [
    | inr within ↦ rw within h
    | inl over ↦ rw over (record {
      entry = h.entry;
      found =
          get-keep_values_kept (is_kept (c.index - c.max_size)) k h.entry c.cache h.found
            (ground arith);
      value = h.value;
      recent = h.recent;
    })
  ]

  set-Holds_self : (k : K) (v : V) (c : LruCache K V) → 1 ≤ c.max_size → Holds k v 1 (set k v c)
  unfolding set
  set-Holds_self k v c pos =
      let entry : Entry V = record { value = v; index = c.index } in
      evict-Holds k v 1 _ pos (record {
        entry = entry;
        found = get-set_self k entry c.cache;
        value = refl;
        recent = omega arith;
      })

  set-Holds_other :
      (k j : K) (v w : V) (age : ℕ) (c : LruCache K V)
      → j ≢ k
      → suc age ≤ c.max_size
      → Holds k v age c
      → Holds k v (suc age) (set j w c)
  unfolding set
  set-Holds_other k j v w age c ne room h = evict-Holds k v (suc age) _ room (record {
    entry = h.entry;
    found =
        ground
          (arith, get-set j k (record { value = w; index = c.index }) c.cache, e.equal_iff j k);
    value = h.value;
    recent = omega arith;
  })

  get-Holds :
      (k j : K) (v : V) (age : ℕ) (c : LruCache K V)
      → Holds k v age c
      → Holds k v (suc age) (get j c).0
  unfolding get
  get-Holds k j v age c h = elim (Option-cases (Map.get j c.cache)) [
    | inl missing ↦
        rw (missing, get)
          (record { entry = h.entry; found = h.found; value = h.value; recent = omega arith })
    | inr (hit, at) ↦ rw (at, get) (touch-Holds hit at)
  ]
    where
      touch-Holds :
          (hit : Entry V) → Map.get j c.cache ≡ some hit → Holds k v (suc age) (touch j hit c)
      touch-Holds hit at =
          let used : Entry V = record hit { index = c.index } in
          let law = get-set j k used c.cache in
          elim (Bool-cases (j === k)) [
            | inl same ↦ record {
              entry = used;
              found = rw same at law;
              value = ground (arith, h.value, h.found, e.equal_iff j k);
              recent = omega arith;
            }
            | inr other ↦ record {
              entry = h.entry;
              found = ground (arith, law);
              value = h.value;
              recent = omega arith;
            }
          ]

  -- A call that does not bind `k` to a new value.
  abbrev pub Leaves : K → Call K V → Type ℓ
  Leaves k (gets j) = Unit
  Leaves k (sets j w) = j ≢ k

  step-Holds :
      (k : K) (v : V) (age : ℕ) (a : Call K V) (c : LruCache K V)
      → Leaves k a
      → suc age ≤ c.max_size
      → Holds k v age c
      → Holds k v (suc age) (step a c)
  unfolding step
  step-Holds k v age (gets j) c l room h = get-Holds k j v age c h
  step-Holds k v age (sets j w) c l room h = set-Holds_other k j v w age c l room h

  max_size-evict : (c : LruCache K V) → (evict c).max_size ≡ c.max_size
  unfolding evict
  max_size-evict c = ground arith

  max_size-step : (a : Call K V) (c : LruCache K V) → (step a c).max_size ≡ c.max_size
  unfolding step get set
  max_size-step (gets j) c = ground arith
  max_size-step (sets j w) c = ground arith

  run-Holds :
      (k : K) (v : V) (age : ℕ) (calls : List (Call K V)) (c : LruCache K V)
      → All (Leaves k) calls
      → length calls + age ≤ c.max_size
      → Holds k v age c
      → Holds k v (length calls + age) (run calls c)
  unfolding run
  run-Holds k v age [] c l room h = subst (λ a. Holds k v a c) (omega arith) h
  run-Holds k v age (a ∷ calls) c (l, ls) room h =
      subst (λ b. Holds k v b (run calls (step a c))) (omega arith)
        (run-Holds k v (suc age) calls (step a c) ls (omega (arith, max_size-step a c))
          (step-Holds k v age a c l (omega arith) h))

  Holds-get : (k : K) (v : V) (age : ℕ) (c : LruCache K V) → Holds k v age c → (get k c).1 ≡ some v
  unfolding get
  Holds-get k v age c h = rw (h.found, get) (ap some h.value)

  -- A value that was set is read back after fewer than `max_size` further calls, whatever they
  -- are, unless one of them sets the same key again.
  pub get-run-set :
      (k : K) (v : V) (calls : List (Call K V)) (c : LruCache K V)
      → All (Leaves k) calls
      → length calls < c.max_size
      → (get k (run calls (set k v c))).1 ≡ some v
  unfolding step
  get-run-set k v calls c l room = Holds-get k v (length calls + 1) (run calls (set k v c)) (
      run-Holds k v 1 calls (set k v c) l (omega (arith, max_size-step (sets k v) c))
        (set-Holds_self k v c (omega arith)))

  -- When setting a new key overflows a full cache, exactly the entries that were not used in the
  -- last `max_size` operations, the current one included, are gone; the others are unchanged.
  pub set_overflow :
      (k j : K) (v : V) (entry : Entry V) (c : LruCache K V)
      → IsValid c
      → Map.get k c.cache ≡ none
      → size c ≡ c.max_size
      → j ≢ k
      → Map.get j c.cache ≡ some entry
      → Map.get j (set k v c).cache
        ≡ (if ltb (entry.index + c.max_size) (suc c.index) then none else some entry)
  unfolding set evict
  set_overflow k j v entry c valid absent full ne at =
      let fresh : Entry V = record { value = v; index = c.index } in
      let m = Map.set k fresh c.cache in
      let lo = suc c.index - c.max_size in
      let over : ltb c.max_size (length m) ≡ true =
        lt→ltb _ _ (omega (arith, length-set_absent k fresh c.cache absent)) in
      let at' : Map.get j m ≡ some entry =
        ground (arith, get-set k j fresh c.cache, e.equal_iff k j) in
      rw over (
        ground (
          arith,
          get-keep_values_kept (is_kept lo) j entry m at',
          get-keep_values_dropped (is_kept lo) j entry m (set-IsUnique k fresh c.cache valid.unique)
              at',
        ))
