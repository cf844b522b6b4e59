-- ===== src/Util/LruCache.antt =====
-- src/util/LRUCache.ts. The cache maps a key to a value and the index of its last use; `index` is
-- a use counter that grows without wrapping.
pub mod Bounds
pub mod Recency
pub mod Contents
mod Tests
use graphqlade.Common.{
  ℕ, suc, ◌-◌, Bool, not, Option, none, some, [], ltb, length, if◌then◌else◌, Eq,
}
use graphqlade.Common.Map
use graphqlade.Common.Map.{Map, keep_values}

pub record Entry {ℓ} (V : Type ℓ) : Type ℓ where
  pub value : V
  pub index : ℕ

pub record LruCache {ℓ κ} (K : Type ℓ) (V : Type κ) : Type (ℓ ⊔ κ) where
  pub cache : Map K (Entry V)
  pub index : ℕ
  pub max_size : ℕ

-- The entries that the loop of `set` spares: `entry.index < minIndex` fails.
abbrev pub is_kept {ℓ} : {V : Type ℓ} → ℕ → Entry V → Bool
is_kept min_index entry = not (ltb entry.index min_index)

module _ {ℓ κ} {K : Type ℓ} {V : Type κ} where
  abbrev pub empty : ℕ → LruCache K V
  empty max_size = record { cache = []; index = 0; max_size = max_size }

  abbrev pub size : LruCache K V → ℕ
  size c = length c.cache

  -- The eviction at the end of `set`. `index - max_size` is never negative where it is used: a
  -- cache has at most `index` entries.
  unfoldable pub evict : LruCache K V → LruCache K V
  evict c =
      if ltb c.max_size (size c)
      then record c { cache = keep_values (is_kept (c.index - c.max_size)) c.cache }
      else c

module _ {ℓ κ} {K : Type ℓ} {V : Type κ} ⦃e : Eq K⦄ where
  -- The entry is updated in place, with the current index.
  abbrev touch : K → Entry V → LruCache K V → LruCache K V
  touch key entry c = record c {
    cache = Map.set key (record entry { index = c.index }) c.cache;
    index = suc c.index;
  }

  unfoldable pub get : K → LruCache K V → LruCache K V × Option V
  get key c = elim (Map.get key c.cache) [
    | none ↦ (c, none)
    | some entry ↦ (touch key entry c, some entry.value)
  ]

  unfoldable pub set : K → V → LruCache K V → LruCache K V
  unfolding evict
  set key value c = evict (record c {
    cache = Map.set key (record { value = value; index = c.index }) c.cache;
    index = suc c.index;
  })
