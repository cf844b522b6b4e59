-- ===== src/Util/LruCache/Tests.antt =====
-- Runs of the cache of LRUCache.ts, and its theorems at concrete caches.
use mathlib.Core.List.{[]}
use graphqlade.Common.{ℕ, String, ◌≡◌, refl, some, ◌∷◌, arith, nat_eq, string_eq}
use graphqlade.Common.Map
use graphqlade.Util.LruCache
use graphqlade.Util.LruCache.{Entry, LruCache, empty, get, set}
use graphqlade.Util.LruCache.Bounds.{IsValid}
use graphqlade.Util.LruCache.Recency.{gets, sets, run, step, run-IsValid, get-run-set}

abbrev filled : LruCache ℕ String
filled = record {
  cache =
      (1, record { value = "a"; index = 0 })
      ∷ (2, record { value = "b"; index = 1 })
      ∷ (3, record { value = "c"; index = 7 })
      ∷ [];
  index = 8;
  max_size = 3;
}

-- Three sets and five reads of one key fill the cache as above; a fourth key then drops two.
fill :
    run
      (sets 1 "a" ∷ sets 2 "b" ∷ sets 3 "c" ∷ gets 3 ∷ gets 3 ∷ gets 3 ∷ gets 3 ∷ gets 3 ∷ [])
      (empty 3)
    ≡ filled
unfolding run step get set Map.get Map.set
fill = refl

fourth : LruCache.size (set 4 "d" filled) ≡ 2
unfolding set Map.get Map.set
fourth = refl

run-IsValid_example :
    IsValid {K = ℕ} {V = String} (run (sets 1 "a" ∷ sets 2 "b" ∷ gets 1 ∷ []) (empty 1))
run-IsValid_example = run-IsValid 1 (sets 1 "a" ∷ sets 2 "b" ∷ gets 1 ∷ [])

get-run-set_example : (get 4 (run (gets 9 ∷ sets 5 "e" ∷ []) (set 4 "d" filled))).1 ≡ some "d"
get-run-set_example =
    get-run-set 4 "d" (gets 9 ∷ sets 5 "e" ∷ []) filled (tt, (omega arith, tt)) (omega arith)
