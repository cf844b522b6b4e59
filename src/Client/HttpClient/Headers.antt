-- ===== src/Client/HttpClient/Headers.antt =====
-- Which headers the call of `fetch` by a GraphQLClient has.
use graphqlade.Common.{
  String, ◌≡◌, refl, Option, none, some, [], ◌∷◌, if◌then◌else◌, Value, arith, ◌===◌, string_eq,
}
use graphqlade.Common.Map
use graphqlade.Common.Map.{Map, IsUnique}
use graphqlade.Client.HttpClient.{
  Client, RequestOptions, spread, or_empty, default_headers, call_of,
}

-- The first of two values that is there.
abbrev pub first_of {ℓ} : {A : Type ℓ} → Option A → Option A → Option A
first_of none b = b
first_of (some a) b = some a

-- A spread overrides what was there.
pub get-spread {ℓ} :
    {V : Type ℓ} (k : String) (entries m : Map String V)
    → IsUnique entries
    → Map.get k (spread entries m) ≡ first_of (Map.get k entries) (Map.get k m)
unfolding spread Map.get
get-spread k [] m u = refl
get-spread k ((j, v) ∷ entries) m (fresh, u) =
    ground
      (arith, get-spread k entries (Map.set j v m) u, Map.get-set j k v m, string_eq.equal_iff j k)

module _ (stringify : Value → String) where
  -- If neither the client nor the call names a header twice, then a header of the call goes before
  -- one of the client, and both go before the two headers that `post` sets itself.
  pub get-call_of :
      (client : Client) (options : RequestOptions) (name : String)
      → IsUnique (or_empty client.init.headers)
      → IsUnique (or_empty options.init.headers)
      → Map.get name (call_of stringify client options).headers
        ≡ first_of (Map.get name (or_empty options.init.headers)) (
            first_of (Map.get name (or_empty client.init.headers)) (
              if "accept" === name
              then some "application/json"
              else if "content-type" === name
              then some "application/json"
              else none))
  unfolding call_of Map.get
  get-call_of client options name unique_client unique_call =
      rw
        (
          get-spread name (or_empty options.init.headers)
              (spread (or_empty client.init.headers) default_headers) unique_call,
          get-spread name (or_empty client.init.headers) default_headers unique_client,
        )
        refl
