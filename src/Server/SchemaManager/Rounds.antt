-- ===== src/Server/SchemaManager/Rounds.antt =====
-- GraphQLSchemaManager.ts: when the rounds of its loops return, and when they throw.
use graphqlade.Common.{
  Bool-cases, String, ◌≡◌, refl, ◌∙◌, Bool, true, false, ◌&&◌, ◌||◌, Option, some, List, [], ◌∷◌,
  string_eq, arith, inl, inr, Option-cases, Result, ok, thrown,
}
use graphqlade.Common.Map
use graphqlade.Common.Map.{Map}
use graphqlade.Server.SchemaManager.{
  SchemaField, is_hidden, each, go_on, Change, put, set_enum_value, set_field_resolver,
}

abbrev pub all_of : {X : Type 0} → (X → Bool) → List X → Bool
all_of q [] = true
all_of q (x ∷ xs) = q x && all_of q xs

abbrev pub is_ok : Result (Unit {0}) → Bool
is_ok (ok done) = true
is_ok (thrown e) = false

pub is_ok-go_on :
    {S : Type 0} (first : S × Result (Unit {0})) (next : Change S)
    → is_ok (go_on first next).1 ≡ (is_ok first.1 && is_ok (next first.0).1)
is_ok-go_on (s, ok done) next = refl
is_ok-go_on (s, thrown e) next = refl

-- A loop returns exactly if every round does, where a round does or not whatever the others did.
module _ {S X : Type 0} (change : X → Change S) (P : S → Type 0) (q : X → Bool)
    (keeps : (x : X) (s : S) → P s → P (change x s).0)
    (decides : (x : X) (s : S) → P s → is_ok (change x s).1 ≡ q x) where
  pub each_keeps : (xs : List X) (s : S) → P s → P (each change xs s).0
  unfolding each
  each_keeps [] s h = h
  each_keeps (x ∷ xs) s h = go_on_keeps (change x s) (keeps x s h) (each_keeps xs)
    where
      go_on_keeps :
          (first : S × Result (Unit {0}))
          → P first.0
          → ((t : S) → P t → P (each change xs t).0)
          → P (go_on first (each change xs)).0
      go_on_keeps (t, ok done) h k = k t h
      go_on_keeps (t, thrown e) h k = h

  pub is_ok-each : (xs : List X) (s : S) → P s → is_ok (each change xs s).1 ≡ all_of q xs
  unfolding each
  is_ok-each [] s h = refl
  is_ok-each (x ∷ xs) s h =
      is_ok-go_on (change x s) (each change xs)
      ∙ cong_and (decides x s h) (is_ok-each xs (change x s).0 (keeps x s h))
    where
      cong_and : {a b c d : Bool} → a ≡ b → c ≡ d → (a && c) ≡ (b && d)
      cong_and e f = rw (e, f) refl

-- Setting fields or values adds none.
abbrev pub HasSame : {V : Type 0} → Map String V → Map String V → Type 0
HasSame m m' = (n : String) → Map.has n m' ≡ Map.has n m

pub set-HasSame :
    {V : Type 0} (m m' : Map String V) (n : String) (v w : V)
    → HasSame m m'
    → Map.get n m' ≡ some w
    → HasSame m (Map.set n v m')
unfolding Map.has
set-HasSame m m' n v w h found =
    λ k. ground (arith, Map.get-set n k v m', string_eq.equal_iff n k, h k)

module _ {F : Type 0} where
  abbrev pub knows : Map String (SchemaField F) → String × Option F → Bool
  knows members (name, value) = is_hidden name || Map.has name members

  module _ (subscribes : Bool) (type : String) (members : Map String (SchemaField F)) where
    pub field-HasSame :
        (entry : String × Option F) (now : Map String (SchemaField F))
        → HasSame members now
        → HasSame members (set_field_resolver subscribes type entry now).0
    unfolding set_field_resolver
    field-HasSame (name, value) now h = elim (Option-cases (Map.get name now)) [
      | inl missing ↦ elim (Bool-cases (is_hidden name)) [
        | inl hidden ↦ rw (hidden, set_field_resolver) h
        | inr shown ↦ rw (shown, missing, set_field_resolver) h
      ]
      | inr (field, found) ↦
          let new = put subscribes value field in
          elim (Bool-cases (is_hidden name)) [
            | inl hidden ↦ rw (hidden, set_field_resolver) h
            | inr shown ↦
                rw (shown, found, set_field_resolver)
                  (set-HasSame members now name new field h found)
          ]
    ]

    pub is_ok-field :
        (entry : String × Option F) (now : Map String (SchemaField F))
        → HasSame members now
        → is_ok (set_field_resolver subscribes type entry now).1 ≡ knows members entry
    unfolding set_field_resolver Map.has
    is_ok-field (name, value) now h = ground (arith, h name)

  module _ (values : Map String (Option F)) where
    pub value-HasSame :
        (entry : String × Option F) (now : Map String (Option F))
        → HasSame values now
        → HasSame values (set_enum_value entry now).0
    unfolding set_enum_value
    value-HasSame (key, value) now h = elim (Option-cases (Map.get key now)) [
      | inl missing ↦ rw (missing, set_enum_value) h
      | inr (old, found) ↦ rw (found, set_enum_value) (set-HasSame values now key value old h found)
    ]

    pub is_ok-value :
        (entry : String × Option F) (now : Map String (Option F))
        → HasSame values now
        → is_ok (set_enum_value entry now).1 ≡ Map.has entry.0 values
    unfolding set_enum_value Map.has
    is_ok-value (key, value) now h = ground (arith, h key)

pub all_of_cong :
    {X : Type 0} (q q' : X → Bool) (xs : List X)
    → ((x : X) → q x ≡ q' x)
    → all_of q xs ≡ all_of q' xs
all_of_cong q q' [] h = refl
all_of_cong q q' (x ∷ xs) h = rw (h x, all_of_cong q q' xs h) refl
