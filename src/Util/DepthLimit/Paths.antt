-- ===== src/Util/DepthLimit/Paths.antt =====
-- The paths of fragment spreads of limitDepth.ts: the test for a circle, and their last name.
use graphqlade.Common.{
  ℕ, suc, ◌<◌, String, ◌≡◌, ◌≢◌, refl, sym, subst, ◌↔◌, ◌⊎◌, inl, inr, Bool, true, false, ◌||◌,
  some, List, [], ◌∷◌, ◌++◌, length, length-append, All, All-append, Distinct, ◌===◌, string_eq,
  Bool-cases, arith,
}
use mathlib.Core.List.{append_assoc}
use graphqlade.Util.DepthLimit.{index_of, differs, repeats_from, is_circular, last}

-- Where a name is first found that stands after `before`.
IsFirst : String → List String → ℕ → Type 0
IsFirst f before j =
    ((j ≡ length before) × All (λ g. g ≢ f) before)
    ⊎ ((j < length before) × ¬ All (λ g. g ≢ f) before)

index_of-append :
    (f : String) (before rest : List String)
    → (j : ℕ) × (index_of f (before ++ f ∷ rest) ≡ some j) × IsFirst f before j
unfolding index_of IsFirst
index_of-append f [] rest = (0, rw ((string_eq.equal_iff f f).1 refl) refl, inl (refl, tt))
index_of-append f (g ∷ before) rest = elim (Bool-cases (g === f)) [
  | inl same ↦ (0, rw same refl, inr (omega arith, λ h. h.0 ((string_eq.equal_iff g f).0 same)))
  | inr other ↦
      let (j, found, first) = index_of-append f before rest in
      let apart : g ≢ f = λ e. cc (other, (string_eq.equal_iff g f).1 e) in
      (suc j, rw (other, found) refl, later j apart first)
]
  where
    later : (j : ℕ) → g ≢ f → IsFirst f before j → IsFirst f (g ∷ before) (suc j)
    later j apart (inl (e, fresh)) = inl (omega (arith, e), (apart, fresh))
    later j apart (inr (lt, old)) = inr (omega (arith, lt), λ h. old h.1)

differs_iff :
    (f : String) (before rest : List String)
    → (differs (length before) (index_of f (before ++ f ∷ rest)) ≡ false) ↔ All (λ g. g ≢ f) before
unfolding IsFirst
differs_iff f before rest =
    let (j, found, first) = index_of-append f before rest in
    elim first [
      | inl (e, fresh) ↦ (λ _. fresh, λ _. rw found (ground arith))
      | inr (lt, old) ↦ (
        λ same. absurd (omega (arith, apart j lt (rw found at same))),
        λ fresh. absurd (old fresh),
      )
    ]
  where
    apart : (j : ℕ) → j < length before → differs (length before) (some j) ≡ false → ⊥
    apart j lt same = ground arith

-- `rest` has no repetition, and nothing of what is before.
Fresh : List String → List String → Type 0
Fresh before rest = Distinct rest × All (λ f. All (λ g. g ≢ f) before) rest

All-snoc :
    (f : String) (before rest : List String)
    → All (λ x. All (λ g. g ≢ x) (before ++ f ∷ [])) rest
    → All (λ x. All (λ g. g ≢ x) before) rest × All (λ x. x ≢ f) rest
All-snoc f before [] h = (tt, tt)
All-snoc f before (x ∷ rest) (p, h) =
    let (old, new) = All-snoc f before rest h in
    let (here, there) = split before p in ((here, old), (λ e. there (sym e), new))
  where
    split : (ys : List String) → All (λ g. g ≢ x) (ys ++ f ∷ []) → All (λ g. g ≢ x) ys × (f ≢ x)
    split [] (q, _) = (tt, q)
    split (y ∷ ys) (q, k) = let (l, r) = split ys k in ((q, l), r)

snoc-All :
    (f : String) (before rest : List String)
    → All (λ x. All (λ g. g ≢ x) before) rest
    → All (λ x. x ≢ f) rest
    → All (λ x. All (λ g. g ≢ x) (before ++ f ∷ [])) rest
snoc-All f before [] h k = tt
snoc-All f before (x ∷ rest) (p, h) (q, k) =
    (All-append (λ g. g ≢ x) before (f ∷ []) p (λ e. q (sym e), tt), snoc-All f before rest h k)

repeats_from_iff :
    (before rest : List String)
    → (repeats_from (length before) (before ++ rest) rest ≡ false) ↔ Fresh before rest
unfolding repeats_from Fresh
repeats_from_iff before [] = (λ _. (tt, tt), λ _. refl)
repeats_from_iff before (f ∷ rest) =
    let (to, from) = differs_iff f before rest in
    let (to', from') = moved (repeats_from_iff (before ++ f ∷ []) rest) in
    (
      λ e.
          let (here, there) = neither _ _ e in
          let (d, all) = to' there in
          let (old, new) = All-snoc f before rest all in ((new, d), (to here, old)),
      λ h. rw (from h.1.0) (from' (h.0.1, snoc-All f before rest h.1.1 h.0.0)),
    )
  where
    neither : (a b : Bool) → (a || b) ≡ false → (a ≡ false) × (b ≡ false)
    neither false b e = (refl, e)
    neither true b e = cc

    moved :
        ((repeats_from (length (before ++ f ∷ [])) ((before ++ f ∷ []) ++ rest) rest ≡ false)
          ↔ Fresh (before ++ f ∷ []) rest)
        → (repeats_from (suc (length before)) (before ++ f ∷ rest) rest ≡ false)
          ↔ Fresh (before ++ f ∷ []) rest
    moved iff =
        subst
          (λ all.
            (repeats_from (suc (length before)) all rest ≡ false) ↔ Fresh (before ++ f ∷ []) rest)
          (append_assoc before (f ∷ []) rest)
          (subst
            (λ n.
              (repeats_from n ((before ++ f ∷ []) ++ rest) rest ≡ false)
              ↔ Fresh (before ++ f ∷ []) rest)
            (omega (arith, length-append before (f ∷ []))) iff)

-- The test of the code finds exactly the paths without repetition.
pub is_circular_iff : (path : List String) → (is_circular path ≡ false) ↔ Distinct path
unfolding is_circular Fresh
is_circular_iff path =
    let (to, from) = repeats_from_iff [] path in (λ e. (to e).0, λ d. from (d, nothing path))
  where
    nothing : (rest : List String) → All (λ f. All (λ g. g ≢ f) []) rest
    nothing [] = tt
    nothing (x ∷ rest) = (tt, nothing rest)

-- A path and its extension by one name.
pub Distinct-snoc :
    (path : List String) (name : String)
    → Distinct (path ++ name ∷ []) ↔ (Distinct path × All (λ f. f ≢ name) path)
Distinct-snoc [] name = (λ h. (tt, tt), λ h. (tt, tt))
Distinct-snoc (f ∷ path) name =
    let (to, from) = Distinct-snoc path name in
    (
      λ h.
          let (old, new) = front path h.0 in
          let (d, fresh) = to h.1 in ((old, d), (λ e. new (sym e), fresh)),
      λ h. (
        All-append (λ y. y ≢ f) path (name ∷ []) h.0.0 (λ e. h.1.0 (sym e), tt),
        from (h.0.1, h.1.1),
      ),
    )
  where
    front :
        (ys : List String) → All (λ y. y ≢ f) (ys ++ name ∷ []) → All (λ y. y ≢ f) ys × (name ≢ f)
    front [] (q, _) = (tt, q)
    front (y ∷ ys) (q, k) = let (l, r) = front ys k in ((q, l), r)

pub last-snoc : (path : List String) (name : String) → last (path ++ name ∷ []) ≡ some name
unfolding last
last-snoc [] name = refl
last-snoc (f ∷ []) name = refl
last-snoc (f ∷ g ∷ path) name = last-snoc (g ∷ path) name
