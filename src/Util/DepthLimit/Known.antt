-- ===== src/Util/DepthLimit/Known.antt =====
-- The fragment spreads of a document, for limitDepth.ts.
use graphqlade.Common.{
  String, ◌≡◌, refl, subst, inl, inr, true, false, Option, List, [], ◌∷◌, ◌++◌, ◌∈◌,
  mem-append_left, mem-append_right, string_eq,
}
use graphqlade.Graphql.{
  Selections, field_node, inline_fragment, fragment_spread, select, OperationKind, Definition,
  operation, fragment, Document,
}
use graphqlade.Util.DepthLimit.{is_empty, is_last, last, spreads, spreads_in}
use graphqlade.Util.DepthLimit.Paths.{last-snoc}

abbrev pub names_of : Document → List String
names_of document = spreads_in document.definitions

-- The spreads of a list of selections are spreads of the document.
abbrev pub AreKnown : Document → Selections → Type 0
AreKnown document sels = (name : String) → name ∈ spreads sels → name ∈ names_of document

pub operation-spreads :
    (kind : OperationKind) (n : Option String) (below : Selections) (ds : List Definition)
    (name : String)
    → operation kind n below ∈ ds
    → name ∈ spreads below
    → name ∈ spreads_in ds
unfolding spreads_in
operation-spreads kind n below [] name m h = absurd m
operation-spreads kind n below (d ∷ ds) name (inl e) h =
    subst (λ c. name ∈ spreads_in (c ∷ ds)) e
      (mem-append_left name (spreads below) (spreads_in ds) h)
operation-spreads kind n below (d ∷ ds) name (inr m) h =
    later d (operation-spreads kind n below ds name m h)
  where
    later : (c : Definition) → name ∈ spreads_in ds → name ∈ spreads_in (c ∷ ds)
    later (operation _ _ b) k = mem-append_right name (spreads b) (spreads_in ds) k
    later (fragment _ b) k = mem-append_right name (spreads b) (spreads_in ds) k
    later _ k = k

pub fragment-spreads :
    (n : String) (below : Selections) (ds : List Definition) (name : String)
    → fragment n below ∈ ds
    → name ∈ spreads below
    → name ∈ spreads_in ds
unfolding spreads_in
fragment-spreads n below [] name m h = absurd m
fragment-spreads n below (d ∷ ds) name (inl e) h =
    subst (λ c. name ∈ spreads_in (c ∷ ds)) e
      (mem-append_left name (spreads below) (spreads_in ds) h)
fragment-spreads n below (d ∷ ds) name (inr m) h = later d (fragment-spreads n below ds name m h)
  where
    later : (c : Definition) → name ∈ spreads_in ds → name ∈ spreads_in (c ∷ ds)
    later (operation _ _ b) k = mem-append_right name (spreads b) (spreads_in ds) k
    later (fragment _ b) k = mem-append_right name (spreads b) (spreads_in ds) k
    later _ k = k

pub AreKnown-field :
    (document : Document) (n : String) (below rest : Selections)
    → AreKnown document (select (field_node n below) rest)
    → AreKnown document below × AreKnown document rest
unfolding spreads
AreKnown-field document n below rest h = (
  λ name m. h name (mem-append_left name (spreads below) (spreads rest) m),
  λ name m. h name (mem-append_right name (spreads below) (spreads rest) m),
)

pub AreKnown-inline :
    (document : Document) (below rest : Selections)
    → AreKnown document (select (inline_fragment below) rest)
    → AreKnown document below × AreKnown document rest
unfolding spreads
AreKnown-inline document below rest h = (
  λ name m. h name (mem-append_left name (spreads below) (spreads rest) m),
  λ name m. h name (mem-append_right name (spreads below) (spreads rest) m),
)

pub AreKnown-spread :
    (document : Document) (n : String) (rest : Selections)
    → AreKnown document (select (fragment_spread n) rest)
    → n ∈ names_of document × AreKnown document rest
unfolding spreads
AreKnown-spread document n rest h = (h n (inl refl), λ name m. h name (inr m))

pub is_last-snoc :
    (path : List String) (name : String) → is_last name (last (path ++ name ∷ [])) ≡ true
is_last-snoc path name = rw (last-snoc path name) ((string_eq.equal_iff name name).1 refl)

pub is_last_snoc-eq :
    (path : List String) (name other : String)
    → is_last other (last (path ++ name ∷ [])) ≡ true
    → other ≡ name
is_last_snoc-eq path name other e =
    (string_eq.equal_iff other name).0 (rw (last-snoc path name) at e)

pub is_empty-snoc : (path : List String) (name : String) → is_empty (path ++ name ∷ []) ≡ false
is_empty-snoc [] name = refl
is_empty-snoc (f ∷ path) name = refl
