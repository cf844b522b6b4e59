-- ===== src/Common/Relations.antt =====
-- Any number of steps of a relation on states.

pub data Steps {ℓ κ} {S : Type ℓ} (Step : S → S → Type κ) (s : S) : S → Type (ℓ ⊔ κ) where
  stays : Steps Step s s
  moves : {t u : S} → Steps Step s t → Step t u → Steps Step s u

module _ {ℓ κ} {S : Type ℓ} {Step : S → S → Type κ} where
  pub single : {s t : S} → Step s t → Steps Step s t
  single m = moves stays m

  pub Steps-trans : {s t u : S} → Steps Step s t → Steps Step t u → Steps Step s u
  Steps-trans ms stays = ms
  Steps-trans ms (moves ns m) = moves (Steps-trans ms ns) m

  -- What every step keeps, steps keep.
  pub Steps-keep {ι} :
      (P : S → Type ι) → ((s t : S) → Step s t → P s → P t) → {s t : S} → Steps Step s t → P s → P t
  Steps-keep P keep stays p = p
  Steps-keep P keep (moves {t} {u} ms m) p = keep t u m (Steps-keep P keep ms p)
