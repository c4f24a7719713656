-- ===== src/MemoryStore/Distinct.antt =====
-- The cache of src/memory/memory_store.cpp has one entry for a key, as a map has.
use amind.Prelude.{ℕ, ◌≡◌, refl, ◌∙◌, false, inl, inr, none, List, [], ◌∷◌, arith, ◌==◌, Bool-cases}
use amind.Prelude.Map.{find, assign, find-assign}
use package.amind.MemoryStore.{MemoryStore}
use package.amind.MemoryStore.Parts.{Backend}

flip_test : (j k : ℕ) → (j == k) ≡ false → (k == j) ≡ false
flip_test j k e = ground (arith, e)

module _ {ℓ} {V : Type ℓ} where
  abbrev pub IsDistinct : List (ℕ × V) → Type ℓ
  IsDistinct [] = Unit {ℓ}
  IsDistinct ((k, v) ∷ m) = (find k m ≡ none) × IsDistinct m

  pub assign-IsDistinct :
      (k : ℕ) (v : V) (m : List (ℕ × V)) → IsDistinct m → IsDistinct (assign k v m)
  unfolding assign find
  assign-IsDistinct k v [] d = (refl, tt)
  assign-IsDistinct k v ((j, w) ∷ m) d = elim (Bool-cases (j == k)) [
    | inl e ↦ rw (e, assign) d
    | inr e ↦
        rw (e, assign) (find-assign k j v m ∙ rw (flip_test j k e) d.0, assign-IsDistinct k v m d.1)
  ]

module _ (P : Backend) where
  abbrev pub HasKeys : MemoryStore P → Type 0
  HasKeys s = IsDistinct s.cache
