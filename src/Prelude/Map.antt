-- ===== src/Prelude/Map.antt =====
-- `std::unordered_map` keyed by 64-bit ids, as an association list. The list's order stands for
-- the unspecified order in which the container is walked.
use Prim.Native.Nat.{ℕ}
use mathlib.Core.Path.{◌≡◌, refl}
use mathlib.Core.Logic.{◌≢◌}
use mathlib.Core.Bool.{true, false}
use mathlib.Core.List.{List, [], ◌∷◌}
use mathlib.Core.Option.{Option, none, some}
use native.Mathlib.Omega.{arith}
use package.amind.Prelude.Tests.{◌==◌, if◌then◌else◌}

module _ {ℓ} {V : Type ℓ} where
  -- `find`
  unfoldable pub find : ℕ → List (ℕ × V) → Option V
  find k [] = none
  find k ((j, v) ∷ m) = if j == k then some v else find k m

  -- `m[k] = v`: overwrites in place, or adds an entry.
  unfoldable pub assign : ℕ → V → List (ℕ × V) → List (ℕ × V)
  assign k v [] = (k, v) ∷ []
  assign k v ((j, w) ∷ m) = if j == k then (j, v) ∷ m else (j, w) ∷ assign k v m

  -- `erase(k)`
  unfoldable pub erase : ℕ → List (ℕ × V) → List (ℕ × V)
  erase k [] = []
  erase k ((j, w) ∷ m) = if j == k then erase k m else (j, w) ∷ erase k m

  -- `m[k]`, which reads a default for a missing key
  abbrev pub find_or : V → ℕ → List (ℕ × V) → V
  find_or d k m = elim (find k m) [ none ↦ d | some v ↦ v ]

  pub find_here :
      (j k : ℕ) (v : V) (m : List (ℕ × V)) → (j == k) ≡ true → find k ((j, v) ∷ m) ≡ some v
  unfolding find
  find_here j k v m e = rw e refl

  pub find_there :
      (j k : ℕ) (v : V) (m : List (ℕ × V)) → (j == k) ≡ false → find k ((j, v) ∷ m) ≡ find k m
  unfolding find
  find_there j k v m e = rw e refl

  pub find-assign :
      (k j : ℕ) (v : V) (m : List (ℕ × V))
      → find j (assign k v m) ≡ (if k == j then some v else find j m)
  unfolding find assign
  find-assign k j v [] = refl
  find-assign k j v ((i, w) ∷ m) = ground (arith, find-assign k j v m)

  pub find-erase :
      (k j : ℕ) (m : List (ℕ × V)) → find j (erase k m) ≡ (if k == j then none else find j m)
  unfolding find erase
  find-erase k j [] = ground arith
  find-erase k j ((i, w) ∷ m) = ground (arith, find-erase k j m)

  pub find-assign_self : (k : ℕ) (v : V) (m : List (ℕ × V)) → find k (assign k v m) ≡ some v
  find-assign_self k v m = ground (arith, find-assign k k v m)

  pub find-assign_ne :
      (k j : ℕ) (v : V) (m : List (ℕ × V)) → k ≢ j → find j (assign k v m) ≡ find j m
  find-assign_ne k j v m h = ground (arith, find-assign k j v m)

  find-erase_self : (k : ℕ) (m : List (ℕ × V)) → find k (erase k m) ≡ none
  find-erase_self k m = ground (arith, find-erase k k m)

  find-erase_ne : (k j : ℕ) (m : List (ℕ × V)) → k ≢ j → find j (erase k m) ≡ find j m
  find-erase_ne k j m h = ground (arith, find-erase k j m)

module _ {ℓ κ} {V : Type ℓ} {W : Type κ} where
  -- `for (auto& [k, v] : m) v = f(v)`
  unfoldable pub map_values : (V → W) → List (ℕ × V) → List (ℕ × W)
  map_values f [] = []
  map_values f ((k, v) ∷ m) = (k, f v) ∷ map_values f m

  abbrev pub map_some : (V → W) → Option V → Option W
  map_some f none = none
  map_some f (some v) = some (f v)

  pub find-map_values :
      (f : V → W) (k : ℕ) (m : List (ℕ × V)) → find k (map_values f m) ≡ map_some f (find k m)
  unfolding find map_values
  find-map_values f k [] = refl
  find-map_values f k ((j, v) ∷ m) = ground (arith, find-map_values f k m)
