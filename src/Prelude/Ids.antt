-- ===== src/Prelude/Ids.antt =====
-- `std::unordered_set` and `std::vector` of 64-bit ids, as lists.
use Prim.Native.Nat.{ℕ}
use mathlib.Core.Path.{◌≡◌, refl}
use mathlib.Core.Bool.{Bool, true, false, ◌||◌}
use mathlib.Core.List.{List, [], ◌∷◌, ◌++◌}
use native.Mathlib.Omega.{arith}
use package.amind.Prelude.Tests.{◌==◌, if◌then◌else◌}

-- `s.count(x)`
unfoldable pub contains : ℕ → List ℕ → Bool
contains x [] = false
contains x (y ∷ s) = y == x || contains x s

-- `s.insert(x)` of a set: no second copy.
unfoldable pub insert : ℕ → List ℕ → List ℕ
unfolding contains
insert x s = if contains x s then s else s ++ x ∷ []

-- `s.erase(x)`, and `std::remove` on a vector.
unfoldable pub erase : ℕ → List ℕ → List ℕ
erase x [] = []
erase x (y ∷ s) = if y == x then erase x s else y ∷ erase x s

-- `s.empty()`
abbrev pub is_empty {ℓ} : {A : Type ℓ} → List A → Bool
is_empty [] = true
is_empty (x ∷ s) = false

pub contains-append : (x : ℕ) (s t : List ℕ) → contains x (s ++ t) ≡ (contains x s || contains x t)
unfolding contains
contains-append x [] t = refl
contains-append x (y ∷ s) t = ground (arith, contains-append x s t)

pub contains-insert : (x y : ℕ) (s : List ℕ) → contains y (insert x s) ≡ (x == y || contains y s)
unfolding insert contains
contains-insert x y s = ground (arith, contains-append y s (x ∷ []), contains_eq x y s)
  where
    contains_eq : (x y : ℕ) (s : List ℕ) → contains x s ≡ true → x ≡ y → contains y s ≡ true
    contains_eq x y s h e = rw e at h

pub contains-erase :
    (x y : ℕ) (s : List ℕ) → contains y (erase x s) ≡ (if x == y then false else contains y s)
unfolding erase contains
contains-erase x y [] = ground arith
contains-erase x y (z ∷ s) = ground (arith, contains-erase x y s)
