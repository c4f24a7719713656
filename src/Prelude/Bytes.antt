-- ===== src/Prelude/Bytes.antt =====
-- Numbers in bytes, the lowest first, as `memcpy` writes them, and parts of lists of bytes.
use Prim.Native.Nat.{ℕ, zero, suc, ◌+◌, ◌-◌, ◌*◌, ◌/◌, ◌%◌, ◌^◌, ◌≤◌, ◌<◌}
use mathlib.Core.Path.{◌≡◌, refl, ap, ◌∙◌}
use mathlib.Core.List.{List, [], ◌∷◌, ◌++◌}
use native.Mathlib.Nat.{pow-suc}
use native.Mathlib.Omega.{arith}
use package.amind.Prelude.Lists.{length}

unfoldable pub le_bytes : (n x : ℕ) → List ℕ
le_bytes zero x = []
le_bytes (suc n) x = x % 256 ∷ le_bytes n (x / 256)

unfoldable pub le_value : List ℕ → ℕ
le_value [] = 0
le_value (b ∷ bs) = b + 256 * le_value bs

pub length-le_bytes : (n x : ℕ) → length (le_bytes n x) ≡ n
unfolding le_bytes
length-le_bytes zero x = refl
length-le_bytes (suc n) x = ap suc (length-le_bytes n (x / 256))

pub le_value-le_bytes : (n x : ℕ) → x < 256 ^ n → le_value (le_bytes n x) ≡ x
unfolding le_bytes le_value
le_value-le_bytes zero x h = omega arith
le_value-le_bytes (suc n) x h =
    omega (arith, le_value-le_bytes n (x / 256) (omega (arith, h, pow-suc 256 n)))

module _ {ℓ} {A : Type ℓ} where
  abbrev pub take : ℕ → List A → List A
  take zero xs = []
  take (suc n) [] = []
  take (suc n) (x ∷ xs) = x ∷ take n xs

  abbrev pub drop : ℕ → List A → List A
  drop zero xs = xs
  drop (suc n) [] = []
  drop (suc n) (x ∷ xs) = drop n xs

  pub append_assoc : (xs ys zs : List A) → (xs ++ ys) ++ zs ≡ xs ++ (ys ++ zs)
  append_assoc [] ys zs = refl
  append_assoc (x ∷ xs) ys zs = ap (λ (t : List A). x ∷ t) (append_assoc xs ys zs)

  pub append_nil : (xs : List A) → xs ++ [] ≡ xs
  append_nil [] = refl
  append_nil (x ∷ xs) = ap (λ (t : List A). x ∷ t) (append_nil xs)

  pub take_front : (n : ℕ) (xs ys : List A) → length xs ≡ n → take n (xs ++ ys) ≡ xs
  take_front zero [] ys h = refl
  take_front (suc n) [] ys h = absurd (omega (arith, h))
  take_front zero (x ∷ xs) ys h = absurd (omega (arith, h))
  take_front (suc n) (x ∷ xs) ys h =
      ap (λ (t : List A). x ∷ t) (take_front n xs ys (omega (arith, h)))

  pub drop_front : (n : ℕ) (xs ys : List A) → length xs ≡ n → drop n (xs ++ ys) ≡ ys
  drop_front zero [] ys h = refl
  drop_front (suc n) [] ys h = absurd (omega (arith, h))
  drop_front zero (x ∷ xs) ys h = absurd (omega (arith, h))
  drop_front (suc n) (x ∷ xs) ys h = drop_front n xs ys (omega (arith, h))

  -- A cut behind the front
  pub take_beyond :
      (k : ℕ) (xs ys : List A) → length xs ≤ k → take k (xs ++ ys) ≡ xs ++ take (k - length xs) ys
  take_beyond k [] ys h = let same : k ≡ k - 0 = omega arith in ap (λ (n : ℕ). take n ys) same
  take_beyond zero (x ∷ xs) ys h = absurd (omega (arith, h))
  take_beyond (suc k) (x ∷ xs) ys h =
      let rest : k - length xs ≡ suc k - suc (length xs) = omega arith in
      ap (λ (t : List A). x ∷ t)
        (take_beyond k xs ys (omega (arith, h)) ∙ ap (λ (n : ℕ). xs ++ take n ys) rest)

  pub take-take_le : (j k : ℕ) (xs : List A) → j ≤ k → take j (take k xs) ≡ take j xs
  take-take_le zero k xs h = refl
  take-take_le (suc j) zero xs h = absurd (omega (arith, h))
  take-take_le (suc j) (suc k) [] h = refl
  take-take_le (suc j) (suc k) (x ∷ xs) h =
      ap (λ (t : List A). x ∷ t) (take-take_le j k xs (omega (arith, h)))

  pub length-take_le : (k : ℕ) (xs : List A) → length (take k xs) ≤ k
  length-take_le zero xs = omega arith
  length-take_le (suc k) [] = omega arith
  length-take_le (suc k) (x ∷ xs) = omega (arith, length-take_le k xs)

  length-take_within : (k : ℕ) (xs : List A) → k ≤ length xs → length (take k xs) ≡ k
  length-take_within zero xs h = refl
  length-take_within (suc k) [] h = absurd (omega (arith, h))
  length-take_within (suc k) (x ∷ xs) h = ap suc (length-take_within k xs (omega (arith, h)))

  pub take_all : (xs : List A) → take (length xs) xs ≡ xs
  take_all [] = refl
  take_all (x ∷ xs) = ap (λ (t : List A). x ∷ t) (take_all xs)

  -- A place behind the front
  pub drop_over : (n k : ℕ) (xs ys : List A) → length xs ≡ n → drop (n + k) (xs ++ ys) ≡ drop k ys
  drop_over n k [] ys h = let same : n + k ≡ k = omega (arith, h) in ap (λ (m : ℕ). drop m ys) same
  drop_over zero k (x ∷ xs) ys h = absurd (omega (arith, h))
  drop_over (suc n) k (x ∷ xs) ys h =
      let shift : suc n + k ≡ suc (n + k) = omega arith in
      ap (λ (m : ℕ). drop m (x ∷ (xs ++ ys))) shift ∙ drop_over n k xs ys (omega (arith, h))

  pub length-drop : (n : ℕ) (xs : List A) → length (drop n xs) ≡ length xs - n
  length-drop zero xs = omega arith
  length-drop (suc n) [] = omega arith
  length-drop (suc n) (x ∷ xs) = omega (arith, length-drop n xs)
