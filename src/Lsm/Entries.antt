-- ===== src/Lsm/Entries.antt =====
-- Lists of entries with strictly rising keys, and what is found in them.
use amind.Prelude.{
  ℕ, zero, suc, ◌≤◌, ◌<◌, ◌≡◌, refl, Option, none, some, List, [], ◌∷◌, ◌++◌, arith, get_elem?,
  length, ◌==◌, Bool-cases, inl, inr,
}
use amind.Prelude.Map

abbrev pub Entry : Type 0
Entry = ℕ × List ℕ

abbrev pub or_else {ℓ} : {V : Type ℓ} → Option V → Option V → Option V
or_else (some v) o = some v
or_else none o = o

module _ {V : Type 0} where
  abbrev pub AllAbove : ℕ → List (ℕ × V) → Type 0
  AllAbove k [] = Unit {0}
  AllAbove k ((j, v) ∷ m) = (k < j) × AllAbove k m

  abbrev pub Ascending : List (ℕ × V) → Type 0
  Ascending [] = Unit {0}
  Ascending ((j, v) ∷ m) = AllAbove j m × Ascending m

  pub AllAbove-le : (j k : ℕ) (m : List (ℕ × V)) → j ≤ k → AllAbove k m → AllAbove j m
  AllAbove-le j k [] h a = tt
  AllAbove-le j k ((i, v) ∷ m) h a = (omega arith, AllAbove-le j k m h a.1)

  pub AllAbove-append :
      (k : ℕ) (m n : List (ℕ × V)) → AllAbove k (m ++ n) → AllAbove k m × AllAbove k n
  AllAbove-append k [] n a = (tt, a)
  AllAbove-append k ((j, v) ∷ m) n a = let (l, r) = AllAbove-append k m n a.1 in ((a.0, l), r)

  pub Ascending-append : (m n : List (ℕ × V)) → Ascending (m ++ n) → Ascending m × Ascending n
  Ascending-append [] n a = (tt, a)
  Ascending-append ((j, v) ∷ m) n a =
      let (l, r) = Ascending-append m n a.1 in ((((AllAbove-append j m n a.0).0), l), r)

  pub find-above : (j k : ℕ) (m : List (ℕ × V)) → j ≤ k → AllAbove k m → Map.find j m ≡ none
  unfolding Map.find
  find-above j k [] h a = refl
  find-above j k ((i, v) ∷ m) h a = ground (arith, find-above j k m h a.1)

  pub find-append :
      (k : ℕ) (m n : List (ℕ × V)) → Map.find k (m ++ n) ≡ or_else (Map.find k m) (Map.find k n)
  unfolding Map.find
  find-append k [] n = refl
  find-append k ((i, v) ∷ m) n = ground (arith, find-append k m n)

  -- What stands before an entry has a smaller key.
  pub find-before :
      (k j : ℕ) (v : V) (m n : List (ℕ × V))
      → Ascending (m ++ (j, v) ∷ n)
      → j ≤ k
      → Map.find k m ≡ none
  unfolding Map.find
  find-before k j v [] n a h = refl
  find-before k j v ((i, w) ∷ m) n a h =
      ground (arith, (AllAbove-append i m ((j, v) ∷ n) a.0).1, find-before k j v m n a.1 h)

  pub AllAbove-get_elem? :
      (k : ℕ) (m : List (ℕ × V)) (i j : ℕ) (v : V)
      → AllAbove k m
      → get_elem? m i ≡ some (j, v)
      → k < j
  AllAbove-get_elem? k [] i j v a e = absurd (cc)
  AllAbove-get_elem? k ((j', w) ∷ m) zero j v a e = ground arith
  AllAbove-get_elem? k ((j', w) ∷ m) (suc i) j v a e = AllAbove-get_elem? k m i j v a.1 e

  -- Keys rise with the index.
  pub Ascending-get_elem? :
      (m : List (ℕ × V)) (i i' j j' : ℕ) (v v' : V)
      → Ascending m
      → get_elem? m i ≡ some (j, v)
      → get_elem? m i' ≡ some (j', v')
      → i < i'
      → j < j'
  Ascending-get_elem? [] i i' j j' v v' a e e' h = absurd (cc)
  Ascending-get_elem? ((k, w) ∷ m) i zero j j' v v' a e e' h = absurd (omega arith)
  Ascending-get_elem? ((k, w) ∷ m) zero (suc i') j j' v v' a e e' h =
      ground (arith, AllAbove-get_elem? k m i' j' v' a.0 e')
  Ascending-get_elem? ((k, w) ∷ m) (suc i) (suc i') j j' v v' a e e' h =
      Ascending-get_elem? m i i' j j' v v' a.1 e e' (omega arith)

  pub get_elem?-find :
      (m : List (ℕ × V)) (i k : ℕ) (v : V)
      → Ascending m
      → get_elem? m i ≡ some (k, v)
      → Map.find k m ≡ some v
  unfolding Map.find
  get_elem?-find [] i k v a e = absurd (cc)
  get_elem?-find ((j, w) ∷ m) zero k v a e = ground arith
  get_elem?-find ((j, w) ∷ m) (suc i) k v a e =
      ground (arith, AllAbove-get_elem? j m i k v a.0 e, get_elem?-find m i k v a.1 e)

  pub find-get_elem? :
      (m : List (ℕ × V)) (k : ℕ) (v : V)
      → Map.find k m ≡ some v
      → (i : ℕ) × (i < length m) × (get_elem? m i ≡ some (k, v))
  unfolding Map.find
  find-get_elem? [] k v e = absurd (cc)
  find-get_elem? ((j, w) ∷ m) k v e = elim (Bool-cases (j == k)) [
    | inl same ↦ (0, omega arith, ground arith)
    | inr other ↦ let (i, h, p) = find-get_elem? m k v (ground arith) in (suc i, omega arith, p)
  ]
