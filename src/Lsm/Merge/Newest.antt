-- ===== src/Lsm/Merge/Newest.antt =====
-- The merge keeps, for each key, the value in the first table that has the key, unless it is empty.
use amind.Prelude.{
  ℕ, suc, ◌+◌, ◌≤◌, ◌≡◌, ◌≢◌, refl, ap, sym, subst, Option, none, some, List, [], ◌∷◌, ◌++◌, arith,
  ◌==◌, length, Bool-cases, Option-cases, inl, inr,
}
use amind.Prelude.Map
use amind.Lsm.Entries.{Entry, Ascending, AllAbove, find-above, or_else}
use amind.Lsm.SsTable.{for_each}
use amind.Lsm.SsTable.Cursor.{
  Cursor, invalid, at, remaining, IsFilled, next-IsFilled, remaining-next,
}
use amind.Lsm.Merge.{min_key, pop}

-- The value of a key in the first cursor that has it.
abbrev pub newest : ℕ → List Cursor → Option (List ℕ)
newest key [] = none
newest key (c ∷ heap) = or_else (Map.find key (remaining c)) (newest key heap)

abbrev pub live : Option (List ℕ) → Option (List ℕ)
live none = none
live (some []) = none
live (some (b ∷ v)) = some (b ∷ v)

abbrev pub total : List Cursor → ℕ
total [] = 0
total (c ∷ heap) = length (remaining c) + total heap

abbrev pub AllSound : List Cursor → Type 0
AllSound [] = Unit {0}
AllSound (c ∷ heap) = Ascending (remaining c) × IsFilled c × AllSound heap

-- Every key is at least `k`.
abbrev pub AllFrom : ℕ → List Entry → Type 0
AllFrom k [] = Unit {0}
AllFrom k ((j, v) ∷ es) = (k ≤ j) × AllFrom k es

abbrev pub HeapFrom : ℕ → List Cursor → Type 0
HeapFrom k [] = Unit {0}
HeapFrom k (c ∷ heap) = AllFrom k (remaining c) × HeapFrom k heap

AllAbove-AllFrom : (k j : ℕ) (es : List Entry) → k ≤ j → AllAbove j es → AllFrom k es
AllAbove-AllFrom k j [] h a = tt
AllAbove-AllFrom k j ((i, v) ∷ es) h a = (omega arith, AllAbove-AllFrom k j es h a.1)

HeapFrom-le : (k j : ℕ) (heap : List Cursor) → k ≤ j → HeapFrom j heap → HeapFrom k heap
HeapFrom-le k j [] h f = tt
HeapFrom-le k j (c ∷ heap) h f = (from_le k j (remaining c) h f.0, HeapFrom-le k j heap h f.1)
  where
    from_le : (k j : ℕ) (es : List Entry) → k ≤ j → AllFrom j es → AllFrom k es
    from_le k j [] h f = tt
    from_le k j ((i, v) ∷ es) h f = (omega arith, from_le k j es h f.1)

-- Nothing is left when no cursor is valid.
pub min_key-none : (heap : List Cursor) (key : ℕ) → min_key heap ≡ none → newest key heap ≡ none
unfolding min_key Map.find
min_key-none [] key e = refl
min_key-none (invalid ∷ heap) key e = min_key-none heap key e
min_key-none (at (k, v) es blocks ∷ heap) key e = elim (Option-cases (min_key heap)) [
  | inl alone ↦ absurd (ground (arith, alone))
  | inr (j, more) ↦ absurd (ground (arith, more))
]

exhausted-HeapFrom : (heap : List Cursor) (m : ℕ) → min_key heap ≡ none → HeapFrom m heap
unfolding min_key
exhausted-HeapFrom [] m e = tt
exhausted-HeapFrom (invalid ∷ heap) m e = (tt, exhausted-HeapFrom heap m e)
exhausted-HeapFrom (at (k, v) es blocks ∷ heap) m e = elim (Option-cases (min_key heap)) [
  | inl alone ↦ absurd (ground (arith, alone))
  | inr (j, more) ↦ absurd (ground (arith, more))
]

pub min_key-HeapFrom :
    (heap : List Cursor) (m : ℕ) → AllSound heap → min_key heap ≡ some m → HeapFrom m heap
unfolding min_key
min_key-HeapFrom [] m s e = tt
min_key-HeapFrom (invalid ∷ heap) m s e = (tt, min_key-HeapFrom heap m s.2 e)
min_key-HeapFrom (at (k, v) es blocks ∷ heap) m s e = elim (Option-cases (min_key heap)) [
  | inl alone ↦ (
    (
      ground (arith, alone),
      AllAbove-AllFrom m k (es ++ for_each blocks) (ground (arith, alone)) s.0.0,
    ),
    exhausted-HeapFrom heap m alone,
  )
  | inr (j, more) ↦ (
    (
      ground (arith, more),
      AllAbove-AllFrom m k (es ++ for_each blocks) (ground (arith, more)) s.0.0,
    ),
    HeapFrom-le m j heap (ground (arith, more)) (min_key-HeapFrom heap j s.2 more),
  )
]

-- The least key is one of the heap's.
pub HeapFrom-min_key :
    (heap : List Cursor) (k m : ℕ) → HeapFrom k heap → min_key heap ≡ some m → k ≤ m
unfolding min_key
HeapFrom-min_key [] k m f e = absurd (cc)
HeapFrom-min_key (invalid ∷ heap) k m f e = HeapFrom-min_key heap k m f.1 e
HeapFrom-min_key (at (j, v) es blocks ∷ heap) k m f e = elim (Option-cases (min_key heap)) [
  | inl alone ↦ ground (arith, alone)
  | inr (i, more) ↦ ground (arith, more, HeapFrom-min_key heap k i f.1 more)
]

-- Popping the least key.
pub pop-newest :
    (heap : List Cursor) (m : ℕ)
    → AllSound heap
    → HeapFrom m heap
    → min_key heap ≡ some m
    → newest m heap ≡ some (pop m heap).0
unfolding min_key pop Map.find
pop-newest [] m s f e = absurd (cc)
pop-newest (invalid ∷ heap) m s f e = pop-newest heap m s.2 f.1 e
pop-newest (at (k, v) es blocks ∷ heap) m s f e = elim (Bool-cases (k == m)) [
  | inl here ↦ ground (arith, here)
  | inr later ↦ elim (Option-cases (min_key heap)) [
    | inl alone ↦ absurd (ground (arith, alone))
    | inr (j, more) ↦ ground (
      arith,
      more,
      find-above m k (es ++ for_each blocks) (ground arith) s.0.0,
      pop-newest heap m s.2 f.1 (ground (arith, more)),
    )
  ]
]

pub pop-others :
    (heap : List Cursor) (m key : ℕ)
    → AllSound heap
    → m ≢ key
    → newest key (pop m heap).1 ≡ newest key heap
unfolding pop Map.find
pop-others [] m key s d = refl
pop-others (invalid ∷ heap) m key s d = pop-others heap m key s.2 d
pop-others (at (k, v) es blocks ∷ heap) m key s d =
    ground (arith, remaining-next (k, v) es blocks s.1, pop-others heap m key s.2 d)

pub pop-AllSound : (heap : List Cursor) (m : ℕ) → AllSound heap → AllSound (pop m heap).1
unfolding pop
pop-AllSound [] m s = tt
pop-AllSound (invalid ∷ heap) m s = (tt, tt, pop-AllSound heap m s.2)
pop-AllSound (at (k, v) es blocks ∷ heap) m s = elim (Bool-cases (k == m)) [
  | inl here ↦
      rw (here, pop)
        (
          subst Ascending (sym (remaining-next (k, v) es blocks s.1)) s.0.1,
          next-IsFilled (at (k, v) es blocks) s.1,
          s.2,
        )
  | inr later ↦ rw (later, pop) (s.0, s.1, pop-AllSound heap m s.2)
]

pub pop-HeapFrom :
    (heap : List Cursor) (m : ℕ) → AllSound heap → HeapFrom m heap → HeapFrom m (pop m heap).1
unfolding pop
pop-HeapFrom [] m s f = tt
pop-HeapFrom (invalid ∷ heap) m s f = (tt, pop-HeapFrom heap m s.2 f.1)
pop-HeapFrom (at (k, v) es blocks ∷ heap) m s f = elim (Bool-cases (k == m)) [
  | inl here ↦
      rw (here, pop) (subst (AllFrom m) (sym (remaining-next (k, v) es blocks s.1)) f.0.1, f.1)
  | inr later ↦ rw (later, pop) (f.0, pop-HeapFrom heap m s.2 f.1)
]

pub pop-total :
    (heap : List Cursor) (m : ℕ)
    → AllSound heap
    → min_key heap ≡ some m
    → suc (total (pop m heap).1) ≡ total heap
unfolding min_key pop
pop-total [] m s e = absurd (cc)
pop-total (invalid ∷ heap) m s e = omega (arith, pop-total heap m s.2 e)
pop-total (at (k, v) es blocks ∷ heap) m s e = elim (Bool-cases (k == m)) [
  | inl here ↦ rw (here, pop) (omega (arith, ap length (remaining-next (k, v) es blocks s.1)))
  | inr later ↦ elim (Option-cases (min_key heap)) [
    | inl alone ↦ absurd (ground (arith, alone))
    | inr (j, more) ↦ rw (later, pop) (omega (arith, pop-total heap m s.2 (ground (arith, more))))
  ]
]
