-- ===== src/MemoryStore/Bound.antt =====
-- How large the cache of src/memory/memory_store.cpp grows.
use amind.Prelude.{
  ℕ, zero, suc, ◌+◌, ◌/◌, ◌≤◌, ◌≡◌, refl, sym, ap, ◌∙◌, false, inl, inr, none, some, List, [], ◌∷◌,
  arith, ◌==◌, leb, length, Bool-cases,
}
use amind.Prelude.Map.{find, find_here, find_there, assign, erase, find-erase}
use amind.Record.{MemoryRecord}
use package.amind.MemoryStore.{MemoryStore, stamp, flag_embedding, flush_dirty_records}
use package.amind.MemoryStore.Parts.{Backend}
use package.amind.MemoryStore.Evict.{
  candidates, before, insert_sorted, sort_candidates, erase_first, evicted, evict_if_needed,
}
use package.amind.MemoryStore.Operations.{fast_store}
use package.amind.MemoryStore.Decay.{find_nothing}
use package.amind.MemoryStore.Distinct.{IsDistinct, HasKeys, assign-IsDistinct}

length-assign :
    (k : ℕ) (r : MemoryRecord) (m : List (ℕ × MemoryRecord)) → length (assign k r m) ≤ length m + 1
unfolding assign
length-assign k r [] = ground arith
length-assign k r ((j, q) ∷ m) = ground (arith, length-assign k r m)

length-erase_le : (k : ℕ) (m : List (ℕ × MemoryRecord)) → length (erase k m) ≤ length m
unfolding erase
length-erase_le k [] = ground arith
length-erase_le k ((j, q) ∷ m) = ground (arith, length-erase_le k m)

length-erase_found :
    (k : ℕ) (m : List (ℕ × MemoryRecord))
    → (r : MemoryRecord) → find k m ≡ some r
    → length (erase k m) + 1 ≤ length m
unfolding erase
length-erase_found k [] r h = absurd (find_nothing k r h)
length-erase_found k ((j, q) ∷ m) r h = elim (Bool-cases (j == k)) [
  | inl e ↦ rw (e, erase) (omega (arith, length-erase_le k m))
  | inr e ↦ rw (e, erase) (omega (arith, length-erase_found k m r (sym (find_there j k q m e) ∙ h)))
]

-- Each candidate is cached and comes once.
abbrev NotIn : ℕ → List (ℕ × ℕ) → Type 0
NotIn id [] = Unit {0}
NotIn id ((c, j) ∷ cs) = ((id == j) ≡ false) × NotIn id cs

abbrev IsErasable : List (ℕ × ℕ) → List (ℕ × MemoryRecord) → Type 0
IsErasable [] m = Unit {0}
IsErasable ((c, id) ∷ cs) m =
    ((r : MemoryRecord) × (find id m ≡ some r)) × NotIn id cs × IsErasable cs m

insert-NotIn :
    (id c j : ℕ) (cs : List (ℕ × ℕ))
    → (id == j) ≡ false
    → NotIn id cs
    → NotIn id (insert_sorted (c, j) cs)
unfolding insert_sorted
insert-NotIn id c j [] e n = (e, tt)
insert-NotIn id c j ((d, i) ∷ cs) e n = elim (Bool-cases (before (d, i) (c, j))) [
  | inl b ↦ rw (b, insert_sorted) (n.0, insert-NotIn id c j cs e n.1)
  | inr b ↦ rw (b, insert_sorted) (e, n)
]

insert-IsErasable :
    (c id : ℕ) (cs : List (ℕ × ℕ)) (m : List (ℕ × MemoryRecord))
    → IsErasable ((c, id) ∷ cs) m
    → IsErasable (insert_sorted (c, id) cs) m
unfolding insert_sorted
insert-IsErasable c id [] m e = e
insert-IsErasable c id ((d, i) ∷ cs) m (f, n, g) = elim (Bool-cases (before (d, i) (c, id))) [
  | inl b ↦
      rw (b, insert_sorted)
        (
          g.0,
          insert-NotIn i c id cs (ground (arith, n.0)) g.1,
          insert-IsErasable c id cs m (f, n.1, g.2),
        )
  | inr b ↦ rw (b, insert_sorted) (f, n, g)
]

sort-NotIn : (id : ℕ) (cs : List (ℕ × ℕ)) → NotIn id cs → NotIn id (sort_candidates cs)
unfolding sort_candidates
sort-NotIn id [] n = n
sort-NotIn id ((c, j) ∷ cs) n = insert-NotIn id c j (sort_candidates cs) n.0 (sort-NotIn id cs n.1)

sort-IsErasable :
    (cs : List (ℕ × ℕ)) (m : List (ℕ × MemoryRecord))
    → IsErasable cs m
    → IsErasable (sort_candidates cs) m
unfolding sort_candidates
sort-IsErasable [] m e = e
sort-IsErasable ((c, id) ∷ cs) m (f, n, g) =
    insert-IsErasable c id (sort_candidates cs) m (f, sort-NotIn id cs n, sort-IsErasable cs m g)

length-insert : (c : ℕ × ℕ) (cs : List (ℕ × ℕ)) → length (insert_sorted c cs) ≡ length cs + 1
unfolding insert_sorted
length-insert c [] = refl
length-insert c (d ∷ cs) = elim (Bool-cases (before d c)) [
  | inl b ↦ rw (b, insert_sorted) (omega (arith, length-insert c cs))
  | inr b ↦ rw (b, insert_sorted) (omega arith)
]

length-sort : (cs : List (ℕ × ℕ)) → length (sort_candidates cs) ≡ length cs
unfolding sort_candidates
length-sort [] = refl
length-sort (c ∷ cs) = omega (arith, length-insert c (sort_candidates cs), length-sort cs)

length-candidates : (m : List (ℕ × MemoryRecord)) → length (candidates m) ≡ length m
unfolding candidates
length-candidates [] = refl
length-candidates ((id, r) ∷ m) = ap suc (length-candidates m)

candidates-NotIn :
    (id : ℕ) (m : List (ℕ × MemoryRecord)) → find id m ≡ none → NotIn id (candidates m)
unfolding candidates
candidates-NotIn id [] h = tt
candidates-NotIn id ((j, r) ∷ m) h = elim (Bool-cases (j == id)) [
  | inl e ↦ absurd (differ (sym (find_here j id r m e) ∙ h))
  | inr e ↦ (ground (arith, e), candidates-NotIn id m (sym (find_there j id r m e) ∙ h))
]
  where
    differ : some r ≡ none → ⊥
    differ e = ground (arith, e)

wider :
    (cs : List (ℕ × ℕ)) (id : ℕ) (q : MemoryRecord) (m : List (ℕ × MemoryRecord))
    → NotIn id cs
    → IsErasable cs m
    → IsErasable cs ((id, q) ∷ m)
wider [] id q m n e = tt
wider ((c, j) ∷ cs) id q m n ((r, h), k, g) =
    ((r, find_there id j q m n.0 ∙ h), k, wider cs id q m n.1 g)

candidates-IsErasable : (m : List (ℕ × MemoryRecord)) → IsDistinct m → IsErasable (candidates m) m
unfolding candidates
candidates-IsErasable [] d = tt
candidates-IsErasable ((id, r) ∷ m) d =
    let n = candidates-NotIn id m d.0 in
    (
      (r, find_here id id r m (ground arith)),
      n,
      wider (candidates m) id r m n (candidates-IsErasable m d.1),
    )

narrower :
    (cs : List (ℕ × ℕ)) (id : ℕ) (m : List (ℕ × MemoryRecord))
    → NotIn id cs
    → IsErasable cs m
    → IsErasable cs (erase id m)
narrower [] id m n e = tt
narrower ((c, j) ∷ cs) id m n ((r, h), k, g) =
    ((r, find-erase id j m ∙ rw n.0 h), k, narrower cs id m n.1 g)

length-erase_first :
    (n : ℕ) (cs : List (ℕ × ℕ)) (m : List (ℕ × MemoryRecord))
    → n ≤ length cs
    → IsErasable cs m
    → length (erase_first n cs m) + n ≤ length m
unfolding erase_first
length-erase_first zero cs m h e = omega arith
length-erase_first (suc n) [] m h e = absurd (omega (arith, h))
length-erase_first (suc n) ((c, id) ∷ cs) m h ((r, f), k, g) = omega (
  arith,
  length-erase_first n cs (erase id m) (omega (arith, h)) (narrower cs id m k g),
  length-erase_found id m r f,
)

length-evicted :
    (m : List (ℕ × MemoryRecord)) → IsDistinct m → length (evicted m) + length m / 5 ≤ length m
length-evicted m d =
    length-erase_first (length m / 5) (sort_candidates (candidates m)) m
      (omega (arith, length-sort (candidates m), length-candidates m))
      (sort-IsErasable (candidates m) m (candidates-IsErasable m d))

-- With room for four records or more, a cache within its limit that has one entry for a key is within
-- its limit after `fastStore`.
pub fast_store-bounded :
    (P : Backend) (s : MemoryStore P) (fresh now : ℕ) (r : MemoryRecord)
    → HasKeys P s
    → 4 ≤ s.config.max_cache_size
    → length s.cache ≤ s.config.max_cache_size
    → length (fast_store P fresh now r s).1.cache ≤ s.config.max_cache_size
unfolding fast_store evict_if_needed flush_dirty_records
fast_store-bounded P s fresh now r d room h =
    let id = (stamp fresh now r).memory_id in
    let q = flag_embedding (stamp fresh now r) in
    let cache = assign id q s.cache in
    elim (Bool-cases (leb (length cache) s.config.max_cache_size)) [
      | inl small ↦ rw (small, fast_store, evict_if_needed) (ground (arith, small))
      | inr large ↦
          rw (large, fast_store, evict_if_needed)
            (omega (
              arith,
              length-assign id q s.cache,
              length-evicted cache (assign-IsDistinct id q s.cache d),
            ))
    ]
