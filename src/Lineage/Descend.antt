-- ===== src/Lineage/Descend.antt =====
-- `getTransitiveDescendants` of src/lineage/lineage_index.cpp.
use amind.Prelude.{
  ℕ, zero, suc, ◌+◌, ◌<◌, ◌≡◌, refl, ap, true, false, Option, none, some, List, [], ◌∷◌, ◌++◌,
  arith, length, leb, ◌==◌, Bool-cases, inl, inr,
}
use amind.Prelude.Ids.{contains, contains-append}
use amind.Lineage.{LineageIndex, get_children}
use amind.Traversal.{enqueue, unvisited, enqueue-measure, unvisited-le}
use amind.Propagator.{all_children}
use amind.Propagator.Walk.{AllIn-children}

-- The ids that one round of the loop appends to the result: those that it also enqueues.
unfoldable pub unseen : (ids visited : List ℕ) → List ℕ
unseen [] visited = []
unseen (id ∷ ids) visited = elim (contains id visited) [
  | true ↦ unseen ids visited
  | false ↦ id ∷ unseen ids (id ∷ visited)
]

abbrev pub before : List ℕ → Option (List ℕ) → Option (List ℕ)
before ids none = none
before ids (some rest) = some (ids ++ rest)

-- The loop, on fuel; a node without children has an empty list of them.
unfoldable pub descend :
    (fuel max_depth : ℕ)
    → LineageIndex
    → (visited : List ℕ) (frontier : List (ℕ × ℕ)) → Option (List ℕ)
descend zero max_depth index visited frontier = none
descend (suc fuel) max_depth index visited [] = some []
descend (suc fuel) max_depth index visited ((current, depth) ∷ frontier) =
    elim (leb max_depth depth) [
      | true ↦ descend fuel max_depth index visited frontier
      | false ↦
          let next = enqueue (depth + 1) (get_children index current) visited frontier in
          before (unseen (get_children index current) visited)
            (descend fuel max_depth index next.0 next.1)
    ]

unfoldable pub get_transitive_descendants :
    LineageIndex → (parent_id max_depth : ℕ) → Option (List ℕ)
get_transitive_descendants index parent_id max_depth =
    descend (suc (suc (length (all_children index.parent_to_children)))) max_depth index
      (parent_id ∷ []) ((parent_id, 0) ∷ [])

seen_differs :
    (id x : ℕ) (visited : List ℕ)
    → contains x visited ≡ true
    → contains id visited ≡ false
    → (id == x) ≡ false
seen_differs id x visited h new = elim (Bool-cases (id == x)) [
  | inl same ↦ absurd (ground (arith, ap (λ (y : ℕ). contains y visited) (equal same)))
  | inr d ↦ d
]
  where
    equal : (id == x) ≡ true → id ≡ x
    equal same = ground arith

contains-unseen :
    (x : ℕ) (ids visited : List ℕ)
    → contains x visited ≡ true
    → contains x (unseen ids visited) ≡ false
unfolding unseen contains
contains-unseen x [] visited h = refl
contains-unseen x (id ∷ ids) visited h = elim (Bool-cases (contains id visited)) [
  | inl old ↦ rw (old, unseen) (contains-unseen x ids visited h)
  | inr new ↦
      rw (new, unseen)
        (ground (arith, contains-unseen x ids (id ∷ visited), seen_differs id x visited h new))
]

contains-enqueue :
    (x depth : ℕ) (ids visited : List ℕ) (frontier : List (ℕ × ℕ))
    → contains x visited ≡ true
    → contains x (enqueue depth ids visited frontier).0 ≡ true
unfolding enqueue contains
contains-enqueue x depth [] visited frontier h = h
contains-enqueue x depth (id ∷ ids) visited frontier h = elim (Bool-cases (contains id visited)) [
  | inl old ↦ rw (old, enqueue) (contains-enqueue x depth ids visited frontier h)
  | inr new ↦ rw (new, enqueue) (contains-enqueue x depth ids (id ∷ visited) _ (ground arith))
]

descend-total :
    (fuel max_depth parent : ℕ) (index : LineageIndex) (visited : List ℕ) (frontier : List (ℕ × ℕ))
    → contains parent visited ≡ true
    → unvisited (all_children index.parent_to_children) visited + length frontier < fuel
    → (ids : List ℕ) × (descend fuel max_depth index visited frontier ≡ some ids)
      × (contains parent ids ≡ false)
unfolding descend contains
descend-total zero max_depth parent index visited frontier v h = absurd (omega arith)
descend-total (suc fuel) max_depth parent index visited [] v h = ([], refl, refl)
descend-total (suc fuel) max_depth parent index visited ((current, depth) ∷ frontier) v h =
    elim (Bool-cases (leb max_depth depth)) [
      | inl deep ↦
          rw (deep, descend)
            (descend-total fuel max_depth parent index visited frontier v (omega arith))
      | inr deeper ↦
          let kids = get_children index current in
          let next = enqueue (depth + 1) kids visited frontier in
          let (ids, e, n) =
            descend-total fuel max_depth parent index next.0 next.1
              (contains-enqueue parent (depth + 1) kids visited frontier v)
              (omega (
                arith,
                enqueue-measure (depth + 1) (all_children index.parent_to_children) kids visited
                    frontier (AllIn-children index current),
              )) in
          (
            unseen kids visited ++ ids,
            rw (deeper, descend) (ap (before (unseen kids visited)) e),
            ground (
              arith,
              contains-append parent (unseen kids visited) ids,
              contains-unseen parent kids visited v,
            ),
          )
    ]

-- The search for descendants always ends, whatever cycles the lineage has, and never lists the
-- memory that it starts from.
descendants-total :
    (index : LineageIndex) (parent_id max_depth : ℕ)
    → (ids : List ℕ) × (get_transitive_descendants index parent_id max_depth ≡ some ids)
      × (contains parent_id ids ≡ false)
unfolding get_transitive_descendants contains
descendants-total index parent_id max_depth =
    descend-total (suc (suc (length (all_children index.parent_to_children)))) max_depth parent_id
      index (parent_id ∷ []) ((parent_id, 0) ∷ []) (ground arith)
      (omega (arith, unvisited-le (all_children index.parent_to_children) (parent_id ∷ [])))
