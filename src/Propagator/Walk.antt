-- ===== src/Propagator/Walk.antt =====
-- The walk ends.
use amind.Prelude.{
  ℕ, zero, suc, ◌+◌, ◌<◌, ◌≡◌, refl, ap, ◌∙◌, subst, true, some, List, [], ◌∷◌, arith, length, ltb,
  Bool-cases, inl, inr,
}
use amind.Prelude.Map
use amind.Prelude.Ids.{contains, contains-append}
use amind.Lineage.{LineageIndex, mark_removed, mark, get_children, has_live_parents, children}
use amind.Traversal.{unvisited, AllIn, enqueue-measure, unvisited-le}
use amind.Propagator.{Progress, all_children, spare, invalidate, walk, propagate}

children_in_all :
    (reverse : List (ℕ × List ℕ)) (id x : ℕ)
    → contains x (children reverse id) ≡ true
    → contains x (all_children reverse) ≡ true
unfolding Map.find contains
children_in_all [] id x h = absurd (cc)
children_in_all ((j, ids) ∷ reverse) id x h =
    ground (arith, contains-append x ids (all_children reverse), children_in_all reverse id x)

AllIn-contains :
    (ids all : List ℕ) → ((x : ℕ) → contains x ids ≡ true → contains x all ≡ true) → AllIn ids all
unfolding contains
AllIn-contains [] all h = tt
AllIn-contains (x ∷ ids) all h =
    (h x (ground arith), AllIn-contains ids all (λ y hy. h y (ground arith)))

pub AllIn-children :
    (index : LineageIndex) (id : ℕ)
    → AllIn (get_children index id) (all_children index.parent_to_children)
unfolding get_children
AllIn-children index id =
    AllIn-contains _ _ (λ x h. children_in_all index.parent_to_children id x h)

same_children :
    (index : LineageIndex) (id : ℕ)
    → (mark_removed index id).parent_to_children ≡ index.parent_to_children
unfolding mark_removed mark
same_children index id = refl

module _ {S : Type 0} (on_invalidate : ℕ → S → S) where
  -- With more fuel than ids that wait or are left to visit, the walk ends.
  walk-total :
      (all : List ℕ) (fuel max_depth : ℕ) (visited : List ℕ) (frontier : List (ℕ × ℕ))
      (p : Progress S)
      → all_children p.index.parent_to_children ≡ all
      → unvisited all visited + length frontier < fuel
      → (q : Progress S) × (walk on_invalidate fuel max_depth visited frontier p ≡ some q)
  unfolding walk
  walk-total all zero max_depth visited frontier p e h = absurd (omega arith)
  walk-total all (suc fuel) max_depth visited [] p e h = (p, refl)
  walk-total all (suc fuel) max_depth visited ((id, depth) ∷ frontier) p e h =
      elim (Bool-cases (has_live_parents p.index id)) [
        | inl live ↦
            rw (live, walk)
              (walk-total all fuel max_depth visited frontier (spare on_invalidate id p) e
                (omega arith))
        | inr dead ↦ elim (Bool-cases (ltb depth max_depth)) [
          | inl deeper ↦
              rw (dead, deeper, walk)
                (walk-total all fuel max_depth _ _ (invalidate on_invalidate id p) (marked p id e) (
                  omega (
                    arith,
                    enqueue-measure (depth + 1) all (get_children (mark_removed p.index id) id)
                        visited frontier
                        (subst (AllIn (get_children (mark_removed p.index id) id)) (marked p id e)
                          (AllIn-children (mark_removed p.index id) id)),
                  )))
          | inr deep ↦
              rw (dead, deep, walk)
                (walk-total all fuel max_depth visited frontier (invalidate on_invalidate id p)
                  (marked p id e) (omega arith))
        ]
      ]
    where
      marked :
          (p : Progress S) (id : ℕ)
          → all_children p.index.parent_to_children ≡ all
          → all_children (mark_removed p.index id).parent_to_children ≡ all
      marked p id e = ap all_children (same_children p.index id) ∙ e

  -- A propagation always ends, whatever cycles the lineage has and whatever the depth limit is.
  pub propagate-total :
      (max_depth : ℕ) (index : LineageIndex) (deleted : ℕ) (caller : S)
      → (q : Progress S) × (propagate on_invalidate max_depth index deleted caller ≡ some q)
  unfolding propagate
  propagate-total max_depth index deleted caller =
      let start = mark_removed index deleted in
      let all = all_children index.parent_to_children in
      walk-total all (suc (length all)) max_depth _ _ _
        (ap all_children (same_children index deleted))
        (omega (
          arith,
          enqueue-measure 1 all (get_children start deleted) [] [] (
              subst (AllIn (get_children start deleted))
                (ap all_children (same_children index deleted)) (AllIn-children start deleted)),
          unvisited-le all [],
        ))
