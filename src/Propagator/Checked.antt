-- ===== src/Propagator/Checked.antt =====
-- Which memories a propagation checks.
use amind.Prelude.{ℕ, ◌+◌, ◌<◌, ◌≤◌, ◌≡◌, true, false, ◌||◌, List, [], ◌∷◌, ◌++◌, length}
use amind.Prelude.Ids.{contains}
use amind.Lineage.{LineageIndex, get_children}
use amind.Propagator.{Progress}
use amind.Propagator.Effect.{checked_ids, invalidated_ids}

abbrev waiting : List (ℕ × ℕ) → List ℕ
waiting [] = []
waiting ((id, depth) ∷ frontier) = id ∷ waiting frontier

-- No id stands twice in the list.
abbrev pub AllDistinct : List ℕ → Type 0
AllDistinct [] = Unit {0}
AllDistinct (x ∷ xs) = (contains x xs ≡ false) × AllDistinct xs

-- The visited ids are those that were checked or wait, each once.
record IsSeen (checked visited : List ℕ) (frontier : List (ℕ × ℕ)) : Type 0 where
  seen : (x : ℕ) → contains x visited ≡ (contains x checked || contains x (waiting frontier))
  once : AllDistinct (checked ++ waiting frontier)

-- No id that waits after `n` checks lies deeper than that.
abbrev AllShallow : ℕ → List (ℕ × ℕ) → Type 0
AllShallow n [] = Unit {0}
AllShallow n ((id, depth) ∷ frontier) = (depth ≤ n + 1) × AllShallow n frontier

module _ {S : Type 0} (f : ℕ → S → S) (start : LineageIndex) (max_depth : ℕ) where
  -- The children of what was invalidated are among `ids`, as long as the checks do not reach the
  -- depth limit.
  abbrev Spreads : Progress S → List ℕ → Type 0
  Spreads p ids =
      length p.results < max_depth
      → (id x : ℕ) → contains id (invalidated_ids p.results) ≡ true
      → contains x (get_children start id) ≡ true
      → contains x ids ≡ true

  record IsWalking (visited : List ℕ) (frontier : List (ℕ × ℕ)) (p : Progress S) : Type 0 where
    state : IsSeen (checked_ids p.results) visited frontier
    shallow : AllShallow (length p.results) frontier
    same : (id : ℕ) → get_children p.index id ≡ get_children start id
    spreads : Spreads p visited

-- What a propagation from `deleted` has checked: no memory twice, every child of `deleted`, and
-- every child of what it invalidated, if it checked fewer memories than the depth limit.
pub record IsChecked {S : Type 0} (index : LineageIndex) (max_depth deleted : ℕ) (q : Progress S)
    : Type 0 where
  pub once : AllDistinct (checked_ids q.results)
  pub seeded :
      (x : ℕ)
      → contains x (get_children index deleted) ≡ true
      → contains x (checked_ids q.results) ≡ true
  pub spread :
      length q.results < max_depth
      → (id x : ℕ) → contains id (invalidated_ids q.results) ≡ true
      → contains x (get_children index id) ≡ true
      → contains x (checked_ids q.results) ≡ true
