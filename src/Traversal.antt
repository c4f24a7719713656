-- ===== src/Traversal.antt =====
-- The loop that the breadth-first walks share (src/graph/graph_store.cpp, src/lineage/*.cpp):
-- `for (id : ids) if (!visited.count(id)) { visited.insert(id); queue.push({id, depth}); }`.
-- The front of a queue is the head of its list.
use amind.Prelude.{
  ℕ, suc, ◌+◌, ◌≤◌, ◌<◌, ◌≡◌, true, false, List, [], ◌∷◌, ◌++◌, arith, length, length-append,
  if◌then◌else◌, Bool-cases, inl, inr,
}
use amind.Prelude.Ids.{contains, contains-append}

unfoldable pub enqueue :
    (depth : ℕ) (ids visited : List ℕ) (queue : List (ℕ × ℕ)) → List ℕ × List (ℕ × ℕ)
enqueue depth [] visited queue = (visited, queue)
enqueue depth (id ∷ ids) visited queue = elim (contains id visited) [
  | true ↦ enqueue depth ids visited queue
  | false ↦ enqueue depth ids (id ∷ visited) (queue ++ (id, depth) ∷ [])
]

-- The ids of `all` that are still to be visited.
unfoldable pub unvisited : (all visited : List ℕ) → ℕ
unvisited [] visited = 0
unvisited (x ∷ all) visited =
    if contains x visited then unvisited all visited else suc (unvisited all visited)

abbrev pub AllIn : (ids all : List ℕ) → Type 0
AllIn [] all = Unit {0}
AllIn (x ∷ ids) all = (contains x all ≡ true) × AllIn ids all

unvisited-cons-le :
    (x : ℕ) (all visited : List ℕ) → unvisited all (x ∷ visited) ≤ unvisited all visited
unfolding unvisited contains
unvisited-cons-le x [] visited = omega arith
unvisited-cons-le x (y ∷ all) visited = ground (arith, unvisited-cons-le x all visited)

unvisited-cons-lt :
    (x : ℕ) (all visited : List ℕ)
    → contains x all ≡ true
    → contains x visited ≡ false
    → unvisited all (x ∷ visited) < unvisited all visited
unfolding unvisited contains
unvisited-cons-lt x [] visited h n = absurd (cc)
unvisited-cons-lt x (y ∷ all) visited h n =
    ground
      (arith, unvisited-cons-lt x all visited, unvisited-cons-le x all visited, same x y visited n)
  where
    same :
        (x y : ℕ) (visited : List ℕ)
        → contains x visited ≡ false
        → y ≡ x
        → contains y visited ≡ false
    same x y visited n e = rw e n

pub AllIn-left : (ids all more : List ℕ) → AllIn ids all → AllIn ids (all ++ more)
AllIn-left [] all more h = tt
AllIn-left (x ∷ ids) all more h =
    (ground (arith, contains-append x all more), AllIn-left ids all more h.1)

pub AllIn-right : (ids more all : List ℕ) → AllIn ids all → AllIn ids (more ++ all)
AllIn-right [] more all h = tt
AllIn-right (x ∷ ids) more all h =
    (ground (arith, contains-append x more all, h.0), AllIn-right ids more all h.1)

AllIn-cons : (x : ℕ) (ids all : List ℕ) → AllIn ids all → AllIn ids (x ∷ all)
AllIn-cons x ids all h = AllIn-right ids (x ∷ []) all h

pub AllIn-self : (ids : List ℕ) → AllIn ids ids
unfolding contains
AllIn-self [] = tt
AllIn-self (x ∷ ids) = (ground arith, AllIn-cons x ids ids (AllIn-self ids))

pub unvisited-le : (all visited : List ℕ) → unvisited all visited ≤ length all
unfolding unvisited
unvisited-le [] visited = omega arith
unvisited-le (x ∷ all) visited = ground (arith, unvisited-le all visited)

-- What a round adds to the queue it takes from the ids that are left.
pub enqueue-measure :
    (depth : ℕ) (all ids visited : List ℕ) (queue : List (ℕ × ℕ))
    → AllIn ids all
    → let (visited', queue') = enqueue depth ids visited queue in
      unvisited all visited' + length queue' ≤ unvisited all visited + length queue
unfolding enqueue
enqueue-measure depth all [] visited queue h = omega arith
enqueue-measure depth all (id ∷ ids) visited queue h = elim (Bool-cases (contains id visited)) [
  | inl seen ↦ rw (seen, enqueue) (enqueue-measure depth all ids visited queue h.1)
  | inr new ↦
      rw (new, enqueue)
        (omega (
          arith,
          enqueue-measure depth all ids (id ∷ visited) (queue ++ (id, depth) ∷ []) h.1,
          unvisited-cons-lt id all visited h.0 new,
          length-append queue ((id, depth) ∷ []),
        ))
]
