-- ===== src/Graph/Reach.antt =====
-- What `traverse` lists can be reached within the depth.
use amind.Prelude.{
  ℕ, zero, suc, ◌+◌, ◌≤◌, ◌≡◌, refl, subst, true, Option, none, some, List, [], ◌∷◌, ◌++◌, arith,
  map, leb, Bool-cases, inl, inr,
}
use amind.Prelude.Ids.{contains}
use amind.Traversal.{enqueue, AllIn, AllIn-self}
use amind.Graph.{GraphEdge, Adjacency, GraphStore, edges_of, edge_count, traverse_loop, traverse}
use amind.Graph.Traverse.{traverse-total}

abbrev neighbors : Adjacency → ℕ → List ℕ
neighbors g id = map (λ (e : GraphEdge). e.to_id) (edges_of g id)

-- A path of `d` edges leads from `start` to the id.
data Reaches (g : Adjacency) (start : ℕ) : (d id : ℕ) → Type 0 where
  stay : Reaches g start 0 start
  follow :
      {d id : ℕ} (next : ℕ)
      → Reaches g start d id
      → contains next (neighbors g id) ≡ true
      → Reaches g start (d + 1) next

module _ (g : Adjacency) (start max_depth : ℕ) where
  abbrev InReach : ℕ → Type 0
  InReach id = (d : ℕ) × (d ≤ max_depth) × Reaches g start d id

  abbrev QueueInReach : List (ℕ × ℕ) → Type 0
  QueueInReach [] = Unit {0}
  QueueInReach ((id, d) ∷ queue) = (d ≤ max_depth) × Reaches g start d id × QueueInReach queue

  abbrev AllInReach : List ℕ → Type 0
  AllInReach [] = Unit {0}
  AllInReach (id ∷ ids) = InReach id × AllInReach ids

  abbrev ResultInReach : Option (List ℕ) → Type 0
  ResultInReach none = Unit {0}
  ResultInReach (some ids) = AllInReach ids

  append-QueueInReach :
      (queue : List (ℕ × ℕ)) (id d : ℕ)
      → QueueInReach queue
      → d ≤ max_depth
      → Reaches g start d id
      → QueueInReach (queue ++ (id, d) ∷ [])
  append-QueueInReach [] id d q h r = (h, r, tt)
  append-QueueInReach ((i, k) ∷ queue) id d q h r =
      (q.0, q.1, append-QueueInReach queue id d q.2 h r)

  enqueue-QueueInReach :
      (id d : ℕ) (ids visited : List ℕ) (queue : List (ℕ × ℕ))
      → Reaches g start d id
      → d + 1 ≤ max_depth
      → AllIn ids (neighbors g id)
      → QueueInReach queue
      → QueueInReach (enqueue (d + 1) ids visited queue).1
  unfolding enqueue
  enqueue-QueueInReach id d [] visited queue r h a q = q
  enqueue-QueueInReach id d (i ∷ ids) visited queue r h a q =
      elim (Bool-cases (contains i visited)) [
        | inl old ↦ rw (old, enqueue) (enqueue-QueueInReach id d ids visited queue r h a.1 q)
        | inr new ↦
            rw (new, enqueue)
              (enqueue-QueueInReach id d ids (i ∷ visited) _ r h a.1
                (append-QueueInReach queue i (d + 1) q h (follow i r a.0)))
      ]

  listed :
      (current : ℕ) (o : Option (List ℕ)) (ids : List ℕ)
      → ◌≡◌ {A = Option (List ℕ)} (elim o [ none ↦ none | some r ↦ some (current ∷ r) ]) (some ids)
      → InReach current
      → ((r : List ℕ) → o ≡ some r → AllInReach r)
      → AllInReach ids
  listed current none ids e c rest = absurd (cc)
  listed current (some r) ids e c rest = subst ResultInReach e (c, rest r refl)

  loop-AllInReach :
      (fuel : ℕ) (visited : List ℕ) (queue : List (ℕ × ℕ)) (ids : List ℕ)
      → QueueInReach queue
      → traverse_loop fuel max_depth g visited queue ≡ some ids
      → AllInReach ids
  unfolding traverse_loop
  loop-AllInReach zero visited queue ids q e = absurd (cc)
  loop-AllInReach (suc fuel) visited [] [] q e = tt
  loop-AllInReach (suc fuel) visited [] (i ∷ ids) q e = absurd (cc)
  loop-AllInReach (suc fuel) visited ((current, d) ∷ queue) ids q e =
      elim (Bool-cases (leb max_depth d)) [
        | inl deep ↦
            listed current _ ids (rw (deep, traverse_loop) at e) (d, q.0, q.1)
              (λ r. loop-AllInReach fuel visited queue r q.2)
        | inr deeper ↦
            listed current _ ids (rw (deeper, traverse_loop) at e) (d, q.0, q.1)
              (λ r. loop-AllInReach fuel _ _ r (
                enqueue-QueueInReach current d (neighbors g current) visited queue q.1
                  (ground arith) (AllIn-self (neighbors g current)) q.2))
      ]

-- A traversal returns, and every id that it lists is reached from its start along edges of the
-- graph, within the depth.
traverse-AllInReach :
    (g : GraphStore) (start_id max_depth : ℕ)
    → (ids : List ℕ) × (traverse g start_id max_depth ≡ some ids)
      × AllInReach g.edges start_id max_depth ids
unfolding traverse
traverse-AllInReach g start_id max_depth =
    let (ids, e) = traverse-total g start_id max_depth in
    (
      start_id ∷ ids,
      e,
      loop-AllInReach g.edges start_id max_depth (suc (suc (edge_count g))) (start_id ∷ [])
          ((start_id, 0) ∷ []) _ (omega arith, stay, tt) e,
    )
