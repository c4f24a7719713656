-- ===== src/Propagator/Effect.antt =====
-- What a propagation has done when it ends.
use amind.Prelude.{
  ℕ, zero, suc, ◌≡◌, refl, ap, subst, true, false, ◌||◌, some, List, [], ◌∷◌, ◌++◌, arith, ltb,
  Bool-cases, inl, inr, ==_iff, if◌then◌else◌, Option-cases,
}
use amind.Prelude.Map
use amind.Prelude.Ids.{contains, insert, contains-append, contains-insert}
use amind.Lineage.{LineageIndex, mark_removed, mark, has_live_parents, any_live}
use amind.Propagator.{PropagationResult, Progress, spare, invalidate, walk, propagate}

-- The ids of the results with and without `invalidated`, and of all.
unfoldable pub invalidated_ids : List PropagationResult → List ℕ
invalidated_ids [] = []
invalidated_ids (r ∷ rs) =
    if r.invalidated then r.memory_id ∷ invalidated_ids rs else invalidated_ids rs

unfoldable pub checked_ids : List PropagationResult → List ℕ
checked_ids [] = []
checked_ids (r ∷ rs) = r.memory_id ∷ checked_ids rs

-- The callback, at each id in turn.
unfoldable pub call_all : {S : Type 0} → (ℕ → S → S) → List ℕ → S → S
call_all f [] s = s
call_all f (id ∷ ids) s = call_all f ids (f id s)

call_all-append :
    {S : Type 0} (f : ℕ → S → S) (ids : List ℕ) (id : ℕ) (s : S)
    → call_all f (ids ++ id ∷ []) s ≡ f id (call_all f ids s)
unfolding call_all
call_all-append f [] id s = refl
call_all-append f (x ∷ ids) id s = call_all-append f ids id (f x s)

pub invalidated_ids-spared :
    (rs : List PropagationResult) (id : ℕ)
    → invalidated_ids (rs ++ record { memory_id = id; invalidated = false } ∷ [])
      ≡ invalidated_ids rs
unfolding invalidated_ids
invalidated_ids-spared [] id = refl
invalidated_ids-spared (r ∷ rs) id = rw (invalidated_ids-spared rs id)

pub invalidated_ids-invalidated :
    (rs : List PropagationResult) (id : ℕ)
    → invalidated_ids (rs ++ record { memory_id = id; invalidated = true } ∷ [])
      ≡ invalidated_ids rs ++ id ∷ []
unfolding invalidated_ids
invalidated_ids-invalidated [] id = refl
invalidated_ids-invalidated (r ∷ rs) id = ground (arith, invalidated_ids-invalidated rs id)

any_live-insert :
    (n : ℕ) (removed parents : List ℕ)
    → any_live removed parents ≡ false
    → any_live (insert n removed) parents ≡ false
unfolding any_live
any_live-insert n removed [] h = refl
any_live-insert n removed (p ∷ parents) h =
    ground (arith, contains-insert n p removed, any_live-insert n removed parents)

has_live_parents-mark_removed :
    (index : LineageIndex) (n id : ℕ)
    → has_live_parents index id ≡ false
    → has_live_parents (mark_removed index n) id ≡ false
unfolding has_live_parents mark_removed mark
has_live_parents-mark_removed index n id h =
    elim (Option-cases (Map.find id index.child_to_record)) [
      | inl e ↦ rw (e, has_live_parents)
      | inr (r, e) ↦
          rw (e, has_live_parents)
            (any_live-insert n index.removed_nodes r.parent_ids (ground arith))
    ]

module _ {S : Type 0} (f : ℕ → S → S) where
  -- What holds between the rounds of a walk that began at `start` with the caller's state `s`.
  pub record IsDone (start : LineageIndex) (s : S) (p : Progress S) : Type 0 where
    pub records_kept : p.index.child_to_record ≡ start.child_to_record
    pub children_kept : p.index.parent_to_children ≡ start.parent_to_children
    pub removed :
        (x : ℕ)
        → contains x p.index.removed_nodes
          ≡ (contains x (invalidated_ids p.results) || contains x start.removed_nodes)
    pub called : p.caller ≡ call_all f (invalidated_ids p.results) s
    pub dead :
        (x : ℕ) → contains x (invalidated_ids p.results) ≡ true → has_live_parents p.index x ≡ false

  spare-IsDone :
      (start : LineageIndex) (s : S) (p : Progress S) (id : ℕ)
      → IsDone start s p
      → IsDone start s (spare f id p)
  spare-IsDone start s p id d =
      let e = invalidated_ids-spared p.results id in
      record {
        records_kept = d.records_kept;
        children_kept = d.children_kept;
        removed = λ x. rw e (d.removed x);
        called = rw e d.called;
        dead = λ x h. d.dead x (rw e at h);
      }

  dead_with :
      (start : LineageIndex) (s : S) (p : Progress S) (id x : ℕ)
      → IsDone start s p
      → has_live_parents p.index id ≡ false
      → contains x (invalidated_ids p.results ++ id ∷ []) ≡ true
      → has_live_parents p.index x ≡ false
  unfolding contains
  dead_with start s p id x d h c = elim (Bool-cases (contains x (invalidated_ids p.results))) [
    | inl old ↦ d.dead x old
    | inr new ↦
        subst (λ y. has_live_parents p.index y ≡ false)
          ((==_iff id x).0
            (ground (arith, contains-append x (invalidated_ids p.results) (id ∷ []))))
          h
  ]

  invalidate-IsDone :
      (start : LineageIndex) (s : S) (p : Progress S) (id : ℕ)
      → IsDone start s p
      → has_live_parents p.index id ≡ false
      → IsDone start s (invalidate f id p)
  unfolding mark_removed mark contains
  invalidate-IsDone start s p id d h =
      let e = invalidated_ids-invalidated p.results id in
      record {
        records_kept = d.records_kept;
        children_kept = d.children_kept;
        removed = λ x. rw e (
            ground (
              arith,
              d.removed x,
              contains-insert id x p.index.removed_nodes,
              contains-append x (invalidated_ids p.results) (id ∷ []),
            ));
        called = rw (e, call_all-append f (invalidated_ids p.results) id s) (ap (f id) d.called);
        dead = λ x c.
            has_live_parents-mark_removed p.index id x (dead_with start s p id x d h (rw e at c));
      }

  walk-IsDone :
      (start : LineageIndex) (s : S) (fuel max_depth : ℕ) (visited : List ℕ)
      (frontier : List (ℕ × ℕ)) (p : Progress S) {q : Progress S}
      → IsDone start s p
      → walk f fuel max_depth visited frontier p ≡ some q
      → IsDone start s q
  unfolding walk
  walk-IsDone start s zero max_depth visited frontier p d e = absurd (cc)
  walk-IsDone start s (suc fuel) max_depth visited [] p {q} d e =
      let same : p ≡ q = cc in subst (IsDone start s) same d
  walk-IsDone start s (suc fuel) max_depth visited ((id, depth) ∷ frontier) p d e =
      elim (Bool-cases (has_live_parents p.index id)) [
        | inl live ↦
            walk-IsDone start s fuel max_depth visited frontier (spare f id p)
              (spare-IsDone start s p id d) (rw (live, walk) at e)
        | inr dead ↦ elim (Bool-cases (ltb depth max_depth)) [
          | inl deeper ↦
              walk-IsDone start s fuel max_depth _ _ (invalidate f id p)
                (invalidate-IsDone start s p id d dead) (rw (dead, deeper, walk) at e)
          | inr deep ↦
              walk-IsDone start s fuel max_depth visited frontier (invalidate f id p)
                (invalidate-IsDone start s p id d dead) (rw (dead, deep, walk) at e)
        ]
      ]

  start-IsDone :
      (index : LineageIndex) (s : S)
      → IsDone index s (record { index = index; caller = s; results = [] })
  unfolding invalidated_ids call_all contains
  start-IsDone index s = record {
    records_kept = refl;
    children_kept = refl;
    removed = λ x. refl;
    called = refl;
    dead = λ x h. absurd (cc);
  }

  -- A propagation that starts by marking `deleted` marks exactly that memory and the invalidated
  -- ones as removed, keeps the records and the reverse index, calls back once for each invalidated
  -- memory, in order, and leaves each of these with no live parent.
  pub propagate-IsDone :
      (max_depth : ℕ) (index : LineageIndex) (deleted : ℕ) (s : S) {q : Progress S}
      → propagate f max_depth index deleted s ≡ some q
      → IsDone (mark_removed index deleted) s q
  unfolding propagate
  propagate-IsDone max_depth index deleted s e =
      walk-IsDone (mark_removed index deleted) s _ max_depth _ _ _
        (start-IsDone (mark_removed index deleted) s) e
