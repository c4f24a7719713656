-- ===== src/MemoryStore/Touched.antt =====
-- What a read through src/memory/memory_store.cpp answers and leaves.
use amind.Prelude.{
  ℕ, ◌+◌, ◌%◌, ◌^◌, ◌≡◌, refl, sym, ap, ◌||◌, ◌∙◌, Bool, true, false, inl, inr, none, some, arith,
  ◌==◌, if◌then◌else◌, Option-cases,
}
use amind.Prelude.Map.{find}
use amind.Prelude.Ids
use amind.Record.{MemoryRecord}
use package.amind.MemoryStore.{MemoryStore, touch, try_promote, stored, peek}
use package.amind.MemoryStore.Parts.{Error, Result, ok, err, Backend}
use package.amind.MemoryStore.Operations.{get}

-- The record `q` is `r` with one access more, at the time `now`.
pub record IsAccessed (now : ℕ) (r q : MemoryRecord) : Type 0 where
  pub count : q.access_count ≡ (r.access_count + 1) % 2 ^ 32
  pub time : q.last_accessed ≡ now
  pub id : q.memory_id ≡ r.memory_id
  pub content : q.content ≡ r.content
  pub embedding : q.embedding ≡ r.embedding
  pub phase : q.phase ≡ r.phase
  pub flags : q.flags ≡ r.flags
  pub importance : q.importance ≡ r.importance

record_in : MemoryRecord → Result MemoryRecord → MemoryRecord
record_in d (err e) = d
record_in d (ok r) = r

is_ok : Result MemoryRecord → Bool
is_ok (err e) = false
is_ok (ok r) = true

never : (q : MemoryRecord) (e : Error) → ok q ≡ err e → ⊥
unfolding is_ok
never q e h = ground (arith, ap is_ok h)

module _ (P : Backend) (now id : ℕ) (s : MemoryStore P) where
  abbrev promoted : MemoryRecord → MemoryRecord
  promoted r = try_promote P.floats s.config (touch now r)

  peek-cached : (q : MemoryRecord) → find id s.cache ≡ some q → peek P s id ≡ ok q
  unfolding peek
  peek-cached q here = rw (here, peek) refl

  peek-stored : find id s.cache ≡ none → peek P s id ≡ stored P s.lsm id
  unfolding peek
  peek-stored absent = rw (absent, peek) refl

  -- What `get` leaves: the record in the cache, marked as dirty, every other one and the engine as
  -- they were.
  pub record IsRead (q : MemoryRecord) (t : MemoryStore P) : Type 0 where
    pub cached : (j : ℕ) → find j t.cache ≡ (if id == j then some q else find j s.cache)
    pub dirty : (j : ℕ) → Ids.contains j t.dirty_ids ≡ (id == j || Ids.contains j s.dirty_ids)
    pub engine : t.lsm ≡ s.lsm
    pub vectors : t.hnsw ≡ s.hnsw

  -- For an id that is not found or that cannot be read, `get` answers with the error and changes
  -- nothing.
  get-err : (e : Error) → peek P s id ≡ err e → get P now id s ≡ (err e, s)
  unfolding get
  get-err e h = elim (Option-cases (find id s.cache)) [
    | inr (q, here) ↦ absurd (never q e (sym (peek-cached q here) ∙ h))
    | inl absent ↦ missed absent (sym (peek-stored absent) ∙ h)
  ]
    where
      missed : find id s.cache ≡ none → stored P s.lsm id ≡ err e → get P now id s ≡ (err e, s)
      missed absent there = rw (absent, there, get) refl
