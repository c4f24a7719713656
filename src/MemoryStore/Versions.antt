-- ===== src/MemoryStore/Versions.antt =====
-- The versions that `update` of src/memory/memory_store.cpp makes.
use amind.Prelude.{ℕ, ◌+◌, ◌%◌, ◌^◌, ◌≡◌, refl, false, some, List, arith, ◌==◌, if◌then◌else◌}
use amind.Prelude.Map.{find, assign, find-assign}
use amind.Prelude.Ids.{is_empty}
use amind.Record.{MemoryRecord, MemoryPhase, is_active, mark_versioned, create_new_version}
use package.amind.MemoryStore.{MemoryStore, new_version, peek}
use package.amind.MemoryStore.Parts.{ok, Backend}
use package.amind.MemoryStore.Operations.{update}

-- `old` is superseded: a version that is not active, with the same content.
pub record IsSuperseded (old v : MemoryRecord) : Type 0 where
  pub phase : v.phase ≡ MemoryPhase.versioned
  pub inactive : is_active v ≡ false
  pub id : v.memory_id ≡ old.memory_id
  pub content : v.content ≡ old.content
  pub access_count : v.access_count ≡ old.access_count

-- `q` is the next version after `old`, under the id `new_id`.
pub record IsNextVersion (now new_id : ℕ) (content embedding : List ℕ) (old q : MemoryRecord)
    : Type 0 where
  pub id : q.memory_id ≡ new_id
  pub parent : q.parent_id ≡ old.memory_id
  pub version : q.mem_version ≡ (old.mem_version + 1) % 2 ^ 32
  pub phase : q.phase ≡ MemoryPhase.active
  pub content_new : q.content ≡ content
  pub embedding_new : q.embedding ≡ (if is_empty embedding then old.embedding else embedding)
  pub times : (q.created_at ≡ now) × (q.last_accessed ≡ now) × (q.access_count ≡ 0)
  pub importance : q.importance ≡ old.importance
  pub scope : q.scope ≡ old.scope

mark_versioned-IsSuperseded : (old : MemoryRecord) → IsSuperseded old (mark_versioned old)
unfolding mark_versioned is_active
mark_versioned-IsSuperseded old = record {
  phase = refl;
  inactive = refl;
  id = refl;
  content = refl;
  access_count = refl;
}

new_version-IsNextVersion :
    (now new_id : ℕ) (content embedding : List ℕ) (old : MemoryRecord)
    → IsNextVersion now new_id content embedding old (new_version now new_id content embedding old)
unfolding new_version create_new_version
new_version-IsNextVersion now new_id content embedding old = record {
  id = ground arith;
  parent = ground arith;
  version = ground arith;
  phase = ground arith;
  content_new = ground arith;
  embedding_new = ground arith;
  times = (ground arith, ground arith, ground arith);
  importance = ground arith;
  scope = ground arith;
}

-- For an id whose record `peek` shows, `update` answers with the new id. In the cache the record is
-- superseded, the new id has its next version, with the new content, and with the new embedding if
-- it is not empty, and every other entry is as it was; if the new id is the old one, the next version
-- stands there alone.
pub update-IsNextVersion :
    (P : Backend) (now new_id id : ℕ) (content embedding : List ℕ) (s : MemoryStore P)
    (old : MemoryRecord)
    → peek P s id ≡ ok old
    → let (answer, t) = update P now new_id id content embedding s in
      (v : MemoryRecord) × (q : MemoryRecord) × (answer ≡ ok new_id)
      × IsSuperseded old v
      × IsNextVersion now new_id content embedding old q
      × ((j : ℕ)
          → find j t.cache
            ≡ (if new_id == j then some q else if id == j then some v else find j s.cache))
unfolding update
update-IsNextVersion P now new_id id content embedding s old h =
    rw (h, update)
      (
        mark_versioned old,
        new_version now new_id content embedding old,
        refl,
        mark_versioned-IsSuperseded old,
        new_version-IsNextVersion now new_id content embedding old,
        λ j. ground (
          arith,
          find-assign new_id j (new_version now new_id content embedding old)
              (assign id (mark_versioned old) s.cache),
          find-assign id j (mark_versioned old) s.cache,
        ),
      )
